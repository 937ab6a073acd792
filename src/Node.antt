-- ===== src/Node.antt =====
-- pyaseba/client/node/node.py
pub mod State
pub mod Cache
pub mod Update
pub mod Events
pub mod Connect
pub mod Invariant
pub mod Keeps
pub mod Preserve
pub mod Refresh
pub mod Lives
pub mod Link
pub mod Arrive
pub mod Construct
pub mod Exposed
pub mod Reach
pub mod Access
pub mod Callbacks
pub mod Mirrored
pub mod Delivery
pub mod Observed
pub mod Started
pub mod Changes
pub mod Linked
pub mod Found
pub mod Connected
pub mod Refused
pub mod Memory
pub mod Samples
mod Tests
pub mod Sync
