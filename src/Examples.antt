-- ===== src/Examples.antt =====
-- Programs that use the library: the entry points of the shells, and examples for a Thymio.
pub mod Entry
pub mod Behavior
pub mod Callbacks
mod Tests
