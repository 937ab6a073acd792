-- ===== src/Node/Memory.antt =====
-- The memory of a node as `_set_changes` reads it: variables that lie one behind the other, and
-- what a run of words written at an address does to them.
mod Overlay
pub mod Layout
mod Touched
pub mod Write
mod Round
mod Loop
pub mod Changed
mod Answers
pub mod Updated
mod Tests
