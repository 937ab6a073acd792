-- ===== src/Shells.antt =====
-- The interactive shells for a client and for a node: their commands, with the text that the user
-- types as argument. What is printed is a list of values in the state.
pub mod Words
pub mod ClientShell
pub mod NodeShell
pub mod Completion
pub mod Typed
pub mod Values
mod Tests
