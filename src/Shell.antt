-- ===== src/Shell.antt =====
-- The shell of src/shell/shell.c.
pub mod Argv
pub mod Cd
pub mod Descend
pub mod Digits
pub mod Exec
pub mod Files
pub mod Follow
pub mod Launch
pub mod Room
pub mod Runs
pub mod State
pub mod Stays
pub mod Tests
pub mod Tasks
pub mod Text
pub mod Track
pub mod Info
pub mod Line
pub mod Memory
pub mod Names
pub mod Path
pub mod Stack
