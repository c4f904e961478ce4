-- ===== src/Fat32.antt =====
-- The FAT32 file system of src/fs/fat32.c.
pub mod Changes
pub mod Contents
pub mod Copies
pub mod Dir
pub mod Entry
pub mod File
pub mod Keeps
pub mod Moves
pub mod Name
pub mod ShortName
pub mod State
pub mod Stays
pub mod Table
mod Tests
pub mod Tree
pub mod Walks
