-- ===== src/Files.antt =====
-- apps/files: the file manager.
pub mod System
pub mod Names
pub mod Operations
pub mod Recursion
pub mod SelfCopy
pub mod Trash
pub mod Rename
pub mod Info
mod Tests
