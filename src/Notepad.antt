-- ===== src/Notepad.antt =====
-- apps/notepad: the text editor's helper and its syntax highlighter.
pub mod Documents
pub mod Recent
pub mod Keywords
pub mod Languages
pub mod Highlight
pub mod Saving
pub mod Blocks
pub mod Editing
mod Tests
