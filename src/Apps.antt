-- ===== src/Apps.antt =====
-- desktop/shell: the applications that the launcher offers, and `.desktop` files.
pub mod DesktopFile
pub mod FieldCodes
pub mod AppModel
pub mod Sections
pub mod Scanning
pub mod Filter
mod Tests
