-- ===== src/DesktopIcons.antt =====
-- desktop/shell/src/DesktopIconModel.h and DesktopIconModel.cpp: the icons on the desktop.
pub mod Disk
pub mod Entry
pub mod Model
pub mod Actions
pub mod Watching
pub mod ShortcutFile
pub mod Shortcut
pub mod Trashing
mod Tests
