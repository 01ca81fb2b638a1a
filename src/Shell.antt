-- ===== src/Shell.antt =====
-- The small helpers of the shell and the compositor: the trash icon, the volume, the battery, the
-- wallpapers and the start of programs.
pub mod TrashIcon
pub mod Volume
pub mod Power
pub mod Wallpapers
pub mod WallpaperSource
pub mod ProcessLauncher
mod Tests
