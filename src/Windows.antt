-- ===== src/Windows.antt =====
-- The list of open windows, which the compositor keeps and the shell's taskbar follows over D-Bus.
pub mod Registry
pub mod Taskbar
pub mod Rows
pub mod Signals
pub mod Mirror
pub mod Seeding
pub mod Start
pub mod Answers
pub mod Unique
pub mod Started
mod Tests
