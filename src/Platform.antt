-- ===== src/Platform.antt =====
-- src/platform: what the program asks of the operating system.
pub mod ExitStatus
