-- ===== src/Core.antt =====
-- src/core: the values that every part of LoadForge shares.
pub mod Crc32
pub mod Numbers
pub mod Units
