-- ===== src/Core/Crc32.antt =====
-- core/crc32.cpp: CRC-32 (IEEE 802.3) by a byte table, and what it promises.
mod Defs
pub mod Detects
unfoldable pub use Defs.{polynomial, table_bit, table_bits, table_at, not32, crc_step, crc_run}
unfoldable pub use Defs.{crc32_update, crc32}
