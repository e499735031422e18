-- ===== src/Journal.antt =====
-- src/controller/journal: the crash journal.
pub mod Format
pub mod Scan
pub mod RoundTrip
pub mod Records
pub mod Cuts
pub mod Recovery
pub mod Total
pub mod Writer
pub mod FileStorage
