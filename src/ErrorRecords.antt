-- ===== src/ErrorRecords.antt =====
-- src/verification/record.hpp and record/codec.cpp: the records of a failed check, the rules on them
-- and their encoding on the record channel.
pub mod Types
pub mod Rules
pub mod Agreement
pub mod Writer
pub mod Reader
pub mod Codec
pub mod RoundTrip
pub mod Refusals
