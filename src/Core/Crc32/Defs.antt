-- ===== src/Core/Crc32/Defs.antt =====
-- core/crc32.cpp: the table, the loop over the bytes and the continuation of a stream.
use load_forge.Common.{
  ℕ, zero, suc, ◌-◌, ◌/◌, ◌^◌, ◌≡◌, refl, List, [], ◌∷◌, bit_and, bit_xor, ◌==◌, if◌then◌else◌,
}

abbrev pub polynomial : ℕ
polynomial = 0xEDB88320

-- One round of the inner loop of `make_table`.
unfoldable pub table_bit : ℕ → ℕ
table_bit entry = if bit_and entry 1 == 0 then entry / 2 else bit_xor (entry / 2) polynomial

unfoldable pub table_bits : ℕ → ℕ → ℕ
unfolding table_bit
table_bits zero entry = entry
table_bits (suc bits) entry = table_bits bits (table_bit entry)

-- `kTable.at(index)` for an index below 256: the entry that `make_table` computes.
unfoldable pub table_at : ℕ → ℕ
unfolding table_bits
table_at index = table_bits 8 index

-- `~` on a uint32_t.
abbrev pub not32 : ℕ → ℕ
not32 value = 2 ^ 32 - 1 - value

-- The body of the loop of `crc32_update` over one byte.
unfoldable pub crc_step : ℕ → ℕ → ℕ
unfolding table_at
crc_step running byte = bit_xor (table_at (bit_and (bit_xor running byte) 0xFF)) (running / 2 ^ 8)

unfoldable pub crc_run : ℕ → List ℕ → ℕ
unfolding crc_step
crc_run running [] = running
crc_run running (byte ∷ bytes) = crc_run (crc_step running byte) bytes

unfoldable pub crc32_update : ℕ → List ℕ → ℕ
unfolding crc_run
crc32_update crc bytes = not32 (crc_run (not32 crc) bytes)

unfoldable pub crc32 : List ℕ → ℕ
unfolding crc32_update
crc32 bytes = crc32_update 0 bytes

-- The published check value, of the text "123456789".
check_value : crc32 (b'1' ∷ b'2' ∷ b'3' ∷ b'4' ∷ b'5' ∷ b'6' ∷ b'7' ∷ b'8' ∷ b'9' ∷ []) ≡ 0xCBF43926
unfolding crc32
check_value = refl
