-- ===== src/Core/Crc32/Detects.antt =====
-- What a CRC-32 tells apart: the update is injective in the running value and in each byte.
use load_forge.Common.{
  ℕ, zero, suc, ◌/◌, ◌%◌, ◌^◌, ◌<◌, ◌≡◌, ◌≢◌, refl, sym, ap, ◌∙◌, List, [], ◌∷◌, ◌++◌, length, true,
  bit_and, bit_xor, ltb, ◌==◌, ==_iff, ltb→lt, if◌then◌else◌, arith,
}
use load_forge.Common.And.{low_byte}
use load_forge.Common.Tables.{holds_below, holds_from, read_off}
use load_forge.Common.Xor.{
  bit_xor-lt, bit_xor-shift, bit_xor-low, bit_xor-cancel, bit_xor_comm, zero-bit_xor,
}
use load_forge.Core.Crc32.Defs.{not32, table_at, crc_step, crc_run, crc32_update, crc32}

-- The top bytes of the table, from entry `i` down, and the entry that has a given one.
tops : ℕ → List ℕ
tops zero = []
tops (suc i) = (table_at i / 2 ^ 24) ∷ tops i

entry_with : ℕ → List ℕ → ℕ
entry_with top [] = 0
entry_with top (t ∷ rest) = if t == top then length rest else entry_with top rest

table_of_tops : holds_below 256 (λ i. entry_with (table_at i / 2 ^ 24) (tops 256) == i) ≡ true
unfolding holds_from tops entry_with table_at
table_of_tops = refl

table_fits : holds_below 256 (λ i. ltb (table_at i) (2 ^ 32)) ≡ true
unfolding holds_from table_at
table_fits = refl

top_byte-injective :
    (i j : ℕ) → i < 256 → j < 256 → table_at i / 2 ^ 24 ≡ table_at j / 2 ^ 24 → i ≡ j
top_byte-injective i j p q e =
    sym (found i p) ∙ ap (λ (t : ℕ). entry_with t (tops 256)) e ∙ found j q
  where
    found : (k : ℕ) → k < 256 → entry_with (table_at k / 2 ^ 24) (tops 256) ≡ k
    found k h = (==_iff _ k).0 (read_off 256 _ k table_of_tops h)

table_at-lt : (i : ℕ) → i < 256 → table_at i < 2 ^ 32
table_at-lt i h = ltb→lt _ _ (read_off 256 _ i table_fits h)

pub crc_step-lt : (running byte : ℕ) → running < 2 ^ 32 → crc_step running byte < 2 ^ 32
unfolding crc_step
crc_step-lt running byte h =
    bit_xor-lt 32 _ _ (table_at-lt _ (omega (arith, low_byte (bit_xor running byte)))) (omega arith)

pub crc_run-lt : (bytes : List ℕ) (running : ℕ) → running < 2 ^ 32 → crc_run running bytes < 2 ^ 32
unfolding crc_run
crc_run-lt [] running h = h
crc_run-lt (byte ∷ bytes) running h = crc_run-lt bytes _ (crc_step-lt running byte h)

abbrev index_of : ℕ → ℕ → ℕ
index_of running byte = bit_and (bit_xor running byte) 0xFF

-- The top byte of a step is that of the table's entry: the shifted value has none.
step_top :
    (running byte : ℕ)
    → running < 2 ^ 32
    → crc_step running byte / 2 ^ 24 ≡ table_at (index_of running byte) / 2 ^ 24
unfolding crc_step
step_top running byte h =
    bit_xor-shift 24 _ (running / 2 ^ 8) ∙ ap (bit_xor _) empty ∙ bit_xor_comm _ 0 ∙ zero-bit_xor _
  where
    empty : running / 2 ^ 8 / 2 ^ 24 ≡ 0
    empty = omega arith

step_index :
    (r s b c : ℕ)
    → r < 2 ^ 32
    → s < 2 ^ 32
    → crc_step r b ≡ crc_step s c
    → index_of r b ≡ index_of s c
step_index r s b c hr hs e =
    top_byte-injective _ _ (omega (arith, low_byte (bit_xor r b)))
      (omega (arith, low_byte (bit_xor s c)))
      (sym (step_top r b hr) ∙ ap (λ (t : ℕ). t / 2 ^ 24) e ∙ step_top s c hs)

index_low : (r b : ℕ) → index_of r b ≡ bit_xor (r % 2 ^ 8) (b % 2 ^ 8)
index_low r b = low_byte (bit_xor r b) ∙ bit_xor-low 8 r b

pub crc_step-injective :
    (r s byte : ℕ) → r < 2 ^ 32 → s < 2 ^ 32 → crc_step r byte ≡ crc_step s byte → r ≡ s
unfolding crc_step
crc_step-injective r s byte hr hs e = omega (arith, low, high)
  where
    same : index_of r byte ≡ index_of s byte
    same = step_index r s byte byte hr hs e

    low : r % 2 ^ 8 ≡ s % 2 ^ 8
    low = bit_xor-cancel _ _ (byte % 2 ^ 8) (sym (index_low r byte) ∙ same ∙ index_low s byte)

    high : r / 2 ^ 8 ≡ s / 2 ^ 8
    high = bit_xor-cancel _ _ (table_at (index_of s byte)) (
        bit_xor_comm _ _
        ∙ ap (λ (t : ℕ). bit_xor (table_at t) (r / 2 ^ 8)) (sym same)
        ∙ e
        ∙ bit_xor_comm _ _)

pub crc_step_byte :
    (r b c : ℕ) → r < 2 ^ 32 → b < 256 → c < 256 → crc_step r b ≡ crc_step r c → b ≡ c
crc_step_byte r b c hr hb hc e = omega (arith, same)
  where
    same : b % 2 ^ 8 ≡ c % 2 ^ 8
    same = bit_xor-cancel _ _ (r % 2 ^ 8) (
        bit_xor_comm _ _
        ∙ sym (index_low r b)
        ∙ step_index r r b c hr hr e
        ∙ index_low r c
        ∙ bit_xor_comm _ _)

crc_run-injective :
    (bytes : List ℕ) (r s : ℕ) → r < 2 ^ 32 → s < 2 ^ 32 → crc_run r bytes ≡ crc_run s bytes → r ≡ s
unfolding crc_run
crc_run-injective [] r s hr hs e = e
crc_run-injective (byte ∷ bytes) r s hr hs e =
    crc_step-injective r s byte hr hs
      (crc_run-injective bytes _ _ (crc_step-lt r byte hr) (crc_step-lt s byte hs) e)

pub crc_run-append :
    (a b : List ℕ) (running : ℕ) → crc_run running (a ++ b) ≡ crc_run (crc_run running a) b
unfolding crc_run
crc_run-append [] b running = refl
crc_run-append (byte ∷ a) b running = crc_run-append a b (crc_step running byte)

not32-injective : (a b : ℕ) → a < 2 ^ 32 → b < 2 ^ 32 → not32 a ≡ not32 b → a ≡ b
not32-injective a b ha hb e = omega arith

-- Continuing a CRC-32 over more bytes gives the CRC-32 of all of them, wherever a stream is split:
-- crc32_update (crc32_update c a) b is crc32_update c (a ++ b), and crc32 starts from 0.
pub crc32_update-append :
    (c : ℕ) (a b : List ℕ) → crc32_update (crc32_update c a) b ≡ crc32_update c (a ++ b)
unfolding crc32_update
crc32_update-append c a b =
    ap (λ (t : ℕ). not32 (crc_run t b)) again ∙ ap not32 (sym (crc_run-append a b (not32 c)))
  where
    again : not32 (not32 (crc_run (not32 c) a)) ≡ crc_run (not32 c) a
    again = omega (arith, crc_run-lt a (not32 c) (omega arith))

-- Two streams of bytes that differ in exactly one byte have different CRC-32s, whatever stands
-- before and behind that byte: one corrupted byte never passes the check.
pub crc32_one_byte :
    (before behind : List ℕ) (b c : ℕ)
    → b < 256
    → c < 256
    → b ≢ c
    → crc32 (before ++ b ∷ behind) ≢ crc32 (before ++ c ∷ behind)
unfolding crc32 crc32_update
crc32_one_byte before behind b c hb hc differs e = differs (
    crc_step_byte _ b c start hb hc
      (crc_run-injective behind _ _ (crc_step-lt _ b start) (crc_step-lt _ c start) steps))
  where
    start : crc_run (not32 0) before < 2 ^ 32
    start = crc_run-lt before (not32 0) (omega arith)

    runs : crc_run (not32 0) (before ++ b ∷ behind) ≡ crc_run (not32 0) (before ++ c ∷ behind)
    runs =
        not32-injective _ _ (crc_run-lt (before ++ b ∷ behind) _ (omega arith))
          (crc_run-lt (before ++ c ∷ behind) _ (omega arith)) e

    steps :
        crc_run (crc_step (crc_run (not32 0) before) b) behind
        ≡ crc_run (crc_step (crc_run (not32 0) before) c) behind
    steps =
        unfold crc_run in
        (sym (crc_run-append before (b ∷ behind) (not32 0))
          ∙ runs
          ∙ crc_run-append before (c ∷ behind) (not32 0))

pub crc32-lt : (bytes : List ℕ) → crc32 bytes < 2 ^ 32
unfolding crc32 crc32_update
crc32-lt bytes = omega arith

pub crc32_update-lt : (c : ℕ) (bytes : List ℕ) → crc32_update c bytes < 2 ^ 32
unfolding crc32_update
crc32_update-lt c bytes = omega arith
