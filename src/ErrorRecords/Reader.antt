-- ===== src/ErrorRecords/Reader.antt =====
-- The class Reader of verification/record/codec.cpp: each call reads its field, or fails the decoder
-- with what was wrong. The reader is the bytes from its position on.
pub mod Reads
use load_forge.Common.{
  ℕ, zero, suc, ◌+◌, ◌-◌, ◌%◌, ◌^◌, ◌≤◌, ◌<◌, ◌≡◌, refl, sym, ap, ◌∙◌, List, [], ◌∷◌, ◌++◌, length,
  take, drop, Bool, true, false, ltb, ◌==◌, if◌then◌else◌, Option, none, some, Outcome, ok, err,
  arith, append_assoc, take-append, drop-append, le→ltb, length-append,
}
use load_forge.Common.Bits.{put, get, get-put, length-put_from}
use native.Mathlib.Nat.{mod-eq_of_lt}

pub data DecodeFault : Type 0 where
  empty version kind truncated trailing invalid : DecodeFault

abbrev pub Read : Type 0 → Type 0
Read A = List ℕ → Outcome (A × List ℕ) DecodeFault

infixl 5 ◌>>=◌
unfoldable pub ◌>>=◌ : {A B : Type 0} → Read A → (A → Read B) → Read B
◌>>=◌ m f bytes = elim (m bytes) [ err fault ↦ err fault | ok (a, rest) ↦ f a rest ]

unfoldable pub pure : {A : Type 0} → A → Read A
pure a bytes = ok (a, bytes)

unfoldable pub refuse : {A : Type 0} → DecodeFault → Read A
refuse fault bytes = err fault

-- `need`, then the bytes: `count` of them.
unfoldable pub bytes_of : ℕ → Read (List ℕ)
bytes_of count bytes =
    if ltb (length bytes) count then err truncated else ok (take count bytes, drop count bytes)

unfoldable pub unsigned_le : ℕ → Read ℕ
unsigned_le width bytes =
    if ltb (length bytes) width then err truncated else ok (get width bytes, drop width bytes)

unfoldable pub u8 : Read ℕ
u8 = do wide ← unsigned_le 1; pure (wide % 2 ^ 8)

unfoldable pub u32 : Read ℕ
u32 = do wide ← unsigned_le 4; pure (wide % 2 ^ 32)

-- `u64` and, with the bits for the double, `f64`.
abbrev pub u64 : Read ℕ
u64 = unsigned_le 8

unfoldable pub raw : ℕ → Read (List ℕ)
raw limit = do size ← u64; if ltb limit size then refuse invalid else bytes_of size

unfoldable pub presence : Read Bool
presence = do flag ← u8; if ltb 1 flag then refuse invalid else pure (flag == 1)

-- The field of an optional, if it is present.
unfoldable pub when : {A : Type 0} → Read A → Bool → Read (Option A)
when field true = do value ← field; pure (some value)
when field false = pure none

unfoldable pub optional : {A : Type 0} → Read A → Read (Option A)
optional field = presence >>= when field
