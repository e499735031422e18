-- ===== src/ErrorRecords/Writer.antt =====
-- The class Writer of verification/record/codec.cpp: how a field is written.
use load_forge.Common.{ℕ, List, ◌++◌, length, Option, none, some}
use load_forge.Common.Bits.{put}

-- A length, then the bytes.
unfoldable pub put_raw : List ℕ → List ℕ
put_raw bytes = put 8 (length bytes) ++ bytes

-- A presence flag, then the value if there is one.
unfoldable pub put_optional : {A : Type 0} → (A → List ℕ) → Option A → List ℕ
put_optional put_value none = put 1 0
put_optional put_value (some value) = put 1 1 ++ put_value value
