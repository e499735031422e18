-- ===== src/Common/Bits.antt =====
-- `|` of a word and a higher field is their sum, and the little-endian words that the frame,
-- control and journal codecs write and read byte by byte.
use Prim.Native.Nat.{ℕ, zero, suc, ◌+◌, ◌*◌, ◌/◌, ◌%◌, ◌^◌, ◌<◌, max, bit_or, bit_or-bitwise}
use mathlib.Core.Path.{◌≡◌, refl, sym, ap, ◌∙◌}
use mathlib.Core.List.{List, [], ◌∷◌, ◌++◌}
use native.Mathlib.Omega.{arith}
use native.Mathlib.Nat.{div-div-eq-div-mul, div-add-mod}
use native.Mathlib.Numerals.{towards_suc}
use load_forge.Common.Digits.{lowest_digit}
use load_forge.Common.Lists.{length, All}

-- The lowest binary digit of `|`, and the rest.
or_lowest : (x y : ℕ) → max (x % 2) (y % 2) + 2 * bit_or (x / 2) (y / 2) ≡ bit_or x y
or_lowest zero b = omega (arith, bit_or-bitwise 0 b, bit_or-bitwise 0 (b / 2))
or_lowest (suc a) b = omega (
  arith,
  lowest_digit (λ y. y) max a b,
  bit_or-bitwise (suc a) b,
  bit_or-bitwise (suc a / 2) (b / 2),
)

pub bit_or-eq-add : (k r q : ℕ) → r < 2 ^ k → bit_or r (q * 2 ^ k) ≡ r + q * 2 ^ k
bit_or-eq-add zero zero q h = omega (arith, bit_or-bitwise 0 (q * 2 ^ 0))
bit_or-eq-add zero (suc r) q h = absurd (omega arith)
bit_or-eq-add (suc k) r q h =
    ground
      (arith, or_lowest r (q * 2 ^ suc k), halved, even, bit_or-eq-add k (r / 2) q (omega arith))
  where
    doubled : 2 ^ suc k ≡ 2 * 2 ^ k
    doubled = omega arith

    even : q * 2 ^ suc k % 2 ≡ 0
    even = omega (arith, ap (λ (t : ℕ). q * t) doubled)

    halved : q * 2 ^ suc k / 2 ≡ q * 2 ^ k
    halved = omega (arith, ap (λ (t : ℕ). q * t) doubled)

pub pow_byte : (k : ℕ) → 2 ^ (8 * suc k) ≡ 256 * 2 ^ (8 * k)
pow_byte k = ap (λ (n : ℕ). 2 ^ n) next ∙ simp towards_suc (omega arith)
  where
    next : 8 * suc k ≡ 8 * k + 8
    next = omega arith

-- `for (at...) out.push_back(value >> (8 * at))`, from byte `at` on, `width` bytes.
unfoldable pub put_from : ℕ → ℕ → ℕ → List ℕ
put_from at zero value = []
put_from at (suc width) value = (value / 2 ^ (8 * at) % 256) ∷ put_from (suc at) width value

abbrev pub put : ℕ → ℕ → List ℕ
put width value = put_from 0 width value

-- `value |= in[at] << (8 * at)`, from byte `at` on. Callers check that the bytes are there.
unfoldable pub get_from : ℕ → ℕ → ℕ → List ℕ → ℕ
get_from at zero value bytes = value
get_from at (suc width) value [] = value
get_from at (suc width) value (byte ∷ bytes) =
    get_from (suc at) width (bit_or value (byte * 2 ^ (8 * at))) bytes

abbrev pub get : ℕ → List ℕ → ℕ
get width bytes = get_from 0 width 0 bytes

pub length-put_from : (at width value : ℕ) → length (put_from at width value) ≡ width
unfolding put_from
length-put_from at zero value = refl
length-put_from at (suc width) value = ap suc (length-put_from (suc at) width value)

pub put_from-IsByte : (at width value : ℕ) → All (λ b. b < 256) (put_from at width value)
unfolding put_from
put_from-IsByte at zero value = tt
put_from-IsByte at (suc width) value = (omega arith, put_from-IsByte (suc at) width value)

next_digit : (v M : ℕ) → v / M * M ≡ v / M % 256 * M + v / M / 256 * (256 * M)
next_digit v M = omega (arith, ap (λ (t : ℕ). t * M) (div-add-mod (v / M) 256))

digit_fits : (d M r : ℕ) → r < M → d < 256 → r + d * M < 256 * M
digit_fits d M r h k = grind arith

shift_next : (v k : ℕ) → v / 2 ^ (8 * suc k) ≡ v / 2 ^ (8 * k) / 256
shift_next v k =
    ap (λ (t : ℕ). v / t) (pow_byte k ∙ omega arith) ∙ sym (div-div-eq-div-mul v (2 ^ (8 * k)) 256)

-- What is read back is what was gathered, with the bytes of `v` from byte `at` on above it.
pub get_from-put_from :
    (at width acc v : ℕ) (rest : List ℕ)
    → acc < 2 ^ (8 * at)
    → v / 2 ^ (8 * at) < 256 ^ width
    → get_from at width acc (put_from at width v ++ rest) ≡ acc + v / 2 ^ (8 * at) * 2 ^ (8 * at)
unfolding get_from put_from
get_from-put_from at zero acc v rest h fits =
    omega (arith, ap (λ (t : ℕ). t * 2 ^ (8 * at)) none_left)
  where
    none_left : v / 2 ^ (8 * at) ≡ 0
    none_left = omega arith
get_from-put_from at (suc width) acc v rest h fits =
    rw (bit_or-eq-add (8 * at) acc (v / M % 256) h) (
      get_from-put_from (suc at) width (acc + v / M % 256 * M) v rest
        (rw (pow_byte at) (digit_fits (v / M % 256) M acc h (omega arith)))
        (rw (shift_next v at) (omega arith))
      ∙ rw (shift_next v at, pow_byte at) (omega (arith, next_digit v M)))
  where
    M : ℕ
    M = 2 ^ (8 * at)

pub get-put : (width v : ℕ) (rest : List ℕ) → v < 256 ^ width → get width (put width v ++ rest) ≡ v
get-put width v rest h =
    get_from-put_from 0 width 0 v rest (omega arith) (omega arith) ∙ omega arith
