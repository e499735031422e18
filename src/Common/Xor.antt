-- ===== src/Common/Xor.antt =====
-- Exclusive or at variables, digit by digit: bounds, cancellation and shifts, for the checksums.
use Prim.Native.Nat.{
  ℕ, zero, suc, ◌+◌, ◌*◌, ◌/◌, ◌%◌, ◌^◌, ◌≤◌, ◌<◌, bit_xor, bit_xor-bitwise, differ,
}
use mathlib.Core.Path.{◌≡◌, refl, sym, ap, ap₂, ◌∙◌}
use native.Mathlib.Omega.{arith}
use load_forge.Common.Digits.{lowest_digit}
use native.Mathlib.Nat.{
  div-div-eq-div-mul, add-mul-mod_self_right, mod-eq_of_lt, mod-lt, mod-add-div', mod-one,
}

pub zero-bit_xor : (b : ℕ) → bit_xor 0 b ≡ b
zero-bit_xor b = bit_xor-bitwise 0 b

pub xor_lowest : (x y : ℕ) → differ (x % 2) (y % 2) + 2 * bit_xor (x / 2) (y / 2) ≡ bit_xor x y
xor_lowest zero b = omega (arith, zero-bit_xor b, zero-bit_xor (b / 2))
xor_lowest (suc a) b = omega (
  arith,
  lowest_digit (λ y. y) differ a b,
  bit_xor-bitwise (suc a) b,
  bit_xor-bitwise (suc a / 2) (b / 2),
)

differ-lt_two : (x y : ℕ) → x < 2 → y < 2 → differ x y < 2
differ-lt_two zero y p q = q
differ-lt_two (suc zero) zero p q = p
differ-lt_two (suc zero) (suc y) p q = omega arith
differ-lt_two (suc (suc x)) y p q = absurd (omega arith)

differ-cancel : (x y z : ℕ) → x < 2 → y < 2 → z < 2 → differ x z ≡ differ y z → x ≡ y
differ-cancel zero zero z p q r e = refl
differ-cancel zero (suc zero) zero p q r e = e
differ-cancel zero (suc zero) (suc zero) p q r e = sym e
differ-cancel (suc zero) zero zero p q r e = e
differ-cancel (suc zero) zero (suc zero) p q r e = sym e
differ-cancel (suc zero) (suc zero) z p q r e = refl
differ-cancel (suc (suc x)) y z p q r e = absurd (omega arith)
differ-cancel x (suc (suc y)) z p q r e = absurd (omega arith)
differ-cancel x y (suc (suc z)) p q r e = absurd (omega arith)

differ_comm : (x y : ℕ) → differ x y ≡ differ y x
differ_comm zero zero = refl
differ_comm zero (suc y) = refl
differ_comm (suc x) zero = refl
differ_comm (suc x) (suc y) = differ_comm x y

pub bit_xor-half : (a b : ℕ) → bit_xor a b / 2 ≡ bit_xor (a / 2) (b / 2)
bit_xor-half a b =
    omega (arith, xor_lowest a b, differ-lt_two (a % 2) (b % 2) (omega arith) (omega arith))

bit_xor-parity : (a b : ℕ) → bit_xor a b % 2 ≡ differ (a % 2) (b % 2)
bit_xor-parity a b =
    omega (arith, xor_lowest a b, differ-lt_two (a % 2) (b % 2) (omega arith) (omega arith))

pub bit_xor-lt : (k a b : ℕ) → a < 2 ^ k → b < 2 ^ k → bit_xor a b < 2 ^ k
bit_xor-lt zero zero b p q = omega (arith, zero-bit_xor b)
bit_xor-lt zero (suc a) b p q = absurd (omega arith)
bit_xor-lt (suc k) a b p q =
    omega (arith, bit_xor-half a b, bit_xor-lt k (a / 2) (b / 2) (omega arith) (omega arith))

shift_none : (x : ℕ) → x / 2 ^ 0 ≡ x
shift_none x = omega arith

shift_more : (x k : ℕ) → x / 2 ^ suc k ≡ x / 2 / 2 ^ k
shift_more x k = ap (λ (t : ℕ). x / t) doubled ∙ sym (div-div-eq-div-mul x 2 (2 ^ k))
  where
    doubled : 2 ^ suc k ≡ 2 * 2 ^ k
    doubled = omega arith

-- `>>` distributes over `^`.
pub bit_xor-shift : (k a b : ℕ) → bit_xor a b / 2 ^ k ≡ bit_xor (a / 2 ^ k) (b / 2 ^ k)
bit_xor-shift zero a b = shift_none (bit_xor a b) ∙ sym (ap₂ bit_xor (shift_none a) (shift_none b))
bit_xor-shift (suc k) a b =
    shift_more (bit_xor a b) k
    ∙ ap (λ (t : ℕ). t / 2 ^ k) (bit_xor-half a b)
    ∙ bit_xor-shift k (a / 2) (b / 2)
    ∙ sym (ap₂ bit_xor (shift_more a k) (shift_more b k))

pub pow_pos : (k : ℕ) → 0 < 2 ^ k
pow_pos zero = omega arith
pow_pos (suc k) = omega (arith, pow_pos k)

low_split : (x k : ℕ) → x % 2 ^ suc k ≡ x / 2 % 2 ^ k * 2 + x % 2
low_split x k =
    ap (λ (t : ℕ). t % 2 ^ suc k) whole
    ∙ add-mul-mod_self_right low (x / 2 / 2 ^ k) (2 ^ suc k)
    ∙ mod-eq_of_lt fits
  where
    doubled : 2 ^ suc k ≡ 2 * 2 ^ k
    doubled = omega arith

    low : ℕ
    low = x / 2 % 2 ^ k * 2 + x % 2

    fits : low < 2 ^ suc k
    fits = omega (arith, mod-lt (x / 2) (pow_pos k))

    whole : x ≡ low + x / 2 / 2 ^ k * 2 ^ suc k
    whole = omega (arith, mod-add-div' (x / 2) (2 ^ k), ap (λ (t : ℕ). x / 2 / 2 ^ k * t) doubled)

low_half : (x k : ℕ) → (x % 2 ^ suc k / 2 ≡ x / 2 % 2 ^ k) × (x % 2 ^ suc k % 2 ≡ x % 2)
low_half x k = (omega (arith, low_split x k), omega (arith, low_split x k))

-- So does a low mask.
pub bit_xor-low : (k a b : ℕ) → bit_xor a b % 2 ^ k ≡ bit_xor (a % 2 ^ k) (b % 2 ^ k)
bit_xor-low zero a b = mod-one (bit_xor a b) ∙ sym (ap₂ bit_xor (mod-one a) (mod-one b))
bit_xor-low (suc k) a b = ground (
  arith,
  low_split (bit_xor a b) k,
  low_half a k,
  low_half b k,
  bit_xor-half a b,
  bit_xor-parity a b,
  bit_xor-low k (a / 2) (b / 2),
  xor_lowest (a % 2 ^ suc k) (b % 2 ^ suc k),
)

cancel_fuel : (n a b c : ℕ) → a ≤ n → b ≤ n → bit_xor a c ≡ bit_xor b c → a ≡ b
cancel_fuel zero a b c p q e = omega arith
cancel_fuel (suc n) a b c p q e = omega (
  arith,
  cancel_fuel n (a / 2) (b / 2) (c / 2) (omega arith) (omega arith) halves,
  differ-cancel (a % 2) (b % 2) (c % 2) (omega arith) (omega arith) (omega arith) parities,
)
  where
    halves : bit_xor (a / 2) (c / 2) ≡ bit_xor (b / 2) (c / 2)
    halves = sym (bit_xor-half a c) ∙ ap (λ (t : ℕ). t / 2) e ∙ bit_xor-half b c

    parities : differ (a % 2) (c % 2) ≡ differ (b % 2) (c % 2)
    parities = sym (bit_xor-parity a c) ∙ ap (λ (t : ℕ). t % 2) e ∙ bit_xor-parity b c

pub bit_xor-cancel : (a b c : ℕ) → bit_xor a c ≡ bit_xor b c → a ≡ b
bit_xor-cancel a b c e = cancel_fuel (a + b) a b c (omega arith) (omega arith) e

comm_fuel : (n a b : ℕ) → a ≤ n → b ≤ n → bit_xor a b ≡ bit_xor b a
comm_fuel zero zero zero p q = refl
comm_fuel zero (suc a) b p q = absurd (omega arith)
comm_fuel zero zero (suc b) p q = absurd (omega arith)
comm_fuel (suc n) a b p q = omega (
  arith,
  xor_lowest a b,
  xor_lowest b a,
  comm_fuel n (a / 2) (b / 2) (omega arith) (omega arith),
  differ_comm (a % 2) (b % 2),
)

pub bit_xor_comm : (a b : ℕ) → bit_xor a b ≡ bit_xor b a
bit_xor_comm a b = comm_fuel (a + b) a b (omega arith) (omega arith)
