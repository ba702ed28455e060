-- ===== src/Prelude/Bits.antt =====
-- Words as bit sets: `1 << i`, `|` and `&` at every position, and `|` of fields that do not overlap.
pub mod Count
use Prim.Native.Nat.{ℕ, zero, suc, ◌+◌, ◌-◌, ◌*◌, ◌/◌, ◌%◌, ◌^◌, ◌≤◌, ◌<◌, min, max}
use Prim.Native.Nat.{bit_and, bit_or, digits, bit_and-bitwise, bit_or-bitwise}
use mathlib.Core.Path.{◌≡◌, refl, ap, sym, ◌∙◌}
use mathlib.Core.Logic.{◌↔◌}
use mathlib.Core.Bool.{Bool, true, false, not}
use native.Mathlib.Nat.{pow-suc, one-le-pow}
use native.Mathlib.Omega.{arith}
use android_device_xsh_k50sv.Prelude.Tests.{ltb, ◌==◌, if◌then◌else◌}

-- More fuel than digits changes nothing.
digits-fuel :
    (z : ℕ → ℕ) (f : ℕ → ℕ → ℕ) (n m a b : ℕ) → a ≤ n → a ≤ m → digits z f n a b ≡ digits z f m a b
digits-fuel z f (suc n) (suc m) (suc a) b le_n le_m =
    ap (λ (t : ℕ). t * 2 + f (suc a % 2) (b % 2))
      (digits-fuel z f n m (suc a / 2) (b / 2) (omega arith) (omega arith))
digits-fuel z f (suc n) zero (suc a) b le_n le_m = absurd (omega arith)
digits-fuel z f zero (suc m) (suc a) b le_n le_m = absurd (omega arith)
digits-fuel z f zero zero (suc a) b le_n le_m = absurd (omega arith)
digits-fuel z f (suc n) (suc m) zero b le_n le_m = refl
digits-fuel z f (suc n) zero zero b le_n le_m = refl
digits-fuel z f zero (suc m) zero b le_n le_m = refl
digits-fuel z f zero zero zero b le_n le_m = refl

bit_or_zero_left : (b : ℕ) → bit_or 0 b ≡ b
bit_or_zero_left b = bit_or-bitwise 0 b

bit_and_zero_left : (b : ℕ) → bit_and 0 b ≡ 0
bit_and_zero_left b = bit_and-bitwise 0 b

-- The lowest digit apart from the others.
bit_or-halves : (a b : ℕ) → bit_or a b ≡ bit_or (a / 2) (b / 2) * 2 + max (a % 2) (b % 2)
bit_or-halves zero b = omega (arith, bit_or_zero_left b, bit_or_zero_left (b / 2))
bit_or-halves (suc a) b = omega (
  arith,
  bit_or-bitwise (suc a) b,
  bit_or-bitwise (suc a / 2) (b / 2),
  digits-fuel (λ x. x) max a (suc a / 2) (suc a / 2) (b / 2) (omega arith) (omega arith),
)

bit_and-halves : (a b : ℕ) → bit_and a b ≡ bit_and (a / 2) (b / 2) * 2 + min (a % 2) (b % 2)
bit_and-halves zero b = omega (arith, bit_and_zero_left b, bit_and_zero_left (b / 2))
bit_and-halves (suc a) b = omega (
  arith,
  bit_and-bitwise (suc a) b,
  bit_and-bitwise (suc a / 2) (b / 2),
  digits-fuel (λ x. zero) min a (suc a / 2) (suc a / 2) (b / 2) (omega arith) (omega arith),
)

-- Digit `i` of a word, counted from the lowest.
abbrev digit : ℕ → ℕ → ℕ
digit s zero = s % 2
digit s (suc i) = digit (s / 2) i

digit-lt : (s i : ℕ) → digit s i < 2
digit-lt s zero = omega arith
digit-lt s (suc i) = digit-lt (s / 2) i

digit-zero : (i : ℕ) → digit 0 i ≡ 0
digit-zero zero = refl
digit-zero (suc i) = digit-zero i

digit-bit_or : (s t i : ℕ) → digit (bit_or s t) i ≡ max (digit s i) (digit t i)
digit-bit_or s t zero = omega (arith, bit_or-halves s t)
digit-bit_or s t (suc i) =
    let half : bit_or s t / 2 ≡ bit_or (s / 2) (t / 2) = omega (arith, bit_or-halves s t) in
    rw half (digit-bit_or (s / 2) (t / 2) i)

pow-half : (i : ℕ) → 2 ^ suc i / 2 ≡ 2 ^ i
pow-half i = omega (arith, pow-suc 2 i)

digit-pow : (i j : ℕ) → digit (2 ^ i) j ≡ (if i == j then 1 else 0)
digit-pow zero zero = refl
digit-pow zero (suc j) = ground (arith, digit-zero j)
digit-pow (suc i) zero = ground (arith, pow-suc 2 i)
digit-pow (suc i) (suc j) = rw pow-half (ground (arith, digit-pow i j))

bit_and-zero : (n a : ℕ) → a ≤ n → bit_and a 0 ≡ 0
bit_and-zero n zero h = refl
bit_and-zero zero (suc a) h = absurd (omega arith)
bit_and-zero (suc n) (suc a) h =
    omega (arith, bit_and-halves (suc a) 0, bit_and-zero n (suc a / 2) (omega arith))

bit_and-pow : (s i : ℕ) → bit_and s (2 ^ i) ≡ digit s i * 2 ^ i
bit_and-pow s zero = omega (arith, bit_and-halves s 1, bit_and-zero (s / 2) (s / 2) (omega arith))
bit_and-pow s (suc i) =
    grind (arith, bit_and-halves s (2 ^ suc i), pow-suc 2 i, pow-half i, bit_and-pow (s / 2) i)

-- `set & (1 << i)`, as a truth value.
unfoldable pub has : ℕ → ℕ → Bool
has s i = not (bit_and s (2 ^ i) == 0)

-- `set | (1 << i)`
abbrev pub with_bit : ℕ → ℕ → ℕ
with_bit s i = bit_or s (2 ^ i)

has-digit : (s i : ℕ) → has s i ≡ (digit s i == 1)
unfolding has
has-digit s i = grind (arith, bit_and-pow s i, digit-lt s i, one-le-pow i 2)

pub has-zero : (i : ℕ) → has 0 i ≡ false
has-zero i = rw (has-digit, digit-zero)

pub has-with_bit : (s i j : ℕ) → has (with_bit s i) j ≡ (if i == j then true else has s j)
has-with_bit s i j =
    rw (has-digit (with_bit s i) j, has-digit s j)
      (ground (arith, digit-bit_or s (2 ^ i) j, digit-pow i j, digit-lt s j))

-- The digits determine the word.
digit_ext : (n s t : ℕ) → s ≤ n → ((i : ℕ) → digit s i ≡ digit t i) → t ≤ n → s ≡ t
digit_ext zero s t h e k = omega arith
digit_ext (suc n) s t h e k =
    omega (arith, e 0, digit_ext n (s / 2) (t / 2) (omega arith) (λ i. e (suc i)) (omega arith))

pub has_ext : (s t : ℕ) → ((i : ℕ) → has s i ≡ has t i) → s ≡ t
has_ext s t h =
    digit_ext (s + t) s t (omega arith)
      (λ i. ground (arith, h i, has-digit s i, has-digit t i, digit-lt s i, digit-lt t i))
      (omega arith)

-- `(1 << n) - 1` has the bits below n and no others.
digit_mask : (n i : ℕ) → digit (2 ^ n - 1) i ≡ (if ltb i n then 1 else 0)
digit_mask zero i = ground (arith, digit-zero i)
digit_mask (suc n) zero = ground (arith, pow-suc 2 n, one-le-pow n 2)
digit_mask (suc n) (suc i) =
    let half : (2 ^ suc n - 1) / 2 ≡ 2 ^ n - 1 = omega (arith, pow-suc 2 n, one-le-pow n 2) in
    rw half (ground (arith, digit_mask n i))

pub has_mask : (n i : ℕ) → has (2 ^ n - 1) i ≡ ltb i n
has_mask n i = rw has-digit (ground (arith, digit_mask n i))

pub eq-mask_iff : (s n : ℕ) → (s ≡ 2 ^ n - 1) ↔ ((i : ℕ) → has s i ≡ ltb i n)
eq-mask_iff s n =
    ((λ e i. rw e (has_mask n i)), (λ h. has_ext s (2 ^ n - 1) (λ i. h i ∙ sym (has_mask n i))))

bit_or-zero : (n a : ℕ) → a ≤ n → bit_or a 0 ≡ a
bit_or-zero n zero h = refl
bit_or-zero zero (suc a) h = absurd (omega arith)
bit_or-zero (suc n) (suc a) h =
    omega (arith, bit_or-halves (suc a) 0, bit_or-zero n (suc a / 2) (omega arith))

double : (high k : ℕ) → high * 2 ^ suc k ≡ 2 * (high * 2 ^ k)
double high k = omega (arith, ap (λ (t : ℕ). high * t) (pow-suc 2 k))

-- `low | high << k`, for a `low` of k bits.
pub bit_or-shift : (k low high : ℕ) → low < 2 ^ k → bit_or low (high * 2 ^ k) ≡ low + high * 2 ^ k
bit_or-shift zero low high h = ground (arith, bit_or_zero_left high)
bit_or-shift (suc k) low high h = ground (
  arith,
  bit_or-halves low (high * 2 ^ suc k),
  double high k,
  bit_or-shift k (low / 2) high (omega (arith, pow-suc 2 k)),
)

-- `a & 0x0f` and `a & 0xff`: a mask of k ones takes k steps.
pub bit_and_nibble : (a : ℕ) → bit_and a 0x0f ≡ a % 16
bit_and_nibble a = omega (
  arith,
  bit_and-halves a 15,
  bit_and-halves (a / 2) 7,
  bit_and-halves (a / 2 / 2) 3,
  bit_and-halves (a / 2 / 2 / 2) 1,
  bit_and-zero (a / 2 / 2 / 2 / 2) (a / 2 / 2 / 2 / 2) (omega arith),
)

pub bit_and_byte : (a : ℕ) → bit_and a 0xff ≡ a % 256
bit_and_byte a = omega (
  arith,
  bit_and-halves a 255,
  bit_and-halves (a / 2) 127,
  bit_and-halves (a / 2 / 2) 63,
  bit_and-halves (a / 2 / 2 / 2) 31,
  bit_and_nibble (a / 2 / 2 / 2 / 2),
)
