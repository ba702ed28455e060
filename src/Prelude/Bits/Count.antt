-- ===== src/Prelude/Bits/Count.antt =====
-- How many of the lowest n bits a word has.
use android_device_xsh_k50sv.Prelude.Tests.{if◌then◌else◌}
use android_device_xsh_k50sv.Prelude.Bits.{has, has-zero, with_bit, has-with_bit}
use Prim.Native.Nat.{ℕ, zero, suc, ◌+◌, ◌≤◌, ◌<◌}
use mathlib.Core.Path.{◌≡◌, refl}
use mathlib.Core.Bool.{true, false}
use native.Mathlib.Omega.{arith}
use native.Mathlib.Decide.{dec_lt}

pub ones : ℕ → ℕ → ℕ
ones zero s = 0
ones (suc n) s = ones n s + (if has s n then 1 else 0)

pub ones-zero : (n : ℕ) → ones n 0 ≡ 0
unfolding ones
ones-zero zero = refl
ones-zero (suc n) = ground (arith, has-zero n, ones-zero n)

pub ones-le : (n s : ℕ) → ones n s ≤ n
unfolding ones
ones-le zero s = omega arith
ones-le (suc n) s = ground (arith, ones-le n s)

ones-with_bit_above : (n s i : ℕ) → n ≤ i → ones n (with_bit s i) ≡ ones n s
unfolding ones
ones-with_bit_above zero s i h = refl
ones-with_bit_above (suc n) s i h = ground (arith, has-with_bit s i n, ones-with_bit_above n s i)

-- A new bit counts one more.
pub ones-with_bit : (n s i : ℕ) → i < n → has s i ≡ false → ones n (with_bit s i) ≡ suc (ones n s)
unfolding ones
ones-with_bit zero s i h f = absurd (omega arith)
ones-with_bit (suc n) s i h f = elim (dec_lt i n) [
  | yes below ↦ ground (arith, has-with_bit s i n, ones-with_bit n s i below f)
  | no last ↦ ground (arith, has-with_bit s i n, ones-with_bit_above n s i)
]

-- A word with n of the lowest n bits has them all.
pub ones_full : (n s i : ℕ) → ones n s ≡ n → i < n → has s i ≡ true
unfolding ones
ones_full zero s i h l = absurd (omega arith)
ones_full (suc n) s i h l = elim (dec_lt i n) [
  | yes below ↦ ones_full n s i (ground (arith, ones-le n s)) below
  | no last ↦ ground (arith, ones-le n s)
]
