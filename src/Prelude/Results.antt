-- ===== src/Prelude/Results.antt =====
-- C functions that return `int`: a value from 0 up, or a negated errno.
use Prim.Native.Nat.{ℕ}
use mathlib.Core.Path.{◌≡◌, refl}
use mathlib.Core.Bool.{Bool, true, false}
use android_device_xsh_k50sv.Prelude.Tests.{if◌then◌else◌}

-- `fail e` is the return value -e.
pub data Result {ℓ} (A : Type ℓ) : Type ℓ where
  fail : ℕ → Result A
  ok : A → Result A

-- A call, and what follows when it returns a value.
module _ {ℓ κ} {A : Type ℓ} {B : Type κ} where
  infixl 5 ◌>>=◌
  abbrev pub ◌>>=◌ : (call : Result A) (continue : (value : A) → Result B) → Result B
  fail errno >>= continue = fail errno
  ok value >>= continue = continue value

-- A call that returned a value passed each of its early returns.
pub passed {ℓ} :
    {A : Type ℓ} (b : Bool) (e : ℕ) (r : Result A) {a : A}
    → (if b then fail e else r) ≡ ok a
    → (b ≡ false) × (r ≡ ok a)
passed true e r h = cc
passed false e r h = (refl, h)

-- A call followed by another returned a value if both did.
pub returned {κ ℓ} :
    {B : Type κ} {A : Type ℓ} (call : Result A) (next : A → Result B) {result : B}
    → (call >>= next) ≡ ok result
    → (value : A) × (call ≡ ok value) × (next value ≡ ok result)
returned (fail errno) next h = cc
returned (ok value) next h = (value, refl, h)
