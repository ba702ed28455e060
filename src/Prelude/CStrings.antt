-- ===== src/Prelude/CStrings.antt =====
-- C strings and fixed character arrays. A `const char *` is the list of the bytes before its NUL.
use Prim.Native.Char.{code}
use Prim.Native.String.{String}
use android_device_xsh_k50sv.Prelude.{
  ℕ, suc, ◌-◌, ◌≤◌, ◌<◌, ◌≡◌, refl, ◌↔◌, ◌&&◌, Bool, true, false, List, [], ◌∷◌, ◌++◌, arith, ltb,
  ◌==◌, ◌||◌, if◌then◌else◌, length, replicate, length-append, length-replicate,
}

-- memchr or strchr found the byte.
unfoldable pub contains : ℕ → List ℕ → Bool
contains c [] = false
contains c (x ∷ xs) = x == c || contains c xs

abbrev pub strnlen : List ℕ → ℕ → ℕ
strnlen s n = if ltb (length s) n then length s else n

-- A zeroed char[n] after memcpy of a shorter string.
unfoldable pub padded : ℕ → List ℕ → List ℕ
padded n s = s ++ replicate (n - length s) 0

pub length-padded : (n : ℕ) (s : List ℕ) → length s ≤ n → length (padded n s) ≡ n
unfolding padded
length-padded n s h =
    omega (
      arith,
      length-append s (replicate (n - length s) 0),
      length-replicate {A = ℕ} (n - length s) 0,
    )

pub contains-append :
    (c : ℕ) (xs ys : List ℕ) → contains c (xs ++ ys) ≡ (contains c xs || contains c ys)
unfolding contains
contains-append c [] ys = refl
contains-append c (x ∷ xs) ys = ground (arith, contains-append c xs ys)

pub contains-replicate : (c n : ℕ) → contains c (replicate (suc n) c) ≡ true
unfolding contains
contains-replicate c n = ground arith

-- The array is NUL-terminated: the string was shorter.
pub contains-padded : (n : ℕ) (s : List ℕ) → length s < n → contains 0 (padded n s) ≡ true
unfolding padded
contains-padded n s h =
    let room : n - length s ≡ suc (n - length s - 1) = omega arith in
    rw (contains-append, room) (ground (arith, contains-replicate 0 (n - length s - 1)))

-- memcmp and strcmp found equal bytes.
unfoldable pub bytes_eq : List ℕ → List ℕ → Bool
bytes_eq [] [] = true
bytes_eq (x ∷ xs) (y ∷ ys) = x == y && bytes_eq xs ys
bytes_eq _ _ = false

pub bytes_eq_iff : (xs ys : List ℕ) → (bytes_eq xs ys ≡ true) ↔ (xs ≡ ys)
unfolding bytes_eq
bytes_eq_iff [] [] = ground arith
bytes_eq_iff [] (y ∷ ys) = ground arith
bytes_eq_iff (x ∷ xs) [] = ground arith
bytes_eq_iff (x ∷ xs) (y ∷ ys) = ground (arith, bytes_eq_iff xs ys)

-- strncmp with a prefix of n characters found no difference in the first n.
unfoldable pub starts_with : List ℕ → List ℕ → Bool
starts_with [] s = true
starts_with (c ∷ cs) [] = false
starts_with (c ∷ cs) (x ∷ xs) = x == c && starts_with cs xs

-- strstr found the text.
unfoldable pub strstr : List ℕ → List ℕ → Bool
strstr [] text = starts_with text []
strstr (x ∷ xs) text = starts_with text (x ∷ xs) || strstr xs text

-- The bytes of a literal.
abbrev pub codes : String → List ℕ
codes String.[] = []
codes (String.◌∷◌ c s) = code c ∷ codes s

-- The bytes before the first NUL of an array.
unfoldable pub chars : List ℕ → List ℕ
chars [] = []
chars (b ∷ bs) = if b == 0 then [] else b ∷ chars bs
