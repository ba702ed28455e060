-- ===== src/Wmt/Firmware/Finds.antt =====
-- find_bytes of wmt-launcher/firmware.c: the first occurrence of a text.
use android_device_xsh_k50sv.Prelude.{
  ℕ, zero, suc, ◌+◌, ◌-◌, ◌≤◌, ◌<◌, ◌≡◌, inl, inr, refl, ap, subst, if◌then◌else◌, Bool, true,
  false, Bool-cases, Option, none, some, List, [], ◌∷◌, arith, ltb, length, take, drop, length-take,
  length-drop,
}
use android_device_xsh_k50sv.Prelude.CStrings.{bytes_eq, bytes_eq_iff}
use android_device_xsh_k50sv.Wmt.Firmware.Versions.{find_from, find_bytes}

-- The text stands at this offset.
abbrev pub Occurs : List ℕ → List ℕ → ℕ → Type 0
Occurs bytes text i = take (length text) (drop i bytes) ≡ text

abbrev pub Never : List ℕ → List ℕ → Type 0
Never bytes text = (j : ℕ) → ¬ Occurs bytes text j

pub record IsFirst (bytes text : List ℕ) (i : ℕ) : Type 0 where
  pub occurs : Occurs bytes text i
  pub first : (j : ℕ) → j < i → ¬ Occurs bytes text j

drop-one : (j : ℕ) (bytes : List ℕ) → drop j (drop 1 bytes) ≡ drop (suc j) bytes
drop-one j (b ∷ bytes) = refl
drop-one zero [] = refl
drop-one (suc j) [] = refl

-- The loop found the text at offset i + j, the first of its n rounds that could, or in none.
abbrev Searched : List ℕ → List ℕ → ℕ → ℕ → Option ℕ → Type 0
Searched bytes text n i none = (j : ℕ) → j < n → ¬ Occurs bytes text j
Searched bytes text n i (some k) = (j : ℕ) × (k ≡ i + j) × (j < n) × IsFirst bytes text j

find_from-Searched :
    (bytes text : List ℕ) (n i : ℕ) → Searched bytes text n i (find_from bytes text n i)
unfolding find_from
find_from-Searched bytes text zero i = λ j h. absurd (omega arith)
find_from-Searched bytes text (suc n) i =
    round (bytes_eq (take (length text) bytes) text) refl (find_from (drop 1 bytes) text n (i + 1))
      (find_from-Searched (drop 1 bytes) text n (i + 1))
  where
    later :
        (j : ℕ)
        → ¬ Occurs bytes text 0
        → ((k : ℕ) → k < j → ¬ Occurs (drop 1 bytes) text k)
        → (k : ℕ) → k < suc j
        → ¬ Occurs bytes text k
    later j here rest zero h o = here o
    later j here rest (suc k) h o = rest k (omega arith) (rw (drop-one k bytes) o)

    round :
        (found : Bool)
        → bytes_eq (take (length text) bytes) text ≡ found
        → (o : Option ℕ) → Searched (drop 1 bytes) text n (i + 1) o
        → Searched bytes text (suc n) i (if found then some i else o)
    round true e o s = (
      0,
      omega arith,
      omega arith,
      record { occurs = (bytes_eq_iff _ _).0 e; first = λ j h. absurd (omega arith) },
    )
    round false e none s = later n (λ o. absurd (cc ((bytes_eq_iff _ _).1 o))) s
    round false e (some k) (j, at, lt, first) = (
      suc j,
      omega arith,
      omega arith,
      record {
        occurs = rw (← drop-one j bytes) first.occurs;
        first = later j (λ o. absurd (cc ((bytes_eq_iff _ _).1 o))) first.first;
      },
    )

Occurs-fits :
    (bytes text : List ℕ) (j : ℕ)
    → 0 < length text
    → Occurs bytes text j
    → j + length text ≤ length bytes
Occurs-fits bytes text j some_text o =
    omega (arith, ap length o, length-take (length text) (drop j bytes), length-drop j bytes)

abbrev pub Found : List ℕ → List ℕ → Option ℕ → Type 0
Found bytes text none = Never bytes text
Found bytes text (some i) = IsFirst bytes text i

-- find_bytes, for a text that is not empty: the offset of the first occurrence, or NULL if there is none.
pub find_bytes-Found :
    (bytes text : List ℕ) → 0 < length text → Found bytes text (find_bytes bytes text)
unfolding find_bytes
find_bytes-Found bytes text some_text = elim (Bool-cases (ltb (length bytes) (length text))) [
  | inl short ↦ rw short (λ j o. absurd (ground (arith, Occurs-fits bytes text j some_text o)))
  | inr long ↦ rw long (
      found (find_from bytes text (length bytes - length text + 1) 0) (ground arith)
        (find_from-Searched bytes text (length bytes - length text + 1) 0))
]
  where
    found :
        (o : Option ℕ)
        → length text ≤ length bytes
        → Searched bytes text (length bytes - length text + 1) 0 o
        → Found bytes text o
    found none long s = λ j o. s j (omega (arith, Occurs-fits bytes text j some_text o)) o
    found (some k) long (j, at, lt, first) =
        let same : j ≡ k = omega arith in subst (λ i. IsFirst bytes text i) same first
