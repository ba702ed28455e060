-- ===== src/Wmt/Patch/Search.antt =====
-- The files of one search, in the order that the directory gives them.
use mathlib.Core.Logic.{∥∥₁_elim}
use mathlib.Core.List.{Perm, Permᴰ}
use mathlib.Core.List.Perm
use android_device_xsh_k50sv.Prelude.{
  ℕ, suc, ◌-◌, ◌<◌, ◌≡◌, ◌↔◌, refl, ap, sym, Bool, true, false, Option, none, some, List, [], ◌∷◌,
  arith, Result, ok, ◌==◌, if◌then◌else◌,
}
use android_device_xsh_k50sv.Prelude.Bits.{has, has-zero, has-with_bit, eq-mask_iff}
use android_device_xsh_k50sv.Wmt.Patch.{PatchFile, PatchSet, empty_set, set_complete}
use android_device_xsh_k50sv.Wmt.Patch.Sets.{
  Adds, extended, record_at, record_at-extended, IsValid, empty_set-IsValid, extended-IsValid,
}
use android_device_xsh_k50sv.Wmt.Patch.AddAll.{
  add_all, add_all-cons, cons-add_all, add_all-IsValid, Adds-swap,
}

add_all-permᴰ :
    {fs gs : List PatchFile} (s t : PatchSet)
    → Permᴰ fs gs
    → add_all s fs ≡ ok t
    → add_all s gs ≡ ok t
add_all-permᴰ s t Permᴰ.nil e = e
add_all-permᴰ s t (Permᴰ.cons {a = f} {b = g} {l₁ = fs} {l₂ = gs} p perm) e =
    let (a, rest) = add_all-cons s f fs t e in
    rw (← p) (cons-add_all s f gs t a (add_all-permᴰ (extended s f) t perm rest))
add_all-permᴰ s t (Permᴰ.swap {a = f} {b = g} {l = fs} p q) e =
    let (a, rest) = add_all-cons s f (g ∷ fs) t e in
    let (b, last) = add_all-cons (extended s f) g fs t rest in
    let (b', a', same) = Adds-swap s f g a b in
    rw (← p, ← q)
      (cons-add_all s g (f ∷ fs) t b' (cons-add_all (extended s g) f fs t a' (rw (← same) last)))
add_all-permᴰ s t (Permᴰ.trans l r) e = add_all-permᴰ s t r (add_all-permᴰ s t l e)

PatchSet-set : IsSet PatchSet
PatchSet-set = hlevel

Result-set : IsSet (Result PatchSet)
Result-set = hlevel

add_all-perm :
    (s t : PatchSet) (fs gs : List PatchFile)
    → Perm fs gs
    → add_all s fs ≡ ok t
    → add_all s gs ≡ ok t
add_all-perm s t fs gs p e =
    ∥∥₁_elim p (Result-set _ _) (λ (d : Permᴰ fs gs). add_all-permᴰ s t d e)

-- The order of the directory does not matter: if a search accepts its files, it accepts them in every
-- other order, with the same set.
pub add_all-perm_iff :
    (s t : PatchSet) (fs gs : List PatchFile)
    → Perm fs gs
    → (add_all s fs ≡ ok t) ↔ (add_all s gs ≡ ok t)
add_all-perm_iff s t fs gs p = (add_all-perm s t fs gs p, add_all-perm s t gs fs (Perm.symm p))

-- The first file with sequence i + 1.
unfoldable pub found : List PatchFile → ℕ → Option PatchFile
found [] i = none
found (file ∷ files) i = if file.info.sequence == suc i then some file else found files i

abbrev is_some {ℓ} : {A : Type ℓ} → Option A → Bool
is_some none = false
is_some (some a) = true

-- A sequence that the set has seen is in no later file.
add_all-seen :
    (s t : PatchSet) (files : List PatchFile) (i : ℕ)
    → add_all s files ≡ ok t
    → has s.seen i ≡ true
    → found files i ≡ none
unfolding found
add_all-seen s t [] i e h = refl
add_all-seen s t (file ∷ files) i e h =
    let (a, rest) = add_all-cons s file files t e in
    ground (
      arith,
      has-with_bit s.seen (file.info.sequence - 1) i,
      add_all-seen (extended s file) t files i rest,
    )

-- What the set holds at an index after the files: the file with that sequence, if there is one.
abbrev Holds : PatchSet → PatchSet → ℕ → Option PatchFile → Type 0
Holds s t i none = (has t.seen i ≡ has s.seen i) × (record_at t i ≡ record_at s i)
Holds s t i (some f) = (has t.seen i ≡ true) × (record_at t i ≡ f.info) × (f.info.sequence ≡ suc i)

Holds-cons :
    (s t : PatchSet) (file : PatchFile) (i : ℕ) (o : Option PatchFile)
    → IsValid s
    → Adds s file
    → (has (extended s file).seen i ≡ true → o ≡ none)
    → Holds (extended s file) t i o
    → Holds s t i (if file.info.sequence == suc i then some file else o)
Holds-cons s t file i none v a gone h = ground (
  arith,
  has-with_bit s.seen (file.info.sequence - 1) i,
  record_at-extended s file i (ground arith),
)
Holds-cons s t file i (some f) v a gone h =
    ground (arith, has-with_bit s.seen (file.info.sequence - 1) i)

add_all-found :
    (s t : PatchSet) (files : List PatchFile) (i : ℕ)
    → IsValid s
    → add_all s files ≡ ok t
    → Holds s t i (found files i)
unfolding found
add_all-found s t [] i v e =
    unfold add_all in
    let same : s ≡ t = cc in
    (
      ap (λ (u : PatchSet). has u.seen i) (sym same),
      ap (λ (u : PatchSet). record_at u i) (sym same),
    )
add_all-found s t (file ∷ files) i v e =
    let (a, rest) = add_all-cons s file files t e in
    Holds-cons s t file i (found files i) v a (add_all-seen (extended s file) t files i rest)
      (add_all-found (extended s file) t files i (extended-IsValid s file v a) rest)

set_complete_iff :
    (s : PatchSet)
    → IsValid s
    → (set_complete (some s) ≡ ok 0)
      ↔ ((0 < s.count) × ((i : ℕ) → i < s.count → has s.seen i ≡ true))
unfolding set_complete
set_complete_iff s v = (
  (λ e.
      let full = (eq-mask_iff s.seen s.count).0 (ground arith) in
      (ground arith, (λ i h. ground (arith, full i)))),
  (λ h.
      let full = (eq-mask_iff s.seen s.count).1 (λ i. ground (arith, h.1 i, v.in_count i)) in
      ground arith),
)

-- A search that accepted `files` is complete exactly when it fixed a count and every sequence from 1
-- to that count is the sequence of one of the files; the record at index i is then that file's.
pub set_complete-add_all :
    (files : List PatchFile) (s : PatchSet)
    → add_all empty_set files ≡ ok s
    → (set_complete (some s) ≡ ok 0) ↔ (
        (0 < s.count)
        × ((i : ℕ)
            → i < s.count
            → (f : PatchFile) × (found files i ≡ some f)
              × (f.info.sequence ≡ suc i)
              × (record_at s i ≡ f.info)))
set_complete-add_all files s e = (
  (λ c.
      let (some_count, all) = (set_complete_iff s valid).0 c in
      (
        some_count,
        (λ i h.
            from_seen (found files i) i refl (all i h)
              (add_all-found empty_set s files i empty_set-IsValid e)),
      )),
  (λ h.
      (set_complete_iff s valid).1 (
        h.0,
        (λ i lt. to_seen (h.1 i lt) (add_all-found empty_set s files i empty_set-IsValid e)),
      )),
)
  where
    valid : IsValid s
    valid = add_all-IsValid empty_set files s empty_set-IsValid e

    from_seen :
        (o : Option PatchFile) (i : ℕ)
        → found files i ≡ o
        → has s.seen i ≡ true
        → Holds empty_set s i o
        → (f : PatchFile) × (found files i ≡ some f)
          × (f.info.sequence ≡ suc i)
          × (record_at s i ≡ f.info)
    from_seen none i p seen h = absurd (ground (arith, has-zero i))
    from_seen (some f) i p seen h = (f, p, h.2, h.1)

    to_seen :
        {i : ℕ}
        → ((f : PatchFile) × (found files i ≡ some f)
            × (f.info.sequence ≡ suc i)
            × (record_at s i ≡ f.info))
        → Holds empty_set s i (found files i)
        → has s.seen i ≡ true
    to_seen (f, p, _, _) h = (rw p at h).0
