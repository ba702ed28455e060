-- ===== src/Wmt/Patch/AddAll.antt =====
-- wmt-launcher/patch.c: adding a list of files to a set.
use android_device_xsh_k50sv.Prelude.{
  ℕ, ◌-◌, ◌≡◌, ◌≢◌, refl, true, List, [], ◌∷◌, arith, Result, ok, fail, ◌>>=◌, set_comm, ◌==◌,
  if◌then◌else◌,
}
use android_device_xsh_k50sv.Prelude.Bits.{has, with_bit, has-with_bit, has_ext}
use android_device_xsh_k50sv.Wmt.Patch.{PatchFile, PatchSet, add}
use android_device_xsh_k50sv.Wmt.Patch.Sets.{
  Adds, extended, add-Adds, add-only, IsValid, extended-IsValid,
}

-- Each file goes into the set of those before it; the first error ends the search.
unfoldable pub add_all : PatchSet → List PatchFile → Result PatchSet
add_all s [] = ok s
add_all s (file ∷ files) = add s file >>= λ t. add_all t files

pub add_all-cons :
    (s : PatchSet) (file : PatchFile) (files : List PatchFile) (t : PatchSet)
    → add_all s (file ∷ files) ≡ ok t
    → Adds s file × (add_all (extended s file) files ≡ ok t)
unfolding add_all
add_all-cons s file files t e = by_outcome (add s file) refl e
  where
    by_outcome :
        (r : Result PatchSet)
        → add s file ≡ r
        → (r >>= λ u. add_all u files) ≡ ok t
        → Adds s file × (add_all (extended s file) files ≡ ok t)
    by_outcome (ok u) p q = let (adds, eq) = add-only s file u p in (adds, rw (← eq) q)
    by_outcome (fail x) p q = absurd (cc)

pub cons-add_all :
    (s : PatchSet) (file : PatchFile) (files : List PatchFile) (t : PatchSet)
    → Adds s file
    → add_all (extended s file) files ≡ ok t
    → add_all s (file ∷ files) ≡ ok t
unfolding add_all
cons-add_all s file files t a e = rw (add-Adds s file a) e

pub add_all-IsValid :
    (s : PatchSet) (files : List PatchFile) (t : PatchSet)
    → IsValid s
    → add_all s files ≡ ok t
    → IsValid t
add_all-IsValid s [] t v e = unfold add_all in rw (ok_inj e) at v
  where
    ok_inj : ok s ≡ ok t → s ≡ t
    ok_inj p = cc
add_all-IsValid s (file ∷ files) t v e =
    let (a, rest) = add_all-cons s file files t e in
    add_all-IsValid (extended s file) files t (extended-IsValid s file v a) rest

with_bit_comm : (s i j : ℕ) → with_bit (with_bit s i) j ≡ with_bit (with_bit s j) i
with_bit_comm s i j = has_ext _ _ (λ k. ground (
  arith,
  has-with_bit (with_bit s i) j k,
  has-with_bit s i k,
  has-with_bit (with_bit s j) i k,
  has-with_bit s j k,
))

-- Two files that go in one after the other also go in the other way round, with the same result.
pub Adds-swap :
    (s : PatchSet) (a b : PatchFile)
    → Adds s a
    → Adds (extended s a) b
    → Adds s b × Adds (extended s b) a × (extended (extended s a) b ≡ extended (extended s b) a)
Adds-swap s a b p q = (
  record { is_file = q.is_file; agrees = ground arith; is_new = ground (arith, at_a) },
  record { is_file = p.is_file; agrees = ground arith; is_new = ground (arith, at_b, at_a) },
  ground (
    arith,
    apart,
    with_bit_comm s.seen (pos a) (pos b),
    set_comm s.records (pos a) (pos b) a.info b.info,
  ),
)
  where
    pos : PatchFile → ℕ
    pos file = file.info.sequence - 1

    at_a :
        has (with_bit s.seen (pos a)) (pos b)
        ≡ (if pos a == pos b then true else has s.seen (pos b))
    at_a = has-with_bit s.seen (pos a) (pos b)

    at_b :
        has (with_bit s.seen (pos b)) (pos a)
        ≡ (if pos b == pos a then true else has s.seen (pos a))
    at_b = has-with_bit s.seen (pos b) (pos a)

    apart : pos a ≢ pos b
    apart = ground (arith, at_a)
