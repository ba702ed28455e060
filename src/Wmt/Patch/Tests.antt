-- ===== src/Wmt/Patch/Tests.antt =====
-- Runs of wmt-launcher/patch.c on two patch files, p1 and p2, of a set of two.
use mathlib.Core.List.Perm
use android_device_xsh_k50sv.Prelude.{
  ℕ, ◌≡◌, refl, List, [], ◌∷◌, ◌++◌, ok, fail, some, replicate, arith, ◌<◌, ◌⊎◌, ◌↔◌, suc, ◌-◌,
  true,
}
use android_device_xsh_k50sv.Prelude.Bits.{has}
use android_device_xsh_k50sv.Prelude.Errno.{einval, eexist}
use android_device_xsh_k50sv.Prelude.CStrings.{contains, padded}
use android_device_xsh_k50sv.Wmt.Patch.{
  PatchFile, PatchSet, empty_set, zero_info, parse, set_add, set_complete, add,
}
use android_device_xsh_k50sv.Wmt.Patch.Parse.{IsFile, Accepts, described, parse_iff}
use android_device_xsh_k50sv.Wmt.Patch.Sets.{
  record_at, Adds, extended, IsValid, empty_set-IsValid, set_add_cases,
}
use android_device_xsh_k50sv.Wmt.Patch.AddAll.{add_all}
use android_device_xsh_k50sv.Wmt.Patch.Search.{add_all-perm_iff, found, set_complete-add_all}

abbrev header : ℕ → List ℕ
header packed = replicate 23 65 ++ 0x12 ∷ packed ∷ 1 ∷ 2 ∷ 3 ∷ []

abbrev p1 : PatchFile
p1 = described (header 0x21) (112 ∷ 49 ∷ [])

abbrev p2 : PatchFile
p2 = described (header 0x22) (112 ∷ 50 ∷ [])

abbrev blank : PatchFile
blank = record { count = 0; info = zero_info }

p1-Accepts : Accepts (header 0x21) (112 ∷ 49 ∷ []) 0x8a12
unfolding contains
p1-Accepts = record {
  full = omega arith;
  named = omega arith;
  fits = omega arith;
  no_slash = refl;
  matches = refl;
  some_count = omega arith;
  few = omega arith;
  some_sequence = omega arith;
  in_count = omega arith;
}

parse_iff_example : (parse (some (header 0x21)) (some (112 ∷ 49 ∷ [])) 0x8a12 (some blank)).0 ≡ ok 0
parse_iff_example = (parse_iff (header 0x21) (112 ∷ 49 ∷ []) 0x8a12 blank).0.1 p1-Accepts

both : add_all empty_set (p1 ∷ p2 ∷ []) ≡ ok (extended (extended empty_set p1) p2)
unfolding add_all add has contains padded
both = refl

abbrev complete_set : PatchSet
complete_set = extended (extended empty_set p1) p2

set_add_cases_example :
    let (result, after) = set_add (some empty_set) (some p1) in
    ((result ≡ ok 0)
      × Adds empty_set p1
      × (after ≡ some (extended empty_set p1))
      × IsValid (extended empty_set p1))
    ⊎ (((result ≡ fail eexist)
            × IsFile p1
            × ((empty_set.count ≡ 0) ⊎ (empty_set.count ≡ p1.count))
            × (has empty_set.seen (p1.info.sequence - 1) ≡ true)
          ⊎ (result ≡ fail einval)
            × ¬ (IsFile p1 × ((empty_set.count ≡ 0) ⊎ (empty_set.count ≡ p1.count))))
        × (after ≡ some empty_set))
set_add_cases_example = set_add_cases empty_set p1 empty_set-IsValid

add_all-perm_iff_example : add_all empty_set (p2 ∷ p1 ∷ []) ≡ ok complete_set
add_all-perm_iff_example =
    (add_all-perm_iff empty_set complete_set (p1 ∷ p2 ∷ []) (p2 ∷ p1 ∷ []) (Perm.swap p2 p1 [])).0
      both

set_complete-add_all_example : (set_complete (some complete_set) ≡ ok 0) ↔ (
    (0 < complete_set.count)
    × ((i : ℕ)
        → i < complete_set.count
        → (f : PatchFile) × (found (p1 ∷ p2 ∷ []) i ≡ some f)
          × (f.info.sequence ≡ suc i)
          × (record_at complete_set i ≡ f.info)))
set_complete-add_all_example = set_complete-add_all (p1 ∷ p2 ∷ []) complete_set both
