-- ===== src/Wmt/Patch/Sets.antt =====
-- Adding files one after the other: what a set then holds, and its invariant.
use android_device_xsh_k50sv.Prelude.{
  ℕ, suc, ◌-◌, ◌≤◌, ◌<◌, ◌≡◌, ◌⊎◌, refl, true, false, arith, ok, length, length-set, set, get_or,
  get_or-set_self, get_or-set_ne, ◌==◌, if◌then◌else◌,
}
use android_device_xsh_k50sv.Prelude.{Result, fail, some, inl, inr, ap}
use android_device_xsh_k50sv.Prelude.Errno.{einval, eexist}
use android_device_xsh_k50sv.Wmt.Patch.{set_add, stored}
use android_device_xsh_k50sv.Prelude.Bits.{has, has-zero, with_bit, has-with_bit}
use android_device_xsh_k50sv.Prelude.CStrings.{contains}
use android_device_xsh_k50sv.Wmt.Patch.{PatchInfo, PatchFile, PatchSet, empty_set, zero_info, add}
use android_device_xsh_k50sv.Wmt.Patch.Parse.{IsFile}

abbrev pub record_at : PatchSet → ℕ → PatchInfo
record_at s i = get_or s.records i zero_info

-- When `add` succeeds, and with what.
pub record Adds (s : PatchSet) (file : PatchFile) : Type 0 where
  pub is_file : IsFile file
  pub agrees : (s.count ≡ 0) ⊎ (s.count ≡ file.count)
  pub is_new : has s.seen (file.info.sequence - 1) ≡ false

abbrev pub extended : PatchSet → PatchFile → PatchSet
extended s file = record {
  count = file.count;
  seen = with_bit s.seen (file.info.sequence - 1);
  records = set s.records (file.info.sequence - 1) file.info;
}

pub add-Adds : (s : PatchSet) (file : PatchFile) → Adds s file → add s file ≡ ok (extended s file)
unfolding add
add-Adds s file h = ground arith

pub add-only :
    (s : PatchSet) (file : PatchFile) (t : PatchSet)
    → add s file ≡ ok t
    → Adds s file × (t ≡ extended s file)
unfolding add
add-only s file t e = ground arith

pub add_fails :
    (s : PatchSet) (file : PatchFile) (e : ℕ)
    → add s file ≡ fail e
    → (◌≡◌ {A = Result ℕ} (fail e) (fail eexist)
        × IsFile file
        × ((s.count ≡ 0) ⊎ (s.count ≡ file.count))
        × (has s.seen (file.info.sequence - 1) ≡ true))
      ⊎ (◌≡◌ {A = Result ℕ} (fail e) (fail einval)
          × ¬ (IsFile file × ((s.count ≡ 0) ⊎ (s.count ≡ file.count))))
unfolding add
add_fails s file e h = ground arith

-- The sets that a search can meet.
pub record IsValid (s : PatchSet) : Type 0 where
  pub few : s.count ≤ 10
  pub sized : length s.records ≡ 10
  pub in_count : (i : ℕ) → has s.seen i ≡ true → i < s.count
  pub indexed : (i : ℕ) → has s.seen i ≡ true → (record_at s i).sequence ≡ suc i
  pub terminated : (i : ℕ) → has s.seen i ≡ true → contains 0 (record_at s i).name ≡ true

pub empty_set-IsValid : IsValid empty_set
empty_set-IsValid = record {
  few = omega arith;
  sized = refl;
  in_count = λ i h. absurd (cc (has-zero i));
  indexed = λ i h. absurd (cc (has-zero i));
  terminated = λ i h. absurd (cc (has-zero i));
}

-- The new record stands at its index, and the others stay.
pub record_at-extended :
    (s : PatchSet) (file : PatchFile) (i : ℕ)
    → file.info.sequence - 1 < length s.records
    → record_at (extended s file) i
      ≡ (if file.info.sequence - 1 == i then file.info else record_at s i)
record_at-extended s file i h = ground (
  arith,
  get_or-set_self s.records (file.info.sequence - 1) file.info zero_info,
  get_or-set_ne s.records (file.info.sequence - 1) i file.info zero_info,
)

pub extended-IsValid :
    (s : PatchSet) (file : PatchFile) → IsValid s → Adds s file → IsValid (extended s file)
extended-IsValid s file v a = record {
  few = ground arith;
  sized = ground (arith, length-set s.records (file.info.sequence - 1) file.info);
  in_count = λ i h. ground (arith, has-with_bit s.seen (file.info.sequence - 1) i, v.in_count i);
  indexed = λ i h. ground (
    arith,
    has-with_bit s.seen (file.info.sequence - 1) i,
    v.indexed i,
    record_at-extended s file i,
  );
  terminated = λ i h. ground (
    arith,
    has-with_bit s.seen (file.info.sequence - 1) i,
    v.terminated i,
    record_at-extended s file i,
  );
}

-- `wmt_patch_set_add` on every branch. It returns 0 exactly on a well-formed file that agrees with the
-- count and brings a new sequence, and then stores it; a repeated sequence of such a file is -EEXIST;
-- any other result is -EINVAL. A failing call leaves the set alone, and every call leaves it valid.
pub set_add_cases :
    (s : PatchSet) (file : PatchFile)
    → IsValid s
    → let (result, after) = set_add (some s) (some file) in
      ((result ≡ ok 0) × Adds s file × (after ≡ some (extended s file)) × IsValid (extended s file))
      ⊎ (((result ≡ fail eexist)
              × IsFile file
              × ((s.count ≡ 0) ⊎ (s.count ≡ file.count))
              × (has s.seen (file.info.sequence - 1) ≡ true)
            ⊎ (result ≡ fail einval) × ¬ (IsFile file × ((s.count ≡ 0) ⊎ (s.count ≡ file.count))))
          × (after ≡ some s))
unfolding set_add
set_add_cases s file v = by_outcome (add s file) refl
  where
    by_outcome :
        (r : Result PatchSet)
        → add s file ≡ r
        → let (result, after) = stored s r in
          ((result ≡ ok 0)
            × Adds s file
            × (after ≡ some (extended s file))
            × IsValid (extended s file))
          ⊎ (((result ≡ fail eexist)
                  × IsFile file
                  × ((s.count ≡ 0) ⊎ (s.count ≡ file.count))
                  × (has s.seen (file.info.sequence - 1) ≡ true)
                ⊎ (result ≡ fail einval)
                  × ¬ (IsFile file × ((s.count ≡ 0) ⊎ (s.count ≡ file.count))))
              × (after ≡ some s))
    by_outcome (ok t) e =
        let (a, eq) = add-only s file t e in inl (refl, a, ap some eq, extended-IsValid s file v a)
    by_outcome (fail x) e = inr (add_fails s file x e, refl)
