-- ===== src/Wmt/Protocol/Lists.antt =====
-- The checking loop of `wmt_reply_list`: which metadata lists pass.
use android_device_xsh_k50sv.Prelude.{
  ℕ, suc, ◌+◌, ◌-◌, ◌≡◌, ◌↔◌, refl, ap, Bool, false, List, [], ◌∷◌, arith, ok, returned, length,
  All, ◌==◌, ◌||◌,
}
use android_device_xsh_k50sv.Prelude.Bits.{has, has-zero, with_bit, has-with_bit}
use android_device_xsh_k50sv.Prelude.Bits.Count.{ones, ones-with_bit}
use android_device_xsh_k50sv.Wmt.Protocol.{WmtRecord, Kind, patch_list, check_records}
use android_device_xsh_k50sv.Wmt.Protocol.Records.{
  position, InRange, IsListed, Differs, Distinct, Unseen, check_record-only, check_record-listed,
  position-apart,
}

-- The records that are unseen after `r` are those unseen before it that differ from it.
Unseen-with_bit :
    (kind : Kind) (count seen : ℕ) (r s : WmtRecord)
    → InRange kind count r.index
    → InRange kind count s.index
    → Unseen kind (with_bit seen (position kind r.index)) s ↔ (Differs r s × Unseen kind seen s)
Unseen-with_bit kind count seen r s h k =
    let apart = position-apart kind count r.index s.index h k in
    let bit = has-with_bit seen (position kind r.index) (position kind s.index) in
    ((λ e. ground (arith, apart, bit)), (λ e. ground (arith, apart, bit)))

All-Unseen-split :
    (kind : Kind) (count seen : ℕ) (r : WmtRecord) (rs : List WmtRecord)
    → InRange kind count r.index
    → All (IsListed kind count) rs
    → All (Unseen kind (with_bit seen (position kind r.index))) rs
    → All (Differs r) rs × All (Unseen kind seen) rs
All-Unseen-split kind count seen r [] h a u = (tt, tt)
All-Unseen-split kind count seen r (s ∷ rs) h a u =
    let (d, n) = (Unseen-with_bit kind count seen r s h a.0.0).0 u.0 in
    let (ds, ns) = All-Unseen-split kind count seen r rs h a.1 u.1 in ((d, ds), (n, ns))

All-Unseen-join :
    (kind : Kind) (count seen : ℕ) (r : WmtRecord) (rs : List WmtRecord)
    → InRange kind count r.index
    → All (IsListed kind count) rs
    → All (Differs r) rs
    → All (Unseen kind seen) rs
    → All (Unseen kind (with_bit seen (position kind r.index))) rs
All-Unseen-join kind count seen r [] h a d u = tt
All-Unseen-join kind count seen r (s ∷ rs) h a d u = (
  (Unseen-with_bit kind count seen r s h a.0.0).1 (d.0, u.0),
  All-Unseen-join kind count seen r rs h a.1 d.1 u.1,
)

-- Some record has this index.
pub has_index : List WmtRecord → ℕ → Bool
has_index [] i = false
has_index (r ∷ rs) i = r.index == i || has_index rs i

-- What a patch list leaves in `seen`: a bit for each index, and as many bits as records.
module _ (count : ℕ) where
  pub check_records-seen :
      (seen : ℕ) (rs : List WmtRecord) (seen' i : ℕ)
      → check_records patch_list count seen rs ≡ ok seen'
      → has seen' i ≡ (has seen i || has_index rs (suc i))
  unfolding check_records has_index
  check_records-seen seen [] seen' i e = ground arith
  check_records-seen seen (r ∷ rs) seen' i e =
      let (next, e1, e2) = returned _ _ e in
      let (listed, new, eq) = check_record-only patch_list count seen r next e1 in
      ground
        (arith, listed.0, has-with_bit seen (r.index - 1) i, check_records-seen next rs seen' i e2)

  pub check_records-ones :
      (seen : ℕ) (rs : List WmtRecord) (seen' : ℕ)
      → check_records patch_list count seen rs ≡ ok seen'
      → ones count seen' ≡ ones count seen + length rs
  unfolding check_records
  check_records-ones seen [] seen' e = let same : seen ≡ seen' = cc in rw same (omega arith)
  check_records-ones seen (r ∷ rs) seen' e =
      let (next, e1, e2) = returned _ _ e in
      let (listed, new, eq) = check_record-only patch_list count seen r next e1 in
      let one = ones-with_bit count seen (r.index - 1) (omega (arith, listed.0)) new in
      omega (arith, check_records-ones next rs seen' e2, ap (ones count) eq, one)

module _ (kind : Kind) (count : ℕ) where
  pub check_records-only :
      (seen : ℕ) (rs : List WmtRecord) (seen' : ℕ)
      → check_records kind count seen rs ≡ ok seen'
      → All (IsListed kind count) rs × All (Unseen kind seen) rs × Distinct rs
  unfolding check_records
  check_records-only seen [] seen' e = (tt, tt, tt)
  check_records-only seen (r ∷ rs) seen' e =
      let (next, e1, e2) = returned _ _ e in
      let (listed, new, eq) = check_record-only kind count seen r next e1 in
      let (all, unseen, distinct) = check_records-only next rs seen' e2 in
      let later = rw eq at unseen in
      let (differ, before) = All-Unseen-split kind count seen r rs listed.0 all later in
      ((listed, all), (new, before), (differ, distinct))

  pub check_records-listed :
      (seen : ℕ) (rs : List WmtRecord)
      → All (IsListed kind count) rs
      → All (Unseen kind seen) rs
      → Distinct rs
      → (seen' : ℕ) × (check_records kind count seen rs ≡ ok seen')
  unfolding check_records
  check_records-listed seen [] a u d = (seen, refl)
  check_records-listed seen (r ∷ rs) a u d =
      let (seen', e) =
        check_records-listed (with_bit seen (position kind r.index)) rs a.1
          (All-Unseen-join kind count seen r rs a.0.0 a.1 d.0 u.1) d.1 in
      (seen', rw (check_record-listed kind count seen r a.0 u.0) e)

  pub Unseen-zero : (rs : List WmtRecord) → All (Unseen kind 0) rs
  Unseen-zero [] = tt
  Unseen-zero (r ∷ rs) = (has-zero (position kind r.index), Unseen-zero rs)
