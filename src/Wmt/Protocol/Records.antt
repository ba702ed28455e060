-- ===== src/Wmt/Protocol/Records.antt =====
-- One round of the checking loop of `wmt_reply_list`.
use android_device_xsh_k50sv.Prelude.{
  ℕ, ◌-◌, ◌≤◌, ◌<◌, ◌≡◌, ◌≢◌, ◌↔◌, false, List, [], ◌∷◌, arith, ok, returned, passed, All,
}
use android_device_xsh_k50sv.Prelude.Bits.{has, with_bit}
use android_device_xsh_k50sv.Wmt.Protocol.{
  WmtRecord, Kind, command, status, patch_list, rom_list, bit_index, check_record,
  is_bad_record_name,
}

-- Where a record stands among the bits, and whether its index is allowed.
abbrev pub position : Kind → ℕ → ℕ
position patch_list index = index - 1
position _ index = index

abbrev pub InRange : Kind → ℕ → ℕ → Type 0
InRange patch_list count index = (0 < index) × (index ≤ count)
InRange _ count index = index < 5

-- The conditions on one record, and that no other record has its index.
abbrev pub IsListed : Kind → ℕ → WmtRecord → Type 0
IsListed kind count r = InRange kind count r.index × (is_bad_record_name r.name ≡ false)

abbrev pub Differs : WmtRecord → WmtRecord → Type 0
Differs r s = r.index ≢ s.index

abbrev pub Distinct : List WmtRecord → Type 0
Distinct [] = Unit
Distinct (r ∷ rs) = All (Differs r) rs × Distinct rs

abbrev pub Unseen : Kind → ℕ → WmtRecord → Type 0
Unseen kind seen r = has seen (position kind r.index) ≡ false

bit_index-ok :
    (kind : Kind) (count index i : ℕ)
    → bit_index kind count index ≡ ok i
    → InRange kind count index × (i ≡ position kind index)
bit_index-ok patch_list count index i e = ground arith
bit_index-ok command count index i e = ground arith
bit_index-ok status count index i e = ground arith
bit_index-ok rom_list count index i e = ground arith

ok-bit_index :
    (kind : Kind) (count index : ℕ)
    → InRange kind count index
    → bit_index kind count index ≡ ok (position kind index)
ok-bit_index patch_list count index h = ground arith
ok-bit_index command count index h = ground arith
ok-bit_index status count index h = ground arith
ok-bit_index rom_list count index h = ground arith

pub check_record-only :
    (kind : Kind) (count seen : ℕ) (r : WmtRecord) (seen' : ℕ)
    → check_record kind count seen r ≡ ok seen'
    → IsListed kind count r × Unseen kind seen r × (seen' ≡ with_bit seen (position kind r.index))
unfolding check_record
check_record-only kind count seen r seen' e =
    let (i, e1, e2) = returned _ _ e in
    let (range, at) = bit_index-ok kind count r.index i e1 in
    let (new, e3) = passed _ _ _ e2 in
    let (named, e4) = passed _ _ _ e3 in ((range, named), rw (← at) new, rw (← at) (cc))

pub check_record-listed :
    (kind : Kind) (count seen : ℕ) (r : WmtRecord)
    → IsListed kind count r
    → Unseen kind seen r
    → check_record kind count seen r ≡ ok (with_bit seen (position kind r.index))
unfolding check_record
check_record-listed kind count seen r (range, named) new =
    rw (ok-bit_index kind count r.index range, new, named)

-- Positions of allowed records differ as their indices do.
pub position-apart :
    (kind : Kind) (count a b : ℕ)
    → InRange kind count a
    → InRange kind count b
    → (position kind a ≡ position kind b) ↔ (a ≡ b)
position-apart patch_list count a b h k = ((λ e. omega arith), (λ e. omega arith))
position-apart command count a b h k = ((λ e. e), (λ e. e))
position-apart status count a b h k = ((λ e. e), (λ e. e))
position-apart rom_list count a b h k = ((λ e. e), (λ e. e))
