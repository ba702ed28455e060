-- ===== src/Wmt/Protocol/Frames.antt =====
-- Which metadata lists `wmt_reply_list` accepts, and the frame that it then writes.
use android_device_xsh_k50sv.Prelude.{
  ℕ, suc, ◌+◌, ◌*◌, ◌≤◌, ◌<◌, ◌≡◌, ◌⊎◌, inl, inr, refl, ap, true, false, some, List, [], ◌∷◌, ◌++◌,
  arith, Result, ok, fail, returned, passed, length, drop, All, ltb,
}
use android_device_xsh_k50sv.Prelude.Errno.{einval, e2big, emsgsize}
use android_device_xsh_k50sv.Prelude.Bits.{has-zero}
use android_device_xsh_k50sv.Prelude.Bits.Count.{ones, ones-zero, ones_full}
use android_device_xsh_k50sv.Wmt.Protocol.{
  WmtCommand, WmtRecord, Kind, command, status, patch_list, rom_list, check_records, check_list,
  list_limit, list_size, lacks_identity, reply_list, written, record_array,
}
use android_device_xsh_k50sv.Wmt.Protocol.Reply.{IsSized, list_bytes, write_list-bytes}
use android_device_xsh_k50sv.Wmt.Protocol.Records.{IsListed, Distinct}
use android_device_xsh_k50sv.Wmt.Protocol.Lists.{
  has_index, check_records-seen, check_records-ones, check_records-only, check_records-listed,
  Unseen-zero,
}

-- How many records a kind of list may have.
abbrev pub InLimit : Kind → ℕ → Type 0
InLimit patch_list count = (0 < count) × (count ≤ 10)
InLimit rom_list count = count ≤ 5
InLimit _ count = ⊥

-- A command and its metadata that may be sent in a frame of this capacity.
pub record IsReply (c : WmtCommand) (kind : Kind) (rs : List WmtRecord) (capacity : ℕ)
    : Type 0 where
  pub some_session : 0 < c.session
  pub some_transaction : 0 < c.transaction
  pub in_limit : InLimit kind (length rs)
  pub fits : 40 + length rs * 264 ≤ capacity
  pub listed : All (IsListed kind (length rs)) rs
  pub distinct : Distinct rs

list_limit-only :
    (kind : Kind) (count maximum : ℕ)
    → list_limit kind count ≡ ok maximum
    → ltb maximum count ≡ false
    → InLimit kind count
list_limit-only patch_list count maximum e l = ground arith
list_limit-only rom_list count maximum e l = ground arith
list_limit-only command count maximum e l = absurd (cc)
list_limit-only status count maximum e l = absurd (cc)

list_limit-in :
    (kind : Kind) (count : ℕ)
    → InLimit kind count
    → (maximum : ℕ) × (list_limit kind count ≡ ok maximum) × (ltb maximum count ≡ false)
list_limit-in patch_list count h = (10, ground arith, ground arith)
list_limit-in rom_list count h = (5, refl, ground arith)
list_limit-in command count h = absurd h
list_limit-in status count h = absurd h

has_identity : (c : WmtCommand) → lacks_identity c ≡ false → (0 < c.session) × (0 < c.transaction)
has_identity c h = ground arith

ltb-le : (a b : ℕ) → ltb a b ≡ false → b ≤ a
ltb-le a b h = ground arith

-- The checks of an accepted list, in their order.
record Checked (c : WmtCommand) (kind : Kind) (rs : List WmtRecord) (capacity n : ℕ) : Type 0 where
  maximum : ℕ
  seen : ℕ
  identity : lacks_identity c ≡ false
  limit : list_limit kind (length rs) ≡ ok maximum
  few : ltb maximum (length rs) ≡ false
  room : ltb capacity (32 + list_size (length rs)) ≡ false
  records : check_records kind (length rs) 0 rs ≡ ok seen
  size : n ≡ 40 + length rs * 264

check_list-Checked :
    (c : WmtCommand) (kind : Kind) (rs : List WmtRecord) (frame : List ℕ) (n : ℕ)
    → check_list c kind rs (length rs) frame ≡ ok n
    → Checked c kind rs (length frame) n
unfolding check_list
check_list-Checked c kind rs frame n e =
    let (identity, e1) = passed (lacks_identity c) einval _ e in
    let (maximum, limit, e2) = returned (list_limit kind (length rs)) _ e1 in
    let (few, e3) = passed (ltb maximum (length rs)) e2big _ e2 in
    let (room, e4) = passed (ltb (length frame) (32 + list_size (length rs))) emsgsize _ e3 in
    let (seen, records, e5) = returned (check_records kind (length rs) 0 rs) _ e4 in
    record {
      maximum = maximum;
      seen = seen;
      identity = identity;
      limit = limit;
      few = few;
      room = room;
      records = records;
      size = same e5;
    }
  where
    same : ◌≡◌ {A = Result ℕ} (ok (32 + list_size (length rs))) (ok n) → n ≡ 40 + length rs * 264
    same h = ground arith

Checked-IsReply :
    {c : WmtCommand} {kind : Kind} {rs : List WmtRecord} {capacity n : ℕ}
    → Checked c kind rs capacity n
    → IsReply c kind rs capacity
Checked-IsReply {c} {kind} {rs} {capacity} h =
    let (listed, _, distinct) = check_records-only kind (length rs) 0 rs h.seen h.records in
    record {
      some_session = (has_identity c h.identity).0;
      some_transaction = (has_identity c h.identity).1;
      in_limit = list_limit-only kind (length rs) h.maximum h.limit h.few;
      fits = omega (arith, ltb-le capacity (32 + list_size (length rs)) h.room);
      listed = listed;
      distinct = distinct;
    }

check_list-IsReply :
    (c : WmtCommand) (kind : Kind) (rs : List WmtRecord) (frame : List ℕ)
    → IsReply c kind rs (length frame)
    → check_list c kind rs (length rs) frame ≡ ok (40 + length rs * 264)
unfolding check_list
check_list-IsReply c kind rs frame h =
    let (maximum, limit, few) = list_limit-in kind (length rs) h.in_limit in
    let (seen, checked) =
      check_records-listed kind (length rs) 0 rs h.listed (Unseen-zero kind (length rs) rs)
        h.distinct in
    ground (arith, h.some_session, h.some_transaction, h.fits)

record_array-length : (rs : List WmtRecord) → record_array (some rs) (length rs) ≡ rs
record_array-length [] = refl
record_array-length (r ∷ rs) = ap (◌∷◌ r) (record_array-length rs)

-- `wmt_reply_list` on an array of `length rs` records. It returns a size exactly for a list that may be
-- sent; the size is then 40 + 264 per record, and the frame begins with the header, the count, four
-- zero bytes and the records, their names padded with NULs, and is otherwise unchanged. On an error
-- the frame is unchanged.
pub reply_list_cases :
    (c : WmtCommand) (kind : Kind) (rs : List WmtRecord) (frame : List ℕ)
    → All IsSized rs
    → (IsReply c kind rs (length frame)
        × (reply_list (some c) kind (some rs) (length rs) (some frame) ≡ (
          ok (40 + length rs * 264),
          some (list_bytes c kind rs (length rs) ++ drop (40 + length rs * 264) frame),
        )))
      ⊎ (¬ IsReply c kind rs (length frame)
          × (e : ℕ) × (reply_list (some c) kind (some rs) (length rs) (some frame)
              ≡ (fail e, some frame)))
unfolding reply_list
reply_list_cases c kind rs frame sized =
    rw (record_array-length rs) (by_outcome (check_list c kind rs (length rs) frame) refl)
  where
    by_outcome :
        (r : Result ℕ)
        → check_list c kind rs (length rs) frame ≡ r
        → (IsReply c kind rs (length frame)
            × (written r c kind rs (length rs) frame ≡ (
              ok (40 + length rs * 264),
              some (list_bytes c kind rs (length rs) ++ drop (40 + length rs * 264) frame),
            )))
          ⊎ (¬ IsReply c kind rs (length frame)
              × (e : ℕ) × (written r c kind rs (length rs) frame ≡ (fail e, some frame)))
    by_outcome (ok n) e =
        let checked = check_list-Checked c kind rs frame n e in
        let reply = Checked-IsReply checked in
        inl (reply, rw (checked.size, write_list-bytes c kind rs frame reply.fits sized))
    by_outcome (fail x) e =
        inr ((λ reply. absurd (cc (check_list-IsReply c kind rs frame reply))), x, refl)

has_index-all :
    (rs : List WmtRecord) (seen i : ℕ)
    → check_records patch_list (length rs) 0 rs ≡ ok seen
    → i < length rs
    → has_index rs (suc i) ≡ true
has_index-all rs seen i e h =
    let full : ones (length rs) seen ≡ length rs =
      omega (arith, check_records-ones (length rs) 0 rs seen e, ones-zero (length rs)) in
    ground (
      arith,
      has-zero i,
      check_records-seen (length rs) 0 rs seen i e,
      ones_full (length rs) seen i full h,
    )

-- An accepted patch list is complete: every sequence from 1 to its count is the index of a record.
pub patch_list_complete :
    (c : WmtCommand) (rs : List WmtRecord) (frame : List ℕ) (n i : ℕ)
    → (reply_list (some c) patch_list (some rs) (length rs) (some frame)).0 ≡ ok n
    → i < length rs
    → has_index rs (suc i) ≡ true
unfolding reply_list
patch_list_complete c rs frame n i e h =
    complete (check_list c patch_list rs (length rs) frame) refl (rw (record_array-length rs) at e)
  where
    complete :
        (r : Result ℕ)
        → check_list c patch_list rs (length rs) frame ≡ r
        → (written r c patch_list rs (length rs) frame).0 ≡ ok n
        → has_index rs (suc i) ≡ true
    complete (ok m) p q =
        let checked = check_list-Checked c patch_list rs frame m p in
        has_index-all rs checked.seen i checked.records h
    complete (fail x) p q = absurd (cc)
