-- ===== src/Wmt/Protocol/Reply.antt =====
-- The bytes that `wmt_reply_status` and `wmt_reply_list` write.
use mathlib.Core.List.{append_assoc, append-nil}
use android_device_xsh_k50sv.Prelude.{
  ℕ, suc, ◌+◌, ◌*◌, ◌≤◌, ◌<◌, ◌≡◌, ◌⊎◌, refl, ap, ◌∙◌, true, false, some, List, [], ◌∷◌, ◌++◌,
  arith, ok, fail, length, drop, replicate, All, length-append, length-drop, length-replicate,
}
use android_device_xsh_k50sv.Prelude.Errno.{einval, emsgsize}
use android_device_xsh_k50sv.Prelude.Bytes.{
  le_bytes, overwrite, overwrite-zero, overwrite-drop, overwrite-append, drop-drop,
  drop-replicate_append,
}
use android_device_xsh_k50sv.Prelude.CStrings.{padded, length-padded}
use android_device_xsh_k50sv.Prelude.Int.{ℤ, pos, to_u32}
use android_device_xsh_k50sv.Prelude.CStrings.{chars}
use android_device_xsh_k50sv.Wmt.Protocol.{
  WmtCommand, WmtRecord, Kind, magic, version, kind_number, status, reply_header, reply_status,
  is_no_status, write_records, list_size, write_list, write32,
}

-- The header of a reply, field by field.
abbrev pub header_bytes : WmtCommand → ℕ → ℕ → ℤ → List ℕ
header_bytes c kind size result =
    le_bytes 4 magic
    ++ (le_bytes 2 version
        ++ (le_bytes 2 kind
            ++ (le_bytes 8 c.session
                ++ (le_bytes 8 c.transaction ++ (le_bytes 4 size ++ le_bytes 4 (to_u32 result))))))

pub reply_header-bytes :
    (c : WmtCommand) (kind size : ℕ) (result : ℤ) (frame : List ℕ)
    → 32 ≤ length frame
    → reply_header c kind size result frame ≡ header_bytes c kind size result ++ drop 32 frame
unfolding reply_header
reply_header-bytes c kind size result frame h = rw (
  overwrite-zero frame (le_bytes 4 magic) (omega arith),
  overwrite-drop frame (le_bytes 2 version) 4 (omega arith),
  overwrite-drop frame (le_bytes 2 kind) 6 (omega arith),
  overwrite-drop frame (le_bytes 8 c.session) 8 (omega arith),
  overwrite-drop frame (le_bytes 8 c.transaction) 16 (omega arith),
  overwrite-drop frame (le_bytes 4 size) 24 (omega arith),
  overwrite-drop frame (le_bytes 4 (to_u32 result)) 28 (omega arith),
)

-- `wmt_reply_status` on a frame: it returns 32 exactly if the command has a session and a transaction,
-- the result lies between -4095 and 0 and the frame has room, and then the frame begins with the header
-- of an empty status reply and is otherwise unchanged. On an error the frame is unchanged.
pub reply_status_cases :
    (c : WmtCommand) (result : ℤ) (frame : List ℕ)
    → ((reply_status (some c) result (some frame)
          ≡ (ok 32, some (header_bytes c (kind_number status) 0 result ++ drop 32 frame)))
        × (0 < c.session)
        × (0 < c.transaction)
        × (is_no_status result ≡ false)
        × (32 ≤ length frame))
      ⊎ ((reply_status (some c) result (some frame) ≡ (fail emsgsize, some frame))
          × (length frame < 32))
      ⊎ ((reply_status (some c) result (some frame) ≡ (fail einval, some frame))
          × ((c.session ≡ 0) ⊎ (c.transaction ≡ 0) ⊎ (is_no_status result ≡ true)))
unfolding reply_status
reply_status_cases c result frame =
    ground (arith, reply_header-bytes c (kind_number status) 0 result frame)

abbrev pub record_bytes : WmtRecord → List ℕ
record_bytes r = le_bytes 4 r.index ++ (r.address ++ padded 256 (chars r.name))

abbrev pub records_bytes : List WmtRecord → List ℕ
records_bytes [] = []
records_bytes (r ∷ rs) = record_bytes r ++ records_bytes rs

-- A record with its array sizes, and a name that is NUL-terminated in its array.
pub record IsSized (r : WmtRecord) : Type 0 where
  pub address_size : length r.address ≡ 4
  pub name_fits : length (chars r.name) < 256

pub length-record_bytes : (r : WmtRecord) → IsSized r → length (record_bytes r) ≡ 264
length-record_bytes r h = omega (
  arith,
  length-append r.address (padded 256 (chars r.name)),
  length-padded 256 (chars r.name),
  h.address_size,
  h.name_fits,
)

-- memset of the array, then memcpy of the name.
write_padded :
    (done old name : List ℕ) (off m : ℕ)
    → off ≡ length done
    → m ≤ length old
    → length name ≤ m
    → overwrite (overwrite (done ++ old) off (replicate m 0)) off name
      ≡ (done ++ padded m name) ++ drop m old
unfolding padded
write_padded done old name off m e l n =
    let zeros : length (replicate {A = ℕ} m 0) ≡ m = length-replicate m 0 in
    let first : overwrite (done ++ old) off (replicate m 0)
        ≡ done ++ (replicate m 0 ++ drop m old) =
      overwrite-append done old (replicate m 0) off e (omega (arith, zeros))
      ∙ rw (zeros, append_assoc) in
    let second =
      overwrite-append done (replicate m 0 ++ drop m old) name off e
        (omega (arith, zeros, length-append (replicate m 0) (drop m old))) in
    rw first
      (second ∙ rw (drop-replicate_append (length name) m 0 (drop m old) n) (simp append_assoc))

-- One record behind the `done` bytes.
write_record :
    (done old : List ℕ) (r : WmtRecord) (off : ℕ)
    → off ≡ length done
    → 264 ≤ length old
    → IsSized r
    → overwrite
        (overwrite
          (overwrite (write32 (done ++ old) off r.index) (off + 4) r.address)
          (off + 8)
          (replicate 256 0))
        (off + 8)
        (chars r.name)
      ≡ (done ++ record_bytes r) ++ drop 264 old
write_record done old r off e l h =
    let index : write32 (done ++ old) off r.index ≡ (done ++ le_bytes 4 r.index) ++ drop 4 old =
      overwrite-append done old (le_bytes 4 r.index) off e (omega arith) in
    let address : overwrite ((done ++ le_bytes 4 r.index) ++ drop 4 old) (off + 4) r.address
        ≡ ((done ++ le_bytes 4 r.index) ++ r.address) ++ drop 8 old =
      overwrite-append (done ++ le_bytes 4 r.index) (drop 4 old) r.address (off + 4)
        (omega (arith, length-append done (le_bytes 4 r.index)))
        (omega (arith, length-drop 4 old, h.address_size))
      ∙ rw (h.address_size, drop-drop 4 4 old) in
    let name =
      write_padded ((done ++ le_bytes 4 r.index) ++ r.address) (drop 8 old) (chars r.name) (off + 8)
        256
        (omega (
          arith,
          length-append done (le_bytes 4 r.index),
          length-append (done ++ le_bytes 4 r.index) r.address,
          h.address_size,
        ))
        (omega (arith, length-drop 8 old)) (omega (arith, h.name_fits)) in
    ap
      (λ f.
        overwrite (overwrite (overwrite f (off + 4) r.address) (off + 8) (replicate 256 0))
          (off + 8) (chars r.name))
      index
    ∙ ap (λ f. overwrite (overwrite f (off + 8) (replicate 256 0)) (off + 8) (chars r.name)) address
    ∙ name
    ∙ rw (drop-drop 8 256 old) (simp append_assoc)

write_records-bytes :
    (rs : List WmtRecord) (done old : List ℕ) (off : ℕ)
    → off ≡ length done
    → length rs * 264 ≤ length old
    → All IsSized rs
    → write_records off rs (done ++ old) ≡ (done ++ records_bytes rs) ++ drop (length rs * 264) old
unfolding write_records
write_records-bytes [] done old off e l h = rw append-nil
write_records-bytes (r ∷ rs) done old off e l h =
    ap (write_records (off + 264) rs) (write_record done old r off e (omega arith) h.0)
    ∙ write_records-bytes rs (done ++ record_bytes r) (drop 264 old) (off + 264)
        (omega (arith, length-append done (record_bytes r), length-record_bytes r h.0))
        (omega (arith, length-drop 264 old)) h.1
    ∙ rw (drop-drop 264 (length rs * 264) old) (
        let k : 264 + length rs * 264 ≡ suc (length rs) * 264 = omega arith in
        rw k (simp append_assoc))

-- The whole frame of a list.
abbrev pub list_bytes : WmtCommand → Kind → List WmtRecord → ℕ → List ℕ
list_bytes c kind rs count =
    header_bytes c (kind_number kind) (list_size count) (pos 0)
    ++ (le_bytes 4 count ++ (le_bytes 4 0 ++ records_bytes rs))

pub write_list-bytes :
    (c : WmtCommand) (kind : Kind) (rs : List WmtRecord) (frame : List ℕ)
    → 40 + length rs * 264 ≤ length frame
    → All IsSized rs
    → write_list c kind rs (length rs) frame
      ≡ list_bytes c kind rs (length rs) ++ drop (40 + length rs * 264) frame
unfolding write_list
write_list-bytes c kind rs frame l h =
    let header =
      reply_header-bytes c (kind_number kind) (list_size (length rs)) (pos 0) frame (omega arith) in
    rw
      (
        header,
        overwrite-drop frame (le_bytes 4 (length rs)) 32 (omega arith),
        overwrite-drop frame (le_bytes 4 0) 36 (omega arith),
      )
      (write_records-bytes rs
          (header_bytes c (kind_number kind) (list_size (length rs)) (pos 0)
            ++ (le_bytes 4 (length rs) ++ le_bytes 4 0))
          (drop 40 frame) 40 (omega arith) (omega (arith, length-drop 40 frame)) h
        ∙ rw (drop-drop 40 (length rs * 264) frame) refl)
