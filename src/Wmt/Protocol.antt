-- ===== src/Wmt/Protocol.antt =====
-- wmt-launcher/protocol.c, protocol.h and include/linux/mtk_wmt_cmd.h: frames between the launcher
-- and the kernel's command broker. A frame and its size or capacity are one list of bytes.
mod Words
pub mod Decode
pub mod Reply
pub mod Records
pub mod Lists
pub mod Frames
mod Tests
unfoldable pub use Words.{read16, read32, read64}
use android_device_xsh_k50sv.Prelude.{
  ℕ, ◌+◌, ◌-◌, ◌*◌, ◌^◌, Bool, true, false, ◌&&◌, ◌||◌, not, Option, none, some, List, [], ◌∷◌, ltb,
  leb, ◌==◌, if◌then◌else◌, Result, ok, fail, ◌>>=◌, length, take, drop, replicate,
}
use android_device_xsh_k50sv.Prelude.Errno.{
  einval, emsgsize, eprotonosupport, eproto, estale, e2big, eexist,
}
use android_device_xsh_k50sv.Prelude.Bits.{has, with_bit}
use android_device_xsh_k50sv.Prelude.Bytes.{le_bytes, overwrite}
use android_device_xsh_k50sv.Prelude.CStrings.{contains, padded, chars}
use android_device_xsh_k50sv.Prelude.Int.{ℤ, pos, negsuc, to_u32}

abbrev pub magic : ℕ
magic = 0x32544d57

abbrev pub version : ℕ
version = 2

abbrev pub command_max : ℕ
command_max = 255

abbrev pub patch_max : ℕ
patch_max = 10

abbrev pub rom_max : ℕ
rom_max = 5

abbrev pub frame_header_size : ℕ
frame_header_size = 32

abbrev pub record_size : ℕ
record_size = 264

abbrev pub write_max : ℕ
write_max = 32 + 8 + patch_max * record_size

-- enum wmt_cmd2_kind, and the number that a frame carries.
pub data Kind : Type 0 where
  command status patch_list rom_list : Kind

abbrev pub kind_number : Kind → ℕ
kind_number command = 1
kind_number status = 2
kind_number patch_list = 3
kind_number rom_list = 4

-- `text` is the whole array of 256 bytes.
pub record WmtCommand : Type 0 where
  pub session : ℕ
  pub transaction : ℕ
  pub text : List ℕ

-- struct wmt_cmd2_record: 4 bytes of address, 256 of name.
pub record WmtRecord : Type 0 where
  pub index : ℕ
  pub address : List ℕ
  pub name : List ℕ

-- `wmt_command_decode` on pointers that are not NULL.
unfoldable pub decode : List ℕ → ℕ → Result WmtCommand
decode frame session =
    if session == 0
    then fail einval
    else if ltb (length frame) frame_header_size
    then fail emsgsize
    else if not (read32 frame == magic) || not (read16 (drop 4 frame) == version)
    then fail eprotonosupport
    else if not (read16 (drop 6 frame) == kind_number command) || not (read32 (drop 28 frame) == 0)
    then fail eproto
    else if not (read64 (drop 8 frame) == session)
    then fail estale
    else if read64 (drop 16 frame) == 0
    then fail eproto
    else (let size = read32 (drop 24 frame) in
        if size == 0 || ltb command_max size || not (length frame == frame_header_size + size)
        then fail emsgsize
        else if contains 0 (take size (drop frame_header_size frame))
        then fail eproto
        else ok (record {
          session = read64 (drop 8 frame);
          transaction = read64 (drop 16 frame);
          text = padded 256 (take size (drop frame_header_size frame));
        }))

abbrev decoded : Result WmtCommand → WmtCommand → Result ℕ × Option WmtCommand
decoded (ok c) output = (ok 0, some c)
decoded (fail e) output = (fail e, some output)

unfoldable pub command_decode :
    Option (List ℕ) → ℕ → Option WmtCommand → Result ℕ × Option WmtCommand
command_decode (some frame) session (some output) = decoded (decode frame session) output
command_decode _ session output = (fail einval, output)

-- write16, write32 and write64 at an offset of the frame.
abbrev write16 : List ℕ → ℕ → ℕ → List ℕ
write16 frame off value = overwrite frame off (le_bytes 2 value)

abbrev write32 : List ℕ → ℕ → ℕ → List ℕ
write32 frame off value = overwrite frame off (le_bytes 4 value)

abbrev write64 : List ℕ → ℕ → ℕ → List ℕ
write64 frame off value = overwrite frame off (le_bytes 8 value)

pub reply_header : WmtCommand → ℕ → ℕ → ℤ → List ℕ → List ℕ
reply_header c kind size result frame =
    let frame = write32 frame 0 magic in
    let frame = write16 frame 4 version in
    let frame = write16 frame 6 kind in
    let frame = write64 frame 8 c.session in
    let frame = write64 frame 16 c.transaction in
    let frame = write32 frame 24 size in write32 frame 28 (to_u32 result)

-- `result > 0 || result < -4095`
abbrev pub is_no_status : ℤ → Bool
is_no_status (pos n) = ltb 0 n
is_no_status (negsuc n) = ltb 4094 n

abbrev pub lacks_identity : WmtCommand → Bool
lacks_identity c = c.session == 0 || c.transaction == 0

unfoldable pub reply_status : Option WmtCommand → ℤ → Option (List ℕ) → Result ℕ × Option (List ℕ)
reply_status (some c) result (some frame) =
    if lacks_identity c || is_no_status result
    then (fail einval, some frame)
    else if ltb (length frame) frame_header_size
    then (fail emsgsize, some frame)
    else (ok frame_header_size, some (reply_header c (kind_number status) 0 result frame))
reply_status _ result frame = (fail einval, frame)

-- strcmp with a literal
abbrev pub is_dot : List ℕ → Bool
is_dot (c ∷ []) = c == b'.'
is_dot _ = false

abbrev pub is_dot_dot : List ℕ → Bool
is_dot_dot (c ∷ d ∷ []) = c == b'.' && d == b'.'
is_dot_dot _ = false

abbrev pub is_bad_record_name : List ℕ → Bool
is_bad_record_name name =
    length (chars name) == 0
    || length (chars name) == 256
    || contains b'/' (chars name)
    || is_dot (chars name)
    || is_dot_dot (chars name)

-- The bit of a record among those seen: a patch list counts from 1, a ROM list from 0.
abbrev pub bit_index : Kind → ℕ → ℕ → Result ℕ
bit_index patch_list count index =
    if index == 0 || ltb count index then fail einval else ok (index - 1)
bit_index _ count index = if leb rom_max index then fail einval else ok index

-- One round of the checking loop of `wmt_reply_list`; `seen` goes from round to round.
unfoldable pub check_record : Kind → ℕ → ℕ → WmtRecord → Result ℕ
check_record kind count seen r = bit_index kind count r.index >>= λ index.
    if has seen index
    then fail eexist
    else if is_bad_record_name r.name
    then fail einval
    else ok (with_bit seen index)

unfoldable pub check_records : Kind → ℕ → ℕ → List WmtRecord → Result ℕ
check_records kind count seen [] = ok seen
check_records kind count seen (r ∷ rs) =
    check_record kind count seen r >>= λ seen'. check_records kind count seen' rs

-- The writing loop: record number i goes to 40 + 264 i.
pub write_records : ℕ → List WmtRecord → List ℕ → List ℕ
write_records off [] frame = frame
write_records off (r ∷ rs) frame =
    let frame = write32 frame off r.index in
    let frame = overwrite frame (off + 4) r.address in
    let frame = overwrite frame (off + 8) (replicate 256 0) in
    let frame = overwrite frame (off + 8) (chars r.name) in
    write_records (off + record_size) rs frame

-- The most records of a kind of list, and whether it may be empty.
abbrev pub list_limit : Kind → ℕ → Result ℕ
list_limit patch_list count = if count == 0 then fail einval else ok patch_max
list_limit rom_list count = ok rom_max
list_limit _ count = fail einval

abbrev pub list_size : ℕ → ℕ
list_size count = 8 + count * record_size

unfoldable pub write_list : WmtCommand → Kind → List WmtRecord → ℕ → List ℕ → List ℕ
write_list c kind rs count frame =
    let frame = reply_header c (kind_number kind) (list_size count) (pos 0) frame in
    let frame = write32 frame 32 count in
    let frame = write32 frame 36 0 in write_records 40 rs frame

-- The checks of `wmt_reply_list` on pointers that are not NULL: the size of the frame.
unfoldable pub check_list : WmtCommand → Kind → List WmtRecord → ℕ → List ℕ → Result ℕ
check_list c kind rs count frame =
    if lacks_identity c
    then fail einval
    else list_limit kind count >>= λ maximum.
        if ltb maximum count
        then fail e2big
        else if ltb (length frame) (frame_header_size + list_size count)
        then fail emsgsize
        else check_records kind count 0 rs >>= λ seen. ok (frame_header_size + list_size count)

abbrev written :
    Result ℕ → WmtCommand → Kind → List WmtRecord → ℕ → List ℕ → Result ℕ × Option (List ℕ)
written (ok size) c kind rs count frame = (ok size, some (write_list c kind rs count frame))
written (fail e) c kind rs count frame = (fail e, some frame)

abbrev pub record_array : Option (List WmtRecord) → ℕ → List WmtRecord
record_array none count = []
record_array (some rs) count = take count rs

-- `count && !records`
abbrev lacks_records : Option (List WmtRecord) → ℕ → Bool
lacks_records none count = not (count == 0)
lacks_records (some rs) count = false

unfoldable pub reply_list :
    Option WmtCommand
    → Kind
    → Option (List WmtRecord)
    → ℕ
    → Option (List ℕ)
    → Result ℕ × Option (List ℕ)
reply_list (some c) kind records count (some frame) =
    if lacks_records records count
    then (fail einval, some frame)
    else (let rs = record_array records count in
        written (check_list c kind rs count frame) c kind rs count frame)
reply_list _ kind records count frame = (fail einval, frame)
