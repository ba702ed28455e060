-- ===== src/Wmt/Firmware/Versions.antt =====
-- wmt-launcher/firmware.c: the version text between two markers of a Bluetooth ROM file.
use android_device_xsh_k50sv.Prelude.{
  ℕ, zero, suc, ◌+◌, ◌-◌, ◌*◌, Option, none, some, List, [], ◌∷◌, ◌++◌, not, ltb, ◌==◌,
  if◌then◌else◌, Result, ok, fail, ◌>>=◌, length, take, drop,
}
use android_device_xsh_k50sv.Prelude.Errno.{ebadmsg, emsgsize, efbig, enomem, estale}
use android_device_xsh_k50sv.Prelude.Bytes.{overwrite}
use android_device_xsh_k50sv.Prelude.CStrings.{bytes_eq, chars, codes}
use android_device_xsh_k50sv.Wmt.Firmware.Files.{File, read_exact, read_extra}

abbrev pub rom_header_size : ℕ
rom_header_size = 32

abbrev pub bt_version_size : ℕ
bt_version_size = 92

abbrev pub bt_version_file_limit : ℕ
bt_version_file_limit = 1024 * 1024

-- The loop of find_bytes with `n` rounds left, at offset i: `bytes` begins there.
unfoldable pub find_from : List ℕ → List ℕ → ℕ → ℕ → Option ℕ
find_from bytes text zero i = none
find_from bytes text (suc n) i =
    let rest = find_from (drop 1 bytes) text n (i + 1) in
    if bytes_eq (take (length text) bytes) text then some i else rest

-- The offset of the match.
unfoldable pub find_bytes : List ℕ → List ℕ → Option ℕ
find_bytes bytes text =
    if ltb (length bytes) (length text)
    then none
    else find_from bytes text (length bytes - length text + 1) 0

abbrev pub start_marker : List ℕ
start_marker = codes "BABEFACEBABEFACE"

abbrev pub end_marker : List ℕ
end_marker = codes "DEADBEEFDEADBEEF"

-- strchr for a newline in a C string, and a NUL in its place.
unfoldable pub cut_newline : List ℕ → List ℕ
cut_newline [] = []
cut_newline (c ∷ cs) = if c == 0 then c ∷ cs else if c == b'\n' then 0 ∷ cs else c ∷ cut_newline cs

-- The text, cut to the array and to its first line, over the caller's array.
unfoldable pub store_version : List ℕ → List ℕ → List ℕ
store_version text version =
    cut_newline (overwrite version 0 (take (bt_version_size - 1) text ++ 0 ∷ []))

-- The version in the interval of `span` bytes from offset `start`; `none`: no version is present.
unfoldable pub version_text : List ℕ → ℕ → ℕ → Option (List ℕ)
version_text bytes start span =
    let searched = chars (take span (drop start bytes)) in
    elim (find_bytes searched (codes "t-neptune")) [
      | some text ↦ some (take (span - text) (drop (start + text) bytes))
      | none ↦ elim (find_bytes searched (codes "= debug")) [
        | some debug ↦ some (take 14 bytes)
        | none ↦ none
      ]
    ]

abbrev pub stored_version : List ℕ → Option (List ℕ) → Option (List ℕ)
stored_version version none = none
stored_version version (some text) = some (store_version text version)

-- The new array, if a version is present.
unfoldable pub bt_version : List ℕ → List ℕ → Result (Option (List ℕ))
bt_version bytes version = elim (find_bytes bytes start_marker) [
  | none ↦ elim (find_bytes bytes end_marker) [ none ↦ ok none | some end ↦ fail ebadmsg ]
  | some start ↦ elim (find_bytes (drop (start + length start_marker) bytes) end_marker) [
    | none ↦ fail ebadmsg
    | some end ↦ ok (stored_version version (version_text bytes start (length start_marker + end)))
  ]
]

-- The bytes of the file, from its first; there must be no more than its status said.
unfoldable pub read_whole : File → ℕ → Result (List ℕ)
read_whole f size = f.seeks >>= λ offset.
    let (got, g) = read_exact (record f { rest = f.content }) size in
    got >>= λ bytes.
    read_extra g.reads g.rest >>= λ extra. if extra == 0 then ok bytes else fail estale

-- `size` is what fstat said.
unfoldable pub read_bt_version : File → ℕ → List ℕ → Result (Option (List ℕ))
read_bt_version f size version =
    if ltb size rom_header_size
    then fail emsgsize
    else if ltb bt_version_file_limit size
    then fail efbig
    else if not f.allocates
    then fail enomem
    else read_whole f size >>= λ bytes. bt_version bytes version
