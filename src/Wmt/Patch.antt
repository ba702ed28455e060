-- ===== src/Wmt/Patch.antt =====
-- wmt-launcher/patch.c and patch.h: the header of a firmware patch file, and the set of patches that
-- one search collects. A pointer argument is an `Option`; `none` is NULL. A buffer and its size are
-- one list. An out parameter is an argument and part of the result.
pub mod Parse
pub mod Sets
pub mod AddAll
pub mod Search
mod Tests
use android_device_xsh_k50sv.Prelude.{
  ℕ, ◌-◌, ◌/◌, ◌^◌, Bool, ◌&&◌, ◌||◌, not, Option, none, some, List, [], ◌∷◌, bit_and, ltb, ◌==◌,
  if◌then◌else◌, Result, ok, fail, length, get_or, set, take, replicate, ◌++◌,
}
use android_device_xsh_k50sv.Prelude.Errno.{einval, emsgsize, eexist, enoent, enodata}
use android_device_xsh_k50sv.Prelude.Bits.{has, with_bit}
use android_device_xsh_k50sv.Prelude.CStrings.{contains, strnlen, padded}

abbrev pub header_size : ℕ
header_size = 28

abbrev pub name_size : ℕ
name_size = 256

abbrev pub max_patches : ℕ
max_patches = 10

-- struct wmt_patch_info: `address` has 4 bytes, `name` is the whole array of 256.
pub record PatchInfo : Type 0 where
  pub sequence : ℕ
  pub address : List ℕ
  pub name : List ℕ

pub record PatchFile : Type 0 where
  pub count : ℕ
  pub info : PatchInfo

-- `records` has `max_patches` entries, indexed by sequence - 1.
pub record PatchSet : Type 0 where
  pub count : ℕ
  pub seen : ℕ
  pub records : List PatchInfo

abbrev pub zero_info : PatchInfo
zero_info = record { sequence = 0; address = replicate 4 0; name = replicate name_size 0 }

-- The zero-initialized set with which a search starts.
abbrev pub empty_set : PatchSet
empty_set = record { count = 0; seen = 0; records = replicate max_patches zero_info }

-- memcpy of 15 bytes and a NUL.
unfoldable pub version_of : List ℕ → List ℕ
version_of header = take 15 header ++ 0 ∷ []

-- `version` is the caller's array.
unfoldable pub build_version : Option (List ℕ) → Option (List ℕ) → Result ℕ × Option (List ℕ)
unfolding version_of
build_version (some header) (some version) =
    if ltb (length header) 16
    then (fail emsgsize, some version)
    else (ok 0, some (version_of header))
build_version _ version = (fail einval, version)

abbrev pub byte : List ℕ → ℕ → ℕ
byte bytes i = get_or bytes i 0

-- A count or a sequence that no set has.
abbrev pub is_bad_sequence : ℕ → ℕ → Bool
is_bad_sequence count sequence =
    count == 0 || ltb max_patches count || sequence == 0 || ltb count sequence

-- The file that a header describes, before its fields are checked.
unfoldable pub file_of : List ℕ → List ℕ → PatchFile
file_of header basename = record {
  count = byte header 24 / 2 ^ 4;
  info = record {
    sequence = bit_and (byte header 24) 0x0f;
    address = 0 ∷ byte header 25 ∷ byte header 26 ∷ byte header 27 ∷ [];
    name = padded name_size basename;
  };
}

abbrev pub is_bad_name : List ℕ → Bool
is_bad_name basename =
    let n = strnlen basename name_size in n == 0 || n == name_size || contains b'/' basename

-- `none`: another firmware version.
unfoldable pub parse_header : List ℕ → List ℕ → ℕ → Result (Option PatchFile)
parse_header header basename firmware =
    if ltb (length header) header_size
    then fail emsgsize
    else if is_bad_name basename
    then fail einval
    else if not (byte header 23 == bit_and firmware 0xff)
    then ok none
    else (let file = file_of header basename in
        if is_bad_sequence file.count file.info.sequence then fail einval else ok (some file))

abbrev deliver : Result (Option PatchFile) → PatchFile → Result ℕ × Option PatchFile
deliver (ok (some file)) output = (ok 0, some file)
deliver (ok none) output = (ok 1, some output)
deliver (fail e) output = (fail e, some output)

unfoldable pub parse :
    Option (List ℕ) → Option (List ℕ) → ℕ → Option PatchFile → Result ℕ × Option PatchFile
parse (some header) (some basename) firmware (some output) =
    deliver (parse_header header basename firmware) output
parse _ _ _ output = (fail einval, output)

-- `set_add` on pointers that are not NULL: the new set, or the error.
unfoldable pub add : PatchSet → PatchFile → Result PatchSet
add s file =
    if is_bad_sequence file.count file.info.sequence || not (contains 0 file.info.name)
    then fail einval
    else if not (s.count == 0) && not (s.count == file.count)
    then fail einval
    else if has s.seen (file.info.sequence - 1)
    then fail eexist
    else ok (record {
      count = file.count;
      seen = with_bit s.seen (file.info.sequence - 1);
      records = set s.records (file.info.sequence - 1) file.info;
    })

abbrev stored : PatchSet → Result PatchSet → Result ℕ × Option PatchSet
stored s (ok t) = (ok 0, some t)
stored s (fail e) = (fail e, some s)

unfoldable pub set_add : Option PatchSet → Option PatchFile → Result ℕ × Option PatchSet
set_add (some s) (some file) = stored s (add s file)
set_add s _ = (fail einval, s)

unfoldable pub set_complete : Option PatchSet → Result ℕ
set_complete none = fail einval
set_complete (some s) =
    if ltb max_patches s.count
    then fail einval
    else if s.count == 0
    then fail enoent
    else if s.seen == 2 ^ s.count - 1
    then ok 0
    else fail enodata
