-- ===== src/Wmt/Firmware/Patches.antt =====
-- wmt-launcher/firmware.c: wmt_firmware_search. A pointer argument is an `Option`; `directories` says what
-- the calls on a path find.
use android_device_xsh_k50sv.Prelude.{
  ℕ, ◌-◌, Option, none, some, List, [], ◌∷◌, Result, ok, fail, ◌>>=◌, set, get_or, replicate,
}
use android_device_xsh_k50sv.Prelude.Errno.{einval}
use android_device_xsh_k50sv.Prelude.CStrings.{codes}
use android_device_xsh_k50sv.Wmt.Patch.{
  PatchFile, PatchSet, empty_set, header_size, build_version, parse_header, add, set_complete,
}
use android_device_xsh_k50sv.Wmt.Firmware.Files.{File, read_exact}
use android_device_xsh_k50sv.Wmt.Firmware.Directory.{Status, Directory, search_directory}

-- struct wmt_firmware_result: `versions` has 10 arrays of 16 bytes.
pub record FirmwareResult : Type 0 where
  pub patches : PatchSet
  pub versions : List (List ℕ)

abbrev pub no_firmware : FirmwareResult
no_firmware = record { patches = empty_set; versions = replicate 10 (replicate 16 0) }

-- What wmt_patch_build_version leaves in the array, or its error.
abbrev pub built : Result ℕ × Option (List ℕ) → Result (List ℕ)
built (fail e, version) = fail e
built (ok n, none) = fail einval
built (ok n, some version) = ok version

-- The end of read_patch, for a header that describes `file`.
abbrev pub add_patch : List ℕ → PatchFile → FirmwareResult → Result FirmwareResult
add_patch header file found =
    let i = file.info.sequence - 1 in
    add found.patches file >>= λ patches.
    built (build_version (some header) (some (get_or found.versions i []))) >>= λ version.
    ok (record { patches = patches; versions = set found.versions i version })

-- wmt_patch_parse returns 1 for another firmware version.
abbrev pub add_parsed : List ℕ → Option PatchFile → FirmwareResult → Result FirmwareResult
add_parsed header none found = ok found
add_parsed header (some file) found = add_patch header file found

unfoldable pub read_patch : File → Status → List ℕ → ℕ → FirmwareResult → Result FirmwareResult
read_patch f status name firmware found = (read_exact f header_size).0 >>= λ header.
    parse_header header name firmware >>= λ parsed. add_parsed header parsed found

-- `!directory || !directory[0]`
abbrev pub path_of : Option (List ℕ) → Option (List ℕ)
path_of none = none
path_of (some []) = none
path_of (some (c ∷ cs)) = some (c ∷ cs)

-- `*output = found` on success.
abbrev pub output_of {ℓ} : {A : Type ℓ} → Result A → A → Result ℕ × Option A
output_of (fail e) output = (fail e, some output)
output_of (ok found) output = (ok 0, some found)

abbrev pub patch_prefix : List ℕ
patch_prefix = codes "ROMv2_lm_patch"

-- The search of one directory, before the set is found complete or not.
unfoldable pub search_patches : Directory → ℕ → Result FirmwareResult
search_patches d firmware = search_directory read_patch patch_prefix firmware d no_firmware

unfoldable pub completed : Result FirmwareResult → Result FirmwareResult
completed r = r >>= λ found. set_complete (some found.patches) >>= λ _. ok found

unfoldable pub firmware_search :
    (List ℕ → Directory)
    → Option (List ℕ)
    → ℕ
    → Option FirmwareResult
    → Result ℕ × Option FirmwareResult
firmware_search directories directory firmware none = (fail einval, none)
firmware_search directories directory firmware (some output) = elim (path_of directory) [
  | none ↦ (fail einval, some output)
  | some path ↦ output_of (completed (search_patches (directories path) firmware)) output
]
