-- ===== src/Wmt/Firmware/Loads.antt =====
-- read_patch of wmt-launcher/firmware.c: what it adds to a search, and the description of the files of a directory.
use android_device_xsh_k50sv.Prelude.{
  ℕ, ◌-◌, ◌%◌, ◌≤◌, ◌<◌, ◌≡◌, ◌≢◌, ◌⊎◌, inl, inr, true, false, Option, none, some, List, [], ◌∷◌,
  ◌++◌, arith, Result, ok, fail, returned, ◌>>=◌, ◌↔◌, ap, get_or, set, take, length,
}
use android_device_xsh_k50sv.Prelude.Bits.{bit_and_byte}
use android_device_xsh_k50sv.Prelude.CStrings.{contains, starts_with}
use android_device_xsh_k50sv.Wmt.Patch.{PatchFile, PatchSet, byte, parse_header, add, build_version}
use android_device_xsh_k50sv.Wmt.Patch.Parse.{
  Accepts, described, parse_header-only, parse_header-Accepts,
}
use android_device_xsh_k50sv.Wmt.Firmware.Files.{File, read_exact}
use android_device_xsh_k50sv.Wmt.Firmware.Directory.{Status, Entry}
use android_device_xsh_k50sv.Wmt.Firmware.Candidates.{IsUsable}
use android_device_xsh_k50sv.Wmt.Firmware.Patches.{
  FirmwareResult, built, add_patch, add_parsed, read_patch, patch_prefix,
}

-- The first `size` bytes of a usable entry can be read, and are these.
pub record HasHeader (e : Entry) (size : ℕ) (header : List ℕ) : Type 0 where
  pub file : File
  pub status : Status
  pub usable : IsUsable e file status
  pub read : (read_exact file size).0 ≡ ok header

-- A patch header of another firmware version.
pub record IsForeign (header basename : List ℕ) (firmware : ℕ) : Type 0 where
  pub full : 28 ≤ length header
  pub named : 0 < length basename
  pub fits : length basename < 256
  pub no_slash : contains b'/' basename ≡ false
  pub differs : byte header 23 ≢ firmware % 256

-- A patch file and its build version.
abbrev pub Patch : Type 0
Patch = PatchFile × List ℕ

abbrev pub patch_of : List ℕ → List ℕ → Patch
patch_of header basename = (described header basename, take 15 header ++ 0 ∷ [])

-- The patches of the entries, if all that the search looks at can be read.
pub data Loaded (firmware : ℕ) : List Entry → List Patch → Type 0 where
  empty : Loaded firmware [] []
  other :
      {e : Entry} {es : List Entry} {ps : List Patch}
      → starts_with patch_prefix e.name ≡ false
      → Loaded firmware es ps
      → Loaded firmware (e ∷ es) ps
  foreign :
      {e : Entry} {es : List Entry} {ps : List Patch} (header : List ℕ)
      → starts_with patch_prefix e.name ≡ true
      → HasHeader e 28 header
      → IsForeign header e.name firmware
      → Loaded firmware es ps
      → Loaded firmware (e ∷ es) ps
  patch :
      {e : Entry} {es : List Entry} {ps : List Patch} (header : List ℕ)
      → starts_with patch_prefix e.name ≡ true
      → HasHeader e 28 header
      → Accepts header e.name firmware
      → Loaded firmware es ps
      → Loaded firmware (e ∷ es) (patch_of header e.name ∷ ps)

abbrev pub files : List Patch → List PatchFile
files [] = []
files ((file, version) ∷ ps) = file ∷ files ps

-- The array of versions, each file's at its sequence.
abbrev pub versions_after : List (List ℕ) → List Patch → List (List ℕ)
versions_after versions [] = versions
versions_after versions ((file, version) ∷ ps) =
    versions_after (set versions (file.info.sequence - 1) version) ps

pub parse_header-IsForeign :
    (header basename : List ℕ) (firmware : ℕ)
    → parse_header header basename firmware ≡ ok none
    → IsForeign header basename firmware
unfolding parse_header
parse_header-IsForeign header basename firmware e = ground (arith, bit_and_byte firmware)

pub IsForeign-parse_header :
    (header basename : List ℕ) (firmware : ℕ)
    → IsForeign header basename firmware
    → parse_header header basename firmware ≡ ok none
unfolding parse_header
IsForeign-parse_header header basename firmware h = ground (arith, bit_and_byte firmware)

-- What reading one file adds to the result.
abbrev pub Adds : List ℕ → List ℕ → ℕ → FirmwareResult → FirmwareResult → Type 0
Adds header basename firmware s t =
    (IsForeign header basename firmware × (s ≡ t))
    ⊎ (Accepts header basename firmware
        × (add s.patches (described header basename) ≡ ok t.patches)
        × (t.versions
            ≡ set s.versions ((described header basename).info.sequence - 1)
                (take 15 header ++ 0 ∷ [])))

build_version-full :
    (header old : List ℕ)
    → 28 ≤ length header
    → built (build_version (some header) (some old)) ≡ ok (take 15 header ++ 0 ∷ [])
unfolding build_version
build_version-full header old full = ground (arith, full)

add_patch-ok :
    (header : List ℕ) (file : PatchFile) (s t : FirmwareResult)
    → 28 ≤ length header
    → (add_patch header file s ≡ ok t) ↔ (
        (add s.patches file ≡ ok t.patches)
        × (t.versions ≡ set s.versions (file.info.sequence - 1) (take 15 header ++ 0 ∷ [])))
add_patch-ok header file s t full =
    rw (build_version-full header (get_or s.versions (file.info.sequence - 1) []) full)
      (by_outcome (add s.patches file))
  where
    by_outcome :
        (r : Result PatchSet)
        → ((r >>= λ patches. ok (record {
          patches = patches;
          versions = set s.versions (file.info.sequence - 1) (take 15 header ++ 0 ∷ []);
        }))
            ≡ ok t)
          ↔ ((r ≡ ok t.patches)
              × (t.versions ≡ set s.versions (file.info.sequence - 1) (take 15 header ++ 0 ∷ [])))
    by_outcome (ok p) = ((λ e. ground (arith, e)), (λ (a, b). ground (arith, a, b)))
    by_outcome (fail e) = ((λ e. absurd (cc)), (λ (a, b). absurd (cc)))

add_parsed-Adds :
    (header basename : List ℕ) (firmware : ℕ) (parsed : Option PatchFile) (s t : FirmwareResult)
    → parse_header header basename firmware ≡ ok parsed
    → add_parsed header parsed s ≡ ok t
    → Adds header basename firmware s t
add_parsed-Adds header basename firmware none s t p h =
    inl (parse_header-IsForeign header basename firmware p, cc)
add_parsed-Adds header basename firmware (some file) s t p h =
    let (accepts, eq) = parse_header-only header basename firmware file p in
    let (patches, versions) =
      (add_patch-ok header (described header basename) s t accepts.full).0 (rw eq at h) in
    inr (accepts, patches, versions)

pub read_patch-Adds :
    (f : File) (status : Status) (basename : List ℕ) (firmware : ℕ) (s t : FirmwareResult)
    → read_patch f status basename firmware s ≡ ok t
    → (header : List ℕ) × ((read_exact f 28).0 ≡ ok header) × Adds header basename firmware s t
unfolding read_patch
read_patch-Adds f status basename firmware s t h =
    let (header, read, h1) = returned (read_exact f 28).0 _ h in
    let (parsed, parse, h2) = returned (parse_header header basename firmware) _ h1 in
    (header, read, add_parsed-Adds header basename firmware parsed s t parse h2)

pub Adds-read_patch :
    (f : File) (status : Status) (header basename : List ℕ) (firmware : ℕ) (s t : FirmwareResult)
    → (read_exact f 28).0 ≡ ok header
    → Adds header basename firmware s t
    → read_patch f status basename firmware s ≡ ok t
unfolding read_patch
Adds-read_patch f status header basename firmware s t read (inl (differs, same)) =
    rw (read, IsForeign-parse_header header basename firmware differs) (ap ok same)
Adds-read_patch f status header basename firmware s t read (inr (accepts, a, v)) =
    rw (read, parse_header-Accepts header basename firmware accepts)
      ((add_patch-ok header (described header basename) s t accepts.full).1 (a, v))
