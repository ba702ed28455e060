-- ===== src/Wmt/Launcher/Outcomes.antt =====
-- wmt-launcher/main.c: what handle_command collects and sends, against its description.
use android_device_xsh_k50sv.Prelude.{
  ℕ, suc, ◌^◌, ◌-◌, ◌≡◌, ◌⊎◌, inl, inr, refl, ◌∙◌, Bool, true, false, Bool-cases, not, ◌||◌, Option,
  ap, some, List, [], ◌∷◌, ◌++◌, map, arith, ltb, ◌==◌, if◌then◌else◌, Result, ok, fail, ◌>>=◌,
  take, length, ◌↔◌,
}
use mathlib.Core.List.{append-nil}
use android_device_xsh_k50sv.Prelude.Errno.{einval, enodev, erange, eopnotsupp}
use android_device_xsh_k50sv.Prelude.Bits.{has}
use android_device_xsh_k50sv.Prelude.CStrings.{bytes_eq_iff, chars, codes}
use android_device_xsh_k50sv.Wmt.Patch.{PatchInfo}
use android_device_xsh_k50sv.Wmt.Protocol.{WmtCommand, WmtRecord}
use android_device_xsh_k50sv.Wmt.Firmware.Directory.{Directory}
use android_device_xsh_k50sv.Wmt.Firmware.Patches.{
  output_of, FirmwareResult, no_firmware, firmware_search,
}
use android_device_xsh_k50sv.Wmt.Firmware.Roms.{RomSet, no_roms, rom_search}
use android_device_xsh_k50sv.Wmt.Launcher.Commands.{
  Write, Surroundings, Publication, Handled, is_normal, is_rom, patch_records, rom_records,
  normal_metadata, rom_metadata, searched, supported_chip, search_metadata, search_chip, collect,
}
use android_device_xsh_k50sv.Wmt.Launcher.Described.{
  Delivers, rom_part, IsPatchList, IsRomList, AsksPatches, AsksRoms, HasVersion, Collects,
  no_command, no_chip, other_chip, no_version, wide_version, no_patches, patches, no_rom_set, roms,
}

patch_records-map :
    (infos : List PatchInfo)
    → patch_records infos
      ≡ map
          (λ (i : PatchInfo). record { index = i.sequence; address = i.address; name = i.name })
          infos
patch_records-map [] = refl
patch_records-map (i ∷ infos) =
    ap (◌∷◌ (record { index = i.sequence; address = i.address; name = i.name }))
      (patch_records-map infos)

normal-IsPatchList : (r : FirmwareResult) → IsPatchList r (normal_metadata r)
normal-IsPatchList r = record {
  kind = refl;
  records = patch_records-map (take r.patches.count r.patches.records);
  published = refl;
}

rom-IsRomList : (s : RomSet) → IsRomList s (rom_metadata s)
rom-IsRomList s = record {
  kind = refl;
  records = before 0 4 (before 1 3 (before 2 2 (before 3 1 (before 4 0 refl ∙ nil))));
  both = λ a b. rw (a, b) refl;
  wifi = λ a b. rw (a, b) refl;
  bt = λ a b. rw (a, b) refl;
  neither = λ a b. rw (a, b) refl;
}
  where
    before :
        (t n : ℕ) {rest : List WmtRecord}
        → rom_records s (suc t) n ≡ rest
        → rom_records s t (suc n) ≡ rom_part s t ++ rest
    before t n e = elim (Bool-cases (has s.seen t)) [
      | inl seen ↦ rw (seen, e) refl
      | inr unseen ↦ rw (unseen, e) refl
    ]

    nil : rom_part s 4 ++ [] ≡ rom_part s 4
    nil = append-nil (rom_part s 4)

-- A search returns 0 and an output, or an error.
abbrev Returns : {A : Type 0} → Result ℕ × Option A → Type 0
Returns {A} found =
    ((a : A) × (found ≡ (ok 0, some a)))
    ⊎ ((e : ℕ) × (output : Option A) × (found ≡ (fail e, output)))

output_of-Returns : {A : Type 0} (r : Result A) (output : A) → Returns (output_of r output)
output_of-Returns (fail e) output = inr (e, some output, refl)
output_of-Returns (ok a) output = inl (a, refl)

firmware_search-Returns :
    (directories : List ℕ → Directory) (path : List ℕ) (version : ℕ)
    → Returns (firmware_search directories (some path) version (some no_firmware))
unfolding firmware_search
firmware_search-Returns directories [] version = inr (einval, some no_firmware, refl)
firmware_search-Returns directories (c ∷ cs) version = output_of-Returns _ no_firmware

rom_search-Returns :
    (directories : List ℕ → Directory) (path : List ℕ) (version : ℕ)
    → Returns (rom_search directories (some path) version (some no_roms))
unfolding rom_search
rom_search-Returns directories [] version = inr (einval, some no_roms, refl)
rom_search-Returns directories (c ∷ cs) version = output_of-Returns _ no_roms

module _ (w : Surroundings) (directory : List ℕ) (c : WmtCommand) where
  patches-Collects :
      (version : ℕ)
      → AsksPatches c
      → HasVersion w version
      → Collects w directory c (
          searched (firmware_search w.directories (some directory) version (some no_firmware))
          >>= λ r. ok (normal_metadata r))
  patches-Collects version asks has_version =
      elim (firmware_search-Returns w.directories directory version) [
        | inl (r, e) ↦
            rw e (patches version r (normal_metadata r) asks has_version e (normal-IsPatchList r))
        | inr (x, output, e) ↦ rw e (no_patches version x output asks has_version e)
      ]

  roms-Collects :
      (version : ℕ)
      → AsksRoms c
      → HasVersion w version
      → Collects w directory c (
          searched (rom_search w.directories (some directory) version (some no_roms)) >>= λ s.
          ok (rom_metadata s))
  roms-Collects version asks has_version =
      elim (rom_search-Returns w.directories directory version) [
        | inl (s, e) ↦ rw e (roms version s (rom_metadata s) asks has_version e (rom-IsRomList s))
        | inr (x, output, e) ↦ rw e (no_rom_set version x output asks has_version e)
      ]

  search_metadata-Collects :
      (version : ℕ)
      → (normal : Bool) → is_normal c ≡ normal
      → AsksPatches c ⊎ AsksRoms c
      → HasVersion w version
      → Collects w directory c (search_metadata w directory c version)
  unfolding search_metadata
  search_metadata-Collects version true e asks has_version =
      rw e (
        patches-Collects version ((bytes_eq_iff (chars c.text) (codes "srh_patch")).0 e)
          has_version)
  search_metadata-Collects version false e (inl asks) has_version =
      absurd (cc ((bytes_eq_iff (chars c.text) (codes "srh_patch")).1 asks))
  search_metadata-Collects version false e (inr asks) has_version =
      rw e (roms-Collects version asks has_version)

  search_chip-Collects :
      (chip : ℕ)
      → w.chip ≡ ok chip
      → AsksPatches c ⊎ AsksRoms c
      → Collects w directory c (search_chip w directory c chip)
  unfolding search_chip
  search_chip-Collects chip is asks = by_chip (supported_chip chip) refl
    where
      known : supported_chip chip ≡ true → (w.chip ≡ ok 0x6755) ⊎ (w.chip ≡ ok 0x0326)
      known e = elim (Bool-cases (chip == 0x6755)) [
        | inl new ↦ let same : chip ≡ 0x6755 = ground arith in inl (is ∙ ap ok same)
        | inr old ↦ let same : chip ≡ 0x0326 = ground arith in inr (is ∙ ap ok same)
      ]

      by_width :
          (version : ℕ) (wide : Bool)
          → w.version ≡ ok version
          → ltb (2 ^ 16 - 1) version ≡ wide
          → supported_chip chip ≡ true
          → Collects w directory c
              (if wide then fail erange else search_metadata w directory c version)
      by_width version true v e s = wide_version version asks (known s) v (ground arith)
      by_width version false v e s =
          search_metadata-Collects version (is_normal c) refl asks
            (record { chip = known s; is = v; fits = ground arith })

      by_version :
          (r : Result ℕ)
          → w.version ≡ r
          → supported_chip chip ≡ true
          → Collects w directory c (
              r >>= λ version.
              if ltb (2 ^ 16 - 1) version
              then fail erange
              else search_metadata w directory c version)
      by_version (fail e) v s = no_version e asks (known s) v
      by_version (ok version) v s = by_width version (ltb (2 ^ 16 - 1) version) v refl s

      by_chip :
          (b : Bool)
          → supported_chip chip ≡ b
          → Collects w directory c (
              if not b
              then fail enodev
              else w.version >>= λ version.
                  if ltb (2 ^ 16 - 1) version
                  then fail erange
                  else search_metadata w directory c version)
      by_chip false s = other_chip chip asks is (ground arith) (ground arith)
      by_chip true s = by_version w.version refl s

  -- handle_command up to its answer.
  pub collect-Collects : Collects w directory c (collect w directory c)
  unfolding collect
  collect-Collects =
      by_text (is_normal c) (is_rom c) (bytes_eq_iff (chars c.text) (codes "srh_patch"))
        (bytes_eq_iff (chars c.text) (codes "srh_rom_patch"))
    where
      by_chip :
          (r : Result ℕ)
          → w.chip ≡ r
          → AsksPatches c ⊎ AsksRoms c
          → Collects w directory c (r >>= λ chip. search_chip w directory c chip)
      by_chip (fail e) is asks = no_chip e asks is
      by_chip (ok chip) is asks = search_chip-Collects chip is asks

      by_text :
          (normal rom : Bool)
          → (normal ≡ true) ↔ AsksPatches c
          → (rom ≡ true) ↔ AsksRoms c
          → Collects w directory c (
              if not (normal || rom)
              then fail eopnotsupp
              else w.chip >>= λ chip. search_chip w directory c chip)
      by_text true rom p r = by_chip w.chip refl (inl (p.0 refl))
      by_text false true p r = by_chip w.chip refl (inr (r.0 refl))
      by_text false false p r = no_command (λ asks. cc (p.1 asks)) (λ asks. cc (r.1 asks))

-- The frame that is written, what its write comes to and returns, and which properties are set after it.
pub record Sends (writes : List Write) (bytes : List ℕ) (publications : List Publication)
    (h : Handled) : Type 0 where
  pub delivers : Delivers (length bytes) writes h.returned
  pub frame : h.frame ≡ some bytes
  pub published : h.returned ≡ ok 0 → h.published ≡ publications
  pub silent : (e : ℕ) → h.returned ≡ fail e → h.published ≡ []
