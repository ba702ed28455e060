-- ===== src/Wmt/Firmware/Tests.antt =====
-- Searches of a directory with two patches of a set of two, and of one with a Bluetooth ROM.
use android_device_xsh_k50sv.Prelude.{
  ℕ, ◌≡◌, ◌⊎◌, refl, true, false, some, List, [], ◌∷◌, ◌++◌, ok, fail, replicate, length, All,
}
use android_device_xsh_k50sv.Prelude.Bits.{has}
use android_device_xsh_k50sv.Prelude.Errno.{eintr}
use android_device_xsh_k50sv.Prelude.CStrings.{
  contains, codes, starts_with, strstr, bytes_eq, chars, padded,
}
use android_device_xsh_k50sv.Wmt.Patch.{
  parse_header, file_of, add, build_version, version_of, set_complete,
}
use android_device_xsh_k50sv.Wmt.Firmware.Files.{
  File, gives, fails, read_loop, read_exact, read_extra,
}
use android_device_xsh_k50sv.Wmt.Firmware.ReadEnds.{Outcome}
use android_device_xsh_k50sv.Wmt.Firmware.Reads.{read_exact_ends}
use android_device_xsh_k50sv.Wmt.Firmware.Directory.{
  Entry, Directory, candidate, search_entries, search_directory,
}
use android_device_xsh_k50sv.Wmt.Firmware.Versions.{
  find_from, find_bytes, cut_newline, store_version, version_text, bt_version, read_whole,
  read_bt_version,
}
use android_device_xsh_k50sv.Wmt.Firmware.Texts.{BtVersion, bt_version-BtVersion}
use android_device_xsh_k50sv.Wmt.Firmware.Patches.{
  FirmwareResult, no_firmware, read_patch, search_patches, completed, firmware_search,
}
use android_device_xsh_k50sv.Wmt.Firmware.Loads.{Patch}
use android_device_xsh_k50sv.Wmt.Firmware.Search.{Finds, firmware_search_cases}
use android_device_xsh_k50sv.Wmt.Firmware.Roms.{
  RomSet, no_roms, note_wifi, note_bt, add_rom, read_rom, search_roms, rom_search,
}
use android_device_xsh_k50sv.Wmt.Firmware.RomSets.{IsValid}
use android_device_xsh_k50sv.Wmt.Firmware.RomSearch.{rom_search_cases}

-- A file that is read in pieces, the second time after a signal.
abbrev file : List ℕ → File
file content = record {
  content = content;
  rest = content;
  reads = gives 9 ∷ fails eintr ∷ gives 0 ∷ [];
  seeks = ok 0;
  allocates = true;
}

abbrev entry : List ℕ → List ℕ → Entry
entry name content = record {
  name = name;
  opened = ok (file content);
  status = ok (record { is_regular = true; size = length content });
  closed = 0;
}

abbrev patch_header : ℕ → List ℕ
patch_header packed = replicate 23 65 ++ 0x12 ∷ packed ∷ 1 ∷ 2 ∷ 3 ∷ []

abbrev bt_rom : List ℕ
bt_rom =
    replicate 23 65
    ++ (0x12 ∷ 0 ∷ 1 ∷ 2 ∷ 0x13 ∷ 0 ∷ 0 ∷ 0 ∷ 1 ∷ []
        ++ (codes "BABEFACEBABEFACE" ++ (codes "at-neptune-7\nb" ++ codes "DEADBEEFDEADBEEF")))

abbrev sample : Directory
sample = record {
  opened = 0;
  entries =
      entry (codes "ROMv2_lm_patch_1_1_hdr.bin") (patch_header 0x22)
      ∷ entry (codes "other") []
      ∷ entry (codes "soc1_0_ram_bt_1_1_hdr.bin") bt_rom
      ∷ entry (codes "ROMv2_lm_patch_1_0_hdr.bin") (patch_header 0x21)
      ∷ [];
  ended = 0;
  closed = 0;
}

abbrev directories : List ℕ → Directory
directories path = sample

read_exact_ends_example :
    Outcome
      (file (patch_header 0x21))
      12
      []
      (read_exact (file (patch_header 0x21)) 12).0
      (read_exact (file (patch_header 0x21)) 12).1
read_exact_ends_example = (read_exact_ends (file (patch_header 0x21)) 12).0

read_twelve : (read_exact (file (patch_header 0x21)) 12).0 ≡ ok (replicate 12 65)
unfolding read_exact read_loop
read_twelve = refl

read_too_much : (read_exact (file (patch_header 0x21)) 29).0 ≡ fail 90
unfolding read_exact read_loop
read_too_much = refl

bt_version-BtVersion_example : BtVersion bt_rom (bt_version bt_rom (replicate 92 0))
bt_version-BtVersion_example = bt_version-BtVersion bt_rom (replicate 92 0) refl

bt_found :
    bt_version bt_rom (replicate 92 0)
    ≡ ok (some (codes "t-neptune-7" ++ (0 ∷ codes "b" ++ replicate 79 0)))
unfolding bt_version find_bytes find_from bytes_eq version_text chars store_version cut_newline
bt_found = refl

firmware_search_cases_example :
    ((patches : List Patch) × (r : FirmwareResult) × Finds 0x8a12 sample patches r
      × (firmware_search directories (some (codes "/f")) 0x8a12 (some no_firmware)
          ≡ (ok 0, some r)))
    ⊎ ((e : ℕ) × (firmware_search directories (some (codes "/f")) 0x8a12 (some no_firmware)
          ≡ (fail e, some no_firmware))
        × ((patches : List Patch) (r : FirmwareResult) → ¬ Finds 0x8a12 sample patches r))
firmware_search_cases_example =
    firmware_search_cases directories b'/' (codes "f") 0x8a12 no_firmware

found_patches : (firmware_search directories (some (codes "/f")) 0x8a12 (some no_firmware)).0 ≡ ok 0
unfolding firmware_search search_patches search_directory search_entries candidate starts_with
    read_patch read_exact read_loop parse_header contains file_of padded add has build_version
    version_of completed set_complete
found_patches = refl

abbrev IsName : Entry → Type 0
IsName e = contains 0 e.name ≡ false

names : All IsName sample.entries
unfolding contains
names = (refl, (refl, (refl, (refl, tt))))

rom_search_cases_example :
    ((s : RomSet) × IsValid 0x8a12 IsName s
      × (rom_search directories (some (codes "/f")) 0x8a12 (some no_roms) ≡ (ok 0, some s)))
    ⊎ ((e : ℕ) × (rom_search directories (some (codes "/f")) 0x8a12 (some no_roms)
          ≡ (fail e, some no_roms)))
rom_search_cases_example = rom_search_cases directories b'/' (codes "f") 0x8a12 no_roms IsName names

found_roms : (rom_search directories (some (codes "/f")) 0x8a12 (some no_roms)).0 ≡ ok 0
unfolding rom_search search_roms search_directory search_entries candidate starts_with read_rom
    read_exact read_loop add_rom has note_wifi note_bt strstr read_bt_version read_whole read_extra
    bt_version find_bytes find_from bytes_eq version_text chars store_version cut_newline contains
found_roms = refl
