-- ===== src/Wmt/Firmware/Roms.antt =====
-- wmt-launcher/firmware.c: wmt_rom_search, whose files describe themselves in a header of 32 bytes.
use android_device_xsh_k50sv.Prelude.{
  ℕ, ◌+◌, Bool, true, false, ◌&&◌, ◌||◌, not, Option, none, some, List, [], ◌∷◌, bit_and, leb, ◌==◌,
  if◌then◌else◌, Result, ok, fail, ◌>>=◌, set, replicate,
}
use android_device_xsh_k50sv.Prelude.Errno.{einval, eexist}
use android_device_xsh_k50sv.Prelude.Bits.{has, with_bit}
use android_device_xsh_k50sv.Prelude.CStrings.{bytes_eq, chars, codes, strstr, padded}
use android_device_xsh_k50sv.Wmt.Patch.{byte, build_version, is_bad_name}
use android_device_xsh_k50sv.Wmt.Firmware.Files.{File, read_exact}
use android_device_xsh_k50sv.Wmt.Firmware.Directory.{Status, Directory, search_directory}
use android_device_xsh_k50sv.Wmt.Firmware.Versions.{
  rom_header_size, bt_version_size, read_bt_version,
}
use android_device_xsh_k50sv.Wmt.Firmware.Patches.{built, path_of, output_of}

abbrev pub rom_types : ℕ
rom_types = 5

-- struct wmt_rom_info: 4 bytes of address, 256 of name.
pub record RomInfo : Type 0 where
  pub type : ℕ
  pub address : List ℕ
  pub name : List ℕ

-- struct wmt_rom_set
pub record RomSet : Type 0 where
  pub count : ℕ
  pub seen : ℕ
  pub records : List RomInfo
  pub has_wifi_version : Bool
  pub has_bt_version : Bool
  pub wifi_version : List ℕ
  pub bt_version : List ℕ

abbrev pub zero_rom : RomInfo
zero_rom = record { type = 0; address = replicate 4 0; name = replicate 256 0 }

abbrev pub no_roms : RomSet
no_roms = record {
  count = 0;
  seen = 0;
  records = replicate rom_types zero_rom;
  has_wifi_version = false;
  has_bt_version = false;
  wifi_version = replicate 16 0;
  bt_version = replicate bt_version_size 0;
}

-- `has && strcmp(old, new)`
abbrev pub conflicts : Bool → List ℕ → List ℕ → Bool
conflicts has old new = has && not (bytes_eq (chars old) (chars new))

-- The Wi-Fi part of read_rom.
unfoldable pub note_wifi : List ℕ → List ℕ → RomSet → Result RomSet
note_wifi name header found =
    if not (strstr name (codes "ram_wifi"))
    then ok found
    else built (build_version (some header) (some (replicate 16 0))) >>= λ version.
        if conflicts found.has_wifi_version found.wifi_version version
        then fail einval
        else ok (record found { wifi_version = version; has_wifi_version = true })

abbrev pub keep_bt : Option (List ℕ) → RomSet → Result RomSet
keep_bt none found = ok found
keep_bt (some version) found =
    if conflicts found.has_bt_version found.bt_version version
    then fail einval
    else ok (record found { bt_version = version; has_bt_version = true })

-- The Bluetooth part; the file may have been read from already.
unfoldable pub note_bt : File → Status → List ℕ → RomSet → Result RomSet
note_bt f status name found =
    if not (strstr name (codes "ram_bt"))
    then ok found
    else read_bt_version f status.size (replicate bt_version_size 0) >>= λ version.
        keep_bt version found

-- The record that a header describes.
unfoldable pub rom_of : List ℕ → List ℕ → RomInfo
rom_of header name = record {
  type = byte header 31;
  address = 0 ∷ byte header 25 ∷ byte header 26 ∷ byte header 27 ∷ [];
  name = padded 256 name;
}

unfoldable pub store_rom : RomInfo → RomSet → RomSet
store_rom rom found = record found {
  records = set found.records rom.type rom;
  seen = with_bit found.seen rom.type;
  count = found.count + 1;
}

-- read_rom behind the reading of the header.
unfoldable pub add_rom : File → Status → List ℕ → ℕ → List ℕ → RomSet → Result RomSet
add_rom f status name firmware header found =
    if not (byte header 23 == bit_and firmware 0xff)
    then ok found
    else if bit_and (byte header 27) 0xf0 == 0 || leb rom_types (byte header 31)
    then fail einval
    else if has found.seen (byte header 31)
    then fail eexist
    else note_wifi name header found >>= λ wifi.
        note_bt f status name wifi >>= λ bt. ok (store_rom (rom_of header name) bt)

unfoldable pub read_rom : File → Status → List ℕ → ℕ → RomSet → Result RomSet
read_rom f status name firmware found =
    if is_bad_name name
    then fail einval
    else (let (got, g) = read_exact f rom_header_size in
        got >>= λ header. add_rom g status name firmware header found)

abbrev pub rom_prefix : List ℕ
rom_prefix = codes "soc1_0_ram"

unfoldable pub search_roms : Directory → ℕ → Result RomSet
search_roms d firmware = search_directory read_rom rom_prefix firmware d no_roms

unfoldable pub rom_search :
    (List ℕ → Directory) → Option (List ℕ) → ℕ → Option RomSet → Result ℕ × Option RomSet
rom_search directories directory firmware none = (fail einval, none)
rom_search directories directory firmware (some output) = elim (path_of directory) [
  | none ↦ (fail einval, some output)
  | some path ↦ output_of (search_roms (directories path) firmware) output
]
