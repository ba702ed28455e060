-- ===== src/Wmt/Launcher/Described.antt =====
-- wmt-launcher/main.c: what a write comes to, and what a command collects, described apart from the code.
use android_device_xsh_k50sv.Prelude.{
  ℕ, ◌^◌, ◌<◌, ◌≤◌, ◌≡◌, ◌≢◌, ◌⊎◌, inl, inr, refl, Bool, true, false, not, ◌&&◌, Option, ap, some,
  List, [], ◌∷◌, ◌++◌, map, arith, ◌==◌, if◌then◌else◌, Result, ok, fail, take, get_or,
}
use android_device_xsh_k50sv.Prelude.Errno.{eintr, enodev, eproto, erange, eopnotsupp}
use android_device_xsh_k50sv.Prelude.Bits.{has}
use android_device_xsh_k50sv.Prelude.CStrings.{chars, codes}
use android_device_xsh_k50sv.Wmt.Patch.{PatchInfo}
use android_device_xsh_k50sv.Wmt.Protocol.{WmtCommand, WmtRecord, patch_list, rom_list}
use android_device_xsh_k50sv.Wmt.Firmware.Patches.{FirmwareResult, no_firmware, firmware_search}
use android_device_xsh_k50sv.Wmt.Firmware.Roms.{RomSet, zero_rom, no_roms, rom_search}
use android_device_xsh_k50sv.Wmt.Launcher.Commands.{
  Write, Surroundings, patch_version, wifi_version, bt_version, Metadata, send_frame,
}

-- What writing `size` bytes comes to: EINTR is tried again unless a stop is requested, and a write that is not
-- whole is a protocol error.
pub data Delivers (size : ℕ) : List Write → Result ℕ → Type 0 where
  accepted : Delivers size [] (ok 0)
  whole : (w : Write) (ws : List Write) → w.result ≡ ok size → Delivers size (w ∷ ws) (ok 0)
  short :
      (w : Write) (ws : List Write) (n : ℕ)
      → w.result ≡ ok n
      → n ≢ size
      → Delivers size (w ∷ ws) (fail eproto)
  again :
      (w : Write) (ws : List Write) (r : Result ℕ)
      → w.result ≡ fail eintr
      → w.stopping ≡ false
      → Delivers size ws r
      → Delivers size (w ∷ ws) r
  failed :
      (w : Write) (ws : List Write) (e : ℕ)
      → w.result ≡ fail e
      → (e ≢ eintr) ⊎ (w.stopping ≡ true)
      → Delivers size (w ∷ ws) (fail e)

pub send_frame-Delivers : (ws : List Write) (size : ℕ) → Delivers size ws (send_frame ws size)
unfolding send_frame
send_frame-Delivers [] size = accepted
send_frame-Delivers (w ∷ ws) size = by_result w.result refl (send_frame-Delivers ws size)
  where
    by_size :
        (n : ℕ) (b : Bool)
        → w.result ≡ ok n
        → (n == size) ≡ b
        → Delivers size (w ∷ ws) (if b then ok 0 else fail eproto)
    by_size n true p q = let same : n ≡ size = ground arith in whole w ws (rw p (ap ok same))
    by_size n false p q = short w ws n p (ground arith)

    by_errno :
        (e : ℕ) (interrupted stopping : Bool)
        → w.result ≡ fail e
        → (e == eintr) ≡ interrupted
        → w.stopping ≡ stopping
        → Delivers size ws (send_frame ws size)
        → Delivers size
            (w ∷ ws)
            (if interrupted && not stopping then send_frame ws size else fail e)
    by_errno e true false p q s ih =
        let same : e ≡ eintr = ground arith in
        again w ws (send_frame ws size) (rw p (ap fail same)) s ih
    by_errno e true true p q s ih = failed w ws e p (inr s)
    by_errno e false stopping p q s ih = failed w ws e p (inl (ground arith))

    by_result :
        (r : Result ℕ)
        → w.result ≡ r
        → Delivers size ws (send_frame ws size)
        → Delivers size (w ∷ ws) (elim r as (λ _. Result ℕ) [
          | ok n ↦ if n == size then ok 0 else fail eproto
          | fail e ↦ if e == eintr && not w.stopping then send_frame ws size else fail e
        ])
    by_result (ok n) p ih = by_size n (n == size) p refl
    by_result (fail e) p ih = by_errno e (e == eintr) w.stopping p refl refl ih

-- The record for ROM type `t`, if a file of it was seen.
abbrev pub rom_part : RomSet → ℕ → List WmtRecord
rom_part s t =
    if has s.seen t
    then record {
      index = t;
      address = (get_or s.records t zero_rom).address;
      name = (get_or s.records t zero_rom).name;
    }
      ∷ []
    else []

-- The metadata of the patches that were found.
pub record IsPatchList (r : FirmwareResult) (m : Metadata) : Type 0 where
  pub kind : m.kind ≡ patch_list
  pub records :
      m.records
      ≡ map
          (λ (i : PatchInfo). record { index = i.sequence; address = i.address; name = i.name })
          (take r.patches.count r.patches.records)
  pub published : m.publications ≡ patch_version (get_or r.versions 0 []) ∷ []

-- And of the ROMs, in the order of their types, with the two versions if there are any.
pub record IsRomList (s : RomSet) (m : Metadata) : Type 0 where
  pub kind : m.kind ≡ rom_list
  pub records :
      m.records ≡ rom_part s 0 ++ (rom_part s 1 ++ (rom_part s 2 ++ (rom_part s 3 ++ rom_part s 4)))
  pub both :
      s.has_wifi_version ≡ true
      → s.has_bt_version ≡ true
      → m.publications ≡ wifi_version s.wifi_version ∷ bt_version s.bt_version ∷ []
  pub wifi :
      s.has_wifi_version ≡ true
      → s.has_bt_version ≡ false
      → m.publications ≡ wifi_version s.wifi_version ∷ []
  pub bt :
      s.has_wifi_version ≡ false
      → s.has_bt_version ≡ true
      → m.publications ≡ bt_version s.bt_version ∷ []
  pub neither : s.has_wifi_version ≡ false → s.has_bt_version ≡ false → m.publications ≡ []

-- The two commands that there are.
abbrev pub AsksPatches : WmtCommand → Type 0
AsksPatches c = chars c.text ≡ codes "srh_patch"

abbrev pub AsksRoms : WmtCommand → Type 0
AsksRoms c = chars c.text ≡ codes "srh_rom_patch"

-- The chip is supported, and its firmware version has 16 bits.
pub record HasVersion (w : Surroundings) (version : ℕ) : Type 0 where
  pub chip : (w.chip ≡ ok 0x6755) ⊎ (w.chip ≡ ok 0x0326)
  pub is : w.version ≡ ok version
  pub fits : version < 2 ^ 16

-- What a command collects: the records of a search, or the first error on the way to them.
pub data Collects (w : Surroundings) (directory : List ℕ) (c : WmtCommand)
    : Result Metadata → Type 0 where
  no_command : ¬ AsksPatches c → ¬ AsksRoms c → Collects w directory c (fail eopnotsupp)
  no_chip : (e : ℕ) → AsksPatches c ⊎ AsksRoms c → w.chip ≡ fail e → Collects w directory c (fail e)
  other_chip :
      (chip : ℕ)
      → AsksPatches c ⊎ AsksRoms c
      → w.chip ≡ ok chip
      → chip ≢ 0x6755
      → chip ≢ 0x0326
      → Collects w directory c (fail enodev)
  no_version :
      (e : ℕ)
      → AsksPatches c ⊎ AsksRoms c
      → (w.chip ≡ ok 0x6755) ⊎ (w.chip ≡ ok 0x0326)
      → w.version ≡ fail e
      → Collects w directory c (fail e)
  wide_version :
      (version : ℕ)
      → AsksPatches c ⊎ AsksRoms c
      → (w.chip ≡ ok 0x6755) ⊎ (w.chip ≡ ok 0x0326)
      → w.version ≡ ok version
      → 2 ^ 16 ≤ version
      → Collects w directory c (fail erange)
  no_patches :
      (version e : ℕ) (output : Option FirmwareResult)
      → AsksPatches c
      → HasVersion w version
      → firmware_search w.directories (some directory) version (some no_firmware) ≡ (fail e, output)
      → Collects w directory c (fail e)
  patches :
      (version : ℕ) (r : FirmwareResult) (m : Metadata)
      → AsksPatches c
      → HasVersion w version
      → firmware_search w.directories (some directory) version (some no_firmware) ≡ (ok 0, some r)
      → IsPatchList r m
      → Collects w directory c (ok m)
  no_rom_set :
      (version e : ℕ) (output : Option RomSet)
      → AsksRoms c
      → HasVersion w version
      → rom_search w.directories (some directory) version (some no_roms) ≡ (fail e, output)
      → Collects w directory c (fail e)
  roms :
      (version : ℕ) (s : RomSet) (m : Metadata)
      → AsksRoms c
      → HasVersion w version
      → rom_search w.directories (some directory) version (some no_roms) ≡ (ok 0, some s)
      → IsRomList s m
      → Collects w directory c (ok m)
