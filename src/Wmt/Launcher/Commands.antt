-- ===== src/Wmt/Launcher/Commands.antt =====
-- wmt-launcher/main.c: the answer to one command. What the calls return is a `Surroundings`; the frame that
-- is written and the properties that are set are the result.
use android_device_xsh_k50sv.Prelude.{
  ℕ, zero, suc, ◌^◌, ◌-◌, Bool, not, ◌&&◌, ◌||◌, Option, none, some, List, [], ◌∷◌, ◌++◌, ltb, ◌==◌,
  if◌then◌else◌, Result, ok, fail, ◌>>=◌, length, take, replicate, get_or,
}
use android_device_xsh_k50sv.Prelude.Errno.{einval, eintr, enodev, eproto, erange, eopnotsupp}
use android_device_xsh_k50sv.Prelude.Int.{ℤ, pos, negsuc}
use android_device_xsh_k50sv.Prelude.Bits.{has}
use android_device_xsh_k50sv.Prelude.CStrings.{bytes_eq, chars, codes}
use android_device_xsh_k50sv.Wmt.Patch.{PatchInfo}
use android_device_xsh_k50sv.Wmt.Protocol.{
  WmtCommand, WmtRecord, Kind, patch_list, rom_list, write_max, reply_list, reply_status,
}
use android_device_xsh_k50sv.Wmt.Firmware.Directory.{Directory}
use android_device_xsh_k50sv.Wmt.Firmware.Patches.{FirmwareResult, no_firmware, firmware_search}
use android_device_xsh_k50sv.Wmt.Firmware.Roms.{RomSet, zero_rom, no_roms, rom_types, rom_search}

-- What one write(2) returns, and whether a stop is requested when it has returned.
pub record Write : Type 0 where
  pub result : Result ℕ
  pub stopping : Bool

-- The two answers of WMT_CHIP_INFO, the directories, and the writes; those behind the list succeed.
pub record Surroundings : Type 0 where
  pub chip : Result ℕ
  pub version : Result ℕ
  pub directories : List ℕ → Directory
  pub writes : List Write

abbrev pub supported_chip : ℕ → Bool
supported_chip chip = chip == 0x6755 || chip == 0x0326

-- The loop of send_frame around its write of `size` bytes.
unfoldable pub send_frame : List Write → ℕ → Result ℕ
send_frame [] size = ok 0
send_frame (w ∷ ws) size =
    let again = send_frame ws size in
    elim w.result [
      | ok n ↦ if n == size then ok 0 else fail eproto
      | fail e ↦ if e == eintr && not w.stopping then again else fail e
    ]

-- The properties that describe accepted metadata.
pub data Publication : Type 0 where
  patch_version wifi_version bt_version : List ℕ → Publication

-- What a successful search hands to wmt_reply_list, and the properties for after its acceptance.
pub record Metadata : Type 0 where
  pub kind : Kind
  pub records : List WmtRecord
  pub publications : List Publication

abbrev pub is_normal : WmtCommand → Bool
is_normal c = bytes_eq (chars c.text) (codes "srh_patch")

abbrev pub is_rom : WmtCommand → Bool
is_rom c = bytes_eq (chars c.text) (codes "srh_rom_patch")

abbrev pub patch_records : List PatchInfo → List WmtRecord
patch_records [] = []
patch_records (info ∷ infos) =
    record { index = info.sequence; address = info.address; name = info.name } ∷ patch_records infos

-- The loop over the `n` ROM types from `type` on.
abbrev pub rom_records : RomSet → ℕ → ℕ → List WmtRecord
rom_records s type zero = []
rom_records s type (suc n) =
    let rest = rom_records s (suc type) n in
    if has s.seen type
    then record {
      index = type;
      address = (get_or s.records type zero_rom).address;
      name = (get_or s.records type zero_rom).name;
    }
      ∷ rest
    else rest

abbrev pub normal_metadata : FirmwareResult → Metadata
normal_metadata r = record {
  kind = patch_list;
  records = patch_records (take r.patches.count r.patches.records);
  publications = patch_version (get_or r.versions 0 []) ∷ [];
}

abbrev pub rom_metadata : RomSet → Metadata
rom_metadata s = record {
  kind = rom_list;
  records = rom_records s 0 rom_types;
  publications =
      (if s.has_wifi_version then wifi_version s.wifi_version ∷ [] else [])
      ++ (if s.has_bt_version then bt_version s.bt_version ∷ [] else []);
}

-- The output of a search that returned 0.
abbrev pub searched {ℓ} : {A : Type ℓ} → Result ℕ × Option A → Result A
searched (fail e, output) = fail e
searched (ok n, none) = fail einval
searched (ok n, some output) = ok output

unfoldable pub search_metadata : Surroundings → List ℕ → WmtCommand → ℕ → Result Metadata
search_metadata w directory c version =
    if is_normal c
    then (searched (firmware_search w.directories (some directory) version (some no_firmware))
        >>= λ r. ok (normal_metadata r))
    else (searched (rom_search w.directories (some directory) version (some no_roms)) >>= λ s.
        ok (rom_metadata s))

unfoldable pub search_chip : Surroundings → List ℕ → WmtCommand → ℕ → Result Metadata
search_chip w directory c chip =
    if not (supported_chip chip)
    then fail enodev
    else w.version >>= λ version.
        if ltb (2 ^ 16 - 1) version then fail erange else search_metadata w directory c version

unfoldable pub collect : Surroundings → List ℕ → WmtCommand → Result Metadata
collect w directory c =
    if not (is_normal c || is_rom c)
    then fail eopnotsupp
    else w.chip >>= λ chip. search_chip w directory c chip

-- The int that stands for an error.
abbrev pub negated : ℕ → ℤ
negated zero = pos 0
negated (suc n) = negsuc n

-- A frame and its size, or the error of the function that should have written it, beside the result of the
-- command.
pub record Answer : Type 0 where
  pub size : Result ℕ
  pub frame : List ℕ
  pub result : Result (List Publication)

abbrev pub frame_of : Option (List ℕ) → List ℕ
frame_of none = []
frame_of (some frame) = frame

abbrev pub status_answer : WmtCommand → ℕ → List ℕ → Answer
status_answer c e frame =
    let (size, written) = reply_status (some c) (negated e) (some frame) in
    record { size = size; frame = frame_of written; result = fail e }

abbrev pub list_answer : WmtCommand → List Publication → Result ℕ × Option (List ℕ) → Answer
list_answer c publications (ok size, written) = record {
  size = ok size;
  frame = frame_of written;
  result = ok publications;
}
list_answer c publications (fail e, written) = status_answer c e (frame_of written)

unfoldable pub answer : WmtCommand → Result Metadata → Answer
answer c (fail e) = status_answer c e (replicate write_max 0)
answer c (ok m) =
    list_answer c m.publications (
      reply_list (some c) m.kind (some m.records) (length m.records) (some (replicate write_max 0)))

-- What handle_command returns, the frame that it writes, and the properties that it sets.
pub record Handled : Type 0 where
  pub returned : Result ℕ
  pub frame : Option (List ℕ)
  pub published : List Publication

abbrev pub published_by : Result (List Publication) → List Publication
published_by (fail e) = []
published_by (ok publications) = publications

unfoldable pub deliver_answer : List Write → Answer → Handled
deliver_answer writes a = elim a.size [
  | fail e ↦ record { returned = fail e; frame = none; published = [] }
  | ok size ↦ elim (send_frame writes size) [
    | fail e ↦ record { returned = fail e; frame = some (take size a.frame); published = [] }
    | ok _ ↦ record {
      returned = ok 0;
      frame = some (take size a.frame);
      published = published_by a.result;
    }
  ]
]

unfoldable pub handle_command : Surroundings → List ℕ → WmtCommand → Handled
handle_command w directory c = deliver_answer w.writes (answer c (collect w directory c))
