-- ===== src/Wmt/Firmware/RomVersions.antt =====
-- wmt_rom_search of wmt-launcher/firmware.c: the version arrays of its set.
use android_device_xsh_k50sv.Prelude.{
  ℕ, ◌≡◌, inl, inr, refl, subst, Bool, true, Bool-cases, Option, none, some, List, [], ◌∷◌, ◌++◌,
  arith, not, ◌||◌, ltb, Result, ok, returned, passed, length, take, length-take, length-append,
  replicate,
}
use android_device_xsh_k50sv.Prelude.Errno.{einval, emsgsize, efbig, enomem}
use android_device_xsh_k50sv.Prelude.CStrings.{contains, contains-append, strstr, codes}
use android_device_xsh_k50sv.Wmt.Patch.{build_version}
use android_device_xsh_k50sv.Wmt.Firmware.Files.{File}
use android_device_xsh_k50sv.Wmt.Firmware.Directory.{Status}
use android_device_xsh_k50sv.Wmt.Firmware.Versions.{
  read_bt_version, read_whole, bt_version, bt_version_file_limit,
}
use android_device_xsh_k50sv.Wmt.Firmware.Texts.{
  BtVersion, unmarked, no_start, no_end, no_text, neptune, debug, bt_version-BtVersion,
}
use android_device_xsh_k50sv.Wmt.Firmware.Patches.{built}
use android_device_xsh_k50sv.Wmt.Firmware.Roms.{RomSet, conflicts, note_wifi, keep_bt, note_bt}

-- The two version arrays hold C strings.
pub record HasVersions (s : RomSet) : Type 0 where
  pub wifi_sized : length s.wifi_version ≡ 16
  pub wifi_terminated : contains 0 s.wifi_version ≡ true
  pub bt_sized : length s.bt_version ≡ 92
  pub bt_terminated : contains 0 s.bt_version ≡ true

-- Only the versions of the set changed.
pub record IsNoted (s t : RomSet) : Type 0 where
  pub records : t.records ≡ s.records
  pub seen : t.seen ≡ s.seen
  pub count : t.count ≡ s.count
  pub versions : HasVersions s → HasVersions t

IsNoted-refl : (s : RomSet) → IsNoted s s
IsNoted-refl s = record { records = refl; seen = refl; count = refl; versions = λ v. v }

built_version :
    (header version : List ℕ)
    → length header ≡ 32
    → built (build_version (some header) (some (replicate 16 0))) ≡ ok version
    → (length version ≡ 16) × (contains 0 version ≡ true)
unfolding build_version
built_version header version full h =
    let same : take 15 header ++ 0 ∷ [] ≡ version = ground (arith, full) in
    (
      rw (← same) (omega (arith, length-append (take 15 header) (0 ∷ []), length-take 15 header)),
      rw (← same, contains-append) (ends (contains 0 (take 15 header))),
    )
  where
    ends : (b : Bool) → (b || contains 0 (0 ∷ [])) ≡ true
    ends b = unfold contains in ground arith

with_wifi-IsNoted :
    (s : RomSet) (version : List ℕ)
    → length version ≡ 16
    → contains 0 version ≡ true
    → IsNoted s (record s { wifi_version = version; has_wifi_version = true })
with_wifi-IsNoted s version sized terminated = record {
  records = refl;
  seen = refl;
  count = refl;
  versions = λ v. record {
    wifi_sized = sized;
    wifi_terminated = terminated;
    bt_sized = v.bt_sized;
    bt_terminated = v.bt_terminated;
  };
}

with_bt-IsNoted :
    (s : RomSet) (version : List ℕ)
    → length version ≡ 92
    → contains 0 version ≡ true
    → IsNoted s (record s { bt_version = version; has_bt_version = true })
with_bt-IsNoted s version sized terminated = record {
  records = refl;
  seen = refl;
  count = refl;
  versions = λ v. record {
    wifi_sized = v.wifi_sized;
    wifi_terminated = v.wifi_terminated;
    bt_sized = sized;
    bt_terminated = terminated;
  };
}

pub note_wifi-IsNoted :
    (name header : List ℕ) (s t : RomSet)
    → length header ≡ 32
    → note_wifi name header s ≡ ok t
    → IsNoted s t
unfolding note_wifi
note_wifi-IsNoted name header s t full h = elim (Bool-cases (strstr name (codes "ram_wifi"))) [
  | inl wifi ↦
      let (version, stored, h1) =
        returned (built (build_version (some header) (some (replicate 16 0)))) _ (rw wifi at h) in
      let (agrees, h2) = passed (conflicts s.has_wifi_version s.wifi_version version) einval _ h1 in
      let (sized, terminated) = built_version header version full stored in
      let same : record s { wifi_version = version; has_wifi_version = true } ≡ t = cc in
      subst (λ u. IsNoted s u) same (with_wifi-IsNoted s version sized terminated)
  | inr other ↦
      let same : s ≡ t = cc (rw other at h) in subst (λ u. IsNoted s u) same (IsNoted-refl s)
]

read_bt_version-sized :
    (f : File) (size : ℕ) (version v : List ℕ)
    → length version ≡ 92
    → read_bt_version f size version ≡ ok (some v)
    → (length v ≡ 92) × (contains 0 v ≡ true)
unfolding read_bt_version
read_bt_version-sized f size version v sized h =
    let (_, h1) = passed (ltb size 32) emsgsize _ h in
    let (_, h2) = passed (ltb bt_version_file_limit size) efbig _ h1 in
    let (_, h3) = passed (not f.allocates) enomem _ h2 in
    let (bytes, _, h4) = returned (read_whole f size) _ h3 in
    stored (bt_version bytes version) h4 (bt_version-BtVersion bytes version sized)
  where
    stored :
        {bytes : List ℕ} (r : Result (Option (List ℕ)))
        → r ≡ ok (some v)
        → BtVersion bytes r
        → (length v ≡ 92) × (contains 0 v ≡ true)
    stored r e (unmarked _ _) = absurd (cc)
    stored r e (no_start _ _ _) = absurd (cc)
    stored r e (no_end _ _ _) = absurd (cc)
    stored r e (no_text _ _ _ _ _) = absurd (cc)
    stored r e (neptune _ _ _ w _ _ is) =
        let same : w ≡ v = cc in rw (← same) (is.sized, is.terminated)
    stored r e (debug _ _ _ w _ _ _ is) =
        let same : w ≡ v = cc in rw (← same) (is.sized, is.terminated)

keep_bt-IsNoted :
    (version : Option (List ℕ)) (s t : RomSet)
    → ((v : List ℕ) → version ≡ some v → (length v ≡ 92) × (contains 0 v ≡ true))
    → keep_bt version s ≡ ok t
    → IsNoted s t
keep_bt-IsNoted none s t ok_version h =
    let same : s ≡ t = cc in subst (λ u. IsNoted s u) same (IsNoted-refl s)
keep_bt-IsNoted (some v) s t ok_version h =
    let (agrees, h1) = passed (conflicts s.has_bt_version s.bt_version v) einval _ h in
    let (sized, terminated) = ok_version v refl in
    let same : record s { bt_version = v; has_bt_version = true } ≡ t = cc in
    subst (λ u. IsNoted s u) same (with_bt-IsNoted s v sized terminated)

pub note_bt-IsNoted :
    (f : File) (status : Status) (name : List ℕ) (s t : RomSet)
    → note_bt f status name s ≡ ok t
    → IsNoted s t
unfolding note_bt
note_bt-IsNoted f status name s t h = elim (Bool-cases (strstr name (codes "ram_bt"))) [
  | inl bt ↦
      let (version, stored, h1) =
        returned (read_bt_version f status.size (replicate 92 0)) _ (rw bt at h) in
      keep_bt-IsNoted version s t
        (λ v e. read_bt_version-sized f status.size (replicate 92 0) v refl (rw e at stored)) h1
  | inr other ↦
      let same : s ≡ t = cc (rw other at h) in subst (λ u. IsNoted s u) same (IsNoted-refl s)
]
