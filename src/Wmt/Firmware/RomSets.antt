-- ===== src/Wmt/Firmware/RomSets.antt =====
-- wmt_rom_search of wmt-launcher/firmware.c: the set that it hands out, and the files behind its records.
use android_device_xsh_k50sv.Prelude.{
  ℕ, ◌%◌, ◌<◌, ◌≡◌, ◌≢◌, ◌⊎◌, inl, inr, refl, ap, ◌∙◌, subst, true, false, Bool-cases, List, [],
  ◌∷◌, arith, ◌==◌, not, ◌||◌, leb, ok, ◌>>=◌, returned, passed, length, set, get_or, length-set,
  bit_and, get_or-set_self, get_or-set_ne,
}
use android_device_xsh_k50sv.Prelude.Errno.{einval, eexist}
use android_device_xsh_k50sv.Prelude.Bits.{has, has-zero, with_bit, has-with_bit, bit_and_byte}
use android_device_xsh_k50sv.Prelude.Bits.Count.{ones, ones-zero, ones-with_bit}
use android_device_xsh_k50sv.Prelude.CStrings.{contains, starts_with, padded}
use android_device_xsh_k50sv.Wmt.Patch.{byte}
use android_device_xsh_k50sv.Wmt.Firmware.Files.{File}
use android_device_xsh_k50sv.Wmt.Firmware.Directory.{Status, Entry}
use android_device_xsh_k50sv.Wmt.Firmware.Loads.{HasHeader}
use android_device_xsh_k50sv.Wmt.Firmware.Roms.{
  RomInfo, RomSet, zero_rom, no_roms, note_wifi, note_bt, rom_of, store_rom, add_rom, rom_prefix,
}
use android_device_xsh_k50sv.Wmt.Firmware.RomVersions.{
  HasVersions, IsNoted, note_wifi-IsNoted, note_bt-IsNoted,
}

abbrev pub rom_at : RomSet → ℕ → RomInfo
rom_at s i = get_or s.records i zero_rom

-- A file of the type, for this firmware: what its header and its name say.
pub record IsRom (header name : List ℕ) (firmware type : ℕ) (rom : RomInfo) : Type 0 where
  pub full : length header ≡ 32
  pub prefixed : starts_with rom_prefix name ≡ true
  pub named : 0 < length name
  pub fits : length name < 256
  pub no_slash : contains b'/' name ≡ false
  pub matches : byte header 23 ≡ firmware % 256
  pub flagged : bit_and (byte header 27) 0xf0 ≢ 0
  pub typed : byte header 31 ≡ type
  pub in_range : type < 5
  pub described : rom ≡ record {
    type = type;
    address = 0 ∷ byte header 25 ∷ byte header 26 ∷ byte header 27 ∷ [];
    name = padded 256 name;
  }

-- The sets that a search can hand out, `Q` being what every entry of its directory has.
pub record IsValid (firmware : ℕ) (Q : Entry → Type 0) (s : RomSet) : Type 0 where
  pub sized : length s.records ≡ 5
  pub counted : s.count ≡ ones 5 s.seen
  pub recorded :
      (i : ℕ)
      → has s.seen i ≡ true
      → (e : Entry) × (header : List ℕ) × Q e
        × HasHeader e 32 header
        × IsRom header e.name firmware i (rom_at s i)
  pub versions : HasVersions s

pub no_roms-IsValid : (firmware : ℕ) (Q : Entry → Type 0) → IsValid firmware Q no_roms
unfolding contains
no_roms-IsValid firmware Q = record {
  sized = refl;
  counted = omega (arith, ones-zero 5);
  recorded = λ i h. absurd (cc (has-zero i));
  versions = record {
    wifi_sized = refl;
    wifi_terminated = refl;
    bt_sized = refl;
    bt_terminated = refl;
  };
}

-- What read_rom checks of a header, before the versions.
pub record IsTaken (header : List ℕ) (firmware : ℕ) (s : RomSet) : Type 0 where
  pub matches : byte header 23 ≡ firmware % 256
  pub flagged : bit_and (byte header 27) 0xf0 ≢ 0
  pub in_range : byte header 31 < 5
  pub new : has s.seen (byte header 31) ≡ false

IsNoted-trans : {s t u : RomSet} → IsNoted s t → IsNoted t u → IsNoted s u
IsNoted-trans a b = record {
  records = b.records ∙ a.records;
  seen = b.seen ∙ a.seen;
  count = b.count ∙ a.count;
  versions = λ v. b.versions (a.versions v);
}

pub add_rom-cases :
    (f : File) (status : Status) (name header : List ℕ) (firmware : ℕ) (s t : RomSet)
    → length header ≡ 32
    → add_rom f status name firmware header s ≡ ok t
    → (s ≡ t)
      ⊎ (IsTaken header firmware s
          × ((u : RomSet) × IsNoted s u × (t ≡ store_rom (rom_of header name) u)))
unfolding add_rom
add_rom-cases f status name header firmware s t full h =
    elim (Bool-cases (not (byte header 23 == bit_and firmware 0xff))) [
      | inl differs ↦ let same : s ≡ t = cc (rw differs at h) in inl same
      | inr matches ↦
          let h1 = rw matches at h in
          let (allowed, h2) =
            passed (bit_and (byte header 27) 0xf0 == 0 || leb 5 (byte header 31)) einval _ h1 in
          let (new, h3) = passed (has s.seen (byte header 31)) eexist _ h2 in
          let (wifi, noted, h4) =
            returned (note_wifi name header s)
              (λ w. note_bt f status name w >>= λ b. ok (store_rom (rom_of header name) b)) h3 in
          let (bt, noted', h5) =
            returned (note_bt f status name wifi) (λ b. ok (store_rom (rom_of header name) b)) h4 in
          inr (
            record {
              matches = ground (arith, bit_and_byte firmware);
              flagged = ground (arith, allowed);
              in_range = ground (arith, allowed);
              new = new;
            },
            (
              bt,
              IsNoted-trans (note_wifi-IsNoted name header s wifi full noted)
                  (note_bt-IsNoted f status name wifi bt noted'),
              cc,
            ),
          )
    ]

-- The file of one type goes into the set, whose versions may have changed.
pub store_rom-IsValid :
    (firmware : ℕ) (Q : Entry → Type 0) (s u : RomSet) (e : Entry) (header : List ℕ)
    → IsValid firmware Q s
    → IsNoted s u
    → IsTaken header firmware s
    → Q e
    → HasHeader e 32 header
    → IsRom header e.name firmware (byte header 31) (rom_of header e.name)
    → IsValid firmware Q (store_rom (rom_of header e.name) u)
unfolding store_rom rom_of
store_rom-IsValid firmware Q s u e header v noted taken q read rom = record {
  sized = length-set u.records type (rom_of header e.name) ∙ ap length noted.records ∙ v.sized;
  counted = omega (
    arith,
    noted.count,
    v.counted,
    ap (λ (w : ℕ). ones 5 (with_bit w type)) noted.seen,
    ones-with_bit 5 s.seen type taken.in_range taken.new,
  );
  recorded = recorded;
  versions =
      let old = noted.versions v.versions in
      record {
        wifi_sized = old.wifi_sized;
        wifi_terminated = old.wifi_terminated;
        bt_sized = old.bt_sized;
        bt_terminated = old.bt_terminated;
      };
}
  where
    type : ℕ
    type = byte header 31

    long : type < length u.records
    long = omega (arith, ap length noted.records, v.sized, taken.in_range)

    recorded :
        (i : ℕ)
        → has (with_bit u.seen type) i ≡ true
        → (e' : Entry) × (header' : List ℕ) × Q e'
          × HasHeader e' 32 header'
          × IsRom header' e'.name firmware i
              (get_or (set u.records type (rom_of header e.name)) i zero_rom)
    recorded i h = elim (Bool-cases (type == i)) [
      | inl now ↦
          let same : type ≡ i = ground arith in
          (
            e,
            header,
            q,
            read,
            subst
                (λ k.
                  IsRom header e.name firmware k
                    (get_or (set u.records type (rom_of header e.name)) k zero_rom))
                same (rw (get_or-set_self u.records type (rom_of header e.name) zero_rom long) rom),
          )
      | inr before ↦
          rw
            (
              get_or-set_ne u.records type i (rom_of header e.name) zero_rom (ground arith),
              noted.records,
            )
            (v.recorded i
              (ground (arith, has-with_bit u.seen type i, ap (λ (w : ℕ). has w i) noted.seen)))
    ]
