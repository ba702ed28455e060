-- ===== src/Wmt/Launcher/Accepted.antt =====
-- wmt-launcher/main.c: the successful searches of handle_command, before wmt_reply_list.
use android_device_xsh_k50sv.Prelude.{
  ℕ, suc, ◌+◌, ◌-◌, ◌^◌, ◌≤◌, ◌<◌, ◌≡◌, refl, subst, true, not, ◌||◌, Bool-cases, inl, inr, some,
  List, ◌∷◌, arith, ok, fail, returned, passed, ltb, if◌then◌else◌, length, get_or, take, All,
}
use android_device_xsh_k50sv.Prelude.Errno.{eopnotsupp, enodev, erange}
use android_device_xsh_k50sv.Prelude.Bits.{has}
use android_device_xsh_k50sv.Prelude.CStrings.{codes}
use android_device_xsh_k50sv.Wmt.Patch.{PatchInfo}
use android_device_xsh_k50sv.Wmt.Protocol.{WmtCommand, patch_list, rom_list}
use android_device_xsh_k50sv.Wmt.Firmware.Patches.{FirmwareResult, no_firmware, firmware_search}
use android_device_xsh_k50sv.Wmt.Firmware.Search.{firmware_search_cases}
use android_device_xsh_k50sv.Wmt.Firmware.Roms.{RomSet, no_roms, rom_search, zero_rom}
use android_device_xsh_k50sv.Wmt.Firmware.RomSets.{IsValid}
use android_device_xsh_k50sv.Wmt.Firmware.RomSearch.{rom_search_cases}
use android_device_xsh_k50sv.Wmt.Launcher.Commands.{
  Surroundings, Metadata, is_normal, is_rom, patch_records, rom_records, normal_metadata,
  rom_metadata, searched, search_metadata, search_chip, collect, supported_chip,
}
use android_device_xsh_k50sv.Wmt.Launcher.Lists.{
  IsSendable, Numbered, Numbered-Increasing, Increasing-Distinct, Increasing-IsSized,
  Increasing-patches, Increasing-roms, length-Increasing, length-patch_records,
  rom_records-Increasing,
}
use android_device_xsh_k50sv.Wmt.Launcher.Sources.{
  IsName, IsAccepted, padded-IsSendable, Finds-Numbered,
}

module _ (c : WmtCommand) (some_session : 0 < c.session)
    (some_transaction : 0 < c.transaction) where
  patches-IsAccepted :
      (infos : List PatchInfo)
      → Numbered 0 infos
      → 0 < length infos
      → length infos ≤ 10
      → IsAccepted c patch_list (patch_records infos)
  patches-IsAccepted infos numbered some_info few =
      let count = length-patch_records infos in
      let increasing = Numbered-Increasing 0 infos numbered in
      let high = suc (0 + length infos) in
      record {
        reply = record {
          some_session = some_session;
          some_transaction = some_transaction;
          in_limit = (omega arith, omega arith);
          fits = omega arith;
          listed =
              Increasing-patches 1 high (length (patch_records infos)) (patch_records infos)
                (omega arith) (omega arith) increasing;
          distinct = Increasing-Distinct 1 high (patch_records infos) increasing;
        };
        sized = Increasing-IsSized 1 high (patch_records infos) increasing;
      }

  roms-IsAccepted :
      (firmware : ℕ) (s : RomSet)
      → IsValid firmware IsName s
      → IsAccepted c rom_list (rom_records s 0 5)
  roms-IsAccepted firmware s v =
      let increasing = rom_records-Increasing s 0 5 sendable in
      let few = length-Increasing 0 5 (rom_records s 0 5) (omega arith) increasing in
      record {
        reply = record {
          some_session = some_session;
          some_transaction = some_transaction;
          in_limit = omega arith;
          fits = omega arith;
          listed = Increasing-roms 0 (length (rom_records s 0 5)) (rom_records s 0 5) increasing;
          distinct = Increasing-Distinct 0 5 (rom_records s 0 5) increasing;
        };
        sized = Increasing-IsSized 0 5 (rom_records s 0 5) increasing;
      }
    where
      sendable :
          (i : ℕ)
          → has s.seen i ≡ true
          → IsSendable (get_or s.records i zero_rom).address (get_or s.records i zero_rom).name
      sendable i seen =
          let (e, header, name, _, rom) = v.recorded i seen in
          rw rom.described (
            padded-IsSendable b's' (codes "oc1_0_ram") e.name _ refl rom.prefixed name rom.fits
              rom.no_slash refl)

  -- The metadata of a search, with whatever versions it publishes.
  search_metadata-IsAccepted :
      (w : Surroundings) (d : ℕ) (ds : List ℕ) (firmware : ℕ) (m : Metadata)
      → All IsName (w.directories (d ∷ ds)).entries
      → search_metadata w (d ∷ ds) c firmware ≡ ok m
      → IsAccepted c m.kind m.records
  unfolding search_metadata
  search_metadata-IsAccepted w d ds firmware m names h = elim (Bool-cases (is_normal c)) [
    | inl normal ↦
        let (r, ran, h1) =
          returned
            (searched (firmware_search w.directories (some (d ∷ ds)) firmware (some no_firmware)))
            (λ r. ok (normal_metadata r)) (rw normal at h) in
        let same : normal_metadata r ≡ m = cc in
        subst (λ n. IsAccepted c n.kind n.records) same (normal_case r ran)
    | inr differs ↦
        let (s, ran, h1) =
          returned (searched (rom_search w.directories (some (d ∷ ds)) firmware (some no_roms)))
            (λ s. ok (rom_metadata s)) (rw differs at h) in
        let same : rom_metadata s ≡ m = cc in
        subst (λ n. IsAccepted c n.kind n.records) same (rom_case s ran)
  ]
    where
      normal_case :
          (r : FirmwareResult)
          → searched (firmware_search w.directories (some (d ∷ ds)) firmware (some no_firmware))
            ≡ ok r
          → IsAccepted c patch_list (patch_records (take r.patches.count r.patches.records))
      normal_case r ran = elim (firmware_search_cases w.directories d ds firmware no_firmware) [
        | inl (patches, t, finds, is) ↦
            let same : t ≡ r = cc (rw is at ran) in
            let (numbered, some_info, few) =
              Finds-Numbered firmware (w.directories (d ∷ ds)) patches t names finds in
            subst
              (λ (u : FirmwareResult).
                IsAccepted c patch_list (patch_records (take u.patches.count u.patches.records)))
              same
              (patches-IsAccepted (take t.patches.count t.patches.records) numbered some_info few)
        | inr (e, is, _) ↦ absurd (cc (rw is at ran))
      ]

      rom_case :
          (s : RomSet)
          → searched (rom_search w.directories (some (d ∷ ds)) firmware (some no_roms)) ≡ ok s
          → IsAccepted c rom_list (rom_records s 0 5)
      rom_case s ran = elim (rom_search_cases w.directories d ds firmware no_roms IsName names) [
        | inl (t, valid, is) ↦
            let same : t ≡ s = cc (rw is at ran) in
            subst (λ u. IsAccepted c rom_list (rom_records u 0 5)) same
              (roms-IsAccepted firmware t valid)
        | inr (e, is) ↦ absurd (cc (rw is at ran))
      ]

  -- Every successful search, of either kind, is one that may be sent.
  pub collect-IsAccepted :
      (w : Surroundings) (d : ℕ) (ds : List ℕ) (m : Metadata)
      → All IsName (w.directories (d ∷ ds)).entries
      → collect w (d ∷ ds) c ≡ ok m
      → IsAccepted c m.kind m.records
  unfolding collect search_chip
  collect-IsAccepted w d ds m names h =
      let (known, h1) = passed (not (is_normal c || is_rom c)) eopnotsupp _ h in
      let (chip, asked, h2) = returned w.chip (λ chip. search_chip w (d ∷ ds) c chip) h1 in
      let (supported, h3) = passed (not (supported_chip chip)) enodev _ h2 in
      let (version, told, h4) =
        returned w.version
          (λ v. if ltb (2 ^ 16 - 1) v then fail erange else search_metadata w (d ∷ ds) c v) h3 in
      let (small, h5) = passed (ltb (2 ^ 16 - 1) version) erange _ h4 in
      search_metadata-IsAccepted w d ds version m names h5
