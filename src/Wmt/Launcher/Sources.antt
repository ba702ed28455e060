-- ===== src/Wmt/Launcher/Sources.antt =====
-- wmt-launcher/main.c: the records of a search, as wmt_reply_list wants them.
use android_device_xsh_k50sv.Prelude.{
  ℕ, suc, ◌+◌, ◌≤◌, ◌<◌, ◌≡◌, refl, sym, subst, true, false, Bool-cases, inl, inr, some, List, ◌∷◌,
  arith, ◌==◌, length, take, All, length-take,
}
use android_device_xsh_k50sv.Prelude.Bits.{has}
use android_device_xsh_k50sv.Prelude.CStrings.{contains, codes, starts_with, padded}
use android_device_xsh_k50sv.Wmt.Patch.{PatchFile, empty_set}
use android_device_xsh_k50sv.Wmt.Patch.Parse.{Accepts, described}
use android_device_xsh_k50sv.Wmt.Patch.Sets.{record_at, empty_set-IsValid}
use android_device_xsh_k50sv.Wmt.Patch.AddAll.{add_all-IsValid}
use android_device_xsh_k50sv.Wmt.Patch.Search.{found, set_complete-add_all}
use android_device_xsh_k50sv.Wmt.Protocol.{WmtCommand, WmtRecord, Kind}
use android_device_xsh_k50sv.Wmt.Protocol.Reply.{IsSized}
use android_device_xsh_k50sv.Wmt.Protocol.Frames.{IsReply}
use android_device_xsh_k50sv.Wmt.Firmware.Directory.{Entry, Directory}
use android_device_xsh_k50sv.Wmt.Firmware.Patches.{FirmwareResult, patch_prefix}
use android_device_xsh_k50sv.Wmt.Firmware.Loads.{Patch, Loaded, empty, other, foreign, patch, files}
use android_device_xsh_k50sv.Wmt.Firmware.Search.{Finds}
use android_device_xsh_k50sv.Wmt.Launcher.Names.{chars-padded, is_bad_record_name-padded}
use android_device_xsh_k50sv.Wmt.Launcher.Lists.{IsSendable, Numbered, take-Numbered}

-- readdir gives C strings.
abbrev pub IsName : Entry → Type 0
IsName e = contains 0 e.name ≡ false

-- A list that wmt_reply_list accepts for the command, in a frame of the launcher's size.
pub record IsAccepted (c : WmtCommand) (kind : Kind) (rs : List WmtRecord) : Type 0 where
  pub reply : IsReply c kind rs 2680
  pub sized : All IsSized rs

-- The patch file of a sequence, among those that were read.
record Source (firmware : ℕ) (f : PatchFile) : Type 0 where
  entry : Entry
  header : List ℕ
  is_name : IsName entry
  prefixed : starts_with patch_prefix entry.name ≡ true
  accepts : Accepts header entry.name firmware
  is : f ≡ described header entry.name

found-Source :
    {firmware : ℕ} {es : List Entry} {ps : List Patch} (i : ℕ) (f : PatchFile)
    → Loaded firmware es ps
    → All IsName es
    → found (files ps) i ≡ some f
    → Source firmware f
unfolding found
found-Source i f empty names h = absurd (cc)
found-Source i f (other skipped l) (name, names) h = found-Source i f l names h
found-Source i f (foreign header named has differs l) (name, names) h = found-Source i f l names h
found-Source {firmware} i f (patch {e} {es} {ps} header named has accepts l) (name, names) h =
    elim (Bool-cases ((described header e.name).info.sequence == suc i)) [
      | inl here ↦ record {
        entry = e;
        header = header;
        is_name = name;
        prefixed = named;
        accepts = accepts;
        is = (let same : described header e.name ≡ f = cc (rw here at h) in sym same);
      }
      | inr later ↦ found-Source i f l names (rw later at h)
    ]

pub padded-IsSendable :
    (p : ℕ) (ps name address : List ℕ)
    → (p == b'.') ≡ false
    → starts_with (p ∷ ps) name ≡ true
    → contains 0 name ≡ false
    → length name < 256
    → contains b'/' name ≡ false
    → length address ≡ 4
    → IsSendable address (padded 256 name)
padded-IsSendable p ps name address p_ok s nul fits slash four = record {
  address_size = four;
  name_fits = rw (chars-padded name nul fits) fits;
  name_good = is_bad_record_name-padded p ps name (λ e. absurd (ground arith)) s nul fits slash;
}

Source-IsSendable :
    (firmware : ℕ) (f : PatchFile) → Source firmware f → IsSendable f.info.address f.info.name
Source-IsSendable firmware f s =
    subst (λ (g : PatchFile). IsSendable g.info.address g.info.name) (sym s.is)
      (padded-IsSendable b'R' (codes "OMv2_lm_patch") s.entry.name
        (described s.header s.entry.name).info.address refl s.prefixed s.is_name s.accepts.fits
        s.accepts.no_slash refl)

-- The infos of a complete set are numbered from 1, and there are at most ten.
pub Finds-Numbered :
    (firmware : ℕ) (d : Directory) (patches : List Patch) (r : FirmwareResult)
    → All IsName d.entries
    → Finds firmware d patches r
    → Numbered 0 (take r.patches.count r.patches.records)
      × (0 < length (take r.patches.count r.patches.records))
      × (length (take r.patches.count r.patches.records) ≤ 10)
Finds-Numbered firmware d patches r names finds =
    let valid = add_all-IsValid empty_set (files patches) r.patches empty_set-IsValid finds.added in
    let (some_count, each) =
      (set_complete-add_all (files patches) r.patches finds.added).0 finds.complete in
    let count = length-take r.patches.count r.patches.records in
    (
      take-Numbered r.patches.records 0 r.patches.count (omega (arith, valid.few, valid.sized))
          (λ i lt. sendable i (each i lt)),
      omega (arith, valid.few, valid.sized),
      omega (arith, valid.few, valid.sized),
    )
  where
    sendable :
        (i : ℕ)
        → ((f : PatchFile) × (found (files patches) i ≡ some f)
            × (f.info.sequence ≡ suc i)
            × (record_at r.patches i ≡ f.info))
        → ((record_at r.patches i).sequence ≡ suc (0 + i))
          × IsSendable (record_at r.patches i).address (record_at r.patches i).name
    sendable i (f, at, seq, is) =
        rw is (omega arith, Source-IsSendable firmware f (found-Source i f finds.loaded names at))
