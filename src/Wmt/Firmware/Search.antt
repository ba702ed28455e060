-- ===== src/Wmt/Firmware/Search.antt =====
-- wmt-launcher/firmware.c: wmt_firmware_search against an independent description: read every file first, then add all of them.
use android_device_xsh_k50sv.Prelude.{
  ℕ, ◌-◌, ◌≡◌, ◌⊎◌, inl, inr, refl, true, some, List, [], ◌∷◌, arith, Result, ok, fail, returned,
  ◌>>=◌, set, take, ◌++◌, ap, ◌∙◌,
}
use android_device_xsh_k50sv.Prelude.CStrings.{starts_with}
use android_device_xsh_k50sv.Wmt.Patch.{PatchSet, empty_set, set_complete}
use android_device_xsh_k50sv.Wmt.Patch.Parse.{described}
use android_device_xsh_k50sv.Wmt.Patch.AddAll.{add_all}
use android_device_xsh_k50sv.Wmt.Firmware.Directory.{Entry, Directory, visit, search_entries}
use android_device_xsh_k50sv.Wmt.Firmware.Candidates.{
  IsListing, IsUsable-candidate, search_directory-only, IsListing-search_directory,
}
use android_device_xsh_k50sv.Wmt.Firmware.Patches.{
  FirmwareResult, no_firmware, read_patch, patch_prefix, search_patches, completed, firmware_search,
  output_of,
}
use android_device_xsh_k50sv.Wmt.Firmware.Loads.{
  HasHeader, Patch, Loaded, empty, other, foreign, patch, files, versions_after, Adds,
  Adds-read_patch,
}
use android_device_xsh_k50sv.Wmt.Firmware.Sums.{Sweeps, Sweeps-Sums, add_all-described}

-- An entry of the prefix, when its header has been read.
visit-Adds :
    (firmware : ℕ) (e : Entry) (header : List ℕ) (s u : FirmwareResult)
    → starts_with patch_prefix e.name ≡ true
    → HasHeader e 28 header
    → Adds header e.name firmware s u
    → visit read_patch patch_prefix firmware e s ≡ ok u
visit-Adds firmware e header s u named has adds = rw named (
    IsUsable-candidate read_patch patch_prefix firmware e s u has.file has.status has.usable
      (Adds-read_patch has.file has.status header e.name firmware s u has.read adds))

Sweeps-cons :
    (firmware : ℕ) (e : Entry) (es : List Entry) (s u t : FirmwareResult)
    → visit read_patch patch_prefix firmware e s ≡ ok u
    → Sweeps firmware es u t
    → Sweeps firmware (e ∷ es) s t
unfolding search_entries
Sweeps-cons firmware e es s u t first rest = rw (search_entries, first) rest

Loaded-Sweeps :
    {firmware : ℕ} {es : List Entry} {ps : List Patch} (s t : FirmwareResult)
    → Loaded firmware es ps
    → add_all s.patches (files ps) ≡ ok t.patches
    → t.versions ≡ versions_after s.versions ps
    → Sweeps firmware es s t
unfolding search_entries add_all
Loaded-Sweeps s t empty added versions = ground (arith, added, versions)
Loaded-Sweeps {firmware} s t (other {e} {es} skipped l) added versions =
    Sweeps-cons firmware e es s s t (rw skipped) (Loaded-Sweeps s t l added versions)
Loaded-Sweeps {firmware} s t (foreign {e} {es} header named has differs l) added versions =
    Sweeps-cons firmware e es s s t
      (visit-Adds firmware e header s s named has (inl (differs, refl)))
      (Loaded-Sweeps s t l added versions)
Loaded-Sweeps {firmware} s t (patch {e} {es} {ps} header named has accepts l) added versions =
    let (p, first, rest) = add_all-described s.patches t.patches ps header e.name added in
    let u : FirmwareResult = record {
      patches = p;
      versions =
          set s.versions ((described header e.name).info.sequence - 1) (take 15 header ++ 0 ∷ []);
    } in
    Sweeps-cons firmware e es s u t
      (visit-Adds firmware e header s u named has (inr (accepts, first, refl)))
      (Loaded-Sweeps u t l rest versions)

-- A search of a directory that may be handed out.
pub record Finds (firmware : ℕ) (d : Directory) (patches : List Patch) (r : FirmwareResult)
    : Type 0 where
  pub listing : IsListing d
  pub loaded : Loaded firmware d.entries patches
  pub added : add_all empty_set (files patches) ≡ ok r.patches
  pub complete : set_complete (some r.patches) ≡ ok 0
  pub versions : r.versions ≡ versions_after no_firmware.versions patches

set_complete-zero : (s : PatchSet) (n : ℕ) → set_complete (some s) ≡ ok n → n ≡ 0
unfolding set_complete
set_complete-zero s n h = ground arith

search-Finds :
    (firmware : ℕ) (d : Directory) (r : FirmwareResult)
    → completed (search_patches d firmware) ≡ ok r
    → (patches : List Patch) × Finds firmware d patches r
unfolding completed search_patches
search-Finds firmware d r h =
    let (t, found, h1) =
      returned (search_patches d firmware) (λ t. set_complete (some t.patches) >>= λ _. ok t) h in
    let (n, complete, h2) = returned (set_complete (some t.patches)) (λ _. ok t) h1 in
    let same : t ≡ r = cc in
    let (listing, entries) =
      search_directory-only read_patch patch_prefix firmware d no_firmware r (rw same at found) in
    let sums = Sweeps-Sums firmware d.entries no_firmware r entries in
    (
      sums.patches,
      record {
        listing = listing;
        loaded = sums.loaded;
        added = sums.added;
        complete = rw (← same) (complete ∙ ap ok (set_complete-zero t.patches n complete));
        versions = sums.versions;
      },
    )

Finds-search :
    (firmware : ℕ) (d : Directory) (patches : List Patch) (r : FirmwareResult)
    → Finds firmware d patches r
    → completed (search_patches d firmware) ≡ ok r
unfolding completed search_patches
Finds-search firmware d patches r f = rw (
  IsListing-search_directory read_patch patch_prefix firmware d no_firmware r f.listing
      (Loaded-Sweeps no_firmware r f.loaded f.added f.versions),
  f.complete,
)

-- wmt_firmware_search with a path that is not empty and an output. Either it returns 0 and stores the set
-- and the versions of `patches`: every call on the directory succeeded, every file of the prefix
-- was regular and held a header of 28 bytes that wmt_patch_parse takes or finds to be of another
-- firmware, `patches` are the former in the directory's order, wmt_patch_set_add took them all one after
-- the other and the set is complete. Or it returns an error, `output` is unchanged, and no such
-- patches exist.
pub firmware_search_cases :
    (directories : List ℕ → Directory) (c : ℕ) (cs : List ℕ) (firmware : ℕ)
    (output : FirmwareResult)
    → ((patches : List Patch) × (r : FirmwareResult) × Finds firmware
          (directories (c ∷ cs))
          patches
          r
        × (firmware_search directories (some (c ∷ cs)) firmware (some output) ≡ (ok 0, some r)))
      ⊎ ((e : ℕ) × (firmware_search directories (some (c ∷ cs)) firmware (some output)
            ≡ (fail e, some output))
          × ((patches : List Patch) (r : FirmwareResult)
              → ¬ Finds firmware (directories (c ∷ cs)) patches r))
unfolding firmware_search
firmware_search_cases directories c cs firmware output =
    by_outcome (completed (search_patches (directories (c ∷ cs)) firmware)) refl
  where
    by_outcome :
        (r : Result FirmwareResult)
        → completed (search_patches (directories (c ∷ cs)) firmware) ≡ r
        → ((patches : List Patch) × (t : FirmwareResult) × Finds firmware
              (directories (c ∷ cs))
              patches
              t
            × (output_of r output ≡ (ok 0, some t)))
          ⊎ ((e : ℕ) × (output_of r output ≡ (fail e, some output))
              × ((patches : List Patch) (t : FirmwareResult)
                  → ¬ Finds firmware (directories (c ∷ cs)) patches t))
    by_outcome (ok t) e =
        let (patches, finds) = search-Finds firmware (directories (c ∷ cs)) t e in
        inl (patches, t, finds, refl)
    by_outcome (fail x) e = inr (
      x,
      refl,
      (λ patches t finds.
          absurd (cc (Finds-search firmware (directories (c ∷ cs)) patches t finds))),
    )
