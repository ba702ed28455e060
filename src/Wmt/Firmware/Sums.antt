-- ===== src/Wmt/Firmware/Sums.antt =====
-- wmt-launcher/firmware.c: a pass over the entries of a directory, as the sum of its patches.
use android_device_xsh_k50sv.Prelude.{
  ℕ, ◌≡◌, inl, inr, true, Bool-cases, List, [], ◌∷◌, ok, returned, ap, sym, ◌∙◌, subst,
}
use android_device_xsh_k50sv.Prelude.CStrings.{starts_with}
use android_device_xsh_k50sv.Wmt.Patch.{PatchSet, add}
use android_device_xsh_k50sv.Wmt.Patch.Parse.{described}
use android_device_xsh_k50sv.Wmt.Patch.AddAll.{add_all}
use android_device_xsh_k50sv.Wmt.Firmware.Directory.{Entry, visit, search_entries}
use android_device_xsh_k50sv.Wmt.Firmware.Candidates.{candidate-IsUsable, search_entries-cons}
use android_device_xsh_k50sv.Wmt.Firmware.Patches.{FirmwareResult, read_patch, patch_prefix}
use android_device_xsh_k50sv.Wmt.Firmware.Loads.{
  HasHeader, Patch, patch_of, Loaded, empty, other, foreign, patch, files, versions_after, Adds,
  read_patch-Adds,
}

-- The search of these entries starts from `s` and ends with `t`, and the same by the description.
abbrev pub Sweeps : ℕ → List Entry → FirmwareResult → FirmwareResult → Type 0
Sweeps firmware es s t = search_entries read_patch patch_prefix firmware es 0 s ≡ ok t

pub record Sums (firmware : ℕ) (es : List Entry) (s t : FirmwareResult) : Type 0 where
  pub patches : List Patch
  pub loaded : Loaded firmware es patches
  pub added : add_all s.patches (files patches) ≡ ok t.patches
  pub versions : t.versions ≡ versions_after s.versions patches

add_all-step :
    (s u t : PatchSet) (ps : List Patch) (header basename : List ℕ)
    → add s (described header basename) ≡ ok u
    → add_all u (files ps) ≡ ok t
    → add_all s (files (patch_of header basename ∷ ps)) ≡ ok t
unfolding add_all
add_all-step s u t ps header basename first rest = rw first rest

Sums-cons :
    (firmware : ℕ) (e : Entry) (es : List Entry) (s u t : FirmwareResult)
    → visit read_patch patch_prefix firmware e s ≡ ok u
    → Sums firmware es u t
    → Sums firmware (e ∷ es) s t
Sums-cons firmware e es s u t h sums = elim (Bool-cases (starts_with patch_prefix e.name)) [
  | inl named ↦
      let (f, status, usable, read) =
        candidate-IsUsable read_patch patch_prefix firmware e s u (rw named at h) in
      let (header, bytes, adds) = read_patch-Adds f status e.name firmware s u read in
      read_in header named (record { file = f; status = status; usable = usable; read = bytes })
        adds
  | inr skipped ↦
      let same : u ≡ s = cc (rw skipped at h) in
      let sums' = subst (λ v. Sums firmware es v t) same sums in
      record {
        patches = sums'.patches;
        loaded = other skipped sums'.loaded;
        added = sums'.added;
        versions = sums'.versions;
      }
]
  where
    read_in :
        (header : List ℕ)
        → starts_with patch_prefix e.name ≡ true
        → HasHeader e 28 header
        → Adds header e.name firmware s u
        → Sums firmware (e ∷ es) s t
    read_in header named has (inl (differs, same)) =
        let sums' = subst (λ v. Sums firmware es v t) (sym same) sums in
        record {
          patches = sums'.patches;
          loaded = foreign header named has differs sums'.loaded;
          added = sums'.added;
          versions = sums'.versions;
        }
    read_in header named has (inr (accepts, adds, versions)) = record {
      patches = patch_of header e.name ∷ sums.patches;
      loaded = patch header named has accepts sums.loaded;
      added = add_all-step s.patches u.patches t.patches sums.patches header e.name adds sums.added;
      versions = sums.versions ∙ ap (λ (v : List (List ℕ)). versions_after v sums.patches) versions;
    }

pub Sweeps-Sums :
    (firmware : ℕ) (es : List Entry) (s t : FirmwareResult)
    → Sweeps firmware es s t
    → Sums firmware es s t
unfolding search_entries add_all
Sweeps-Sums firmware [] s t h =
    let same : s ≡ t = cc in
    record {
      patches = [];
      loaded = empty;
      added = cc;
      versions = ap (λ (r : FirmwareResult). r.versions) (sym same);
    }
Sweeps-Sums firmware (e ∷ es) s t h =
    let (u, first, rest) = search_entries-cons read_patch patch_prefix firmware e es 0 s t h in
    Sums-cons firmware e es s u t first (Sweeps-Sums firmware es u t rest)

pub add_all-described :
    (s t : PatchSet) (ps : List Patch) (header basename : List ℕ)
    → add_all s (files (patch_of header basename ∷ ps)) ≡ ok t
    → (u : PatchSet) × (add s (described header basename) ≡ ok u) × (add_all u (files ps) ≡ ok t)
unfolding add_all
add_all-described s t ps header basename h =
    returned (add s (described header basename)) (λ u. add_all u (files ps)) h
