-- ===== src/Ril/Scan/Scans.antt =====
-- ril-shim/k50sv1_ril_shim.c: what gotScanCallback has checked when a scan is found.
use android_device_xsh_k50sv.Prelude.{
  ℕ, ◌+◌, ◌*◌, ◌/◌, ◌%◌, ◌^◌, ◌≤◌, ◌<◌, ◌≡◌, ◌⊎◌, refl, subst, Bool, true, false, inl, inr, Option,
  none, some, List, [], ◌∷◌, arith, ◌==◌, not, ◌||◌, if◌then◌else◌, All,
}
use android_device_xsh_k50sv.Ril.Scan.{Phdr, uintptr_max, resolve_dyn_ptr}
use android_device_xsh_k50sv.Ril.Scan.Range.{InSome, resolve_dyn_ptr_cases}
use android_device_xsh_k50sv.Ril.Scan.Modules.{
  Image, LoadedModule, GotScan, Tables, no_tables, dynamic_header, read_dynamic, found_tables,
  scan_module, is_real_ril, scan_modules,
}

-- The base of a module is an address.
abbrev pub IsBased : LoadedModule → Type 0
IsBased m = m.base ≤ uintptr_max

-- The module is one of the list.
abbrev pub IsLoaded : LoadedModule → List LoadedModule → Type 0
IsLoaded m [] = ⊥
IsLoaded m (l ∷ ls) = (m ≡ l) ⊎ IsLoaded m ls

-- The tables lie in the blob: all relocations, and the start of the others.
pub record IsInside (base : ℕ) (phdrs : List Phdr) (scan : GotScan) : Type 0 where
  pub base_is : scan.base ≡ base
  pub phdrs_are : scan.phdrs ≡ phdrs
  pub some_relocation : 0 < scan.jmprel_count
  pub relocations : InSome base scan.jmprel (24 * scan.jmprel_count) phdrs
  pub symbols : InSome base scan.symtab 24 phdrs
  pub strings : InSome base scan.strtab 1 phdrs

pub record IsScan (modules : List LoadedModule) (scan : GotScan) : Type 0 where
  pub module_of : LoadedModule
  pub loaded : IsLoaded module_of modules
  pub named : is_real_ril module_of ≡ true
  pub inside : IsInside module_of.base module_of.phdrs scan

resolved-InSome :
    (base value len : ℕ) (phdrs : List Phdr)
    → base ≤ uintptr_max
    → (resolve_dyn_ptr base phdrs value len == 0) ≡ false
    → InSome base (resolve_dyn_ptr base phdrs value len) len phdrs
resolved-InSome base value len phdrs h some_address =
    elim (resolve_dyn_ptr_cases base value len phdrs h) [
      | inl (is, fits, inside) ↦ inside
      | inr (inl (is, inside, other)) ↦ inside
      | inr (inr (is, raw, biased)) ↦ absurd (ground arith)
    ]

-- The last byte of an address range in the blob has an address.
pub InSome-bound :
    (base addr len : ℕ) (phdrs : List Phdr) → InSome base addr len phdrs → addr + len ≤ uintptr_max
InSome-bound base addr len [] h = absurd h
InSome-bound base addr len (ph ∷ phdrs) (inl s) = omega (arith, s.fits, s.to_end)
InSome-bound base addr len (ph ∷ phdrs) (inr s) = InSome-bound base addr len phdrs s

found_tables-IsInside :
    (base : ℕ) (phdrs : List Phdr) (t : Tables) (scan : GotScan)
    → base ≤ uintptr_max
    → found_tables base phdrs t ≡ some scan
    → IsInside base phdrs scan
unfolding found_tables
found_tables-IsInside base phdrs t scan h q =
    by_tests (t.pltrelsz == 0 || not (t.pltrelsz % 24 == 0)) refl
      (jmprel == 0 || symtab == 0 || strtab == 0) refl q
  where
    jmprel : ℕ
    jmprel = resolve_dyn_ptr base phdrs t.jmprel t.pltrelsz

    symtab : ℕ
    symtab = resolve_dyn_ptr base phdrs t.symtab 24

    strtab : ℕ
    strtab = resolve_dyn_ptr base phdrs t.strtab 1

    found : GotScan
    found = record {
      base = base;
      phdrs = phdrs;
      jmprel = jmprel;
      jmprel_count = t.pltrelsz / 24;
      symtab = symtab;
      strtab = strtab;
    }

    by_tests :
        (broken : Bool)
        → (t.pltrelsz == 0 || not (t.pltrelsz % 24 == 0)) ≡ broken
        → (unresolved : Bool) → (jmprel == 0 || symtab == 0 || strtab == 0) ≡ unresolved
        → ◌≡◌ {A = Option GotScan}
            (if broken then none else if unresolved then none else some found)
            (some scan)
        → IsInside base phdrs scan
    by_tests true b unresolved u q = absurd (cc)
    by_tests false b true u q = absurd (cc)
    by_tests false b false u q =
        let whole : 24 * (t.pltrelsz / 24) ≡ t.pltrelsz = ground arith in
        let same : found ≡ scan = cc in
        subst (IsInside base phdrs) same (record {
          base_is = refl;
          phdrs_are = refl;
          some_relocation = ground arith;
          relocations = rw whole (resolved-InSome base t.jmprel t.pltrelsz phdrs h (ground arith));
          symbols = resolved-InSome base t.symtab 24 phdrs h (ground arith);
          strings = resolved-InSome base t.strtab 1 phdrs h (ground arith);
        })

scan_module-IsInside :
    (image : Image) (m : LoadedModule) (scan : GotScan)
    → IsBased m
    → scan_module image m ≡ some scan
    → IsInside m.base m.phdrs scan
unfolding scan_module
scan_module-IsInside image m scan based = by_header (dynamic_header m.phdrs)
  where
    by_tables :
        (o : Option Tables)
        → ◌≡◌ {A = Option GotScan}
            (elim o as (λ _. Option GotScan) [
              | none ↦ none
              | some t ↦ found_tables m.base m.phdrs t
            ])
            (some scan)
        → IsInside m.base m.phdrs scan
    by_tables none q = absurd (cc)
    by_tables (some t) q = found_tables-IsInside m.base m.phdrs t scan based q

    by_header :
        (o : Option Phdr)
        → ◌≡◌ {A = Option GotScan}
            (elim o as (λ _. Option GotScan) [
              | none ↦ none
              | some ph ↦
                  elim (read_dynamic (image.dynamic ((m.base + ph.vaddr) % 2 ^ 64)) no_tables)
                    as (λ _. Option GotScan) [
                      | none ↦ none
                      | some t ↦ found_tables m.base m.phdrs t
                    ]
            ])
            (some scan)
        → IsInside m.base m.phdrs scan
    by_header none q = absurd (cc)
    by_header (some ph) q =
        by_tables (read_dynamic (image.dynamic ((m.base + ph.vaddr) % 2 ^ 64)) no_tables) q

-- A scan that is found is one of a loaded module of the blob's name.
pub scan_modules-IsScan :
    (image : Image) (modules : List LoadedModule) (scan : GotScan)
    → All IsBased modules
    → scan_modules image modules ≡ some scan
    → IsScan modules scan
unfolding scan_modules
scan_modules-IsScan image [] scan based q = absurd (cc)
scan_modules-IsScan image (m ∷ ms) scan based q =
    by_name (is_real_ril m) refl q (scan_modules-IsScan image ms scan based.1)
  where
    by_name :
        (b : Bool)
        → is_real_ril m ≡ b
        → (if b then scan_module image m else scan_modules image ms) ≡ some scan
        → (scan_modules image ms ≡ some scan → IsScan ms scan)
        → IsScan (m ∷ ms) scan
    by_name true named q ih = record {
      module_of = m;
      loaded = inl refl;
      named = named;
      inside = scan_module-IsInside image m scan based.0 q;
    }
    by_name false named q ih =
        let s = ih q in
        record {
          module_of = s.module_of;
          loaded = inr s.loaded;
          named = s.named;
          inside = s.inside;
        }
