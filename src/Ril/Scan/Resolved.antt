-- ===== src/Ril/Scan/Resolved.antt =====
-- ril-shim/k50sv1_ril_shim.c: what resolving the GOT entries of both hooks comes to.
use android_device_xsh_k50sv.Prelude.{
  ℕ, ◌≤◌, ◌≡◌, ◌↔◌, refl, inl, inr, Option, none, some, List, [], ◌∷◌, arith, All,
}
use android_device_xsh_k50sv.Ril.Got.{GotEntry}
use android_device_xsh_k50sv.Ril.Scan.{uintptr_max}
use android_device_xsh_k50sv.Ril.Scan.Modules.{GotScan, LoadedModule, scan_modules}
use android_device_xsh_k50sv.Ril.Scan.Entries.{
  Process, find_got_entry, unsol_symbol, complete_symbol, resolve_hooks,
}
use android_device_xsh_k50sv.Ril.Scan.Scans.{
  IsBased, IsLoaded, IsScan, InSome-bound, scan_modules-IsScan,
}
use android_device_xsh_k50sv.Ril.Scan.Only.{IsOnly, find_entry-IsOnly}

-- What a scan guarantees about the arithmetic on its addresses.
scan-bounds :
    (modules : List LoadedModule) (scan : GotScan)
    → All IsBased modules
    → IsScan modules scan
    → (scan.base ≤ uintptr_max) × (scan.strtab ≤ uintptr_max)
scan-bounds modules scan based s = (
  rw (s.inside.base_is) (loaded-IsBased modules s.module_of based s.loaded),
  omega (arith, InSome-bound s.module_of.base scan.strtab 1 s.module_of.phdrs s.inside.strings),
)
  where
    loaded-IsBased :
        (ls : List LoadedModule) (m : LoadedModule) → All IsBased ls → IsLoaded m ls → IsBased m
    loaded-IsBased [] m all h = absurd h
    loaded-IsBased (l ∷ ls) m all (inl e) = rw e all.0
    loaded-IsBased (l ∷ ls) m all (inr h) = loaded-IsBased ls m all.1 h

-- findGotEntry on a scan that was found.
find_got_entry-IsOnly :
    (p : Process) (modules : List LoadedModule) (scan : GotScan) (symbol : List ℕ) (replacement : ℕ)
    (e : GotEntry)
    → All IsBased modules
    → IsScan modules scan
    → (find_got_entry p scan symbol replacement ≡ some e)
      ↔ IsOnly p scan symbol replacement 0 scan.jmprel_count e
unfolding find_got_entry
find_got_entry-IsOnly p modules scan symbol replacement e based s =
    let (base, strtab) = scan-bounds modules scan based s in
    find_entry-IsOnly p scan symbol replacement base strtab scan.jmprel_count 0 e

-- The entries of both hooks, resolved before any slot is written, in a process whose modules have a base of 64
-- bits. They are `unsol` and `complete` exactly if a scan was found and, for each symbol, exactly one
-- relocation of the scan's table is a jump slot that names it, and the entry is that of its slot: in
-- the blob, in a mapping, with its page and protection, and a value that is neither 0 nor the hook. The
-- scan that is found is of a loaded module named as the blob, in which all relocations and the start of
-- both other tables lie.
pub resolve_hooks_iff :
    (p : Process) (modules : List LoadedModule) (unsol_hook complete_hook : ℕ)
    (unsol complete : GotEntry)
    → All IsBased modules
    → (resolve_hooks p modules unsol_hook complete_hook ≡ some (unsol, complete)) ↔ (
        (scan : GotScan) × (scan_modules p.image modules ≡ some scan)
        × IsScan modules scan
        × IsOnly p scan unsol_symbol unsol_hook 0 scan.jmprel_count unsol
        × IsOnly p scan complete_symbol complete_hook 0 scan.jmprel_count complete)
unfolding resolve_hooks
resolve_hooks_iff p modules unsol_hook complete_hook unsol complete based = (
  to (scan_modules p.image modules) refl,
  λ (scan, q, s, u, c).
      let first =
        (find_got_entry-IsOnly p modules scan unsol_symbol unsol_hook unsol based s).1 u in
      let second =
        (find_got_entry-IsOnly p modules scan complete_symbol complete_hook complete based s).1 c in
      rw (resolve_hooks, q, first, second) refl,
)
  where
    Pair : Type 0
    Pair = GotEntry × GotEntry

    both : Option GotEntry → Option GotEntry → Option Pair
    both u c = elim u as (λ _. Option Pair) [
      | none ↦ none
      | some unsol ↦ elim c as (λ _. Option Pair) [
        | none ↦ none
        | some complete ↦ some (unsol, complete)
      ]
    ]

    both-some :
        (u c : Option GotEntry)
        → both u c ≡ some (unsol, complete)
        → (u ≡ some unsol) × (c ≡ some complete)
    both-some none c r = absurd (cc)
    both-some (some u) none r = absurd (cc)
    both-some (some u) (some c) r = (ground arith, ground arith)

    to :
        (o : Option GotScan)
        → scan_modules p.image modules ≡ o
        → ◌≡◌ {A = Option Pair}
            (elim o as (λ _. Option Pair) [
              | none ↦ none
              | some scan ↦
                  both
                    (find_got_entry p scan unsol_symbol unsol_hook)
                    (find_got_entry p scan complete_symbol complete_hook)
            ])
            (some (unsol, complete))
        → (scan : GotScan) × (scan_modules p.image modules ≡ some scan)
          × IsScan modules scan
          × IsOnly p scan unsol_symbol unsol_hook 0 scan.jmprel_count unsol
          × IsOnly p scan complete_symbol complete_hook 0 scan.jmprel_count complete
    to none q r = absurd (cc)
    to (some scan) q r =
        let s = scan_modules-IsScan p.image modules scan based q in
        let (u, c) =
          both-some (find_got_entry p scan unsol_symbol unsol_hook)
            (find_got_entry p scan complete_symbol complete_hook) r in
        (
          scan,
          q,
          s,
          (find_got_entry-IsOnly p modules scan unsol_symbol unsol_hook unsol based s).0 u,
          (find_got_entry-IsOnly p modules scan complete_symbol complete_hook complete based s).0 c,
        )
