-- ===== src/Ril/Scan.antt =====
-- inModule and resolveDynPtr of ril-shim/k50sv1_ril_shim.c, which keep every address that the search for the
-- GOT entries reads inside the blob's own segments. Addresses and sizes are 64-bit words.
pub mod Range
pub mod Modules
pub mod Entries
pub mod Scans
pub mod Slots
pub mod Only
pub mod Resolved
mod Tests
use android_device_xsh_k50sv.Prelude.{
  ℕ, ◌+◌, ◌-◌, ◌^◌, Bool, true, false, not, ◌&&◌, ◌||◌, List, [], ◌∷◌, ltb, leb, if◌then◌else◌,
}

-- A program header: whether it is PT_LOAD or PT_DYNAMIC, p_vaddr and p_memsz.
pub record Phdr : Type 0 where
  pub loads : Bool
  pub is_dynamic : Bool
  pub vaddr : ℕ
  pub memsz : ℕ

abbrev pub uintptr_max : ℕ
uintptr_max = 2 ^ 64 - 1

-- One round of the loop: the range lies in this segment.
unfoldable pub in_segment : ℕ → Phdr → ℕ → ℕ → Bool
in_segment base ph addr len =
    if not ph.loads
    then false
    else if ltb (uintptr_max - base) ph.vaddr
    then false
    else (let start = base + ph.vaddr in
        if ltb (uintptr_max - start) ph.memsz
        then false
        else (let end = start + ph.memsz in leb start addr && leb addr end && leb len (end - addr)))

unfoldable pub in_module : ℕ → List Phdr → ℕ → ℕ → Bool
in_module base [] addr len = false
in_module base (ph ∷ phdrs) addr len =
    if in_segment base ph addr len then true else in_module base phdrs addr len

-- 0 is no address.
unfoldable pub resolve_dyn_ptr : ℕ → List Phdr → ℕ → ℕ → ℕ
resolve_dyn_ptr base phdrs value len =
    if leb value (uintptr_max - base) && in_module base phdrs (base + value) len
    then base + value
    else if in_module base phdrs value len
    then value
    else 0
