-- ===== src/Ril/Scan/Entries.antt =====
-- ril-shim/k50sv1_ril_shim.c: findGotEntry, which resolves the GOT slot of a symbol without writing, and
-- the part of installAttachApnHooks that resolves both.
use android_device_xsh_k50sv.Prelude.{
  ℕ, zero, suc, ◌+◌, ◌-◌, ◌*◌, ◌/◌, ◌%◌, ◌^◌, Bool, true, false, not, ◌&&◌, ◌||◌, Option, none,
  some, List, [], ◌∷◌, ◌++◌, ltb, leb, ◌==◌, if◌then◌else◌, length,
}
use android_device_xsh_k50sv.Prelude.CStrings.{bytes_eq, codes}
use android_device_xsh_k50sv.Ril.Got.{Memory, GotEntry}
use android_device_xsh_k50sv.Ril.Scan.{uintptr_max, in_module}
use android_device_xsh_k50sv.Ril.Scan.Modules.{Rela, Image, LoadedModule, GotScan, scan_modules}

-- Memory, as words and as ELF tables, the page size that sysconf gives, and whether the maps can be read.
pub record Process : Type 0 where
  pub memory : Memory
  pub image : Image
  pub page_size : Option ℕ
  pub maps_fail : Bool

-- R_AARCH64_JUMP_SLOT
abbrev pub jump_slot : ℕ
jump_slot = 1026

abbrev pub bytes_from : Image → ℕ → ℕ → List ℕ
bytes_from image zero address = []
bytes_from image (suc n) address = image.byte address ∷ bytes_from image n (address + 1)

-- `(void *)0`, or a slot that is hooked already, is no original.
abbrev pub entry_at : Process → ℕ → ℕ → ℕ → Option GotEntry
entry_at p replacement slot page =
    let original = p.memory.word slot in
    if p.maps_fail then none else (elim (p.memory.protection page) [
      | none ↦ none
      | some protection ↦
          if original == 0 || original == replacement
          then none
          else some (record {
            slot = slot;
            original = original;
            replacement = replacement;
            page = page;
            protection = protection;
          })
    ])

module _ (p : Process) (scan : GotScan) where
  -- `&scan->symtab[symIndex]`
  abbrev pub symbol_address : Rela → ℕ
  symbol_address rela = (scan.symtab + 24 * (rela.info / 2 ^ 32 % 2 ^ 32)) % 2 ^ 64

  abbrev pub name_offset : Rela → ℕ
  name_offset rela = p.image.st_name (symbol_address rela)

  -- No `continue` is reached: the relocation is a jump slot of the symbol.
  unfoldable pub names_symbol : List ℕ → Rela → Bool
  names_symbol symbol rela =
      rela.info % 2 ^ 32 == jump_slot
      && in_module scan.base scan.phdrs (symbol_address rela) 24
      && leb (name_offset rela) (uintptr_max - scan.strtab)
      && in_module scan.base scan.phdrs (scan.strtab + name_offset rela) (length symbol + 1)
      && bytes_eq (bytes_from p.image (length symbol + 1) (scan.strtab + name_offset rela))
          (symbol ++ 0 ∷ [])

  -- From the slot's address to its value; `none` is `return false`.
  unfoldable pub slot_entry : ℕ → Rela → Option GotEntry
  slot_entry replacement rela =
      let slot = scan.base + rela.offset in
      if ltb (uintptr_max - scan.base) rela.offset
      then none
      else if not (in_module scan.base scan.phdrs slot 8)
      then none
      else (elim p.page_size [
        | none ↦ none
        | some size ↦ entry_at p replacement slot (slot - slot % size)
      ])

  abbrev pub rela_at : ℕ → Rela
  rela_at i = p.image.rela (scan.jmprel + 24 * i)

  -- The loop with `n` rounds left, from index i on, and the entry found so far.
  unfoldable pub find_entry : List ℕ → ℕ → ℕ → ℕ → Option GotEntry → Option GotEntry
  find_entry symbol replacement zero i found = found
  find_entry symbol replacement (suc n) i found = elim (names_symbol symbol (rela_at i)) [
    | false ↦ find_entry symbol replacement n (i + 1) found
    | true ↦ elim (slot_entry replacement (rela_at i)) [
      | none ↦ none
      | some e ↦ elim found [
        | some first ↦ none
        | none ↦ find_entry symbol replacement n (i + 1) (some e)
      ]
    ]
  ]

  unfoldable pub find_got_entry : List ℕ → ℕ → Option GotEntry
  find_got_entry symbol replacement = find_entry symbol replacement scan.jmprel_count 0 none

abbrev pub unsol_symbol : List ℕ
unsol_symbol = codes "RIL_onUnsolicitedResponse"

abbrev pub complete_symbol : List ℕ
complete_symbol = codes "RIL_onRequestComplete"

-- Both entries, from the scan to the comparison of their slots.
unfoldable pub resolve_hooks : Process → List LoadedModule → ℕ → ℕ → Option (GotEntry × GotEntry)
resolve_hooks p modules unsol_hook complete_hook = elim (scan_modules p.image modules) [
  | none ↦ none
  | some scan ↦ elim (find_got_entry p scan unsol_symbol unsol_hook) [
    | none ↦ none
    | some unsol ↦ elim (find_got_entry p scan complete_symbol complete_hook) [
      | none ↦ none
      | some complete ↦ some (unsol, complete)
    ]
  ]
]
