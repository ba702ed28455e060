-- ===== src/Ril/Scan/Modules.antt =====
-- ril-shim/k50sv1_ril_shim.c: gotScanCallback, which finds the relocation table of the blob, and its
-- iteration by dl_iterate_phdr.
use android_device_xsh_k50sv.Prelude.{
  ℕ, ◌+◌, ◌/◌, ◌%◌, ◌^◌, Bool, false, not, ◌&&◌, ◌||◌, Option, none, some, List, [], ◌∷◌, ◌==◌,
  if◌then◌else◌,
}
use android_device_xsh_k50sv.Prelude.CStrings.{bytes_eq, codes}
use android_device_xsh_k50sv.Ril.Scan.{Phdr, resolve_dyn_ptr}

-- An entry of the dynamic section, and one of the relocation table.
pub record Dyn : Type 0 where
  pub tag : ℕ
  pub value : ℕ

pub record Rela : Type 0 where
  pub offset : ℕ
  pub info : ℕ

-- What memory holds at an address, read as each of the ELF types: the dynamic section up to DT_NULL, a
-- relocation, the st_name of a symbol, a character.
pub record Image : Type 0 where
  pub dynamic : ℕ → List Dyn
  pub rela : ℕ → Rela
  pub st_name : ℕ → ℕ
  pub byte : ℕ → ℕ

-- struct dl_phdr_info
pub record LoadedModule : Type 0 where
  pub name : Option (List ℕ)
  pub base : ℕ
  pub phdrs : List Phdr

-- GotScan, once it is found.
pub record GotScan : Type 0 where
  pub base : ℕ
  pub phdrs : List Phdr
  pub jmprel : ℕ
  pub jmprel_count : ℕ
  pub symtab : ℕ
  pub strtab : ℕ

abbrev pub real_ril_soname : List ℕ
real_ril_soname = codes "mtk-rilproxy.so"

-- What stands behind the last slash, or `kept` without one.
unfoldable pub after_slash : List ℕ → List ℕ → List ℕ
after_slash [] kept = kept
after_slash (c ∷ cs) kept = after_slash cs (if c == b'/' then cs else kept)

abbrev pub base_name : List ℕ → List ℕ
base_name name = after_slash name name

-- The first header that is PT_DYNAMIC.
abbrev pub dynamic_header : List Phdr → Option Phdr
dynamic_header [] = none
dynamic_header (ph ∷ phdrs) =
    let rest = dynamic_header phdrs in if ph.is_dynamic then some ph else rest

-- The local variables that the dynamic section fills.
pub record Tables : Type 0 where
  pub jmprel : ℕ
  pub pltrelsz : ℕ
  pub symtab : ℕ
  pub strtab : ℕ

abbrev pub no_tables : Tables
no_tables = record { jmprel = 0; pltrelsz = 0; symtab = 0; strtab = 0 }

-- DT_PLTRELSZ is 2, DT_STRTAB 5, DT_SYMTAB 6, DT_JMPREL 23.
abbrev pub noted : Dyn → Tables → Tables
noted d t =
    if d.tag == 23
    then record t { jmprel = d.value }
    else if d.tag == 2
    then record t { pltrelsz = d.value }
    else if d.tag == 6
    then record t { symtab = d.value }
    else if d.tag == 5
    then record t { strtab = d.value }
    else t

-- `none`: the PLT is not RELA. DT_PLTREL is 20, DT_RELA 7.
unfoldable pub read_dynamic : List Dyn → Tables → Option Tables
read_dynamic [] t = some t
read_dynamic (d ∷ ds) t =
    let rest = read_dynamic ds (noted d t) in
    if d.tag == 20 && not (d.value == 7) then none else rest

-- The end of the callback; `none`: nothing is found. An ElfW(Rela) and an ElfW(Sym) have 24 bytes.
unfoldable pub found_tables : ℕ → List Phdr → Tables → Option GotScan
found_tables base phdrs t =
    let jmprel = resolve_dyn_ptr base phdrs t.jmprel t.pltrelsz in
    let symtab = resolve_dyn_ptr base phdrs t.symtab 24 in
    let strtab = resolve_dyn_ptr base phdrs t.strtab 1 in
    if t.pltrelsz == 0 || not (t.pltrelsz % 24 == 0)
    then none
    else if jmprel == 0 || symtab == 0 || strtab == 0
    then none
    else some (record {
      base = base;
      phdrs = phdrs;
      jmprel = jmprel;
      jmprel_count = t.pltrelsz / 24;
      symtab = symtab;
      strtab = strtab;
    })

-- The callback on the module of that name.
unfoldable pub scan_module : Image → LoadedModule → Option GotScan
scan_module image m = elim (dynamic_header m.phdrs) [
  | none ↦ none
  | some ph ↦ elim (read_dynamic (image.dynamic ((m.base + ph.vaddr) % 2 ^ 64)) no_tables) [
    | none ↦ none
    | some t ↦ found_tables m.base m.phdrs t
  ]
]

abbrev pub is_real_ril : LoadedModule → Bool
is_real_ril m = elim m.name [ none ↦ false | some name ↦ bytes_eq (base_name name) real_ril_soname ]

-- dl_iterate_phdr goes on as long as the callback returns 0.
unfoldable pub scan_modules : Image → List LoadedModule → Option GotScan
scan_modules image [] = none
scan_modules image (m ∷ ms) =
    let rest = scan_modules image ms in if is_real_ril m then scan_module image m else rest
