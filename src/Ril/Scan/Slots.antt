-- ===== src/Ril/Scan/Slots.antt =====
-- ril-shim/k50sv1_ril_shim.c: the relocation of a symbol, and the GOT slot that it gives.
use android_device_xsh_k50sv.Prelude.{
  ℕ, ◌+◌, ◌-◌, ◌%◌, ◌^◌, ◌≤◌, ◌≡◌, ◌≢◌, ◌↔◌, refl, sym, Bool, true, false, Bool-cases, inl, inr,
  Option, none, some, List, [], ◌∷◌, ◌++◌, arith, ltb, ◌==◌, not, ◌||◌, if◌then◌else◌, length,
}
use android_device_xsh_k50sv.Prelude.CStrings.{bytes_eq_iff}
use android_device_xsh_k50sv.Ril.Got.{GotEntry}
use android_device_xsh_k50sv.Ril.Scan.{uintptr_max, in_module}
use android_device_xsh_k50sv.Ril.Scan.Range.{InSome, in_module_iff}
use android_device_xsh_k50sv.Ril.Scan.Modules.{Rela, GotScan}
use android_device_xsh_k50sv.Ril.Scan.Entries.{
  Process, bytes_from, entry_at, symbol_address, name_offset, names_symbol, slot_entry,
}

-- A jump slot of the symbol, whose entry in the symbol table and whose name lie in the blob.
pub record Names (p : Process) (scan : GotScan) (symbol : List ℕ) (rela : Rela) : Type 0 where
  pub kind : rela.info % 2 ^ 32 ≡ 1026
  pub symbol_inside : InSome scan.base (symbol_address p scan rela) 24 scan.phdrs
  pub fits : scan.strtab + name_offset p scan rela ≤ uintptr_max
  pub name_inside :
      InSome scan.base (scan.strtab + name_offset p scan rela) (length symbol + 1) scan.phdrs
  pub text :
      bytes_from p.image (length symbol + 1) (scan.strtab + name_offset p scan rela)
      ≡ symbol ++ 0 ∷ []

-- The entry that the slot of a relocation gives, with what is safe to be hooked.
pub record Describes (p : Process) (scan : GotScan) (replacement : ℕ) (rela : Rela) (e : GotEntry)
    : Type 0 where
  pub slot : e.slot ≡ scan.base + rela.offset
  pub fits : scan.base + rela.offset ≤ uintptr_max
  pub inside : InSome scan.base (scan.base + rela.offset) 8 scan.phdrs
  pub size : ℕ
  pub sized : p.page_size ≡ some size
  pub page : e.page ≡ e.slot - e.slot % size
  pub mapped : p.maps_fail ≡ false
  pub protection : p.memory.protection e.page ≡ some e.protection
  pub original : e.original ≡ p.memory.word e.slot
  pub usable : e.original ≢ 0
  pub unhooked : e.original ≢ replacement
  pub replaced : e.replacement ≡ replacement

pub names_symbol-Names :
    (p : Process) (scan : GotScan) (symbol : List ℕ) (rela : Rela)
    → scan.base ≤ uintptr_max
    → scan.strtab ≤ uintptr_max
    → (names_symbol p scan symbol rela ≡ true) ↔ Names p scan symbol rela
unfolding names_symbol
names_symbol-Names p scan symbol rela h k =
    let (sym, sym_back) = in_module_iff scan.base (symbol_address p scan rela) 24 scan.phdrs h in
    let (name, name_back) =
      in_module_iff scan.base (scan.strtab + name_offset p scan rela) (length symbol + 1) scan.phdrs
        h in
    let (text, text_back) =
      bytes_eq_iff (bytes_from p.image (length symbol + 1) (scan.strtab + name_offset p scan rela))
        (symbol ++ 0 ∷ []) in
    (
      λ e. record {
        kind = ground arith;
        symbol_inside = sym (ground arith);
        fits = ground (arith, k);
        name_inside = name (ground arith);
        text = text (ground arith);
      },
      λ n. ground (
        arith,
        k,
        n.kind,
        sym_back n.symbol_inside,
        n.fits,
        name_back n.name_inside,
        text_back n.text,
      ),
    )

-- What entry_at has read and tested.
record Enters (p : Process) (replacement a b : ℕ) (e : GotEntry) : Type 0 where
  slot : e.slot ≡ a
  page : e.page ≡ b
  mapped : p.maps_fail ≡ false
  protection : p.memory.protection b ≡ some e.protection
  original : e.original ≡ p.memory.word a
  usable : e.original ≢ 0
  unhooked : e.original ≢ replacement
  replaced : e.replacement ≡ replacement

entry_at-Enters :
    (p : Process) (replacement slot page : ℕ) (e : GotEntry)
    → entry_at p replacement slot page ≡ some e
    → Enters p replacement slot page e
entry_at-Enters p replacement slot page e =
    by_tests p.maps_fail refl (p.memory.protection page) refl
  where
    original : ℕ
    original = p.memory.word slot

    by_tests :
        (fails : Bool)
        → p.maps_fail ≡ fails
        → (o : Option ℕ) → p.memory.protection page ≡ o
        → ◌≡◌ {A = Option GotEntry}
            (if fails then none else (elim o as (λ _. Option GotEntry) [
              | none ↦ none
              | some protection ↦
                  if original == 0 || original == replacement
                  then none
                  else some (record {
                    slot = slot;
                    original = original;
                    replacement = replacement;
                    page = page;
                    protection = protection;
                  })
            ]))
            (some e)
        → Enters p replacement slot page e
    by_tests true m o r h = absurd (cc)
    by_tests false m none r h = absurd (cc)
    by_tests false m (some protection) r h =
        elim (Bool-cases (original == 0 || original == replacement)) [
          | inl unsafe ↦ absurd (ground arith)
          | inr safe ↦ record {
            slot = ground arith;
            page = ground arith;
            mapped = m;
            protection = ground arith;
            original = ground arith;
            usable = ground arith;
            unhooked = ground arith;
            replaced = ground arith;
          }
        ]

pub slot_entry-Describes :
    (p : Process) (scan : GotScan) (replacement : ℕ) (rela : Rela) (e : GotEntry)
    → scan.base ≤ uintptr_max
    → slot_entry p scan replacement rela ≡ some e
    → Describes p scan replacement rela e
unfolding slot_entry
slot_entry-Describes p scan replacement rela e h =
    by_tests (ltb (uintptr_max - scan.base) rela.offset) refl
      (not (in_module scan.base scan.phdrs slot 8)) refl p.page_size refl
  where
    slot : ℕ
    slot = scan.base + rela.offset

    by_tests :
        (over : Bool)
        → ltb (uintptr_max - scan.base) rela.offset ≡ over
        → (outside : Bool) → not (in_module scan.base scan.phdrs slot 8) ≡ outside
        → (o : Option ℕ) → p.page_size ≡ o
        → ◌≡◌ {A = Option GotEntry}
            (if over then none else if outside then none else (elim o as (λ _. Option GotEntry) [
              | none ↦ none
              | some size ↦ entry_at p replacement slot (slot - slot % size)
            ]))
            (some e)
        → Describes p scan replacement rela e
    by_tests true q outside r o s t = absurd (cc)
    by_tests false q true r o s t = absurd (cc)
    by_tests false q false r none s t = absurd (cc)
    by_tests false q false r (some size) s t =
        let f = entry_at-Enters p replacement slot (slot - slot % size) e t in
        record {
          slot = f.slot;
          fits = ground arith;
          inside = (in_module_iff scan.base slot 8 scan.phdrs h).0 (ground arith);
          size = size;
          sized = s;
          page = rw (f.slot) f.page;
          mapped = f.mapped;
          protection = rw (f.page) f.protection;
          original = rw (f.slot) f.original;
          usable = f.usable;
          unhooked = f.unhooked;
          replaced = f.replaced;
        }

pub Describes-slot_entry :
    (p : Process) (scan : GotScan) (replacement : ℕ) (rela : Rela) (e : GotEntry)
    → scan.base ≤ uintptr_max
    → Describes p scan replacement rela e
    → slot_entry p scan replacement rela ≡ some e
unfolding slot_entry
Describes-slot_entry p scan replacement rela e h d =
    let inside = (in_module_iff scan.base (scan.base + rela.offset) 8 scan.phdrs h).1 d.inside in
    let low : ltb (uintptr_max - scan.base) rela.offset ≡ false = ground (arith, d.fits) in
    let page : scan.base + rela.offset - (scan.base + rela.offset) % d.size ≡ e.page =
      rw (← d.slot) (sym d.page) in
    let word : p.memory.word (scan.base + rela.offset) ≡ e.original =
      rw (← d.slot) (sym d.original) in
    let safe : (e.original == 0 || e.original == replacement) ≡ false =
      ground (arith, d.usable, d.unhooked) in
    rw (low, inside, d.sized, page, d.mapped, d.protection, word, safe)
      (rw (← d.slot, ← d.replaced, ← d.page) refl)
