-- ===== src/Ril/Scan/Only.antt =====
-- ril-shim/k50sv1_ril_shim.c: the loop of findGotEntry, and the one relocation that it looks for.
use android_device_xsh_k50sv.Prelude.{
  ℕ, zero, suc, ◌+◌, ◌≤◌, ◌<◌, ◌≡◌, ◌↔◌, refl, subst, ap, ◌∙◌, Bool, true, false, Bool-cases, inl,
  inr, Option, none, some, List, arith, ◌==◌,
}
use android_device_xsh_k50sv.Ril.Got.{GotEntry}
use android_device_xsh_k50sv.Ril.Scan.{uintptr_max}
use android_device_xsh_k50sv.Ril.Scan.Modules.{GotScan}
use android_device_xsh_k50sv.Ril.Scan.Entries.{
  Process, names_symbol, slot_entry, rela_at, find_entry,
}
use android_device_xsh_k50sv.Ril.Scan.Slots.{
  Names, Describes, names_symbol-Names, slot_entry-Describes, Describes-slot_entry,
}

-- Among the relocations from index `i` on, `n` of them, exactly one names the symbol, and its slot is `e`.
pub record IsOnly (p : Process) (scan : GotScan) (symbol : List ℕ) (replacement i n : ℕ)
    (e : GotEntry) : Type 0 where
  pub index : ℕ
  pub from : i ≤ index
  pub below : index < i + n
  pub names : Names p scan symbol (rela_at p scan index)
  pub described : Describes p scan replacement (rela_at p scan index) e
  pub only : (k : ℕ) → i ≤ k → k < i + n → Names p scan symbol (rela_at p scan k) → k ≡ index

-- None of them names it.
abbrev NoName : Process → GotScan → List ℕ → ℕ → ℕ → Type 0
NoName p scan symbol i n = (k : ℕ) → i ≤ k → k < i + n → ¬ Names p scan symbol (rela_at p scan k)

module _ (p : Process) (scan : GotScan) (symbol : List ℕ) (replacement : ℕ)
    (based : scan.base ≤ uintptr_max) (tabled : scan.strtab ≤ uintptr_max) where
  named_iff :
      (i : ℕ)
      → (names_symbol p scan symbol (rela_at p scan i) ≡ true)
        ↔ Names p scan symbol (rela_at p scan i)
  named_iff i = names_symbol-Names p scan symbol (rela_at p scan i) based tabled

  NoName-step :
      (i n : ℕ)
      → names_symbol p scan symbol (rela_at p scan i) ≡ false
      → NoName p scan symbol i (suc n) ↔ NoName p scan symbol (i + 1) n
  NoName-step i n unnamed = (
    λ none_named k from below. none_named k (omega arith) (omega arith),
    λ none_named k from below names. elim (Bool-cases (k == i)) [
      | inl same ↦
          let e : k ≡ i = ground arith in
          absurd
            (cc ((named_iff i).1 (subst (λ j. Names p scan symbol (rela_at p scan j)) e names)))
      | inr other ↦ none_named k (ground arith) (omega arith) names
    ],
  )

  -- The loop with an entry already found.
  find_entry-found :
      (n i : ℕ) (e f : GotEntry)
      → (find_entry p scan symbol replacement n i (some e) ≡ some f)
        ↔ ((e ≡ f) × NoName p scan symbol i n)
  unfolding find_entry
  find_entry-found zero i e f = (
    λ q. (ground (arith, q), (λ k from below. absurd (omega arith))),
    λ (q, none_named). ap some q,
  )
  find_entry-found (suc n) i e f =
      by_name (names_symbol p scan symbol (rela_at p scan i)) refl
        (slot_entry p scan replacement (rela_at p scan i)) (find_entry-found n (i + 1) e f)
    where
      by_name :
          (b : Bool)
          → names_symbol p scan symbol (rela_at p scan i) ≡ b
          → (o : Option GotEntry)
          → (find_entry p scan symbol replacement n (i + 1) (some e) ≡ some f)
            ↔ ((e ≡ f) × NoName p scan symbol (i + 1) n)
          → (◌≡◌ {A = Option GotEntry}
              (elim b as (λ _. Option GotEntry) [
                | false ↦ find_entry p scan symbol replacement n (i + 1) (some e)
                | true ↦ elim o as (λ _. Option GotEntry) [ none ↦ none | some e' ↦ none ]
              ])
              (some f))
            ↔ ((e ≡ f) × NoName p scan symbol i (suc n))
      by_name false unnamed o ih = (
        λ q. ((ih.0 q).0, (NoName-step i n unnamed).1 (ih.0 q).1),
        λ (q, none_named). ih.1 (q, (NoName-step i n unnamed).0 none_named),
      )
      by_name true named none ih = (
        λ q. absurd (cc),
        λ (q, none_named).
            absurd (none_named i (omega arith) (omega arith) ((named_iff i).0 named)),
      )
      by_name true named (some e') ih = (
        λ q. absurd (cc),
        λ (q, none_named).
            absurd (none_named i (omega arith) (omega arith) ((named_iff i).0 named)),
      )

  IsOnly-step :
      (i n : ℕ) (f : GotEntry)
      → names_symbol p scan symbol (rela_at p scan i) ≡ false
      → IsOnly p scan symbol replacement i (suc n) f ↔ IsOnly p scan symbol replacement (i + 1) n f
  IsOnly-step i n f unnamed = (
    λ o. elim (Bool-cases (o.index == i)) [
      | inl same ↦
          let e : o.index ≡ i = ground arith in
          absurd
            (cc ((named_iff i).1 (subst (λ j. Names p scan symbol (rela_at p scan j)) e o.names)))
      | inr other ↦ record {
        index = o.index;
        from = ground (arith, o.from);
        below = omega (arith, o.below);
        names = o.names;
        described = o.described;
        only = λ k from below names. o.only k (omega arith) (omega arith) names;
      }
    ],
    λ o. record {
      index = o.index;
      from = omega (arith, o.from);
      below = omega (arith, o.below);
      names = o.names;
      described = o.described;
      only = λ k from below names. elim (Bool-cases (k == i)) [
        | inl same ↦
            let e : k ≡ i = ground arith in
            absurd
              (cc ((named_iff i).1 (subst (λ j. Names p scan symbol (rela_at p scan j)) e names)))
        | inr other ↦ o.only k (ground arith) (omega arith) names
      ];
    },
  )

  -- The first relocation names the symbol and has an entry.
  first-IsOnly :
      (i n : ℕ) (e f : GotEntry)
      → names_symbol p scan symbol (rela_at p scan i) ≡ true
      → slot_entry p scan replacement (rela_at p scan i) ≡ some e
      → ((e ≡ f) × NoName p scan symbol (i + 1) n) ↔ IsOnly p scan symbol replacement i (suc n) f
  first-IsOnly i n e f named entry = (
    λ (q, none_named). record {
      index = i;
      from = omega arith;
      below = omega arith;
      names = (named_iff i).0 named;
      described =
          slot_entry-Describes p scan replacement (rela_at p scan i) f based (entry ∙ ap some q);
      only = λ k from below names. elim (Bool-cases (k == i)) [
        | inl same ↦ ground arith
        | inr other ↦ absurd (none_named k (ground arith) (omega arith) names)
      ];
    },
    λ o.
        let here : i ≡ o.index = o.only i (omega arith) (omega arith) ((named_iff i).0 named) in
        let described =
          Describes-slot_entry p scan replacement (rela_at p scan o.index) f based o.described in
        let same : slot_entry p scan replacement (rela_at p scan i) ≡ some f = rw here described in
        (
          ground (arith, same, entry),
          λ k from below names.
              absurd (omega (arith, o.only k (omega arith) (omega arith) names, here)),
        ),
  )

  -- The loop without an entry so far.
  pub find_entry-IsOnly :
      (n i : ℕ) (f : GotEntry)
      → (find_entry p scan symbol replacement n i none ≡ some f)
        ↔ IsOnly p scan symbol replacement i n f
  unfolding find_entry
  find_entry-IsOnly zero i f = (λ q. absurd (cc), λ o. absurd (omega (arith, o.from, o.below)))
  find_entry-IsOnly (suc n) i f =
      by_name (names_symbol p scan symbol (rela_at p scan i)) refl
        (slot_entry p scan replacement (rela_at p scan i)) refl (find_entry-IsOnly n (i + 1) f)
    where
      by_name :
          (b : Bool)
          → names_symbol p scan symbol (rela_at p scan i) ≡ b
          → (o : Option GotEntry) → slot_entry p scan replacement (rela_at p scan i) ≡ o
          → (find_entry p scan symbol replacement n (i + 1) none ≡ some f)
            ↔ IsOnly p scan symbol replacement (i + 1) n f
          → (◌≡◌ {A = Option GotEntry}
              (elim b as (λ _. Option GotEntry) [
                | false ↦ find_entry p scan symbol replacement n (i + 1) none
                | true ↦ elim o as (λ _. Option GotEntry) [
                  | none ↦ none
                  | some e ↦ find_entry p scan symbol replacement n (i + 1) (some e)
                ]
              ])
              (some f))
            ↔ IsOnly p scan symbol replacement i (suc n) f
      by_name false unnamed o entry ih = (
        λ q. (IsOnly-step i n f unnamed).1 (ih.0 q),
        λ only. ih.1 ((IsOnly-step i n f unnamed).0 only),
      )
      by_name true named none entry ih = (
        λ q. absurd (cc),
        λ o.
            let here : i ≡ o.index = o.only i (omega arith) (omega arith) ((named_iff i).0 named) in
            let described =
              Describes-slot_entry p scan replacement (rela_at p scan o.index) f based
                o.described in
            let same : slot_entry p scan replacement (rela_at p scan i) ≡ some f =
              rw here described in
            absurd (cc),
      )
      by_name true named (some e) entry ih = (
        λ q. (first-IsOnly i n e f named entry).0 ((find_entry-found n (i + 1) e f).0 q),
        λ o. (find_entry-found n (i + 1) e f).1 ((first-IsOnly i n e f named entry).1 o),
      )
