-- ===== src/Ril/Scan/Range.antt =====
-- The range check against the segments that it stands for, and resolveDynPtr over it.
use android_device_xsh_k50sv.Prelude.{
  ℕ, ◌+◌, ◌-◌, ◌≤◌, ◌≡◌, ◌↔◌, ◌⊎◌, inl, inr, refl, Bool, true, false, Bool-cases, List, [], ◌∷◌,
  arith, leb, if◌then◌else◌,
}
use android_device_xsh_k50sv.Ril.Scan.{Phdr, uintptr_max, in_segment, in_module, resolve_dyn_ptr}

-- The bytes from `addr` on, `len` of them, are in the segment, which lies in the address space.
pub record InSegment (base addr len : ℕ) (ph : Phdr) : Type 0 where
  pub loads : ph.loads ≡ true
  pub fits : base + ph.vaddr + ph.memsz ≤ uintptr_max
  pub from_start : base + ph.vaddr ≤ addr
  pub to_end : addr + len ≤ base + ph.vaddr + ph.memsz

-- Some segment has them.
abbrev pub InSome : ℕ → ℕ → ℕ → List Phdr → Type 0
InSome base addr len [] = ⊥
InSome base addr len (ph ∷ phdrs) = InSegment base addr len ph ⊎ InSome base addr len phdrs

in_segment_iff :
    (base addr len : ℕ) (ph : Phdr)
    → base ≤ uintptr_max
    → (in_segment base ph addr len ≡ true) ↔ InSegment base addr len ph
unfolding in_segment
in_segment_iff base addr len ph h = (
  λ e. record {
    loads = ground arith;
    fits = ground arith;
    from_start = ground arith;
    to_end = ground arith;
  },
  λ s. ground (arith, s.loads, s.fits, s.from_start, s.to_end),
)

-- `inModule` is exact: it returns true exactly if all `len` bytes from `addr` on lie in one loaded segment
-- of the module, and no sum in the test wraps around.
pub in_module_iff :
    (base addr len : ℕ) (phdrs : List Phdr)
    → base ≤ uintptr_max
    → (in_module base phdrs addr len ≡ true) ↔ InSome base addr len phdrs
unfolding in_module
in_module_iff base addr len [] h = (λ e. cc, λ e. elim e [ ])
in_module_iff base addr len (ph ∷ phdrs) h =
    let (to, from) = in_module_iff base addr len phdrs h in
    let (here, back) = in_segment_iff base addr len ph h in
    by_segment (in_segment base ph addr len) here back to from
  where
    by_segment :
        (b : Bool)
        → (b ≡ true → InSegment base addr len ph)
        → (InSegment base addr len ph → b ≡ true)
        → (in_module base phdrs addr len ≡ true → InSome base addr len phdrs)
        → (InSome base addr len phdrs → in_module base phdrs addr len ≡ true)
        → ((if b then true else in_module base phdrs addr len) ≡ true)
          ↔ (InSegment base addr len ph ⊎ InSome base addr len phdrs)
    by_segment true here back to from = (λ e. inl (here refl), λ w. refl)
    by_segment false here back to from =
        (λ e. inr (to e), λ w. elim w [ inl s ↦ absurd (cc (back s)) | inr s ↦ from s ])

-- A pointer that `resolveDynPtr` resolves is the biased or the raw value, the biased one first, and `len`
-- bytes from it on lie in one loaded segment. It returns 0 if neither does.
pub resolve_dyn_ptr_cases :
    (base value len : ℕ) (phdrs : List Phdr)
    → base ≤ uintptr_max
    → let address = resolve_dyn_ptr base phdrs value len in
      ((address ≡ base + value) × (base + value ≤ uintptr_max) × InSome base address len phdrs)
      ⊎ ((address ≡ value)
          × InSome base address len phdrs
          × ¬ ((base + value ≤ uintptr_max) × InSome base (base + value) len phdrs))
      ⊎ ((address ≡ 0)
          × ¬ InSome base value len phdrs
          × ¬ ((base + value ≤ uintptr_max) × InSome base (base + value) len phdrs))
unfolding resolve_dyn_ptr
resolve_dyn_ptr_cases base value len phdrs h =
    let (biased, biased_back) = in_module_iff base (base + value) len phdrs h in
    let (raw, raw_back) = in_module_iff base value len phdrs h in
    elim (Bool-cases (leb value (uintptr_max - base))) [
      | inl le ↦ elim (Bool-cases (in_module base phdrs (base + value) len)) [
        | inl yes_b ↦ inl (rw (resolve_dyn_ptr, le, yes_b) (refl, ground arith, biased yes_b))
        | inr no_b ↦ elim (Bool-cases (in_module base phdrs value len)) [
          | inl yes_r ↦ inr (
              inl (
                rw (resolve_dyn_ptr, le, no_b, yes_r) (refl, raw yes_r, λ w. cc (biased_back w.1))))
          | inr no_r ↦ inr (
              inr (
                rw (resolve_dyn_ptr, le, no_b, no_r)
                  (refl, λ w. cc (raw_back w), λ w. cc (biased_back w.1))))
        ]
      ]
      | inr gt ↦ elim (Bool-cases (in_module base phdrs value len)) [
        | inl yes_r ↦
            inr (inl (rw (resolve_dyn_ptr, gt, yes_r) (refl, raw yes_r, λ w. ground (arith, w.0))))
        | inr no_r ↦ inr (
            inr (
              rw (resolve_dyn_ptr, gt, no_r)
                (refl, λ w. cc (raw_back w), λ w. ground (arith, w.0))))
      ]
    ]
