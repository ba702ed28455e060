-- ===== src/Ril/Attach/Resets.antt =====
-- The hook behind every unsolicited response.
use android_device_xsh_k50sv.Prelude.{
  ℕ, ◌<◌, ◌≡◌, refl, ◌⊎◌, inl, inr, Bool, true, false, Bool-cases, ◌&&◌, List, [], ◌∷◌, ◌++◌,
  get_or, set, arith, if◌then◌else◌, ltb,
}
use android_device_xsh_k50sv.Prelude.Int.{ℤ, pos, negsuc, int_eq, int_eq_iff}
use android_device_xsh_k50sv.Ril.Types.{sim_count}
use android_device_xsh_k50sv.Ril.Attach.{
  Attach, Call, signal, real_unsol, unsol_reset_attach_apn, attach_apn_hooks_active, note_reset,
  unsol_hook,
}

-- A reset indication that asks for a request: the hooks are active and the slot has a cached APN.
pub record Resets (code socket : ℤ) (s : Attach) (i : ℕ) : Type 0 where
  pub active : attach_apn_hooks_active s ≡ true
  pub is_reset : code ≡ unsol_reset_attach_apn
  pub on_slot : socket ≡ pos i
  pub in_range : i < sim_count
  pub has_apn : get_or s.cached i false ≡ true

note_reset_cases :
    (code socket : ℤ) (s : Attach)
    → ((i : ℕ) × Resets code socket s i
        × (note_reset code socket s ≡ (record s { pending = set s.pending i true }, signal ∷ [])))
      ⊎ (((i : ℕ) → ¬ Resets code socket s i) × (note_reset code socket s ≡ (s, [])))
unfolding note_reset
note_reset_cases code (negsuc n) s = inr (λ i h. absurd (cc h.on_slot), refl)
note_reset_cases code (pos i) s = elim (Bool-cases (ltb i sim_count)) [
  | inr out ↦ inr (λ j h. ground (arith, h.on_slot, h.in_range), rw (note_reset, out))
  | inl slot ↦
      elim (Bool-cases (
        attach_apn_hooks_active s
        && int_eq code unsol_reset_attach_apn
        && get_or s.cached i false)) [
          | inl asks ↦ inl (
            i,
            record {
              active = ground (arith, asks);
              is_reset = ground (arith, asks, int_eq_iff code unsol_reset_attach_apn);
              on_slot = refl;
              in_range = ground arith;
              has_apn = ground (arith, asks);
            },
            rw (note_reset, slot, asks),
          )
          | inr silent ↦ inr (
            λ j h. ground (
              arith,
              silent,
              h.active,
              h.has_apn,
              h.on_slot,
              h.is_reset,
              int_eq_iff code unsol_reset_attach_apn,
            ),
            rw (note_reset, slot, silent),
          )
        ]
]

-- `unsolHook` on every branch: each response is forwarded once, unchanged and last, as soon as the original
-- is published. A reset indication of a slot that has a cached APN, with active hooks, marks the slot pending
-- and wakes the worker; no other response changes anything.
pub unsol_hook_cases :
    (code : ℤ) (buffer datalen : ℕ) (socket : ℤ) (s : Attach)
    → let forwarded =
        if s.unsol_published then real_unsol code buffer datalen socket ∷ [] else [] in
      ((i : ℕ) × Resets code socket s i
        × (unsol_hook code buffer datalen socket s
            ≡ (record s { pending = set s.pending i true }, signal ∷ forwarded)))
      ⊎ (((i : ℕ) → ¬ Resets code socket s i)
          × (unsol_hook code buffer datalen socket s ≡ (s, forwarded)))
unfolding unsol_hook
unsol_hook_cases code buffer datalen socket s = elim (note_reset_cases code socket s) [
  | inl w ↦ inl (w.0, w.1, rw (unsol_hook, w.2) (after_signal _ _ s.unsol_published))
  | inr w ↦ inr (w.0, rw (unsol_hook, w.1) (unsignalled _ _ s.unsol_published))
]
  where
    after_signal :
        (s' : Attach) (call : Call) (b : Bool)
        → ◌≡◌ {A = Attach × List Call}
            (s', if b then (signal ∷ []) ++ call ∷ [] else signal ∷ [])
            (s', signal ∷ (if b then call ∷ [] else []))
    after_signal s' call true = refl
    after_signal s' call false = refl

    unsignalled :
        (s' : Attach) (call : Call) (b : Bool)
        → ◌≡◌ {A = Attach × List Call}
            (s', if b then [] ++ call ∷ [] else [])
            (s', if b then call ∷ [] else [])
    unsignalled s' call true = refl
    unsignalled s' call false = refl
