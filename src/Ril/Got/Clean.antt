-- ===== src/Ril/Got/Clean.antt =====
-- An installation into which nothing breaks.
use android_device_xsh_k50sv.Prelude.{
  ℕ, ◌≡◌, ◌≢◌, refl, ◌∙◌, ap, Bool, true, false, inl, inr, some, ◌==◌, if◌then◌else◌, arith,
  Bool-cases,
}
use android_device_xsh_k50sv.Ril.Attach.{Attach, disabled, active}
use android_device_xsh_k50sv.Ril.Got.{
  Memory, GotEntry, no_faults, is_writable, Installation, verify_got_value, write_got_value,
  write_hooks, published, install_resolved, install_attach_apn_hooks, is_disabled,
}
use android_device_xsh_k50sv.Ril.Got.Install.{Holds}

-- A write that nothing disturbs.
record Writes (e : GotEntry) (value : ℕ) (m : Memory) (outcome : Bool × Memory) : Type 0 where
  succeeds : outcome.0 ≡ true
  words : (a : ℕ) → outcome.1.word a ≡ (if a == e.slot then value else m.word a)
  protections : (p : ℕ) → outcome.1.protection p ≡ m.protection p

Holds-verify :
    (e : GotEntry) (value : ℕ) (m : Memory)
    → Holds e value m
    → verify_got_value e value false m ≡ true
unfolding verify_got_value
Holds-verify e value m h = ground (arith, h.word, h.protection)

write_got_value-Writes :
    (e : GotEntry) (expected desired : ℕ) (m : Memory)
    → Holds e expected m
    → Writes e desired m (write_got_value no_faults e expected desired m)
unfolding write_got_value verify_got_value
write_got_value-Writes e expected desired m h = elim (Bool-cases (is_writable e)) [
  | inl w ↦ record {
    succeeds = ground (arith, h.word, h.protection, w);
    words = λ a. ground (arith, h.word, h.protection, w);
    protections = λ p. ground (arith, h.word, h.protection, w);
  }
  | inr w ↦ record {
    succeeds = ground (arith, h.word, h.protection, w);
    words = λ a. ground (arith, h.word, h.protection, w);
    protections = λ p. ground (arith, h.word, h.protection, w);
  }
]

abbrev pub clean : GotEntry → GotEntry → Installation
clean unsol complete = record {
  resolved = some (unsol, complete);
  unsol_faults = no_faults;
  complete_faults = no_faults;
  maps_fail = false;
  rollback_complete = no_faults;
  rollback_unsol = no_faults;
  rollback_maps_fail = false;
  worker_starts = true;
}

-- Both writes, and the reading after them.
record Hooked (unsol complete : GotEntry) (m : Memory) (outcome : Bool × Memory) : Type 0 where
  succeeds : outcome.0 ≡ true
  words :
      (a : ℕ)
      → outcome.1.word a ≡ (
          if a == complete.slot
          then complete.replacement
          else if a == unsol.slot
          then unsol.replacement
          else m.word a)
  protections : (p : ℕ) → outcome.1.protection p ≡ m.protection p

write_hooks-Hooked :
    (unsol complete : GotEntry) (m : Memory)
    → unsol.slot ≢ complete.slot
    → Holds unsol unsol.original m
    → Holds complete complete.original m
    → Hooked unsol complete m (write_hooks (clean unsol complete) unsol complete m)
write_hooks-Hooked unsol complete m apart u c =
    let first = write_got_value-Writes unsol unsol.original unsol.replacement m u in
    let m1 = (write_got_value no_faults unsol unsol.original unsol.replacement m).1 in
    let second = write_got_value-Writes complete complete.original complete.replacement m1 (record {
      word = ground (arith, first.words complete.slot, c.word);
      protection = first.protections complete.page ∙ c.protection;
    }) in
    let m2 = (write_got_value no_faults complete complete.original complete.replacement m1).1 in
    let has_unsol = Holds-verify unsol unsol.replacement m2 (record {
      word = ground (arith, second.words unsol.slot, first.words unsol.slot);
      protection = second.protections unsol.page ∙ (first.protections unsol.page ∙ u.protection);
    }) in
    let has_complete = Holds-verify complete complete.replacement m2 (record {
      word = ground (arith, second.words complete.slot);
      protection =
          second.protections complete.page ∙ (first.protections complete.page ∙ c.protection);
    }) in
    rw (first.succeeds, second.succeeds, has_unsol, has_complete)
      (record {
        succeeds = refl;
        words = λ a. ground (arith, second.words a, first.words a);
        protections = λ p. second.protections p ∙ first.protections p;
      })

install_resolved-clean :
    (unsol complete : GotEntry) (s : Attach) (m : Memory)
    → unsol.slot ≢ complete.slot
    → (write_hooks (clean unsol complete) unsol complete m).0 ≡ true
    → install_resolved (clean unsol complete) unsol complete s m ≡ (
      true,
      (
        record (published s) { hooks = active },
        (write_hooks (clean unsol complete) unsol complete m).1,
      ),
    )
unfolding install_resolved
install_resolved-clean unsol complete s m apart e =
    let differ : (unsol.slot == complete.slot) ≡ false = ground arith in rw (differ, e)

-- If nothing fails and no other thread stores to the slots, the installation succeeds: with two different
-- slots that hold their originals, the hooks are active afterwards, the two words are replaced, and no other
-- word and no protection differs from before.
pub install_clean :
    (unsol complete : GotEntry) (s : Attach) (m : Memory)
    → s.hooks ≡ disabled
    → unsol.slot ≢ complete.slot
    → Holds unsol unsol.original m
    → Holds complete complete.original m
    → let (success, (s', m')) = install_attach_apn_hooks (clean unsol complete) s m in
      (success ≡ true)
      × (s' ≡ record (published s) { hooks = active })
      × ((a : ℕ)
          → m'.word a ≡ (
              if a == complete.slot
              then complete.replacement
              else if a == unsol.slot
              then unsol.replacement
              else m.word a))
      × ((p : ℕ) → m'.protection p ≡ m.protection p)
unfolding install_attach_apn_hooks
install_clean unsol complete s m off apart u c =
    let idle : is_disabled s.hooks ≡ true = ap is_disabled off in
    let hooked = write_hooks-Hooked unsol complete m apart u c in
    rw
      (
        install_attach_apn_hooks,
        idle,
        install_resolved-clean unsol complete s m apart hooked.succeeds,
      )
      (refl, refl, hooked.words, hooked.protections)
