-- ===== src/Ril/Got/Install.antt =====
-- The three ends of an installation: hooked, rolled back, or hooks that only forward.
use android_device_xsh_k50sv.Prelude.{
  ℕ, ◌≡◌, ◌⊎◌, inl, inr, refl, ap, Bool, true, false, ◌&&◌, some, ◌==◌, if◌then◌else◌, arith,
  Bool-cases,
}
use android_device_xsh_k50sv.Ril.Attach.{Attach, disabled, active, failed}
use android_device_xsh_k50sv.Ril.Got.{
  Memory, GotEntry, Faults, Installation, verify_got_value, write_got_value, rollback_got_hooks,
  roll_back, write_hooks, published, is_disabled, install_resolved, install_attach_apn_hooks,
}

-- The slot holds this value, and its page has the protection that it had before.
pub record Holds (e : GotEntry) (value : ℕ) (m : Memory) : Type 0 where
  pub word : m.word e.slot ≡ value
  pub protection : m.protection e.page ≡ some e.protection

pub verify-Holds :
    (e : GotEntry) (value : ℕ) (b : Bool) (m : Memory)
    → verify_got_value e value b m ≡ true
    → Holds e value m
unfolding verify_got_value
verify-Holds e value b m h = record { word = ground arith; protection = ground arith }

-- A rollback that reports success has put both slots back.
pub rollback-Holds :
    (f g : Faults) (b : Bool) (unsol complete : GotEntry) (m : Memory)
    → (rollback_got_hooks f g b unsol complete m).0 ≡ true
    → Holds unsol unsol.original (rollback_got_hooks f g b unsol complete m).1
      × Holds complete complete.original (rollback_got_hooks f g b unsol complete m).1
unfolding rollback_got_hooks
rollback-Holds f g b unsol complete m h = (
  verify-Holds unsol unsol.original b _ (and_right _ _ h),
  verify-Holds complete complete.original b _ (and_left _ _ h),
)
  where
    and_left : (a c : Bool) → (a && c) ≡ true → a ≡ true
    and_left true c h = refl
    and_left false c h = h

    and_right : (a c : Bool) → (a && c) ≡ true → c ≡ true
    and_right true c h = h
    and_right false c h = cc

write_hooks-Holds :
    (i : Installation) (unsol complete : GotEntry) (m : Memory)
    → (write_hooks i unsol complete m).0 ≡ true
    → Holds unsol unsol.replacement (write_hooks i unsol complete m).1
      × Holds complete complete.replacement (write_hooks i unsol complete m).1
write_hooks-Holds i unsol complete m =
    by_writes (write_got_value i.unsol_faults unsol unsol.original unsol.replacement m).0
      (write_got_value i.complete_faults complete complete.original complete.replacement
        (write_got_value i.unsol_faults unsol unsol.original unsol.replacement m).1).0
      (write_got_value i.unsol_faults unsol unsol.original unsol.replacement m).1
      (write_got_value i.complete_faults complete complete.original complete.replacement
        (write_got_value i.unsol_faults unsol unsol.original unsol.replacement m).1).1
  where
    by_writes :
        (first second : Bool) (m1 m2 : Memory)
        → let outcome : Bool × Memory =
            if first
            then (
              second
                  && verify_got_value unsol unsol.replacement i.maps_fail m2
                  && verify_got_value complete complete.replacement i.maps_fail m2,
              m2,
            )
            else (false, m1) in
          outcome.0 ≡ true
          → Holds unsol unsol.replacement outcome.1 × Holds complete complete.replacement outcome.1
    by_writes true true m1 m2 h = (
      verify-Holds unsol unsol.replacement i.maps_fail m2 (ground arith),
      verify-Holds complete complete.replacement i.maps_fail m2 (ground arith),
    )
    by_writes true false m1 m2 h = cc
    by_writes false second m1 m2 h = cc

-- How an installation ends, with its state and memory.
pub data Ends (unsol complete : GotEntry) (s : Attach) (m : Memory)
    : Bool × (Attach × Memory) → Type 0 where
  hooked :
      (m' : Memory)
      → Holds unsol unsol.replacement m'
      → Holds complete complete.replacement m'
      → Ends unsol complete s m (true, (record (published s) { hooks = active }, m'))
  rolled_back :
      (m' : Memory)
      → Holds unsol unsol.original m'
      → Holds complete complete.original m'
      → Ends unsol complete s m (false, (record (published s) { hooks = disabled }, m'))
  one_slot :
      unsol.slot ≡ complete.slot
      → Ends unsol complete s m (false, (record s { hooks = disabled }, m))
  only_forward :
      (m' : Memory) → Ends unsol complete s m (false, (record (published s) { hooks = failed }, m'))

roll_back-Ends :
    (i : Installation) (unsol complete : GotEntry) (s : Attach) (m m' : Memory)
    → Ends unsol complete s m (roll_back i unsol complete (published s) m')
roll_back-Ends i unsol complete s m m' =
    by_result
      (rollback_got_hooks i.rollback_complete i.rollback_unsol i.rollback_maps_fail unsol complete
        m')
      (rollback-Holds i.rollback_complete i.rollback_unsol i.rollback_maps_fail unsol complete m')
  where
    by_result :
        (r : Bool × Memory)
        → (r.0 ≡ true → Holds unsol unsol.original r.1 × Holds complete complete.original r.1)
        → Ends unsol complete s m
            (false, (record (published s) { hooks = if r.0 then disabled else failed }, r.1))
    by_result (true, m') h = let (u, c) = h refl in Ends.rolled_back m' u c
    by_result (false, m') h = Ends.only_forward m'

install_resolved-Ends :
    (i : Installation) (unsol complete : GotEntry) (s : Attach) (m : Memory)
    → Ends unsol complete s m (install_resolved i unsol complete s m)
unfolding install_resolved
install_resolved-Ends i unsol complete s m = resolved (Bool-cases (unsol.slot == complete.slot))
  where
    by_hooks :
        (r : Bool × Memory) (starts : Bool)
        → (r.0 ≡ true → Holds unsol unsol.replacement r.1 × Holds complete complete.replacement r.1)
        → Ends unsol complete s m (
            if r.0 && starts
            then (true, (record (published s) { hooks = active }, r.1))
            else roll_back i unsol complete (published s) r.1)
    by_hooks (true, m') true h = let (u, c) = h refl in Ends.hooked m' u c
    by_hooks (true, m') false h = roll_back-Ends i unsol complete s m m'
    by_hooks (false, m') starts h = roll_back-Ends i unsol complete s m m'

    resolved :
        ((unsol.slot == complete.slot) ≡ true) ⊎ ((unsol.slot == complete.slot) ≡ false)
        → Ends unsol complete s m (install_resolved i unsol complete s m)
    resolved (inl same) = rw (install_resolved, same) (Ends.one_slot (ground arith))
    resolved (inr apart) =
        rw (install_resolved, apart)
          (by_hooks (write_hooks i unsol complete m) i.worker_starts
            (write_hooks-Holds i unsol complete m))

-- `installAttachApnHooks` with both entries resolved, whatever fails and whatever other threads store to a
-- slot around its own write. It reports success only when both slots hold the hooks under their first
-- protection and both originals are published; the hooks are then active. Otherwise they are not active:
-- either both slots are back at their originals under their first protection, or the two symbols share a
-- slot and nothing was written, or the state is FAILED with both originals published, so that a hook that
-- stayed can forward.
pub install-Ends :
    (i : Installation) (unsol complete : GotEntry) (s : Attach) (m : Memory)
    → s.hooks ≡ disabled
    → i.resolved ≡ some (unsol, complete)
    → Ends unsol complete s m (install_attach_apn_hooks i s m)
unfolding install_attach_apn_hooks
install-Ends i unsol complete s m off found =
    let idle : is_disabled s.hooks ≡ true = ap is_disabled off in
    rw (install_attach_apn_hooks, idle, found) (install_resolved-Ends i unsol complete s m)
