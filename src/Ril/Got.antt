-- ===== src/Ril/Got.antt =====
-- The hook transaction of ril-shim/k50sv1_ril_shim.c: loadGotValue, verifyGotValue, writeGotValue,
-- rollbackGotHooks and installAttachApnHooks. The entries that findGotEntry resolves (Ril.Scan.Entries) are
-- an argument. So is what happens around a write: calls that fail, and other threads that store to the word.
pub mod Install
pub mod Clean
use android_device_xsh_k50sv.Prelude.{
  ℕ, ◌-◌, ◌%◌, Bool, true, false, not, ◌&&◌, Option, none, some, ◌==◌, if◌then◌else◌,
}
use android_device_xsh_k50sv.Prelude.Bits.{has, with_bit}
use android_device_xsh_k50sv.Ril.Attach.{Attach, HookState, disabled, installing, active, failed}

-- Words by address, and the protection of each page; `none` is in no mapping.
pub record Memory : Type 0 where
  pub word : ℕ → ℕ
  pub protection : ℕ → Option ℕ

pub record GotEntry : Type 0 where
  pub slot : ℕ
  pub original : ℕ
  pub replacement : ℕ
  pub page : ℕ
  pub protection : ℕ

-- One call of writeGotValue: the results of its two mprotect calls, what another thread stores before the
-- exchange and after it, and whether /proc/self/maps can be read.
pub record Faults : Type 0 where
  pub unprotect_fails : Bool
  pub stored_before : Option ℕ
  pub stored_after : Option ℕ
  pub restore_fails : Bool
  pub maps_fail : Bool

abbrev pub no_faults : Faults
no_faults = record {
  unprotect_fails = false;
  stored_before = none;
  stored_after = none;
  restore_fails = false;
  maps_fail = false;
}

abbrev pub store : ℕ → ℕ → Memory → Memory
store slot value m = record m { word = λ a. if a == slot then value else m.word a }

-- mprotect of one page
abbrev pub protect : ℕ → ℕ → Memory → Memory
protect page protection m = record m {
  protection = λ p. if p == page then some protection else m.protection p;
}

abbrev pub stored_by_others : ℕ → Option ℕ → Memory → Memory
stored_by_others slot none m = m
stored_by_others slot (some value) m = store slot value m

abbrev pub load_got_value : GotEntry → Memory → ℕ
load_got_value e m = m.word e.slot

-- mappingProt of the slot equals the entry's protection
abbrev pub has_protection : GotEntry → Bool → Memory → Bool
has_protection e maps_fail m =
    if maps_fail
    then false
    else elim (m.protection e.page) [ none ↦ false | some actual ↦ actual == e.protection ]

unfoldable pub verify_got_value : GotEntry → ℕ → Bool → Memory → Bool
verify_got_value e expected maps_fail m =
    load_got_value e m == expected && has_protection e maps_fail m

-- PROT_WRITE is the bit 2.
abbrev pub is_writable : GotEntry → Bool
is_writable e = has e.protection 1

-- From the exchange to the check that the value stayed.
abbrev pub exchange : Faults → GotEntry → ℕ → ℕ → Memory → Bool × Memory
exchange f e expected desired m =
    let m1 = stored_by_others e.slot f.stored_before m in
    if load_got_value e m1 == expected
    then (let m2 = stored_by_others e.slot f.stored_after (store e.slot desired m1) in
        (load_got_value e m2 == desired, m2))
    else (false, stored_by_others e.slot f.stored_after m1)

-- The protection is put back, and everything is read again.
abbrev pub restore_and_verify : Faults → GotEntry → ℕ → Bool × Memory → Bool × Memory
restore_and_verify f e desired (success, m) =
    if is_writable e
    then (success && verify_got_value e desired f.maps_fail m, m)
    else if f.restore_fails
    then (false, m)
    else (let m' = protect e.page e.protection m in
        (success && verify_got_value e desired f.maps_fail m', m'))

unfoldable pub write_got_value : Faults → GotEntry → ℕ → ℕ → Memory → Bool × Memory
write_got_value f e expected desired m =
    if is_writable e
    then restore_and_verify f e desired (exchange f e expected desired m)
    else if f.unprotect_fails
    then (false, m)
    else restore_and_verify f e desired
        (exchange f e expected desired (protect e.page (with_bit e.protection 1) m))

-- One of the two steps of a rollback: a hook that is there is taken out.
abbrev pub take_out : Faults → GotEntry → Memory → Memory
take_out f e m =
    if load_got_value e m == e.replacement
    then (write_got_value f e e.replacement e.original m).1
    else m

unfoldable pub rollback_got_hooks :
    Faults → Faults → Bool → GotEntry → GotEntry → Memory → Bool × Memory
rollback_got_hooks f g maps_fail unsol complete m =
    let m' = take_out g unsol (take_out f complete m) in
    (
      verify_got_value complete complete.original maps_fail m'
          && verify_got_value unsol unsol.original maps_fail m',
      m',
    )

-- What the calls of one installation run into: `resolved` is what findGotEntry found for both symbols.
pub record Installation : Type 0 where
  pub resolved : Option (GotEntry × GotEntry)
  pub unsol_faults : Faults
  pub complete_faults : Faults
  pub maps_fail : Bool
  pub rollback_complete : Faults
  pub rollback_unsol : Faults
  pub rollback_maps_fail : Bool
  pub worker_starts : Bool

abbrev pub roll_back :
    Installation → GotEntry → GotEntry → Attach → Memory → Bool × (Attach × Memory)
roll_back i unsol complete s m =
    let (rolled_back, m') =
      rollback_got_hooks i.rollback_complete i.rollback_unsol i.rollback_maps_fail unsol complete
        m in
    (false, (record s { hooks = if rolled_back then disabled else failed }, m'))

-- The four steps whose failure ends in a rollback.
abbrev pub write_hooks : Installation → GotEntry → GotEntry → Memory → Bool × Memory
write_hooks i unsol complete m =
    let (first, m1) = write_got_value i.unsol_faults unsol unsol.original unsol.replacement m in
    let (second, m2) =
      write_got_value i.complete_faults complete complete.original complete.replacement m1 in
    if first
    then (
      second
          && verify_got_value unsol unsol.replacement i.maps_fail m2
          && verify_got_value complete complete.replacement i.maps_fail m2,
      m2,
    )
    else (false, m1)

-- Both originals are published before either hook can be reached.
abbrev pub published : Attach → Attach
published s = record s { unsol_published = true; complete_published = true }

unfoldable pub install_resolved :
    Installation → GotEntry → GotEntry → Attach → Memory → Bool × (Attach × Memory)
install_resolved i unsol complete s m =
    if unsol.slot == complete.slot
    then (false, (record s { hooks = disabled }, m))
    else (let (hooked, m') = write_hooks i unsol complete m in
        if hooked && i.worker_starts
        then (true, (record (published s) { hooks = active }, m'))
        else roll_back i unsol complete (published s) m')

abbrev pub is_disabled : HookState → Bool
is_disabled disabled = true
is_disabled _ = false

abbrev pub is_active : HookState → Bool
is_active active = true
is_active _ = false

-- True is the result 0.
unfoldable pub install_attach_apn_hooks : Installation → Attach → Memory → Bool × (Attach × Memory)
install_attach_apn_hooks i s m =
    if is_disabled s.hooks
    then elim i.resolved [
      | none ↦ (false, (record s { hooks = disabled }, m))
      | some entries ↦ install_resolved i entries.0 entries.1 s m
    ]
    else (is_active s.hooks, (s, m))
