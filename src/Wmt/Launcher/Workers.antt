-- ===== src/Wmt/Launcher/Workers.antt =====
-- wmt-launcher/main.c: what the launcher holds, and which calls on the log worker it may then make.
use android_device_xsh_k50sv.Prelude.{
  ℕ, ◌≡◌, inl, inr, refl, ap, ◌∙◌, Bool, true, false, Bool-cases, not, Option, none, some, List, [],
  ◌∷◌, ◌++◌, arith, ◌==◌, if◌then◌else◌, Result, ok, fail,
}
use android_device_xsh_k50sv.Prelude.CStrings.{bytes_eq}
use android_device_xsh_k50sv.Wmt.Loader.{is_yes}
use android_device_xsh_k50sv.Wmt.Launcher.Controls.{
  Controls, Requests, ControlCall, join_log, start_log, disable_log, set_dump, stop_firmware_log,
  start_firmware_log, stopped_log, check_log, check_dump, check_optional_controls,
}

-- A release that failed.
pub data Failure : Type 0 where
  not_unbound not_joined not_withdrawn not_closed : Failure

-- What the process still has to release, and which releases have failed.
pub record Resources : Type 0 where
  pub device : Bool
  pub session : Option ℕ
  pub ready : Bool
  pub power : Bool
  pub log : Bool
  pub failures : List Failure

-- Nothing is left to be released.
abbrev pub nothing_but : List Failure → Resources
nothing_but failures = record {
  device = false;
  session = none;
  ready = false;
  power = false;
  log = false;
  failures = failures;
}

-- A call is allowed, and leads to `r`.
abbrev pub allowed : Bool → Resources → Option Resources
allowed b r = if b then some r else none

-- Logging is switched off, and a worker started, only when no worker runs.
abbrev pub control_call : ControlCall → Resources → Option Resources
control_call (join_log e) r = allowed r.log (if e == 0 then record r { log = false } else r)
control_call (start_log e) r = allowed (not r.log) (if e == 0 then record r { log = true } else r)
control_call disable_log r = allowed (not r.log) r
control_call (set_dump value) r = some r

-- Calls one after the other, each of them allowed.
module _ {A : Type 0} (call : A → Resources → Option Resources) where
  abbrev pub replay : List A → Resources → Option Resources
  replay [] r = some r
  replay (a ∷ calls) r = elim (call a r) [ none ↦ none | some t ↦ replay calls t ]

  abbrev then_replay : List A → Option Resources → Option Resources
  then_replay calls none = none
  then_replay calls (some r) = replay calls r

  pub replay-append :
      (xs ys : List A) (s t : Resources) → replay xs s ≡ some t → replay (xs ++ ys) s ≡ replay ys t
  replay-append [] ys s t h = ap (then_replay ys) h
  replay-append (x ∷ xs) ys s t h = by_call (call x s) (λ u. replay-append xs ys u t) h
    where
      by_call :
          (o : Option Resources)
          → ((u : Resources) → replay xs u ≡ some t → replay (xs ++ ys) u ≡ replay ys t)
          → then_replay xs o ≡ some t
          → then_replay (xs ++ ys) o ≡ replay ys t
      by_call none ih h = absurd (cc)
      by_call (some u) ih h = ih u h

abbrev pub control_calls : List ControlCall → Resources → Option Resources
control_calls = replay control_call

abbrev pub with_log : Resources → Controls → Resources
with_log r c = record r { log = c.created }

start_firmware_log-calls :
    (r : Requests) (c : Controls) (s : Resources)
    → s.log ≡ c.created
    → control_calls (start_firmware_log r c).1 s ≡ some (with_log s (start_firmware_log r c).0)
unfolding start_firmware_log
start_firmware_log-calls r c s h = ground (arith, h)

pub stop_firmware_log-calls :
    (r : Requests) (c : Controls) (s : Resources)
    → s.log ≡ c.created
    → control_calls (stop_firmware_log r c).2 s ≡ some (with_log s (stop_firmware_log r c).1)
unfolding stop_firmware_log
stop_firmware_log-calls r c s h = ground (arith, h)

check_log-calls :
    (r : Requests) (c : Controls) (s : Resources)
    → s.log ≡ c.created
    → control_calls (check_log r c).1 s ≡ some (with_log s (check_log r c).0)
unfolding check_log
check_log-calls r c s h = elim (Bool-cases (is_yes r.fwlog)) [
  | inl wanted ↦ rw wanted (start_firmware_log-calls r c s h)
  | inr unwanted ↦ rw unwanted (elim (Bool-cases (bytes_eq r.fwlog c.fwlog)) [
    | inl same ↦ rw same (ground (arith, h))
    | inr changed ↦ rw changed (by_stop (stop_firmware_log r c) (stop_firmware_log-calls r c s h))
  ])
]
  where
    by_stop :
        (t : Result ℕ × Controls × List ControlCall)
        → control_calls t.2 s ≡ some (with_log s t.1)
        → control_calls (stopped_log r t).1 s ≡ some (with_log s (stopped_log r t).0)
    by_stop (ok n, d, calls) k = k
    by_stop (fail e, d, calls) k = k

check_dump-calls :
    (r : Requests) (c : Controls) (s : Resources)
    → s.log ≡ c.created
    → control_calls (check_dump r c).1 s ≡ some (with_log s (check_dump r c).0)
unfolding check_dump
check_dump-calls r c s h = ground (arith, h)

-- One check of the controls in main's loop.
pub check_optional_controls-calls :
    (r : Requests) (c : Controls) (s : Resources)
    → s.log ≡ c.created
    → control_calls (check_optional_controls r c).1 s
      ≡ some (with_log s (check_optional_controls r c).0)
unfolding check_optional_controls
check_optional_controls-calls r c s h =
    let (logged, calls) = check_log r c in
    replay-append control_call calls (check_dump r logged).1 s (with_log s logged)
      (check_log-calls r c s h)
    ∙ check_dump-calls r logged (with_log s logged) refl
