-- ===== src/Ril/Recovery.antt =====
-- The recovery of the attach APN in ril-shim/k50sv1_ril_shim.c as a whole: the worker, the two hooks and the
-- requests that fill the cache, as steps in any order.
pub mod Invariant
pub mod Steps
pub mod Replays
pub mod Tokens
pub mod Limits
pub mod Flight
pub mod Progress
use android_device_xsh_k50sv.Prelude.{ℕ, Bool, Option, List, [], ◌∷◌, none, some}
use android_device_xsh_k50sv.Prelude.Int.{ℤ}
use android_device_xsh_k50sv.Ril.Types.{RilErrno, Payload}
use android_device_xsh_k50sv.Ril.Attach.{
  Attach, Call, cache_initial_attach_apn, complete_hook, unsol_hook,
}
use android_device_xsh_k50sv.Ril.Worker.{Point, look, Readings, worker_step}

pub record System : Type 0 where
  pub point : Point
  pub attach : Attach

-- A call into the shim, or a step of the worker.
pub data Event : Type 0 where
  cache : ℤ → Option Payload → ℕ → (ℕ → Bool) → Event
  complete : ℕ → RilErrno → ℕ → ℕ → Event
  unsol : ℤ → ℕ → ℕ → ℤ → Event
  work : Readings → Event

abbrev pub step : ℕ → Event → System → System
step base (cache socket payload datalen alloc) s = record s {
  attach = cache_initial_attach_apn socket payload datalen alloc s.attach;
}
step base (complete t e response responselen) s = record s {
  attach = (complete_hook base t e response responselen s.attach).0;
}
step base (unsol unsol_response buffer datalen socket) s = record s {
  attach = (unsol_hook unsol_response buffer datalen socket s.attach).0;
}
step base (work r) s =
    let (point, attach) = worker_step base r s.point s.attach in
    record { point = point; attach = attach }

-- The events in the order in which they happen.
abbrev pub run : ℕ → List Event → System → System
run base [] s = s
run base (e ∷ es) s = run base es (step base e s)
