-- ===== src/Ril/Shim.antt =====
-- onRequestShim of ril-shim/k50sv1_ril_shim.c: both parts of the shim, and the blob's own onRequest behind.
pub mod Requests
mod Tests
use android_device_xsh_k50sv.Prelude.{ℕ, Bool, Option, List, [], ◌∷◌, if◌then◌else◌}
use android_device_xsh_k50sv.Prelude.Int.{ℤ}
use android_device_xsh_k50sv.Ril.Types.{
  Request, Payload, get_radio_capability, set_radio_capability, set_initial_attach_apn,
}
use android_device_xsh_k50sv.Ril.Capability.{Applied, Effect, forward}
use android_device_xsh_k50sv.Ril.Capability
use android_device_xsh_k50sv.Ril.Attach.{Attach, attach_apn_hooks_active, cache_initial_attach_apn}

pub record Shim : Type 0 where
  pub applied : Applied
  pub attach : Attach

-- An attach APN is copied before it is forwarded.
abbrev pub attach_before : Request → Option Payload → ℕ → ℤ → (ℕ → Bool) → Attach → Attach
attach_before set_initial_attach_apn payload datalen socket alloc s =
    if attach_apn_hooks_active s then cache_initial_attach_apn socket payload datalen alloc s else s
attach_before _ payload datalen socket alloc s = s

unfoldable pub on_request_shim :
    Request → Option Payload → ℕ → ℕ → ℤ → (ℕ → Bool) → Shim → Shim × List Effect
on_request_shim get_radio_capability payload datalen t socket alloc s =
    (s, Capability.get_radio_capability t socket)
on_request_shim set_radio_capability payload datalen t socket alloc s =
    let (applied, effects) = Capability.set_radio_capability payload datalen t socket s.applied in
    (record s { applied = applied }, effects)
on_request_shim request payload datalen t socket alloc s = (
  record s { attach = attach_before request payload datalen socket alloc s.attach },
  forward request payload datalen t socket ∷ [],
)
