-- ===== src/Ril/Capability.antt =====
-- Part 1 of ril-shim/k50sv1_ril_shim.c: fixed radio capabilities, and the capability transaction as a
-- no-op. A call out of the shim is an `Effect`. The lock `sRcLock` makes each function one step.
pub mod Answers
pub mod Replies
pub mod Requests
pub mod Dedupe
mod Tests
use Prim.Native.String.{String}
use android_device_xsh_k50sv.Prelude.{
  ℕ, zero, suc, Bool, true, false, not, ◌||◌, Option, none, some, List, [], ◌∷◌, ◌==◌,
  if◌then◌else◌, get_or, set,
}
use android_device_xsh_k50sv.Prelude.Int.{ℤ, pos, int_eq}
use android_device_xsh_k50sv.Ril.Types.{
  Request, Phase, Status, RilErrno, Capability, Payload, configured, start, apply, unsol_rsp,
  finish, nothing, succeeded, success, invalid_arguments, capability_size, index_of,
}

abbrev pub slot0_native_raf : ℕ
slot0_native_raf = 0x1400a

abbrev pub slot1_native_raf : ℕ
slot1_native_raf = 0x10008

abbrev pub slot0_modem_uuid : String
slot0_modem_uuid = "modem_sys1_ps1"

abbrev pub slot1_modem_uuid : String
slot1_modem_uuid = "modem_sys1_ps2"

-- RIL_RADIO_CAPABILITY_VERSION
abbrev pub capability_version : ℤ
capability_version = pos 1

-- sLastApplySession and sLastApplySessionValid, with `sim_count` entries each.
pub record Applied : Type 0 where
  pub session : List ℤ
  pub valid : List Bool

abbrev pub no_session : Applied
no_session = record { session = pos 0 ∷ pos 0 ∷ []; valid = false ∷ false ∷ [] }

-- `complete` and `indicate` are sEnv's OnRequestComplete and OnUnsolicitedResponse; `forward` is the
-- blob's own onRequest.
pub data Effect : Type 0 where
  complete : ℕ → RilErrno → Option Capability → Effect
  indicate : Capability → ℤ → Effect
  forward : Request → Option Payload → ℕ → ℕ → ℤ → Effect

abbrev capability : ℕ → String → ℤ → Phase → Status → Capability
capability rat uuid session phase status = record {
  version = capability_version;
  session = session;
  phase = phase;
  rat = rat;
  uuid = uuid;
  status = status;
}

-- `none` is the result false; `out` is never NULL.
unfoldable pub fill_fixed_radio_capability : ℤ → ℤ → Phase → Status → Option Capability
fill_fixed_radio_capability (pos zero) session phase status =
    some (capability slot0_native_raf slot0_modem_uuid session phase status)
fill_fixed_radio_capability (pos (suc zero)) session phase status =
    some (capability slot1_native_raf slot1_modem_uuid session phase status)
fill_fixed_radio_capability socket session phase status = none

unfoldable pub reset_apply_dedupe : ℤ → Applied → Applied
reset_apply_dedupe socket a = elim (index_of socket) [
  | none ↦ a
  | some i ↦ record a { valid = set a.valid i false }
]

-- The answer, and the arrays after it.
unfoldable pub should_send_apply_unsol : ℤ → ℤ → Applied → Bool × Applied
should_send_apply_unsol socket session a = elim (index_of socket) [
  | none ↦ (false, a)
  | some i ↦
      if not (get_or a.valid i false) || not (int_eq (get_or a.session i (pos 0)) session)
      then (true, record { session = set a.session i session; valid = set a.valid i true })
      else (false, a)
]

unfoldable pub reject_radio_capability_request : ℕ → List Effect
reject_radio_capability_request t = complete t invalid_arguments none ∷ []

unfoldable pub get_radio_capability : ℕ → ℤ → List Effect
unfolding reject_radio_capability_request
get_radio_capability t socket =
    elim (fill_fixed_radio_capability socket (pos 0) configured nothing) [
      | none ↦ reject_radio_capability_request t
      | some response ↦ complete t success (some response) ∷ []
    ]

abbrev is_transaction_phase : Phase → Bool
is_transaction_phase start = true
is_transaction_phase apply = true
is_transaction_phase finish = true
is_transaction_phase _ = false

-- The status of the response: FINISH carries the transaction's result.
abbrev response_status : Capability → Status
response_status request = finish_status request.phase
  where
    finish_status : Phase → Status
    finish_status finish = request.status
    finish_status _ = succeeded

-- START forgets the session that was applied last.
abbrev on_start : Phase → ℤ → Applied → Applied
on_start start socket a = reset_apply_dedupe socket a
on_start _ socket a = a

-- APPLY is followed by one indication for each new session.
unfoldable pub announce : Phase → ℤ → ℤ → Applied → Applied × List Effect
announce apply socket session a =
    let (send, after) = should_send_apply_unsol socket session a in
    if send
    then (
      after,
      elim (fill_fixed_radio_capability socket session unsol_rsp succeeded) [
        | none ↦ []
        | some unsol ↦ indicate unsol socket ∷ []
      ],
    )
    else (after, [])
announce _ socket session a = (a, [])

-- From the acceptance of a request on.
unfoldable pub accept : Capability → Capability → ℕ → ℤ → Applied → Applied × List Effect
accept request response t socket a =
    let ready = on_start request.phase socket a in
    let answer = complete t success (some (record response { status = response_status request })) in
    let (after, more) = announce request.phase socket request.session ready in
    (after, answer ∷ more)

unfoldable pub set_radio_capability : Option Payload → ℕ → ℕ → ℤ → Applied → Applied × List Effect
unfolding reject_radio_capability_request
set_radio_capability none datalen t socket a = (a, reject_radio_capability_request t)
set_radio_capability (some payload) datalen t socket a =
    let request = payload.as_capability in
    if not (datalen == capability_size) || not (is_transaction_phase request.phase)
    then (a, reject_radio_capability_request t)
    else elim (fill_fixed_radio_capability socket request.session request.phase succeeded) [
      | none ↦ (a, reject_radio_capability_request t)
      | some response ↦ accept request response t socket a
    ]
