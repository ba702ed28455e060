-- ===== src/Ril/Capability/Answers.antt =====
-- ril-shim/k50sv1_ril_shim.c, part 1: what a radio-capability request may be answered.
use Prim.Native.String.{String}
use android_device_xsh_k50sv.Prelude.{
  ℕ, ◌<◌, ◌≡◌, ◌≢◌, ◌⊎◌, false, Option, none, some, List, [], ◌∷◌, ◌==◌, if◌then◌else◌, get_or,
  length,
}
use android_device_xsh_k50sv.Prelude.Int.{ℤ, pos}
use android_device_xsh_k50sv.Ril.Types.{
  Phase, Status, Capability, Payload, start, apply, unsol_rsp, finish, succeeded, capability_size,
  sim_count,
}
use android_device_xsh_k50sv.Ril.Capability.{
  Applied, Effect, indicate, slot0_native_raf, slot1_native_raf, slot0_modem_uuid, slot1_modem_uuid,
}

-- What slot `i` always reports.
abbrev pub native_raf : ℕ → ℕ
native_raf i = if i == 0 then slot0_native_raf else slot1_native_raf

abbrev pub modem_uuid : ℕ → String
modem_uuid i = if i == 0 then slot0_modem_uuid else slot1_modem_uuid

abbrev pub fixed : ℕ → ℤ → Phase → Status → Capability
fixed i session phase status = record {
  version = pos 1;
  session = session;
  phase = phase;
  rat = native_raf i;
  uuid = modem_uuid i;
  status = status;
}

-- START, APPLY and FINISH.
abbrev pub IsTransaction : Phase → Type 0
IsTransaction phase = (phase ≡ start) ⊎ (phase ≡ apply) ⊎ (phase ≡ finish)

-- A request the shim accepts on slot `i`.
pub record Accepts (given_data : Option Payload) (datalen : ℕ) (socket : ℤ) (i : ℕ)
    (request : Capability) : Type 0 where
  pub given : (payload : Payload) × (given_data ≡ some payload) × (payload.as_capability ≡ request)
  pub sized : datalen ≡ capability_size
  pub transaction : IsTransaction request.phase
  pub on_slot : socket ≡ pos i
  pub in_range : i < sim_count

-- The applied session of a slot, as the two arrays hold it.
abbrev pub applied : Applied → ℕ → Option ℤ
applied a i = if get_or a.valid i false then some (get_or a.session i (pos 0)) else none

-- What a transaction's phase makes of the applied session, and what it announces.
abbrev pub applied_next : Phase → ℤ → Option ℤ → Option ℤ
applied_next start session seen = none
applied_next apply session seen = some session
applied_next _ session seen = seen

abbrev pub IsFresh : Option ℤ → ℤ → Type 0
IsFresh seen session = seen ≢ some session

pub data Announces (i : ℕ) (session : ℤ) (seen : Option ℤ) : Phase → List Effect → Type 0 where
  at_start : Announces i session seen start []
  at_finish : Announces i session seen finish []
  fresh :
      IsFresh seen session
      → Announces i session seen apply (indicate (fixed i session unsol_rsp succeeded) (pos i) ∷ [])
  repeated : seen ≡ some session → Announces i session seen apply []

abbrev pub answer_status : Phase → Status → Status
answer_status finish status = status
answer_status _ status = succeeded

pub record IsSized (a : Applied) : Type 0 where
  pub sessions : length a.session ≡ sim_count
  pub flags : length a.valid ≡ sim_count
