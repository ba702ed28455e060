-- ===== src/Ril/Capability/Tests.antt =====
-- Runs of the radio capability requests of ril-shim/k50sv1_ril_shim.c: START, then APPLY twice, on slot 0.
use android_device_xsh_k50sv.Prelude.{ℕ, ◌≡◌, ◌≢◌, refl, List, [], ◌∷◌, some, none, ◌<◌, ◌⊎◌}
use android_device_xsh_k50sv.Prelude.Int.{pos}
use android_device_xsh_k50sv.Ril.Types.{
  Phase, Capability, AttachApn, start, apply, unsol_rsp, configured, nothing, succeeded, success,
  sim_count,
}
use android_device_xsh_k50sv.Ril.Capability.{
  no_session, complete, set_radio_capability, get_radio_capability,
}
use android_device_xsh_k50sv.Ril.Capability.Answers.{fixed, Accepts, IsSized}
use android_device_xsh_k50sv.Ril.Capability.Replies.{Answered}
use android_device_xsh_k50sv.Ril.Capability.Requests.{
  rejection, get_radio_capability_cases, set_radio_capability_cases,
}
use android_device_xsh_k50sv.Ril.Capability.Dedupe.{
  Sent, handle, after, last_applied, indications, indications-handle,
}

abbrev no_apn : AttachApn
no_apn = record {
  apn = none;
  protocol = none;
  roaming_protocol = none;
  authtype = pos 0;
  username = none;
  password = none;
  supported_types_bitmask = pos 0;
  bearer_bitmask = pos 0;
  modem_cognitive = pos 0;
  mtu = pos 0;
  mvno_type = none;
  mvno_match_data = none;
  can_handle_ims = pos 0;
}

abbrev sent : Phase → ℕ → Sent
sent phase t = record {
  payload = some (record {
    as_capability = record {
      version = pos 1;
      session = pos 7;
      phase = phase;
      rat = 0;
      uuid = "";
      status = succeeded;
    };
    as_attach_apn = no_apn;
  });
  datalen = 84;
  token = t;
  socket = pos 0;
}

abbrev history : List Sent
history = sent apply 2 ∷ sent start 1 ∷ []

get_radio_capability_cases_example :
    ((i : ℕ) × (pos 1 ≡ pos i)
      × (i < sim_count)
      × (get_radio_capability 5 (pos 1)
          ≡ complete 5 success (some (fixed i (pos 0) configured nothing)) ∷ []))
    ⊎ (((i : ℕ) → i < sim_count → pos 1 ≢ pos i) × (get_radio_capability 5 (pos 1) ≡ rejection 5))
get_radio_capability_cases_example = get_radio_capability_cases 5 (pos 1)

no_session-IsSized : IsSized no_session
no_session-IsSized = record { sessions = refl; flags = refl }

set_radio_capability_cases_example :
    ((i : ℕ) × (request : Capability) × Accepts (sent apply 2).payload 84 (pos 0) i request
      × Answered request 2 i no_session
          (set_radio_capability (sent apply 2).payload 84 2 (pos 0) no_session))
    ⊎ (((i : ℕ) (request : Capability) → ¬ Accepts (sent apply 2).payload 84 (pos 0) i request)
        × (set_radio_capability (sent apply 2).payload 84 2 (pos 0) no_session
            ≡ (no_session, rejection 2)))
set_radio_capability_cases_example =
    set_radio_capability_cases (sent apply 2).payload 84 2 (pos 0) no_session no_session-IsSized

indications-handle_example :
    let out = indications (handle (sent apply 3) (after history)).1 in
    ((i : ℕ) × (request : Capability) × Accepts (sent apply 3).payload 84 (pos 0) i request
      × (request.phase ≡ apply)
      × (last_applied i history ≢ some request.session)
      × (out ≡ (fixed i request.session unsol_rsp succeeded, pos i) ∷ []))
    ⊎ (((i : ℕ) (request : Capability)
          → Accepts (sent apply 3).payload 84 (pos 0) i request
          → request.phase ≡ apply
          → last_applied i history ≡ some request.session)
        × (out ≡ []))
indications-handle_example = indications-handle history (sent apply 3)
