-- ===== src/Ril/Capability/Requests.antt =====
-- Every capability request on every branch.
use android_device_xsh_k50sv.Prelude.{
  ℕ, zero, suc, ◌<◌, ◌≡◌, ◌≢◌, refl, ◌⊎◌, inl, inr, ◌↔◌, true, Option, none, some, List, [], ◌∷◌,
  arith,
}
use android_device_xsh_k50sv.Prelude.Int.{ℤ, pos, negsuc}
use android_device_xsh_k50sv.Ril.Types.{
  Phase, Capability, Payload, configured, start, apply, unsol_rsp, finish, unknown, nothing,
  succeeded, success, invalid_arguments, capability_size, sim_count,
}
use android_device_xsh_k50sv.Ril.Capability.{
  Applied, Effect, complete, set_radio_capability, get_radio_capability, accept,
  fill_fixed_radio_capability, reject_radio_capability_request, is_transaction_phase,
}
use android_device_xsh_k50sv.Ril.Capability.Answers.{fixed, IsTransaction, Accepts, IsSized}
use android_device_xsh_k50sv.Ril.Capability.Replies.{Answered, accept-Answered}

abbrev pub rejection : ℕ → List Effect
rejection t = complete t invalid_arguments none ∷ []

pub IsTransaction-iff : (phase : Phase) → (is_transaction_phase phase ≡ true) ↔ IsTransaction phase
IsTransaction-iff start = ground arith
IsTransaction-iff apply = ground arith
IsTransaction-iff finish = ground arith
IsTransaction-iff configured = ground arith
IsTransaction-iff unsol_rsp = ground arith
IsTransaction-iff (unknown n) = ground arith

-- `getRadioCapability` answers a request of either slot with the slot's native family, as configured, and
-- a request of any other socket with RIL_E_INVALID_ARGUMENTS: one completion, and no other effect.
pub get_radio_capability_cases :
    (t : ℕ) (socket : ℤ)
    → ((i : ℕ) × (socket ≡ pos i)
        × (i < sim_count)
        × (get_radio_capability t socket
            ≡ complete t success (some (fixed i (pos 0) configured nothing)) ∷ []))
      ⊎ (((i : ℕ) → i < sim_count → socket ≢ pos i) × (get_radio_capability t socket ≡ rejection t))
unfolding get_radio_capability fill_fixed_radio_capability reject_radio_capability_request
get_radio_capability_cases t (pos zero) = inl (0, refl, omega arith, refl)
get_radio_capability_cases t (pos (suc zero)) = inl (1, refl, omega arith, refl)
get_radio_capability_cases t (pos (suc (suc n))) = inr (λ i h e. ground arith, refl)
get_radio_capability_cases t (negsuc n) = inr (λ i h e. cc, refl)

pub set-missing :
    (datalen t : ℕ) (socket : ℤ) (a : Applied)
    → set_radio_capability none datalen t socket a ≡ (a, rejection t)
unfolding set_radio_capability reject_radio_capability_request
set-missing datalen t socket a = refl

pub set-some :
    (p : Payload) (datalen t : ℕ) (socket : ℤ) (a : Applied)
    → let request = p.as_capability in
      ((i : ℕ) × (datalen ≡ capability_size)
        × (socket ≡ pos i)
        × (i < sim_count)
        × IsTransaction request.phase
        × (set_radio_capability (some p) datalen t socket a
            ≡ accept request (fixed i request.session request.phase succeeded) t (pos i) a))
      ⊎ (¬ (
            (datalen ≡ capability_size)
            × IsTransaction request.phase
            × ((i : ℕ) × (socket ≡ pos i) × (i < sim_count)))
          × (set_radio_capability (some p) datalen t socket a ≡ (a, rejection t)))
unfolding set_radio_capability reject_radio_capability_request fill_fixed_radio_capability
set-some p datalen t (pos zero) a = ground (arith, IsTransaction-iff p.as_capability.phase)
set-some p datalen t (pos (suc zero)) a = ground (arith, IsTransaction-iff p.as_capability.phase)
set-some p datalen t (pos (suc (suc n))) a = ground (arith, IsTransaction-iff p.as_capability.phase)
set-some p datalen t (negsuc n) a = ground (arith, IsTransaction-iff p.as_capability.phase)

pub Accepts-some :
    (p : Payload) (datalen : ℕ) (socket : ℤ) (i : ℕ) (request : Capability)
    → Accepts (some p) datalen socket i request
    → (datalen ≡ capability_size)
      × IsTransaction p.as_capability.phase
      × ((j : ℕ) × (socket ≡ pos j) × (j < sim_count))
Accepts-some p datalen socket i request h = let (q, e, e2) = h.given in ground arith

-- `setRadioCapability` on every branch. START, APPLY and FINISH of the right size on either slot are
-- accepted: one successful completion with the slot's native family, then at most one indication, on an
-- APPLY whose session is not the one applied last on the slot. Anything else is completed once with
-- RIL_E_INVALID_ARGUMENTS and changes nothing. No request reaches the blob.
pub set_radio_capability_cases :
    (payload : Option Payload) (datalen t : ℕ) (socket : ℤ) (a : Applied)
    → IsSized a
    → ((i : ℕ) × (request : Capability) × Accepts payload datalen socket i request
        × Answered request t i a (set_radio_capability payload datalen t socket a))
      ⊎ (((i : ℕ) (request : Capability) → ¬ Accepts payload datalen socket i request)
          × (set_radio_capability payload datalen t socket a ≡ (a, rejection t)))
set_radio_capability_cases none datalen t socket a s =
    inr (λ i request h. let (p, e, e2) = h.given in cc, set-missing datalen t socket a)
set_radio_capability_cases (some p) datalen t socket a s = elim (set-some p datalen t socket a) [
  | inl w ↦
      let (i, h, at, lt, tx, e) = w in
      inl (
        i,
        p.as_capability,
        record {
          given = (p, refl, refl);
          sized = h;
          transaction = tx;
          on_slot = at;
          in_range = lt;
        },
        rw e (accept-Answered p.as_capability t i a s lt tx),
      )
  | inr w ↦ inr (λ i request h. w.0 (Accepts-some p datalen socket i request h), w.1)
]
