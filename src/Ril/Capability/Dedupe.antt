-- ===== src/Ril/Capability/Dedupe.antt =====
-- A history of capability requests, and its indications.
use native.Mathlib.Decide.{ℕ_discrete}
use android_device_xsh_k50sv.Prelude.{
  ℕ, zero, suc, ◌<◌, ◌≡◌, ◌≢◌, refl, sym, subst, ◌∙◌, ◌⊎◌, inl, inr, ◌↔◌, Option, none, some, List,
  [], ◌∷◌, ◌==◌, if◌then◌else◌, arith, ap, Option-cases, ◌&&◌,
}
use android_device_xsh_k50sv.Prelude.Int.{ℤ, pos, int_eq, int_eq_iff}
use android_device_xsh_k50sv.Ril.Types.{
  Phase, Capability, Payload, apply, unsol_rsp, succeeded, capability_size, sim_count,
}
use android_device_xsh_k50sv.Ril.Capability.{
  Applied, no_session, Effect, complete, indicate, forward, set_radio_capability,
  is_transaction_phase,
}
use android_device_xsh_k50sv.Ril.Capability.Answers.{
  fixed, Accepts, applied, applied_next, Announces, IsSized,
}
use android_device_xsh_k50sv.Ril.Capability.Requests.{IsTransaction-iff, set_radio_capability_cases}

-- A SET request as it arrives.
pub record Sent : Type 0 where
  pub payload : Option Payload
  pub datalen : ℕ
  pub token : ℕ
  pub socket : ℤ

abbrev pub handle : Sent → Applied → Applied × List Effect
handle r a = set_radio_capability r.payload r.datalen r.token r.socket a

-- The arrays after a history of requests, the newest first.
abbrev pub after : List Sent → Applied
after [] = no_session
after (r ∷ h) = (handle r (after h)).0

-- The capability of a request that is accepted on slot `i`.
abbrev pub accepted_on : ℕ → Sent → Option Capability
accepted_on i r = elim r.payload [
  | none ↦ none
  | some p ↦
      if r.datalen == capability_size
        && is_transaction_phase p.as_capability.phase
        && int_eq r.socket (pos i)
      then some p.as_capability
      else none
]

abbrev pub applied_by : Option Capability → Option ℤ → Option ℤ
applied_by none seen = seen
applied_by (some request) seen = applied_next request.phase request.session seen

-- The session of the newest APPLY on slot `i` that no START on it follows.
abbrev pub last_applied : ℕ → List Sent → Option ℤ
last_applied i [] = none
last_applied i (r ∷ h) = applied_by (accepted_on i r) (last_applied i h)

pub accepted_on_iff :
    (i : ℕ) (r : Sent) (request : Capability)
    → i < sim_count
    → (accepted_on i r ≡ some request) ↔ Accepts r.payload r.datalen r.socket i request
accepted_on_iff i r request h = by_payload r.payload
  where
    by_payload :
        (o : Option Payload)
        → (accepted_on i (record r { payload = o }) ≡ some request)
          ↔ Accepts o r.datalen r.socket i request
    by_payload none = (λ e. cc, λ a. let (p, e, e2) = a.given in cc)
    by_payload (some p) = (
      λ e. record {
        given = (p, refl, ground arith);
        sized = ground arith;
        transaction = ground (arith, IsTransaction-iff p.as_capability.phase);
        on_slot = ground (arith, int_eq_iff r.socket (pos i));
        in_range = h;
      },
      λ a.
          let (q, e, e2) = a.given in
          ground (arith, IsTransaction-iff p.as_capability.phase, int_eq_iff r.socket (pos i)),
    )

pub after-IsSized : (h : List Sent) → IsSized (after h)
after-IsSized [] = ground arith
after-IsSized (r ∷ h) =
    let s = after-IsSized h in
    elim (set_radio_capability_cases r.payload r.datalen r.token r.socket (after h) s) [
      | inl w ↦ let (i, request, accepted, answered) = w in answered.sized
      | inr w ↦ subst (λ o. IsSized o.0) (sym w.1) s
    ]

pub accepted_on-none :
    (i : ℕ) (r : Sent)
    → i < sim_count
    → ((request : Capability) → ¬ Accepts r.payload r.datalen r.socket i request)
    → accepted_on i r ≡ none
accepted_on-none i r h never = elim (Option-cases (accepted_on i r)) [
  | inl e ↦ e
  | inr w ↦ absurd (never w.0 ((accepted_on_iff i r w.0 h).0 w.1))
]

pub accepted_on-other :
    (i j : ℕ) (r : Sent) (request : Capability)
    → i < sim_count
    → i ≢ j
    → Accepts r.payload r.datalen r.socket j request
    → accepted_on i r ≡ none
accepted_on-other i j r request h ne a =
    accepted_on-none i r h (λ q b. ground (arith, a.on_slot, b.on_slot))

pub applied-handle :
    (i : ℕ) (r : Sent) (a : Applied)
    → IsSized a
    → i < sim_count
    → applied (handle r a).0 i ≡ applied_by (accepted_on i r) (applied a i)
applied-handle i r a s h =
    elim (set_radio_capability_cases r.payload r.datalen r.token r.socket a s) [
      | inl w ↦
          let (j, request, accepted, answered) = w in
          elim (ℕ_discrete i j) [
            | yes same ↦
                rw
                  ((accepted_on_iff i r request h).1 (
                    subst (λ k. Accepts r.payload r.datalen r.socket k request) (sym same)
                      accepted))
                  (subst
                    (λ k.
                      applied (handle r a).0 k
                      ≡ applied_next request.phase request.session (applied a k))
                    (sym same) answered.own)
            | no ne ↦
                rw (accepted_on-other i j r request h ne accepted)
                  (answered.others i (λ e. ne (sym e)))
          ]
      | inr w ↦ rw (accepted_on-none i r h (w.0 i)) (ap (λ o. applied o.0 i) w.1)
    ]

-- What the two arrays hold for a slot: the session of the newest APPLY that no START of the slot followed.
applied-after : (i : ℕ) (h : List Sent) → i < sim_count → applied (after h) i ≡ last_applied i h
applied-after zero [] lt = refl
applied-after (suc zero) [] lt = refl
applied-after (suc (suc i)) [] lt = absurd (omega arith)
applied-after i (r ∷ h) lt =
    applied-handle i r (after h) (after-IsSized h) lt
    ∙ ap (applied_by (accepted_on i r)) (applied-after i h lt)

-- The RIL_UNSOL_RADIO_CAPABILITY indications among the effects.
abbrev pub indications : List Effect → List (Capability × ℤ)
indications [] = []
indications (indicate c socket ∷ es) = (c, socket) ∷ indications es
indications (complete t e response ∷ es) = indications es
indications (forward request payload datalen t socket ∷ es) = indications es

pub Accepts-unique :
    (payload : Option Payload) (datalen i j : ℕ) (socket : ℤ) (p q : Capability)
    → Accepts payload datalen socket i p
    → Accepts payload datalen socket j q
    → (i ≡ j) × (p ≡ q)
Accepts-unique payload datalen i j socket p q a b =
    let (x, ex, ep) = a.given in
    let (y, ey, eq) = b.given in (ground (arith, a.on_slot, b.on_slot), cc)

abbrev IsAnnounced : List Sent → Sent → List (Capability × ℤ) → Type 0
IsAnnounced h r out =
    ((i : ℕ) × (request : Capability) × Accepts r.payload r.datalen r.socket i request
      × (request.phase ≡ apply)
      × (last_applied i h ≢ some request.session)
      × (out ≡ (fixed i request.session unsol_rsp succeeded, pos i) ∷ []))
    ⊎ (((i : ℕ) (request : Capability)
          → Accepts r.payload r.datalen r.socket i request
          → request.phase ≡ apply
          → last_applied i h ≡ some request.session)
        × (out ≡ []))

announced :
    (h : List Sent) (r : Sent) (i : ℕ) (request : Capability) (phase : Phase) (more : List Effect)
    → Accepts r.payload r.datalen r.socket i request
    → request.phase ≡ phase
    → Announces i request.session (last_applied i h) phase more
    → IsAnnounced h r (indications more)
announced h r i request _ _ a e (Announces.fresh new) = inl (i, request, a, e, new, refl)
announced h r i request _ _ a e (Announces.repeated old) = inr (
  λ j q b eq.
      let (same, same_q) = Accepts-unique r.payload r.datalen j i r.socket q request b a in
      ap (λ k. last_applied k h) same ∙ old ∙ ap (λ c. some c.session) (sym same_q),
  refl,
)
announced h r i request _ _ a e Announces.at_start = inr (
  λ j q b eq.
      let (same, same_q) = Accepts-unique r.payload r.datalen j i r.socket q request b a in
      ground arith,
  refl,
)
announced h r i request _ _ a e Announces.at_finish = inr (
  λ j q b eq.
      let (same, same_q) = Accepts-unique r.payload r.datalen j i r.socket q request b a in
      ground arith,
  refl,
)

-- After any history of requests, a request is announced exactly when it is an accepted APPLY whose session
-- is not that of the newest APPLY on its slot since the slot's last START, and then once, on its own slot;
-- any other request is announced by nothing.
pub indications-handle :
    (h : List Sent) (r : Sent)
    → let out = indications (handle r (after h)).1 in
      ((i : ℕ) × (request : Capability) × Accepts r.payload r.datalen r.socket i request
        × (request.phase ≡ apply)
        × (last_applied i h ≢ some request.session)
        × (out ≡ (fixed i request.session unsol_rsp succeeded, pos i) ∷ []))
      ⊎ (((i : ℕ) (request : Capability)
            → Accepts r.payload r.datalen r.socket i request
            → request.phase ≡ apply
            → last_applied i h ≡ some request.session)
          × (out ≡ []))
indications-handle h r =
    elim (set_radio_capability_cases r.payload r.datalen r.token r.socket (after h)
      (after-IsSized h)) [
        | inl w ↦
            let (j, request, accepted, answered) = w in
            rw (ap indications answered.effects) (
              announced h r j request request.phase answered.more accepted refl (
                subst (λ o. Announces j request.session o request.phase answered.more)
                  (applied-after j h accepted.in_range) answered.announces))
        | inr w ↦ inr (λ i request a e. absurd (w.0 i request a), ap (λ o. indications o.1) w.1)
      ]
