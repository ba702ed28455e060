-- ===== src/Ril/Shim/Requests.antt =====
-- Which requests reach the blob, and what each of them changes.
use android_device_xsh_k50sv.Prelude.{
  ℕ, ◌≡◌, ◌≢◌, ◌↔◌, refl, ◌⊎◌, inl, inr, Bool, true, Bool-cases, Option, List, [], ◌∷◌, arith,
  if◌then◌else◌, ◌+◌, ◌==◌,
}
use android_device_xsh_k50sv.Prelude.Int.{ℤ}
use android_device_xsh_k50sv.Ril.Types.{
  Request, Payload, Phase, get_radio_capability, set_radio_capability, set_initial_attach_apn,
  other,
}
use android_device_xsh_k50sv.Ril.Capability
use android_device_xsh_k50sv.Ril.Capability.{Applied, Effect, complete, indicate, forward}
use android_device_xsh_k50sv.Ril.Capability.Answers.{IsSized, Announces}
use android_device_xsh_k50sv.Ril.Capability.Requests.{
  get_radio_capability_cases, set_radio_capability_cases,
}
use android_device_xsh_k50sv.Ril.Attach.{
  Attach, HookState, disabled, installing, active, failed, attach_apn_hooks_active,
}
use android_device_xsh_k50sv.Ril.Attach.Copies.{Caches, with_cached, cache_initial_attach_apn_cases}
use android_device_xsh_k50sv.Ril.Shim.{Shim, attach_before, on_request_shim}

-- How often the framework gets an answer to this request from the shim, and how often the blob sees it.
abbrev pub answers : ℕ → List Effect → ℕ
answers t [] = 0
answers t (complete u e response ∷ es) = (if u == t then 1 else 0) + answers t es
answers t (indicate c socket ∷ es) = answers t es
answers t (forward request payload datalen u socket ∷ es) = answers t es

abbrev pub forwards : List Effect → ℕ
forwards [] = 0
forwards (complete t e response ∷ es) = forwards es
forwards (indicate c socket ∷ es) = forwards es
forwards (forward request payload datalen t socket ∷ es) = 1 + forwards es

announced_silent :
    {i : ℕ} {session : ℤ} {seen : Option ℤ} {phase : Phase} {more : List Effect} (t : ℕ)
    → Announces i session seen phase more
    → (answers t more ≡ 0) × (forwards more ≡ 0)
announced_silent t Announces.at_start = (refl, refl)
announced_silent t Announces.at_finish = (refl, refl)
announced_silent t (Announces.fresh new) = (refl, refl)
announced_silent t (Announces.repeated old) = (refl, refl)

set-answers :
    (payload : Option Payload) (datalen t : ℕ) (socket : ℤ) (a : Applied)
    → IsSized a
    → let effects = (Capability.set_radio_capability payload datalen t socket a).1 in
      (answers t effects ≡ 1) × (forwards effects ≡ 0)
set-answers payload datalen t socket a s =
    elim (set_radio_capability_cases payload datalen t socket a s) [
      | inl w ↦
          let (i, request, accepted, answered) = w in
          let (no_answer, no_forward) = announced_silent t answered.announces in
          rw answered.effects (ground (arith, no_answer), no_forward)
      | inr w ↦ rw w.1 (ground arith, refl)
    ]

get-answers :
    (t : ℕ) (socket : ℤ)
    → let effects = Capability.get_radio_capability t socket in
      (answers t effects ≡ 1) × (forwards effects ≡ 0)
get-answers t socket = elim (get_radio_capability_cases t socket) [
  | inl w ↦ rw w.3 (ground arith, refl)
  | inr w ↦ rw w.1 (ground arith, refl)
]

-- A forwarded request whose APN is cached for slot i.
pub record CachesFirst (request : Request) (payload : Option Payload) (datalen : ℕ) (socket : ℤ)
    (alloc : ℕ → Bool) (before : Attach) (i : ℕ) (p : Payload) : Type 0 where
  pub initial_apn : request ≡ set_initial_attach_apn
  pub hooked : before.hooks ≡ active
  pub caches : Caches socket payload datalen alloc i p

-- What happens to the cache when a request is forwarded: the cache changes exactly if there is an APN to cache.
abbrev pub CachesOrKeeps : Request → Option Payload → ℕ → ℤ → (ℕ → Bool) → Attach → Attach → Type 0
CachesOrKeeps request payload datalen socket alloc before after =
    ((i : ℕ) × (p : Payload) × CachesFirst request payload datalen socket alloc before i p
      × (after ≡ with_cached i p.as_attach_apn before))
    ⊎ (((i : ℕ) (p : Payload) → ¬ CachesFirst request payload datalen socket alloc before i p)
        × (after ≡ before))

active-hooks : (s : Attach) → (attach_apn_hooks_active s ≡ true) ↔ (s.hooks ≡ active)
active-hooks s = by_state s.hooks
  where
    by_state :
        (h : HookState) → (attach_apn_hooks_active (record s { hooks = h }) ≡ true) ↔ (h ≡ active)
    by_state disabled = ((λ e. cc), (λ e. cc))
    by_state installing = ((λ e. cc), (λ e. cc))
    by_state active = ((λ e. refl), (λ e. refl))
    by_state failed = ((λ e. cc), (λ e. cc))

attach_before-cases :
    (payload : Option Payload) (datalen : ℕ) (socket : ℤ) (alloc : ℕ → Bool) (s : Attach)
    → CachesOrKeeps set_initial_attach_apn payload datalen socket alloc s
        (attach_before set_initial_attach_apn payload datalen socket alloc s)
attach_before-cases payload datalen socket alloc s = elim (Bool-cases (attach_apn_hooks_active s)) [
  | inr idle ↦ inr (λ i p c. absurd (cc ((active-hooks s).1 c.hooked)), rw idle)
  | inl hooked ↦ elim (cache_initial_attach_apn_cases socket payload datalen alloc s) [
    | inl w ↦ inl (
      w.0,
      w.1,
      record { initial_apn = refl; hooked = (active-hooks s).0 hooked; caches = w.2 },
      rw hooked w.3,
    )
    | inr w ↦ inr (λ i p c. w.0 i p c.caches, rw hooked w.1)
  ]
]

-- `onRequestShim` on every request. A capability request is answered exactly once by the shim, never reaches
-- the blob and leaves the recovery alone. Any other request is forwarded once, unchanged, and is not
-- answered by the shim, nor does it change the applied sessions. If the request is an attach APN of the
-- right size on a slot, with active hooks and memory for the copy, that APN is then the cached one of the
-- slot, and nothing else changes in the recovery; on any other request the recovery is left alone.
pub on_request_shim_cases :
    (request : Request) (payload : Option Payload) (datalen t : ℕ) (socket : ℤ) (alloc : ℕ → Bool)
    (s : Shim)
    → IsSized s.applied
    → let (after, effects) = on_request_shim request payload datalen t socket alloc s in
      (((request ≡ get_radio_capability) ⊎ (request ≡ set_radio_capability))
        × (answers t effects ≡ 1)
        × (forwards effects ≡ 0)
        × (after.attach ≡ s.attach))
      ⊎ ((request ≢ get_radio_capability)
          × (request ≢ set_radio_capability)
          × (effects ≡ forward request payload datalen t socket ∷ [])
          × (after.applied ≡ s.applied)
          × CachesOrKeeps request payload datalen socket alloc s.attach after.attach)
unfolding on_request_shim
on_request_shim_cases get_radio_capability payload datalen t socket alloc s v =
    let (one, none_on) = get-answers t socket in inl (inl refl, one, none_on, refl)
on_request_shim_cases set_radio_capability payload datalen t socket alloc s v =
    let (one, none_on) = set-answers payload datalen t socket s.applied v in
    inl (inr refl, one, none_on, refl)
on_request_shim_cases set_initial_attach_apn payload datalen t socket alloc s v =
    inr (λ e. cc, λ e. cc, refl, refl, attach_before-cases payload datalen socket alloc s.attach)
on_request_shim_cases (other n) payload datalen t socket alloc s v =
    inr (λ e. cc, λ e. cc, refl, refl, inr (λ i p c. absurd (cc c.initial_apn), refl))
