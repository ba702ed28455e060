-- ===== src/Ril/Recovery/Progress.antt =====
-- The worker at a socket whose request is due.
use android_device_xsh_k50sv.Prelude.{
  ℕ, zero, suc, ◌+◌, ◌-◌, ◌*◌, ◌%◌, ◌<◌, ◌≤◌, ◌≡◌, ◌≢◌, refl, sym, ◌∙◌, ap, inl, inr, Bool, true,
  false, Bool-cases, Option-cases, Option, none, some, get_or, set, arith, ◌==◌, ◌&&◌,
  if◌then◌else◌, ltb,
}
use android_device_xsh_k50sv.Ril.Types.{AttachApn, sim_count}
use android_device_xsh_k50sv.Ril.Attach.{
  Attach, token_slots, token_size, token_at, copy_ia, empty_apn,
}
use android_device_xsh_k50sv.Ril.Attach.Copies.{copy_ia-succeeds}
use android_device_xsh_k50sv.Ril.Recovery.Invariant.{IsValid, pick_socket-some, pick_token-some}
use android_device_xsh_k50sv.Ril.Worker.{
  Point, look, relative_sleep, sleeping, idle, sending, Readings, worker_step, pick_socket,
  pick_token, next_work, limited, issue, issued, wait_until, reissue_min_interval,
}

-- The tokens that the search has left are in use.
pick_token-none :
    (s : Attach) (n m : ℕ)
    → pick_token s n ≡ none
    → n ≤ token_slots
    → suc token_slots - n ≤ m
    → m ≤ token_slots
    → get_or s.outstanding ((s.current_token + m) % token_slots) false ≡ true
unfolding pick_token
pick_token-none s zero m e h lo hi = absurd (omega arith)
pick_token-none s (suc n) m e h lo hi =
    let here : get_or s.outstanding ((s.current_token + (suc token_slots - suc n)) % token_slots)
          false
        ≡ true =
      ground arith in
    elim (Bool-cases (m == suc token_slots - suc n)) [
      | inl first ↦ rw (same_index m n first) here
      | inr later ↦ pick_token-none s n m (ground arith) (omega arith) (ground arith) hi
    ]
  where
    same_index : (m n : ℕ) → (m == suc token_slots - suc n) ≡ true → m ≡ suc token_slots - suc n
    same_index m n e = ground arith

-- A free token is found.
pub pick_token-free :
    (s : Attach) (k : ℕ)
    → s.current_token < token_slots
    → k < token_slots
    → get_or s.outstanding k false ≡ false
    → (token : ℕ) × (pick_token s token_slots ≡ some token)
pick_token-free s k h lt free = elim (Option-cases (pick_token s token_slots)) [
  | inr w ↦ w
  | inl e ↦ absurd (in_use e)
]
  where
    offset : ℕ → ℕ → ℕ
    offset c k = if ltb c k then k - c else k + token_slots - c

    offset-index :
        (c k : ℕ)
        → c < token_slots
        → k < token_slots
        → ((c + offset c k) % token_slots ≡ k) × (1 ≤ offset c k) × (offset c k ≤ token_slots)
    offset-index c k hc hk = ground arith

    in_use : ¬ (pick_token s token_slots ≡ none)
    in_use e =
        let (at, lo, hi) = offset-index s.current_token k h lt in
        let used = pick_token-none s token_slots (offset s.current_token k) e (omega arith) lo hi in
        absurd (cc (sym free ∙ ap (λ i. get_or s.outstanding i false) (sym at) ∙ used))

-- A pending socket is found, and the next one in turn first.
pick_socket-due :
    (s : Attach) (i : ℕ)
    → s.next_socket < sim_count
    → i < sim_count
    → get_or s.pending i false ≡ true
    → get_or s.cached i false ≡ true
    → (j : ℕ) × (pick_socket s sim_count ≡ some j)
      × ((get_or s.pending s.next_socket false ≡ true)
            × (get_or s.cached s.next_socket false ≡ true)
          → j ≡ s.next_socket)
unfolding pick_socket
pick_socket-due s i h lt p c =
    let here : (s.next_socket + 0) % sim_count ≡ s.next_socket = omega arith in
    elim (Bool-cases
      (get_or s.pending s.next_socket false && get_or s.cached s.next_socket false)) [
        | inl ready ↦ (s.next_socket, rw (here, ready), λ both. refl)
        | inr busy ↦
            let other : i ≢ s.next_socket = λ same. both_true s i p c (rw same busy) in
            let there : (s.next_socket + 1) % sim_count ≡ i = omega (arith, other) in
            (
              i,
              rw (here, busy, there, p, c),
              λ both. absurd (cc (sym busy ∙ and_true both.0 both.1)),
            )
      ]
  where
    and_true : {a b : Bool} → a ≡ true → b ≡ true → (a && b) ≡ true
    and_true e f = rw (e, f)

    both_true :
        (s : Attach) (i : ℕ)
        → get_or s.pending i false ≡ true
        → get_or s.cached i false ≡ true
        → ¬ ((get_or s.pending i false && get_or s.cached i false) ≡ false)
    both_true s i p c e = cc

worker_step-sends :
    (base j token now : ℕ) (r : Readings) (s : Attach) (outgoing : AttachApn)
    → next_work s ≡ some j
    → r.now ≡ some now
    → wait_until s now ≡ none
    → pick_token s token_slots ≡ some token
    → copy_ia r.alloc (get_or s.cache j empty_apn) ≡ some outgoing
    → worker_step base r look s ≡ (sending outgoing (token_at base token) j, issued j token r s)
unfolding worker_step limited issue
worker_step-sends base j token now r s outgoing chosen clock allowed found copy =
    by_steps (next_work s) r.now chosen clock
  where
    by_steps :
        (w n : Option ℕ)
        → w ≡ some j
        → n ≡ some now
        → elim w as (λ _. Point × Attach) [
          | some socket ↦ elim n [
            | none ↦ (relative_sleep, s)
            | some t ↦ elim (wait_until s t) [
              | some u ↦ (sleeping u, s)
              | none ↦ issue base socket r s
            ]
          ]
          | none ↦ idle s
        ]
          ≡ (sending outgoing (token_at base token) j, issued j token r s)
    by_steps w n ew en = rw (ew, en, allowed, issue, found, copy)

-- The request of socket j is in flight with the token: it is the current one and outstanding, the socket is
-- no longer pending, and the other one is next.
pub record Carries (before after : Attach) (j token : ℕ) : Type 0 where
  pub marked : after.outstanding ≡ set before.outstanding token true
  pub current : after.current_token ≡ token
  pub flies : after.in_flight ≡ true
  pub taken : after.pending ≡ set before.pending j false
  pub turn : after.next_socket ≡ 1 - j

issued-Carries :
    (j token : ℕ) (r : Readings) (s : Attach)
    → j < sim_count
    → Carries s (issued j token r s) j token
issued-Carries j token r s h = by_clock r.charged_at
  where
    by_clock :
        (now : Option ℕ) → Carries s (issued j token (record r { charged_at = now }) s) j token
    by_clock none = record {
      marked = refl;
      current = refl;
      flies = refl;
      taken = refl;
      turn = omega (arith, h);
    }
    by_clock (some t) = record {
      marked = refl;
      current = refl;
      flies = refl;
      taken = refl;
      turn = omega (arith, h);
    }

-- A due request is sent at once. If nothing is in flight, a socket is pending, a token is free, the clock
-- works and a second has passed since the last issue, then the worker that looks for work, with memory for
-- the copy, goes on to send the APN cached for a pending socket, as it was cached: for the socket next in turn
-- if that one is pending. It sends it with one of the 16 tokens that is not outstanding, which then is
-- outstanding and the current one; the request is in flight, the socket is no longer pending, and the other
-- one is next.
pub due_request_sent :
    (base i k now : ℕ) (r : Readings) (s : Attach)
    → IsValid s
    → s.in_flight ≡ false
    → i < sim_count
    → get_or s.pending i false ≡ true
    → k < token_slots
    → get_or s.outstanding k false ≡ false
    → r.now ≡ some now
    → (s.last_issue_valid ≡ true → s.last_issue + reissue_min_interval ≤ now)
    → ((a : ℕ) → r.alloc a ≡ true)
    → (j : ℕ) × (token : ℕ) × (t : Attach) × (worker_step base r look s
        ≡ (sending (get_or s.cache j empty_apn) (base + token_size * (token % token_slots)) j, t))
      × (j < sim_count)
      × (get_or s.pending j false ≡ true)
      × (get_or s.pending s.next_socket false ≡ true → j ≡ s.next_socket)
      × (token < token_slots)
      × (get_or s.outstanding token false ≡ false)
      × Carries s t j token
due_request_sent base i k now r s v free_slot lt pending in_range free clock spaced memory =
    let (j, picked, fair) = pick_socket-due s i v.socket_in_range lt pending (v.backed i pending) in
    let (token, found) = pick_token-free s k v.token_in_range in_range free in
    let allowed : wait_until s now ≡ none = ground (arith, spaced) in
    let (hj, pj, cj) = pick_socket-some s sim_count j picked in
    (
      j,
      token,
      issued j token r s,
      worker_step-sends base j token now r s (get_or s.cache j empty_apn)
          (ground (arith, free_slot, picked)) clock allowed found
          (copy_ia-succeeds r.alloc (get_or s.cache j empty_apn) memory),
      hj,
      pj,
      (λ p. fair (p, v.backed s.next_socket p)),
      (pick_token-some s token_slots token found).0,
      (pick_token-some s token_slots token found).1,
      issued-Carries j token r s hj,
    )
