-- ===== src/Ril/Attach/Tokens.antt =====
-- The tokens of the requests that are issued again: 16 addresses, and what the completion of one does.
use android_device_xsh_k50sv.Prelude.{
  ℕ, zero, suc, ◌+◌, ◌-◌, ◌*◌, ◌/◌, ◌<◌, ◌≤◌, ◌≡◌, ◌≢◌, ◌↔◌, refl, Bool-cases, ◌⊎◌, inl, inr, Bool,
  true, false, List, [], ◌∷◌, get_or, set, arith, ◌==◌, if◌then◌else◌,
}
use android_device_xsh_k50sv.Ril.Types.{RilErrno}
use android_device_xsh_k50sv.Ril.Attach.{
  Attach, Call, signal, real_complete, token_slots, token_size, token_at, is_token_among,
  is_reissue_token, complete_own, complete_hook,
}

token_among_iff :
    (base t n : ℕ)
    → n ≤ token_slots
    → (is_token_among base t n ≡ true)
      ↔ ((k : ℕ) × (token_slots - n ≤ k) × (k < token_slots) × (t ≡ base + token_size * k))
unfolding is_token_among
token_among_iff base t zero h = ground arith
token_among_iff base t (suc n) h =
    let (to, from) = token_among_iff base t n (omega arith) in
    (
      λ e. elim (Bool-cases (t == base + token_size * (token_slots - suc n))) [
        | inl same ↦ (token_slots - suc n, omega arith, omega arith, ground arith)
        | inr other ↦ let (k, lo, hi, at) = to (ground arith) in (k, omega arith, hi, at)
      ],
      λ w. elim (Bool-cases (t == base + token_size * (token_slots - suc n))) [
        | inl same ↦ ground arith
        | inr other ↦ ground (arith, from (w.0, ground arith, w.2, w.3))
      ],
    )

-- The shim's own tokens are exactly the addresses of its 16 slots.
pub is_reissue_token_iff :
    (base t : ℕ)
    → (is_reissue_token base t ≡ true) ↔ ((k : ℕ) × (k < token_slots) × (t ≡ token_at base k))
is_reissue_token_iff base t =
    let (to, from) = token_among_iff base t token_slots (omega arith) in
    (
      λ e. let (k, lo, hi, at) = to e in (k, hi, omega arith),
      λ w. from (w.0, omega arith, w.1, omega (arith, w.1, w.2)),
    )

pub token_index : (base k : ℕ) → k < token_slots → (token_at base k - base) / token_size ≡ k
token_index base k h = omega arith

pub token_at-injective :
    (base j k : ℕ) → j < token_slots → k < token_slots → token_at base j ≡ token_at base k → j ≡ k
token_at-injective base j k hj hk e = omega arith

pub complete_hook-own :
    (base k : ℕ) (e : RilErrno) (response size : ℕ) (s : Attach)
    → k < token_slots
    → complete_hook base (token_at base k) e response size s ≡ complete_own k s
unfolding complete_hook
complete_hook-own base k e response size s h =
    rw ((is_reissue_token_iff base (token_at base k)).1 (k, h, refl), token_index base k h)

pub complete_hook-foreign :
    (base t : ℕ) (e : RilErrno) (response size : ℕ) (s : Attach)
    → is_reissue_token base t ≡ false
    → complete_hook base t e response size s
      ≡ (s, if s.complete_published then real_complete t e response size ∷ [] else [])
unfolding complete_hook
complete_hook-foreign base t e response size s h = rw h (by_published s.complete_published)
  where
    by_published :
        (b : Bool)
        → ◌≡◌ {A = Attach × List Call}
            (if b then (s, real_complete t e response size ∷ []) else (s, []))
            (s, if b then real_complete t e response size ∷ [] else [])
    by_published true = refl
    by_published false = refl

-- What the completion of the own token `k` does to the state, and that it calls nothing.
pub record Swallowed (k : ℕ) (s : Attach) (outcome : Attach × List Call) : Type 0 where
  pub freed : outcome.0.outstanding ≡ set s.outstanding k false
  pub slot :
      ((get_or s.outstanding k false ≡ true)
        × (s.in_flight ≡ true)
        × (s.current_token ≡ k)
        × (outcome.0.in_flight ≡ false)
        × (outcome.0.deadline ≡ 0)
        × (outcome.1 ≡ signal ∷ []))
      ⊎ (¬ ((get_or s.outstanding k false ≡ true) × (s.in_flight ≡ true) × (s.current_token ≡ k))
          × (outcome.0.in_flight ≡ s.in_flight)
          × (outcome.0.deadline ≡ s.deadline)
          × (outcome.1 ≡ []))
  pub others :
      (outcome.0.pending ≡ s.pending)
      × (outcome.0.cache ≡ s.cache)
      × (outcome.0.cached ≡ s.cached)
      × (outcome.0.current_token ≡ s.current_token)

complete_own-Swallowed : (k : ℕ) (s : Attach) → Swallowed k s (complete_own k s)
unfolding complete_own
complete_own-Swallowed k s = record {
  freed = ground arith;
  slot = ground arith;
  others = ground arith;
}

-- `completeHook` on every branch. The completion of an own token is never passed on: its token becomes
-- free, and the single-flight slot is released with a wake-up exactly if the token was outstanding and is
-- that of the request in flight, so that a late completion releases nothing. Any other completion leaves
-- the state alone and is passed on unchanged as soon as the original is published.
pub complete_hook_cases :
    (base t : ℕ) (e : RilErrno) (response size : ℕ) (s : Attach)
    → ((k : ℕ) × (k < token_slots)
        × (t ≡ token_at base k)
        × Swallowed k s (complete_hook base t e response size s))
      ⊎ (((k : ℕ) → k < token_slots → t ≢ token_at base k)
          × (complete_hook base t e response size s
              ≡ (s, if s.complete_published then real_complete t e response size ∷ [] else [])))
complete_hook_cases base t e response size s = elim (Bool-cases (is_reissue_token base t)) [
  | inl own ↦
      let (k, h, at) = (is_reissue_token_iff base t).0 own in
      inl (
        k,
        h,
        at,
        rw (at, complete_hook-own base k e response size s h) (complete_own-Swallowed k s),
      )
  | inr foreign ↦ inr (
    λ k h at. absurd (cc ((is_reissue_token_iff base t).1 (k, h, at))),
    complete_hook-foreign base t e response size s foreign,
  )
]
