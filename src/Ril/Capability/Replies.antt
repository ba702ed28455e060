-- ===== src/Ril/Capability/Replies.antt =====
-- The answer to each capability request: one completion, with the native family of the slot.
use android_device_xsh_k50sv.Prelude.{
  ℕ, ◌<◌, ◌≡◌, ◌≢◌, refl, ◌⊎◌, inl, inr, true, false, none, some, List, [], ◌∷◌, arith, get_or,
  zero, suc, length-set, get_or-set_self, get_or-set_ne,
}
use android_device_xsh_k50sv.Prelude.Int.{ℤ, pos, negsuc, int_eq_iff}
use android_device_xsh_k50sv.Ril.Types.{
  Phase, Status, Capability, start, apply, unsol_rsp, finish, succeeded, success, sim_count,
}
use android_device_xsh_k50sv.Ril.Capability.{
  Applied, Effect, complete, indicate, accept, announce, fill_fixed_radio_capability,
  should_send_apply_unsol, reset_apply_dedupe,
}
use android_device_xsh_k50sv.Ril.Capability.Answers.{
  fixed, IsTransaction, applied, applied_next, IsFresh, Announces, answer_status, IsSized,
}

pub fill-fixed :
    (i : ℕ) (session : ℤ) (phase : Phase) (status : Status)
    → i < sim_count
    → fill_fixed_radio_capability (pos i) session phase status ≡ some (fixed i session phase status)
unfolding fill_fixed_radio_capability
fill-fixed zero session phase status h = refl
fill-fixed (suc zero) session phase status h = refl
fill-fixed (suc (suc i)) session phase status h = absurd (omega arith)

pub fill-only :
    (socket session : ℤ) (phase : Phase) (status : Status) (c : Capability)
    → fill_fixed_radio_capability socket session phase status ≡ some c
    → (i : ℕ) × (socket ≡ pos i) × (i < sim_count)
unfolding fill_fixed_radio_capability
fill-only (pos zero) session phase status c h = (0, refl, omega arith)
fill-only (pos (suc zero)) session phase status c h = (1, refl, omega arith)
fill-only (pos (suc (suc i))) session phase status c h = cc
fill-only (negsuc n) session phase status c h = cc

-- START clears the slot and APPLY records the session; the other slot keeps its own.
pub reset-own :
    (i : ℕ) (a : Applied)
    → IsSized a
    → i < sim_count
    → applied (reset_apply_dedupe (pos i) a) i ≡ none
unfolding reset_apply_dedupe
reset-own i a s h = ground (arith, get_or-set_self a.valid i false false, s.flags)

pub reset-others :
    (i j : ℕ) (a : Applied) → i ≢ j → applied (reset_apply_dedupe (pos i) a) j ≡ applied a j
unfolding reset_apply_dedupe
reset-others i j a ne = ground (arith, get_or-set_ne a.valid i j false false)

pub reset-IsSized : (socket : ℤ) (a : Applied) → IsSized a → IsSized (reset_apply_dedupe socket a)
unfolding reset_apply_dedupe
reset-IsSized (pos i) a s = ground (arith, length-set a.valid i false, s.flags, s.sessions)
reset-IsSized (negsuc i) a s = s

pub should_send_iff :
    (i : ℕ) (session : ℤ) (a : Applied)
    → IsSized a
    → i < sim_count
    → let (send, after) = should_send_apply_unsol (pos i) session a in
      ((send ≡ true) × IsFresh (applied a i) session
        ⊎ (send ≡ false) × (applied a i ≡ some session))
      × (applied after i ≡ some session)
unfolding should_send_apply_unsol
should_send_iff i session a s h = ground (
  arith,
  get_or-set_self a.valid i true false,
  get_or-set_self a.session i session (pos 0),
  s.flags,
  s.sessions,
  int_eq_iff (get_or a.session i (pos 0)) session,
)

pub should_send-others :
    (i j : ℕ) (session : ℤ) (a : Applied)
    → i ≢ j
    → applied (should_send_apply_unsol (pos i) session a).1 j ≡ applied a j
unfolding should_send_apply_unsol
should_send-others i j session a ne =
    ground
      (arith, get_or-set_ne a.valid i j true false, get_or-set_ne a.session i j session (pos 0))

pub should_send-IsSized :
    (socket session : ℤ) (a : Applied)
    → IsSized a
    → IsSized (should_send_apply_unsol socket session a).1
unfolding should_send_apply_unsol
should_send-IsSized (pos i) session a s =
    ground (arith, length-set a.valid i true, length-set a.session i session, s.flags, s.sessions)
should_send-IsSized (negsuc i) session a s = s

-- What an accepted request does, by the view of the arrays.
pub record Answered (request : Capability) (t i : ℕ) (before : Applied)
    (outcome : Applied × List Effect) : Type 0 where
  pub more : List Effect
  pub effects :
      outcome.1
      ≡ complete t success (
          some (fixed i request.session request.phase (answer_status request.phase request.status)))
        ∷ more
  pub announces : Announces i request.session (applied before i) request.phase more
  pub own : applied outcome.0 i ≡ applied_next request.phase request.session (applied before i)
  pub others : (j : ℕ) → i ≢ j → applied outcome.0 j ≡ applied before j
  pub sized : IsSized outcome.0

pub announce-sends :
    (i : ℕ) (session : ℤ) (a : Applied)
    → i < sim_count
    → (should_send_apply_unsol (pos i) session a).0 ≡ true
    → announce apply (pos i) session a ≡ (
      (should_send_apply_unsol (pos i) session a).1,
      indicate (fixed i session unsol_rsp succeeded) (pos i) ∷ [],
    )
unfolding announce
announce-sends i session a h e = rw (e, fill-fixed i session unsol_rsp succeeded h)

pub announce-silent :
    (i : ℕ) (session : ℤ) (a : Applied)
    → (should_send_apply_unsol (pos i) session a).0 ≡ false
    → announce apply (pos i) session a ≡ ((should_send_apply_unsol (pos i) session a).1, [])
unfolding announce
announce-silent i session a e = rw e

pub announce-start : (socket session : ℤ) (a : Applied) → announce start socket session a ≡ (a, [])
unfolding announce
announce-start socket session a = refl

pub announce-finish :
    (socket session : ℤ) (a : Applied) → announce finish socket session a ≡ (a, [])
unfolding announce
announce-finish socket session a = refl

pub accept-Answered :
    (request : Capability) (t i : ℕ) (a : Applied)
    → IsSized a
    → i < sim_count
    → IsTransaction request.phase
    → Answered request t i a
        (accept request (fixed i request.session request.phase succeeded) t (pos i) a)
unfolding accept
accept-Answered request t i a s h tx = by_phase request.phase request.session tx
  where
    by_phase :
        (phase : Phase) (session : ℤ)
        → IsTransaction phase
        → Answered
            (record request { phase = phase; session = session })
            t
            i
            a
            (accept
              (record request { phase = phase; session = session })
              (fixed i session phase succeeded)
              t
              (pos i)
              a)
    by_phase start session tx =
        rw (announce-start (pos i) session (reset_apply_dedupe (pos i) a)) (record {
          more = [];
          effects = refl;
          announces = Announces.at_start;
          own = reset-own i a s h;
          others = λ j ne. reset-others i j a ne;
          sized = reset-IsSized (pos i) a s;
        })
    by_phase apply session tx =
        let (sending, own) = should_send_iff i session a s h in
        elim sending [
          | inl sends ↦ rw (announce-sends i session a h sends.0) (record {
            more = indicate (fixed i session unsol_rsp succeeded) (pos i) ∷ [];
            effects = refl;
            announces = Announces.fresh sends.1;
            own = own;
            others = λ j ne. should_send-others i j session a ne;
            sized = should_send-IsSized (pos i) session a s;
          })
          | inr silent ↦ rw (announce-silent i session a silent.0) (record {
            more = [];
            effects = refl;
            announces = Announces.repeated silent.1;
            own = own;
            others = λ j ne. should_send-others i j session a ne;
            sized = should_send-IsSized (pos i) session a s;
          })
        ]
    by_phase finish session tx = rw (announce-finish (pos i) session a) (record {
      more = [];
      effects = refl;
      announces = Announces.at_finish;
      own = refl;
      others = λ j ne. refl;
      sized = s;
    })
    by_phase _ session tx = ground arith
