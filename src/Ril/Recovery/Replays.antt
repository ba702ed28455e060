-- ===== src/Ril/Recovery/Replays.antt =====
-- The requests that the worker issues again, as events of a run.
use android_device_xsh_k50sv.Prelude.{
  ℕ, ◌<◌, ◌≡◌, ◌≢◌, refl, inl, inr, Bool, true, false, Option, none, some, List, [], ◌∷◌, ◌==◌,
  get_or, arith, All, get_or-set_self, get_or-set_ne, Bool-cases,
}
use android_device_xsh_k50sv.Prelude.Int.{ℤ}
use android_device_xsh_k50sv.Ril.Types.{RilErrno, AttachApn, Payload}
use android_device_xsh_k50sv.Ril.Attach.{
  Attach, token_slots, token_at, complete_hook, unsol_hook, note_reset, cache_initial_attach_apn,
  copy_ia, empty_apn,
}
use android_device_xsh_k50sv.Ril.Attach.Tokens.{complete_hook_cases}
use android_device_xsh_k50sv.Ril.Worker.{
  Point, look, waiting, relative_sleep, timed_waiting, sleeping, sending, Readings, worker_step,
  next_work, idle, after_wait, wait_until, charge, issued,
}
use android_device_xsh_k50sv.Ril.Worker.Looked.{Looked, look_cases}
use android_device_xsh_k50sv.Ril.Recovery.{System, Event, cache, complete, unsol, work, step, run}
use android_device_xsh_k50sv.Ril.Recovery.Invariant.{IsValid, pick_token-some}
use android_device_xsh_k50sv.Ril.Recovery.Steps.{step-IsValid}

-- Only the fields of the hooks and the cache change outside the worker and the completions.
pub cache-keeps :
    (socket : ℤ) (payload : Option Payload) (datalen : ℕ) (alloc : ℕ → Bool) (s : Attach)
    → let after = cache_initial_attach_apn socket payload datalen alloc s in
      (after.outstanding ≡ s.outstanding)
      × (after.current_token ≡ s.current_token)
      × (after.in_flight ≡ s.in_flight)
      × (after.deadline ≡ s.deadline)
      × (after.last_issue_valid ≡ s.last_issue_valid)
      × (after.last_issue ≡ s.last_issue)
unfolding cache_initial_attach_apn
cache-keeps socket none datalen alloc s = ground arith
cache-keeps socket (some p) datalen alloc s = ground arith

pub note_reset-keeps :
    (code socket : ℤ) (s : Attach)
    → let after = (note_reset code socket s).0 in
      (after.outstanding ≡ s.outstanding)
      × (after.current_token ≡ s.current_token)
      × (after.in_flight ≡ s.in_flight)
      × (after.deadline ≡ s.deadline)
      × (after.last_issue_valid ≡ s.last_issue_valid)
      × (after.last_issue ≡ s.last_issue)
unfolding note_reset
note_reset-keeps code socket s = ground arith

-- The completion of another token, or of a request of the framework.
pub complete-keeps :
    (base t k : ℕ) (e : RilErrno) (response size : ℕ) (s : Attach)
    → k < token_slots
    → t ≢ token_at base k
    → let after = (complete_hook base t e response size s).0 in
      get_or after.outstanding k false ≡ get_or s.outstanding k false
complete-keeps base t k e response size s h ne =
    elim (complete_hook_cases base t e response size s) [
      | inl w ↦
          let (j, hj, at, swallowed) = w in
          rw swallowed.freed
            (get_or-set_ne s.outstanding j k false false (λ same. ne (rw (← same) at)))
      | inr w ↦ rw w.1
    ]

pub charge-keeps :
    (t : Option ℕ) (s : Attach)
    → ((charge t s).outstanding ≡ s.outstanding)
      × ((charge t s).current_token ≡ s.current_token)
      × ((charge t s).in_flight ≡ s.in_flight)
      × ((charge t s).deadline ≡ s.deadline)
charge-keeps none s = (refl, refl, refl, refl)
charge-keeps (some t) s = (refl, refl, refl, refl)

idle-keeps : (s : Attach) → ((idle s).1.outstanding ≡ s.outstanding)
unfolding idle
idle-keeps s = ground arith

after_wait-keeps : (r : Readings) (s : Attach) → (after_wait r s).outstanding ≡ s.outstanding
unfolding after_wait
after_wait-keeps r s = ground arith

Looked-outstanding :
    (base k : ℕ) (r : Readings) (s : Attach) (after : Point × Attach)
    → IsValid s
    → get_or s.outstanding k false ≡ true
    → Looked base r s after
    → get_or after.1.outstanding k false ≡ true
Looked-outstanding base k r s _ v h
      (Looked.issues i token now outgoing chosen clock free picked copy) =
    rw ((charge-keeps r.charged_at _).0) (elim (Bool-cases (token == k)) [
      | inl same ↦ ground (
        arith,
        get_or-set_self s.outstanding token true false,
        v.tokens_sized,
        pick_token-some s token_slots token picked,
      )
      | inr other ↦ ground (arith, get_or-set_ne s.outstanding token k true false)
    ])
Looked-outstanding base k r s _ v h (Looked.no_memory i token now chosen clock free picked copy) =
    rw ((charge-keeps r.charged_at s).0) h
Looked-outstanding base k r s _ v h (Looked.exhausted i now chosen clock free picked) =
    rw ((charge-keeps r.charged_at _).0) h
Looked-outstanding base k r s _ v h (Looked.too_early i now t chosen clock limit) = h
Looked-outstanding base k r s _ v h (Looked.no_clock i chosen clock) = h
Looked-outstanding base k r s _ v h (Looked.rests chosen) = rw (idle-keeps s) h

work-outstanding :
    (base k : ℕ) (r : Readings) (point : Point) (s : Attach)
    → IsValid s
    → get_or s.outstanding k false ≡ true
    → get_or (worker_step base r point s).1.outstanding k false ≡ true
unfolding worker_step
work-outstanding base k r look s v h =
    Looked-outstanding base k r s (worker_step base r look s) v h (look_cases base r s)
work-outstanding base k r (timed_waiting t) s v h = rw (after_wait-keeps r s) h
work-outstanding base k r waiting s v h = h
work-outstanding base k r relative_sleep s v h = h
work-outstanding base k r (sleeping t) s v h = h
work-outstanding base k r (sending apn token socket) s v h = h

-- The event is not the completion of this token.
abbrev pub NotCompletes : ℕ → Event → Type 0
NotCompletes t (complete t' e response size) = t' ≢ t
NotCompletes t _ = Unit

step-outstanding :
    (base k : ℕ) (e : Event) (s : System)
    → k < token_slots
    → IsValid s.attach
    → NotCompletes (token_at base k) e
    → get_or s.attach.outstanding k false ≡ true
    → get_or (step base e s).attach.outstanding k false ≡ true
unfolding unsol_hook
step-outstanding base k (cache socket payload datalen alloc) s lt v n h =
    rw ((cache-keeps socket payload datalen alloc s.attach).0) h
step-outstanding base k (complete t e response size) s lt v n h =
    rw (complete-keeps base t k e response size s.attach lt n) h
step-outstanding base k (unsol code buffer size socket) s lt v n h =
    rw ((note_reset-keeps code socket s.attach).0) h
step-outstanding base k (work r) s lt v n h = work-outstanding base k r s.point s.attach v h

pub run-outstanding :
    (base k : ℕ) (es : List Event) (s : System)
    → k < token_slots
    → IsValid s.attach
    → All (NotCompletes (token_at base k)) es
    → get_or s.attach.outstanding k false ≡ true
    → get_or (run base es s).attach.outstanding k false ≡ true
run-outstanding base k [] s lt v n h = h
run-outstanding base k (e ∷ es) s lt v (n, ns) h =
    run-outstanding base k es (step base e s) lt (step-IsValid base e s v) ns
      (step-outstanding base k e s lt v n h)

-- What the step did that left the worker with a request to send.
pub record Sends (base : ℕ) (r : Readings) (before after : System) (apn : AttachApn) (t socket : ℕ)
    : Type 0 where
  pub token : ℕ
  pub now : ℕ
  pub in_range : token < token_slots
  pub at : t ≡ token_at base token
  pub was_free : get_or before.attach.outstanding token false ≡ false
  pub work : next_work before.attach ≡ some socket
  pub clock : r.now ≡ some now
  pub allowed : wait_until before.attach now ≡ none
  pub copied : copy_ia r.alloc (get_or before.attach.cache socket empty_apn) ≡ some apn
  pub state : after.attach ≡ issued socket token r before.attach

same_sending : (a b : AttachApn) (t u i j : ℕ) → sending a t i ≡ sending b u j → (u ≡ t) × (i ≡ j)
same_sending a b t u i j e = (cc, cc)

idle_silent : (s : Attach) (apn : AttachApn) (t socket : ℕ) → ¬ ((idle s).0 ≡ sending apn t socket)
unfolding idle
idle_silent s apn t socket e = ground arith

Sends-of :
    (base : ℕ) (r : Readings) (s : Attach) (after : Point × Attach) (apn : AttachApn) (t socket : ℕ)
    → Looked base r s after
    → after.0 ≡ sending apn t socket
    → Sends base r
        (record { point = look; attach = s })
        (record { point = after.0; attach = after.1 })
        apn
        t
        socket
Sends-of base r s _ apn t socket (Looked.issues i k now outgoing chosen clock free picked copy) e =
    let (at, same) = same_sending outgoing apn (token_at base k) t i socket e in
    rw (← same) (record {
      token = k;
      now = now;
      in_range = (pick_token-some s token_slots k picked).0;
      at = at;
      was_free = (pick_token-some s token_slots k picked).1;
      work = chosen;
      clock = clock;
      allowed = free;
      copied = cc;
      state = refl;
    })
Sends-of base r s _ apn t socket (Looked.no_memory i token now chosen clock free picked copy) e = cc
Sends-of base r s _ apn t socket (Looked.exhausted i now chosen clock free picked) e = cc
Sends-of base r s _ apn t socket (Looked.too_early i now w chosen clock limit) e = cc
Sends-of base r s _ apn t socket (Looked.no_clock i chosen clock) e = cc
Sends-of base r s _ apn t socket (Looked.rests chosen) e = absurd (idle_silent s apn t socket e)

-- The same of a step of the system.
pub step-Sends :
    (base : ℕ) (r : Readings) (s : System) (apn : AttachApn) (t socket : ℕ)
    → s.point ≡ look
    → (step base (work r) s).point ≡ sending apn t socket
    → Sends base r s (step base (work r) s) apn t socket
step-Sends base r s apn t socket at e = by_point s.point s.attach at e
  where
    by_point :
        (point : Point) (attach : Attach)
        → point ≡ look
        → (worker_step base r point attach).0 ≡ sending apn t socket
        → Sends base r
            (record { point = point; attach = attach })
            (record {
              point = (worker_step base r point attach).0;
              attach = (worker_step base r point attach).1;
            })
            apn
            t
            socket
    by_point look a at e =
        Sends-of base r a (worker_step base r look a) apn t socket (look_cases base r a) e
    by_point waiting a at e = absurd (cc at)
    by_point relative_sleep a at e = absurd (cc at)
    by_point (timed_waiting w) a at e = absurd (cc at)
    by_point (sleeping w) a at e = absurd (cc at)
    by_point (sending b u j) a at e = absurd (cc at)
