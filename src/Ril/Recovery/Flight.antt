-- ===== src/Ril/Recovery/Flight.antt =====
-- The request in flight, and its deadline.
use android_device_xsh_k50sv.Prelude.{
  ℕ, ◌+◌, ◌<◌, ◌≤◌, ◌≡◌, ◌≢◌, sym, ◌∙◌, ap, subst, ◌⊎◌, inl, inr, true, false, none, some, List, [],
  ◌∷◌, arith, All,
}
use android_device_xsh_k50sv.Ril.Types.{RilErrno, AttachApn}
use android_device_xsh_k50sv.Ril.Attach.{Attach, token_at, complete_hook, unsol_hook}
use android_device_xsh_k50sv.Ril.Attach.Tokens.{complete_hook_cases}
use android_device_xsh_k50sv.Ril.Worker.{
  deadline_from, reissue_in_flight_timeout, Point, look, waiting, relative_sleep, timed_waiting,
  sleeping, sending, Readings, worker_step, idle, after_wait,
}
use android_device_xsh_k50sv.Ril.Worker.Looked.{Looked, look_cases}
use android_device_xsh_k50sv.Ril.Recovery.{System, Event, cache, complete, unsol, work, step, run}
use android_device_xsh_k50sv.Ril.Recovery.Steps.{next_work-some}
use android_device_xsh_k50sv.Ril.Recovery.Replays.{
  charge-keeps, cache-keeps, note_reset-keeps, Sends, step-Sends,
}

-- The request with token `k` is in flight until `d`.
pub record InFlight (k d : ℕ) (s : Attach) : Type 0 where
  pub flying : s.in_flight ≡ true
  pub current : s.current_token ≡ k
  pub until : s.deadline ≡ d

-- Neither the completion of `t`, nor a step at which the worker's clock fails or shows `d` or later.
abbrev pub Before : ℕ → ℕ → Event → Type 0
Before t d (work r) = (now : ℕ) × (r.now ≡ some now) × (now < d)
Before t d (complete t' e response size) = t' ≢ t
Before t d _ = Unit

complete-InFlight :
    (base t k d : ℕ) (e : RilErrno) (response size : ℕ) (s : Attach)
    → t ≢ token_at base k
    → InFlight k d s
    → InFlight k d (complete_hook base t e response size s).0
complete-InFlight base t k d e response size s ne f =
    elim (complete_hook_cases base t e response size s) [
      | inl w ↦
          let (j, hj, at, swallowed) = w in
          elim swallowed.slot [
            | inl released ↦ absurd (ne (rw (← f.current, released.2) at))
            | inr kept ↦ record {
              flying = kept.1 ∙ f.flying;
              current = swallowed.others.3 ∙ f.current;
              until = kept.2 ∙ f.until;
            }
          ]
      | inr w ↦ rw w.1 f
    ]

idle-InFlight : (k d : ℕ) (s : Attach) → 0 < d → InFlight k d s → idle s ≡ (timed_waiting d, s)
unfolding idle
idle-InFlight k d s h f = ground arith

after_wait-before :
    (k d now : ℕ) (r : Readings) (s : Attach)
    → r.now ≡ some now
    → now < d
    → InFlight k d s
    → after_wait r s ≡ s
unfolding after_wait
after_wait-before k d now r s e h f = rw e (ground arith)

-- While a request is in flight, looking for work ends in the timed wait.
look-InFlight :
    (base k d : ℕ) (r : Readings) (s : Attach) (after : Point × Attach)
    → 0 < d
    → InFlight k d s
    → Looked base r s after
    → after ≡ (timed_waiting d, s)
look-InFlight base k d r s _ h f
      (Looked.issues i token now outgoing chosen clock free picked copy) =
    absurd (cc (sym f.flying ∙ (next_work-some s i chosen).3))
look-InFlight base k d r s _ h f (Looked.no_memory i token now chosen clock free picked copy) =
    absurd (cc (sym f.flying ∙ (next_work-some s i chosen).3))
look-InFlight base k d r s _ h f (Looked.exhausted i now chosen clock free picked) =
    absurd (cc (sym f.flying ∙ (next_work-some s i chosen).3))
look-InFlight base k d r s _ h f (Looked.too_early i now w chosen clock limit) =
    absurd (cc (sym f.flying ∙ (next_work-some s i chosen).3))
look-InFlight base k d r s _ h f (Looked.no_clock i chosen clock) =
    absurd (cc (sym f.flying ∙ (next_work-some s i chosen).3))
look-InFlight base k d r s _ h f (Looked.rests chosen) = idle-InFlight k d s h f

worker_step-look :
    (base k d : ℕ) (r : Readings) (s : Attach)
    → 0 < d
    → InFlight k d s
    → worker_step base r look s ≡ (timed_waiting d, s)
worker_step-look base k d r s h f =
    look-InFlight base k d r s (worker_step base r look s) h f (look_cases base r s)

work-InFlight :
    (base k d now : ℕ) (r : Readings) (point : Point) (s : Attach)
    → r.now ≡ some now
    → now < d
    → InFlight k d s
    → InFlight k d (worker_step base r point s).1
unfolding worker_step
work-InFlight base k d now r look s e h f = rw (worker_step-look base k d r s (omega arith) f) f
work-InFlight base k d now r (timed_waiting t) s e h f = rw (after_wait-before k d now r s e h f) f
work-InFlight base k d now r waiting s e h f = f
work-InFlight base k d now r relative_sleep s e h f = f
work-InFlight base k d now r (sleeping t) s e h f = f
work-InFlight base k d now r (sending apn token socket) s e h f = f

keeps-InFlight :
    (k d : ℕ) (s s' : Attach)
    → s'.current_token ≡ s.current_token
    → s'.in_flight ≡ s.in_flight
    → s'.deadline ≡ s.deadline
    → InFlight k d s
    → InFlight k d s'
keeps-InFlight k d s s' c i u f = record {
  flying = i ∙ f.flying;
  current = c ∙ f.current;
  until = u ∙ f.until;
}

run-InFlight :
    (base k d : ℕ) (es : List Event) (s : System)
    → All (Before (token_at base k) d) es
    → InFlight k d s.attach
    → InFlight k d (run base es s).attach
unfolding unsol_hook
run-InFlight base k d [] s n f = f
run-InFlight base k d (cache socket payload datalen alloc ∷ es) s (n, ns) f =
    let keeps = cache-keeps socket payload datalen alloc s.attach in
    run-InFlight base k d es (step base (cache socket payload datalen alloc) s) ns
      (keeps-InFlight k d s.attach _ keeps.1 keeps.2 keeps.3 f)
run-InFlight base k d (complete t e response size ∷ es) s (n, ns) f =
    run-InFlight base k d es (step base (complete t e response size) s) ns
      (complete-InFlight base t k d e response size s.attach n f)
run-InFlight base k d (unsol code buffer size socket ∷ es) s (n, ns) f =
    let keeps = note_reset-keeps code socket s.attach in
    run-InFlight base k d es (step base (unsol code buffer size socket) s) ns
      (keeps-InFlight k d s.attach _ keeps.1 keeps.2 keeps.3 f)
run-InFlight base k d (work r ∷ es) s (n, ns) f =
    run-InFlight base k d es (step base (work r) s) ns
      (work-InFlight base k d n.0 r s.point s.attach n.1 n.2 f)

-- The clock fails or shows the deadline or later.
abbrev pub IsLate : ℕ → Readings → Type 0
IsLate d r = (r.now ≡ none) ⊎ ((now : ℕ) × (r.now ≡ some now) × (d ≤ now))

after_wait-late :
    (k d : ℕ) (r : Readings) (s : Attach)
    → InFlight k d s
    → IsLate d r
    → (after_wait r s).in_flight ≡ false
unfolding after_wait
after_wait-late k d r s f (inl e) = rw (e, f.flying)
after_wait-late k d r s f (inr w) = rw (w.1, f.flying) (ground (arith, w.2, f.until))

Sends-InFlight :
    (base t : ℕ) (r : Readings) (s after : System) (apn : AttachApn) (token socket : ℕ)
    → (sent : Sends base r s after apn token socket) → r.issued_at ≡ some t
    → InFlight sent.token (t + reissue_in_flight_timeout) after.attach
Sends-InFlight base t r s after apn token socket sent e =
    let keeps = charge-keeps r.charged_at _ in
    rw sent.state
      (record { flying = keeps.2; current = keeps.1; until = keeps.3 ∙ ap deadline_from e })

silent :
    (base k d : ℕ) (r : Readings) (s : System) (apn : AttachApn) (token socket : ℕ)
    → s.point ≡ look
    → InFlight k d s.attach
    → (step base (work r) s).point ≢ sending apn token socket
silent base k d r s apn token socket at f e =
    let sent = step-Sends base r s apn token socket at e in
    absurd (cc (sym f.flying ∙ (next_work-some s.attach socket sent.work).3))

gives_up :
    (base k d w : ℕ) (r : Readings) (s : System)
    → s.point ≡ timed_waiting w
    → InFlight k d s.attach
    → IsLate d r
    → (step base (work r) s).attach.in_flight ≡ false
unfolding worker_step
gives_up base k d w r s at f late = rw at (after_wait-late k d r s.attach f late)

-- A request that goes out at time `t` stays in flight as long as its own completion does not arrive and the
-- worker's clock works and shows less than t + 10 s, whatever reset indications, APNs and other completions
-- arrive meanwhile: its deadline stays, and no other request goes out. A worker in the timed wait then gives
-- the slot up at its first step at which the clock fails or shows the deadline or later.
pub deadline_latched :
    (base t : ℕ) (r r' : Readings) (es : List Event) (s : System) (apn : AttachApn)
    (token socket : ℕ)
    → s.point ≡ look
    → (step base (work r) s).point ≡ sending apn token socket
    → r.issued_at ≡ some t
    → All (Before token (t + reissue_in_flight_timeout)) es
    → let after = run base es (step base (work r) s) in
      (after.attach.in_flight ≡ true)
      × (after.attach.deadline ≡ t + reissue_in_flight_timeout)
      × ((apn' : AttachApn) (token' socket' : ℕ)
          → after.point ≡ look
          → (step base (work r') after).point ≢ sending apn' token' socket')
      × ((w : ℕ)
          → after.point ≡ timed_waiting w
          → IsLate (t + reissue_in_flight_timeout) r'
          → (step base (work r') after).attach.in_flight ≡ false)
deadline_latched base t r r' es s apn token socket at e clock quiet =
    let d = t + reissue_in_flight_timeout in
    let first = step-Sends base r s apn token socket at e in
    let start = Sends-InFlight base t r s (step base (work r) s) apn token socket first clock in
    let after = run base es (step base (work r) s) in
    let f =
      run-InFlight base first.token d es (step base (work r) s)
        (subst (λ u. All (Before u d) es) first.at quiet) start in
    (
      f.flying,
      f.until,
      λ apn' token' socket' here e'.
          silent base first.token d r' after apn' token' socket' here f e',
      λ w here late. gives_up base first.token d w r' after here f late,
    )
