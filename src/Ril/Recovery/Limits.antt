-- ===== src/Ril/Recovery/Limits.antt =====
-- The worker's requests over time: the distance between them.
use android_device_xsh_k50sv.Prelude.{
  ℕ, ◌+◌, ◌≤◌, ◌≡◌, refl, sym, subst, true, Option, none, some, List, [], ◌∷◌, arith, All,
}
use android_device_xsh_k50sv.Ril.Types.{RilErrno, AttachApn}
use android_device_xsh_k50sv.Ril.Attach.{Attach, complete_hook, unsol_hook, complete_own}
use android_device_xsh_k50sv.Ril.Worker.{
  Point, look, waiting, relative_sleep, timed_waiting, sleeping, sending, Readings, worker_step,
  idle, after_wait, wait_until, charge, reissue_min_interval,
}
use android_device_xsh_k50sv.Ril.Worker.Looked.{Looked, look_cases}
use android_device_xsh_k50sv.Ril.Recovery.{System, Event, cache, complete, unsol, work, step, run}
use android_device_xsh_k50sv.Ril.Recovery.Replays.{cache-keeps, note_reset-keeps, step-Sends}

-- The last issue is recorded, and is not before `t`.
abbrev IssuedFrom : ℕ → Attach → Type 0
IssuedFrom t s = (s.last_issue_valid ≡ true) × (t ≤ s.last_issue)

-- The clock works when the worker charges an attempt, and does not go back behind `t`.
abbrev pub ChargesFrom : ℕ → Event → Type 0
ChargesFrom t (work r) = (u : ℕ) × (r.charged_at ≡ some u) × (t ≤ u)
ChargesFrom t _ = Unit

complete-issue :
    (base t : ℕ) (e : RilErrno) (response size : ℕ) (s : Attach)
    → let after = (complete_hook base t e response size s).0 in
      (after.last_issue_valid ≡ s.last_issue_valid) × (after.last_issue ≡ s.last_issue)
unfolding complete_hook complete_own
complete-issue base t e response size s = ground arith

charge-issue :
    (t u : ℕ) (o : Option ℕ) (s : Attach) → o ≡ some u → t ≤ u → IssuedFrom t (charge o s)
charge-issue t u o s e h = rw e (refl, h)

idle-issue : (t : ℕ) (s : Attach) → IssuedFrom t s → IssuedFrom t (idle s).1
unfolding idle
idle-issue t s h = ground arith

after_wait-issue :
    (t : ℕ) (r : Readings) (s : Attach) → IssuedFrom t s → IssuedFrom t (after_wait r s)
unfolding after_wait
after_wait-issue t r s h = ground arith

Looked-issue :
    (base t u : ℕ) (r : Readings) (s : Attach) (after : Point × Attach)
    → r.charged_at ≡ some u
    → t ≤ u
    → IssuedFrom t s
    → Looked base r s after
    → IssuedFrom t after.1
Looked-issue base t u r s _ e le h
      (Looked.issues i token now outgoing chosen clock free picked copy) =
    charge-issue t u r.charged_at _ e le
Looked-issue base t u r s _ e le h (Looked.no_memory i token now chosen clock free picked copy) =
    charge-issue t u r.charged_at _ e le
Looked-issue base t u r s _ e le h (Looked.exhausted i now chosen clock free picked) =
    charge-issue t u r.charged_at _ e le
Looked-issue base t u r s _ e le h (Looked.too_early i now w chosen clock limit) = h
Looked-issue base t u r s _ e le h (Looked.no_clock i chosen clock) = h
Looked-issue base t u r s _ e le h (Looked.rests chosen) = idle-issue t s h

work-issue :
    (base t u : ℕ) (r : Readings) (point : Point) (s : Attach)
    → r.charged_at ≡ some u
    → t ≤ u
    → IssuedFrom t s
    → IssuedFrom t (worker_step base r point s).1
unfolding worker_step
work-issue base t u r look s e le h =
    Looked-issue base t u r s (worker_step base r look s) e le h (look_cases base r s)
work-issue base t u r (timed_waiting w) s e le h = after_wait-issue t r s h
work-issue base t u r waiting s e le h = h
work-issue base t u r relative_sleep s e le h = h
work-issue base t u r (sleeping w) s e le h = h
work-issue base t u r (sending apn token socket) s e le h = h

run-issue :
    (base t : ℕ) (es : List Event) (s : System)
    → All (ChargesFrom t) es
    → IssuedFrom t s.attach
    → IssuedFrom t (run base es s).attach
unfolding unsol_hook
run-issue base t [] s n h = h
run-issue base t (cache socket payload datalen alloc ∷ es) s (n, ns) h =
    run-issue base t es (step base (cache socket payload datalen alloc) s) ns
      (let keeps = cache-keeps socket payload datalen alloc s.attach in rw (keeps.4, keeps.5) h)
run-issue base t (complete u e response size ∷ es) s (n, ns) h =
    run-issue base t es (step base (complete u e response size) s) ns
      (let keeps = complete-issue base u e response size s.attach in rw (keeps.0, keeps.1) h)
run-issue base t (unsol code buffer size socket ∷ es) s (n, ns) h =
    run-issue base t es (step base (unsol code buffer size socket) s) ns
      (let keeps = note_reset-keeps code socket s.attach in rw (keeps.4, keeps.5) h)
run-issue base t (work r ∷ es) s (n, ns) h =
    run-issue base t es (step base (work r) s) ns
      (work-issue base t n.0 r s.point s.attach n.1 n.2 h)

allowed-interval :
    (t now : ℕ) (s : Attach)
    → IssuedFrom t s
    → wait_until s now ≡ none
    → t + reissue_min_interval ≤ now
allowed-interval t now s h e = ground arith

-- Requests are issued at most once a second: if the worker issues one at time `t`, the clock works and
-- does not go back behind `t`, then whatever happens, the clock shows at least t + 1 s when the worker
-- issues another.
pub issues_spaced :
    (base t now : ℕ) (r r' : Readings) (es : List Event) (s : System) (apn apn' : AttachApn)
    (token token' socket socket' : ℕ)
    → s.point ≡ look
    → (step base (work r) s).point ≡ sending apn token socket
    → r.charged_at ≡ some t
    → All (ChargesFrom t) es
    → (run base es (step base (work r) s)).point ≡ look
    → (step base (work r') (run base es (step base (work r) s))).point ≡ sending apn' token' socket'
    → r'.now ≡ some now
    → t + reissue_min_interval ≤ now
issues_spaced base t now r r' es s apn apn' token token' socket socket' at e charged later at' e'
      clock =
    let first = step-Sends base r s apn token socket at e in
    let second =
      step-Sends base r' (run base es (step base (work r) s)) apn' token' socket' at' e' in
    let recorded =
      subst (IssuedFrom t) (sym first.state)
        (charge-issue t t r.charged_at _ charged (omega arith)) in
    let spaced =
      allowed-interval t second.now (run base es (step base (work r) s)).attach
        (run-issue base t es (step base (work r) s) later recorded) second.allowed in
    ground (arith, spaced, second.clock, clock)
