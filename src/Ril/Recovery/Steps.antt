-- ===== src/Ril/Recovery/Steps.antt =====
-- The steps of the recovery and its invariant.
use android_device_xsh_k50sv.Prelude.{
  ℕ, ◌-◌, ◌/◌, ◌<◌, ◌≡◌, Bool, true, false, not, Option, none, some, List, [], ◌∷◌, leb,
  if◌then◌else◌, get_or, arith,
}
use android_device_xsh_k50sv.Ril.Types.{sim_count, RilErrno}
use android_device_xsh_k50sv.Ril.Attach.{
  Attach, real_complete, token_slots, complete_hook, unsol_hook, is_reissue_token, token_size,
  complete_own,
}
use android_device_xsh_k50sv.Ril.Worker.{
  Point, look, waiting, relative_sleep, timed_waiting, sleeping, sending, Readings, worker_step,
  next_work, idle, after_wait, release,
}
use android_device_xsh_k50sv.Ril.Worker.Looked.{Looked, look_cases}
use android_device_xsh_k50sv.Ril.Recovery.{System, Event, cache, complete, unsol, work, step, run}
use android_device_xsh_k50sv.Ril.Recovery.Invariant.{
  IsValid, complete_own-IsValid, note_reset-IsValid, cache_initial_attach_apn-IsValid,
  pick_socket-some, pick_token-some, charge-IsValid, taken-IsValid, issued-IsValid, release-IsValid,
}

-- A socket that has work is pending and cached, and no request is in flight.
pub next_work-some :
    (s : Attach) (i : ℕ)
    → next_work s ≡ some i
    → i < sim_count
      × (get_or s.pending i false ≡ true)
      × (get_or s.cached i false ≡ true)
      × (s.in_flight ≡ false)
next_work-some s i e = ground (arith, pick_socket-some s sim_count i)

idle-IsValid : (s : Attach) → IsValid s → IsValid (idle s).1
unfolding idle
idle-IsValid s v = record {
  tokens_sized = ground (arith, v.tokens_sized);
  cache_sized = ground (arith, v.cache_sized);
  cached_sized = ground (arith, v.cached_sized);
  pending_sized = ground (arith, v.pending_sized);
  backed = λ j e. ground (arith, v.backed j);
  held = ground (arith, v.held);
  no_deadline = ground (arith, v.no_deadline);
  token_in_range = ground (arith, v.token_in_range);
  socket_in_range = ground (arith, v.socket_in_range);
}

Looked-IsValid :
    (base : ℕ) (r : Readings) (s : Attach) (after : Point × Attach)
    → IsValid s
    → Looked base r s after
    → IsValid after.1
Looked-IsValid base r s _ v (Looked.issues i k now outgoing chosen clock free token copy) =
    issued-IsValid i k r s (next_work-some s i chosen).0 (pick_token-some s token_slots k token).0 v
Looked-IsValid base r s _ v (Looked.no_memory i k now chosen clock free token copy) =
    charge-IsValid r.charged_at s v
Looked-IsValid base r s _ v (Looked.exhausted i now chosen clock free token) =
    charge-IsValid r.charged_at _ (taken-IsValid i s v)
Looked-IsValid base r s _ v (Looked.too_early i now t chosen clock limit) = v
Looked-IsValid base r s _ v (Looked.no_clock i chosen clock) = v
Looked-IsValid base r s _ v (Looked.rests chosen) = idle-IsValid s v

after_wait-IsValid : (r : Readings) (s : Attach) → IsValid s → IsValid (after_wait r s)
unfolding after_wait
after_wait-IsValid r s v = by_flight s.in_flight r.now
  where
    by_release : (b : Bool) → IsValid (if b then release s else s)
    by_release true = release-IsValid s v
    by_release false = v

    by_flight :
        (b : Bool) (now : Option ℕ)
        → IsValid (
            if not b then s else elim now as (λ _. Attach) [
              | none ↦ release s
              | some t ↦ if leb s.deadline t then release s else s
            ])
    by_flight false now = v
    by_flight true none = release-IsValid s v
    by_flight true (some t) = by_release (leb s.deadline t)

worker_step-IsValid :
    (base : ℕ) (r : Readings) (point : Point) (s : Attach)
    → IsValid s
    → IsValid (worker_step base r point s).1
unfolding worker_step
worker_step-IsValid base r look s v =
    Looked-IsValid base r s (worker_step base r look s) v (look_cases base r s)
worker_step-IsValid base r (timed_waiting t) s v = after_wait-IsValid r s v
worker_step-IsValid base r waiting s v = v
worker_step-IsValid base r relative_sleep s v = v
worker_step-IsValid base r (sleeping t) s v = v
worker_step-IsValid base r (sending apn token socket) s v = v

complete_hook-IsValid :
    (base t : ℕ) (e : RilErrno) (response size : ℕ) (s : Attach)
    → IsValid s
    → IsValid (complete_hook base t e response size s).0
unfolding complete_hook
complete_hook-IsValid base t e response size s v =
    by_token (is_reissue_token base t) s.complete_published
  where
    by_token :
        (own published : Bool)
        → IsValid
            (if own
              then complete_own ((t - base) / token_size) s
              else if published
              then (s, real_complete t e response size ∷ [])
              else (s, [])).0
    by_token true published = complete_own-IsValid ((t - base) / token_size) s v
    by_token false true = v
    by_token false false = v

pub step-IsValid :
    (base : ℕ) (e : Event) (s : System) → IsValid s.attach → IsValid (step base e s).attach
unfolding unsol_hook
step-IsValid base (cache socket payload datalen alloc) s v =
    cache_initial_attach_apn-IsValid socket payload datalen alloc s.attach v
step-IsValid base (complete t e response size) s v =
    complete_hook-IsValid base t e response size s.attach v
step-IsValid base (unsol code buffer size socket) s v = note_reset-IsValid code socket s.attach v
step-IsValid base (work r) s v = worker_step-IsValid base r s.point s.attach v

-- After any sequence of calls and worker steps from a valid state, only a cached APN is pending, the
-- request in flight holds its token, there is a deadline only while one is in flight, the arrays have
-- their sizes, and the current token and the next socket are in range.
pub run-IsValid :
    (base : ℕ) (es : List Event) (s : System) → IsValid s.attach → IsValid (run base es s).attach
run-IsValid base [] s v = v
run-IsValid base (e ∷ es) s v = run-IsValid base es (step base e s) (step-IsValid base e s v)
