-- ===== src/Ril/Worker.antt =====
-- `iaWorker` of ril-shim/k50sv1_ril_shim.c as a state machine: each step is what the worker does from one
-- point at which it does not hold `sIaLock` to the next, or up to a `continue` of the inner loop. A clock
-- reading may fail: `none`.
pub mod Looked
use android_device_xsh_k50sv.Prelude.{
  ℕ, zero, suc, ◌+◌, ◌-◌, ◌*◌, ◌%◌, Bool, true, false, not, ◌&&◌, Option, none, some, List, [], ◌∷◌,
  ltb, leb, ◌==◌, if◌then◌else◌, get_or, set,
}
use android_device_xsh_k50sv.Ril.Types.{AttachApn, sim_count}
use android_device_xsh_k50sv.Ril.Attach.{Attach, token_slots, token_at, copy_ia, empty_apn}

-- REISSUE_MIN_INTERVAL_NS and REISSUE_INFLIGHT_TIMEOUT_NS
abbrev pub reissue_min_interval : ℕ
reissue_min_interval = 1000000000

abbrev pub reissue_in_flight_timeout : ℕ
reissue_in_flight_timeout = 10000000000

-- Where the worker is: about to lock and look for work, in pthread_cond_wait, in pthread_cond_timedwait,
-- in a sleep until a time or of one interval, or about to call sRealOnRequest.
pub data Point : Type 0 where
  look waiting relative_sleep : Point
  timed_waiting : ℕ → Point
  sleeping : ℕ → Point
  sending : AttachApn → ℕ → ℕ → Point

-- The clock readings of one step, in the order of the code, and the outcomes of the copy's allocations.
pub record Readings : Type 0 where
  pub now : Option ℕ
  pub issued_at : Option ℕ
  pub charged_at : Option ℕ
  pub alloc : ℕ → Bool

-- The sockets from `next_socket` on, `n` of them left.
unfoldable pub pick_socket : Attach → ℕ → Option ℕ
pick_socket s zero = none
pick_socket s (suc n) =
    let i = (s.next_socket + (sim_count - suc n)) % sim_count in
    if get_or s.pending i false && get_or s.cached i false then some i else pick_socket s n

abbrev pub next_work : Attach → Option ℕ
next_work s = if not s.in_flight then pick_socket s sim_count else none

-- The tokens after the current one, `n` of them left.
unfoldable pub pick_token : Attach → ℕ → Option ℕ
pick_token s zero = none
pick_token s (suc n) =
    let index = (s.current_token + (suc token_slots - suc n)) % token_slots in
    if not (get_or s.outstanding index false) then some index else pick_token s n

-- sIaLastIssue after `clock_gettime`, which leaves it alone when it fails.
abbrev pub charge : Option ℕ → Attach → Attach
charge none s = record s { last_issue_valid = false }
charge (some t) s = record s { last_issue_valid = true; last_issue = t }

-- When the rate limit allows the next request, if that is later than now.
abbrev pub wait_until : Attach → ℕ → Option ℕ
wait_until s now =
    if s.last_issue_valid && ltb now (s.last_issue + reissue_min_interval)
    then some (s.last_issue + reissue_min_interval)
    else none

abbrev pub deadline_from : Option ℕ → ℕ
deadline_from none = 0
deadline_from (some t) = t + reissue_in_flight_timeout

-- The assignments that make a request the current one.
abbrev pub issued : ℕ → ℕ → Readings → Attach → Attach
issued socket token r s = charge r.charged_at (record s {
  pending = set s.pending socket false;
  in_flight = true;
  current_token = token;
  outstanding = set s.outstanding token true;
  deadline = deadline_from r.issued_at;
  next_socket = (socket + 1) % sim_count;
})

-- From the choice of a token on.
unfoldable pub issue : ℕ → ℕ → Readings → Attach → Point × Attach
issue base socket r s = elim (pick_token s token_slots) [
  | none ↦ (look, charge r.charged_at (record s { pending = set s.pending socket false }))
  | some token ↦ elim (copy_ia r.alloc (get_or s.cache socket empty_apn)) [
    | none ↦ (look, charge r.charged_at s)
    | some outgoing ↦ (sending outgoing (token_at base token) socket, issued socket token r s)
  ]
]

-- A socket has work: the rate limit, then the request.
unfoldable pub limited : ℕ → ℕ → Readings → Attach → Point × Attach
limited base socket r s = elim r.now [
  | none ↦ (relative_sleep, s)
  | some now ↦ elim (wait_until s now) [ some t ↦ (sleeping t, s) | none ↦ issue base socket r s ]
]

-- No socket has work.
unfoldable pub idle : Attach → Point × Attach
idle s =
    if s.in_flight
    then (if s.deadline == 0
        then (look, record s { in_flight = false })
        else (timed_waiting s.deadline, s))
    else (waiting, s)

abbrev pub release : Attach → Attach
release s = record s { in_flight = false; deadline = 0 }

-- After pthread_cond_timedwait, for whatever reason it returned.
unfoldable pub after_wait : Readings → Attach → Attach
after_wait r s =
    if not s.in_flight
    then s
    else elim r.now [ none ↦ release s | some now ↦ if leb s.deadline now then release s else s ]

-- One step; a `sending` point has made its call when it is left.
unfoldable pub worker_step : ℕ → Readings → Point → Attach → Point × Attach
worker_step base r look s = elim (next_work s) [
  | some socket ↦ limited base socket r s
  | none ↦ idle s
]
worker_step base r (timed_waiting t) s = (look, after_wait r s)
worker_step base r _ s = (look, s)
