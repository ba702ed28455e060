-- ===== src/Wmt/Launcher/Events.antt =====
-- wmt-launcher/main.c: the calls of the command loop, among those that are allowed.
use mathlib.Core.List.{map-append, map-map}
use android_device_xsh_k50sv.Prelude.Errno.{enodev, eintr}
use android_device_xsh_k50sv.Prelude.{
  ℕ, ◌≡◌, refl, ◌∙◌, Bool, true, false, Bool-cases, inl, inr, not, Option, none, some, List, [],
  ◌∷◌, ◌++◌, map, arith, ◌==◌, if◌then◌else◌, Result, ok, fail,
}
use android_device_xsh_k50sv.Wmt.Protocol.{WmtCommand, decode}
use android_device_xsh_k50sv.Wmt.Launcher.Commands.{Surroundings, handle_command}
use android_device_xsh_k50sv.Wmt.Launcher.Controls.{Controls, check_optional_controls}
use android_device_xsh_k50sv.Wmt.Launcher.Workers.{replay-append, check_optional_controls-calls}
use android_device_xsh_k50sv.Wmt.Launcher.Loop.{
  Round, LoopState, LoopEvent, controlled, handled, Outcome, goes_on, returns, after_command, serve,
  Revents, is_read_again, read_command, poll_command, is_finished, power_failure, check_controls,
  loop_round, command_loop,
}
use android_device_xsh_k50sv.Wmt.Launcher.Service.{happened}
use android_device_xsh_k50sv.Wmt.Launcher.Allowed.{
  launch_call, launch_calls, controls-replay, serving,
}

decode-session :
    (frame : List ℕ) (session : ℕ) (c : WmtCommand)
    → decode frame session ≡ ok c
    → c.session ≡ session
unfolding decode
decode-session frame session c h = ground (arith, h)

-- The events of a loop, each of them allowed.
abbrev Follows : ℕ → Controls → List LoopEvent → Controls → Type 0
Follows id c events d = launch_calls (map happened events) (serving id c) ≡ some (serving id d)

serve-Follows :
    (directory : List ℕ) (id : ℕ) (w : Surroundings) (frame : List ℕ) (c : Controls)
    → Follows id c (serve directory id w frame).1 c
unfolding serve
serve-Follows directory id w frame c = by_frame (decode frame id) refl
  where
    by_frame :
        (r : Result WmtCommand)
        → decode frame id ≡ r
        → Follows id c
            (elim r as (λ _. Outcome × List LoopEvent) [
              | fail e ↦ (returns (fail e), [])
              | ok command ↦ (
                after_command (handle_command w directory command).returned,
                handled command (handle_command w directory command) ∷ [],
              )
            ]).1
            c
    by_frame (fail e) p = refl
    by_frame (ok command) p =
        let same : command.session ≡ id = decode-session frame id command p in
        rw same (ground arith)

read_command-Follows :
    (directory : List ℕ) (id : ℕ) (r : Round) (c : Controls)
    → Follows id c (read_command directory id r).1 c
unfolding read_command
read_command-Follows directory id r c = by_read r.read
  where
    by_read :
        (read : Result (List ℕ))
        → Follows id c
            (elim read as (λ _. Outcome × List LoopEvent) [
              | fail e ↦ (if is_read_again e then goes_on else returns (fail e), [])
              | ok frame ↦ serve directory id r.surroundings frame
            ]).1
            c
    by_read (fail e) = refl
    by_read (ok frame) = serve-Follows directory id r.surroundings frame c

poll_command-Follows :
    (directory : List ℕ) (id : ℕ) (r : Round) (c : Controls)
    → Follows id c (poll_command directory id r).1 c
unfolding poll_command
poll_command-Follows directory id r c = by_poll r.poll
  where
    by_flags :
        (broken readable : Bool)
        → Follows id c
            (if broken
              then (returns (fail enodev), [])
              else if not readable
              then (goes_on, [])
              else read_command directory id r).1
            c
    by_flags true readable = refl
    by_flags false false = refl
    by_flags false true = read_command-Follows directory id r c

    by_poll :
        (poll : Result Revents)
        → Follows id c
            (elim poll as (λ _. Outcome × List LoopEvent) [
              | fail e ↦ (if e == eintr then goes_on else returns (fail e), [])
              | ok revents ↦
                  if revents.broken
                  then (returns (fail enodev), [])
                  else if not revents.readable
                  then (goes_on, [])
                  else read_command directory id r
            ]).1
            c
    by_poll (fail e) = refl
    by_poll (ok revents) = by_flags revents.broken revents.readable

Follows-append :
    (id : ℕ) (c d e : Controls) (xs ys : List LoopEvent)
    → Follows id c xs d
    → Follows id d ys e
    → Follows id c (xs ++ ys) e
Follows-append id c d e xs ys h k = rw (map-append happened xs ys) (
    replay-append launch_call (map happened xs) (map happened ys) (serving id c) (serving id d) h
    ∙ k)

check_controls-Follows :
    (id : ℕ) (r : Round) (s : LoopState)
    → Follows id s.controls (check_controls r s).1 (check_controls r s).0.controls
unfolding check_controls
check_controls-Follows id r s = elim (Bool-cases (is_finished r.power)) [
  | inl done ↦
      let (c, calls) = check_optional_controls r.requests s.controls in
      rw (done, map-map happened controlled calls)
        (controls-replay calls (serving id s.controls)
          ∙ check_optional_controls-calls r.requests s.controls (serving id s.controls) refl)
  | inr running ↦ rw running
]

loop_round-Follows :
    (directory : List ℕ) (id : ℕ) (r : Round) (s : LoopState)
    → Follows id s.controls (loop_round directory id r s).2 (loop_round directory id r s).1.controls
unfolding loop_round
loop_round-Follows directory id r s = by_stop r.stopping (power_failure r.power s.power_checked)
  where
    after_power : Option ℕ → Outcome × LoopState × List LoopEvent
    after_power o = elim o [
      | some e ↦ (returns (fail e), s, [])
      | none ↦ (
        (poll_command directory id r).0,
        (check_controls r s).0,
        (check_controls r s).1 ++ (poll_command directory id r).1,
      )
    ]

    by_stop :
        (stopping : Bool) (o : Option ℕ)
        → Follows id s.controls
            (if stopping then (returns (ok 0), s, []) else after_power o).2
            (if stopping then (returns (ok 0), s, []) else after_power o).1.controls
    by_stop true o = refl
    by_stop false (some e) = refl
    by_stop false none =
        Follows-append id s.controls (check_controls r s).0.controls (check_controls r s).0.controls
          (check_controls r s).1 (poll_command directory id r).1 (check_controls-Follows id r s)
          (poll_command-Follows directory id r (check_controls r s).0.controls)

-- All events of a loop over a session that is bound are allowed, and it ends with its controls' worker.
pub command_loop-Follows :
    (directory : List ℕ) (id : ℕ) (rounds : List Round) (s : LoopState)
    → Follows id s.controls
        (command_loop directory id rounds s).2
        (command_loop directory id rounds s).1.controls
unfolding command_loop
command_loop-Follows directory id [] s = refl
command_loop-Follows directory id (r ∷ rounds) s =
    by_outcome (loop_round directory id r s) (loop_round-Follows directory id r s)
      (command_loop-Follows directory id rounds)
  where
    continued :
        Outcome × LoopState × List LoopEvent → Option (Result ℕ) × LoopState × List LoopEvent
    continued o = elim o.0 [
      | returns result ↦ (some result, o.1, o.2)
      | goes_on ↦ (
        (command_loop directory id rounds o.1).0,
        (command_loop directory id rounds o.1).1,
        o.2 ++ (command_loop directory id rounds o.1).2,
      )
    ]

    by_outcome :
        (o : Outcome × LoopState × List LoopEvent)
        → Follows id s.controls o.2 o.1.controls
        → ((t : LoopState)
            → Follows id t.controls
                (command_loop directory id rounds t).2
                (command_loop directory id rounds t).1.controls)
        → Follows id s.controls (continued o).2 (continued o).1.controls
    by_outcome (returns result, t, events) h ih = h
    by_outcome (goes_on, t, events) h ih =
        Follows-append id s.controls t.controls (command_loop directory id rounds t).1.controls
          events (command_loop directory id rounds t).2 h (ih t)
