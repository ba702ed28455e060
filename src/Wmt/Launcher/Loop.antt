-- ===== src/Wmt/Launcher/Loop.antt =====
-- wmt-launcher/main.c: command_loop. What each round meets is a list; a run whose rounds are used up is still
-- going on.
use android_device_xsh_k50sv.Prelude.{
  ℕ, Bool, true, false, not, ◌||◌, Option, none, some, List, [], ◌∷◌, ◌++◌, map, ◌==◌,
  if◌then◌else◌, Result, ok, fail,
}
use android_device_xsh_k50sv.Prelude.Errno.{
  enoent, enodev, eintr, eagain, estale, ecanceled, etimedout,
}
use android_device_xsh_k50sv.Wmt.Protocol.{WmtCommand, decode}
use android_device_xsh_k50sv.Wmt.Launcher.Commands.{Surroundings, Handled, handle_command}
use android_device_xsh_k50sv.Wmt.Launcher.Controls.{
  Controls, Requests, ControlCall, check_optional_controls,
}

-- revents: one of POLLERR, POLLHUP and POLLNVAL, and POLLIN.
pub record Revents : Type 0 where
  pub broken : Bool
  pub readable : Bool

-- Whether a stop is requested, the result of the power thread if it has finished, what check_optional_controls,
-- poll and read meet, and what handle_command meets.
pub record Round : Type 0 where
  pub stopping : Bool
  pub power : Option (Result ℕ)
  pub requests : Requests
  pub poll : Result Revents
  pub read : Result (List ℕ)
  pub surroundings : Surroundings

-- The local variable `power_checked`, and the controls of main.
pub record LoopState : Type 0 where
  pub power_checked : Bool
  pub controls : Controls

pub data LoopEvent : Type 0 where
  controlled : ControlCall → LoopEvent
  handled : WmtCommand → Handled → LoopEvent

pub data Outcome : Type 0 where
  goes_on : Outcome
  returns : Result ℕ → Outcome

-- The errors after which the transaction is dropped and the loop goes on.
abbrev pub is_expired : ℕ → Bool
is_expired e = e == estale || e == ecanceled || e == etimedout || e == enoent

abbrev pub after_command : Result ℕ → Outcome
after_command (ok n) = goes_on
after_command (fail e) = if is_expired e then goes_on else returns (fail e)

-- A frame that was read.
unfoldable pub serve : List ℕ → ℕ → Surroundings → List ℕ → Outcome × List LoopEvent
serve directory session w frame = elim (decode frame session) [
  | fail e ↦ (returns (fail e), [])
  | ok c ↦ let h = handle_command w directory c in (after_command h.returned, handled c h ∷ [])
]

abbrev pub is_read_again : ℕ → Bool
is_read_again e = e == eintr || e == eagain || e == etimedout

unfoldable pub read_command : List ℕ → ℕ → Round → Outcome × List LoopEvent
read_command directory session r = elim r.read [
  | fail e ↦ (if is_read_again e then goes_on else returns (fail e), [])
  | ok frame ↦ serve directory session r.surroundings frame
]

unfoldable pub poll_command : List ℕ → ℕ → Round → Outcome × List LoopEvent
poll_command directory session r = elim r.poll [
  | fail e ↦ (if e == eintr then goes_on else returns (fail e), [])
  | ok revents ↦
      if revents.broken
      then (returns (fail enodev), [])
      else if not revents.readable
      then (goes_on, [])
      else read_command directory session r
]

-- A failure of the power thread ends the loop when it is first seen.
abbrev pub power_failure : Option (Result ℕ) → Bool → Option ℕ
power_failure (some (fail e)) false = some e
power_failure _ checked = none

abbrev pub is_finished : Option (Result ℕ) → Bool
is_finished none = false
is_finished (some result) = true

-- The controls are checked once the power thread has finished.
unfoldable pub check_controls : Round → LoopState → LoopState × List LoopEvent
check_controls r s =
    if is_finished r.power
    then (let (c, calls) = check_optional_controls r.requests s.controls in
        (record { power_checked = true; controls = c }, map controlled calls))
    else (s, [])

unfoldable pub loop_round : List ℕ → ℕ → Round → LoopState → Outcome × LoopState × List LoopEvent
loop_round directory session r s =
    if r.stopping then (returns (ok 0), s, []) else (elim (power_failure r.power s.power_checked) [
      | some e ↦ (returns (fail e), s, [])
      | none ↦
          let (t, controls) = check_controls r s in
          let (outcome, served) = poll_command directory session r in
          (outcome, t, controls ++ served)
    ])

-- What the loop returns, if the rounds bring it to an end.
unfoldable pub command_loop :
    List ℕ → ℕ → List Round → LoopState → Option (Result ℕ) × LoopState × List LoopEvent
command_loop directory session [] s = (none, s, [])
command_loop directory session (r ∷ rounds) s =
    let (outcome, t, events) = loop_round directory session r s in
    elim outcome [
      | returns result ↦ (some result, t, events)
      | goes_on ↦
          let (result, last, later) = command_loop directory session rounds t in
          (result, last, events ++ later)
    ]
