-- ===== src/Wmt/Launcher/Rounds.antt =====
-- wmt-launcher/main.c, one round of command_loop: why it ends the loop, if it does, and which command it answers.
use android_device_xsh_k50sv.Prelude.{
  ℕ, ◌≡◌, inl, inr, refl, Bool, true, false, Bool-cases, not, Option, none, some, List, [], ◌∷◌,
  ◌++◌, map, arith, ◌==◌, if◌then◌else◌, Result, ok, fail, All,
}
use android_device_xsh_k50sv.Prelude.Errno.{enodev, eintr}
use android_device_xsh_k50sv.Wmt.Protocol.{WmtCommand, decode}
use android_device_xsh_k50sv.Wmt.Launcher.Commands.{handle_command}
use android_device_xsh_k50sv.Wmt.Launcher.Controls.{ControlCall}
use android_device_xsh_k50sv.Wmt.Launcher.Loop.{
  Round, Revents, LoopState, LoopEvent, controlled, handled, Outcome, goes_on, returns,
  after_command, is_expired, serve, is_read_again, read_command, poll_command, is_finished,
  power_failure, check_controls, loop_round,
}
use android_device_xsh_k50sv.Wmt.Launcher.RoundEnds.{
  stop, power, poll, device, reading, frame, command, AnswersOne, IsRound,
}

after_command-Ends :
    (directory : List ℕ) (session : ℕ) (r : Round) (checked : Bool) (bytes : List ℕ)
    (c : WmtCommand)
    → r.read ≡ ok bytes
    → decode bytes session ≡ ok c
    → (returned : Result ℕ) → (handle_command r.surroundings directory c).returned ≡ returned
    → IsRound directory session r checked
        (after_command returned)
        (handled c (handle_command r.surroundings directory c) ∷ [])
after_command-Ends directory session r checked bytes c read decoded returned e =
    by_returned returned e
  where
    events :
        All
          (AnswersOne directory session (r ∷ []))
          (handled c (handle_command r.surroundings directory c) ∷ [])
    events = (inl (record { bytes = bytes; read = read; decoded = decoded; answer = refl }), tt)

    by_expired :
        (x : ℕ) (b : Bool)
        → (handle_command r.surroundings directory c).returned ≡ fail x
        → is_expired x ≡ b
        → IsRound directory session r checked
            (if b then goes_on else returns (fail x))
            (handled c (handle_command r.surroundings directory c) ∷ [])
    by_expired x true e p = events
    by_expired x false e p = (command bytes c x read decoded e p refl, events)

    by_returned :
        (t : Result ℕ)
        → (handle_command r.surroundings directory c).returned ≡ t
        → IsRound directory session r checked
            (after_command t)
            (handled c (handle_command r.surroundings directory c) ∷ [])
    by_returned (ok n) e = events
    by_returned (fail x) e = by_expired x (is_expired x) e refl

serve-IsRound :
    (directory : List ℕ) (session : ℕ) (r : Round) (checked : Bool) (bytes : List ℕ)
    → r.read ≡ ok bytes
    → IsRound directory session r checked
        (serve directory session r.surroundings bytes).0
        (serve directory session r.surroundings bytes).1
unfolding serve
serve-IsRound directory session r checked bytes read = by_frame (decode bytes session) refl
  where
    by_frame :
        (d : Result WmtCommand)
        → decode bytes session ≡ d
        → let o : Outcome × List LoopEvent = elim d [
          | fail e ↦ (returns (fail e), [])
          | ok c ↦ (
            after_command (handle_command r.surroundings directory c).returned,
            handled c (handle_command r.surroundings directory c) ∷ [],
          )
        ] in
          IsRound directory session r checked o.0 o.1
    by_frame (fail e) p = (frame bytes e read p refl, tt)
    by_frame (ok c) p =
        after_command-Ends directory session r checked bytes c read p
          (handle_command r.surroundings directory c).returned refl

read_command-IsRound :
    (directory : List ℕ) (session : ℕ) (r : Round) (checked : Bool)
    → IsRound directory session r checked
        (read_command directory session r).0
        (read_command directory session r).1
unfolding read_command
read_command-IsRound directory session r checked = by_read r.read refl
  where
    again :
        (e : ℕ) (b : Bool)
        → r.read ≡ fail e
        → is_read_again e ≡ b
        → IsRound directory session r checked (if b then goes_on else returns (fail e)) []
    again e true p q = tt
    again e false p q = (reading e p q refl, tt)

    by_read :
        (read : Result (List ℕ))
        → r.read ≡ read
        → let o : Outcome × List LoopEvent = elim read [
          | fail e ↦ (if is_read_again e then goes_on else returns (fail e), [])
          | ok bytes ↦ serve directory session r.surroundings bytes
        ] in
          IsRound directory session r checked o.0 o.1
    by_read (fail e) p = again e (is_read_again e) p refl
    by_read (ok bytes) p = serve-IsRound directory session r checked bytes p

poll_command-IsRound :
    (directory : List ℕ) (session : ℕ) (r : Round) (checked : Bool)
    → IsRound directory session r checked
        (poll_command directory session r).0
        (poll_command directory session r).1
unfolding poll_command
poll_command-IsRound directory session r checked = by_poll r.poll refl
  where
    again :
        (e : ℕ) (b : Bool)
        → r.poll ≡ fail e
        → (e == eintr) ≡ b
        → IsRound directory session r checked (if b then goes_on else returns (fail e)) []
    again e true p q = tt
    again e false p q = (poll e p (ground arith) refl, tt)

    by_flags :
        (revents : Revents)
        → r.poll ≡ ok revents
        → (broken readable : Bool) → revents.broken ≡ broken
        → let o : Outcome × List LoopEvent =
            if broken
            then (returns (fail enodev), [])
            else if not readable
            then (goes_on, [])
            else read_command directory session r in
          IsRound directory session r checked o.0 o.1
    by_flags revents p true readable q = (device revents p q refl, tt)
    by_flags revents p false false q = tt
    by_flags revents p false true q = read_command-IsRound directory session r checked

    by_poll :
        (result : Result Revents)
        → r.poll ≡ result
        → let o : Outcome × List LoopEvent = elim result [
          | fail e ↦ (if e == eintr then goes_on else returns (fail e), [])
          | ok revents ↦
              if revents.broken
              then (returns (fail enodev), [])
              else if not revents.readable
              then (goes_on, [])
              else read_command directory session r
        ] in
          IsRound directory session r checked o.0 o.1
    by_poll (fail e) p = again e (e == eintr) p refl
    by_poll (ok revents) p = by_flags revents p revents.broken revents.readable refl

-- The checks of the controls answer no command.
controlled-All :
    (directory : List ℕ) (session : ℕ) (rounds : List Round) (calls : List ControlCall)
    → All (AnswersOne directory session rounds) (map controlled calls)
controlled-All directory session rounds [] = tt
controlled-All directory session rounds (c ∷ calls) =
    (tt, controlled-All directory session rounds calls)

check_controls-All :
    (directory : List ℕ) (session : ℕ) (rounds : List Round) (r : Round) (s : LoopState)
    → All (AnswersOne directory session rounds) (check_controls r s).1
unfolding check_controls
check_controls-All directory session rounds r s = elim (Bool-cases (is_finished r.power)) [
  | inl done ↦ rw done (controlled-All directory session rounds _)
  | inr running ↦ rw running tt
]

pub All-join {ℓ κ} :
    {A : Type ℓ} (P : A → Type κ) (xs ys : List A) → All P xs → All P ys → All P (xs ++ ys)
All-join P [] ys h k = k
All-join P (x ∷ xs) ys (here, rest) k = (here, All-join P xs ys rest k)

pub loop_round-IsRound :
    (directory : List ℕ) (session : ℕ) (r : Round) (s : LoopState)
    → IsRound directory session r s.power_checked
        (loop_round directory session r s).0
        (loop_round directory session r s).2
unfolding loop_round
loop_round-IsRound directory session r s =
    by_stop r.stopping refl (power_failure r.power s.power_checked) refl
  where
    failed :
        (p : Option (Result ℕ)) (checked : Bool) (e : ℕ)
        → power_failure p checked ≡ some e
        → (checked ≡ false) × (p ≡ some (fail e))
    failed none false e h = absurd (cc)
    failed none true e h = absurd (cc)
    failed (some (ok n)) false e h = absurd (cc)
    failed (some (ok n)) true e h = absurd (cc)
    failed (some (fail x)) false e h = (refl, cc)
    failed (some (fail x)) true e h = absurd (cc)

    polled :
        (o : Outcome × List LoopEvent)
        → IsRound directory session r s.power_checked o.0 o.1
        → IsRound directory session r s.power_checked o.0 ((check_controls r s).1 ++ o.1)
    polled (goes_on, events) h =
        All-join (AnswersOne directory session (r ∷ [])) (check_controls r s).1 events
          (check_controls-All directory session (r ∷ []) r s) h
    polled (returns result, events) (ends, h) = (
      ends,
      All-join (AnswersOne directory session (r ∷ [])) (check_controls r s).1 events
          (check_controls-All directory session (r ∷ []) r s) h,
    )

    by_stop :
        (stopping : Bool)
        → r.stopping ≡ stopping
        → (o : Option ℕ) → power_failure r.power s.power_checked ≡ o
        → let t : Outcome × LoopState × List LoopEvent =
            if stopping then (returns (ok 0), s, []) else (elim o [
              | some e ↦ (returns (fail e), s, [])
              | none ↦ (
                (poll_command directory session r).0,
                (check_controls r s).0,
                (check_controls r s).1 ++ (poll_command directory session r).1,
              )
            ]) in
          IsRound directory session r s.power_checked t.0 t.2
    by_stop true p o q = (stop p refl, tt)
    by_stop false p (some e) q =
        let (unchecked, is) = failed r.power s.power_checked e q in (power e unchecked is refl, tt)
    by_stop false p none q =
        polled (poll_command directory session r)
          (poll_command-IsRound directory session r s.power_checked)
