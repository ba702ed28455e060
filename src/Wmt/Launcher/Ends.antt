-- ===== src/Wmt/Launcher/Ends.antt =====
-- wmt-launcher/main.c, command_loop: what ends it, and which commands it answers.
use android_device_xsh_k50sv.Prelude.{
  ℕ, ◌≡◌, ◌⊎◌, inl, inr, refl, subst, Bool, true, false, Option, none, some, List, [], ◌∷◌, ◌++◌,
  map, Result, ok, fail, All, if◌then◌else◌,
}
use android_device_xsh_k50sv.Wmt.Launcher.Loop.{
  Round, LoopState, LoopEvent, controlled, handled, Outcome, goes_on, returns, loop_round,
  command_loop, is_finished, power_failure, poll_command, check_controls,
}
use android_device_xsh_k50sv.Wmt.Launcher.Controls.{check_optional_controls}
use android_device_xsh_k50sv.Wmt.Launcher.RoundEnds.{Ends, AnswersOne, IsRound}
use android_device_xsh_k50sv.Wmt.Launcher.Rounds.{All-join, loop_round-IsRound}

-- Whether the end of the power thread has been seen after a round.
abbrev pub seen_after : Option (Result ℕ) → Bool → Bool
seen_after none checked = checked
seen_after (some result) checked = true

-- One of the rounds ends the loop with this result. `checked` tells whether the end of the power thread was
-- seen before the first of them.
abbrev pub EndsOne : List ℕ → ℕ → Bool → List Round → Result ℕ → Type 0
EndsOne directory session checked [] result = ⊥
EndsOne directory session checked (r ∷ rounds) result =
    Ends directory session r checked result
    ⊎ EndsOne directory session (seen_after r.power checked) rounds result

-- A round after which the loop goes on notes that it has seen the end of the power thread.
loop_round-checked :
    (directory : List ℕ) (session : ℕ) (r : Round) (s : LoopState)
    → (loop_round directory session r s).0 ≡ goes_on
    → (loop_round directory session r s).1.power_checked ≡ seen_after r.power s.power_checked
unfolding loop_round check_controls
loop_round-checked directory session r s =
    by_stop r.stopping r.power (power_failure r.power s.power_checked)
  where
    by_stop :
        (stopping : Bool) (p : Option (Result ℕ)) (o : Option ℕ)
        → let checks : LoopState × List LoopEvent =
            if is_finished p
            then (let (c, calls) = check_optional_controls r.requests s.controls in
                (record { power_checked = true; controls = c }, map controlled calls))
            else (s, []) in
          let t : Outcome × LoopState × List LoopEvent =
            if stopping then (returns (ok 0), s, []) else (elim o [
              | some e ↦ (returns (fail e), s, [])
              | none ↦ (
                (poll_command directory session r).0,
                checks.0,
                checks.1 ++ (poll_command directory session r).1,
              )
            ]) in
          t.0 ≡ goes_on → t.1.power_checked ≡ seen_after p s.power_checked
    by_stop true p o h = absurd (cc)
    by_stop false p (some e) h = absurd (cc)
    by_stop false none none h = refl
    by_stop false (some result) none h = refl

-- No round has met a requested stop or a failure of the power thread whose end was not seen before.
abbrev pub GoesOn : Bool → List Round → Type 0
GoesOn checked [] = Unit {0}
GoesOn checked (r ∷ rounds) =
    (r.stopping ≡ false)
    × (checked ≡ false → (e : ℕ) → ¬ (r.power ≡ some (fail e)))
    × GoesOn (seen_after r.power checked) rounds

loop_round-goes_on :
    (directory : List ℕ) (session : ℕ) (r : Round) (s : LoopState)
    → (loop_round directory session r s).0 ≡ goes_on
    → (r.stopping ≡ false) × (s.power_checked ≡ false → (e : ℕ) → ¬ (r.power ≡ some (fail e)))
unfolding loop_round
loop_round-goes_on directory session r s =
    by_stop r.stopping (power_failure r.power s.power_checked) (unseen r.power s.power_checked)
  where
    unseen :
        (p : Option (Result ℕ)) (checked : Bool)
        → power_failure p checked ≡ none
        → checked ≡ false
        → (e : ℕ) → ¬ (p ≡ some (fail e))
    unseen none checked q c e = λ is. absurd (cc)
    unseen (some (ok n)) checked q c e = λ is. absurd (cc)
    unseen (some (fail x)) true q c e = λ is. absurd (cc)
    unseen (some (fail x)) false q c e = λ is. absurd (cc)

    by_stop :
        (stopping : Bool) (o : Option ℕ)
        → (o ≡ none → s.power_checked ≡ false → (e : ℕ) → ¬ (r.power ≡ some (fail e)))
        → let t : Outcome × LoopState × List LoopEvent =
            if stopping then (returns (ok 0), s, []) else (elim o [
              | some e ↦ (returns (fail e), s, [])
              | none ↦ (
                (poll_command directory session r).0,
                (check_controls r s).0,
                (check_controls r s).1 ++ (poll_command directory session r).1,
              )
            ]) in
          t.0 ≡ goes_on
          → (stopping ≡ false) × (s.power_checked ≡ false → (e : ℕ) → ¬ (r.power ≡ some (fail e)))
    by_stop true o u h = absurd (cc)
    by_stop false (some e) u h = absurd (cc)
    by_stop false none u h = (refl, u refl)

weaken-AnswersOne :
    (directory : List ℕ) (session : ℕ) (r : Round) (rounds : List Round) (events : List LoopEvent)
    → All (AnswersOne directory session rounds) events
    → All (AnswersOne directory session (r ∷ rounds)) events
weaken-AnswersOne directory session r rounds [] h = tt
weaken-AnswersOne directory session r rounds (controlled c ∷ events) (a, h) =
    (tt, weaken-AnswersOne directory session r rounds events h)
weaken-AnswersOne directory session r rounds (handled c x ∷ events) (a, h) =
    (inr a, weaken-AnswersOne directory session r rounds events h)

first-AnswersOne :
    (directory : List ℕ) (session : ℕ) (r : Round) (rounds : List Round) (events : List LoopEvent)
    → All (AnswersOne directory session (r ∷ [])) events
    → All (AnswersOne directory session (r ∷ rounds)) events
first-AnswersOne directory session r rounds [] h = tt
first-AnswersOne directory session r rounds (controlled c ∷ events) (a, h) =
    (tt, first-AnswersOne directory session r rounds events h)
first-AnswersOne directory session r rounds (handled c x ∷ events) (inl a, h) =
    (inl a, first-AnswersOne directory session r rounds events h)
first-AnswersOne directory session r rounds (handled c x ∷ events) (inr a, h) = absurd a

-- command_loop, on any rounds. Every command that it handles was read in one of them and decoded for its
-- session, and is answered as handle_command does in that round. If the loop returns, then in one round it
-- met a requested stop, and returns 0, or a failure of the power thread whose end neither `s` nor an
-- earlier round had seen, of poll other than EINTR, a broken device, a failure of read other than EINTR,
-- EAGAIN and ETIMEDOUT, a frame that does not decode, or a failure of handle_command other than for an
-- expired transaction, and returns that error. A loop that has not returned after its rounds met no
-- requested stop in them, and no such failure of the power thread.
pub command_loop_cases :
    (directory : List ℕ) (session : ℕ) (rounds : List Round) (s : LoopState)
    → All (AnswersOne directory session rounds) (command_loop directory session rounds s).2
      × ((result : Result ℕ)
          → (command_loop directory session rounds s).0 ≡ some result
          → EndsOne directory session s.power_checked rounds result)
      × ((command_loop directory session rounds s).0 ≡ none → GoesOn s.power_checked rounds)
unfolding command_loop
command_loop_cases directory session [] s = (tt, (λ result e. absurd (cc)), (λ e. tt))
command_loop_cases directory session (r ∷ rounds) s =
    by_outcome (loop_round directory session r s) (loop_round-IsRound directory session r s)
      (loop_round-checked directory session r s) (loop_round-goes_on directory session r s)
      (command_loop_cases directory session rounds)
  where
    Meets : Option (Result ℕ) × LoopState × List LoopEvent → Bool → List Round → Type 0
    Meets run checked rs =
        All (AnswersOne directory session rs) run.2
        × ((result : Result ℕ) → run.0 ≡ some result → EndsOne directory session checked rs result)
        × (run.0 ≡ none → GoesOn checked rs)

    continued :
        Outcome × LoopState × List LoopEvent → Option (Result ℕ) × LoopState × List LoopEvent
    continued o = elim o.0 [
      | returns result ↦ (some result, o.1, o.2)
      | goes_on ↦ (
        (command_loop directory session rounds o.1).0,
        (command_loop directory session rounds o.1).1,
        o.2 ++ (command_loop directory session rounds o.1).2,
      )
    ]

    by_outcome :
        (o : Outcome × LoopState × List LoopEvent)
        → IsRound directory session r s.power_checked o.0 o.2
        → (o.0 ≡ goes_on → o.1.power_checked ≡ seen_after r.power s.power_checked)
        → (o.0 ≡ goes_on
            → (r.stopping ≡ false)
              × (s.power_checked ≡ false → (e : ℕ) → ¬ (r.power ≡ some (fail e))))
        → ((t : LoopState) → Meets (command_loop directory session rounds t) t.power_checked rounds)
        → Meets (continued o) s.power_checked (r ∷ rounds)
    by_outcome (returns result, t, events) (ends, h) seen kept ih = (
      first-AnswersOne directory session r rounds events h,
      (λ result' e.
          let same : result ≡ result' = cc in
          inl (subst (Ends directory session r s.power_checked) same ends)),
      (λ e. absurd (cc)),
    )
    by_outcome (goes_on, t, events) h seen kept ih = (
      All-join (AnswersOne directory session (r ∷ rounds)) events
          (command_loop directory session rounds t).2
          (first-AnswersOne directory session r rounds events h)
          (weaken-AnswersOne directory session r rounds (command_loop directory session rounds t).2
            (ih t).0),
      (λ result e.
          inr (
            subst (λ b. EndsOne directory session b rounds result) (seen refl)
              ((ih t).1 result e))),
      (λ e. ((kept refl).0, (kept refl).1, subst (λ b. GoesOn b rounds) (seen refl) ((ih t).2 e))),
    )
