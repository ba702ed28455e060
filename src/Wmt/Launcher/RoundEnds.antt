-- ===== src/Wmt/Launcher/RoundEnds.antt =====
-- wmt-launcher/main.c: what one round of the command loop may come to.
use android_device_xsh_k50sv.Prelude.{
  ℕ, ◌≡◌, ◌≢◌, ◌⊎◌, Bool, true, false, some, List, [], ◌∷◌, Result, ok, fail, All,
}
use android_device_xsh_k50sv.Prelude.Errno.{enodev, eintr}
use android_device_xsh_k50sv.Wmt.Protocol.{WmtCommand, decode}
use android_device_xsh_k50sv.Wmt.Launcher.Commands.{Handled, handle_command}
use android_device_xsh_k50sv.Wmt.Launcher.Loop.{
  Round, Revents, LoopEvent, controlled, handled, Outcome, goes_on, returns, is_expired,
  is_read_again,
}

-- Why a round ends the loop with a result. `checked` tells whether the end of the power thread was seen before.
pub data Ends (directory : List ℕ) (session : ℕ) (r : Round) (checked : Bool) (result : Result ℕ)
    : Type 0 where
  stop : r.stopping ≡ true → result ≡ ok 0 → Ends directory session r checked result
  power :
      (e : ℕ)
      → checked ≡ false
      → r.power ≡ some (fail e)
      → result ≡ fail e
      → Ends directory session r checked result
  poll :
      (e : ℕ)
      → r.poll ≡ fail e
      → e ≢ eintr
      → result ≡ fail e
      → Ends directory session r checked result
  device :
      (revents : Revents)
      → r.poll ≡ ok revents
      → revents.broken ≡ true
      → result ≡ fail enodev
      → Ends directory session r checked result
  reading :
      (e : ℕ)
      → r.read ≡ fail e
      → is_read_again e ≡ false
      → result ≡ fail e
      → Ends directory session r checked result
  frame :
      (bytes : List ℕ) (e : ℕ)
      → r.read ≡ ok bytes
      → decode bytes session ≡ fail e
      → result ≡ fail e
      → Ends directory session r checked result
  command :
      (bytes : List ℕ) (c : WmtCommand) (e : ℕ)
      → r.read ≡ ok bytes
      → decode bytes session ≡ ok c
      → (handle_command r.surroundings directory c).returned ≡ fail e
      → is_expired e ≡ false
      → result ≡ fail e
      → Ends directory session r checked result

-- A command that is handled came in a frame of this round, for this session.
pub record Answers (directory : List ℕ) (session : ℕ) (r : Round) (c : WmtCommand) (h : Handled)
    : Type 0 where
  pub bytes : List ℕ
  pub read : r.read ≡ ok bytes
  pub decoded : decode bytes session ≡ ok c
  pub answer : h ≡ handle_command r.surroundings directory c

abbrev pub AnswersOne : List ℕ → ℕ → List Round → LoopEvent → Type 0
AnswersOne directory session rounds (controlled call) = Unit {0}
AnswersOne directory session [] (handled c h) = ⊥
AnswersOne directory session (r ∷ rounds) (handled c h) =
    Answers directory session r c h ⊎ AnswersOne directory session rounds (handled c h)

-- The outcome of a round, and its events.
abbrev pub IsRound : List ℕ → ℕ → Round → Bool → Outcome → List LoopEvent → Type 0
IsRound directory session r checked goes_on events =
    All (AnswersOne directory session (r ∷ [])) events
IsRound directory session r checked (returns result) events =
    Ends directory session r checked result × All (AnswersOne directory session (r ∷ [])) events
