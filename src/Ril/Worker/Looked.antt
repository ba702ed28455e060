-- ===== src/Ril/Worker/Looked.antt =====
-- What the worker can do when it looks for work, by case.
use android_device_xsh_k50sv.Prelude.{ℕ, ◌≡◌, refl, false, Option, none, some, set, get_or}
use android_device_xsh_k50sv.Ril.Types.{AttachApn}
use android_device_xsh_k50sv.Ril.Attach.{Attach, token_slots, token_at, copy_ia, empty_apn}
use android_device_xsh_k50sv.Ril.Worker.{
  Point, look, relative_sleep, sleeping, sending, Readings, worker_step, pick_token, next_work,
  wait_until, limited, idle, issue, issued, charge,
}

-- The step's outcome, with the readings and the choices that lead to it.
pub data Looked (base : ℕ) (r : Readings) (s : Attach) : Point × Attach → Type 0 where
  issues :
      (i k now : ℕ) (outgoing : AttachApn)
      → next_work s ≡ some i
      → r.now ≡ some now
      → wait_until s now ≡ none
      → pick_token s token_slots ≡ some k
      → copy_ia r.alloc (get_or s.cache i empty_apn) ≡ some outgoing
      → Looked base r s (sending outgoing (token_at base k) i, issued i k r s)
  no_memory :
      (i k now : ℕ)
      → next_work s ≡ some i
      → r.now ≡ some now
      → wait_until s now ≡ none
      → pick_token s token_slots ≡ some k
      → copy_ia r.alloc (get_or s.cache i empty_apn) ≡ none
      → Looked base r s (look, charge r.charged_at s)
  exhausted :
      (i now : ℕ)
      → next_work s ≡ some i
      → r.now ≡ some now
      → wait_until s now ≡ none
      → pick_token s token_slots ≡ none
      → Looked base r s (look, charge r.charged_at (record s { pending = set s.pending i false }))
  too_early :
      (i now t : ℕ)
      → next_work s ≡ some i
      → r.now ≡ some now
      → wait_until s now ≡ some t
      → Looked base r s (sleeping t, s)
  no_clock : (i : ℕ) → next_work s ≡ some i → r.now ≡ none → Looked base r s (relative_sleep, s)
  rests : next_work s ≡ none → Looked base r s (idle s)

module _ (base : ℕ) (r : Readings) (s : Attach) where
  issue_cases :
      (i now : ℕ)
      → next_work s ≡ some i
      → r.now ≡ some now
      → wait_until s now ≡ none
      → Looked base r s (issue base i r s)
  unfolding issue
  issue_cases i now work clock free = by_token (pick_token s token_slots) refl
    where
      by_copy :
          (k : ℕ) (copy : Option AttachApn)
          → pick_token s token_slots ≡ some k
          → copy_ia r.alloc (get_or s.cache i empty_apn) ≡ copy
          → Looked base r s (elim copy as (λ _. Point × Attach) [
            | none ↦ (look, charge r.charged_at s)
            | some outgoing ↦ (sending outgoing (token_at base k) i, issued i k r s)
          ])
      by_copy k none token e = Looked.no_memory i k now work clock free token e
      by_copy k (some outgoing) token e = Looked.issues i k now outgoing work clock free token e

      by_token :
          (token : Option ℕ)
          → pick_token s token_slots ≡ token
          → Looked base r s (elim token as (λ _. Point × Attach) [
            | none ↦ (look, charge r.charged_at (record s { pending = set s.pending i false }))
            | some k ↦ elim (copy_ia r.alloc (get_or s.cache i empty_apn)) [
              | none ↦ (look, charge r.charged_at s)
              | some outgoing ↦ (sending outgoing (token_at base k) i, issued i k r s)
            ]
          ])
      by_token none e = Looked.exhausted i now work clock free e
      by_token (some k) e = by_copy k (copy_ia r.alloc (get_or s.cache i empty_apn)) e refl

  limited_cases : (i : ℕ) → next_work s ≡ some i → Looked base r s (limited base i r s)
  unfolding limited
  limited_cases i work = by_clock r.now refl
    where
      by_limit :
          (now : ℕ) (limit : Option ℕ)
          → r.now ≡ some now
          → wait_until s now ≡ limit
          → Looked base r s (elim limit as (λ _. Point × Attach) [
            | some t ↦ (sleeping t, s)
            | none ↦ issue base i r s
          ])
      by_limit now none clock e = issue_cases i now work clock e
      by_limit now (some t) clock e = Looked.too_early i now t work clock e

      by_clock :
          (clock : Option ℕ)
          → r.now ≡ clock
          → Looked base r s (elim clock as (λ _. Point × Attach) [
            | none ↦ (relative_sleep, s)
            | some now ↦ elim (wait_until s now) [
              | some t ↦ (sleeping t, s)
              | none ↦ issue base i r s
            ]
          ])
      by_clock none e = Looked.no_clock i work e
      by_clock (some now) e = by_limit now (wait_until s now) e refl

  pub look_cases : Looked base r s (worker_step base r look s)
  unfolding worker_step
  look_cases = by_work (next_work s) refl
    where
      by_work :
          (work : Option ℕ)
          → next_work s ≡ work
          → Looked base r s
              (elim work as (λ _. Point × Attach) [ some i ↦ limited base i r s | none ↦ idle s ])
      by_work none e = Looked.rests e
      by_work (some i) e = limited_cases i e
