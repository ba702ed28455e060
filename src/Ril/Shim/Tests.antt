-- ===== src/Ril/Shim/Tests.antt =====
-- Runs of the recovery: an APN is cached, a reset indication arrives, and the worker issues the request.
use android_device_xsh_k50sv.Prelude.{
  ℕ, ◌≡◌, ◌≢◌, refl, sym, ◌∙◌, ◌⊎◌, true, false, some, List, [], ◌∷◌, ◌<◌, ◌≤◌, ◌+◌, ◌*◌, ◌%◌,
  arith, if◌then◌else◌, get_or, set,
}
use android_device_xsh_k50sv.Prelude.Int.{pos}
use android_device_xsh_k50sv.Ril.Types.{
  Payload, apply, succeeded, success, sim_count, set_initial_attach_apn, get_radio_capability,
  set_radio_capability,
}
use android_device_xsh_k50sv.Ril.Attach.{
  Attach, token_size, active, initial, note_reset, empty_apn, token_at, token_slots, real_complete,
  complete_hook, unsol_hook, cache_initial_attach_apn, copy_ia, signal, real_unsol,
}
use android_device_xsh_k50sv.Ril.Worker.{
  look, sending, Readings, worker_step, pick_socket, pick_token, limited, issue, idle, after_wait,
  reissue_min_interval,
}
use android_device_xsh_k50sv.Ril.Recovery.{System, Event, cache, unsol, work, step, run}
use android_device_xsh_k50sv.Ril.Recovery.Invariant.{IsValid, initial-IsValid}
use android_device_xsh_k50sv.Ril.Capability.{no_session, forward}
use android_device_xsh_k50sv.Ril.Shim.{Shim, on_request_shim}
use android_device_xsh_k50sv.Ril.Shim.Requests.{
  answers, forwards, CachesOrKeeps, on_request_shim_cases,
}
use android_device_xsh_k50sv.Ril.Attach.Tokens.{Swallowed, complete_hook_cases}
use android_device_xsh_k50sv.Ril.Attach.Copies.{Caches, with_cached, cache_initial_attach_apn_cases}
use android_device_xsh_k50sv.Ril.Attach.Resets.{Resets, unsol_hook_cases}
use android_device_xsh_k50sv.Ril.Recovery.Steps.{run-IsValid}
use android_device_xsh_k50sv.Ril.Recovery.Tokens.{token_not_reused}
use android_device_xsh_k50sv.Ril.Recovery.Limits.{issues_spaced}
use android_device_xsh_k50sv.Ril.Recovery.Flight.{deadline_latched}
use android_device_xsh_k50sv.Ril.Recovery.Progress.{Carries, due_request_sent}

abbrev payload : Payload
payload = record {
  as_capability = record {
    version = pos 1;
    session = pos 0;
    phase = apply;
    rat = 0;
    uuid = "";
    status = succeeded;
  };
  as_attach_apn = record empty_apn { apn = some "internet"; password = some "secret" };
}

-- The hooks are installed.
abbrev started : System
started = record {
  point = look;
  attach = record initial { hooks = active; unsol_published = true; complete_published = true };
}

abbrev at_time : ℕ → Readings
at_time t = record { now = some t; issued_at = some t; charged_at = some t; alloc = λ k. true }

abbrev asked : List Event
asked = cache (pos 0) (some payload) 88 (λ k. true) ∷ unsol (pos 3020) 0 0 (pos 0) ∷ []

abbrev due : System
due = run 4096 asked started

due-look : due.point ≡ look
due-look = refl

sent_first :
    (step 4096 (work (at_time 5)) due).point ≡ sending payload.as_attach_apn (token_at 4096 1) 0
unfolding worker_step pick_socket pick_token limited issue cache_initial_attach_apn unsol_hook
    note_reset copy_ia
sent_first = refl

started-IsValid : IsValid started.attach
started-IsValid = record {
  tokens_sized = refl;
  cache_sized = refl;
  cached_sized = refl;
  pending_sized = refl;
  backed = initial-IsValid.backed;
  held = λ e. cc;
  no_deadline = λ e. refl;
  token_in_range = omega arith;
  socket_in_range = omega arith;
}

run-IsValid_example : IsValid due.attach
run-IsValid_example = run-IsValid 4096 asked started started-IsValid

due-IsValid : IsValid due.attach
due-IsValid = run-IsValid 4096 asked started started-IsValid

-- The request of `sent_first` is never completed: the worker waits for it to time out, and a reset
-- indication arrives meanwhile.
abbrev storm : List Event
storm = work (at_time 6) ∷ work (at_time 6) ∷ unsol (pos 3020) 0 0 (pos 0) ∷ []

abbrev timed_out : List Event
timed_out =
    work (at_time 6)
    ∷ work (at_time 6)
    ∷ unsol (pos 3020) 0 0 (pos 0)
    ∷ work (at_time 20000000000)
    ∷ []

abbrev flying : System
flying = step 4096 (work (at_time 5)) due

released-look : (run 4096 timed_out flying).point ≡ look
unfolding worker_step pick_socket pick_token limited issue cache_initial_attach_apn unsol_hook
    note_reset copy_ia idle after_wait
released-look = refl

sent_again :
    (step 4096 (work (at_time 20000000000)) (run 4096 timed_out flying)).point
    ≡ sending payload.as_attach_apn (token_at 4096 2) 0
unfolding worker_step pick_socket pick_token limited issue cache_initial_attach_apn unsol_hook
    note_reset copy_ia idle after_wait
sent_again = refl

token_not_reused_example : token_at 4096 2 ≢ token_at 4096 1
token_not_reused_example =
    token_not_reused 4096 (at_time 5) (at_time 20000000000) timed_out due payload.as_attach_apn
      payload.as_attach_apn (token_at 4096 1) (token_at 4096 2) 0 0 due-IsValid due-look sent_first
      (tt, (tt, (tt, (tt, tt)))) released-look sent_again

issues_spaced_example : 5 + reissue_min_interval ≤ 20000000000
issues_spaced_example =
    issues_spaced 4096 5 20000000000 (at_time 5) (at_time 20000000000) timed_out due
      payload.as_attach_apn payload.as_attach_apn (token_at 4096 1) (token_at 4096 2) 0 0 due-look
      sent_first refl
      (
        (6, refl, omega arith),
        ((6, refl, omega arith), (tt, ((20000000000, refl, omega arith), tt))),
      )
      released-look sent_again refl

deadline_latched_example : (run 4096 storm flying).attach.in_flight ≡ true
deadline_latched_example =
    (deadline_latched 4096 5 (at_time 5) (at_time 6) storm due payload.as_attach_apn
      (token_at 4096 1) 0 due-look sent_first refl
      ((6, refl, omega arith), ((6, refl, omega arith), (tt, tt)))).0

due-facts :
    (due.attach.in_flight ≡ false)
    × (get_or due.attach.pending 0 false ≡ true)
    × (get_or due.attach.outstanding 3 false ≡ false)
    × (due.attach.last_issue_valid ≡ false)
unfolding cache_initial_attach_apn unsol_hook note_reset copy_ia
due-facts = (refl, refl, refl, refl)

due_request_sent_example :
    (j : ℕ) × (token : ℕ) × (t : Attach) × (worker_step 4096 (at_time 5) look due.attach ≡ (
      sending (get_or due.attach.cache j empty_apn) (4096 + token_size * (token % token_slots)) j,
      t,
    ))
    × (j < sim_count)
    × (get_or due.attach.pending j false ≡ true)
    × (get_or due.attach.pending due.attach.next_socket false ≡ true → j ≡ due.attach.next_socket)
    × (token < token_slots)
    × (get_or due.attach.outstanding token false ≡ false)
    × Carries due.attach t j token
due_request_sent_example =
    due_request_sent 4096 0 3 5 (at_time 5) due.attach due-IsValid due-facts.0 (omega arith)
      due-facts.1 (omega arith) due-facts.2 refl (λ e. absurd (cc (sym due-facts.3 ∙ e)))
      (λ a. refl)

complete_hook_cases_example :
    ((k : ℕ) × (k < token_slots)
      × (4160 ≡ token_at 4096 k)
      × Swallowed k flying.attach (complete_hook 4096 4160 success 0 0 flying.attach))
    ⊎ (((k : ℕ) → k < token_slots → 4160 ≢ token_at 4096 k)
        × (complete_hook 4096 4160 success 0 0 flying.attach ≡ (
          flying.attach,
          if flying.attach.complete_published then real_complete 4160 success 0 0 ∷ [] else [],
        )))
complete_hook_cases_example = complete_hook_cases 4096 4160 success 0 0 flying.attach

unsol_hook_cases_example :
    let forwarded =
      if due.attach.unsol_published then real_unsol (pos 3020) 0 0 (pos 0) ∷ [] else [] in
    ((i : ℕ) × Resets (pos 3020) (pos 0) due.attach i
      × (unsol_hook (pos 3020) 0 0 (pos 0) due.attach
          ≡ (record due.attach { pending = set due.attach.pending i true }, signal ∷ forwarded)))
    ⊎ (((i : ℕ) → ¬ Resets (pos 3020) (pos 0) due.attach i)
        × (unsol_hook (pos 3020) 0 0 (pos 0) due.attach ≡ (due.attach, forwarded)))
unsol_hook_cases_example = unsol_hook_cases (pos 3020) 0 0 (pos 0) due.attach

cache_initial_attach_apn_cases_example :
    ((i : ℕ) × (p : Payload) × Caches (pos 0) (some payload) 88 (λ k. true) i p
      × (cache_initial_attach_apn (pos 0) (some payload) 88 (λ k. true) started.attach
          ≡ with_cached i p.as_attach_apn started.attach))
    ⊎ (((i : ℕ) (p : Payload) → ¬ Caches (pos 0) (some payload) 88 (λ k. true) i p)
        × (cache_initial_attach_apn (pos 0) (some payload) 88 (λ k. true) started.attach
            ≡ started.attach))
cache_initial_attach_apn_cases_example =
    cache_initial_attach_apn_cases (pos 0) (some payload) 88 (λ k. true) started.attach

abbrev shim : Shim
shim = record { applied = no_session; attach = started.attach }

on_request_shim_cases_example :
    let (after, effects) =
      on_request_shim set_initial_attach_apn (some payload) 88 7 (pos 0) (λ k. true) shim in
    (((set_initial_attach_apn ≡ get_radio_capability)
        ⊎ (set_initial_attach_apn ≡ set_radio_capability))
      × (answers 7 effects ≡ 1)
      × (forwards effects ≡ 0)
      × (after.attach ≡ shim.attach))
    ⊎ ((set_initial_attach_apn ≢ get_radio_capability)
        × (set_initial_attach_apn ≢ set_radio_capability)
        × (effects ≡ forward set_initial_attach_apn (some payload) 88 7 (pos 0) ∷ [])
        × (after.applied ≡ shim.applied)
        × CachesOrKeeps set_initial_attach_apn
            (some payload)
            88
            (pos 0)
            (λ k. true)
            shim.attach
            after.attach)
on_request_shim_cases_example =
    on_request_shim_cases set_initial_attach_apn (some payload) 88 7 (pos 0) (λ k. true) shim
      (record { sessions = refl; flags = refl })
