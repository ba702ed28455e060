-- ===== src/Wmt/Launcher/Releases.antt =====
-- wmt-launcher/main.c: the release of what main took, and main as a whole.
use android_device_xsh_k50sv.Prelude.{
  ℕ, ◌≡◌, ◌≢◌, All, refl, ap, ◌∙◌, Bool, true, false, Bool-cases, inl, inr, not, ◌||◌, Option, none,
  some, List, [], ◌∷◌, ◌++◌, map, arith, ltb, ◌==◌, if◌then◌else◌, Result, ok, fail, length,
}
use android_device_xsh_k50sv.Wmt.Launcher.Power.{open_driver}
use android_device_xsh_k50sv.Wmt.Launcher.Controls.{Controls, Requests, stop_firmware_log}
use android_device_xsh_k50sv.Wmt.Launcher.Workers.{
  Resources, Failure, not_unbound, not_joined, not_withdrawn, not_closed, nothing_but,
  replay-append, stop_firmware_log-calls,
}
use android_device_xsh_k50sv.Wmt.Launcher.Loop.{controlled}
use android_device_xsh_k50sv.Wmt.Launcher.Allowed.{
  is_unbound, tallied, launch_call, launch_calls, controls-replay,
}
use android_device_xsh_k50sv.Wmt.Launcher.Carries.{
  Carries, with_device-Carries, release_all-Carries,
}
use android_device_xsh_k50sv.Wmt.Launcher.Rounds.{All-join}
use android_device_xsh_k50sv.Wmt.Launcher.Service.{
  default_settings, parse_options, Settings, Launch, LaunchCall, happened, stop_power, join_power,
  publish_gone, close_device, Held, Stage, with_device, unbinding, must_stop_log, release_all,
  exit_status, finish, launch, main,
}
use android_device_xsh_k50sv.Wmt.Launcher.Stages.{
  holding, device_only, IsStaged, with_device-IsStaged,
}

-- The final stop joins the worker, if the join succeeds.
stop_firmware_log-created :
    (exit : Requests) (c : Controls)
    → exit.joined ≡ 0
    → (stop_firmware_log exit c).1.created ≡ false
unfolding stop_firmware_log
stop_firmware_log-created exit c h = ground (arith, h)

abbrev stopping : Requests → Controls → List LaunchCall
stopping exit c =
    if must_stop_log c
    then map (λ call. happened (controlled call)) (stop_firmware_log exit c).2
    else []

stopping-calls :
    (exit : Requests) (c : Controls) (r : Resources)
    → exit.joined ≡ 0
    → r.log ≡ c.created
    → launch_calls (stopping exit c) r ≡ some (record r { log = false })
stopping-calls exit c r joined h = elim (Bool-cases (must_stop_log c)) [
  | inl must ↦ rw must (
      controls-replay (stop_firmware_log exit c).2 r
      ∙ stop_firmware_log-calls exit c r h
      ∙ ap (λ (b : Bool). some (record r { log = b })) (stop_firmware_log-created exit c joined))
  | inr idle ↦ rw idle (
      let no_worker : r.log ≡ false = ground (arith, h, idle) in
      ap (λ (b : Bool). some (record r { log = b })) no_worker)
]

abbrev tallied_if : Bool → ℕ → Failure → List Failure → List Failure
tallied_if made errno failure failures = if made then tallied errno failure failures else failures

-- The failures of the release, in the order of its calls.
abbrev failing : Launch → Held → List Failure
failing w held =
    let unbind = tallied_if (not (is_unbound held.session)) w.unbound not_unbound [] in
    let join = tallied_if held.power_started w.power_joined not_joined unbind in
    let withdraw = tallied_if held.advertised w.set_gone not_withdrawn join in
    tallied w.closed not_closed withdraw

release_all-calls :
    (w : Launch) (held : Held)
    → w.exit.joined ≡ 0
    → launch_calls (release_all w held) (holding held) ≡ some (nothing_but (failing w held))
unfolding release_all
release_all-calls w held joined = by_parts held.session held.power_started held.advertised
  where
    ending : Bool → List LaunchCall
    ending advertised =
        (if advertised then publish_gone w.set_gone ∷ [] else []) ++ close_device w.closed ∷ []

    before_end : Bool → Bool → List Failure → Resources
    before_end advertised log failures = record {
      device = true;
      session = none;
      ready = advertised;
      power = false;
      log = log;
      failures = failures;
    }

    last :
        (advertised : Bool) (failures : List Failure)
        → launch_calls (ending advertised) (before_end advertised false failures)
          ≡ some (
              nothing_but (
                tallied w.closed not_closed
                  (tallied_if advertised w.set_gone not_withdrawn failures)))
    last true failures = refl
    last false failures = refl

    after_join :
        (advertised : Bool) (failures : List Failure)
        → launch_calls
            (stopping w.exit held.controls ++ ending advertised)
            (before_end advertised held.controls.created failures)
          ≡ some (
              nothing_but (
                tallied w.closed not_closed
                  (tallied_if advertised w.set_gone not_withdrawn failures)))
    after_join advertised failures =
        replay-append launch_call (stopping w.exit held.controls) (ending advertised)
          (before_end advertised held.controls.created failures)
          (before_end advertised false failures)
          (stopping-calls w.exit held.controls
            (before_end advertised held.controls.created failures) joined refl)
        ∙ last advertised failures

    by_parts :
        (session : Option ℕ) (power advertised : Bool)
        → launch_calls
            (stop_power
              ∷ (unbinding w.unbound session
                  ++ ((if power then join_power w.power_joined ∷ [] else [])
                      ++ (stopping w.exit held.controls ++ ending advertised))))
            (record {
              device = true;
              session = session;
              ready = advertised;
              power = power;
              log = held.controls.created;
              failures = [];
            })
          ≡ some (
              nothing_but (
                failing w (record held {
                  session = session;
                  power_started = power;
                  advertised = advertised;
                })))
    by_parts none true advertised = after_join advertised (tallied w.power_joined not_joined [])
    by_parts none false advertised = after_join advertised []
    by_parts (some id) true advertised = ground (
      arith,
      after_join advertised (tallied w.power_joined not_joined (tallied w.unbound not_unbound [])),
    )
    by_parts (some id) false advertised =
        ground (arith, after_join advertised (tallied w.unbound not_unbound []))

-- The release failed for this reason.
abbrev pub HasFailed : Launch → Failure → Type 0
HasFailed w not_unbound = w.unbound ≢ 0
HasFailed w not_joined = w.power_joined ≢ 0
HasFailed w not_withdrawn = w.set_gone ≢ 0
HasFailed w not_closed = w.closed ≢ 0

tallied-HasFailed :
    (w : Launch) (made : Bool) (errno : ℕ) (failure : Failure) (failures : List Failure)
    → (errno ≢ 0 → HasFailed w failure)
    → All (HasFailed w) failures
    → All (HasFailed w) (tallied_if made errno failure failures)
tallied-HasFailed w false errno failure failures h all = all
tallied-HasFailed w true errno failure failures h all = elim (Bool-cases (errno == 0)) [
  | inl fine ↦ rw fine all
  | inr bad ↦ rw bad (All-join (HasFailed w) failures (failure ∷ []) all (h (ground arith), tt))
]

failing-HasFailed : (w : Launch) (held : Held) → All (HasFailed w) (failing w held)
failing-HasFailed w held =
    tallied-HasFailed w true w.closed not_closed _ (λ e. e)
      (tallied-HasFailed w held.advertised w.set_gone not_withdrawn _ (λ e. e)
        (tallied-HasFailed w held.power_started w.power_joined not_joined _ (λ e. e)
          (tallied-HasFailed w (not (is_unbound held.session)) w.unbound not_unbound [] (λ e. e)
            tt)))

-- Every call is allowed when it is made, and each release carries what its call returned. Once main has
-- returned nothing is left to be released, and the failures are those of the calls.
abbrev pub IsClean : Launch → Option ℕ × List LaunchCall → Type 0
IsClean w (status, calls) =
    (r : Resources) × (launch_calls calls (nothing_but []) ≡ some r)
    × ((s : ℕ) → status ≡ some s → (r ≡ nothing_but r.failures) × All (HasFailed w) r.failures)
    × All (Carries w) calls

finish-IsClean :
    (w : Launch) (stage : Stage)
    → w.exit.joined ≡ 0
    → IsStaged device_only stage
    → All (Carries w) stage.2
    → IsClean w (finish w stage)
finish-IsClean w (none, held, calls) joined h carries =
    (holding held, h, (λ s e. absurd (cc)), (tt, carries))
finish-IsClean w (some result, held, calls) joined h carries = (
  nothing_but (failing w held),
  replay-append launch_call calls (release_all w held) device_only (holding held) h
      ∙ release_all-calls w held joined,
  (λ s e. (refl, failing-HasFailed w held)),
  (tt, All-join (Carries w) calls (release_all w held) carries (release_all-Carries w held)),
)

none_taken : (w : Launch) (status : Option ℕ) → IsClean w (status, [])
none_taken w status = (nothing_but [], refl, (λ s e. (refl, tt)), tt)

launch-IsClean :
    (w : Launch) (settings : Settings) → w.exit.joined ≡ 0 → IsClean w (launch w settings)
unfolding launch
launch-IsClean w settings joined =
    by_tests
      (w.has_operands
        || length settings.directory == 0
        || not (ltb (length settings.directory) 4096))
      (not w.handles_signals) (open_driver w.attempts)
  where
    with_driver : Option (Result ℕ) → Option ℕ × List LaunchCall
    with_driver o = elim o [
      | none ↦ (none, [])
      | some opened ↦ elim opened [
        | fail e ↦ (some (exit_status (fail e) w.stop_requested), [])
        | ok fd ↦ finish w (with_device w settings)
      ]
    ]

    by_tests :
        (misused deaf : Bool) (o : Option (Result ℕ))
        → IsClean w (if misused then (some 2, []) else if deaf then (some 1, []) else with_driver o)
    by_tests true deaf o = none_taken w (some 2)
    by_tests false true o = none_taken w (some 1)
    by_tests false false none = none_taken w none
    by_tests false false (some (fail e)) =
        none_taken w (some (exit_status (fail e) w.stop_requested))
    by_tests false false (some (ok fd)) =
        finish-IsClean w (with_device w settings) joined (with_device-IsStaged w settings)
          (with_device-Carries w settings)

-- main, whatever its calls return, if the last join of the log worker succeeds. Each call is made only when it
-- is allowed: a session is bound and unbound on an open device and only once, its commands are
-- answered only after the launcher has said that it is ready, logging is switched off only when no log
-- worker runs, "ready" is taken back only after the join of the power thread, and the device is closed last.
-- When main returns, on whichever path, a release has been tried once for all that was taken: the session,
-- the power thread, "ready" and the device. Each such call carries its result, and the failures that
-- are left are of an unbind, a join, a property_set or a close that returned an error.
pub main_releases : (w : Launch) → w.exit.joined ≡ 0 → IsClean w (main w)
unfolding main
main_releases w joined = by_options (parse_options w.options default_settings)
  where
    by_options :
        (o : Result Settings)
        → IsClean w (elim o as (λ _. Option ℕ × List LaunchCall) [
          | fail status ↦ (some status, [])
          | ok settings ↦ launch w settings
        ])
    by_options (fail status) = none_taken w (some status)
    by_options (ok settings) = launch-IsClean w settings joined
