-- ===== src/Wmt/Launcher/Carries.antt =====
-- wmt-launcher/main.c: the results that the calls of the release carry.
use android_device_xsh_k50sv.Prelude.{
  ℕ, ◌≡◌, refl, Bool, true, false, Bool-cases, inl, inr, not, Option, none, some, List, [], ◌∷◌,
  ◌++◌, map, ◌==◌, if◌then◌else◌, Result, ok, fail, All,
}
use android_device_xsh_k50sv.Prelude.Errno.{eproto, eio}
use android_device_xsh_k50sv.Wmt.Launcher.Power.{check_chip}
use android_device_xsh_k50sv.Wmt.Launcher.Controls.{ControlCall, stop_firmware_log}
use android_device_xsh_k50sv.Wmt.Launcher.Loop.{LoopEvent, controlled}
use android_device_xsh_k50sv.Wmt.Launcher.Rounds.{All-join}
use android_device_xsh_k50sv.Wmt.Launcher.Service.{
  Settings, Session, Launch, LaunchCall, happened, unbind_session, join_power, publish_gone,
  close_device, Held, nothing_held, bound_to, Stage, is_bad_session, serve_commands, with_session,
  bind_device, bind_session, with_device, unbinding, must_stop_log, release_all,
}

-- A release carries what its call returned.
abbrev pub Carries : Launch → LaunchCall → Type 0
Carries w (unbind_session id e) = e ≡ w.unbound
Carries w (join_power e) = e ≡ w.power_joined
Carries w (publish_gone e) = e ≡ w.set_gone
Carries w (close_device e) = e ≡ w.closed
Carries w _ = Unit {0}

happened-Carries : (w : Launch) (events : List LoopEvent) → All (Carries w) (map happened events)
happened-Carries w [] = tt
happened-Carries w (e ∷ events) = (tt, happened-Carries w events)

controlled-Carries :
    (w : Launch) (calls : List ControlCall)
    → All (Carries w) (map (λ c. happened (controlled c)) calls)
controlled-Carries w [] = tt
controlled-Carries w (c ∷ calls) = (tt, controlled-Carries w calls)

serve_commands-Carries :
    (w : Launch) (settings : Settings) (session : Session)
    → All (Carries w) (serve_commands w settings session).2
unfolding serve_commands
serve_commands-Carries w settings session = elim (Bool-cases (not (w.create_power == 0))) [
  | inl failed ↦ rw failed (tt, tt)
  | inr created ↦ rw created (tt, (tt, happened-Carries w _))
]

with_session-Carries :
    (w : Launch) (settings : Settings) (session : Session)
    → All (Carries w) (with_session w settings session).2
unfolding with_session
with_session-Carries w settings session =
    by_tests (is_bad_session session) (not (w.set_hif == 0)) (not (w.clear_kill == 0))
      (not w.set_ready)
  where
    by_tests :
        (a b c d : Bool)
        → let s : Stage =
            if a
            then (some (fail eproto), bound_to session.id, [])
            else if b
            then (some (fail w.set_hif), bound_to session.id, [])
            else if c
            then (some (fail w.clear_kill), bound_to session.id, [])
            else if d
            then (some (fail eio), bound_to session.id, [])
            else serve_commands w settings session in
          All (Carries w) s.2
    by_tests true b c d = tt
    by_tests false true c d = tt
    by_tests false false true d = tt
    by_tests false false false true = tt
    by_tests false false false false = serve_commands-Carries w settings session

bind_device-Carries :
    (w : Launch) (settings : Settings) → All (Carries w) (bind_device w settings).2
unfolding bind_device
bind_device-Carries w settings = by_bind w.bind
  where
    by_bind :
        (b : Result Session)
        → let s : Stage = elim b as (λ _. Stage) [
          | fail e ↦ (some (fail e), nothing_held, [])
          | ok session ↦ (
            (with_session w settings session).0,
            (with_session w settings session).1,
            bind_session session.id ∷ (with_session w settings session).2,
          )
        ] in
          All (Carries w) s.2
    by_bind (fail e) = tt
    by_bind (ok session) = (tt, with_session-Carries w settings session)

-- No call of a stage is a release.
pub with_device-Carries :
    (w : Launch) (settings : Settings) → All (Carries w) (with_device w settings).2
unfolding with_device
with_device-Carries w settings = by_chip (check_chip w.cached_chip w.queries)
  where
    by_chip :
        (o : Option (Result ℕ))
        → let s : Stage = elim o as (λ _. Stage) [
          | none ↦ (none, nothing_held, [])
          | some result ↦ elim result as (λ _. Stage) [
            | fail e ↦ (some (fail e), nothing_held, [])
            | ok n ↦ bind_device w settings
          ]
        ] in
          All (Carries w) s.2
    by_chip none = tt
    by_chip (some (fail e)) = tt
    by_chip (some (ok n)) = bind_device-Carries w settings

pub release_all-Carries : (w : Launch) (held : Held) → All (Carries w) (release_all w held)
unfolding release_all
release_all-Carries w held = by_parts held.session held.power_started held.advertised
  where
    stopping : List LaunchCall
    stopping =
        if must_stop_log held.controls
        then map (λ c. happened (controlled c)) (stop_firmware_log w.exit held.controls).2
        else []

    stopped :
        (b : Bool)
        → All (Carries w) (
            if b
            then map (λ c. happened (controlled c)) (stop_firmware_log w.exit held.controls).2
            else [])
    stopped true = controlled-Carries w _
    stopped false = tt

    ending : Bool → List LaunchCall
    ending advertised =
        (if advertised then publish_gone w.set_gone ∷ [] else []) ++ close_device w.closed ∷ []

    ended : (advertised : Bool) → All (Carries w) (ending advertised)
    ended true = (refl, (refl, tt))
    ended false = (refl, tt)

    after_join : (advertised : Bool) → All (Carries w) (stopping ++ ending advertised)
    after_join advertised =
        All-join (Carries w) stopping (ending advertised) (stopped (must_stop_log held.controls))
          (ended advertised)

    by_parts :
        (session : Option ℕ) (power advertised : Bool)
        → Unit {0}
          × All (Carries w) (
              unbinding w.unbound session
              ++ ((if power then join_power w.power_joined ∷ [] else [])
                  ++ (stopping ++ ending advertised)))
    by_parts none true advertised = (tt, (refl, after_join advertised))
    by_parts none false advertised = (tt, after_join advertised)
    by_parts (some id) true advertised = (tt, (refl, (refl, after_join advertised)))
    by_parts (some id) false advertised = (tt, (refl, after_join advertised))
