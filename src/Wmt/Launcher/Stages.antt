-- ===== src/Wmt/Launcher/Stages.antt =====
-- wmt-launcher/main.c: the calls of main up to `out`, and what is held there.
use android_device_xsh_k50sv.Prelude.Errno.{eproto, eio}
use android_device_xsh_k50sv.Prelude.{
  ℕ, ◌≡◌, refl, Bool, true, false, Bool-cases, inl, inr, not, Option, none, some, [], ◌∷◌, ◌==◌,
  if◌then◌else◌, Result, ok, fail,
}
use android_device_xsh_k50sv.Wmt.Launcher.Power.{check_chip}
use android_device_xsh_k50sv.Wmt.Launcher.Controls.{no_controls}
use android_device_xsh_k50sv.Wmt.Launcher.Workers.{Resources}
use android_device_xsh_k50sv.Wmt.Launcher.Allowed.{launch_calls}
use android_device_xsh_k50sv.Wmt.Launcher.Events.{command_loop-Follows}
use android_device_xsh_k50sv.Wmt.Launcher.Service.{
  Settings, Session, Launch, bind_session, Held, nothing_held, bound_to, Stage, is_bad_session,
  serve_commands, with_session, bind_device, with_device,
}

-- The resources that main's variables speak of.
abbrev pub holding : Held → Resources
holding h = record {
  device = true;
  session = h.session;
  ready = h.advertised;
  power = h.power_started;
  log = h.controls.created;
  failures = [];
}

abbrev pub device_only : Resources
device_only = holding nothing_held

-- The calls of a stage are allowed, and main's variables tell what they leave.
abbrev pub IsStaged : Resources → Stage → Type 0
IsStaged from (result, held, calls) = launch_calls calls from ≡ some (holding held)

serve_commands-IsStaged :
    (w : Launch) (settings : Settings) (session : Session)
    → IsStaged (holding (bound_to session.id)) (serve_commands w settings session)
unfolding serve_commands
serve_commands-IsStaged w settings session = elim (Bool-cases (not (w.create_power == 0))) [
  | inl failed ↦ rw failed
  | inr created ↦ rw created (
      command_loop-Follows settings.directory session.id w.rounds
        (record { power_checked = false; controls = no_controls }))
]

with_session-IsStaged :
    (w : Launch) (settings : Settings) (session : Session)
    → IsStaged (holding (bound_to session.id)) (with_session w settings session)
unfolding with_session
with_session-IsStaged w settings session =
    by_tests (is_bad_session session) (not (w.set_hif == 0)) (not (w.clear_kill == 0))
      (not w.set_ready)
  where
    by_tests :
        (a b c d : Bool)
        → IsStaged (holding (bound_to session.id)) (
            if a
            then (some (fail eproto), bound_to session.id, [])
            else if b
            then (some (fail w.set_hif), bound_to session.id, [])
            else if c
            then (some (fail w.clear_kill), bound_to session.id, [])
            else if d
            then (some (fail eio), bound_to session.id, [])
            else serve_commands w settings session)
    by_tests true b c d = refl
    by_tests false true c d = refl
    by_tests false false true d = refl
    by_tests false false false true = refl
    by_tests false false false false = serve_commands-IsStaged w settings session

bind_device-IsStaged :
    (w : Launch) (settings : Settings) → IsStaged device_only (bind_device w settings)
unfolding bind_device
bind_device-IsStaged w settings = by_bind w.bind
  where
    by_bind :
        (b : Result Session)
        → IsStaged device_only (elim b as (λ _. Stage) [
          | fail e ↦ (some (fail e), nothing_held, [])
          | ok session ↦ (
            (with_session w settings session).0,
            (with_session w settings session).1,
            bind_session session.id ∷ (with_session w settings session).2,
          )
        ])
    by_bind (fail e) = refl
    by_bind (ok session) = with_session-IsStaged w settings session

pub with_device-IsStaged :
    (w : Launch) (settings : Settings) → IsStaged device_only (with_device w settings)
unfolding with_device
with_device-IsStaged w settings = by_chip (check_chip w.cached_chip w.queries)
  where
    by_chip :
        (o : Option (Result ℕ))
        → IsStaged device_only (elim o as (λ _. Stage) [
          | none ↦ (none, nothing_held, [])
          | some result ↦ elim result as (λ _. Stage) [
            | fail e ↦ (some (fail e), nothing_held, [])
            | ok n ↦ bind_device w settings
          ]
        ])
    by_chip none = refl
    by_chip (some (fail e)) = refl
    by_chip (some (ok n)) = bind_device-IsStaged w settings
