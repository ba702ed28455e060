-- ===== src/Wmt/Launcher/Allowed.antt =====
-- wmt-launcher/main.c: when each call of main may be made.
use android_device_xsh_k50sv.Prelude.{
  ℕ, ◌≡◌, refl, Bool, true, false, not, ◌&&◌, Option, none, some, List, [], ◌∷◌, map, ◌==◌, ◌++◌,
  if◌then◌else◌,
}
use android_device_xsh_k50sv.Wmt.Launcher.Controls.{Controls, ControlCall}
use android_device_xsh_k50sv.Wmt.Launcher.Workers.{
  Resources, Failure, not_unbound, not_joined, not_withdrawn, not_closed, allowed, control_call,
  control_calls, replay,
}
use android_device_xsh_k50sv.Wmt.Launcher.Loop.{controlled, handled}
use android_device_xsh_k50sv.Wmt.Launcher.Service.{
  LaunchCall, open_device, bind_session, publish_ready, start_power, happened, stop_power,
  unbind_session, join_power, publish_gone, close_device,
}

abbrev pub is_session : ℕ → Option ℕ → Bool
is_session id none = false
is_session id (some bound) = bound == id

abbrev pub is_unbound : Option ℕ → Bool
is_unbound none = true
is_unbound (some bound) = false

-- A release with its result.
abbrev pub tallied : ℕ → Failure → List Failure → List Failure
tallied errno failure failures = if errno == 0 then failures else failures ++ failure ∷ []

-- When each call may be made, what is left to be released then, and what failed. A command is answered only for
-- the session that is bound, after the launcher has said that it is ready. What is to be released is released
-- once, whether that succeeds or not.
abbrev pub launch_call : LaunchCall → Resources → Option Resources
launch_call open_device r = allowed (not r.device) (record r { device = true })
launch_call (bind_session id) r =
    allowed (r.device && is_unbound r.session) (record r { session = some id })
launch_call publish_ready r =
    allowed (not (is_unbound r.session) && not r.ready) (record r { ready = true })
launch_call start_power r = allowed (r.ready && not r.power) (record r { power = true })
launch_call (happened (controlled c)) r = control_call c r
launch_call (happened (handled c h)) r = allowed (r.ready && is_session c.session r.session) r
launch_call stop_power r = some r
launch_call (unbind_session id e) r =
    allowed (is_session id r.session)
      (record r { session = none; failures = tallied e not_unbound r.failures })
launch_call (join_power e) r =
    allowed r.power (record r { power = false; failures = tallied e not_joined r.failures })
launch_call (publish_gone e) r =
    allowed (r.ready && not r.power)
      (record r { ready = false; failures = tallied e not_withdrawn r.failures })
launch_call (close_device e) r =
    allowed (r.device && is_unbound r.session && not r.ready && not r.power && not r.log)
      (record r { device = false; failures = tallied e not_closed r.failures })

abbrev pub launch_calls : List LaunchCall → Resources → Option Resources
launch_calls = replay launch_call

pub controls-replay :
    (calls : List ControlCall) (r : Resources)
    → launch_calls (map (λ c. happened (controlled c)) calls) r ≡ control_calls calls r
controls-replay [] r = refl
controls-replay (c ∷ calls) r = by_call (control_call c r) (controls-replay calls)
  where
    by_call :
        (o : Option Resources)
        → ((u : Resources)
            → launch_calls (map (λ c. happened (controlled c)) calls) u ≡ control_calls calls u)
        → ◌≡◌ {A = Option Resources}
            (elim o as (λ _. Option Resources) [
              | none ↦ none
              | some u ↦ launch_calls (map (λ c. happened (controlled c)) calls) u
            ])
            (elim o as (λ _. Option Resources) [ none ↦ none | some u ↦ control_calls calls u ])
    by_call none ih = refl
    by_call (some u) ih = ih u

-- What is held in the loop.
abbrev pub serving : ℕ → Controls → Resources
serving id c = record {
  device = true;
  session = some id;
  ready = true;
  power = true;
  log = c.created;
  failures = [];
}
