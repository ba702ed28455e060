-- ===== src/Wmt/Launcher/Service.antt =====
-- wmt-launcher/main.c: main, from its options to the release of what it has taken.
use android_device_xsh_k50sv.Prelude.{
  ℕ, ◌+◌, Bool, true, false, not, ◌||◌, Option, none, some, List, [], ◌∷◌, ◌++◌, map, ltb, ◌==◌,
  if◌then◌else◌, Result, ok, fail, length,
}
use android_device_xsh_k50sv.Prelude.Errno.{eproto, eio}
use android_device_xsh_k50sv.Prelude.CStrings.{bytes_eq, codes}
use android_device_xsh_k50sv.Wmt.Protocol.{write_max}
use android_device_xsh_k50sv.Wmt.Loader.{is_yes}
use android_device_xsh_k50sv.Wmt.Launcher.Power.{Attempt, open_driver, ChipQuery, check_chip}
use android_device_xsh_k50sv.Wmt.Launcher.Controls.{
  Controls, no_controls, Requests, stop_firmware_log,
}
use android_device_xsh_k50sv.Wmt.Launcher.Loop.{Round, LoopEvent, controlled, command_loop}

-- What getopt finds: -p, -o, -h, or an option that there is not.
pub data LaunchOption : Type 0 where
  directory_option : List ℕ → LaunchOption
  mode_option : List ℕ → LaunchOption
  help_option : LaunchOption
  unknown_option : LaunchOption

-- The directory, and the argument of WMT_POWER.
pub record Settings : Type 0 where
  pub directory : List ℕ
  pub argument : ℕ

abbrev pub default_settings : Settings
default_settings = record { directory = codes "/vendor/firmware/"; argument = 1 }

-- The settings; `fail` carries the exit status.
unfoldable pub parse_options : List LaunchOption → Settings → Result Settings
parse_options [] s = ok s
parse_options (directory_option d ∷ options) s = parse_options options (record s { directory = d })
parse_options (mode_option m ∷ options) s =
    let rest =
      parse_options options (record s { argument = if bytes_eq m (codes "1") then 2 else 1 }) in
    if bytes_eq m (codes "0") || bytes_eq m (codes "1") then rest else fail 2
parse_options (help_option ∷ options) s = fail 0
parse_options (unknown_option ∷ options) s = fail 2

-- struct wmt_cmd2_session, as WMT_CMD2_BIND fills it.
pub record Session : Type 0 where
  pub version : ℕ
  pub id : ℕ
  pub max_read_bytes : ℕ
  pub max_write_bytes : ℕ
  pub flags : ℕ
  pub reserved : ℕ

-- What main's calls return, in their order; an errno of 0 stands for a call that succeeds. `exit` is what the
-- final stop of the log worker meets, and `stop_requested` the flag at the end.
pub record Launch : Type 0 where
  pub options : List LaunchOption
  pub has_operands : Bool
  pub handles_signals : Bool
  pub attempts : List Attempt
  pub cached_chip : List ℕ
  pub queries : List ChipQuery
  pub bind : Result Session
  pub set_hif : ℕ
  pub clear_kill : ℕ
  pub set_ready : Bool
  pub create_power : ℕ
  pub rounds : List Round
  pub unbound : ℕ
  pub power_joined : ℕ
  pub exit : Requests
  pub set_gone : ℕ
  pub closed : ℕ
  pub stop_requested : Bool

-- Calls that succeeded in taking something, the events of the loop, and the calls of the release, with their
-- results.
pub data LaunchCall : Type 0 where
  open_device : LaunchCall
  bind_session : ℕ → LaunchCall
  publish_ready : LaunchCall
  start_power : LaunchCall
  happened : LoopEvent → LaunchCall
  stop_power : LaunchCall
  unbind_session : ℕ → ℕ → LaunchCall
  join_power : ℕ → LaunchCall
  publish_gone : ℕ → LaunchCall
  close_device : ℕ → LaunchCall

-- The variables `bound` with the session's id, `power_started`, `advertised` and `controls`.
pub record Held : Type 0 where
  pub session : Option ℕ
  pub power_started : Bool
  pub advertised : Bool
  pub controls : Controls

abbrev pub nothing_held : Held
nothing_held = record {
  session = none;
  power_started = false;
  advertised = false;
  controls = no_controls;
}

abbrev pub bound_to : ℕ → Held
bound_to id = record nothing_held { session = some id }

abbrev pub is_bad_session : Session → Bool
is_bad_session s =
    not (s.version == 2)
    || s.id == 0
    || not (s.max_read_bytes == 32 + 255)
    || not (s.max_write_bytes == write_max)
    || not (s.flags == 0)
    || not (s.reserved == 0)

-- The result at `out`, if main gets there, what it then holds, and its calls so far.
abbrev pub Stage : Type 0
Stage = Option (Result ℕ) × Held × List LaunchCall

unfoldable pub serve_commands : Launch → Settings → Session → Stage
serve_commands w settings session =
    let held = record (bound_to session.id) { advertised = true } in
    if not (w.create_power == 0)
    then (some (fail w.create_power), held, publish_ready ∷ [])
    else (let (result, last, events) =
          command_loop settings.directory session.id w.rounds
            (record { power_checked = false; controls = no_controls }) in
        (
          result,
          record held { power_started = true; controls = last.controls },
          publish_ready ∷ start_power ∷ map happened events,
        ))

-- The part behind the bind.
unfoldable pub with_session : Launch → Settings → Session → Stage
with_session w settings session =
    if is_bad_session session
    then (some (fail eproto), bound_to session.id, [])
    else if not (w.set_hif == 0)
    then (some (fail w.set_hif), bound_to session.id, [])
    else if not (w.clear_kill == 0)
    then (some (fail w.clear_kill), bound_to session.id, [])
    else if not w.set_ready
    then (some (fail eio), bound_to session.id, [])
    else serve_commands w settings session

unfoldable pub bind_device : Launch → Settings → Stage
bind_device w settings = elim w.bind [
  | fail e ↦ (some (fail e), nothing_held, [])
  | ok session ↦
      let (result, held, calls) = with_session w settings session in
      (result, held, bind_session session.id ∷ calls)
]

unfoldable pub with_device : Launch → Settings → Stage
with_device w settings = elim (check_chip w.cached_chip w.queries) [
  | none ↦ (none, nothing_held, [])
  | some result ↦ elim result [
    | fail e ↦ (some (fail e), nothing_held, [])
    | ok n ↦ bind_device w settings
  ]
]

abbrev pub unbinding : ℕ → Option ℕ → List LaunchCall
unbinding unbound none = []
unbinding unbound (some id) = unbind_session id unbound ∷ []

-- `controls.log.created || !strcmp(controls.fwlog, "yes")`
abbrev pub must_stop_log : Controls → Bool
must_stop_log c = c.created || is_yes c.fwlog

-- The code behind `out`, up to close. A release that fails is logged, and the next one is made all the same.
unfoldable pub release_all : Launch → Held → List LaunchCall
release_all w held =
    stop_power
    ∷ (unbinding w.unbound held.session
        ++ ((if held.power_started then join_power w.power_joined ∷ [] else [])
            ++ ((if must_stop_log held.controls
                  then map (λ c. happened (controlled c)) (stop_firmware_log w.exit held.controls).2
                  else [])
                ++ ((if held.advertised then publish_gone w.set_gone ∷ [] else [])
                    ++ close_device w.closed ∷ []))))

-- `result && !stop_requested ? 1 : 0`
abbrev pub exit_status : Result ℕ → Bool → ℕ
exit_status (ok n) stopped = 0
exit_status (fail e) stopped = if stopped then 0 else 1

abbrev pub finish : Launch → Stage → Option ℕ × List LaunchCall
finish w (none, held, calls) = (none, open_device ∷ calls)
finish w (some result, held, calls) =
    (some (exit_status result w.stop_requested), open_device ∷ (calls ++ release_all w held))

unfoldable pub launch : Launch → Settings → Option ℕ × List LaunchCall
launch w settings =
    if w.has_operands
      || length settings.directory == 0
      || not (ltb (length settings.directory) 4096)
    then (some 2, [])
    else if not w.handles_signals
    then (some 1, [])
    else (elim (open_driver w.attempts) [
      | none ↦ (none, [])
      | some opened ↦ elim opened [
        | fail e ↦ (some (exit_status (fail e) w.stop_requested), [])
        | ok fd ↦ finish w (with_device w settings)
      ]
    ])

-- The exit status, if main ends, and its calls.
unfoldable pub main : Launch → Option ℕ × List LaunchCall
main w = elim (parse_options w.options default_settings) [
  | fail status ↦ (some status, [])
  | ok settings ↦ launch w settings
]
