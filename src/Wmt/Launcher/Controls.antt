-- ===== src/Wmt/Launcher/Controls.antt =====
-- wmt-launcher/main.c: firmware logging by a worker thread, and the dynamic dump. An errno of 0 stands for a
-- call that succeeds.
use android_device_xsh_k50sv.Prelude.{
  ℕ, Bool, true, false, List, [], ◌∷◌, ◌++◌, ◌==◌, if◌then◌else◌, Result, ok, fail,
}
use android_device_xsh_k50sv.Prelude.CStrings.{bytes_eq}
use android_device_xsh_k50sv.Wmt.Loader.{is_yes}

-- struct optional_controls, whose log has a worker if it is `created`.
pub record Controls : Type 0 where
  pub fwlog : List ℕ
  pub dump : List ℕ
  pub created : Bool

abbrev pub no_controls : Controls
no_controls = record { fwlog = []; dump = []; created = false }

-- The properties, whether the worker has finished, and the results of the calls.
pub record Requests : Type 0 where
  pub fwlog : List ℕ
  pub dump : List ℕ
  pub finished : Bool
  pub joined : ℕ
  pub started : ℕ
  pub disabled : ℕ
  pub dumped : ℕ

-- pthread_join and pthread_create with their results, and the two ioctls.
pub data ControlCall : Type 0 where
  join_log : ℕ → ControlCall
  start_log : ℕ → ControlCall
  disable_log : ControlCall
  set_dump : List ℕ → ControlCall

abbrev pub errno_result : ℕ → Result ℕ
errno_result e = if e == 0 then ok 0 else fail e

-- The joining part: false if it failed.
abbrev pub join_worker : ℕ → Controls → Bool × Controls × List ControlCall
join_worker joined c =
    if c.created
    then (if joined == 0
        then (true, record c { created = false }, join_log 0 ∷ [])
        else (false, c, join_log joined ∷ []))
    else (true, c, [])

unfoldable pub stop_firmware_log : Requests → Controls → Result ℕ × Controls × List ControlCall
stop_firmware_log r c =
    let (done, c', calls) = join_worker r.joined c in
    if done
    then (errno_result r.disabled, c', calls ++ disable_log ∷ [])
    else (fail r.joined, c', calls)

-- A worker that has finished is joined before another is started.
unfoldable pub start_firmware_log : Requests → Controls → Controls × List ControlCall
start_firmware_log r c =
    let (_, c', calls) = if r.finished then join_worker r.joined c else (true, c, []) in
    if c'.created
    then (c', calls)
    else if r.started == 0
    then (record c' { created = true; fwlog = r.fwlog }, calls ++ start_log 0 ∷ [])
    else (c', calls ++ start_log r.started ∷ [])

abbrev pub stopped_log :
    Requests → Result ℕ × Controls × List ControlCall → Controls × List ControlCall
stopped_log r (ok _, c, calls) = (record c { fwlog = r.fwlog }, calls)
stopped_log r (fail e, c, calls) = (c, calls)

unfoldable pub check_log : Requests → Controls → Controls × List ControlCall
check_log r c =
    if is_yes r.fwlog
    then start_firmware_log r c
    else if bytes_eq r.fwlog c.fwlog
    then (c, [])
    else stopped_log r (stop_firmware_log r c)

unfoldable pub check_dump : Requests → Controls → Controls × List ControlCall
check_dump r c =
    if bytes_eq r.dump c.dump
    then (c, [])
    else (if r.dumped == 0 then record c { dump = r.dump } else c, set_dump r.dump ∷ [])

unfoldable pub check_optional_controls : Requests → Controls → Controls × List ControlCall
check_optional_controls r c =
    let (logged, calls) = check_log r c in
    let (dumped, more) = check_dump r logged in (dumped, calls ++ more)
