-- ===== src/Wmt/Launcher/Tests.antt =====
-- A run of the launcher: it binds session 5, answers a patch search of an empty directory with an error and an
-- unknown command with another, and is then asked to stop.
use android_device_xsh_k50sv.Prelude.{
  ℕ, ◌≡◌, ◌≤◌, ◌<◌, ◌⊎◌, refl, true, false, some, none, List, [], ◌∷◌, ok, fail, Result, All, arith,
  length, ◌==◌, if◌then◌else◌,
}
use android_device_xsh_k50sv.Prelude.CStrings.{codes, padded, contains, chars, bytes_eq}
use android_device_xsh_k50sv.Prelude.Errno.{einval, eintr}
use android_device_xsh_k50sv.Wmt.Loader.{read_hex, read_digits}
use android_device_xsh_k50sv.Wmt.Protocol.{
  WmtCommand, decode, read16, read32, read64, reply_status, status, kind_number, write_max,
}
use android_device_xsh_k50sv.Wmt.Protocol.Decode.{encode_command, command_of}
use android_device_xsh_k50sv.Wmt.Protocol.Reply.{header_bytes, list_bytes}
use android_device_xsh_k50sv.Wmt.Protocol.Frames.{IsReply}
use android_device_xsh_k50sv.Wmt.Firmware.Directory.{Directory, search_directory, search_entries}
use android_device_xsh_k50sv.Wmt.Launcher.Commands.{
  search_chip, search_metadata, answer, deliver_answer, send_frame, Surroundings, Metadata, negated,
  collect, handle_command,
}
use android_device_xsh_k50sv.Wmt.Launcher.Replies.{handle_command_cases}
use android_device_xsh_k50sv.Wmt.Launcher.Described.{Collects}
use android_device_xsh_k50sv.Wmt.Launcher.Outcomes.{Sends}
use android_device_xsh_k50sv.Wmt.Launcher.Power.{
  open_driver, check_chip, cached_chip, Switching, switch_on, switch_off, sleep, power_from,
  power_on,
}
use android_device_xsh_k50sv.Wmt.Launcher.Controls.{no_controls, Requests, check_optional_controls}
use android_device_xsh_k50sv.Wmt.Patch.{set_complete}
use android_device_xsh_k50sv.Wmt.Firmware.Patches.{firmware_search, search_patches, completed}
use android_device_xsh_k50sv.Wmt.Launcher.Loop.{
  Round, LoopState, command_loop, loop_round, check_controls, poll_command, read_command, serve,
}
use android_device_xsh_k50sv.Wmt.Launcher.RoundEnds.{AnswersOne}
use android_device_xsh_k50sv.Wmt.Launcher.Ends.{EndsOne, GoesOn, command_loop_cases}
use android_device_xsh_k50sv.Wmt.Launcher.Service.{
  directory_option, mode_option, parse_options, Launch, serve_commands, with_session, bind_device,
  with_device, launch, main,
}
use android_device_xsh_k50sv.Wmt.Launcher.Releases.{IsClean, main_releases}

abbrev empty_directory : Directory
empty_directory = record { opened = 0; entries = []; ended = 0; closed = 0 }

abbrev surroundings : Surroundings
surroundings = record {
  chip = ok 0x6755;
  version = ok 0x8a12;
  directories = λ path. empty_directory;
  writes = record { result = fail eintr; stopping = false } ∷ [];
}

abbrev search_command : WmtCommand
search_command = command_of 5 9 (codes "srh_patch")

handle_command_cases_example :
    ((m : Metadata) × Collects surroundings (codes "/f") search_command (ok m)
      × IsReply search_command m.kind m.records 2680
      × Sends surroundings.writes
          (list_bytes search_command m.kind m.records (length m.records))
          m.publications
          (handle_command surroundings (codes "/f") search_command))
    ⊎ ((e : ℕ) × Collects surroundings (codes "/f") search_command (fail e)
        × ((e ≤ 4095)
              × Sends surroundings.writes
                  (header_bytes search_command (kind_number status) 0 (negated e))
                  []
                  (handle_command surroundings (codes "/f") search_command)
            ⊎ (4095 < e)
              × (handle_command surroundings (codes "/f") search_command
                  ≡ record { returned = fail einval; frame = none; published = [] })))
handle_command_cases_example =
    handle_command_cases surroundings b'/' (codes "f") search_command (omega arith) (omega arith) tt

abbrev idle_requests : Requests
idle_requests = record {
  fwlog = [];
  dump = [];
  finished = false;
  joined = 0;
  started = 0;
  disabled = 0;
  dumped = 0;
}

abbrev reading : List ℕ → Requests → Round
reading bytes requests = record {
  stopping = false;
  power = some (ok 0);
  requests = requests;
  poll = ok (record { broken = false; readable = true });
  read = ok bytes;
  surroundings = surroundings;
}

abbrev rounds : List Round
rounds =
    reading (encode_command 5 9 (codes "srh_patch")) (record idle_requests { fwlog = codes "yes" })
    ∷ reading (encode_command 5 10 (codes "what")) idle_requests
    ∷ record (reading [] idle_requests) { stopping = true }
    ∷ []

abbrev start : LoopState
start = record { power_checked = false; controls = no_controls }

command_loop_cases_example :
    All (AnswersOne (codes "/f") 5 rounds) (command_loop (codes "/f") 5 rounds start).2
    × ((result : Result ℕ)
        → (command_loop (codes "/f") 5 rounds start).0 ≡ some result
        → EndsOne (codes "/f") 5 false rounds result)
    × ((command_loop (codes "/f") 5 rounds start).0 ≡ none → GoesOn false rounds)
command_loop_cases_example = command_loop_cases (codes "/f") 5 rounds start

abbrev process : Launch
process = record {
  options = directory_option (codes "/f") ∷ mode_option (codes "1") ∷ [];
  has_operands = false;
  handles_signals = true;
  attempts =
      record { stopping = false; ready = []; opened = ok 3 }
      ∷ record { stopping = false; ready = codes "yes"; opened = ok 3 }
      ∷ [];
  cached_chip = codes "0x6755";
  queries = [];
  bind = ok (record {
    version = 2;
    id = 5;
    max_read_bytes = 287;
    max_write_bytes = write_max;
    flags = 0;
    reserved = 0;
  });
  set_hif = 0;
  clear_kill = 0;
  set_ready = true;
  create_power = 0;
  rounds = rounds;
  unbound = 0;
  power_joined = 0;
  exit = idle_requests;
  set_gone = 1;
  closed = 0;
  stop_requested = true;
}

main_releases_example : IsClean process (main process)
main_releases_example = main_releases process refl

-- The power thread with a failure, a result other than 0, and a success at the third attempt.
abbrev switching : ℕ → Switching
switching attempt = record {
  stopping = false;
  switched = (if attempt == 0 then fail 5 else if attempt == 1 then ok 1 else ok 0);
  stopped = false;
}

powered :
    power_on switching
    ≡ (ok 0, switch_on ∷ switch_off ∷ sleep ∷ switch_on ∷ switch_off ∷ sleep ∷ switch_on ∷ [])
unfolding power_from
powered = refl

ended : (main process).0 ≡ some 0
unfolding main parse_options bytes_eq launch open_driver with_device check_chip cached_chip read_hex
    read_digits bind_device with_session serve_commands command_loop loop_round check_controls
    check_optional_controls poll_command read_command serve decode read16 read32 read64 contains
    padded chars handle_command collect search_chip search_metadata firmware_search search_patches
    search_directory search_entries completed set_complete answer reply_status deliver_answer
    send_frame
ended = refl
