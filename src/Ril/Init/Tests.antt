-- ===== src/Ril/Init/Tests.antt =====
-- Runs of the hook transaction and of RIL_Init on a memory with one page of slots and one with a table.
use android_device_xsh_k50sv.Prelude.{
  ℕ, ◌≡◌, refl, true, false, none, some, ◌==◌, if◌then◌else◌, arith,
}
use android_device_xsh_k50sv.Prelude.Int.{pos}
use android_device_xsh_k50sv.Ril.Attach.{initial, active}
use android_device_xsh_k50sv.Ril.Got.{
  Memory, GotEntry, no_faults, Installation, published, install_attach_apn_hooks,
}
use android_device_xsh_k50sv.Ril.Got.Install.{Holds, Ends, install-Ends}
use android_device_xsh_k50sv.Ril.Got.Clean.{clean, install_clean}
use android_device_xsh_k50sv.Ril.Init.{Library, Blob, ril_init}
use android_device_xsh_k50sv.Ril.Init.Closed.{IsClosed, ril_init-IsClosed}
use android_device_xsh_k50sv.Ril.Init.Once.{sound, ril_init_once, ril_init-sound}

-- Slots at 4096 and 4104 hold 7 and 8; the table at 8192 has its onRequest, 9, at 8200. Pages are read-only.
abbrev memory : Memory
memory = record {
  word = λ a. if a == 4096 then 7 else if a == 4104 then 8 else if a == 8200 then 9 else 0;
  protection = λ p. some 1;
}

abbrev unsol_entry : GotEntry
unsol_entry = record { slot = 4096; original = 7; replacement = 70; page = 4096; protection = 1 }

abbrev complete_entry : GotEntry
complete_entry = record { slot = 4104; original = 8; replacement = 80; page = 4096; protection = 1 }

unsol-Holds : Holds unsol_entry 7 memory
unsol-Holds = record { word = refl; protection = refl }

complete-Holds : Holds complete_entry 8 memory
complete-Holds = record { word = refl; protection = refl }

-- The second slot is changed by another thread.
abbrev disturbed : Installation
disturbed = record (clean unsol_entry complete_entry) {
  complete_faults = record no_faults { stored_before = some 99 };
}

install-Ends_example :
    Ends unsol_entry complete_entry initial memory
      (install_attach_apn_hooks disturbed initial memory)
install-Ends_example = install-Ends disturbed unsol_entry complete_entry initial memory refl refl

install_clean_example :
    let (success, (s', m')) =
      install_attach_apn_hooks (clean unsol_entry complete_entry) initial memory in
    (success ≡ true)
    × (s' ≡ record (published initial) { hooks = active })
    × ((a : ℕ) → m'.word a ≡ (if a == 4104 then 80 else if a == 4096 then 70 else memory.word a))
    × ((p : ℕ) → m'.protection p ≡ some 1)
install_clean_example =
    install_clean unsol_entry complete_entry initial memory refl (λ e. ground arith) unsol-Holds
      complete-Holds

abbrev library : Library
library = record {
  handle = none;
  env = 0;
  real_funcs = none;
  real_on_request = none;
  on_request_patched = false;
  memory = memory;
}

abbrev blob : Blob
blob = record {
  opens = some 3;
  has_init = true;
  has_sap_init = true;
  init_result = some 8192;
  version = pos 15;
  init_memory = λ m. m;
  sap_init_result = none;
}

ril_init-sound_example : (ril_init (sound 4096) 500 blob 1 library).0 ≡ some 8192
ril_init-sound_example =
    ril_init-sound 4096 500 3 1 1 8192 blob library refl refl refl refl refl refl
      (λ e. ground arith) refl

ril_init-IsClosed_example : IsClosed 500 memory (ril_init (sound 4096) 500 blob 1 library)
ril_init-IsClosed_example = ril_init-IsClosed (sound 4096) 500 blob 1 library refl

initialized : (ril_init (sound 4096) 500 blob 1 library).0 ≡ some 8192
initialized =
    ril_init-sound 4096 500 3 1 1 8192 blob library refl refl refl refl refl refl
      (λ e. ground arith) refl

ril_init_once_example :
    ril_init (sound 4096) 500 blob 2 (ril_init (sound 4096) 500 blob 1 library).1
    ≡ (some 8192, (ril_init (sound 4096) 500 blob 1 library).1)
ril_init_once_example =
    ril_init_once (sound 4096) (sound 4096) 500 blob blob 1 2 8192 library refl initialized
