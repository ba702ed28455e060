-- ===== src/Ril/Scan/Tests.antt =====
-- The range check and the resolution of both hooks, on a blob of two segments with two relocations.
use android_device_xsh_k50sv.Prelude.{
  ◌+◌, ◌*◌, ◌^◌, ◌-◌, ◌≤◌, ◌≡◌, ◌⊎◌, ◌↔◌, ◌==◌, true, false, some, none, List, [], ◌∷◌, ◌++◌, arith,
  ℕ, refl, if◌then◌else◌, get_or,
}
use android_device_xsh_k50sv.Prelude.CStrings.{codes, bytes_eq}
use android_device_xsh_k50sv.Ril.Got.{GotEntry}
use android_device_xsh_k50sv.Ril.Scan.{Phdr, uintptr_max, in_module, in_segment, resolve_dyn_ptr}
use android_device_xsh_k50sv.Ril.Scan.Range.{InSome, in_module_iff, resolve_dyn_ptr_cases}
use android_device_xsh_k50sv.Ril.Scan.Modules.{
  Image, LoadedModule, GotScan, scan_modules, after_slash, scan_module, read_dynamic, found_tables,
}
use android_device_xsh_k50sv.Ril.Scan.Scans.{IsScan}
use android_device_xsh_k50sv.Ril.Scan.Entries.{
  Process, unsol_symbol, complete_symbol, resolve_hooks, find_got_entry, find_entry, names_symbol,
  slot_entry,
}
use android_device_xsh_k50sv.Ril.Scan.Only.{IsOnly}
use android_device_xsh_k50sv.Ril.Scan.Resolved.{resolve_hooks_iff}

abbrev phdrs : List Phdr
phdrs =
    record { loads = false; is_dynamic = true; vaddr = 0; memsz = 64 }
    ∷ record { loads = true; is_dynamic = false; vaddr = 4096; memsz = 512 }
    ∷ []

in_module_iff_example : (in_module 65536 phdrs 69640 8 ≡ true) ↔ InSome 65536 69640 8 phdrs
in_module_iff_example = in_module_iff 65536 69640 8 phdrs (omega arith)

resolve_dyn_ptr_cases_example :
    let address = resolve_dyn_ptr 65536 phdrs 4104 8 in
    ((address ≡ 65536 + 4104) × (65536 + 4104 ≤ uintptr_max) × InSome 65536 address 8 phdrs)
    ⊎ ((address ≡ 4104)
        × InSome 65536 address 8 phdrs
        × ¬ ((65536 + 4104 ≤ uintptr_max) × InSome 65536 (65536 + 4104) 8 phdrs))
    ⊎ ((address ≡ 0)
        × ¬ InSome 65536 4104 8 phdrs
        × ¬ ((65536 + 4104 ≤ uintptr_max) × InSome 65536 (65536 + 4104) 8 phdrs))
resolve_dyn_ptr_cases_example = resolve_dyn_ptr_cases 65536 4104 8 phdrs (omega arith)

-- The relocations stand at 4096 of the blob, the symbols at 4160, the names at 4256.
abbrev names : List ℕ
names = codes "RIL_onUnsolicitedResponse" ++ 0 ∷ codes "RIL_onRequestComplete" ++ 0 ∷ []

abbrev image : Image
image = record {
  dynamic = λ address.
      record { tag = 23; value = 4096 }
      ∷ record { tag = 2; value = 48 }
      ∷ record { tag = 6; value = 4160 }
      ∷ record { tag = 5; value = 4256 }
      ∷ record { tag = 20; value = 7 }
      ∷ [];
  rela = λ address.
      if address == 69632
      then record { offset = 4400; info = 1 * 2 ^ 32 + 1026 }
      else record { offset = 4408; info = 2 * 2 ^ 32 + 1026 };
  st_name = λ address. if address == 69720 then 0 else 26;
  byte = λ address. get_or names (address - 69792) 0;
}

abbrev process : Process
process = record {
  memory = record { word = λ a. a + 1; protection = λ page. some 1 };
  image = image;
  page_size = some 4096;
  maps_fail = false;
}

abbrev modules : List LoadedModule
modules =
    record { name = none; base = 0; phdrs = [] }
    ∷ record { name = some (codes "/vendor/lib64/mtk-rilproxy.so"); base = 65536; phdrs = phdrs }
    ∷ []

abbrev entry_of : ℕ → ℕ → GotEntry
entry_of slot hook = record {
  slot = slot;
  original = slot + 1;
  replacement = hook;
  page = 69632;
  protection = 1;
}

resolved : resolve_hooks process modules 5 6 ≡ some (entry_of 69936 5, entry_of 69944 6)
unfolding resolve_hooks scan_modules bytes_eq after_slash scan_module read_dynamic found_tables
    resolve_dyn_ptr in_module in_segment find_got_entry find_entry names_symbol slot_entry
resolved = refl

resolve_hooks_iff_example :
    (resolve_hooks process modules 5 6 ≡ some (entry_of 69936 5, entry_of 69944 6)) ↔ (
      (scan : GotScan) × (scan_modules process.image modules ≡ some scan)
      × IsScan modules scan
      × IsOnly process scan unsol_symbol 5 0 scan.jmprel_count (entry_of 69936 5)
      × IsOnly process scan complete_symbol 6 0 scan.jmprel_count (entry_of 69944 6))
resolve_hooks_iff_example =
    resolve_hooks_iff process modules 5 6 (entry_of 69936 5) (entry_of 69944 6)
      (omega arith, (omega arith, tt))
