-- ===== src/Ril/Init.antt =====
-- patchOnRequest, openRealRil, RIL_Init and RIL_SAP_Init of ril-shim/k50sv1_ril_shim.c. What dlopen, dlsym
-- and the blob's own RIL_Init return are arguments. A function table is an address; its onRequest stands at
-- offset 8. `shim` is the address of onRequestShim.
pub mod Closed
pub mod Once
mod Tests
use android_device_xsh_k50sv.Prelude.{
  ℕ, ◌+◌, ◌-◌, ◌%◌, Bool, true, false, not, ◌&&◌, ◌||◌, Option, none, some, ltb, ◌==◌,
  if◌then◌else◌,
}
use android_device_xsh_k50sv.Prelude.Bits.{has, with_bit}
use android_device_xsh_k50sv.Prelude.Int.{ℤ, pos, negsuc}
use android_device_xsh_k50sv.Ril.Got.{Memory, store, protect, stored_by_others}

-- What patchOnRequest runs into. Its page is `none` when sysconf fails.
pub record PatchFaults : Type 0 where
  pub page_size : Option ℕ
  pub maps_fail : Bool
  pub unprotect_fails : Bool
  pub stored_after : Option ℕ
  pub restore_fails : Bool
  pub retry_fails : Bool

abbrev pub field_of : ℕ → ℕ
field_of funcs = funcs + 8

abbrev pub is_bad_version : ℤ → Bool
is_bad_version (pos n) = ltb n 6 || ltb 20 n
is_bad_version (negsuc n) = true

-- The result, sRealOnRequest after it if that was published, and the memory. True is the result 0.
abbrev pub Patch : Type 0
Patch = Bool × (Option ℕ × Memory)

-- The protection is put back, at the second attempt if need be; the result does not depend on it.
abbrev pub restore : PatchFaults → ℕ → ℕ → Memory → Memory
restore f page protection m =
    if has protection 1 || f.restore_fails && f.retry_fails then m else protect page protection m

-- From the publication of the original on.
unfoldable pub patch_field : PatchFaults → ℕ → ℕ → ℕ → ℕ → Memory → Patch
patch_field f shim field page protection m =
    let original = m.word field in
    let m1 = stored_by_others field f.stored_after (store field shim m) in
    let patched = m1.word field == shim in (patched, (some original, restore f page protection m1))

unfoldable pub patch_mapped : PatchFaults → ℕ → ℕ → ℕ → ℕ → Memory → Patch
patch_mapped f shim field page protection m =
    if has protection 1
    then patch_field f shim field page protection m
    else if f.unprotect_fails
    then (false, (none, m))
    else patch_field f shim field page protection (protect page (with_bit protection 1) m)

unfoldable pub patch_on_request : PatchFaults → ℕ → ℤ → ℕ → Memory → Patch
patch_on_request f shim version funcs m = elim f.page_size [
  | none ↦ (false, (none, m))
  | some size ↦
      if is_bad_version version || m.word (field_of funcs) == 0 || f.maps_fail
      then (false, (none, m))
      else elim (m.protection (field_of funcs - field_of funcs % size)) [
        | none ↦ (false, (none, m))
        | some protection ↦
            patch_mapped f shim (field_of funcs) (field_of funcs - field_of funcs % size) protection
              m
      ]
]

-- sRealHandle, sEnv, sRealFuncs, sRealOnRequest and sOnRequestPatched, and the memory.
pub record Library : Type 0 where
  pub handle : Option ℕ
  pub env : ℕ
  pub real_funcs : Option ℕ
  pub real_on_request : Option ℕ
  pub on_request_patched : Bool
  pub memory : Memory

-- dlopen's result, whether dlsym finds each symbol, the blob's RIL_Init: the table that it returns, its
-- version and the memory after it, and the table of its RIL_SAP_Init.
pub record Blob : Type 0 where
  pub opens : Option ℕ
  pub has_init : Bool
  pub has_sap_init : Bool
  pub init_result : Option ℕ
  pub version : ℤ
  pub init_memory : Memory → Memory
  pub sap_init_result : Option ℕ

abbrev pub open_real_ril : Blob → Library → Option ℕ × Library
open_real_ril b s = opened s.handle
  where
    opened : Option ℕ → Option ℕ × Library
    opened none = (b.opens, record s { handle = b.opens })
    opened (some h) = (some h, s)

-- sRealOnRequest after a patch.
abbrev pub published_or : Option ℕ → Option ℕ → Option ℕ
published_or none before = before
published_or (some original) before = some original

-- From the patch on: a table that could not be patched is not handed out.
unfoldable pub hand_out : PatchFaults → ℕ → Blob → ℕ → Library → Option ℕ × Library
hand_out f shim b funcs s =
    let (patched, (original, memory)) = patch_on_request f shim b.version funcs s.memory in
    if patched
    then (
      some funcs,
      record s {
        real_on_request = published_or original s.real_on_request;
        on_request_patched = true;
        memory = memory;
      },
    )
    else (
      none,
      record s { real_on_request = published_or original s.real_on_request; memory = memory },
    )

-- The call of the blob's RIL_Init, when there is one.
unfoldable pub call_real_init : PatchFaults → ℕ → Blob → ℕ → Library → Option ℕ × Library
call_real_init f shim b env s =
    if b.has_init
    then (let s' = record s {
      env = env;
      real_funcs = b.init_result;
      memory = b.init_memory s.memory;
    } in
        elim b.init_result [ none ↦ (none, s') | some funcs ↦ hand_out f shim b funcs s' ])
    else (none, s)

-- Without the attach-APN hooks, which RIL_Init tries to install at the end and whose result it only logs.
unfoldable pub ril_init : PatchFaults → ℕ → Blob → ℕ → Library → Option ℕ × Library
ril_init f shim b env s =
    if s.on_request_patched
    then (s.real_funcs, s)
    else (let (handle, s') = open_real_ril b s in
        elim handle [ none ↦ (none, s') | some h ↦ call_real_init f shim b env s' ])

unfoldable pub ril_sap_init : Blob → Library → Option ℕ × Library
ril_sap_init b s =
    let (handle, s') = open_real_ril b s in
    (elim handle [ none ↦ none | some h ↦ if b.has_sap_init then b.sap_init_result else none ], s')
