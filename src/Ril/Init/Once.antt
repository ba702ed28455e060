-- ===== src/Ril/Init/Once.antt =====
-- RIL_Init when nothing fails, and the call after one that handed a table out.
use android_device_xsh_k50sv.Prelude.{
  ℕ, ◌-◌, ◌%◌, ◌≡◌, ◌≢◌, sym, subst, ◌∙◌, true, false, Bool, inl, inr, Option, none, some, ◌==◌,
  arith, if◌then◌else◌,
}
use android_device_xsh_k50sv.Prelude.Int.{ℤ}
use android_device_xsh_k50sv.Ril.Got.{Memory}
use android_device_xsh_k50sv.Ril.Init.{
  PatchFaults, field_of, is_bad_version, patch_field, patch_mapped, patch_on_request, Library, Blob,
  hand_out, call_real_init, ril_init,
}
use android_device_xsh_k50sv.Ril.Init.Closed.{ril_init-IsClosed}

ril_init-patched :
    (f : PatchFaults) (shim : ℕ) (b : Blob) (env funcs : ℕ) (s : Library)
    → s.on_request_patched ≡ true
    → s.real_funcs ≡ some funcs
    → ril_init f shim b env s ≡ (some funcs, s)
unfolding ril_init
ril_init-patched f shim b env funcs s done table = ground (arith, done, table)

-- Once `RIL_Init` has returned a table, each further call, with any environment, returns the same table and
-- changes nothing: the blob is not initialized again, and the shim does not become its own original.
pub ril_init_once :
    (f f' : PatchFaults) (shim : ℕ) (b b' : Blob) (env env' funcs : ℕ) (s : Library)
    → s.on_request_patched ≡ false
    → (ril_init f shim b env s).0 ≡ some funcs
    → ril_init f' shim b' env' (ril_init f shim b env s).1
      ≡ (some funcs, (ril_init f shim b env s).1)
ril_init_once f f' shim b b' env env' funcs s new e = elim (ril_init-IsClosed f shim b env s new) [
  | inr w ↦ absurd (cc (sym w.0 ∙ e))
  | inl w ↦
      let (table, returned, wraps) = w in
      ril_init-patched f' shim b' env' funcs (ril_init f shim b env s).1 wraps.done
        (wraps.table ∙ (sym returned ∙ e))
]

-- A blob and a system in which nothing fails, with a page of `size` bytes.
abbrev pub sound : ℕ → PatchFaults
sound size = record {
  page_size = some size;
  maps_fail = false;
  unprotect_fails = false;
  stored_after = none;
  restore_fails = false;
  retry_fails = false;
}

patch_mapped-sound :
    (size shim field page protection : ℕ) (m : Memory)
    → (patch_mapped (sound size) shim field page protection m).0 ≡ true
unfolding patch_mapped patch_field
patch_mapped-sound size shim field page protection m = ground arith

patch_on_request-sound :
    (size shim protection funcs : ℕ) (version : ℤ) (m : Memory)
    → is_bad_version version ≡ false
    → m.word (field_of funcs) ≢ 0
    → m.protection (field_of funcs - field_of funcs % size) ≡ some protection
    → (patch_on_request (sound size) shim version funcs m).0 ≡ true
unfolding patch_on_request
patch_on_request-sound size shim protection funcs version m v w p =
    let word : (m.word (field_of funcs) == 0) ≡ false = ground arith in
    rw (v, word, p)
      (patch_mapped-sound size shim (field_of funcs) (field_of funcs - field_of funcs % size)
        protection m)

hand_out-patched :
    (f : PatchFaults) (shim : ℕ) (b : Blob) (funcs : ℕ) (s : Library)
    → (patch_on_request f shim b.version funcs s.memory).0 ≡ true
    → (hand_out f shim b funcs s).0 ≡ some funcs
unfolding hand_out
hand_out-patched f shim b funcs s h = rw h

call_real_init-patched :
    (f : PatchFaults) (shim : ℕ) (b : Blob) (env funcs : ℕ) (s : Library)
    → b.has_init ≡ true
    → b.init_result ≡ some funcs
    → (patch_on_request f shim b.version funcs (b.init_memory s.memory)).0 ≡ true
    → (call_real_init f shim b env s).0 ≡ some funcs
unfolding call_real_init
call_real_init-patched f shim b env funcs s found result h =
    by_symbol b.has_init b.init_result found result
  where
    by_symbol :
        (known : Bool) (r : Option ℕ)
        → known ≡ true
        → r ≡ some funcs
        → (let s' : Library = record s {
          env = env;
          real_funcs = r;
          memory = b.init_memory s.memory;
        } in
            if◌then◌else◌ {A = Option ℕ × Library} known
              (elim r [ none ↦ (none, s') | some g ↦ hand_out f shim b g s' ])
              (none, s)).0
          ≡ some funcs
    by_symbol false r e e' = cc
    by_symbol true none e e' = cc
    by_symbol true (some g) e e' =
        let same : funcs ≡ g = cc e' in
        subst
          (λ z.
            (hand_out f shim b z
              (record s { env = env; real_funcs = some z; memory = b.init_memory s.memory })).0
            ≡ some funcs)
          same
          (hand_out-patched f shim b funcs
            (record s { env = env; real_funcs = some funcs; memory = b.init_memory s.memory }) h)

-- `RIL_Init` succeeds: if the blob opens and its RIL_Init returns a table of a known version with an
-- onRequest in a mapping, and no system call fails, that table is handed out.
pub ril_init-sound :
    (size shim handle protection env funcs : ℕ) (b : Blob) (s : Library)
    → s.on_request_patched ≡ false
    → s.handle ≡ none
    → b.opens ≡ some handle
    → b.has_init ≡ true
    → b.init_result ≡ some funcs
    → is_bad_version b.version ≡ false
    → (b.init_memory s.memory).word (field_of funcs) ≢ 0
    → (b.init_memory s.memory).protection (field_of funcs - field_of funcs % size) ≡ some protection
    → (ril_init (sound size) shim b env s).0 ≡ some funcs
unfolding ril_init
ril_init-sound size shim handle protection env funcs b s new fresh opens found result v w p =
    by_handle s.on_request_patched s.handle b.opens new fresh opens
  where
    by_handle :
        (done : Bool) (h o : Option ℕ)
        → done ≡ false
        → h ≡ none
        → o ≡ some handle
        → (let r : Option ℕ × Library = elim h [
          | none ↦ (o, record s { handle = o })
          | some k ↦ (some k, s)
        ] in
            if◌then◌else◌ {A = Option ℕ × Library} done
              (s.real_funcs, s)
              (elim r.0 [
                | none ↦ (none, r.1)
                | some k ↦ call_real_init (sound size) shim b env r.1
              ])).0
          ≡ some funcs
    by_handle true h o ed eh eo = cc
    by_handle false (some k) o ed eh eo = cc
    by_handle false none none ed eh eo = cc
    by_handle false none (some k) ed eh eo =
        call_real_init-patched (sound size) shim b env funcs (record s { handle = some k }) found
          result
          (patch_on_request-sound size shim protection funcs b.version (b.init_memory s.memory) v w
            p)
