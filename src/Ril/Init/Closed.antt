-- ===== src/Ril/Init/Closed.antt =====
-- What RIL_Init of ril-shim/k50sv1_ril_shim.c hands out.
use android_device_xsh_k50sv.Prelude.{
  ℕ, ◌-◌, ◌%◌, ◌≡◌, ◌≢◌, refl, ap, Bool, true, false, ◌||◌, ◌⊎◌, inl, inr, Option, none, some, ◌==◌,
  if◌then◌else◌, arith,
}
use android_device_xsh_k50sv.Prelude.Bits.{has, with_bit}
use android_device_xsh_k50sv.Prelude.Int.{ℤ}
use android_device_xsh_k50sv.Ril.Got.{Memory, protect}
use android_device_xsh_k50sv.Ril.Init.{
  PatchFaults, field_of, is_bad_version, Patch, patch_field, patch_mapped, patch_on_request,
  Library, Blob, published_or, hand_out, call_real_init, ril_init,
}

-- A patch that reports success: the table is one, its onRequest is the shim, and the original is published.
pub record Patches (shim : ℕ) (version : ℤ) (funcs : ℕ) (m : Memory) (outcome : Patch)
    : Type 0 where
  pub in_range : is_bad_version version ≡ false
  pub some_original : m.word (field_of funcs) ≢ 0
  pub published : outcome.1.0 ≡ some (m.word (field_of funcs))
  pub patched : outcome.1.1.word (field_of funcs) ≡ shim

patch_field-word :
    (f : PatchFaults) (shim field page protection : ℕ) (m : Memory)
    → (patch_field f shim field page protection m).0 ≡ true
    → ((patch_field f shim field page protection m).1.1.word field ≡ shim)
      × ((patch_field f shim field page protection m).1.0 ≡ some (m.word field))
unfolding patch_field
patch_field-word f shim field page protection m h = ground arith

patch_mapped-word :
    (f : PatchFaults) (shim field page protection : ℕ) (m : Memory)
    → (patch_mapped f shim field page protection m).0 ≡ true
    → ((patch_mapped f shim field page protection m).1.1.word field ≡ shim)
      × ((patch_mapped f shim field page protection m).1.0 ≡ some (m.word field))
unfolding patch_mapped
patch_mapped-word f shim field page protection m = by_access (has protection 1) f.unprotect_fails
  where
    by_access :
        (writable fails : Bool)
        → let outcome : Patch =
            if writable
            then patch_field f shim field page protection m
            else if fails
            then (false, (none, m))
            else patch_field f shim field page protection
                (protect page (with_bit protection 1) m) in
          outcome.0 ≡ true → (outcome.1.1.word field ≡ shim) × (outcome.1.0 ≡ some (m.word field))
    by_access true fails h = patch_field-word f shim field page protection m h
    by_access false true h = cc
    by_access false false h =
        patch_field-word f shim field page protection (protect page (with_bit protection 1) m) h

pub patch_on_request-Patches :
    (f : PatchFaults) (shim : ℕ) (version : ℤ) (funcs : ℕ) (m : Memory)
    → (patch_on_request f shim version funcs m).0 ≡ true
    → Patches shim version funcs m (patch_on_request f shim version funcs m)
unfolding patch_on_request
patch_on_request-Patches f shim version funcs m = by_size f.page_size
  where
    mapped :
        (size : ℕ) (o : Option ℕ)
        → is_bad_version version ≡ false
        → m.word (field_of funcs) ≢ 0
        → let outcome : Patch = elim o [
          | none ↦ (false, (none, m))
          | some protection ↦
              patch_mapped f shim
                (field_of funcs)
                (field_of funcs - field_of funcs % size)
                protection
                m
        ] in
          outcome.0 ≡ true → Patches shim version funcs m outcome
    mapped size none v o h = cc
    mapped size (some protection) v o h =
        let (word, original) =
          patch_mapped-word f shim (field_of funcs) (field_of funcs - field_of funcs % size)
            protection m h in
        record { in_range = v; some_original = o; published = original; patched = word }

    checked :
        (size : ℕ) (b : Bool)
        → (is_bad_version version || m.word (field_of funcs) == 0 || f.maps_fail) ≡ b
        → let outcome : Patch =
            if b
            then (false, (none, m))
            else elim (m.protection (field_of funcs - field_of funcs % size)) [
              | none ↦ (false, (none, m))
              | some protection ↦
                  patch_mapped f shim
                    (field_of funcs)
                    (field_of funcs - field_of funcs % size)
                    protection
                    m
            ] in
          outcome.0 ≡ true → Patches shim version funcs m outcome
    checked size true e h = cc
    checked size false e h =
        mapped size (m.protection (field_of funcs - field_of funcs % size)) (ground arith)
          (ground arith) h

    by_size :
        (o : Option ℕ)
        → let outcome : Patch = elim o [
          | none ↦ (false, (none, m))
          | some size ↦
              if is_bad_version version || m.word (field_of funcs) == 0 || f.maps_fail
              then (false, (none, m))
              else elim (m.protection (field_of funcs - field_of funcs % size)) [
                | none ↦ (false, (none, m))
                | some protection ↦
                    patch_mapped f shim
                      (field_of funcs)
                      (field_of funcs - field_of funcs % size)
                      protection
                      m
              ]
        ] in
          outcome.0 ≡ true → Patches shim version funcs m outcome
    by_size none h = cc
    by_size (some size) h = checked size _ refl h

-- The library after a table was handed out.
pub record Wraps (shim funcs : ℕ) (before : Memory) (s : Library) : Type 0 where
  pub done : s.on_request_patched ≡ true
  pub table : s.real_funcs ≡ some funcs
  pub hooked : s.memory.word (field_of funcs) ≡ shim
  pub original : s.real_on_request ≡ some (before.word (field_of funcs))
  pub not_null : before.word (field_of funcs) ≢ 0

abbrev pub IsClosed : ℕ → Memory → Option ℕ × Library → Type 0
IsClosed shim before outcome =
    ((funcs : ℕ) × (outcome.0 ≡ some funcs) × Wraps shim funcs before outcome.1)
    ⊎ ((outcome.0 ≡ none) × (outcome.1.on_request_patched ≡ false))

hand_out-IsClosed :
    (f : PatchFaults) (shim : ℕ) (b : Blob) (funcs : ℕ) (s : Library)
    → s.on_request_patched ≡ false
    → s.real_funcs ≡ some funcs
    → IsClosed shim s.memory (hand_out f shim b funcs s)
unfolding hand_out
hand_out-IsClosed f shim b funcs s new table =
    by_patch (patch_on_request f shim b.version funcs s.memory)
      (patch_on_request-Patches f shim b.version funcs s.memory)
  where
    by_patch :
        (p : Patch)
        → (p.0 ≡ true → Patches shim b.version funcs s.memory p)
        → IsClosed shim s.memory (
            if p.0
            then (
              some funcs,
              record s {
                real_on_request = published_or p.1.0 s.real_on_request;
                on_request_patched = true;
                memory = p.1.1;
              },
            )
            else (
              none,
              record s { real_on_request = published_or p.1.0 s.real_on_request; memory = p.1.1 },
            ))
    by_patch (true, (o, m)) h =
        let p = h refl in
        inl (
          funcs,
          refl,
          record {
            done = refl;
            table = table;
            hooked = p.patched;
            original = ap (λ x. published_or x s.real_on_request) p.published;
            not_null = p.some_original;
          },
        )
    by_patch (false, (o, m)) h = inr (refl, new)

call_real_init-IsClosed :
    (f : PatchFaults) (shim : ℕ) (b : Blob) (env : ℕ) (s : Library)
    → s.on_request_patched ≡ false
    → IsClosed shim (b.init_memory s.memory) (call_real_init f shim b env s)
unfolding call_real_init
call_real_init-IsClosed f shim b env s new = by_symbol b.has_init
  where
    called :
        (r : Option ℕ)
        → IsClosed shim (b.init_memory s.memory) (elim r as (λ _. Option ℕ × Library) [
          | none ↦ (none, record s { env = env; real_funcs = r; memory = b.init_memory s.memory })
          | some funcs ↦
              hand_out f shim b funcs
                (record s { env = env; real_funcs = r; memory = b.init_memory s.memory })
        ])
    called none = inr (refl, new)
    called (some funcs) =
        hand_out-IsClosed f shim b funcs
          (record s { env = env; real_funcs = some funcs; memory = b.init_memory s.memory }) new
          refl

    by_symbol :
        (found : Bool)
        → IsClosed shim (b.init_memory s.memory) (
            if found
            then elim b.init_result [
              | none ↦ (
                none,
                record s { env = env; real_funcs = b.init_result; memory = b.init_memory s.memory },
              )
              | some funcs ↦ hand_out f shim b funcs (record s {
                env = env;
                real_funcs = b.init_result;
                memory = b.init_memory s.memory;
              })
            ]
            else (none, s))
    by_symbol true = called b.init_result
    by_symbol false = inr (refl, new)

-- `RIL_Init` before its first success fails closed. It returns a table only if the table's onRequest is now
-- the shim and the table's own onRequest, which is not NULL, is published behind it; any failure returns
-- NULL and leaves the next call free to try again.
pub ril_init-IsClosed :
    (f : PatchFaults) (shim : ℕ) (b : Blob) (env : ℕ) (s : Library)
    → s.on_request_patched ≡ false
    → IsClosed shim (b.init_memory s.memory) (ril_init f shim b env s)
unfolding ril_init
ril_init-IsClosed f shim b env s new = rw (ril_init, new) (by_handle s.handle b.opens)
  where
    by_handle :
        (h o : Option ℕ)
        → IsClosed shim (b.init_memory s.memory) (
            let r : Option ℕ × Library = elim h [
              | none ↦ (o, record s { handle = o })
              | some k ↦ (some k, s)
            ] in
            elim r.0 [ none ↦ (none, r.1) | some k ↦ call_real_init f shim b env r.1 ])
    by_handle none none = inr (refl, new)
    by_handle none (some k) =
        call_real_init-IsClosed f shim b env (record s { handle = some k }) new
    by_handle (some k) o = call_real_init-IsClosed f shim b env s new
