-- ===== src/Ril/Attach.antt =====
-- Part 2 of ril-shim/k50sv1_ril_shim.c: the cached initial-attach APN, the tokens of the requests that are
-- issued again, and the two hooks. `sIaLock` makes each function that takes it one step. A `strdup` may
-- fail: `alloc k` tells whether the k-th of a copy succeeds. An address is a number; `base` is that of
-- sReissueTokens. Memory that is overwritten or freed is not modelled.
pub mod Tokens
pub mod Copies
pub mod Resets
use Prim.Native.String.{String}
use android_device_xsh_k50sv.Prelude.{
  ℕ, zero, suc, ◌+◌, ◌-◌, ◌*◌, ◌/◌, ◌%◌, Bool, true, false, not, ◌&&◌, ◌||◌, Option, none, some,
  List, [], ◌∷◌, ◌++◌, ◌==◌, if◌then◌else◌, get_or, set, replicate,
}
use android_device_xsh_k50sv.Prelude.Int.{ℤ, pos, int_eq}
use android_device_xsh_k50sv.Ril.Types.{
  RilErrno, AttachApn, Payload, attach_apn_size, sim_count, index_of,
}

-- IaHookState
pub data HookState : Type 0 where
  disabled installing active failed : HookState

-- RIL_UNSOL_RESET_ATTACH_APN
abbrev pub unsol_reset_attach_apn : ℤ
unsol_reset_attach_apn = pos 3020

-- REISSUE_TOKEN_SLOTS, and the size of a ReissueToken
abbrev pub token_slots : ℕ
token_slots = 16

abbrev pub token_size : ℕ
token_size = 64

abbrev pub empty_apn : AttachApn
empty_apn = record {
  apn = none;
  protocol = none;
  roaming_protocol = none;
  authtype = pos 0;
  username = none;
  password = none;
  supported_types_bitmask = pos 0;
  bearer_bitmask = pos 0;
  modem_cognitive = pos 0;
  mtu = pos 0;
  mvno_type = none;
  mvno_match_data = none;
  can_handle_ims = pos 0;
}

-- The static variables from sRealOnUnsol to sIaNextSocket. A flag tells whether an original is published.
-- Times are nanoseconds of CLOCK_MONOTONIC.
pub record Attach : Type 0 where
  pub unsol_published : Bool
  pub complete_published : Bool
  pub hooks : HookState
  pub current_token : ℕ
  pub outstanding : List Bool
  pub cache : List AttachApn
  pub cached : List Bool
  pub pending : List Bool
  pub in_flight : Bool
  pub deadline : ℕ
  pub last_issue_valid : Bool
  pub last_issue : ℕ
  pub next_socket : ℕ

abbrev pub initial : Attach
initial = record {
  unsol_published = false;
  complete_published = false;
  hooks = disabled;
  current_token = 0;
  outstanding = replicate token_slots false;
  cache = replicate sim_count empty_apn;
  cached = replicate sim_count false;
  pending = replicate sim_count false;
  in_flight = false;
  deadline = 0;
  last_issue_valid = false;
  last_issue = 0;
  next_socket = 0;
}

-- `signal` is pthread_cond_signal on sIaWake; the other two are the originals behind the hooks, called
-- with the addresses of their buffers.
pub data Call : Type 0 where
  signal : Call
  real_complete : ℕ → RilErrno → ℕ → ℕ → Call
  real_unsol : ℤ → ℕ → ℕ → ℤ → Call

abbrev pub token_at : ℕ → ℕ → ℕ
token_at base i = base + token_size * (i % token_slots)

-- The loop over the last `n` tokens.
unfoldable pub is_token_among : ℕ → ℕ → ℕ → Bool
is_token_among base t zero = false
is_token_among base t (suc n) =
    if t == base + token_size * (token_slots - suc n) then true else is_token_among base t n

abbrev pub is_reissue_token : ℕ → ℕ → Bool
is_reissue_token base t = is_token_among base t token_slots

abbrev pub attach_apn_hooks_active : Attach → Bool
attach_apn_hooks_active s = is_active s.hooks
  where
    is_active : HookState → Bool
    is_active active = true
    is_active _ = false

-- The copy, and `ok` after it.
abbrev pub dup_or_null : Option String → Bool → Bool → Option String × Bool
dup_or_null none succeeds ok = (none, ok)
dup_or_null (some src) true ok = (some src, ok)
dup_or_null (some src) false ok = (none, false)

unfoldable pub copy_ia : (ℕ → Bool) → AttachApn → Option AttachApn
copy_ia alloc src =
    let (apn, ok) = dup_or_null src.apn (alloc 0) true in
    let (protocol, ok) = dup_or_null src.protocol (alloc 1) ok in
    let (roaming_protocol, ok) = dup_or_null src.roaming_protocol (alloc 2) ok in
    let (username, ok) = dup_or_null src.username (alloc 3) ok in
    let (password, ok) = dup_or_null src.password (alloc 4) ok in
    let (mvno_type, ok) = dup_or_null src.mvno_type (alloc 5) ok in
    let (mvno_match_data, ok) = dup_or_null src.mvno_match_data (alloc 6) ok in
    if ok
    then some (record src {
      apn = apn;
      protocol = protocol;
      roaming_protocol = roaming_protocol;
      username = username;
      password = password;
      mvno_type = mvno_type;
      mvno_match_data = mvno_match_data;
    })
    else none

-- The assignments under the lock.
abbrev pub cache_at : ℕ → AttachApn → Attach → Attach
cache_at i fresh s = record s { cache = set s.cache i fresh; cached = set s.cached i true }

unfoldable pub cache_initial_attach_apn : ℤ → Option Payload → ℕ → (ℕ → Bool) → Attach → Attach
cache_initial_attach_apn socket none datalen alloc s = s
cache_initial_attach_apn socket (some payload) datalen alloc s = elim (index_of socket) [
  | none ↦ s
  | some i ↦
      if not (datalen == attach_apn_size)
      then s
      else elim (copy_ia alloc payload.as_attach_apn) [ none ↦ s | some fresh ↦ cache_at i fresh s ]
]

-- The part of completeHook under the lock.
unfoldable pub complete_own : ℕ → Attach → Attach × List Call
complete_own index s =
    let outstanding = get_or s.outstanding index false in
    let s' = record s { outstanding = set s.outstanding index false } in
    if outstanding && s.in_flight && index == s.current_token
    then (record s' { in_flight = false; deadline = 0 }, signal ∷ [])
    else (s', [])

unfoldable pub complete_hook : ℕ → ℕ → RilErrno → ℕ → ℕ → Attach → Attach × List Call
complete_hook base t e response responselen s =
    if is_reissue_token base t
    then complete_own ((t - base) / token_size) s
    else if s.complete_published
    then (s, real_complete t e response responselen ∷ [])
    else (s, [])

-- The part of unsolHook before the forwarding.
unfoldable pub note_reset : ℤ → ℤ → Attach → Attach × List Call
note_reset unsol_response socket s = elim (index_of socket) [
  | none ↦ (s, [])
  | some i ↦
      if attach_apn_hooks_active s
        && int_eq unsol_response unsol_reset_attach_apn
        && get_or s.cached i false
      then (record s { pending = set s.pending i true }, signal ∷ [])
      else (s, [])
]

abbrev pub then_forward : Attach × List Call → Bool → Call → Attach × List Call
then_forward (s, calls) published call = (s, if published then calls ++ call ∷ [] else calls)

unfoldable pub unsol_hook : ℤ → ℕ → ℕ → ℤ → Attach → Attach × List Call
unsol_hook unsol_response buffer datalen socket s =
    then_forward (note_reset unsol_response socket s) s.unsol_published
      (real_unsol unsol_response buffer datalen socket)
