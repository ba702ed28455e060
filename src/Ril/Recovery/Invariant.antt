-- ===== src/Ril/Recovery/Invariant.antt =====
-- What holds of the recovery state between any two steps.
use android_device_xsh_k50sv.Prelude.{
  ℕ, zero, suc, ◌<◌, ◌≡◌, refl, Bool, true, false, not, Option, none, some, List, [], ◌∷◌, ◌==◌,
  if◌then◌else◌, get_or, set, length, length-set, get_or-set_self, get_or-set_ne, arith,
}
use android_device_xsh_k50sv.Prelude.Int.{ℤ, pos, negsuc}
use android_device_xsh_k50sv.Ril.Types.{Payload, sim_count, index_of, AttachApn, attach_apn_size}
use android_device_xsh_k50sv.Ril.Attach.{
  Attach, token_slots, initial, cache_initial_attach_apn, complete_own, note_reset, cache_at,
  copy_ia,
}
use android_device_xsh_k50sv.Ril.Worker.{Readings, pick_socket, pick_token, issued, charge, release}

pub record IsValid (s : Attach) : Type 0 where
  pub tokens_sized : length s.outstanding ≡ token_slots
  pub cache_sized : length s.cache ≡ sim_count
  pub cached_sized : length s.cached ≡ sim_count
  pub pending_sized : length s.pending ≡ sim_count
  pub backed : (i : ℕ) → get_or s.pending i false ≡ true → get_or s.cached i false ≡ true
  pub held : s.in_flight ≡ true → get_or s.outstanding s.current_token false ≡ true
  pub no_deadline : s.in_flight ≡ false → s.deadline ≡ 0
  pub token_in_range : s.current_token < token_slots
  pub socket_in_range : s.next_socket < sim_count

pub initial-IsValid : IsValid initial
initial-IsValid = record {
  tokens_sized = refl;
  cache_sized = refl;
  cached_sized = refl;
  pending_sized = refl;
  backed = λ i h. ground (arith, i);
  held = λ h. cc;
  no_deadline = λ h. refl;
  token_in_range = omega arith;
  socket_in_range = omega arith;
}

set-false :
    (xs : List Bool) (i j : ℕ) → get_or (set xs i false) j false ≡ true → get_or xs j false ≡ true
set-false [] i j e = e
set-false (x ∷ xs) zero zero e = absurd (cc)
set-false (x ∷ xs) zero (suc j) e = e
set-false (x ∷ xs) (suc i) zero e = e
set-false (x ∷ xs) (suc i) (suc j) e = set-false xs i j e

index_of-lt : (socket : ℤ) (i : ℕ) → index_of socket ≡ some i → i < sim_count
index_of-lt (pos n) i e = ground arith
index_of-lt (negsuc n) i e = cc

cache_at-IsValid :
    (i : ℕ) (fresh : AttachApn) (s : Attach)
    → i < sim_count
    → IsValid s
    → IsValid (cache_at i fresh s)
cache_at-IsValid i fresh s h v = record {
  tokens_sized = v.tokens_sized;
  cache_sized = ground (arith, length-set s.cache i fresh, v.cache_sized);
  cached_sized = ground (arith, length-set s.cached i true, v.cached_sized);
  pending_sized = v.pending_sized;
  backed = λ j e. ground (
    arith,
    v.backed j,
    get_or-set_self s.cached i true false,
    get_or-set_ne s.cached i j true false,
    v.cached_sized,
  );
  held = v.held;
  no_deadline = v.no_deadline;
  token_in_range = v.token_in_range;
  socket_in_range = v.socket_in_range;
}

pub complete_own-IsValid : (index : ℕ) (s : Attach) → IsValid s → IsValid (complete_own index s).0
unfolding complete_own
complete_own-IsValid index s v = record {
  tokens_sized = ground (arith, length-set s.outstanding index false, v.tokens_sized);
  cache_sized = ground (arith, v.cache_sized);
  cached_sized = ground (arith, v.cached_sized);
  pending_sized = ground (arith, v.pending_sized);
  backed = λ j e. ground (arith, v.backed j);
  held = ground (
    arith,
    v.held,
    get_or-set_ne s.outstanding index s.current_token false false,
    v.tokens_sized,
  );
  no_deadline = ground (arith, v.no_deadline);
  token_in_range = ground (arith, v.token_in_range);
  socket_in_range = ground (arith, v.socket_in_range);
}

pub note_reset-IsValid :
    (code socket : ℤ) (s : Attach) → IsValid s → IsValid (note_reset code socket s).0
unfolding note_reset
note_reset-IsValid code (negsuc n) s v = v
note_reset-IsValid code (pos i) s v = record {
  tokens_sized = ground (arith, v.tokens_sized);
  cache_sized = ground (arith, v.cache_sized);
  cached_sized = ground (arith, v.cached_sized);
  pending_sized = ground (arith, length-set s.pending i true, v.pending_sized);
  backed = λ j e. ground (arith, v.backed j, get_or-set_ne s.pending i j true false);
  held = ground (arith, v.held);
  no_deadline = ground (arith, v.no_deadline);
  token_in_range = ground (arith, v.token_in_range);
  socket_in_range = ground (arith, v.socket_in_range);
}

pub cache_initial_attach_apn-IsValid :
    (socket : ℤ) (payload : Option Payload) (datalen : ℕ) (alloc : ℕ → Bool) (s : Attach)
    → IsValid s
    → IsValid (cache_initial_attach_apn socket payload datalen alloc s)
unfolding cache_initial_attach_apn
cache_initial_attach_apn-IsValid socket none datalen alloc s v = v
cache_initial_attach_apn-IsValid socket (some p) datalen alloc s v =
    by_socket (index_of socket) (λ i e. index_of-lt socket i e)
  where
    by_copy :
        (i : ℕ) (copy : Option AttachApn)
        → i < sim_count
        → IsValid (elim copy as (λ _. Attach) [ none ↦ s | some fresh ↦ cache_at i fresh s ])
    by_copy i none h = v
    by_copy i (some fresh) h = cache_at-IsValid i fresh s h v

    by_size :
        (i : ℕ) (b : Bool)
        → i < sim_count
        → IsValid (
            if b then s else elim (copy_ia alloc p.as_attach_apn) as (λ _. Attach) [
              | none ↦ s
              | some fresh ↦ cache_at i fresh s
            ])
    by_size i true h = v
    by_size i false h = by_copy i (copy_ia alloc p.as_attach_apn) h

    by_socket :
        (o : Option ℕ)
        → ((i : ℕ) → o ≡ some i → i < sim_count)
        → IsValid (elim o as (λ _. Attach) [
          | none ↦ s
          | some i ↦
              if not (datalen == attach_apn_size) then s else elim (copy_ia alloc p.as_attach_apn) [
                | none ↦ s
                | some fresh ↦ cache_at i fresh s
              ]
        ])
    by_socket none h = v
    by_socket (some i) h = by_size i (not (datalen == attach_apn_size)) (h i refl)

pub pick_socket-some :
    (s : Attach) (n i : ℕ)
    → pick_socket s n ≡ some i
    → i < sim_count × (get_or s.pending i false ≡ true) × (get_or s.cached i false ≡ true)
unfolding pick_socket
pick_socket-some s zero i e = cc
pick_socket-some s (suc n) i e = ground (arith, pick_socket-some s n i)

pub pick_token-some :
    (s : Attach) (n k : ℕ)
    → pick_token s n ≡ some k
    → k < token_slots × (get_or s.outstanding k false ≡ false)
unfolding pick_token
pick_token-some s zero k e = cc
pick_token-some s (suc n) k e = ground (arith, pick_token-some s n k)

pub charge-IsValid : (t : Option ℕ) (s : Attach) → IsValid s → IsValid (charge t s)
charge-IsValid none s v = record {
  tokens_sized = v.tokens_sized;
  cache_sized = v.cache_sized;
  cached_sized = v.cached_sized;
  pending_sized = v.pending_sized;
  backed = v.backed;
  held = v.held;
  no_deadline = v.no_deadline;
  token_in_range = v.token_in_range;
  socket_in_range = v.socket_in_range;
}
charge-IsValid (some t) s v = record {
  tokens_sized = v.tokens_sized;
  cache_sized = v.cache_sized;
  cached_sized = v.cached_sized;
  pending_sized = v.pending_sized;
  backed = v.backed;
  held = v.held;
  no_deadline = v.no_deadline;
  token_in_range = v.token_in_range;
  socket_in_range = v.socket_in_range;
}

pub taken-IsValid :
    (i : ℕ) (s : Attach) → IsValid s → IsValid (record s { pending = set s.pending i false })
taken-IsValid i s v = record {
  tokens_sized = v.tokens_sized;
  cache_sized = v.cache_sized;
  cached_sized = v.cached_sized;
  pending_sized = ground (arith, length-set s.pending i false, v.pending_sized);
  backed = λ j e. v.backed j (set-false s.pending i j e);
  held = v.held;
  no_deadline = v.no_deadline;
  token_in_range = v.token_in_range;
  socket_in_range = v.socket_in_range;
}

pub issued-IsValid :
    (socket token : ℕ) (r : Readings) (s : Attach)
    → socket < sim_count
    → token < token_slots
    → IsValid s
    → IsValid (issued socket token r s)
issued-IsValid socket token r s h k v = charge-IsValid r.charged_at _ (record {
  tokens_sized = ground (arith, length-set s.outstanding token true, v.tokens_sized);
  cache_sized = v.cache_sized;
  cached_sized = v.cached_sized;
  pending_sized = ground (arith, length-set s.pending socket false, v.pending_sized);
  backed = λ j e. v.backed j (set-false s.pending socket j e);
  held = λ e. ground (arith, get_or-set_self s.outstanding token true false, v.tokens_sized);
  no_deadline = λ e. cc;
  token_in_range = k;
  socket_in_range = omega arith;
})

pub release-IsValid : (s : Attach) → IsValid s → IsValid (release s)
release-IsValid s v = record {
  tokens_sized = v.tokens_sized;
  cache_sized = v.cache_sized;
  cached_sized = v.cached_sized;
  pending_sized = v.pending_sized;
  backed = v.backed;
  held = λ e. cc;
  no_deadline = λ e. refl;
  token_in_range = v.token_in_range;
  socket_in_range = v.socket_in_range;
}
