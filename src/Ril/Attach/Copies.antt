-- ===== src/Ril/Attach/Copies.antt =====
-- The deep copies of an attach APN, and the cache that holds one for each slot.
use Prim.Native.String.{String}
use android_device_xsh_k50sv.Prelude.{
  ℕ, ◌<◌, ◌≡◌, ◌∙◌, sym, ap, refl, ◌⊎◌, inl, inr, Bool, true, false, Bool-cases, Option-cases,
  Option, none, some, arith, ◌==◌, if◌then◌else◌, ltb, set,
}
use android_device_xsh_k50sv.Prelude.Int.{ℤ, pos, negsuc}
use android_device_xsh_k50sv.Ril.Types.{AttachApn, Payload, attach_apn_size, sim_count}
use android_device_xsh_k50sv.Ril.Attach.{
  Attach, dup_or_null, copy_ia, cache_initial_attach_apn, cache_at,
}

dup_or_null-ok :
    (src : Option String) (succeeds ok : Bool)
    → (dup_or_null src succeeds ok).1 ≡ true
    → ((dup_or_null src succeeds ok).0 ≡ src) × (ok ≡ true)
dup_or_null-ok none succeeds ok e = (refl, e)
dup_or_null-ok (some x) true ok e = (refl, e)
dup_or_null-ok (some x) false ok e = cc

if-some {ℓ} :
    {A : Type ℓ} (b : Bool) (a c : A) → (if b then some a else none) ≡ some c → (b ≡ true) × (a ≡ c)
if-some true a c e = (refl, cc)
if-some false a c e = cc

-- A copy that succeeds is equal to its source, in every field.
pub copy_ia-eq : (alloc : ℕ → Bool) (src dst : AttachApn) → copy_ia alloc src ≡ some dst → dst ≡ src
unfolding copy_ia
copy_ia-eq alloc src dst e =
    let d0 = dup_or_null src.apn (alloc 0) true in
    let d1 = dup_or_null src.protocol (alloc 1) d0.1 in
    let d2 = dup_or_null src.roaming_protocol (alloc 2) d1.1 in
    let d3 = dup_or_null src.username (alloc 3) d2.1 in
    let d4 = dup_or_null src.password (alloc 4) d3.1 in
    let d5 = dup_or_null src.mvno_type (alloc 5) d4.1 in
    let d6 = dup_or_null src.mvno_match_data (alloc 6) d5.1 in
    let (ok, same) = if-some d6.1 _ dst e in
    let (e6, ok5) = dup_or_null-ok src.mvno_match_data (alloc 6) d5.1 ok in
    let (e5, ok4) = dup_or_null-ok src.mvno_type (alloc 5) d4.1 ok5 in
    let (e4, ok3) = dup_or_null-ok src.password (alloc 4) d3.1 ok4 in
    let (e3, ok2) = dup_or_null-ok src.username (alloc 3) d2.1 ok3 in
    let (e2, ok1) = dup_or_null-ok src.roaming_protocol (alloc 2) d1.1 ok2 in
    let (e1, ok0) = dup_or_null-ok src.protocol (alloc 1) d0.1 ok1 in
    let (e0, start) = dup_or_null-ok src.apn (alloc 0) true ok0 in
    sym same ∙ rw (e0, e1, e2, e3, e4, e5, e6)

dup_or_null-succeeds : (src : Option String) (ok : Bool) → dup_or_null src true ok ≡ (src, ok)
dup_or_null-succeeds none ok = refl
dup_or_null-succeeds (some x) ok = refl

pub copy_ia-succeeds :
    (alloc : ℕ → Bool) (src : AttachApn) → ((k : ℕ) → alloc k ≡ true) → copy_ia alloc src ≡ some src
unfolding copy_ia
copy_ia-succeeds alloc src all = rw (
  all 0,
  all 1,
  all 2,
  all 3,
  all 4,
  all 5,
  all 6,
  dup_or_null-succeeds src.apn true,
  dup_or_null-succeeds src.protocol true,
  dup_or_null-succeeds src.roaming_protocol true,
  dup_or_null-succeeds src.username true,
  dup_or_null-succeeds src.password true,
  dup_or_null-succeeds src.mvno_type true,
  dup_or_null-succeeds src.mvno_match_data true,
)

-- A request whose APN is cached.
pub record Caches (socket : ℤ) (payload : Option Payload) (datalen : ℕ) (alloc : ℕ → Bool) (i : ℕ)
    (p : Payload) : Type 0 where
  pub on_slot : socket ≡ pos i
  pub in_range : i < sim_count
  pub given : payload ≡ some p
  pub sized : datalen ≡ attach_apn_size
  pub copied : copy_ia alloc p.as_attach_apn ≡ some p.as_attach_apn

-- The state with the APN as the cached one of slot i.
abbrev pub with_cached : ℕ → AttachApn → Attach → Attach
with_cached i apn s = record s { cache = set s.cache i apn; cached = set s.cached i true }

cache_at_copy :
    (i : ℕ) (alloc : ℕ → Bool) (src : AttachApn) (s : Attach)
    → (copy_ia alloc src ≡ some src
        × elim (copy_ia alloc src) as (λ _. Attach) [ none ↦ s | some fresh ↦ cache_at i fresh s ]
          ≡ with_cached i src s)
      ⊎ (copy_ia alloc src ≡ none
          × elim (copy_ia alloc src) as (λ _. Attach) [ none ↦ s | some fresh ↦ cache_at i fresh s ]
            ≡ s)
cache_at_copy i alloc src s = elim (Option-cases (copy_ia alloc src)) [
  | inl e ↦ inr (e, rw e)
  | inr w ↦ inl (
    w.1 ∙ ap some (copy_ia-eq alloc src w.0 w.1),
    rw w.1 (ap (λ a. with_cached i a s) (copy_ia-eq alloc src w.0 w.1)),
  )
]

-- `cacheInitialAttachApn` on every branch: a payload of 88 bytes for a slot, which can be copied, is the
-- cached APN of that slot from then on, equal to the payload in every field, and the slot is marked as
-- cached; the other slot keeps its own, and so does all else. On anything else nothing changes.
pub cache_initial_attach_apn_cases :
    (socket : ℤ) (payload : Option Payload) (datalen : ℕ) (alloc : ℕ → Bool) (s : Attach)
    → ((i : ℕ) × (p : Payload) × Caches socket payload datalen alloc i p
        × (cache_initial_attach_apn socket payload datalen alloc s
            ≡ with_cached i p.as_attach_apn s))
      ⊎ (((i : ℕ) (p : Payload) → ¬ Caches socket payload datalen alloc i p)
          × (cache_initial_attach_apn socket payload datalen alloc s ≡ s))
unfolding cache_initial_attach_apn
cache_initial_attach_apn_cases socket none datalen alloc s =
    inr (λ i p c. absurd (cc c.given), refl)
cache_initial_attach_apn_cases (negsuc n) (some p) datalen alloc s =
    inr (λ i q c. absurd (cc c.on_slot), refl)
cache_initial_attach_apn_cases (pos i) (some p) datalen alloc s =
    elim (Bool-cases (ltb i sim_count)) [
      | inr out ↦
          inr (λ j q c. ground (arith, c.on_slot, c.in_range), rw (cache_initial_attach_apn, out))
      | inl slot ↦ elim (Bool-cases (datalen == attach_apn_size)) [
        | inr size ↦
            inr (λ j q c. ground (arith, c.sized), rw (cache_initial_attach_apn, slot, size))
        | inl size ↦ elim (cache_at_copy i alloc p.as_attach_apn s) [
          | inr w ↦ inr (λ j q c. refused q c w.0, rw (cache_initial_attach_apn, slot, size, w.0))
          | inl w ↦ inl (
            i,
            p,
            record {
              on_slot = refl;
              in_range = ground arith;
              given = refl;
              sized = ground arith;
              copied = w.0;
            },
            rw (cache_initial_attach_apn, slot, size, w.0),
          )
        ]
      ]
    ]
  where
    refused :
        {j : ℕ} (q : Payload)
        → Caches (pos i) (some p) datalen alloc j q
        → ¬ (copy_ia alloc p.as_attach_apn ≡ none)
    refused q c e =
        let same : p ≡ q = cc c.given in
        absurd (cc (sym e ∙ ap (λ z. copy_ia alloc z.as_attach_apn) same ∙ c.copied))
