-- ===== src/Wmt/Firmware/Candidates.antt =====
-- wmt-launcher/firmware.c: when search_directory accepts an entry, and what every accepted entry keeps.
use android_device_xsh_k50sv.Prelude.{
  ℕ, ◌≡◌, true, List, [], ◌∷◌, ◌==◌, arith, Result, ok, fail, returned, passed, not, All, subst,
  Bool-cases, inl, inr,
}
use android_device_xsh_k50sv.Prelude.Errno.{einval}
use android_device_xsh_k50sv.Prelude.CStrings.{starts_with}
use android_device_xsh_k50sv.Wmt.Firmware.Files.{File}
use android_device_xsh_k50sv.Wmt.Firmware.Directory.{
  Status, Entry, Directory, closing, consume_entry, candidate, visit, search_entries,
  search_directory,
}

-- The calls on an entry that are not reads succeed, and it is a regular file.
pub record IsUsable (e : Entry) (f : File) (status : Status) : Type 0 where
  pub opened : e.opened ≡ ok f
  pub known : e.status ≡ ok status
  pub regular : status.is_regular ≡ true
  pub closed : e.closed ≡ 0

pub record IsListing (d : Directory) : Type 0 where
  pub opened : d.opened ≡ 0
  pub ended : d.ended ≡ 0
  pub closed : d.closed ≡ 0

closing-ok {ℓ} :
    {A : Type ℓ} (errno : ℕ) (r : Result A) {a : A}
    → closing errno r ≡ ok a
    → (errno ≡ 0) × (r ≡ ok a)
closing-ok errno (ok b) h = (
  ground arith,
  elim (Bool-cases (errno == 0)) [ inl z ↦ rw z at h | inr z ↦ absurd (cc (rw z at h)) ],
)
closing-ok errno (fail e) h = absurd (cc)

module _ {S : Type 0} (consume : File → Status → List ℕ → ℕ → S → Result S) (prefix : List ℕ)
    (firmware : ℕ) where
  pub candidate-IsUsable :
      (e : Entry) (s t : S)
      → candidate consume prefix firmware e s ≡ ok t
      → (f : File) × (status : Status) × IsUsable e f status
        × (consume f status e.name firmware s ≡ ok t)
  unfolding candidate
  candidate-IsUsable e s t h =
      let (f, opened, h1) = returned e.opened _ h in
      let (closed, h2) = closing-ok e.closed (consume_entry consume prefix firmware e s f) h1 in
      let (status, known, h3) = returned e.status _ h2 in
      let (regular, h4) = passed (not status.is_regular) einval _ h3 in
      (
        f,
        status,
        record { opened = opened; known = known; regular = ground arith; closed = closed },
        h4,
      )

  pub IsUsable-candidate :
      (e : Entry) (s t : S) (f : File) (status : Status)
      → IsUsable e f status
      → consume f status e.name firmware s ≡ ok t
      → candidate consume prefix firmware e s ≡ ok t
  unfolding candidate
  IsUsable-candidate e s t f status u h = ground (arith, u.opened, u.known, u.regular, h, u.closed)

  pub search_entries-cons :
      (e : Entry) (es : List Entry) (ended : ℕ) (s t : S)
      → search_entries consume prefix firmware (e ∷ es) ended s ≡ ok t
      → (u : S) × (visit consume prefix firmware e s ≡ ok u)
        × (search_entries consume prefix firmware es ended u ≡ ok t)
  unfolding search_entries
  search_entries-cons e es ended s t h =
      returned (visit consume prefix firmware e s)
        (λ u. search_entries consume prefix firmware es ended u) h

  search_entries-ended :
      (es : List Entry) (ended : ℕ) (s t : S)
      → search_entries consume prefix firmware es ended s ≡ ok t
      → ended ≡ 0
  unfolding search_entries
  search_entries-ended [] ended s t h = ground arith
  search_entries-ended (e ∷ es) ended s t h =
      let (u, _, rest) = search_entries-cons e es ended s t h in
      search_entries-ended es ended u t rest

  pub search_directory-only :
      (d : Directory) (s t : S)
      → search_directory consume prefix firmware d s ≡ ok t
      → IsListing d × (search_entries consume prefix firmware d.entries 0 s ≡ ok t)
  unfolding search_directory
  search_directory-only d s t h = elim (Bool-cases (d.opened == 0)) [
    | inl opened ↦
        let (closed, found) =
          closing-ok d.closed (search_entries consume prefix firmware d.entries d.ended s)
            (rw opened at h) in
        let ended = search_entries-ended d.entries d.ended s t found in
        (record { opened = ground arith; ended = ended; closed = closed }, rw ended at found)
    | inr failed ↦ absurd (cc (rw failed at h))
  ]

  pub IsListing-search_directory :
      (d : Directory) (s t : S)
      → IsListing d
      → search_entries consume prefix firmware d.entries 0 s ≡ ok t
      → search_directory consume prefix firmware d s ≡ ok t
  unfolding search_directory
  IsListing-search_directory d s t l h = ground (arith, l.opened, l.ended, l.closed)

  -- What reading keeps of every file whose entry has the prefix, a whole search keeps.
  pub search_directory-keeps :
      (P : S → Type 0) (Q : Entry → Type 0)
      → ((e : Entry) (f : File) (status : Status) (s t : S)
          → Q e
          → IsUsable e f status
          → starts_with prefix e.name ≡ true
          → consume f status e.name firmware s ≡ ok t
          → P s
          → P t)
      → (d : Directory) (s t : S) → All Q d.entries
      → P s
      → search_directory consume prefix firmware d s ≡ ok t
      → P t
  unfolding search_entries
  search_directory-keeps P Q keep d s t all p h =
      entries d.entries s all p (search_directory-only d s t h).1
    where
      visited : (e : Entry) (s u : S) → Q e → visit consume prefix firmware e s ≡ ok u → P s → P u
      visited e s u q h p = elim (Bool-cases (starts_with prefix e.name)) [
        | inl named ↦
            let (f, status, usable, read) = candidate-IsUsable e s u (rw named at h) in
            keep e f status s u q usable named read p
        | inr other ↦ let same : s ≡ u = cc (rw other at h) in subst P same p
      ]

      entries :
          (es : List Entry) (s : S)
          → All Q es
          → P s
          → search_entries consume prefix firmware es 0 s ≡ ok t
          → P t
      entries [] s all p h = let same : s ≡ t = cc in subst P same p
      entries (e ∷ es) s (q, all) p h =
          let (u, first, rest) = search_entries-cons e es 0 s t h in
          entries es u all (visited e s u q first p) rest
