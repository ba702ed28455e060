-- ===== src/Wmt/Loader/Runs.antt =====
-- What a run of the loader comes to, and the chip id that it leaves for the launcher.
use android_device_xsh_k50sv.Prelude.{
  ℕ, zero, suc, ◌+◌, ◌-◌, ap, sym, subst, ◌∙◌, ◌<◌, ◌≤◌, ◌≡◌, refl, ◌⊎◌, inl, inr, Bool, true,
  false, Bool-cases, Option, none, some, List, [], ◌∷◌, ◌++◌, ◌==◌, if◌then◌else◌, arith, ok, fail,
  Result,
}
use android_device_xsh_k50sv.Prelude.Int.{ℤ, pos, negsuc}
use android_device_xsh_k50sv.Wmt.Loader.{
  World, Action, open_node, sleep, get_soc_id, publish_chip, is_hex_digit, accepted_chip,
  detected_chip, set_chip_id, module_cleanup, module_init, request, publish_ready, close_node,
  supported_chip, read_digits, read_hex, cached_chip_id, printed_chip, open_from, open_detector,
  is_retried, node_attempts, initialize_driver, identified, prepared, with_detector, is_yes, main,
}

-- The id of a supported chip that the loader publishes is the one that the next run reads back.
pub cached_chip_id-printed_chip :
    (chip : ℕ) → supported_chip chip ≡ true → cached_chip_id (printed_chip chip) ≡ some chip
unfolding cached_chip_id printed_chip read_hex read_digits
cached_chip_id-printed_chip chip h = elim (one_of chip h) [ inl e ↦ rw e | inr e ↦ rw e ]
  where
    one_of : (chip : ℕ) → supported_chip chip ≡ true → (chip ≡ 0x6755) ⊎ (chip ≡ 0x0326)
    one_of chip h = ground arith

-- The actions of the attempts from `first` on, `n` of them failed and one that opens the node.
abbrev pub openings : ℕ → ℕ → List Action
openings first zero = open_node first ∷ []
openings first (suc n) = open_node first ∷ sleep ∷ openings (first + 1) n

-- Attempt `a` opens the node, and each one before it, from the first left, failed in a way that is retried.
pub record Opens (w : World) (first a fd : ℕ) : Type 0 where
  pub from_first : first ≤ a
  pub in_time : a < node_attempts
  pub opens : w.opens a ≡ ok fd
  pub retried : (b : ℕ) → first ≤ b → b < a → (e : ℕ) × (w.opens b ≡ fail e) × (is_retried e ≡ true)

-- The attempts from `first` on open the node with these actions.
abbrev Opening : World → ℕ → ℕ → List Action → Type 0
Opening w first fd actions = (a : ℕ) × Opens w first a fd × (actions ≡ openings first (a - first))

-- A failed attempt before those that open the node.
open-retried :
    (w : World) (n fd x : ℕ) (rest : List Action)
    → suc n ≤ node_attempts
    → w.opens (node_attempts - suc n) ≡ fail x
    → is_retried x ≡ true
    → Opening w (node_attempts - n) fd rest
    → Opening w
        (node_attempts - suc n)
        fd
        (open_node (node_attempts - suc n) ∷ (if n == 0 then rest else sleep ∷ rest))
open-retried w n fd x rest h failed retry (a, o, acts) = (
  a,
  record {
    from_first = omega (arith, o.from_first);
    in_time = o.in_time;
    opens = o.opens;
    retried = λ b lo hi. elim (Bool-cases (b == node_attempts - suc n)) [
      | inl now ↦ (x, rw (same_attempt b n now) failed, retry)
      | inr later ↦ o.retried b (ground (arith, lo, later)) hi
    ];
  },
  (let some_left : (n == 0) ≡ false = ground (arith, o.from_first, o.in_time) in
      let steps : a - (node_attempts - suc n) ≡ suc (a - (node_attempts - n)) =
        omega (arith, o.from_first) in
      let next : node_attempts - suc n + 1 ≡ node_attempts - n = omega arith in
      rw (some_left, steps, next) (ap (λ z. open_node (node_attempts - suc n) ∷ sleep ∷ z) acts)),
)
  where
    same_attempt : (b n : ℕ) → (b == node_attempts - suc n) ≡ true → b ≡ node_attempts - suc n
    same_attempt b n e = ground arith

open_from-Opens :
    (w : World) (n fd : ℕ)
    → n ≤ node_attempts
    → (open_from w n).0 ≡ some fd
    → Opening w (node_attempts - n) fd (open_from w n).1
unfolding open_from
open_from-Opens w zero fd h e = absurd (cc)
open_from-Opens w (suc n) fd h e =
    by_attempt (w.opens (node_attempts - suc n)) refl (open_from-Opens w n fd (omega arith)) e
  where
    first : ℕ
    first = node_attempts - suc n

    by_retry :
        (x : ℕ) (again : Bool)
        → w.opens first ≡ fail x
        → is_retried x ≡ again
        → ((open_from w n).0 ≡ some fd → Opening w (node_attempts - n) fd (open_from w n).1)
        → let r : Option ℕ × List Action =
            if again
            then (
              (open_from w n).0,
              open_node first ∷ (if n == 0 then (open_from w n).1 else sleep ∷ (open_from w n).1),
            )
            else (none, open_node first ∷ []) in
          r.0 ≡ some fd → Opening w first fd r.1
    by_retry x true failed retry rest e =
        open-retried w n fd x (open_from w n).1 h failed retry (rest e)
    by_retry x false failed retry rest e = absurd (cc)

    by_attempt :
        (r : Result ℕ)
        → w.opens first ≡ r
        → ((open_from w n).0 ≡ some fd → Opening w (node_attempts - n) fd (open_from w n).1)
        → let o : Option ℕ × List Action = elim r as (λ _. Option ℕ × List Action) [
          | ok g ↦ (some g, open_node first ∷ [])
          | fail x ↦
              if is_retried x
              then (
                (open_from w n).0,
                open_node first ∷ (if n == 0 then (open_from w n).1 else sleep ∷ (open_from w n).1),
              )
              else (none, open_node first ∷ [])
        ] in
          o.0 ≡ some fd → Opening w first fd o.1
    by_attempt (ok g) opened rest e = (
      first,
      record {
        from_first = omega arith;
        in_time = omega arith;
        opens = cc;
        retried = λ b lo hi. absurd (omega arith);
      },
      (let none_before : first - first ≡ 0 = omega arith in rw none_before refl),
    )
    by_attempt (fail x) failed rest e = by_retry x (is_retried x) failed refl rest e

cached_chip_id-supported :
    (value : List ℕ) (chip : ℕ) → cached_chip_id value ≡ some chip → supported_chip chip ≡ true
unfolding cached_chip_id
cached_chip_id-supported value chip = by_first (is_hex_digit value)
  where
    by_number : (r : ℕ × List ℕ) → accepted_chip r ≡ some chip → supported_chip chip ≡ true
    by_number (n, []) e = ground arith
    by_number (n, c ∷ cs) e = cc

    by_first :
        (digit : Bool)
        → (if digit then accepted_chip (read_hex value) else none) ≡ some chip
        → supported_chip chip ≡ true
    by_first true e = by_number (read_hex value) e
    by_first false e = cc

-- The chip that the driver is initialized for is a supported one.
pub identified-supported :
    (w : World) (chip : ℕ) → (identified w).0 ≡ some chip → supported_chip chip ≡ true
unfolding identified
identified-supported w chip =
    by_cache (cached_chip_id w.chip_property) w.detected (cached_chip_id-supported w.chip_property)
  where
    by_cache :
        (o : Option ℕ) (d : ℤ)
        → ((c : ℕ) → o ≡ some c → supported_chip c ≡ true)
        → (elim o as (λ _. Option ℕ × List Action) [
          | some c ↦ (some c, [])
          | none ↦ detected_chip w d
        ]).0
          ≡ some chip
        → supported_chip chip ≡ true
    by_cache (some c) d h e = h chip e
    by_cache none (negsuc n) h e = cc
    by_cache none (pos c) h e = elim (Bool-cases (supported_chip c)) [
      | inl yes_it ↦ rw (← same_chip c yes_it e) yes_it
      | inr no_it ↦ absurd (unknown c no_it e)
    ]
      where
        same_chip :
            (c : ℕ) → supported_chip c ≡ true → (detected_chip w (pos c)).0 ≡ some chip → c ≡ chip
        same_chip c h e = ground arith

        unknown : (c : ℕ) → supported_chip c ≡ false → ¬ ((detected_chip w (pos c)).0 ≡ some chip)
        unknown c h e = ground arith

-- How the chip is known, and what was done for it: it is the one in the property, or the detector named it and
-- it could be published.
pub data Known (w : World) (chip : ℕ) : List Action → Type 0 where
  cached : cached_chip_id w.chip_property ≡ some chip → Known w chip []
  named :
      cached_chip_id w.chip_property ≡ none
      → w.detected ≡ pos chip
      → w.sets_chip ≡ true
      → Known w chip (get_soc_id ∷ publish_chip (printed_chip chip) ∷ [])

identified-Known :
    (w : World) (chip : ℕ) → (identified w).0 ≡ some chip → Known w chip (identified w).1
unfolding identified
identified-Known w chip = by_cache (cached_chip_id w.chip_property) refl w.detected refl
  where
    by_cache :
        (o : Option ℕ)
        → cached_chip_id w.chip_property ≡ o
        → (d : ℤ) → w.detected ≡ d
        → let r : Option ℕ × List Action = elim o as (λ _. Option ℕ × List Action) [
          | some c ↦ (some c, [])
          | none ↦ detected_chip w d
        ] in
          r.0 ≡ some chip → Known w chip r.1
    by_cache (some c) p d q e = cached (p ∙ e)
    by_cache none p (negsuc n) q e = absurd (cc)
    by_cache none p (pos c) q e = by_tests (supported_chip c) w.sets_chip refl e
      where
        by_tests :
            (supported sets : Bool)
            → w.sets_chip ≡ sets
            → let r : Option ℕ × List Action =
                if supported
                then (
                  if sets then some c else none,
                  get_soc_id ∷ publish_chip (printed_chip c) ∷ [],
                )
                else (none, get_soc_id ∷ []) in
              r.0 ≡ some chip → Known w chip r.1
        by_tests true true s e =
            let same : c ≡ chip = ground arith in
            subst (λ x. Known w chip (get_soc_id ∷ publish_chip (printed_chip x) ∷ [])) (sym same)
              (named p (q ∙ ap pos same) s)
        by_tests true false s e = absurd (cc)
        by_tests false sets s e = absurd (cc)

-- A run that initializes the driver: attempt `a` opens the node, the chip is known by the actions `asked`,
-- and the requests and the publication succeed.
pub record Succeeds (w : World) (a fd chip : ℕ) (asked : List Action) : Type 0 where
  pub opened : Opens w 0 a fd
  pub known : Known w chip asked
  pub supported : (chip ≡ 0x6755) ⊎ (chip ≡ 0x0326)
  pub chip_set : w.ioctl 0 ≡ true
  pub cleaned_up : w.ioctl 1 ≡ true
  pub initialized : w.ioctl 2 ≡ true
  pub ready_set : w.sets_ready ≡ true

-- What such a run does.
abbrev pub run_of : ℕ → ℕ → ℕ → List Action → List Action
run_of a fd chip asked =
    openings 0 a
    ++ (asked
        ++ (request set_chip_id chip
            ∷ request module_cleanup 0x6755
            ∷ request module_init 0x6755
            ∷ publish_ready
            ∷ close_node fd
            ∷ []))

prepared-only :
    (w : World) (chip : ℕ)
    → (chip ≡ 0x6755) ⊎ (chip ≡ 0x0326)
    → (prepared w chip).0 ≡ 0
    → ((w.ioctl 0 ≡ true) × (w.ioctl 1 ≡ true) × (w.ioctl 2 ≡ true) × (w.sets_ready ≡ true))
      × ((prepared w chip).1
          ≡ request set_chip_id chip
            ∷ request module_cleanup 0x6755
            ∷ request module_init 0x6755
            ∷ publish_ready
            ∷ [])
unfolding prepared initialize_driver
prepared-only w chip (inl is) e = ground arith
prepared-only w chip (inr is) e = ground arith

one_of : (chip : ℕ) → supported_chip chip ≡ true → (chip ≡ 0x6755) ⊎ (chip ≡ 0x0326)
one_of chip h = ground arith

with_detector-only :
    (w : World) (fd : ℕ)
    → (with_detector w fd).0 ≡ 0
    → (chip : ℕ) × ((identified w).0 ≡ some chip)
      × ((prepared w chip).0 ≡ 0)
      × ((with_detector w fd).1 ≡ (identified w).1 ++ ((prepared w chip).1 ++ close_node fd ∷ []))
unfolding with_detector
with_detector-only w fd = by_chip (identified w).0 refl
  where
    by_chip :
        (o : Option ℕ)
        → (identified w).0 ≡ o
        → let outcome : ℕ × List Action = elim o [
          | none ↦ (1, (identified w).1 ++ close_node fd ∷ [])
          | some chip ↦
              ((prepared w chip).0, (identified w).1 ++ ((prepared w chip).1 ++ close_node fd ∷ []))
        ] in
          outcome.0 ≡ 0
          → (chip : ℕ) × ((identified w).0 ≡ some chip)
            × ((prepared w chip).0 ≡ 0)
            × (outcome.1 ≡ (identified w).1 ++ ((prepared w chip).1 ++ close_node fd ∷ []))
    by_chip none e h = absurd (omega arith)
    by_chip (some chip) e h = (chip, e, h, refl)

-- A run that finds the driver not yet ready exits with 0 only as follows. One of the first 200 attempts opened
-- the node, and those before it failed with an error that is retried. The chip is the MT6755 or the older alias
-- 0x0326: the id in the property, or else the one that the detector names, which could be published. The
-- three requests succeeded and readiness was published. Its actions are exactly the attempts with a pause after
-- each failed one, the question and the publication if the property has no chip, the three requests, the
-- last two with the id of the MT6755, the publication of readiness, and the close.
pub main-Succeeds :
    (w : World)
    → is_yes w.ready ≡ false
    → (main w).0 ≡ 0
    → (a : ℕ) × (fd : ℕ) × (chip : ℕ) × (asked : List Action) × Succeeds w a fd chip asked
      × ((main w).1 ≡ run_of a fd chip asked)
unfolding main
main-Succeeds w new = rw (main, new) (by_node (open_detector w).0 refl)
  where
    by_node :
        (o : Option ℕ)
        → (open_detector w).0 ≡ o
        → let outcome : ℕ × List Action = elim o [
          | none ↦ (1, (open_detector w).1)
          | some fd ↦ ((with_detector w fd).0, (open_detector w).1 ++ (with_detector w fd).1)
        ] in
          outcome.0 ≡ 0
          → (a : ℕ) × (fd : ℕ) × (chip : ℕ) × (asked : List Action) × Succeeds w a fd chip asked
            × (outcome.1 ≡ run_of a fd chip asked)
    by_node none e h = absurd (omega arith)
    by_node (some fd) e h =
        let (a, opened, attempts) = open_from-Opens w node_attempts fd (omega arith) e in
        let from_start : a - (node_attempts - node_attempts) ≡ a = omega arith in
        let (chip, known, done, acts) = with_detector-only w fd h in
        let supported = one_of chip (identified-supported w chip known) in
        let ((set, cleaned, initialized, ready), requests) = prepared-only w chip supported done in
        (
          a,
          fd,
          chip,
          (identified w).1,
          record {
            opened = opened;
            known = identified-Known w chip known;
            supported = supported;
            chip_set = set;
            cleaned_up = cleaned;
            initialized = initialized;
            ready_set = ready;
          },
          rw (acts, requests, attempts, from_start) refl,
        )
