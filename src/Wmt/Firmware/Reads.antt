-- ===== src/Wmt/Firmware/Reads.antt =====
-- wmt-launcher/firmware.c: the loop of read_exact from its first read to its end.
use mathlib.Core.List.{append-nil}
use android_device_xsh_k50sv.Prelude.{
  ℕ, zero, suc, ◌+◌, ◌-◌, ◌≤◌, ◌<◌, ◌≡◌, ◌≢◌, inl, inr, refl, sym, false, Bool-cases, some, List,
  [], ◌∷◌, ◌++◌, arith, ltb, ◌==◌, if◌then◌else◌, Result, ok, fail, length, take, drop, length-take,
  length-drop,
}
use android_device_xsh_k50sv.Prelude.Errno.{eintr, emsgsize}
use android_device_xsh_k50sv.Wmt.Firmware.Files.{
  Read, gives, fails, File, read, read_loop, read_exact, rounds,
}
use android_device_xsh_k50sv.Wmt.Firmware.ReadEnds.{FailsWith, Outcome, Ends, Outcome-advance}

Ends-zero : (fuel : ℕ) (f : File) (done : List ℕ) → Ends (suc fuel) f 0 done
unfolding read_loop
Ends-zero fuel f done = (ok done, f, refl, (sym (append-nil done), omega arith, refl, refl))

-- A round in which a read gave at most `n` bytes, at most as many as were wanted.
Ends-advance :
    (fuel : ℕ) (f h : File) (n size : ℕ) (done : List ℕ)
    → (size == 0) ≡ false
    → 0 < n
    → n ≤ size
    → (read f size).0 ≡ ok (take n f.rest)
    → (read f size).1 ≡ h
    → h.rest ≡ drop n f.rest
    → h.content ≡ f.content
    → ((e : ℕ) → FailsWith e h.reads → FailsWith e f.reads)
    → (length f.rest ≢ 0 → Ends fuel h (size - length (take n f.rest)) (done ++ take n f.rest))
    → Ends (suc fuel) f size done
unfolding read_loop
Ends-advance fuel f h n size done some_size some_n le step to rest content more next =
    elim (Bool-cases (length (take n f.rest) == 0)) [
      | inl nothing ↦ (
        fail emsgsize,
        h,
        rw (read_loop, some_size, step, nothing, to),
        inl (refl, ground (arith, length-take n f.rest)),
      )
      | inr bytes ↦
          let (got, g, run, outcome) = next (ground (arith, length-take n f.rest)) in
          (
            got,
            g,
            rw (read_loop, some_size, step, bytes, to) run,
            Outcome-advance f h n size done got g le rest content more outcome,
          )
    ]

abbrev after : File → List Read → ℕ → File
after f reads n = record f { rest = drop n f.rest; reads = reads }

-- The reads that are not listed: the first gives all that there is, and a second finds the end.
Ends-last :
    (fuel : ℕ) (f : File) (size : ℕ) (done : List ℕ)
    → f.reads ≡ []
    → Ends (suc (suc fuel)) f size done
Ends-last fuel f zero done none_left = Ends-zero (suc fuel) f done
Ends-last fuel f (suc m) done none_left =
    Ends-advance (suc fuel) f (after f [] (suc m)) (suc m) (suc m) done (ground arith) (omega arith)
      (omega arith) (rw none_left) (rw none_left) refl refl (λ e h. absurd h)
      (λ some_rest. rest (suc m - length (take (suc m) f.rest)) refl)
  where
    rest :
        (left : ℕ)
        → suc m - length (take (suc m) f.rest) ≡ left
        → Ends (suc fuel) (after f [] (suc m)) left (done ++ take (suc m) f.rest)
    rest zero e = Ends-zero fuel (after f [] (suc m)) (done ++ take (suc m) f.rest)
    rest (suc k) e =
        Ends-advance fuel (after f [] (suc m)) (after (after f [] (suc m)) [] (suc k)) (suc k)
          (suc k) (done ++ take (suc m) f.rest) (ground arith) (omega arith) (omega arith) refl refl
          refl refl (λ x h. absurd h)
          (λ some_rest.
            absurd
              (some_rest (omega (arith, length-take (suc m) f.rest, length-drop (suc m) f.rest))))

Ends-fails :
    (fuel : ℕ) (f : File) (x : ℕ) (reads : List Read) (size : ℕ) (done : List ℕ)
    → f.reads ≡ fails x ∷ reads
    → (size == 0) ≡ false
    → (x ≡ eintr → Ends fuel (record f { reads = reads }) size done)
    → Ends (suc fuel) f size done
unfolding read_loop
Ends-fails fuel f x reads size done e some_size again = elim (Bool-cases (x == eintr)) [
  | inl retried ↦
      let (got, g, run, outcome) = again (ground arith) in
      (got, g, rw (read_loop, some_size, e, retried, e) run, unchanged got g outcome)
  | inr failed ↦ (
    fail x,
    record f { reads = reads },
    rw (read_loop, some_size, e, failed, e),
    inr (ground arith, rw e (inl refl)),
  )
]
  where
    unchanged :
        (got : Result (List ℕ)) (g : File)
        → Outcome (record f { reads = reads }) size done got g
        → Outcome f size done got g
    unchanged (ok bytes) g h = h
    unchanged (fail y) g (inl h) = inl h
    unchanged (fail y) g (inr (n, h)) = inr (n, rw e (inr h))

Ends-lem :
    (fuel : ℕ) (f : File) (reads : List Read) (size : ℕ) (done : List ℕ)
    → f.reads ≡ reads
    → length reads + 2 ≤ fuel
    → Ends fuel f size done
Ends-lem zero f reads size done e enough = absurd (omega arith)
Ends-lem (suc zero) f reads size done e enough = absurd (omega arith)
Ends-lem (suc (suc fuel)) f [] size done e enough = Ends-last fuel f size done e
Ends-lem (suc (suc fuel)) f (r ∷ reads) zero done e enough = Ends-zero (suc fuel) f done
Ends-lem (suc (suc fuel)) f (gives n ∷ reads) (suc m) done e enough =
    let k = if ltb (suc n) (suc m) then suc n else suc m in
    Ends-advance (suc fuel) f (after f reads k) k (suc m) done (ground arith) (ground arith)
      (ground arith) (rw e) (rw e) refl refl (λ x h. rw e h)
      (λ _.
        Ends-lem (suc fuel) (after f reads k) reads (suc m - length (take k f.rest))
          (done ++ take k f.rest) refl (omega arith))
Ends-lem (suc (suc fuel)) f (fails x ∷ reads) (suc m) done e enough =
    Ends-fails (suc fuel) f x reads (suc m) done e (ground arith)
      (λ _. Ends-lem (suc fuel) (record f { reads = reads }) reads (suc m) done refl (omega arith))

-- More fuel changes nothing.
read_loop-more :
    (n m : ℕ) (f : File) (size : ℕ) (done : List ℕ) (r : Result (List ℕ) × File)
    → read_loop n f size done ≡ some r
    → n ≤ m
    → read_loop m f size done ≡ some r
unfolding read_loop
read_loop-more zero m f size done r e h = absurd (cc)
read_loop-more (suc n) zero f size done r e h = absurd (omega arith)
read_loop-more (suc n) (suc m) f size done r e h =
    same (read f size).0 refl (read_loop-more n m (read f size).1) e
  where
    same :
        (got : Result (List ℕ))
        → (read f size).0 ≡ got
        → ((left : ℕ) (done' : List ℕ) (r' : Result (List ℕ) × File)
            → read_loop n (read f size).1 left done' ≡ some r'
            → n ≤ m
            → read_loop m (read f size).1 left done' ≡ some r')
        → read_loop (suc n) f size done ≡ some r
        → read_loop (suc m) f size done ≡ some r
    same (fail x) p ih e = ground (arith, p, ih size done r)
    same (ok bytes) p ih e = ground (arith, p, ih (size - length bytes) (done ++ bytes) r)

-- read_exact with `size` bytes wanted: it returns the next bytes of the file if there are as many, however
-- the reads cut them up and however often a signal interrupts them. Otherwise it returns -EMSGSIZE, with
-- fewer bytes left, or the errno of a failed read that is not EINTR. The loop ends: with fuel for the
-- listed reads and three rounds more, or with any fuel beyond that, it gives this result.
pub read_exact_ends :
    (f : File) (size : ℕ)
    → Outcome f size [] (read_exact f size).0 (read_exact f size).1
      × ((fuel : ℕ) → rounds f ≤ fuel → read_loop fuel f size [] ≡ some (read_exact f size))
unfolding read_exact
read_exact_ends f size =
    let (got, g, run, outcome) = Ends-lem (rounds f) f f.reads size [] refl (omega arith) in
    (
      rw run outcome,
      (λ fuel enough. rw run (read_loop-more (rounds f) fuel f size [] (got, g) run enough)),
    )
