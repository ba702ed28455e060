-- ===== src/Wmt/Firmware/ReadEnds.antt =====
-- wmt-launcher/firmware.c: what read_exact may come to, and one read on the way.
use mathlib.Core.List.{append_assoc}
use android_device_xsh_k50sv.Prelude.{
  ℕ, zero, suc, ◌-◌, ◌≤◌, ◌<◌, ◌≡◌, ◌≢◌, ◌⊎◌, inl, inr, refl, ap, sym, ◌∙◌, some, List, [], ◌∷◌,
  ◌++◌, arith, Result, ok, fail, length, take, drop, length-take, length-drop,
}
use android_device_xsh_k50sv.Prelude.Bytes.{drop-drop}
use android_device_xsh_k50sv.Prelude.Errno.{eintr, emsgsize}
use android_device_xsh_k50sv.Wmt.Firmware.Files.{Read, gives, fails, File, read_loop}

abbrev pub FailsWith : ℕ → List Read → Type 0
FailsWith e [] = ⊥
FailsWith e (gives n ∷ reads) = FailsWith e reads
FailsWith e (fails x ∷ reads) = (x ≡ e) ⊎ FailsWith e reads

-- What read_exact comes to, with the bytes that were read before.
abbrev pub Outcome : File → ℕ → List ℕ → Result (List ℕ) → File → Type 0
Outcome f size done (ok bytes) g =
    (bytes ≡ done ++ take size f.rest)
    × (size ≤ length f.rest)
    × (g.rest ≡ drop size f.rest)
    × (g.content ≡ f.content)
Outcome f size done (fail e) g =
    ((e ≡ emsgsize) × (length f.rest < size)) ⊎ ((e ≢ eintr) × FailsWith e f.reads)

abbrev pub Ends : ℕ → File → ℕ → List ℕ → Type 0
Ends fuel f size done =
    (got : Result (List ℕ)) × (g : File) × (read_loop fuel f size done ≡ some (got, g))
    × Outcome f size done got g

take-append-take :
    (n m : ℕ) (xs : List ℕ) → n ≤ m → take n xs ++ take (m - n) (drop n xs) ≡ take m xs
take-append-take zero m xs h = let e : m - 0 ≡ m = omega arith in rw e
take-append-take (suc n) zero xs h = absurd (omega arith)
take-append-take (suc n) (suc m) [] h = nil (suc m - suc n)
  where
    nil : (k : ℕ) → take {A = ℕ} k [] ≡ []
    nil zero = refl
    nil (suc k) = refl
take-append-take (suc n) (suc m) (x ∷ xs) h =
    let e : suc m - suc n ≡ m - n = omega arith in
    rw e (ap (◌∷◌ x) (take-append-take n m xs (omega arith)))

drop-length-take : (n : ℕ) (xs : List ℕ) → drop (length (take n xs)) xs ≡ drop n xs
drop-length-take zero xs = refl
drop-length-take (suc n) [] = refl
drop-length-take (suc n) (x ∷ xs) = drop-length-take n xs

take-length-take : (n : ℕ) (xs : List ℕ) → take (length (take n xs)) xs ≡ take n xs
take-length-take zero xs = refl
take-length-take (suc n) [] = refl
take-length-take (suc n) (x ∷ xs) = ap (◌∷◌ x) (take-length-take n xs)

-- A read of at most `n` bytes, and the outcome of what is left to read.
pub Outcome-advance :
    (f h : File) (n size : ℕ) (done : List ℕ) (got : Result (List ℕ)) (g : File)
    → n ≤ size
    → h.rest ≡ drop n f.rest
    → h.content ≡ f.content
    → ((e : ℕ) → FailsWith e h.reads → FailsWith e f.reads)
    → Outcome h (size - length (take n f.rest)) (done ++ take n f.rest) got g
    → Outcome f size done got g
Outcome-advance f h n size done (ok bytes) g le rest content more (eq, fits, left, same) = (
  eq
      ∙ append_assoc done (take n f.rest) (take (size - length (take n f.rest)) h.rest)
      ∙ ap (◌++◌ done) (rw (rest, ← drop-length-take n f.rest) whole),
  omega (arith, length-take n f.rest, length-drop n f.rest, ap length rest),
  left
      ∙ rw (rest, ← drop-length-take n f.rest)
          (drop-drop (length (take n f.rest)) _ f.rest
            ∙ ap (λ (k : ℕ). drop k f.rest) (omega (arith, length-take n f.rest))),
  same ∙ content,
)
  where
    whole :
        take n f.rest ++ take (size - length (take n f.rest)) (drop (length (take n f.rest)) f.rest)
        ≡ take size f.rest
    whole =
        ap
          (λ (t : List ℕ).
            t ++ take (size - length (take n f.rest)) (drop (length (take n f.rest)) f.rest))
          (sym (take-length-take n f.rest))
        ∙ take-append-take (length (take n f.rest)) size f.rest
            (omega (arith, length-take n f.rest))
Outcome-advance f h n size done (fail e) g le rest content more (inl (short, few)) =
    inl (short, omega (arith, length-take n f.rest, length-drop n f.rest, ap length rest))
Outcome-advance f h n size done (fail e) g le rest content more (inr (other, among)) =
    inr (other, more e among)
