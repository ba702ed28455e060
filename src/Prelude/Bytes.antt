-- ===== src/Prelude/Bytes.antt =====
-- Byte buffers: little-endian numbers, and writes at an offset.
use native.Mathlib.Nat.{pow-suc}
use android_device_xsh_k50sv.Prelude.{
  ℕ, zero, suc, ◌+◌, ◌-◌, ◌*◌, ◌/◌, ◌%◌, ◌^◌, ◌≤◌, ◌<◌, ◌≡◌, refl, ap, ◌∙◌, List, [], ◌∷◌, ◌++◌,
  arith, length, take, drop, All, get_or, length-take, take-append-drop, length-drop, replicate,
}
use Prim.Native.Nat.add

abbrev pub IsByte : ℕ → Type 0
IsByte b = b < 256

abbrev pub byte : List ℕ → ℕ → ℕ
byte bytes i = get_or bytes i 0

-- The n bytes of a number, lowest first.
abbrev pub le_bytes : ℕ → ℕ → List ℕ
le_bytes zero v = []
le_bytes (suc n) v = v % 256 ∷ le_bytes n (v / 256)

abbrev pub le_value : List ℕ → ℕ
le_value [] = 0
le_value (b ∷ bs) = b + 256 * le_value bs

-- memcpy into a buffer at an offset; what lies outside the buffer is not written.
abbrev pub overwrite : List ℕ → ℕ → List ℕ → List ℕ
overwrite [] off new = []
overwrite (b ∷ old) (suc off) new = b ∷ overwrite old off new
overwrite (b ∷ old) zero [] = b ∷ old
overwrite (b ∷ old) zero (x ∷ new) = x ∷ overwrite old zero new

pub length-le_bytes : (n v : ℕ) → length (le_bytes n v) ≡ n
length-le_bytes zero v = refl
length-le_bytes (suc n) v = ap suc (length-le_bytes n (v / 256))

pub le_bytes-IsByte : (n v : ℕ) → All IsByte (le_bytes n v)
le_bytes-IsByte zero v = tt
le_bytes-IsByte (suc n) v = (omega arith, le_bytes-IsByte n (v / 256))

pub le_value-le_bytes : (n v : ℕ) → v < 256 ^ n → le_value (le_bytes n v) ≡ v
le_value-le_bytes zero v h = omega arith
le_value-le_bytes (suc n) v h =
    omega (arith, le_value-le_bytes n (v / 256) (omega (arith, pow-suc 256 n)))

pub le_bytes-le_value : (bs : List ℕ) → All IsByte bs → le_bytes (length bs) (le_value bs) ≡ bs
le_bytes-le_value [] h = refl
le_bytes-le_value (b ∷ bs) h =
    let low : (b + 256 * le_value bs) % 256 ≡ b = omega arith in
    let high : (b + 256 * le_value bs) / 256 ≡ le_value bs = omega arith in
    rw (low, high) (ap (◌∷◌ b) (le_bytes-le_value bs h.1))

pub All-drop : (n : ℕ) (bs : List ℕ) → All IsByte bs → All IsByte (drop n bs)
All-drop zero bs h = h
All-drop (suc n) [] h = tt
All-drop (suc n) (b ∷ bs) h = All-drop n bs h.1

pub le_value-lt : (bs : List ℕ) → All IsByte bs → le_value bs < 256 ^ length bs
le_value-lt [] h = omega arith
le_value-lt (b ∷ bs) h = omega (arith, le_value-lt bs h.1, pow-suc 256 (length bs))

pub All-take : (n : ℕ) (bs : List ℕ) → All IsByte bs → All IsByte (take n bs)
All-take zero bs h = tt
All-take (suc n) [] h = tt
All-take (suc n) (b ∷ bs) h = (h.0, All-take n bs h.1)

pub All-append : (xs ys : List ℕ) → All IsByte xs → All IsByte ys → All IsByte (xs ++ ys)
All-append [] ys h k = k
All-append (x ∷ xs) ys h k = (h.0, All-append xs ys h.1 k)

-- The first n bytes are the n bytes of the number that they stand for.
pub le_bytes-take :
    (n : ℕ) (bs : List ℕ)
    → All IsByte bs
    → n ≤ length bs
    → le_bytes n (le_value (take n bs)) ++ drop n bs ≡ bs
le_bytes-take n bs h l =
    let long : length (take n bs) ≡ n = omega (arith, length-take n bs) in
    let whole = rw long at (le_bytes-le_value (take n bs) (All-take n bs h)) in
    rw whole (take-append-drop n bs)

pub take-le_bytes : (n v : ℕ) (rest : List ℕ) → take n (le_bytes n v ++ rest) ≡ le_bytes n v
take-le_bytes zero v rest = refl
take-le_bytes (suc n) v rest = ap (◌∷◌ (v % 256)) (take-le_bytes n (v / 256) rest)

pub length-overwrite :
    (old : List ℕ) (off : ℕ) (new : List ℕ) → length (overwrite old off new) ≡ length old
length-overwrite [] off new = refl
length-overwrite (b ∷ old) (suc off) new = ap suc (length-overwrite old off new)
length-overwrite (b ∷ old) zero [] = refl
length-overwrite (b ∷ old) zero (x ∷ new) = ap suc (length-overwrite old zero new)

pub overwrite-zero :
    (old new : List ℕ)
    → length new ≤ length old
    → overwrite old 0 new ≡ new ++ drop (length new) old
overwrite-zero [] [] h = refl
overwrite-zero [] (x ∷ new) h = absurd (omega arith)
overwrite-zero (b ∷ old) [] h = refl
overwrite-zero (b ∷ old) (x ∷ new) h = ap (◌∷◌ x) (overwrite-zero old new (omega arith))

-- Writes one after the other: behind what is written already.
pub overwrite-append :
    (done old new : List ℕ) (off : ℕ)
    → off ≡ length done
    → length new ≤ length old
    → overwrite (done ++ old) off new ≡ (done ++ new) ++ drop (length new) old
overwrite-append [] old new off e h = rw e (overwrite-zero old new h)
overwrite-append (b ∷ done) old new zero e h = absurd (omega arith)
overwrite-append (b ∷ done) old new (suc off) e h =
    ap (◌∷◌ b) (overwrite-append done old new off (omega arith) h)

pub drop-drop {ℓ} : {A : Type ℓ} (m n : ℕ) (xs : List A) → drop n (drop m xs) ≡ drop (m + n) xs
drop-drop zero n xs = rw add.zero
drop-drop (suc m) zero [] = rw add.suc
drop-drop (suc m) (suc n) [] = rw add.suc
drop-drop (suc m) n (x ∷ xs) = rw add.suc (drop-drop m n xs)

pub le_value-take :
    (m n : ℕ) (bs : List ℕ)
    → m ≤ length bs
    → le_value (take (m + n) bs) ≡ le_value (take m bs) + 256 ^ m * le_value (take n (drop m bs))
le_value-take zero n bs h = rw (add.zero n) (omega arith)
le_value-take (suc m) n [] h = absurd (omega arith)
le_value-take (suc m) n (b ∷ bs) h = rw add.suc (
    omega (
      arith,
      le_value-take m n bs (omega arith),
      ap (λ (t : ℕ). t * le_value (take n (drop m bs))) (pow-suc 256 m),
    ))

-- The next write into a buffer whose first k bytes are done.
pub overwrite-drop :
    (frame new : List ℕ) (k : ℕ)
    → k + length new ≤ length frame
    → overwrite (drop k frame) 0 new ≡ new ++ drop (k + length new) frame
overwrite-drop frame new k h =
    overwrite-zero (drop k frame) new (omega (arith, length-drop k frame))
    ∙ ap (◌++◌ new) (drop-drop k (length new) frame)

pub drop-replicate_append :
    (n m v : ℕ) (rest : List ℕ)
    → n ≤ m
    → drop n (replicate m v ++ rest) ≡ replicate (m - n) v ++ rest
drop-replicate_append zero m v rest h = let e : m - 0 ≡ m = omega arith in rw e
drop-replicate_append (suc n) zero v rest h = absurd (omega arith)
drop-replicate_append (suc n) (suc m) v rest h =
    let e : suc m - suc n ≡ m - n = omega arith in
    rw e (drop-replicate_append n m v rest (omega arith))
