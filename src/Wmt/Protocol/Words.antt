-- ===== src/Wmt/Protocol/Words.antt =====
-- The little-endian fields of a frame, as protocol.c reads them.
use android_device_xsh_k50sv.Prelude.{
  ℕ, ◌+◌, ◌*◌, ◌^◌, ◌≤◌, ◌<◌, ◌≡◌, ◌∙◌, List, [], ◌∷◌, ◌++◌, arith, length, take, drop, All, bit_or,
  length-drop, length-take,
}
use android_device_xsh_k50sv.Prelude.Bits.{bit_or-shift}
use android_device_xsh_k50sv.Prelude.Bytes.{
  byte, IsByte, le_bytes, le_value, All-drop, le_value-le_bytes, le_bytes-IsByte, le_bytes-take,
  le_value-take, le_value-lt, All-take,
}

unfoldable pub read16 : List ℕ → ℕ
read16 bytes = bit_or (byte bytes 0) (byte bytes 1 * 2 ^ 8)

unfoldable pub read32 : List ℕ → ℕ
read32 bytes =
    bit_or (bit_or (bit_or (byte bytes 0) (byte bytes 1 * 2 ^ 8)) (byte bytes 2 * 2 ^ 16))
      (byte bytes 3 * 2 ^ 24)

unfoldable pub read64 : List ℕ → ℕ
read64 bytes = bit_or (read32 bytes) (read32 (drop 4 bytes) * 2 ^ 32)

pub read16-le_value :
    (bs : List ℕ) → All IsByte bs → 2 ≤ length bs → read16 bs ≡ le_value (take 2 bs)
unfolding read16
read16-le_value [] h l = absurd (omega arith)
read16-le_value (a ∷ []) h l = absurd (omega arith)
read16-le_value (a ∷ b ∷ bs) h l = omega (arith, bit_or-shift 8 a b (omega arith))

pub read32-le_value :
    (bs : List ℕ) → All IsByte bs → 4 ≤ length bs → read32 bs ≡ le_value (take 4 bs)
unfolding read32
read32-le_value [] h l = absurd (omega arith)
read32-le_value (a ∷ []) h l = absurd (omega arith)
read32-le_value (a ∷ b ∷ []) h l = absurd (omega arith)
read32-le_value (a ∷ b ∷ c ∷ []) h l = absurd (omega arith)
read32-le_value (a ∷ b ∷ c ∷ d ∷ bs) h l =
    rw
      (
        bit_or-shift 8 a b (omega arith),
        bit_or-shift 16 (a + b * 2 ^ 8) c (omega arith),
        bit_or-shift 24 (a + b * 2 ^ 8 + c * 2 ^ 16) d (omega arith),
      )
      (omega arith)

pub read64-le_value :
    (bs : List ℕ) → All IsByte bs → 8 ≤ length bs → read64 bs ≡ le_value (take 8 bs)
unfolding read64
read64-le_value bs h l = ground (
  arith,
  read32-le_value bs h,
  read32-le_value (drop 4 bs) (All-drop 4 bs h),
  length-drop 4 bs,
  le_value-take 4 4 bs,
  low-lt,
  bit_or-shift 32 (le_value (take 4 bs)) (le_value (take 4 (drop 4 bs))),
)
  where
    low-lt : le_value (take 4 bs) < 2 ^ 32
    low-lt =
        let four : length (take 4 bs) ≡ 4 = omega (arith, length-take 4 bs) in
        rw four at (le_value-lt (take 4 bs) (All-take 4 bs h))

-- A number that was written is read back, whatever follows it.
pub read16-le_bytes : (v : ℕ) (rest : List ℕ) → v < 2 ^ 16 → read16 (le_bytes 2 v ++ rest) ≡ v
read16-le_bytes v rest h =
    unfold read16 in
    read16-le_value (le_bytes 2 v) (le_bytes-IsByte 2 v) (omega arith) ∙ le_value-le_bytes 2 v h

pub read32-le_bytes : (v : ℕ) (rest : List ℕ) → v < 2 ^ 32 → read32 (le_bytes 4 v ++ rest) ≡ v
read32-le_bytes v rest h =
    unfold read32 in
    read32-le_value (le_bytes 4 v) (le_bytes-IsByte 4 v) (omega arith) ∙ le_value-le_bytes 4 v h

pub read64-le_bytes : (v : ℕ) (rest : List ℕ) → v < 2 ^ 64 → read64 (le_bytes 8 v ++ rest) ≡ v
read64-le_bytes v rest h =
    unfold read64 read32 in
    read64-le_value (le_bytes 8 v) (le_bytes-IsByte 8 v) (omega arith) ∙ le_value-le_bytes 8 v h

-- Fields of a buffer of bytes, and what follows them.
pub le_bytes-read16 :
    (bs : List ℕ) → All IsByte bs → 2 ≤ length bs → le_bytes 2 (read16 bs) ++ drop 2 bs ≡ bs
le_bytes-read16 bs h l = rw (read16-le_value bs h l) (le_bytes-take 2 bs h l)

pub le_bytes-read32 :
    (bs : List ℕ) → All IsByte bs → 4 ≤ length bs → le_bytes 4 (read32 bs) ++ drop 4 bs ≡ bs
le_bytes-read32 bs h l = rw (read32-le_value bs h l) (le_bytes-take 4 bs h l)

pub le_bytes-read64 :
    (bs : List ℕ) → All IsByte bs → 8 ≤ length bs → le_bytes 8 (read64 bs) ++ drop 8 bs ≡ bs
le_bytes-read64 bs h l = rw (read64-le_value bs h l) (le_bytes-take 8 bs h l)

pub read64-lt : (bs : List ℕ) → All IsByte bs → 8 ≤ length bs → read64 bs < 2 ^ 64
read64-lt bs h l =
    let eight : length (take 8 bs) ≡ 8 = omega (arith, length-take 8 bs) in
    rw (read64-le_value bs h l) (rw eight at (le_value-lt (take 8 bs) (All-take 8 bs h)))
