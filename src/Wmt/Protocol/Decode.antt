-- ===== src/Wmt/Protocol/Decode.antt =====
-- `wmt_command_decode` against the frames that the kernel side writes.
use android_device_xsh_k50sv.Prelude.{
  ℕ, zero, suc, length-take, ◌+◌, ◌^◌, ◌≤◌, ◌<◌, ◌≡◌, ◌≢◌, ◌↔◌, refl, ap, sym, ◌∙◌, false, List, [],
  ◌∷◌, ◌++◌, arith, ok, length, take, drop, All, length-drop, ◌==◌, ltb, not, ◌||◌, passed,
}
use android_device_xsh_k50sv.Prelude.Bytes.{IsByte, le_bytes, drop-drop, All-drop}
use android_device_xsh_k50sv.Prelude.CStrings.{contains, padded}
use android_device_xsh_k50sv.Wmt.Protocol.{
  WmtCommand, decode, magic, version, read16, read32, read64,
}
use android_device_xsh_k50sv.Wmt.Protocol.Words.{
  read16-le_bytes, read32-le_bytes, read64-le_bytes, le_bytes-read16, le_bytes-read32,
  le_bytes-read64, read64-lt,
}

-- The frame of a command, as the kernel writes it.
abbrev pub encode_command : ℕ → ℕ → List ℕ → List ℕ
encode_command session transaction text =
    le_bytes 4 magic
    ++ (le_bytes 2 version
        ++ (le_bytes 2 1
            ++ (le_bytes 8 session
                ++ (le_bytes 8 transaction
                    ++ (le_bytes 4 (length text) ++ (le_bytes 4 0 ++ text))))))

-- A command that the protocol allows.
pub record IsCommand (session transaction : ℕ) (text : List ℕ) : Type 0 where
  pub some_session : 0 < session
  pub session_fits : session < 2 ^ 64
  pub some_transaction : 0 < transaction
  pub transaction_fits : transaction < 2 ^ 64
  pub some_text : 0 < length text
  pub text_fits : length text ≤ 255
  pub no_nul : contains 0 text ≡ false

abbrev pub command_of : ℕ → ℕ → List ℕ → WmtCommand
command_of session transaction text = record {
  session = session;
  transaction = transaction;
  text = padded 256 text;
}

take-length {ℓ} : {A : Type ℓ} (xs : List A) → take (length xs) xs ≡ xs
take-length [] = refl
take-length (x ∷ xs) = ap (◌∷◌ x) (take-length xs)

-- What the fields of an accepted frame hold.
record Reads (frame : List ℕ) (session transaction : ℕ) (text : List ℕ) : Type 0 where
  size : length frame ≡ 32 + length text
  is_magic : read32 frame ≡ magic
  is_version : read16 (drop 4 frame) ≡ version
  is_command : read16 (drop 6 frame) ≡ 1
  is_session : read64 (drop 8 frame) ≡ session
  is_transaction : read64 (drop 16 frame) ≡ transaction
  text_size : read32 (drop 24 frame) ≡ length text
  no_result : read32 (drop 28 frame) ≡ 0
  payload : drop 32 frame ≡ text

-- The conditions on the values alone.
record Passes (session transaction : ℕ) (text : List ℕ) : Type 0 where
  some_session : 0 < session
  some_transaction : 0 < transaction
  some_text : 0 < length text
  text_fits : length text ≤ 255
  no_nul : contains 0 text ≡ false

decode-Reads :
    (frame : List ℕ) (session transaction : ℕ) (text : List ℕ)
    → Reads frame session transaction text
    → Passes session transaction text
    → decode frame session ≡ ok (command_of session transaction text)
unfolding decode
decode-Reads frame s t text r p =
    let whole : take (read32 (drop 24 frame)) (drop 32 frame) ≡ text =
      rw (r.text_size, r.payload) (take-length text) in
    ground (arith, whole)

Reads-encode_command :
    (s t : ℕ) (text : List ℕ) → IsCommand s t text → Reads (encode_command s t text) s t text
Reads-encode_command s t text h = record {
  size = omega arith;
  is_magic = read32-le_bytes magic _ (omega arith);
  is_version = read16-le_bytes version _ (omega arith);
  is_command = read16-le_bytes 1 _ (omega arith);
  is_session = read64-le_bytes s _ h.session_fits;
  is_transaction = read64-le_bytes t _ h.transaction_fits;
  text_size = read32-le_bytes (length text) _ (omega arith);
  no_result = read32-le_bytes 0 text (omega arith);
  payload = refl;
}

-- Every well-formed command of the session is read back.
decode-encode_command :
    (session transaction : ℕ) (text : List ℕ)
    → IsCommand session transaction text
    → decode (encode_command session transaction text) session
      ≡ ok (command_of session transaction text)
decode-encode_command s t text h =
    decode-Reads _ s t text (Reads-encode_command s t text h) (record {
      some_session = h.some_session;
      some_transaction = h.some_transaction;
      some_text = h.some_text;
      text_fits = h.text_fits;
      no_nul = h.no_nul;
    })

length-take-drop :
    (n : ℕ) (frame : List ℕ) → length frame ≡ 32 + n → length (take n (drop 32 frame)) ≡ n
length-take-drop n frame h = omega (arith, length-drop 32 frame, length-take n (drop 32 frame))

take_all {ℓ} : {A : Type ℓ} (n : ℕ) (xs : List A) → length xs ≤ n → take n xs ≡ xs
take_all zero [] h = refl
take_all zero (x ∷ xs) h = absurd (omega arith)
take_all (suc n) [] h = refl
take_all (suc n) (x ∷ xs) h = ap (◌∷◌ x) (take_all n xs (omega arith))

-- The tests that a frame passed, on the numbers that were read.
record Passed (n s32 s magic' version' kind session' transaction result : ℕ) : Type 0 where
  some_session : s ≢ 0
  long : 32 ≤ n
  is_magic : magic' ≡ magic
  is_version : version' ≡ version
  is_command : kind ≡ 1
  no_result : result ≡ 0
  is_session : session' ≡ s
  some_transaction : transaction ≢ 0
  some_text : s32 ≢ 0
  text_fits : s32 ≤ 255
  size : n ≡ 32 + s32

abbrev raw : List ℕ → WmtCommand
raw frame = record {
  session = read64 (drop 8 frame);
  transaction = read64 (drop 16 frame);
  text = padded 256 (take (read32 (drop 24 frame)) (drop 32 frame));
}

Passed-tests :
    {n s32 s magic' version' kind session' transaction result : ℕ}
    → (s == 0) ≡ false
    → ltb n 32 ≡ false
    → (not (magic' == magic) || not (version' == version)) ≡ false
    → (not (kind == 1) || not (result == 0)) ≡ false
    → not (session' == s) ≡ false
    → (transaction == 0) ≡ false
    → (s32 == 0 || ltb 255 s32 || not (n == 32 + s32)) ≡ false
    → Passed n s32 s magic' version' kind session' transaction result
Passed-tests t0 t1 t2 t3 t4 t5 t6 = ground arith

decode-Passed :
    (frame : List ℕ) (session : ℕ) (c : WmtCommand)
    → decode frame session ≡ ok c
    → Passed
        (length frame)
        (read32 (drop 24 frame))
        session
        (read32 frame)
        (read16 (drop 4 frame))
        (read16 (drop 6 frame))
        (read64 (drop 8 frame))
        (read64 (drop 16 frame))
        (read32 (drop 28 frame))
      × (contains 0 (take (read32 (drop 24 frame)) (drop 32 frame)) ≡ false)
      × (c ≡ raw frame)
unfolding decode
decode-Passed frame s c e =
    let (t0, e0) = passed _ _ _ e in
    let (t1, e1) = passed _ _ _ e0 in
    let (t2, e2) = passed _ _ _ e1 in
    let (t3, e3) = passed _ _ _ e2 in
    let (t4, e4) = passed _ _ _ e3 in
    let (t5, e5) = passed _ _ _ e4 in
    let (t6, e6) = passed _ _ _ e5 in
    let (t7, e7) = passed _ _ _ e6 in (Passed-tests t0 t1 t2 t3 t4 t5 t6, t7, cc)

-- What an accepted frame says.
decode-only :
    (frame : List ℕ) (session : ℕ) (c : WmtCommand)
    → decode frame session ≡ ok c
    → Reads frame session c.transaction (drop 32 frame)
      × Passes session c.transaction (drop 32 frame)
      × (c ≡ command_of session c.transaction (drop 32 frame))
decode-only frame s c e =
    let (p, no_nul, eq) = decode-Passed frame s c e in
    let size : length (drop 32 frame) ≡ read32 (drop 24 frame) =
      omega (arith, length-drop 32 frame, p.size) in
    let whole : take (read32 (drop 24 frame)) (drop 32 frame) ≡ drop 32 frame =
      take_all _ _ (omega (arith, size)) in
    rw eq (
      record {
        size = omega (arith, size, p.size);
        is_magic = p.is_magic;
        is_version = p.is_version;
        is_command = p.is_command;
        is_session = p.is_session;
        is_transaction = refl;
        text_size = sym size;
        no_result = p.no_result;
        payload = refl;
      },
      record {
        some_session = omega (arith, p.some_session);
        some_transaction = omega (arith, p.some_transaction);
        some_text = omega (arith, size, p.some_text);
        text_fits = omega (arith, size, p.text_fits);
        no_nul = rw whole at no_nul;
      },
      rw (whole, p.is_session),
    )

-- One field in front of what follows it.
module _ (frame : List ℕ) (bytes : All IsByte frame) where
  field16 :
      (k : ℕ) (rest : List ℕ)
      → k + 2 ≤ length frame
      → rest ≡ drop (k + 2) frame
      → le_bytes 2 (read16 (drop k frame)) ++ rest ≡ drop k frame
  field16 k rest l e =
      rw (e, ← drop-drop k 2 frame)
        (le_bytes-read16 (drop k frame) (All-drop k frame bytes)
          (omega (arith, length-drop k frame)))

  field32 :
      (k : ℕ) (rest : List ℕ)
      → k + 4 ≤ length frame
      → rest ≡ drop (k + 4) frame
      → le_bytes 4 (read32 (drop k frame)) ++ rest ≡ drop k frame
  field32 k rest l e =
      rw (e, ← drop-drop k 4 frame)
        (le_bytes-read32 (drop k frame) (All-drop k frame bytes)
          (omega (arith, length-drop k frame)))

  field64 :
      (k : ℕ) (rest : List ℕ)
      → k + 8 ≤ length frame
      → rest ≡ drop (k + 8) frame
      → le_bytes 8 (read64 (drop k frame)) ++ rest ≡ drop k frame
  field64 k rest l e =
      rw (e, ← drop-drop k 8 frame)
        (le_bytes-read64 (drop k frame) (All-drop k frame bytes)
          (omega (arith, length-drop k frame)))

  -- A frame is its fields one after the other.
  frame-fields :
      {s t : ℕ} {text : List ℕ}
      → 32 ≤ length frame
      → Reads frame s t text
      → encode_command s t text ≡ frame
  frame-fields {s} {t} {text} l r =
      let result : le_bytes 4 0 ++ text ≡ drop 28 frame =
        rw r.no_result at (field32 28 text l (sym r.payload)) in
      let size : le_bytes 4 (length text) ++ (le_bytes 4 0 ++ text) ≡ drop 24 frame =
        rw r.text_size at (field32 24 _ (omega arith) result) in
      let transaction : le_bytes 8 t ++ _ ≡ drop 16 frame =
        rw r.is_transaction at (field64 16 _ (omega arith) size) in
      let session : le_bytes 8 s ++ _ ≡ drop 8 frame =
        rw r.is_session at (field64 8 _ (omega arith) transaction) in
      let kind : le_bytes 2 1 ++ _ ≡ drop 6 frame =
        rw r.is_command at (field16 6 _ (omega arith) session) in
      let release : le_bytes 2 version ++ _ ≡ drop 4 frame =
        rw r.is_version at (field16 4 _ (omega arith) kind) in
      rw r.is_magic at (field32 0 _ (omega arith) release)

-- The decoder and the kernel's encoder are inverse: on a buffer of bytes it returns a command exactly if
-- the buffer is the frame of an allowed command of this session, and it returns that command.
pub decode_iff :
    (frame : List ℕ) (session : ℕ) (c : WmtCommand)
    → All IsByte frame
    → session < 2 ^ 64
    → (decode frame session ≡ ok c) ↔ (
        (text : List ℕ) × IsCommand session c.transaction text
        × (frame ≡ encode_command session c.transaction text)
        × (c ≡ command_of session c.transaction text))
decode_iff frame session c h fits = (
  (λ e.
      let (r, p, eq) = decode-only frame session c e in
      let long : 32 ≤ length frame = omega (arith, r.size) in
      (
        drop 32 frame,
        record {
          some_session = p.some_session;
          session_fits = fits;
          some_transaction = p.some_transaction;
          transaction_fits = rw (← r.is_transaction) (
              read64-lt (drop 16 frame) (All-drop 16 frame h)
                (omega (arith, length-drop 16 frame)));
          some_text = p.some_text;
          text_fits = p.text_fits;
          no_nul = p.no_nul;
        },
        sym (frame-fields frame h long r),
        eq,
      )),
  (λ (text, allowed, same, eq).
      rw same (decode-encode_command session c.transaction text allowed ∙ ap ok (sym eq))),
)
