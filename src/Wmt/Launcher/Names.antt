-- ===== src/Wmt/Launcher/Names.antt =====
-- wmt-launcher/firmware.c and main.c: the names that a search leaves in its records.
use android_device_xsh_k50sv.Prelude.{
  ℕ, suc, ◌-◌, ◌<◌, ◌≡◌, ◌≢◌, refl, true, false, List, [], ◌∷◌, ◌++◌, arith, length, replicate,
}
use android_device_xsh_k50sv.Prelude.CStrings.{chars, contains, padded, starts_with}
use android_device_xsh_k50sv.Wmt.Protocol.{is_bad_record_name, is_dot, is_dot_dot}

chars-append :
    (name : List ℕ) (n : ℕ) → contains 0 name ≡ false → chars (name ++ replicate (suc n) 0) ≡ name
unfolding chars contains
chars-append [] n h = refl
chars-append (c ∷ name) n h = ground (arith, chars-append name n)

pub chars-padded :
    (name : List ℕ) → contains 0 name ≡ false → length name < 256 → chars (padded 256 name) ≡ name
unfolding padded
chars-padded name h fits =
    let room : 256 - length name ≡ suc (255 - length name) = omega arith in
    rw room (chars-append name (255 - length name) h)

dotless :
    (p : ℕ) (ps name : List ℕ)
    → p ≢ b'.'
    → starts_with (p ∷ ps) name ≡ true
    → (0 < length name) × (is_dot name ≡ false) × (is_dot_dot name ≡ false)
unfolding starts_with
dotless p ps [] h s = absurd (cc)
dotless p ps (a ∷ []) h s = ground arith
dotless p ps (a ∷ b ∷ []) h s = ground arith
dotless p ps (a ∷ b ∷ c ∷ name) h s = ground arith

-- A C string that begins with a search's prefix, fits and has no slash.
pub is_bad_record_name-padded :
    (p : ℕ) (ps name : List ℕ)
    → p ≢ b'.'
    → starts_with (p ∷ ps) name ≡ true
    → contains 0 name ≡ false
    → length name < 256
    → contains b'/' name ≡ false
    → is_bad_record_name (padded 256 name) ≡ false
is_bad_record_name-padded p ps name h s nul fits slash =
    rw (chars-padded name nul fits) (ground (arith, dotless p ps name h s))
