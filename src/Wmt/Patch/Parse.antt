-- ===== src/Wmt/Patch/Parse.antt =====
-- What a patch header must hold, and that every parsed file can start a set.
use android_device_xsh_k50sv.Prelude.{
  ℕ, ◌/◌, ◌%◌, ◌≤◌, ◌<◌, ◌≡◌, ◌≢◌, ◌↔◌, refl, ap, true, false, Option, none, some, List, [], ◌∷◌,
  arith, Result, ok, fail, length,
}
use android_device_xsh_k50sv.Prelude.Bits.{bit_and_nibble, bit_and_byte}
use android_device_xsh_k50sv.Prelude.CStrings.{contains, padded, contains-padded}
use android_device_xsh_k50sv.Wmt.Patch.{PatchFile, byte, file_of, parse_header, parse, deliver}

-- What `wmt_patch_set_add` asks of a file.
pub record IsFile (file : PatchFile) : Type 0 where
  pub some_count : 0 < file.count
  pub few : file.count ≤ 10
  pub some_sequence : 0 < file.info.sequence
  pub in_count : file.info.sequence ≤ file.count
  pub terminated : contains 0 file.info.name ≡ true

-- A header of full size for this firmware, with a usable base name.
pub record Accepts (header basename : List ℕ) (firmware : ℕ) : Type 0 where
  pub full : 28 ≤ length header
  pub named : 0 < length basename
  pub fits : length basename < 256
  pub no_slash : contains b'/' basename ≡ false
  pub matches : byte header 23 ≡ firmware % 256
  pub some_count : 0 < byte header 24 / 16
  pub few : byte header 24 / 16 ≤ 10
  pub some_sequence : 0 < byte header 24 % 16
  pub in_count : byte header 24 % 16 ≤ byte header 24 / 16

abbrev pub described : List ℕ → List ℕ → PatchFile
described header basename = record {
  count = byte header 24 / 16;
  info = record {
    sequence = byte header 24 % 16;
    address = 0 ∷ byte header 25 ∷ byte header 26 ∷ byte header 27 ∷ [];
    name = padded 256 basename;
  };
}

file_of-described : (header basename : List ℕ) → file_of header basename ≡ described header basename
unfolding file_of
file_of-described header basename = ground (arith, bit_and_nibble (byte header 24))

pub parse_header-Accepts :
    (header basename : List ℕ) (firmware : ℕ)
    → Accepts header basename firmware
    → parse_header header basename firmware ≡ ok (some (described header basename))
unfolding parse_header
parse_header-Accepts header basename firmware h =
    ground (arith, file_of-described header basename, bit_and_byte firmware)

pub parse_header-only :
    (header basename : List ℕ) (firmware : ℕ) (file : PatchFile)
    → parse_header header basename firmware ≡ ok (some file)
    → Accepts header basename firmware × (file ≡ described header basename)
unfolding parse_header
parse_header-only header basename firmware file e =
    ground (arith, file_of-described header basename, bit_and_byte firmware)

-- `wmt_patch_parse` returns 0 exactly when the header and the name are acceptable, and then writes the
-- file described by bytes 24 to 27; on every other return value it leaves `output` alone.
pub parse_iff :
    (header basename : List ℕ) (firmware : ℕ) (output : PatchFile)
    → let (result, written) = parse (some header) (some basename) firmware (some output) in
      ((result ≡ ok 0) ↔ Accepts header basename firmware)
      × (result ≡ ok 0 → written ≡ some (described header basename))
      × (result ≢ ok 0 → written ≡ some output)
unfolding parse
parse_iff header basename firmware output = by_outcome (parse_header header basename firmware) refl
  where
    by_outcome :
        (r : Result (Option PatchFile))
        → parse_header header basename firmware ≡ r
        → let (result, written) = deliver r output in
          ((result ≡ ok 0) ↔ Accepts header basename firmware)
          × (result ≡ ok 0 → written ≡ some (described header basename))
          × (result ≢ ok 0 → written ≡ some output)
    by_outcome (ok (some file)) e =
        let (accepts, eq) = parse_header-only header basename firmware file e in
        (((λ _. accepts), (λ _. refl)), (λ _. ap some eq), (λ n. absurd (n refl)))
    by_outcome (ok none) e = (
      ((λ z. absurd (cc)), (λ a. absurd (cc (parse_header-Accepts header basename firmware a)))),
      (λ z. absurd (cc)),
      (λ _. refl),
    )
    by_outcome (fail x) e = (
      ((λ z. absurd (cc)), (λ a. absurd (cc (parse_header-Accepts header basename firmware a)))),
      (λ z. absurd (cc)),
      (λ _. refl),
    )

-- A parsed file is one that `wmt_patch_set_add` takes: the search never fails on it with -EINVAL
-- before another file has fixed the count.
pub parse-IsFile :
    (header basename : List ℕ) (firmware : ℕ)
    → Accepts header basename firmware
    → IsFile (described header basename)
parse-IsFile header basename firmware a = record {
  some_count = a.some_count;
  few = a.few;
  some_sequence = a.some_sequence;
  in_count = a.in_count;
  terminated = contains-padded 256 basename a.fits;
}
