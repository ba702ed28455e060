-- ===== src/Wmt/Firmware/Texts.antt =====
-- bt_version of wmt-launcher/firmware.c: which version it finds between the markers, and the array that it leaves.
use mathlib.Core.List.{append_assoc}
use android_device_xsh_k50sv.Prelude.{
  ℕ, ◌+◌, ◌-◌, ◌≡◌, refl, ◌∙◌, true, ◌||◌, Option, none, some, List, [], ◌∷◌, ◌++◌, arith, ◌==◌,
  if◌then◌else◌, Result, ok, fail, length, take, drop, length-take, length-append,
}
use android_device_xsh_k50sv.Prelude.Errno.{ebadmsg}
use android_device_xsh_k50sv.Prelude.Bytes.{overwrite, overwrite-zero, length-overwrite}
use android_device_xsh_k50sv.Prelude.CStrings.{chars, codes, contains}
use android_device_xsh_k50sv.Wmt.Firmware.Versions.{
  find_bytes, start_marker, end_marker, cut_newline, store_version, version_text, bt_version,
  stored_version,
}
use android_device_xsh_k50sv.Wmt.Firmware.Finds.{Never, IsFirst, Found, find_bytes-Found}

-- The bytes before the first NUL or newline.
abbrev pub first_line : List ℕ → List ℕ
first_line [] = []
first_line (c ∷ cs) = if c == 0 || c == b'\n' then [] else c ∷ first_line cs

length-cut_newline : (cs : List ℕ) → length (cut_newline cs) ≡ length cs
unfolding cut_newline
length-cut_newline [] = refl
length-cut_newline (c ∷ cs) = ground (arith, length-cut_newline cs)

chars-cut_newline : (text rest : List ℕ) → chars (cut_newline (text ++ 0 ∷ rest)) ≡ first_line text
unfolding cut_newline chars
chars-cut_newline [] rest = refl
chars-cut_newline (c ∷ text) rest = ground (arith, chars-cut_newline text rest)

contains-cut_newline : (text rest : List ℕ) → contains 0 (cut_newline (text ++ 0 ∷ rest)) ≡ true
unfolding cut_newline contains
contains-cut_newline [] rest = refl
contains-cut_newline (c ∷ text) rest = ground (arith, contains-cut_newline text rest)

-- An array of 92 bytes with a C string in it: the first line of the text's first 91 bytes.
pub record IsStored (text version : List ℕ) : Type 0 where
  pub sized : length version ≡ 92
  pub terminated : contains 0 version ≡ true
  pub line : chars version ≡ first_line (take 91 text)

store_version-IsStored :
    (text version : List ℕ) → length version ≡ 92 → IsStored text (store_version text version)
unfolding store_version
store_version-IsStored text version sized = record {
  sized = length-cut_newline (overwrite version 0 new) ∙ length-overwrite version 0 new ∙ sized;
  terminated = rw whole (contains-cut_newline (take 91 text) (drop (length new) version));
  line = rw whole (chars-cut_newline (take 91 text) (drop (length new) version));
}
  where
    new : List ℕ
    new = take 91 text ++ 0 ∷ []

    whole : overwrite version 0 new ≡ take 91 text ++ (0 ∷ drop (length new) version)
    whole =
        overwrite-zero version new
          (omega (arith, length-take 91 text, length-append (take 91 text) (0 ∷ [])))
        ∙ append_assoc (take 91 text) (0 ∷ []) (drop (length new) version)

-- The markers: `start` is the offset of the first, the second is `end` bytes behind the first.
pub record IsInterval (bytes : List ℕ) (start end : ℕ) : Type 0 where
  pub starts : IsFirst bytes (codes "BABEFACEBABEFACE") start
  pub ends : IsFirst (drop (start + 16) bytes) (codes "DEADBEEFDEADBEEF") end

-- What is searched: up to the second marker, or up to a NUL before it.
abbrev pub searched : List ℕ → ℕ → ℕ → List ℕ
searched bytes start end = chars (take (16 + end) (drop start bytes))

-- The six ways in which a file has a version, or none.
pub data BtVersion (bytes : List ℕ) : Result (Option (List ℕ)) → Type 0 where
  unmarked :
      Never bytes (codes "BABEFACEBABEFACE")
      → Never bytes (codes "DEADBEEFDEADBEEF")
      → BtVersion bytes (ok none)
  no_start :
      (end : ℕ)
      → Never bytes (codes "BABEFACEBABEFACE")
      → IsFirst bytes (codes "DEADBEEFDEADBEEF") end
      → BtVersion bytes (fail ebadmsg)
  no_end :
      (start : ℕ)
      → IsFirst bytes (codes "BABEFACEBABEFACE") start
      → Never (drop (start + 16) bytes) (codes "DEADBEEFDEADBEEF")
      → BtVersion bytes (fail ebadmsg)
  no_text :
      (start end : ℕ)
      → IsInterval bytes start end
      → Never (searched bytes start end) (codes "t-neptune")
      → Never (searched bytes start end) (codes "= debug")
      → BtVersion bytes (ok none)
  neptune :
      (start end text : ℕ) (version : List ℕ)
      → IsInterval bytes start end
      → IsFirst (searched bytes start end) (codes "t-neptune") text
      → IsStored (take (16 + end - text) (drop (start + text) bytes)) version
      → BtVersion bytes (ok (some version))
  debug :
      (start end text : ℕ) (version : List ℕ)
      → IsInterval bytes start end
      → Never (searched bytes start end) (codes "t-neptune")
      → IsFirst (searched bytes start end) (codes "= debug") text
      → IsStored (take 14 bytes) version
      → BtVersion bytes (ok (some version))

text_in :
    (bytes version : List ℕ) (start end : ℕ)
    → length version ≡ 92
    → IsInterval bytes start end
    → BtVersion bytes (ok (stored_version version (version_text bytes start (16 + end))))
unfolding version_text
text_in bytes version start end sized i =
    by_neptune (find_bytes (searched bytes start end) (codes "t-neptune"))
      (find_bytes-Found (searched bytes start end) (codes "t-neptune") (omega arith))
      (find_bytes (searched bytes start end) (codes "= debug"))
      (find_bytes-Found (searched bytes start end) (codes "= debug") (omega arith))
  where
    by_neptune :
        (n : Option ℕ)
        → Found (searched bytes start end) (codes "t-neptune") n
        → (d : Option ℕ) → Found (searched bytes start end) (codes "= debug") d
        → BtVersion bytes (
            ok (
              stored_version version (elim n as (λ _. Option (List ℕ)) [
                | some text ↦ some (take (16 + end - text) (drop (start + text) bytes))
                | none ↦ elim d as (λ _. Option (List ℕ)) [
                  | some t ↦ some (take 14 bytes)
                  | none ↦ none
                ]
              ])))
    by_neptune (some text) first d f =
        neptune start end text _ i first (store_version-IsStored _ version sized)
    by_neptune none never (some text) first =
        debug start end text _ i never first (store_version-IsStored _ version sized)
    by_neptune none never none never' = no_text start end i never never'

-- bt_version, on a file of any bytes and the caller's array of 92: which version is found where, or none.
-- -EBADMSG is returned exactly if the first marker is there and the second not behind it, or only the second
-- is there. Between the markers, up to a NUL, the version is looked for: it is the first line of the text
-- from "t-neptune" to the second marker, or of the file's first 14 bytes if only "= debug" is
-- there. It is cut to 91 bytes, and ends with a NUL in its array.
pub bt_version-BtVersion :
    (bytes version : List ℕ) → length version ≡ 92 → BtVersion bytes (bt_version bytes version)
unfolding bt_version
bt_version-BtVersion bytes version sized =
    by_start (find_bytes bytes start_marker) (find_bytes-Found bytes start_marker (omega arith))
      (find_bytes bytes end_marker) (find_bytes-Found bytes end_marker (omega arith))
  where
    by_end :
        (start : ℕ)
        → IsFirst bytes start_marker start
        → (e : Option ℕ) → Found (drop (start + 16) bytes) end_marker e
        → BtVersion bytes (elim e as (λ _. Result (Option (List ℕ))) [
          | none ↦ fail ebadmsg
          | some end ↦ ok (stored_version version (version_text bytes start (16 + end)))
        ])
    by_end start first none never = no_end start first never
    by_end start first (some end) ends =
        text_in bytes version start end sized (record { starts = first; ends = ends })

    by_start :
        (s : Option ℕ)
        → Found bytes start_marker s
        → (e : Option ℕ) → Found bytes end_marker e
        → BtVersion bytes (elim s as (λ _. Result (Option (List ℕ))) [
          | none ↦ elim e as (λ _. Result (Option (List ℕ))) [
            | none ↦ ok none
            | some end ↦ fail ebadmsg
          ]
          | some start ↦
              elim (find_bytes (drop (start + 16) bytes) end_marker)
                as (λ _. Result (Option (List ℕ))) [
                  | none ↦ fail ebadmsg
                  | some end ↦ ok (stored_version version (version_text bytes start (16 + end)))
                ]
        ])
    by_start none never none never' = unmarked never never'
    by_start none never (some end) first = no_start end never first
    by_start (some start) first e f =
        by_end start first (find_bytes (drop (start + 16) bytes) end_marker)
          (find_bytes-Found (drop (start + 16) bytes) end_marker (omega arith))
