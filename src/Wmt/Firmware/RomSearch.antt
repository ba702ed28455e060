-- ===== src/Wmt/Firmware/RomSearch.antt =====
-- wmt-launcher/firmware.c: wmt_rom_search as a whole.
use android_device_xsh_k50sv.Prelude.{
  ℕ, ◌≡◌, ◌⊎◌, inl, inr, refl, ap, subst, sym, true, some, List, [], ◌∷◌, arith, Result, ok, fail,
  returned, passed, length, All, length-take,
}
use android_device_xsh_k50sv.Prelude.Errno.{einval}
use android_device_xsh_k50sv.Prelude.CStrings.{starts_with}
use android_device_xsh_k50sv.Wmt.Patch.{is_bad_name}
use android_device_xsh_k50sv.Wmt.Firmware.Files.{File, read_exact}
use android_device_xsh_k50sv.Wmt.Firmware.ReadEnds.{Outcome}
use android_device_xsh_k50sv.Wmt.Firmware.Reads.{read_exact_ends}
use android_device_xsh_k50sv.Wmt.Firmware.Directory.{Status, Entry, Directory}
use android_device_xsh_k50sv.Wmt.Firmware.Candidates.{IsUsable, search_directory-keeps}
use android_device_xsh_k50sv.Wmt.Firmware.Patches.{output_of}
use android_device_xsh_k50sv.Wmt.Firmware.Roms.{
  RomSet, no_roms, rom_of, add_rom, read_rom, rom_prefix, search_roms, rom_search,
}
use android_device_xsh_k50sv.Wmt.Firmware.RomSets.{
  IsValid, no_roms-IsValid, add_rom-cases, store_rom-IsValid,
}

header-length :
    (f : File) (size : ℕ) (header : List ℕ)
    → (read_exact f size).0 ≡ ok header
    → length header ≡ size
header-length f size header e = by_outcome (read_exact f size).0 e (read_exact_ends f size).0
  where
    by_outcome :
        (r : Result (List ℕ))
        → r ≡ ok header
        → Outcome f size [] r (read_exact f size).1
        → length header ≡ size
    by_outcome (ok bytes) e (same, fits, _, _) =
        let same' : bytes ≡ header = cc in
        omega (arith, ap length same', ap length same, length-take size f.rest)
    by_outcome (fail x) e _ = absurd (cc)

read_rom-IsValid :
    (firmware : ℕ) (Q : Entry → Type 0) (e : Entry) (f : File) (status : Status) (s t : RomSet)
    → Q e
    → IsUsable e f status
    → starts_with rom_prefix e.name ≡ true
    → read_rom f status e.name firmware s ≡ ok t
    → IsValid firmware Q s
    → IsValid firmware Q t
unfolding read_rom
read_rom-IsValid firmware Q e f status s t q usable prefixed h v =
    let (named, h1) = passed (is_bad_name e.name) einval _ h in
    let (header, read, h2) =
      returned (read_exact f 32).0
        (λ header. add_rom (read_exact f 32).1 status e.name firmware header s) h1 in
    let full = header-length f 32 header read in
    elim (add_rom-cases (read_exact f 32).1 status e.name header firmware s t full h2) [
      | inl same ↦ subst (IsValid firmware Q) same v
      | inr (taken, (u, noted, is)) ↦ subst (IsValid firmware Q) (sym is) (
          store_rom-IsValid firmware Q s u e header v noted taken q
            (record { file = f; status = status; usable = usable; read = read })
            (record {
              full = full;
              prefixed = prefixed;
              named = ground (arith, named);
              fits = ground (arith, named);
              no_slash = ground (arith, named);
              matches = taken.matches;
              flagged = taken.flagged;
              typed = refl;
              in_range = taken.in_range;
              described = unfold rom_of in refl;
            }))
    ]

-- wmt_rom_search with a path that is not empty and an output. Either it returns 0 and stores a valid set:
-- five records, a count that is the number of bits in `seen`, and behind each bit i a file with the prefix,
-- read and regular, whose header is of this firmware and of type i and gives the record, with its name
-- shorter than 256 and without a slash; the two version arrays hold C strings. Or it
-- returns an error, and `output` is unchanged. `Q` is anything that all entries of the directory have,
-- and the entries behind the records have it too.
pub rom_search_cases :
    (directories : List ℕ → Directory) (c : ℕ) (cs : List ℕ) (firmware : ℕ) (output : RomSet)
    (Q : Entry → Type 0)
    → All Q (directories (c ∷ cs)).entries
    → ((s : RomSet) × IsValid firmware Q s
        × (rom_search directories (some (c ∷ cs)) firmware (some output) ≡ (ok 0, some s)))
      ⊎ ((e : ℕ) × (rom_search directories (some (c ∷ cs)) firmware (some output)
            ≡ (fail e, some output)))
unfolding rom_search search_roms
rom_search_cases directories c cs firmware output Q all = by_outcome (search_roms d firmware) refl
  where
    d : Directory
    d = directories (c ∷ cs)

    by_outcome :
        (r : Result RomSet)
        → search_roms d firmware ≡ r
        → ((s : RomSet) × IsValid firmware Q s × (output_of r output ≡ (ok 0, some s)))
          ⊎ ((e : ℕ) × (output_of r output ≡ (fail e, some output)))
    by_outcome (ok s) e = inl (
      s,
      search_directory-keeps read_rom rom_prefix firmware (IsValid firmware Q) Q
          (λ e f status s t. read_rom-IsValid firmware Q e f status s t) d no_roms s all
          (no_roms-IsValid firmware Q) e,
      refl,
    )
    by_outcome (fail x) e = inr (x, refl)
