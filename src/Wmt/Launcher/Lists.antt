-- ===== src/Wmt/Launcher/Lists.antt =====
-- wmt-launcher/main.c: the metadata lists that handle_command makes of a search's result, their indices
-- and records.
use android_device_xsh_k50sv.Prelude.{
  ℕ, zero, suc, ◌+◌, ◌≤◌, ◌<◌, ◌≡◌, refl, true, false, Bool-cases, inl, inr, List, [], ◌∷◌, arith,
  length, get_or, take, All, subst,
}
use android_device_xsh_k50sv.Prelude.Bits.{has}
use android_device_xsh_k50sv.Prelude.CStrings.{chars}
use android_device_xsh_k50sv.Wmt.Patch.{PatchInfo, zero_info}
use android_device_xsh_k50sv.Wmt.Protocol.{WmtRecord, patch_list, rom_list, is_bad_record_name}
use android_device_xsh_k50sv.Wmt.Protocol.Reply.{IsSized}
use android_device_xsh_k50sv.Wmt.Protocol.Records.{IsListed, Differs, Distinct}
use android_device_xsh_k50sv.Wmt.Firmware.Roms.{RomSet, zero_rom}
use android_device_xsh_k50sv.Wmt.Launcher.Commands.{patch_records, rom_records}

-- Array sizes, and a name that may be sent.
pub record IsSendable (address name : List ℕ) : Type 0 where
  pub address_size : length address ≡ 4
  pub name_fits : length (chars name) < 256
  pub name_good : is_bad_record_name name ≡ false

-- Infos with the sequences from k + 1 on.
abbrev pub Numbered : ℕ → List PatchInfo → Type 0
Numbered k [] = Unit {0}
Numbered k (info ∷ infos) =
    ((info.sequence ≡ suc k) × IsSendable info.address info.name) × Numbered (suc k) infos

pub take-Numbered :
    (infos : List PatchInfo) (k n : ℕ)
    → n ≤ length infos
    → ((i : ℕ)
        → i < n
        → ((get_or infos i zero_info).sequence ≡ suc (k + i))
          × IsSendable (get_or infos i zero_info).address (get_or infos i zero_info).name)
    → Numbered k (take n infos)
take-Numbered infos k zero h each = tt
take-Numbered [] k (suc n) h each = absurd (omega arith)
take-Numbered (info ∷ infos) k (suc n) h each = (
  (let first = each 0 (omega arith) in (omega arith, first.1)),
  take-Numbered infos (suc k) n (omega arith)
      (λ i lt. let later = each (suc i) (omega arith) in (omega arith, later.1)),
)

pub length-patch_records : (infos : List PatchInfo) → length (patch_records infos) ≡ length infos
length-patch_records [] = refl
length-patch_records (info ∷ infos) = omega (arith, length-patch_records infos)

-- A list of records is good: each is sendable, its index is at least `low` and below `high`, they increase.
abbrev pub Increasing : ℕ → ℕ → List WmtRecord → Type 0
Increasing low high [] = Unit {0}
Increasing low high (r ∷ rs) =
    ((low ≤ r.index) × (r.index < high) × IsSendable r.address r.name)
    × Increasing (suc r.index) high rs

Increasing-lower :
    (a b high : ℕ) (rs : List WmtRecord) → a ≤ b → Increasing b high rs → Increasing a high rs
Increasing-lower a b high [] h i = tt
Increasing-lower a b high (r ∷ rs) h ((lo, hi, s), rest) = ((omega arith, hi, s), rest)

Increasing-Differs :
    (r : WmtRecord) (low high : ℕ) (rs : List WmtRecord)
    → r.index < low
    → Increasing low high rs
    → All (Differs r) rs
Increasing-Differs r low high [] h i = tt
Increasing-Differs r low high (q ∷ rs) h ((lo, hi, s), rest) =
    ((λ e. absurd (omega arith)), Increasing-Differs r (suc q.index) high rs (omega arith) rest)

pub Increasing-Distinct :
    (low high : ℕ) (rs : List WmtRecord) → Increasing low high rs → Distinct rs
Increasing-Distinct low high [] i = tt
Increasing-Distinct low high (r ∷ rs) (here, rest) = (
  Increasing-Differs r (suc r.index) high rs (omega arith) rest,
  Increasing-Distinct (suc r.index) high rs rest,
)

pub Increasing-IsSized :
    (low high : ℕ) (rs : List WmtRecord) → Increasing low high rs → All IsSized rs
Increasing-IsSized low high [] i = tt
Increasing-IsSized low high (r ∷ rs) ((lo, hi, s), rest) = (
  record { address_size = s.address_size; name_fits = s.name_fits },
  Increasing-IsSized (suc r.index) high rs rest,
)

pub Increasing-patches :
    (low high count : ℕ) (rs : List WmtRecord)
    → 0 < low
    → high ≤ suc count
    → Increasing low high rs
    → All (IsListed patch_list count) rs
Increasing-patches low high count [] p q i = tt
Increasing-patches low high count (r ∷ rs) p q ((lo, hi, s), rest) = (
  ((omega arith, omega arith), s.name_good),
  Increasing-patches (suc r.index) high count rs (omega arith) q rest,
)

pub Increasing-roms :
    (low count : ℕ) (rs : List WmtRecord) → Increasing low 5 rs → All (IsListed rom_list count) rs
Increasing-roms low count [] i = tt
Increasing-roms low count (r ∷ rs) ((lo, hi, s), rest) =
    ((hi, s.name_good), Increasing-roms (suc r.index) count rs rest)

pub length-Increasing :
    (low high : ℕ) (rs : List WmtRecord)
    → low ≤ high
    → Increasing low high rs
    → low + length rs ≤ high
length-Increasing low high [] h i = omega arith
length-Increasing low high (r ∷ rs) h ((lo, hi, s), rest) =
    omega (arith, length-Increasing (suc r.index) high rs (omega arith) rest)

pub Numbered-Increasing :
    (k : ℕ) (infos : List PatchInfo)
    → Numbered k infos
    → Increasing (suc k) (suc (k + length infos)) (patch_records infos)
Numbered-Increasing k [] n = tt
Numbered-Increasing k (info ∷ infos) ((seq, s), rest) =
    let tail = Numbered-Increasing (suc k) infos rest in
    let same : suc (suc k + length infos) ≡ suc (k + suc (length infos)) = omega arith in
    let from : suc (suc k) ≡ suc info.sequence = omega arith in
    (
      (omega arith, omega arith, s),
      subst (λ l. Increasing l (suc (k + suc (length infos))) (patch_records infos)) from
          (subst (λ h. Increasing (suc (suc k)) h (patch_records infos)) same tail),
    )

pub rom_records-Increasing :
    (s : RomSet) (type n : ℕ)
    → ((i : ℕ)
        → has s.seen i ≡ true
        → IsSendable (get_or s.records i zero_rom).address (get_or s.records i zero_rom).name)
    → Increasing type (type + n) (rom_records s type n)
rom_records-Increasing s type zero each = tt
rom_records-Increasing s type (suc n) each =
    let same : suc type + n ≡ type + suc n = omega arith in
    let rest =
      subst (λ h. Increasing (suc type) h (rom_records s (suc type) n)) same
        (rom_records-Increasing s (suc type) n each) in
    elim (Bool-cases (has s.seen type)) [
      | inl seen ↦ rw seen ((omega arith, omega arith, each type seen), rest)
      | inr skipped ↦ rw skipped (
          Increasing-lower type (suc type) (type + suc n) (rom_records s (suc type) n) (omega arith)
            rest)
    ]
