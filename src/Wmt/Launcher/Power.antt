-- ===== src/Wmt/Launcher/Power.antt =====
-- wmt-launcher/main.c: waiting for the driver and the chip, and the thread that switches the power on. What
-- each round of a waiting loop meets is a list; `none` means that the rounds of the list do not end the loop.
use android_device_xsh_k50sv.Prelude.{
  ℕ, zero, suc, ◌-◌, Bool, true, false, ◌||◌, Option, none, some, List, [], ◌∷◌, ◌==◌,
  if◌then◌else◌, Result, ok, fail,
}
use android_device_xsh_k50sv.Prelude.Errno.{eperm, enoent, enodev, eintr, eagain, eio, ecanceled}
use android_device_xsh_k50sv.Wmt.Loader.{is_hex_digit, is_yes, read_hex}
use android_device_xsh_k50sv.Wmt.Launcher.Commands.{supported_chip}

-- What the driver's property is, what open returns, and whether a stop was requested before.
pub record Attempt : Type 0 where
  pub stopping : Bool
  pub ready : List ℕ
  pub opened : Result ℕ

unfoldable pub open_driver : List Attempt → Option (Result ℕ)
open_driver [] = none
open_driver (a ∷ attempts) =
    let later = open_driver attempts in
    if a.stopping
    then some (fail eintr)
    else if is_yes a.ready
    then (elim a.opened [
      | ok fd ↦ some (ok fd)
      | fail e ↦ if e == enoent || e == enodev || e == eintr then later else some (fail e)
    ])
    else later

abbrev pub known_chip : ℕ × List ℕ → Bool
known_chip (parsed, []) = supported_chip parsed
known_chip (parsed, c ∷ cs) = false

-- No supported chip is so large that strtoul sets errno.
unfoldable pub cached_chip : List ℕ → Bool
cached_chip value = if is_hex_digit value then known_chip (read_hex value) else false

-- What WMT_CHIP_ID returns, and whether a stop was requested before.
pub record ChipQuery : Type 0 where
  pub stopping : Bool
  pub chip : Result ℕ

unfoldable pub query_chip : List ChipQuery → Option (Result ℕ)
query_chip [] = none
query_chip (q ∷ queries) =
    let later = query_chip queries in
    if q.stopping then some (fail eintr) else (elim q.chip [
      | ok chip ↦ some (if supported_chip chip then ok 0 else fail enodev)
      | fail e ↦
          if e == eagain || e == enodev || e == eperm || e == eintr then later else some (fail e)
    ])

unfoldable pub check_chip : List ℕ → List ChipQuery → Option (Result ℕ)
check_chip cached queries = if cached_chip cached then some (ok 0) else query_chip queries

abbrev pub power_attempts : ℕ
power_attempts = 20

-- What WMT_POWER returns in an attempt, and whether the main thread wants to stop before and after it.
pub record Switching : Type 0 where
  pub stopping : Bool
  pub switched : Result ℕ
  pub stopped : Bool

pub data PowerCall : Type 0 where
  switch_on switch_off sleep : PowerCall

-- `result < 0 ? -errno : -EIO` for a result that is not 0
abbrev pub power_result : Result ℕ → Result ℕ
power_result (fail e) = fail e
power_result (ok zero) = ok 0
power_result (ok (suc n)) = fail eio

abbrev pub is_done : Result ℕ → Bool
is_done (ok n) = true
is_done (fail e) = false

-- The loop of power_on with `n` attempts left, and the result of those before.
unfoldable pub power_from : (ℕ → Switching) → ℕ → Result ℕ → Result ℕ × List PowerCall
power_from attempts zero result = (result, [])
power_from attempts (suc n) result =
    let a = attempts (power_attempts - suc n) in
    let (last, calls) = power_from attempts n (power_result a.switched) in
    if a.stopping
    then (result, [])
    else if is_done (power_result a.switched) || a.stopped
    then (power_result a.switched, switch_on ∷ [])
    else (last, switch_on ∷ switch_off ∷ (if n == 0 then calls else sleep ∷ calls))

abbrev pub power_on : (ℕ → Switching) → Result ℕ × List PowerCall
power_on attempts = power_from attempts power_attempts (fail ecanceled)
