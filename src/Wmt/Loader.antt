-- ===== src/Wmt/Loader.antt =====
-- wmt-loader/main.c: the program that tells the detector which chip there is. What its calls return is a
-- `World`; what it does is a list of actions. strtoul sets errno only for a number that is over UINT_MAX too.
pub mod Runs
mod Tests
use android_device_xsh_k50sv.Prelude.{
  ℕ, zero, suc, ◌+◌, ◌-◌, ◌*◌, ◌/◌, ◌%◌, ◌^◌, Bool, true, false, not, ◌&&◌, ◌||◌, Option, none,
  some, List, [], ◌∷◌, ◌++◌, ltb, leb, ◌==◌, if◌then◌else◌, Result, ok, fail,
}
use android_device_xsh_k50sv.Prelude.Errno.{enoent, enodev, eintr}
use android_device_xsh_k50sv.Prelude.Int.{ℤ, pos, negsuc}

abbrev pub node_attempts : ℕ
node_attempts = 200

-- The ioctls of the detector, but for WMT_GET_SOC_ID.
pub data Detector : Type 0 where
  set_chip_id module_cleanup module_init : Detector

pub data Action : Type 0 where
  open_node : ℕ → Action
  sleep : Action
  get_soc_id : Action
  publish_chip : List ℕ → Action
  request : Detector → ℕ → Action
  publish_ready : Action
  close_node : ℕ → Action

-- The two properties, what each attempt to open the node returns, the SoC id, which calls succeed.
pub record World : Type 0 where
  pub ready : List ℕ
  pub chip_property : List ℕ
  pub opens : ℕ → Result ℕ
  pub detected : ℤ
  pub sets_chip : Bool
  pub ioctl : ℕ → Bool
  pub sets_ready : Bool

abbrev pub supported_chip : ℕ → Bool
supported_chip chip = chip == 0x6755 || chip == 0x0326

-- isxdigit, and the value of the digit.
abbrev pub hex_value : ℕ → Option ℕ
hex_value c =
    if leb b'0' c && leb c b'9'
    then some (c - b'0')
    else if leb b'a' c && leb c b'f'
    then some (c - b'a' + 10)
    else if leb b'A' c && leb c b'F'
    then some (c - b'A' + 10)
    else none

abbrev pub is_hex_digit : List ℕ → Bool
is_hex_digit [] = false
is_hex_digit (c ∷ cs) = elim (hex_value c) [ none ↦ false | some v ↦ true ]

-- The number of the digits at the front, and what follows them.
unfoldable pub read_digits : ℕ → List ℕ → ℕ × List ℕ
read_digits acc [] = (acc, [])
read_digits acc (c ∷ cs) = elim (hex_value c) [
  | none ↦ (acc, c ∷ cs)
  | some v ↦ read_digits (acc * 16 + v) cs
]

-- strtoul with base 16, on a string that begins with a digit: 0x is a prefix if a digit follows.
unfoldable pub read_hex : List ℕ → ℕ × List ℕ
read_hex (z ∷ x ∷ cs) =
    if z == b'0' && (x == b'x' || x == b'X') && is_hex_digit cs
    then read_digits 0 cs
    else read_digits 0 (z ∷ x ∷ cs)
read_hex cs = read_digits 0 cs

abbrev pub accepted_chip : ℕ × List ℕ → Option ℕ
accepted_chip (parsed, []) =
    if ltb (2 ^ 32 - 1) parsed || not (supported_chip parsed) then none else some parsed
accepted_chip (parsed, c ∷ cs) = none

unfoldable pub cached_chip_id : List ℕ → Option ℕ
cached_chip_id value = if is_hex_digit value then accepted_chip (read_hex value) else none

abbrev pub hex_digit : ℕ → ℕ
hex_digit v = if ltb v 10 then b'0' + v else b'a' + (v - 10)

-- 0x%04x of a number of four digits
unfoldable pub printed_chip : ℕ → List ℕ
printed_chip chip =
    b'0'
    ∷ b'x'
    ∷ hex_digit (chip / 4096 % 16)
    ∷ hex_digit (chip / 256 % 16)
    ∷ hex_digit (chip / 16 % 16)
    ∷ hex_digit (chip % 16)
    ∷ []

abbrev pub is_retried : ℕ → Bool
is_retried e = e == enoent || e == enodev || e == eintr

-- The loop with `n` attempts left.
unfoldable pub open_from : World → ℕ → Option ℕ × List Action
open_from w zero = (none, [])
open_from w (suc n) =
    let (fd, rest) = open_from w n in
    elim (w.opens (node_attempts - suc n)) [
      | ok fd ↦ (some fd, open_node (node_attempts - suc n) ∷ [])
      | fail e ↦
          if is_retried e
          then (fd, open_node (node_attempts - suc n) ∷ (if n == 0 then rest else sleep ∷ rest))
          else (none, open_node (node_attempts - suc n) ∷ [])
    ]

abbrev pub open_detector : World → Option ℕ × List Action
open_detector w = open_from w node_attempts

abbrev pub init_chip : ℕ → ℕ
init_chip chip = if chip == 0x0326 then 0x6755 else chip

unfoldable pub initialize_driver : World → ℕ → Bool × List Action
initialize_driver w chip =
    if not (w.ioctl 0)
    then (false, request set_chip_id chip ∷ [])
    else if not (w.ioctl 1)
    then (false, request set_chip_id chip ∷ request module_cleanup (init_chip chip) ∷ [])
    else (
      w.ioctl 2,
      request set_chip_id chip
          ∷ request module_cleanup (init_chip chip)
          ∷ request module_init (init_chip chip)
          ∷ [],
    )

-- The chip that the detector names, published for the launcher.
abbrev pub detected_chip : World → ℤ → Option ℕ × List Action
detected_chip w (negsuc n) = (none, get_soc_id ∷ [])
detected_chip w (pos chip) =
    if supported_chip chip
    then (
      if w.sets_chip then some chip else none,
      get_soc_id ∷ publish_chip (printed_chip chip) ∷ [],
    )
    else (none, get_soc_id ∷ [])

unfoldable pub identified : World → Option ℕ × List Action
identified w = elim (cached_chip_id w.chip_property) [
  | some chip ↦ (some chip, [])
  | none ↦ detected_chip w w.detected
]

-- The exit status and the actions, from the driver's initialization to `out`.
unfoldable pub prepared : World → ℕ → ℕ × List Action
prepared w chip =
    let (initialized, requests) = initialize_driver w chip in
    if initialized
    then (if w.sets_ready then 0 else 1, requests ++ publish_ready ∷ [])
    else (1, requests)

unfoldable pub with_detector : World → ℕ → ℕ × List Action
with_detector w fd =
    let (chip, asked) = identified w in
    elim chip [
      | none ↦ (1, asked ++ close_node fd ∷ [])
      | some chip ↦
          let (status, done) = prepared w chip in (status, asked ++ (done ++ close_node fd ∷ []))
    ]

-- strcmp with "yes"
abbrev pub is_yes : List ℕ → Bool
is_yes (a ∷ b ∷ c ∷ []) = a == b'y' && b == b'e' && c == b's'
is_yes _ = false

unfoldable pub main : World → ℕ × List Action
main w =
    if is_yes w.ready
    then (0, [])
    else (let (fd, opened) = open_detector w in
        elim fd [
          | none ↦ (1, opened)
          | some fd ↦ let (status, done) = with_detector w fd in (status, opened ++ done)
        ])
