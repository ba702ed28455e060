-- ===== src/Wmt/Firmware/Directory.antt =====
-- wmt-launcher/firmware.c: search_directory. A directory is the list of what readdir returns, with what
-- the calls on each entry return; an errno of 0 stands for a call that succeeds.
use android_device_xsh_k50sv.Prelude.{
  ℕ, Bool, List, [], ◌∷◌, ◌==◌, not, if◌then◌else◌, Result, ok, fail, ◌>>=◌,
}
use android_device_xsh_k50sv.Prelude.Errno.{einval}
use android_device_xsh_k50sv.Prelude.CStrings.{starts_with}
use android_device_xsh_k50sv.Wmt.Firmware.Files.{File}

-- struct stat: `is_regular` is S_ISREG of the mode.
pub record Status : Type 0 where
  pub is_regular : Bool
  pub size : ℕ

-- What openat, fstat and close return for an entry.
pub record Entry : Type 0 where
  pub name : List ℕ
  pub opened : Result File
  pub status : Result Status
  pub closed : ℕ

-- What opendir and closedir return, and errno when readdir has no more entries.
pub record Directory : Type 0 where
  pub opened : ℕ
  pub entries : List Entry
  pub ended : ℕ
  pub closed : ℕ

-- `if (close(...) < 0 && !error) error = -errno`
abbrev pub closing {ℓ} : {A : Type ℓ} → ℕ → Result A → Result A
closing errno (ok a) = if errno == 0 then ok a else fail errno
closing errno (fail e) = fail e

-- The function `consume` takes the search's result so far and returns it with the file added. What a
-- failing one has added is dropped, as both searches do with the result of a failed one.
module _ {ℓ} {S : Type ℓ} (consume : File → Status → List ℕ → ℕ → S → Result S) (prefix : List ℕ)
    (firmware : ℕ) where
  abbrev pub consume_entry : Entry → S → File → Result S
  consume_entry e s f = e.status >>= λ status.
      if not status.is_regular then fail einval else consume f status e.name firmware s

  -- The round of an entry whose name has the prefix.
  unfoldable pub candidate : Entry → S → Result S
  candidate e s = e.opened >>= λ f. closing e.closed (consume_entry e s f)

  -- One round of the loop.
  abbrev pub visit : Entry → S → Result S
  visit e s = if starts_with prefix e.name then candidate e s else ok s

  unfoldable pub search_entries : List Entry → ℕ → S → Result S
  search_entries [] ended s = if ended == 0 then ok s else fail ended
  search_entries (e ∷ es) ended s = visit e s >>= λ t. search_entries es ended t

  unfoldable pub search_directory : Directory → S → Result S
  search_directory d s =
      if d.opened == 0 then closing d.closed (search_entries d.entries d.ended s) else fail d.opened
