-- ===== src/Wmt/Firmware/Files.antt =====
-- wmt-launcher/firmware.c: reading an open file. A read(2) may be short or fail; what each call does is a
-- list in the file, and the calls behind its end give all the bytes that they ask for, as far as there are any.
use android_device_xsh_k50sv.Prelude.{
  ℕ, zero, suc, ◌+◌, ◌-◌, Bool, true, false, Option, none, some, List, [], ◌∷◌, ◌++◌, ltb, ◌==◌,
  if◌then◌else◌, Result, ok, fail, length, take, drop,
}
use android_device_xsh_k50sv.Prelude.Errno.{eintr, emsgsize}

-- What one read does: it gives at most n + 1 bytes, or it fails.
pub data Read : Type 0 where
  gives : ℕ → Read
  fails : ℕ → Read

-- An open file: its bytes, those behind the offset, the reads to come, whether lseek and malloc work.
pub record File : Type 0 where
  pub content : List ℕ
  pub rest : List ℕ
  pub reads : List Read
  pub seeks : Result ℕ
  pub allocates : Bool

abbrev advanced : File → List Read → ℕ → Result (List ℕ) × File
advanced f reads n = (ok (take n f.rest), record f { rest = drop n f.rest; reads = reads })

abbrev read_next : File → ℕ → List Read → Result (List ℕ) × File
read_next f size [] = advanced f [] size
read_next f size (gives n ∷ reads) = advanced f reads (if ltb (suc n) size then suc n else size)
read_next f size (fails e ∷ reads) = (fail e, record f { reads = reads })

-- `read(fd, position, size)`
abbrev pub read : File → ℕ → Result (List ℕ) × File
read f size = read_next f size f.reads

-- The loop of read_exact, with the bytes read so far; `none` means that the fuel ran out.
unfoldable pub read_loop : ℕ → File → ℕ → List ℕ → Option (Result (List ℕ) × File)
read_loop zero f size done = none
read_loop (suc fuel) f size done =
    let (got, g) = read f size in
    elim (size == 0) [
      | true ↦ some (ok done, f)
      | false ↦ elim got [
        | fail e ↦ elim (e == eintr) [
          | true ↦ read_loop fuel g size done
          | false ↦ some (fail e, g)
        ]
        | ok bytes ↦ elim (length bytes == 0) [
          | true ↦ some (fail emsgsize, g)
          | false ↦ read_loop fuel g (size - length bytes) (done ++ bytes)
        ]
      ]
    ]

-- The fuel that is enough: a round for each listed read, and three more.
abbrev pub rounds : File → ℕ
rounds f = length f.reads + 3

abbrev pub run_of : Option (Result (List ℕ) × File) → File → Result (List ℕ) × File
run_of (some r) f = r
run_of none f = (fail eintr, f)

-- The bytes that the call stores, or the error that it returns.
unfoldable pub read_exact : File → ℕ → Result (List ℕ) × File
read_exact f size = run_of (read_loop (rounds f) f size []) f

-- The loop of read_bt_version around its last read, of one byte: how many bytes that gives.
unfoldable pub read_extra : List Read → List ℕ → Result ℕ
read_extra [] rest = ok (length (take 1 rest))
read_extra (gives n ∷ reads) rest = ok (length (take 1 rest))
read_extra (fails e ∷ reads) rest =
    let again = read_extra reads rest in if e == eintr then again else fail e
