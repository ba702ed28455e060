-- ===== src/Prelude/Errno.antt =====
-- The numbers of Linux's errno.h that the sources use.
use Prim.Native.Nat.{ℕ}

abbrev pub eperm : ℕ
eperm = 1

abbrev pub enoent : ℕ
enoent = 2

abbrev pub e2big : ℕ
e2big = 7

abbrev pub eexist : ℕ
eexist = 17

abbrev pub einval : ℕ
einval = 22

abbrev pub enodata : ℕ
enodata = 61

abbrev pub eproto : ℕ
eproto = 71

abbrev pub emsgsize : ℕ
emsgsize = 90

abbrev pub eprotonosupport : ℕ
eprotonosupport = 93

abbrev pub estale : ℕ
estale = 116

abbrev pub enodev : ℕ
enodev = 19

abbrev pub eintr : ℕ
eintr = 4

abbrev pub eio : ℕ
eio = 5

abbrev pub eagain : ℕ
eagain = 11

abbrev pub enomem : ℕ
enomem = 12

abbrev pub efbig : ℕ
efbig = 27

abbrev pub erange : ℕ
erange = 34

abbrev pub ebadmsg : ℕ
ebadmsg = 74

abbrev pub eopnotsupp : ℕ
eopnotsupp = 95

abbrev pub etimedout : ℕ
etimedout = 110

abbrev pub ecanceled : ℕ
ecanceled = 125
