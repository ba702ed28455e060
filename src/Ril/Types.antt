-- ===== src/Ril/Types.antt =====
-- What ril-shim/k50sv1_ril_shim.c takes from telephony/ril.h, and its own request payload.
use Prim.Native.String.{String}
use android_device_xsh_k50sv.Prelude.{ℕ, Option, none, some, ltb, if◌then◌else◌}
use android_device_xsh_k50sv.Prelude.Int.{ℤ, pos, negsuc}

-- The names of ril.h; `other` is any number that it gives to nothing here.
pub data Request : Type 0 where
  get_radio_capability set_radio_capability set_initial_attach_apn : Request
  other : ℤ → Request

pub data Phase : Type 0 where
  configured start apply unsol_rsp finish : Phase
  unknown : ℤ → Phase

pub data Status : Type 0 where
  nothing succeeded failed : Status
  unknown : ℤ → Status

pub data RilErrno : Type 0 where
  success invalid_arguments : RilErrno
  other : ℤ → RilErrno

-- RIL_RadioCapability. `rat` holds the radio access families.
pub record Capability : Type 0 where
  pub version : ℤ
  pub session : ℤ
  pub phase : Phase
  pub rat : ℕ
  pub uuid : String
  pub status : Status

-- MtkInitialAttachApn: a `char *` member is `none` when it is NULL.
pub record AttachApn : Type 0 where
  pub apn : Option String
  pub protocol : Option String
  pub roaming_protocol : Option String
  pub authtype : ℤ
  pub username : Option String
  pub password : Option String
  pub supported_types_bitmask : ℤ
  pub bearer_bitmask : ℤ
  pub modem_cognitive : ℤ
  pub mtu : ℤ
  pub mvno_type : Option String
  pub mvno_match_data : Option String
  pub can_handle_ims : ℤ

-- The bytes behind a `void *data`, by the two structures that the shim may read there.
pub record Payload : Type 0 where
  pub as_capability : Capability
  pub as_attach_apn : AttachApn

-- sizeof, as the source asserts.
abbrev pub capability_size : ℕ
capability_size = 84

abbrev pub attach_apn_size : ℕ
attach_apn_size = 88

-- Set by Android.bp.
abbrev pub sim_count : ℕ
sim_count = 2

-- A socket id as an array index, if it is one.
abbrev pub index_of : ℤ → Option ℕ
index_of (pos n) = if ltb n sim_count then some n else none
index_of (negsuc n) = none
