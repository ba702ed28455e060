-- ===== src/Wmt/Protocol/Tests.antt =====
-- Runs of wmt-launcher/protocol.c: a command `go` of session 5, and a list of one patch `p`.
use android_device_xsh_k50sv.Prelude.{
  ℕ, ◌<◌, ◌≤◌, ◌≡◌, refl, true, false, List, [], ◌∷◌, ◌++◌, some, ok, fail, arith, length,
  replicate, drop, All, ◌⊎◌, inl, inr, ap, ◌↔◌,
}
use android_device_xsh_k50sv.Prelude.Int.{negsuc}
use android_device_xsh_k50sv.Prelude.Errno.{einval, emsgsize}
use android_device_xsh_k50sv.Prelude.Bytes.{IsByte}
use android_device_xsh_k50sv.Prelude.CStrings.{contains, padded}
use android_device_xsh_k50sv.Prelude.CStrings.{chars}
use android_device_xsh_k50sv.Wmt.Protocol.{
  WmtRecord, decode, patch_list, status, kind_number, reply_status, reply_list, is_no_status,
}
use android_device_xsh_k50sv.Wmt.Protocol.Decode.{encode_command, IsCommand, command_of, decode_iff}
use android_device_xsh_k50sv.Wmt.Protocol.Reply.{
  IsSized, list_bytes, header_bytes, reply_status_cases,
}
use android_device_xsh_k50sv.Wmt.Protocol.Lists.{has_index}
use android_device_xsh_k50sv.Wmt.Protocol.Frames.{IsReply, reply_list_cases, patch_list_complete}

abbrev go : List ℕ
go = 103 ∷ 111 ∷ []

go-IsCommand : IsCommand 5 9 go
unfolding contains
go-IsCommand = record {
  some_session = omega arith;
  session_fits = omega arith;
  some_transaction = omega arith;
  transaction_fits = omega arith;
  some_text = omega arith;
  text_fits = omega arith;
  no_nul = refl;
}

go-IsByte : All IsByte (encode_command 5 9 go)
go-IsByte = ground arith

decode_iff_example : (decode (encode_command 5 9 go) 5 ≡ ok (command_of 5 9 go)) ↔ (
    (text : List ℕ) × IsCommand 5 9 text
    × (encode_command 5 9 go ≡ encode_command 5 9 text)
    × (command_of 5 9 go ≡ command_of 5 9 text))
decode_iff_example =
    decode_iff (encode_command 5 9 go) 5 (command_of 5 9 go) go-IsByte (omega arith)

abbrev frame : List ℕ
frame = replicate 304 0

reply_status_cases_example :
    ((reply_status (some (command_of 5 9 go)) (negsuc 21) (some frame) ≡ (
      ok 32,
      some (header_bytes (command_of 5 9 go) (kind_number status) 0 (negsuc 21) ++ drop 32 frame),
    ))
      × (0 < 5)
      × (0 < 9)
      × (is_no_status (negsuc 21) ≡ false)
      × (32 ≤ length frame))
    ⊎ ((reply_status (some (command_of 5 9 go)) (negsuc 21) (some frame)
          ≡ (fail emsgsize, some frame))
        × (length frame < 32))
    ⊎ ((reply_status (some (command_of 5 9 go)) (negsuc 21) (some frame)
          ≡ (fail einval, some frame))
        × ((◌≡◌ {A = ℕ} 5 0) ⊎ (◌≡◌ {A = ℕ} 9 0) ⊎ (is_no_status (negsuc 21) ≡ true)))
reply_status_cases_example = reply_status_cases (command_of 5 9 go) (negsuc 21) frame

abbrev patches : List WmtRecord
patches = record { index = 1; address = 0 ∷ 1 ∷ 2 ∷ 3 ∷ []; name = padded 256 (112 ∷ []) } ∷ []

patches-IsSized : All IsSized patches
unfolding padded chars
patches-IsSized = (record { address_size = refl; name_fits = omega arith }, tt)

patches-IsReply : IsReply (command_of 5 9 go) patch_list patches 304
unfolding padded contains chars
patches-IsReply = record {
  some_session = omega arith;
  some_transaction = omega arith;
  in_limit = (omega arith, omega arith);
  fits = omega arith;
  listed = (((omega arith, omega arith), refl), tt);
  distinct = (tt, tt);
}

reply_list_cases_example :
    (IsReply (command_of 5 9 go) patch_list patches 304
      × (reply_list (some (command_of 5 9 go)) patch_list (some patches) 1 (some frame)
          ≡ (ok 304, some (list_bytes (command_of 5 9 go) patch_list patches 1 ++ drop 304 frame))))
    ⊎ (¬ IsReply (command_of 5 9 go) patch_list patches 304
        × (e : ℕ) × (reply_list (some (command_of 5 9 go)) patch_list (some patches) 1 (some frame)
            ≡ (fail e, some frame)))
reply_list_cases_example =
    reply_list_cases (command_of 5 9 go) patch_list patches frame patches-IsSized

sent_size :
    (reply_list (some (command_of 5 9 go)) patch_list (some patches) 1 (some frame)).0 ≡ ok 304
sent_size = elim reply_list_cases_example [
  | inl sent ↦ ap (λ r. r.0) sent.1
  | inr refused ↦ absurd (refused.0 patches-IsReply)
]

patch_list_complete_example : has_index patches 1 ≡ true
patch_list_complete_example =
    patch_list_complete (command_of 5 9 go) patches frame 304 0 sent_size (omega arith)
