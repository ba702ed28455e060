-- ===== src/Wmt/Launcher/Replies.antt =====
-- wmt-launcher/main.c, handle_command: which frame is written for which outcome of the search, and when properties are set.
use android_device_xsh_k50sv.Prelude.{
  ℕ, zero, suc, ◌+◌, ◌*◌, ◌≤◌, ◌<◌, ◌≡◌, ◌⊎◌, inl, inr, refl, ap, sym, ◌∙◌, subst, some, none, List,
  [], ◌∷◌, ◌++◌, arith, Result, ok, fail, ltb, length, take, drop, replicate, All, length-append,
  length-replicate, take-append,
}
use android_device_xsh_k50sv.Prelude.Errno.{einval}
use android_device_xsh_k50sv.Wmt.Protocol.{
  is_no_status, WmtCommand, WmtRecord, Kind, status, kind_number, reply_list,
}
use android_device_xsh_k50sv.Wmt.Protocol.Reply.{
  IsSized, header_bytes, record_bytes, records_bytes, length-record_bytes, list_bytes,
  reply_status_cases,
}
use android_device_xsh_k50sv.Wmt.Protocol.Frames.{IsReply, reply_list_cases}
use android_device_xsh_k50sv.Wmt.Launcher.Commands.{
  Write, Surroundings, Publication, Metadata, Answer, Handled, negated, status_answer, list_answer,
  answer, frame_of, published_by, send_frame, deliver_answer, collect, handle_command,
}
use android_device_xsh_k50sv.Wmt.Launcher.Described.{Collects, send_frame-Delivers}
use android_device_xsh_k50sv.Wmt.Launcher.Outcomes.{collect-Collects, Sends}
use android_device_xsh_k50sv.Wmt.Launcher.Sources.{IsName, IsAccepted}
use android_device_xsh_k50sv.Wmt.Launcher.Accepted.{collect-IsAccepted}

length-records_bytes :
    (rs : List WmtRecord) → All IsSized rs → length (records_bytes rs) ≡ length rs * 264
length-records_bytes [] h = refl
length-records_bytes (r ∷ rs) (sized, rest) = omega (
  arith,
  length-append (record_bytes r) (records_bytes rs),
  length-record_bytes r sized,
  length-records_bytes rs rest,
)

length-list_bytes :
    (c : WmtCommand) (kind : Kind) (rs : List WmtRecord)
    → All IsSized rs
    → length (list_bytes c kind rs (length rs)) ≡ 40 + length rs * 264
length-list_bytes c kind rs sized = omega (arith, length-records_bytes rs sized)

-- What was done if these bytes are the frame: its write decides what is returned and published.
abbrev sent : List Write → List ℕ → Result (List Publication) → Handled
sent writes bytes result = record {
  returned = send_frame writes (length bytes);
  frame = some bytes;
  published = elim (send_frame writes (length bytes)) [ fail e ↦ [] | ok _ ↦ published_by result ];
}

send_frame-zero : (writes : List Write) (size n : ℕ) → send_frame writes size ≡ ok n → n ≡ 0
unfolding send_frame
send_frame-zero [] size n h = ground arith
send_frame-zero (w ∷ ws) size n h = ground (arith, send_frame-zero ws size n)

deliver_answer-sent :
    (writes : List Write) (a : Answer) (bytes rest : List ℕ)
    → a.size ≡ ok (length bytes)
    → a.frame ≡ bytes ++ rest
    → deliver_answer writes a ≡ sent writes bytes a.result
unfolding deliver_answer
deliver_answer-sent writes a bytes rest size frame =
    rw (deliver_answer, size)
      (by_write (send_frame writes (length bytes)) refl (take (length bytes) a.frame)
        (ap (take (length bytes)) frame ∙ take-append bytes rest))
  where
    by_write :
        (r : Result ℕ)
        → send_frame writes (length bytes) ≡ r
        → (taken : List ℕ) → taken ≡ bytes
        → ◌≡◌ {A = Handled}
            (elim r as (λ _. Handled) [
              | fail e ↦ record { returned = fail e; frame = some taken; published = [] }
              | ok _ ↦ record {
                returned = ok 0;
                frame = some taken;
                published = published_by a.result;
              }
            ])
            (record {
              returned = r;
              frame = some bytes;
              published = elim r as (λ _. List Publication) [
                | fail e ↦ []
                | ok _ ↦ published_by a.result
              ];
            })
    by_write (fail e) p taken same = rw same
    by_write (ok n) p taken same =
        let z : n ≡ 0 = send_frame-zero writes (length bytes) n p in rw (z, same)

-- The errno of a failed command goes into a status reply, if it is one.
status_answer-sent :
    (c : WmtCommand) (e : ℕ) (frame : List ℕ) (writes : List Write)
    → 0 < c.session
    → 0 < c.transaction
    → 32 ≤ length frame
    → ((e ≤ 4095)
        × (deliver_answer writes (status_answer c e frame)
            ≡ sent writes (header_bytes c (kind_number status) 0 (negated e)) (fail e)))
      ⊎ ((4095 < e)
          × (deliver_answer writes (status_answer c e frame)
              ≡ record { returned = fail einval; frame = none; published = [] }))
status_answer-sent c e frame writes some_session some_transaction room =
    elim (reply_status_cases c (negated e) frame) [
      | inl (is, _, _, good, _) ↦ inl (
        ground (arith, status_error e),
        rw is (
            deliver_answer-sent writes _ (header_bytes c (kind_number status) 0 (negated e))
              (drop 32 frame) refl refl),
      )
      | inr (inl (is, short)) ↦ absurd (omega arith)
      | inr (inr (is, bad)) ↦
          inr (ground (arith, status_error e), rw is (refused (frame_of (some frame))))
    ]
  where
    refused :
        (written : List ℕ)
        → deliver_answer writes (record { size = fail einval; frame = written; result = fail e })
          ≡ record { returned = fail einval; frame = none; published = [] }
    refused written = unfold deliver_answer in refl

    status_error : (e : ℕ) → is_no_status (negated e) ≡ ltb 4095 e
    status_error zero = refl
    status_error (suc n) = ground arith

list_answer-sent :
    (c : WmtCommand) (m : Metadata) (frame : List ℕ) (writes : List Write)
    → length frame ≡ 2680
    → IsAccepted c m.kind m.records
    → deliver_answer writes (
        list_answer c m.publications
          (reply_list (some c) m.kind (some m.records) (length m.records) (some frame)))
      ≡ sent writes (list_bytes c m.kind m.records (length m.records)) (ok m.publications)
list_answer-sent c m frame writes full a =
    elim (reply_list_cases c m.kind m.records frame a.sized) [
      | inl (reply, is) ↦ rw is (
          deliver_answer-sent writes _ (list_bytes c m.kind m.records (length m.records))
            (drop (40 + length m.records * 264) frame)
            (ap ok (sym (length-list_bytes c m.kind m.records a.sized))) refl)
      | inr (not_reply, e, is) ↦
          absurd (not_reply (subst (IsReply c m.kind m.records) (sym full) a.reply))
    ]

-- The first frame buffer of handle_command, which is not computed with.
buffer-length : length (replicate {A = ℕ} 2680 0) ≡ 2680
buffer-length = length-replicate {A = ℕ} 2680 0

sent-Sends :
    (writes : List Write) (bytes : List ℕ) (result : Result (List Publication))
    → Sends writes bytes (published_by result) (sent writes bytes result)
sent-Sends writes bytes result = record {
  delivers = send_frame-Delivers writes (length bytes);
  frame = refl;
  published = λ e. let q : send_frame writes (length bytes) ≡ ok 0 = e in rw (sent, q) refl;
  silent = λ x e. let q : send_frame writes (length bytes) ≡ fail x = e in rw (sent, q) refl;
}

-- handle_command for a command with a session and a transaction, as the decoder gives them, and a directory
-- whose names are C strings. What it collects is the list of the patches or ROMs that the search found, with
-- the version of the first patch or the versions that the ROMs have to be published, or the first error:
-- another text, a failing or unsupported chip, a version of more than 16 bits, or that of the search. It
-- writes one frame, which carries session and transaction: the list, which wmt_reply_list never
-- refuses, or a status with the errno. It returns what the write comes to: 0 if all bytes were written, -EPROTO
-- if not, the errno of a failed write, where EINTR is tried again unless a stop is requested. It sets those
-- properties if the list was written whole, and none otherwise. Only if the errno is over 4095 nothing is
-- written, and -EINVAL returned.
pub handle_command_cases :
    (w : Surroundings) (d : ℕ) (ds : List ℕ) (c : WmtCommand)
    → 0 < c.session
    → 0 < c.transaction
    → All IsName (w.directories (d ∷ ds)).entries
    → ((m : Metadata) × Collects w (d ∷ ds) c (ok m)
        × IsReply c m.kind m.records 2680
        × Sends w.writes
            (list_bytes c m.kind m.records (length m.records))
            m.publications
            (handle_command w (d ∷ ds) c))
      ⊎ ((e : ℕ) × Collects w (d ∷ ds) c (fail e)
          × ((e ≤ 4095)
                × Sends w.writes
                    (header_bytes c (kind_number status) 0 (negated e))
                    []
                    (handle_command w (d ∷ ds) c)
              ⊎ (4095 < e)
                × (handle_command w (d ∷ ds) c
                    ≡ record { returned = fail einval; frame = none; published = [] })))
unfolding handle_command answer
handle_command_cases w d ds c some_session some_transaction names =
    by_outcome (collect w (d ∷ ds) c) refl (collect-Collects w (d ∷ ds) c)
  where
    by_outcome :
        (r : Result Metadata)
        → collect w (d ∷ ds) c ≡ r
        → Collects w (d ∷ ds) c r
        → ((m : Metadata) × Collects w (d ∷ ds) c (ok m)
            × IsReply c m.kind m.records 2680
            × Sends w.writes
                (list_bytes c m.kind m.records (length m.records))
                m.publications
                (deliver_answer w.writes (answer c r)))
          ⊎ ((e : ℕ) × Collects w (d ∷ ds) c (fail e)
              × ((e ≤ 4095)
                    × Sends w.writes
                        (header_bytes c (kind_number status) 0 (negated e))
                        []
                        (deliver_answer w.writes (answer c r))
                  ⊎ (4095 < e)
                    × (deliver_answer w.writes (answer c r)
                        ≡ record { returned = fail einval; frame = none; published = [] })))
    by_outcome (ok m) e collects =
        let a = collect-IsAccepted c some_session some_transaction w d ds m names e in
        let bytes = list_bytes c m.kind m.records (length m.records) in
        inl (
          m,
          collects,
          a.reply,
          subst (Sends w.writes bytes m.publications)
              (sym (list_answer-sent c m (replicate 2680 0) w.writes buffer-length a))
              (sent-Sends w.writes bytes (ok m.publications)),
        )
    by_outcome (fail e) _ collects =
        elim (status_answer-sent c e (replicate 2680 0) w.writes some_session some_transaction
          (omega (arith, buffer-length))) [
            | inl (small, is) ↦ inr (
              e,
              collects,
              inl (
                small,
                subst (Sends w.writes (header_bytes c (kind_number status) 0 (negated e)) [])
                    (sym is)
                    (sent-Sends w.writes (header_bytes c (kind_number status) 0 (negated e))
                      (fail e)),
              ),
            )
            | inr (large, is) ↦ inr (e, collects, inr (large, is))
          ]
