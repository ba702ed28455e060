-- ===== src/Ril/Recovery/Tokens.antt =====
-- The worker's requests over time: their tokens.
use android_device_xsh_k50sv.Prelude.{
  ℕ, ◌≡◌, ◌≢◌, sym, ◌∙◌, subst, true, false, List, get_or, arith, All, get_or-set_self,
}
use android_device_xsh_k50sv.Ril.Types.{AttachApn}
use android_device_xsh_k50sv.Ril.Attach.Tokens.{token_at-injective}
use android_device_xsh_k50sv.Ril.Worker.{look, sending, Readings}
use android_device_xsh_k50sv.Ril.Recovery.{System, Event, work, step, run}
use android_device_xsh_k50sv.Ril.Recovery.Invariant.{IsValid}
use android_device_xsh_k50sv.Ril.Recovery.Steps.{step-IsValid}
use android_device_xsh_k50sv.Ril.Recovery.Replays.{
  charge-keeps, NotCompletes, run-outstanding, Sends, step-Sends,
}

-- A request that has gone out holds its token.
pub Sends-outstanding :
    (base : ℕ) (r : Readings) (s after : System) (apn : AttachApn) (t socket : ℕ)
    → IsValid s.attach
    → (sent : Sends base r s after apn t socket)
    → get_or after.attach.outstanding sent.token false ≡ true
Sends-outstanding base r s after apn t socket v sent =
    rw (sent.state, (charge-keeps r.charged_at _).0)
      (get_or-set_self s.attach.outstanding sent.token true false
        (ground (arith, v.tokens_sized, sent.in_range)))

-- No token is used twice: after the worker has issued a request with a token, and for as long as no
-- completion of that token has arrived, whatever else has happened, it issues no request with that token.
pub token_not_reused :
    (base : ℕ) (r r' : Readings) (es : List Event) (s : System) (apn apn' : AttachApn)
    (t t' socket socket' : ℕ)
    → IsValid s.attach
    → s.point ≡ look
    → (step base (work r) s).point ≡ sending apn t socket
    → All (NotCompletes t) es
    → (run base es (step base (work r) s)).point ≡ look
    → (step base (work r') (run base es (step base (work r) s))).point ≡ sending apn' t' socket'
    → t' ≢ t
token_not_reused base r r' es s apn apn' t t' socket socket' v at e quiet at' e' same =
    let first = step-Sends base r s apn t socket at e in
    let second = step-Sends base r' (run base es (step base (work r) s)) apn' t' socket' at' e' in
    let valid = step-IsValid base (work r) s v in
    let one_token : second.token ≡ first.token =
      token_at-injective base second.token first.token second.in_range first.in_range
        (sym second.at ∙ same ∙ first.at) in
    let held =
      run-outstanding base first.token es (step base (work r) s) first.in_range valid
        (subst (λ u. All (NotCompletes u) es) first.at quiet)
        (Sends-outstanding base r s (step base (work r) s) apn t socket v first) in
    let was =
      subst (λ k. get_or (run base es (step base (work r) s)).attach.outstanding k false ≡ false)
        one_token second.was_free in
    absurd (cc (sym was ∙ held))
