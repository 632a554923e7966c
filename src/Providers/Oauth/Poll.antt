-- ===== src/Providers/Oauth/Poll.antt =====
-- What one poll of the token endpoint concludes.
use zz_drop.Prelude.{
  ℕ, ◌≡◌, ◌≢◌, refl, sym, ap, subst, ◌∙◌, ◌⊎◌, Text, Bytes, codes, Option, none, some, ◌==◌,
  text_eq, text_eq_iff, ok, ok_or, arith, Bool-cases, Option-cases, inl, inr, ◌>>=◌, >>=-eq-ok,
}
use zz_drop.Providers.Oauth.{
  DeviceFlowError, TokenResponse, PollOutcome, Codecs, Reply, post_form, parse_oauth_error,
  error_of, poll_error, poll_answer, poll_once,
}

ok_or-ok :
    (o : Option TokenResponse) (t : TokenResponse)
    → ok_or DeviceFlowError.decode o ≡ ok t
    → o ≡ some t
ok_or-ok none t h = cc
ok_or-ok (some u) t h = ground arith

module _ (codecs : Codecs) where
  -- What each outcome says of the reply.
  abbrev pub Concludes : Reply → PollOutcome → Type 0
  Concludes reply (PollOutcome.tokens t) =
      (body : Bytes) × (reply ≡ Reply.answered 200 (some body))
      × (codecs.token_from_slice body ≡ some t)
  Concludes reply PollOutcome.pending =
      (status : ℕ) × (body : Bytes) × (reply ≡ Reply.answered status (some body))
      × (status ≢ 200)
      × (codecs.error_from_slice body ≡ some (codes "authorization_pending"))
  Concludes reply PollOutcome.slow_down =
      (status : ℕ) × (body : Bytes) × (reply ≡ Reply.answered status (some body))
      × (status ≢ 200)
      × (codecs.error_from_slice body ≡ some (codes "slow_down"))

  poll_error-other :
      (e : DeviceFlowError) (outcome : PollOutcome)
      → poll_error codecs e ≡ ok outcome
      → ((e ≡ DeviceFlowError.other (codes "authorization_pending"))
          × (outcome ≡ PollOutcome.pending))
        ⊎ ((e ≡ DeviceFlowError.other (codes "slow_down")) × (outcome ≡ PollOutcome.slow_down))
  unfolding poll_error
  poll_error-other (DeviceFlowError.other code) outcome h =
      elim (Bool-cases (text_eq code (codes "authorization_pending"))) [
        | inl wait ↦
            let is = (text_eq_iff code (codes "authorization_pending")).0 wait in
            inl (ap DeviceFlowError.other is, ground arith)
        | inr no_wait ↦ elim (Bool-cases (text_eq code (codes "slow_down"))) [
          | inl slow ↦
              let is = (text_eq_iff code (codes "slow_down")).0 slow in
              inr (ap DeviceFlowError.other is, ground arith)
          | inr no_slow ↦ ground arith
        ]
      ]
  poll_error-other _ outcome h = cc

  error_of-other :
      (code last : Text) → error_of codecs code ≡ DeviceFlowError.other last → code ≡ last
  unfolding error_of
  error_of-other code last h = ground arith

  parse_oauth_error-other :
      (status : ℕ) (body : Bytes) (code : Text)
      → parse_oauth_error codecs status body ≡ DeviceFlowError.other code
      → codecs.error_from_slice body ≡ some code
  unfolding parse_oauth_error
  parse_oauth_error-other status body code h = elim (Option-cases (codecs.error_from_slice body)) [
    | inl nothing ↦ ground arith
    | inr (first, read) ↦ read ∙ ap some (error_of-other first code (ground arith))
  ]

  poll_error-ok :
      (status : ℕ) (body : Bytes) (outcome : PollOutcome)
      → status ≢ 200
      → poll_error codecs (parse_oauth_error codecs status body) ≡ ok outcome
      → Concludes (Reply.answered status (some body)) outcome
  poll_error-ok status body outcome other h =
      elim (poll_error-other (parse_oauth_error codecs status body) outcome h) [
        | inl (wait, is) ↦
            subst (Concludes (Reply.answered status (some body))) (sym is)
              (status, body, refl, other, parse_oauth_error-other status body _ wait)
        | inr (slow, is) ↦
            subst (Concludes (Reply.answered status (some body))) (sym is)
              (status, body, refl, other, parse_oauth_error-other status body _ slow)
      ]

  poll_answer-ok :
      (status : ℕ) (body : Bytes) (outcome : PollOutcome)
      → poll_answer codecs (status, body) ≡ ok outcome
      → Concludes (Reply.answered status (some body)) outcome
  unfolding poll_answer
  poll_answer-ok status body outcome h = elim (Bool-cases (status == 200)) [
    | inr other ↦ poll_error-ok status body outcome (ground arith) (ground arith)
    | inl done ↦
        let chain : (ok_or DeviceFlowError.decode (codecs.token_from_slice body) >>= λ t.
        ok (PollOutcome.tokens t))
            ≡ ok outcome =
          ground arith in
        let (t, read, is) =
          >>=-eq-ok (ok_or DeviceFlowError.decode (codecs.token_from_slice body)) _ chain in
        let ok_status : status ≡ 200 = ground arith in
        let is_tokens : PollOutcome.tokens t ≡ outcome = ground arith in
        subst (Concludes (Reply.answered status (some body))) is_tokens (
          body,
          ap (λ s. Reply.answered s (some body)) ok_status,
          ok_or-ok (codecs.token_from_slice body) t read,
        )
  ]

  -- A poll that yields tokens had an answer with status 200 whose body decodes to them; one that is
  -- pending or asks to slow down had another status, and a body that says so.
  pub poll_once-Concludes :
      (reply : Reply) (outcome : PollOutcome)
      → poll_once codecs reply ≡ ok outcome
      → Concludes reply outcome
  unfolding poll_once post_form
  poll_once-Concludes Reply.not_built outcome h = cc
  poll_once-Concludes (Reply.failed hint) outcome h = cc
  poll_once-Concludes (Reply.answered status none) outcome h = cc
  poll_once-Concludes (Reply.answered status (some body)) outcome h =
      poll_answer-ok status body outcome h
