-- ===== src/Tui/DriveSetup/Ends.antt =====
-- The wait for the user ends with the device code.
use zz_drop.Prelude.{
  ℕ, ◌≡◌, refl, sym, ◌≤◌, ◌<◌, true, false, ◌&&◌, List, some, [], ◌∷◌, Result, ok, err, arith,
  Bool-cases, inl, inr, ltb, leb, subst, Text,
}
use zz_drop.Providers.Oauth.{Codecs, PollOutcome, DeviceFlowError, poll_once}
use zz_drop.Tui.DriveSetup.{
  App, Round, is_polling, round, poll_round, email_round, poll_result, email_result, interval_over,
  apply_gdrive_failed, apply_gdrive_tokens, apply_gdrive_email, bump_gdrive_interval,
}

-- No new code is asked for, and a code that is waited for expires at `deadline`.
abbrev pub Waiting : ℕ → App → Type 0
Waiting deadline app =
    (app.request_init ≡ false)
    × (is_polling app.setup.stage ≡ true → app.setup.expires_at ≡ deadline)

-- The interface does not wait for the user.
abbrev pub Ended : App → Type 0
Ended app = is_polling app.setup.stage ≡ false

module _ (codecs : Codecs) where
  unfoldable pub rounds : List Round → App → App
  rounds [] app = app
  rounds (r ∷ rs) app = rounds rs (round codecs r app)

  poll_result-Waiting :
      (deadline : ℕ) (r : Round) (app : App) (answer : Result DeviceFlowError PollOutcome)
      → Waiting deadline app
      → Waiting deadline (poll_result codecs r app answer)
  unfolding apply_gdrive_failed bump_gdrive_interval apply_gdrive_tokens
  poll_result-Waiting d r app (ok PollOutcome.pending) w = w
  poll_result-Waiting d r app (ok PollOutcome.slow_down) w = w
  poll_result-Waiting d r app (ok (PollOutcome.tokens t)) w = (w.0, λ h. cc)
  poll_result-Waiting d r app (err e) w = (refl, λ h. cc)

  email_result-Waiting :
      (deadline : ℕ) (app : App) (answer : Result Text Text)
      → app.request_init ≡ false
      → Waiting deadline (email_result codecs app answer)
        × (is_polling (email_result codecs app answer).setup.stage ≡ false)
  unfolding apply_gdrive_failed apply_gdrive_email
  email_result-Waiting d app (ok email) h = ((h, λ p. cc), refl)
  email_result-Waiting d app (err e) h = ((refl, λ p. cc), refl)

  -- Which block a round runs, where no new code is asked for.
  module _ (r : Round) (app : App) (quiet : app.request_init ≡ false) where
    pub round-email : app.request_email ≡ true → round codecs r app ≡ email_round codecs r app
    unfolding round
    round-email email = rw (quiet, email, round) refl

    pub round-poll :
        app.request_email ≡ false
        → is_polling app.setup.stage ≡ true
        → round codecs r app ≡ poll_round codecs r app
    unfolding round
    round-poll email waits = rw (quiet, email, waits, round) refl

    pub round-idle :
        app.request_email ≡ false → is_polling app.setup.stage ≡ false → round codecs r app ≡ app
    unfolding round
    round-idle email idle = rw (quiet, email, idle, round) refl

  email_round-Waiting :
      (deadline : ℕ) (r : Round) (app : App)
      → app.request_init ≡ false
      → Waiting deadline (email_round codecs r app)
        × (is_polling (email_round codecs r app).setup.stage ≡ false)
  unfolding email_round
  email_round-Waiting d r app h =
      email_result-Waiting d (record app { request_email = false }) r.email h

  poll_round-Waiting :
      (deadline : ℕ) (r : Round) (app : App)
      → Waiting deadline app
      → Waiting deadline (poll_round codecs r app)
  unfolding poll_round apply_gdrive_failed
  poll_round-Waiting d r app w =
      elim (Bool-cases (ltb 0 app.setup.expires_at && leb app.setup.expires_at r.now_secs)) [
        | inl over ↦ rw (over, poll_round) (refl, λ h. cc)
        | inr early ↦
            elim (Bool-cases
              (interval_over app.setup.interval_secs r.instant app.last_gdrive_poll)) [
                | inr soon ↦ rw (early, soon, poll_round) w
                | inl due ↦
                    rw (early, due, poll_round)
                      (poll_result-Waiting d r (record app { last_gdrive_poll = some r.instant })
                        (poll_once codecs r.reply) w)
              ]
      ]

  poll_round-over :
      (r : Round) (app : App)
      → 0 < app.setup.expires_at
      → app.setup.expires_at ≤ r.now_secs
      → is_polling (poll_round codecs r app).setup.stage ≡ false
  unfolding poll_round apply_gdrive_failed
  poll_round-over r app some_ late =
      let over : (ltb 0 app.setup.expires_at && leb app.setup.expires_at r.now_secs) ≡ true =
        ground arith in
      rw (over, poll_round) refl

  round-Waiting :
      (deadline : ℕ) (r : Round) (app : App)
      → Waiting deadline app
      → Waiting deadline (round codecs r app)
  round-Waiting d r app w = elim (Bool-cases app.request_email) [
    | inl email ↦
        subst (Waiting d) (sym (round-email r app w.0 email)) (email_round-Waiting d r app w.0).0
    | inr no_email ↦ elim (Bool-cases (is_polling app.setup.stage)) [
      | inr idle ↦ subst (Waiting d) (sym (round-idle r app w.0 no_email idle)) w
      | inl waits ↦
          subst (Waiting d) (sym (round-poll r app w.0 no_email waits))
            (poll_round-Waiting d r app w)
    ]
  ]

  round-ends :
      (deadline : ℕ) (r : Round) (app : App)
      → 0 < deadline
      → deadline ≤ r.now_secs
      → Waiting deadline app
      → is_polling (round codecs r app).setup.stage ≡ false
  round-ends d r app some_ late w = elim (Bool-cases app.request_email) [
    | inl email ↦
        subst Ended (sym (round-email r app w.0 email)) (email_round-Waiting d r app w.0).1
    | inr no_email ↦ elim (Bool-cases (is_polling app.setup.stage)) [
      | inr idle ↦ subst Ended (sym (round-idle r app w.0 no_email idle)) idle
      | inl waits ↦
          let at : app.setup.expires_at ≡ d = w.1 waits in
          subst Ended (sym (round-poll r app w.0 no_email waits))
            (poll_round-over r app (omega arith) (omega arith))
    ]
  ]

  rounds-Waiting :
      (deadline : ℕ) (rs : List Round) (app : App)
      → Waiting deadline app
      → Waiting deadline (rounds rs app)
  unfolding rounds
  rounds-Waiting d [] app w = w
  rounds-Waiting d (r ∷ rs) app w =
      rounds-Waiting d rs (round codecs r app) (round-Waiting d r app w)

  -- Whatever rounds pass while a device code is waited for and no new one is asked for, a round at or
  -- after the time at which the code expires leaves the interface not waiting any more.
  pub round-rounds-Ended :
      (rs : List Round) (last : Round) (app : App)
      → app.request_init ≡ false
      → 0 < app.setup.expires_at
      → app.setup.expires_at ≤ last.now_secs
      → Ended (round codecs last (rounds rs app))
  round-rounds-Ended rs last app quiet some_ late =
      let w = rounds-Waiting app.setup.expires_at rs app (quiet, λ h. refl) in
      round-ends app.setup.expires_at last (rounds rs app) some_ late w
