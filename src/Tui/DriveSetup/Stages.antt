-- ===== src/Tui/DriveSetup/Stages.antt =====
-- The stages of the setup, as a state machine.
use zz_drop.Prelude.{
  ◌≡◌, refl, sym, true, false, ◌&&◌, some, Result, ok, err, Bool-cases, inl, inr, ltb, leb, subst,
  Text, ◌∙◌, arith, codes,
}
use zz_drop.Providers.Oauth.{
  Codecs, PollOutcome, DeviceFlowError, DeviceCodeResponse, initiate, poll_once,
}
use zz_drop.Tui.DriveSetup.{
  App, Round, SetupStage, is_polling, round, poll_round, email_round, init_round, init_result,
  poll_result, email_result, interval_over, apply_gdrive_init, apply_gdrive_init_failed,
  apply_gdrive_failed, apply_gdrive_tokens, apply_gdrive_email, bump_gdrive_interval,
}
use zz_drop.Tui.DriveSetup.Ends.{round-email, round-poll, round-idle}

-- What one round may do to the stage.
pub data Step : SetupStage → SetupStage → Type 0 where
  stays : {s : SetupStage} → Step s s
  code_issued : Step SetupStage.initiating SetupStage.polling
  not_initiated : {reason : Text} → Step SetupStage.initiating (SetupStage.failed reason)
  granted : Step SetupStage.polling SetupStage.fetching
  not_granted : {reason : Text} → Step SetupStage.polling (SetupStage.failed reason)
  resolved : Step SetupStage.fetching SetupStage.done
  not_resolved : {reason : Text} → Step SetupStage.fetching (SetupStage.failed reason)

-- A pending request belongs to the stage that made it, and there is one at most.
abbrev pub RequestsFit : App → Type 0
RequestsFit app =
    (app.request_init ≡ true → app.setup.stage ≡ SetupStage.initiating)
    × (app.request_email ≡ true → app.setup.stage ≡ SetupStage.fetching)

-- A round that takes one state to another.
abbrev pub Moves : App → App → Type 0
Moves app app' = Step app.setup.stage app'.setup.stage × RequestsFit app'

is_polling_lem : (s : SetupStage) → is_polling s ≡ true → s ≡ SetupStage.polling
is_polling_lem SetupStage.polling h = refl
is_polling_lem _ h = cc

module _ (codecs : Codecs) (r : Round) (app : App) (fit : RequestsFit app) where
  abbrev quiet_init : App
  quiet_init = record app { request_init = false }

  init_result-Moves :
      (answer : Result DeviceFlowError DeviceCodeResponse)
      → app.setup.stage ≡ SetupStage.initiating
      → app.request_email ≡ false
      → Moves app (init_result codecs r quiet_init answer)
  unfolding apply_gdrive_init apply_gdrive_init_failed
  init_result-Moves (ok resp) at email =
      (subst (λ s. Step s SetupStage.polling) (sym at) Step.code_issued, (λ h. cc, λ h. cc))
  init_result-Moves (err e) at email = (
    subst (λ s. Step s (SetupStage.failed (r.describe e))) (sym at) Step.not_initiated,
    (λ h. cc, λ h. cc),
  )

  init_round-Moves : app.request_init ≡ true → Moves app (init_round codecs r app)
  unfolding init_round
  init_round-Moves init = elim (Bool-cases app.request_email) [
    | inl email ↦
        let both : SetupStage.initiating ≡ SetupStage.fetching = sym (fit.0 init) ∙ fit.1 email in
        absurd (ground arith)
    | inr no_email ↦ init_result-Moves (initiate codecs r.reply) (fit.0 init) no_email
  ]

  email_result-Moves :
      (answer : Result Text Text)
      → app.setup.stage ≡ SetupStage.fetching
      → app.request_init ≡ false
      → Moves app (email_result codecs (record app { request_email = false }) answer)
  unfolding apply_gdrive_email apply_gdrive_failed
  email_result-Moves (ok email) at init =
      (subst (λ s. Step s SetupStage.done) (sym at) Step.resolved, (λ h. cc, λ h. cc))
  email_result-Moves (err e) at init =
      (subst (λ s. Step s (SetupStage.failed e)) (sym at) Step.not_resolved, (λ h. cc, λ h. cc))

  poll_result-Moves :
      (answer : Result DeviceFlowError PollOutcome)
      → app.setup.stage ≡ SetupStage.polling
      → app.request_init ≡ false
      → Moves app (poll_result codecs r (record app { last_gdrive_poll = some r.instant }) answer)
  unfolding bump_gdrive_interval apply_gdrive_failed apply_gdrive_tokens
  poll_result-Moves (ok PollOutcome.pending) at init = (Step.stays, fit)
  poll_result-Moves (ok PollOutcome.slow_down) at init = (Step.stays, fit)
  poll_result-Moves (ok (PollOutcome.tokens t)) at init =
      (subst (λ s. Step s SetupStage.fetching) (sym at) Step.granted, (λ h. cc, λ h. refl))
  poll_result-Moves (err e) at init = (
    subst (λ s. Step s (SetupStage.failed (r.describe e))) (sym at) Step.not_granted,
    (λ h. cc, λ h. cc),
  )

  poll_round-Moves :
      app.setup.stage ≡ SetupStage.polling
      → app.request_init ≡ false
      → Moves app (poll_round codecs r app)
  unfolding poll_round apply_gdrive_failed
  poll_round-Moves at init =
      elim (Bool-cases (ltb 0 app.setup.expires_at && leb app.setup.expires_at r.now_secs)) [
        | inl over ↦
            rw (over, poll_round)
              (
                subst (λ s. Step s (SetupStage.failed (codes "device code expired"))) (sym at)
                    Step.not_granted,
                (λ h. cc, λ h. cc),
              )
        | inr early ↦
            elim (Bool-cases
              (interval_over app.setup.interval_secs r.instant app.last_gdrive_poll)) [
                | inr soon ↦ rw (early, soon, poll_round) (Step.stays, fit)
                | inl due ↦
                    rw (early, due, poll_round)
                      (poll_result-Moves (poll_once codecs r.reply) at init)
              ]
      ]

  round-init : app.request_init ≡ true → round codecs r app ≡ init_round codecs r app
  unfolding round
  round-init init = rw (init, round) refl

  email_round-Moves :
      app.request_email ≡ true → app.request_init ≡ false → Moves app (email_round codecs r app)
  unfolding email_round
  email_round-Moves email init = email_result-Moves r.email (fit.1 email) init

  -- A round takes the stage along an edge of the machine or leaves it: a code is issued or not, then
  -- access is granted or not, then the account is named or not. Requests that belong to their stage
  -- before it belong to their stage after it.
  pub round-Moves : Moves app (round codecs r app)
  round-Moves = elim (Bool-cases app.request_init) [
    | inl init ↦ subst (Moves app) (sym (round-init init)) (init_round-Moves init)
    | inr quiet ↦ elim (Bool-cases app.request_email) [
      | inl email ↦
          subst (Moves app) (sym (round-email codecs r app quiet email))
            (email_round-Moves email quiet)
      | inr no_email ↦ elim (Bool-cases (is_polling app.setup.stage)) [
        | inr idle ↦
            subst (Moves app) (sym (round-idle codecs r app quiet no_email idle)) (Step.stays, fit)
        | inl waits ↦
            subst (Moves app) (sym (round-poll codecs r app quiet no_email waits))
              (poll_round-Moves (is_polling_lem app.setup.stage waits) quiet)
      ]
    ]
  ]
