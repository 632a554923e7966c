-- ===== src/Tests/Setup.antt =====
-- The setup of a Google Drive account: runs of the loop, and the theorems at concrete rounds.
use zz_drop.Prelude.{
  ℕ, ◌≡◌, refl, Text, codes, true, false, none, some, [], ◌∷◌, ok, arith, text_eq,
}
use zz_drop.Providers.Oauth.{
  DeviceCodeResponse, TokenResponse, PollOutcome, Codecs, Reply, initiate, poll_once, post_form,
  decoded, poll_answer, poll_error, parse_oauth_error, error_of,
}
use zz_drop.Providers.Oauth.Poll.{Concludes, poll_once-Concludes}
use zz_drop.Tui.DriveSetup.{
  App, Round, SetupState, SetupStage, round, init_round, poll_round, email_round, apply_gdrive_init,
  apply_gdrive_tokens, apply_gdrive_email, bump_gdrive_interval,
}
use zz_drop.Tui.DriveSetup.Ends.{rounds, Ended, round-rounds-Ended}
use zz_drop.Tui.DriveSetup.Stages.{Moves, RequestsFit, round-Moves}

abbrev code_answer : DeviceCodeResponse
code_answer = record {
  device_code = codes "D";
  user_code = codes "ABCD-EFGH";
  verification_uri = codes "https://g/device";
  verification_uri_complete = none;
  expires_in = 1800;
  interval = 5;
}

abbrev token_answer : TokenResponse
token_answer = record {
  access_token = codes "A";
  refresh_token = some (codes "R");
  expires_in = 3600;
  token_type = codes "Bearer";
  scope = none;
}

-- an error body is the error itself
abbrev plain : Codecs
plain = record {
  form = λ pairs. [];
  code_from_slice = λ body. some code_answer;
  token_from_slice = λ body. some token_answer;
  error_from_slice = λ body. some body;
}

abbrev start : SetupState
start = record {
  stage = SetupStage.initiating;
  user_code = [];
  verification_uri = [];
  verification_uri_complete = none;
  device_code = [];
  expires_at = 0;
  interval_secs = 0;
  last_poll_at = 0;
  root_folder = codes "zz-drop";
  user_email = [];
  access_token = [];
  refresh_token = [];
  token_type = [];
  access_expires_at = 0;
  scope = [];
}

abbrev asked : App
asked = record {
  setup = start;
  request_init = true;
  request_email = false;
  last_gdrive_poll = none;
}

abbrev at_second : ℕ → Reply → Round
at_second n reply = record {
  now_secs = n;
  instant = n;
  reply = reply;
  email = ok (codes "a@b");
  describe = λ e. codes "error";
}

abbrev waiting : App
waiting = record asked {
  setup = record start {
    user_code = codes "ABCD-EFGH";
    verification_uri = codes "https://g/device";
    device_code = codes "D";
    expires_at = 1900;
    interval_secs = 5;
    last_poll_at = 100;
    stage = SetupStage.polling;
  };
  request_init = false;
  last_gdrive_poll = some 100;
}

abbrev denied : Text → Reply
denied code = Reply.answered 400 (some code)

issued : round plain (at_second 100 (Reply.answered 200 (some []))) asked ≡ waiting
unfolding round init_round initiate post_form decoded apply_gdrive_init
issued = refl

-- pending at 105, slower at 110, granted at 120, named in the next round
granted :
    (rounds plain
      (at_second 105 (denied (codes "authorization_pending"))
        ∷ at_second 110 (denied (codes "slow_down"))
        ∷ at_second 115 (Reply.failed none)
        ∷ at_second 120 (Reply.answered 200 (some []))
        ∷ at_second 121 Reply.not_built
        ∷ [])
      waiting).setup.stage
    ≡ SetupStage.done
unfolding rounds round poll_round email_round poll_once post_form poll_answer poll_error
    parse_oauth_error error_of text_eq apply_gdrive_tokens apply_gdrive_email bump_gdrive_interval
granted = refl

pending_poll : poll_once plain (denied (codes "authorization_pending")) ≡ ok PollOutcome.pending
unfolding poll_once post_form poll_answer poll_error parse_oauth_error error_of text_eq
pending_poll = refl

poll_once-Concludes_example :
    Concludes plain (denied (codes "authorization_pending")) PollOutcome.pending
poll_once-Concludes_example =
    poll_once-Concludes plain (denied (codes "authorization_pending")) PollOutcome.pending
      pending_poll

round-rounds-Ended_example : Ended (
    round plain
      (at_second 1900 (denied (codes "authorization_pending")))
      (rounds plain (at_second 105 (denied (codes "authorization_pending")) ∷ []) waiting))
round-rounds-Ended_example =
    round-rounds-Ended plain (at_second 105 (denied (codes "authorization_pending")) ∷ [])
      (at_second 1900 (denied (codes "authorization_pending"))) waiting refl (omega arith)
      (omega arith)

asked_fits : RequestsFit asked
asked_fits = (λ h. refl, λ h. cc)

round-Moves_example : Moves asked (round plain (at_second 100 (Reply.answered 200 (some []))) asked)
round-Moves_example =
    round-Moves plain (at_second 100 (Reply.answered 200 (some []))) asked asked_fits
