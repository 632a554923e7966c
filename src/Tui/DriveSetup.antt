-- ===== src/Tui/DriveSetup.antt =====
-- tui/src/wizard.rs (`GoogleDriveSetupState`), the `apply_gdrive_…` transitions of tui/src/app.rs and
-- the Google Drive blocks of the loop in tui/src/cli.rs. What a round meets from outside is a `Round`:
-- both clocks, in seconds, and the answers of the servers. A sum of `u64` wraps.
pub mod Ends
pub mod Stages
use zz_drop.Prelude.{
  ℕ, ◌+◌, ◌-◌, ◌%◌, ◌^◌, Text, codes, Bool, true, false, ◌&&◌, not, Option, none, some, ltb, leb,
  if◌then◌else◌, Result, ok, err, [], min,
}
use zz_drop.Providers.Oauth.{
  DeviceFlowError, DeviceCodeResponse, TokenResponse, PollOutcome, Codecs, Reply, initiate,
  poll_once,
}

pub data SetupStage : Type 0 where
  not_started initiating polling fetching done : SetupStage
  failed : Text → SetupStage

pub record SetupState : Type 0 where
  pub stage : SetupStage
  pub user_code : Text
  pub verification_uri : Text
  pub verification_uri_complete : Option Text
  pub device_code : Text
  pub expires_at : ℕ
  pub interval_secs : ℕ
  pub last_poll_at : ℕ
  pub root_folder : Text
  pub user_email : Text
  pub access_token : Text
  pub refresh_token : Text
  pub token_type : Text
  pub access_expires_at : ℕ
  pub scope : Text

-- `App` and the loop's own variable, as far as Google Drive is concerned
pub record App : Type 0 where
  pub setup : SetupState
  pub request_init : Bool
  pub request_email : Bool
  pub last_gdrive_poll : Option ℕ

-- `now_secs` is the wall clock and `instant` the monotonic one. `email` is what `fetch_user_email`
-- answers, and `describe` the text of an error.
pub record Round : Type 0 where
  pub now_secs : ℕ
  pub instant : ℕ
  pub reply : Reply
  pub email : Result Text Text
  pub describe : DeviceFlowError → Text

abbrev pub wrap : ℕ → ℕ
wrap n = n % 2 ^ 64

abbrev pub at_least_1 : ℕ → ℕ
at_least_1 n = if leb 1 n then n else 1

unfoldable pub apply_gdrive_init : ℕ → DeviceCodeResponse → App → App
apply_gdrive_init now resp app = record app {
  setup = record app.setup {
    user_code = resp.user_code;
    verification_uri = resp.verification_uri;
    verification_uri_complete = resp.verification_uri_complete;
    device_code = resp.device_code;
    expires_at = wrap (now + resp.expires_in);
    interval_secs = at_least_1 resp.interval;
    last_poll_at = now;
    stage = polling;
  };
}

unfoldable pub apply_gdrive_init_failed : Text → App → App
apply_gdrive_init_failed reason app = record app {
  setup = record app.setup { stage = failed reason };
}

abbrev pub or_old : Option Text → Text → Text
or_old none old = old
or_old (some new) old = new

unfoldable pub apply_gdrive_tokens : ℕ → TokenResponse → App → App
apply_gdrive_tokens now t app = record app {
  setup = record app.setup {
    access_token = t.access_token;
    refresh_token = or_old t.refresh_token app.setup.refresh_token;
    token_type = t.token_type;
    access_expires_at = wrap (now + t.expires_in);
    scope = or_old t.scope app.setup.scope;
    stage = fetching;
  };
  request_email = true;
}

unfoldable pub apply_gdrive_email : Text → App → App
apply_gdrive_email email app = record app {
  setup = record app.setup { user_email = email; stage = done };
}

unfoldable pub apply_gdrive_failed : Text → App → App
apply_gdrive_failed reason app = record app {
  setup = record app.setup { stage = failed reason };
  request_init = false;
  request_email = false;
}

-- `saturating_add(5)`
unfoldable pub bump_gdrive_interval : App → App
bump_gdrive_interval app = record app {
  setup = record app.setup { interval_secs = min (app.setup.interval_secs + 5) (2 ^ 64 - 1) };
}

abbrev pub is_polling : SetupStage → Bool
is_polling polling = true
is_polling _ = false

-- the time since the last poll has reached the interval
abbrev pub interval_over : (interval : ℕ) → (instant : ℕ) → Option ℕ → Bool
interval_over interval instant none = true
interval_over interval instant (some t) = leb (at_least_1 interval) (instant - t)

module _ (codecs : Codecs) where
  abbrev pub init_result : Round → App → Result DeviceFlowError DeviceCodeResponse → App
  init_result r app (ok resp) = record (apply_gdrive_init r.now_secs resp app) {
    last_gdrive_poll = some r.instant;
  }
  init_result r app (err e) = apply_gdrive_init_failed (r.describe e) app

  unfoldable pub init_round : Round → App → App
  unfolding apply_gdrive_init apply_gdrive_init_failed
  init_round r app = init_result r (record app { request_init = false }) (initiate codecs r.reply)

  abbrev pub email_result : App → Result Text Text → App
  email_result app (ok email) = apply_gdrive_email email app
  email_result app (err e) = apply_gdrive_failed e app

  unfoldable pub email_round : Round → App → App
  unfolding apply_gdrive_email apply_gdrive_failed
  email_round r app = email_result (record app { request_email = false }) r.email

  abbrev pub poll_result : Round → App → Result DeviceFlowError PollOutcome → App
  poll_result r app (ok PollOutcome.pending) = app
  poll_result r app (ok PollOutcome.slow_down) = bump_gdrive_interval app
  poll_result r app (ok (PollOutcome.tokens t)) = apply_gdrive_tokens r.now_secs t app
  poll_result r app (err e) = apply_gdrive_failed (r.describe e) app

  unfoldable pub poll_round : Round → App → App
  unfolding apply_gdrive_failed bump_gdrive_interval apply_gdrive_tokens
  poll_round r app =
      if ltb 0 app.setup.expires_at && leb app.setup.expires_at r.now_secs
      then apply_gdrive_failed (codes "device code expired") app
      else if interval_over app.setup.interval_secs r.instant app.last_gdrive_poll
      then poll_result r (record app { last_gdrive_poll = some r.instant })
          (poll_once codecs r.reply)
      else app

  -- the Google Drive blocks of one round of the loop, each of which but the last ends the round
  unfoldable pub round : Round → App → App
  round r app =
      if app.request_init
      then init_round r app
      else if app.request_email
      then email_round r app
      else if is_polling app.setup.stage
      then poll_round r app
      else app
