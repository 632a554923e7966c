-- ===== src/Providers/Oauth.antt =====
-- core/src/providers/oauth/device_flow.rs: the device authorization grant. ureq, serde_json and
-- form_urlencoded are not part of the repository: a `Reply` is what the transport answers to one
-- request, and `Codecs` has the encoders.
pub mod Poll
use zz_drop.Prelude.{
  ℕ, Text, Bytes, codes, Bool, true, false, Option, none, some, List, [], ◌∷◌, ◌++◌, ◌==◌, text_eq,
  Result, ok, err, ok_or, if◌then◌else◌, ◌>>=◌,
}

pub data DeviceFlowError : Type 0 where
  bad_endpoint network decode access_denied expired invalid_client invalid_grant : DeviceFlowError
  tls_trust_failed : (hint : Text) → DeviceFlowError
  server_error : (status : ℕ) → DeviceFlowError
  other : Text → DeviceFlowError

pub record DeviceFlowConfig : Type 0 where
  pub device_code_endpoint : Text
  pub token_endpoint : Text
  pub client_id : Text
  pub client_secret : Option Text
  pub scope : Text

pub record DeviceCodeResponse : Type 0 where
  pub device_code : Text
  pub user_code : Text
  pub verification_uri : Text
  pub verification_uri_complete : Option Text
  pub expires_in : ℕ
  pub interval : ℕ

pub record TokenResponse : Type 0 where
  pub access_token : Text
  pub refresh_token : Option Text
  pub expires_in : ℕ
  pub token_type : Text
  pub scope : Option Text

pub data PollOutcome : Type 0 where
  pending slow_down : PollOutcome
  tokens : TokenResponse → PollOutcome

-- `error_from_slice` reads the field `error` of an `OAuthErrorBody`.
pub record Codecs : Type 0 where
  pub form : List (Text × Text) → Bytes
  pub code_from_slice : Bytes → Option DeviceCodeResponse
  pub token_from_slice : Bytes → Option TokenResponse
  pub error_from_slice : Bytes → Option Text

-- What `Request::builder` and `Agent::run` answer: a request that cannot be built; an error of the
-- transport, with the hint of `tls_trust_hint` if there is one; or a status, and the body if it can be
-- read.
pub data Reply : Type 0 where
  not_built : Reply
  failed : Option Text → Reply
  answered : (status : ℕ) → (body : Option Bytes) → Reply

abbrev pub from_ureq_transport : Option Text → DeviceFlowError
from_ureq_transport none = network
from_ureq_transport (some hint) = tls_trust_failed hint

unfoldable pub post_form : Reply → Result DeviceFlowError (ℕ × Bytes)
post_form Reply.not_built = err bad_endpoint
post_form (Reply.failed hint) = err (from_ureq_transport hint)
post_form (Reply.answered status none) = err decode
post_form (Reply.answered status (some bytes)) = ok (status, bytes)

module _ (codecs : Codecs) where
  unfoldable pub error_of : Text → DeviceFlowError
  error_of code =
      if text_eq code (codes "access_denied")
      then access_denied
      else if text_eq code (codes "expired_token")
      then expired
      else if text_eq code (codes "invalid_client")
      then invalid_client
      else if text_eq code (codes "invalid_grant")
      then invalid_grant
      else other code

  unfoldable pub parse_oauth_error : ℕ → Bytes → DeviceFlowError
  unfolding error_of
  parse_oauth_error status body = elim (codecs.error_from_slice body) [
    | none ↦ server_error status
    | some code ↦ error_of code
  ]

  -- the response of an endpoint, once decoded if its status is 200
  unfoldable pub decoded {ℓ} :
      {A : Type ℓ} → (Bytes → Option A) → ℕ × Bytes → Result DeviceFlowError A
  decoded from_slice (status, bytes) =
      if status == 200
      then ok_or decode (from_slice bytes)
      else err (parse_oauth_error status bytes)

  -- the body that `initiate` posts
  abbrev pub initiate_form : DeviceFlowConfig → Bytes
  initiate_form cfg =
      codecs.form ((codes "client_id", cfg.client_id) ∷ (codes "scope", cfg.scope) ∷ [])

  unfoldable pub initiate : Reply → Result DeviceFlowError DeviceCodeResponse
  initiate reply = (post_form reply >>= decoded codecs.code_from_slice)

  abbrev pub secret_pair : Option Text → List (Text × Text)
  secret_pair none = []
  secret_pair (some secret) = (codes "client_secret", secret) ∷ []

  unfoldable pub token_form : DeviceFlowConfig → List (Text × Text) → Bytes
  token_form cfg extra =
      codecs.form ((codes "client_id", cfg.client_id) ∷ (secret_pair cfg.client_secret ++ extra))

  -- the match on an error of a poll
  unfoldable pub poll_error : DeviceFlowError → Result DeviceFlowError PollOutcome
  poll_error (other code) =
      if text_eq code (codes "authorization_pending")
      then ok pending
      else if text_eq code (codes "slow_down")
      then ok slow_down
      else err (other code)
  poll_error e = err e

  unfoldable pub poll_answer : ℕ × Bytes → Result DeviceFlowError PollOutcome
  poll_answer (status, bytes) =
      if status == 200
      then (ok_or decode (codecs.token_from_slice bytes) >>= λ t. ok (tokens t))
      else poll_error (parse_oauth_error status bytes)

  unfoldable pub poll_once : Reply → Result DeviceFlowError PollOutcome
  poll_once reply = (post_form reply >>= poll_answer)

  unfoldable pub refresh : Reply → Result DeviceFlowError TokenResponse
  refresh reply = (post_form reply >>= decoded codecs.token_from_slice)

  -- the bodies that `poll_once` and `refresh` post
  abbrev pub poll_form : DeviceFlowConfig → (device_code : Text) → Bytes
  poll_form cfg device_code = token_form cfg (
      (codes "device_code", device_code)
      ∷ (codes "grant_type", codes "urn:ietf:params:oauth:grant-type:device_code")
      ∷ [])

  abbrev pub refresh_form : DeviceFlowConfig → (refresh_token : Text) → Bytes
  refresh_form cfg refresh_token =
      token_form cfg
        ((codes "refresh_token", refresh_token) ∷ (codes "grant_type", codes "refresh_token") ∷ [])
