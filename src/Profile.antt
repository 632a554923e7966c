-- ===== src/Profile.antt =====
-- core/src/profile/types.rs, core/src/providers/mod.rs and the types.rs of each provider: the
-- decrypted profile. Times are texts, as in the source; `Debug` redaction and zeroizing on drop
-- leave no trace in a value and are not modelled.
pub mod Kdf
pub mod Container
pub mod Crypto
pub mod Foreign
pub mod Format
pub mod Files
pub mod Rotation
use zz_drop.Prelude.{ℕ, Text, Bytes, List, Option}

pub data CollisionPolicy : Type 0 where
  rename overwrite fail : CollisionPolicy

pub data NextcloudAuth : Type 0 where
  app_password : (secret : Text) → NextcloudAuth
  login_flow_token : (secret : Text) → NextcloudAuth

pub record NextcloudProfile : Type 0 where
  pub server_url : Text
  pub username : Text
  pub auth : NextcloudAuth
  pub remote_root : Text

pub record GoogleDriveAuth : Type 0 where
  pub access_token : Text
  pub refresh_token : Text
  pub token_type : Text
  pub expires_at : ℕ
  pub scope : Text

pub record GoogleDriveProfile : Type 0 where
  pub root_folder : Text
  pub user_email : Text
  pub root_folder_id : Option Text
  pub auth : GoogleDriveAuth

pub record OneDriveAuth : Type 0 where
  pub access_token : Text
  pub refresh_token : Text
  pub token_type : Text
  pub expires_at : ℕ
  pub scope : Text

pub record OneDriveProfile : Type 0 where
  pub root_folder : Text
  pub user_email : Text
  pub root_folder_id : Option Text
  pub auth : OneDriveAuth

pub record DropboxAuth : Type 0 where
  pub access_token : Text
  pub refresh_token : Text
  pub token_type : Text
  pub expires_at : ℕ
  pub scope : Text

pub record DropboxProfile : Type 0 where
  pub root_folder : Text
  pub user_email : Text
  pub auth : DropboxAuth

pub record UnknownProvider : Type 0 where
  pub tag : Text
  pub payload_cbor : Bytes

pub data ProviderProfile : Type 0 where
  nextcloud : NextcloudProfile → ProviderProfile
  google_drive : GoogleDriveProfile → ProviderProfile
  one_drive : OneDriveProfile → ProviderProfile
  dropbox : DropboxProfile → ProviderProfile
  unknown : UnknownProvider → ProviderProfile

pub record ProfileSettings : Type 0 where
  pub unlock_ttl_secs : ℕ
  pub agent_idle_exit_secs : ℕ

pub record PlainProfile : Type 0 where
  pub profile_version : ℕ
  pub profile_id : Text
  pub alias : Text
  pub default_target : Text
  pub providers : List ProviderProfile
  pub collision_policy : CollisionPolicy
  pub settings : ProfileSettings
  pub created_at : Text
  pub updated_at : Text
