-- ===== src/Cli.antt =====
-- src/cli/mod.rs, and `ParseError` of src/cli/parser.rs: the commands of the command line. A
-- `PathBuf` is its text.
pub mod Parser
use zz_drop.Prelude.{ℕ, Text, Bool, List, Option}

pub data ContainerSource : Type 0 where
  local remote : ContainerSource

pub data RemoteSelector : Type 0 where
  email : Text → RemoteSelector
  alias : Text → RemoteSelector

pub data Command : Type 0 where
  upload : (files : List Text) (compress : Bool) (dest_remote : Option Text) → Command
  save_all save_all_recursive : (compress : Bool) (dir : Text) (dest_remote : Option Text) → Command
  download : (files : List Text) (decompress : Bool) (dest_local : Option Text) → Command
  download_all download_all_recursive :
      (decompress : Bool) (dest_local src_remote : Option Text) → Command
  container_unlock : (which : Option ContainerSource) → Command
  remote_unlock : (selector : RemoteSelector) → Command
  lock wipe open_tui doctor : Command

pub data ParseError : Type 0 where
  no_args : ParseError
  missing_argument unexpected_argument : (command : Text) → ParseError
  unknown_modifier : (command : Text) (modifier : ℕ) → ParseError
  encrypt_not_in_v1 : (command : Text) → ParseError
  duplicate_modifier : (command : Text) (modifier : ℕ) → ParseError
