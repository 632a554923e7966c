-- ===== src/Lib.antt =====
-- zz-drop puts files into a configured cloud destination and gets them back. Its credentials lie
-- in an encrypted container of inner profiles; a local agent (`zz-agent`) holds the decrypted
-- container for a while, so that the command line does not ask for the passphrase each time. This
-- library models the agent as a whole, the protocol between the command line and the agent, the
-- container of profiles and its encrypted file, the parser of the command line, the block that the
-- completions keep in a shell's rc file, the choice of the files to send, the remote paths and
-- names of a Nextcloud, and the device flow that sets up a Google Drive account.
--
-- The parts, and where they are:
--   Profile            core/src/profile/types.rs, core/src/providers/mod.rs and the types.rs of each
--                      provider: the decrypted profile, a record for each struct
--   Profile.Container  core/src/profile/set.rs: `ProfileSet`; `find_by_alias_mut` is the replacement
--                      that its one caller makes through the mutable reference
--   Profile.Kdf        core/src/crypto/kdf.rs (`Argon2idConfig`), core/src/profile/policy.rs
--   Profile.Crypto     core/src/crypto/aead.rs, kdf.rs and profile_envelope.rs, with the third-party
--                      crates as one record, `Libraries`; Crypto.Lawful has what they promise
--   Profile.Format     core/src/profile/format.rs: sealing and opening; Profile.Foreign is its
--                      tolerance of unknown providers, Profile.Files what it does on disk
--   Profile.Rotation   core/src/profile/rotation.rs
--   Proto              core/src/agent_proto/types.rs: the messages
--   Proto.Framing      core/src/agent_proto/framing.rs: frames, on slices and on streams
--   Agent.ListCache    src/agent/list_cache.rs: the cache of remote listings
--   Agent.RemoteClient src/agent/remote_client.rs: the slot of the warm provider client
--   Agent.State        src/agent/state.rs: `AgentState`; Agent.State.Update has the operations that
--                      write the container, Agent.State.Listing those that read the remote tree,
--                      Agent.Disk the file and its temporary neighbour
--   Agent.Server       src/agent/server.rs: `dispatch`
--   Agent.Connection   src/agent/server.rs: `handle_connection` and the loop of `run`, with
--                      `token_matches` and `check_peer_uid` of src/agent/security.rs
--   Cli                src/cli/mod.rs: `Command`; Cli.Parser is src/cli/parser.rs, with `none` for its
--                      `unreachable!`
--   Completions        core/src/completions/mod.rs: markers and `RcAction`; Completions.RcBlock is
--                      core/src/completions/rc_block.rs, on bytes, with `none` for a panic
--   Commands.Walk      src/commands/walk.rs: `split_user_path`; Commands.Walk.Tree is `walk_local`, over
--                      a tree of what `read_dir` answers
--   Providers.Oauth    core/src/providers/oauth/device_flow.rs: the requests of the device flow and what
--                      is made of their replies
--   Tui.DriveSetup     tui/src: the setup of a Google Drive account, which is `GoogleDriveSetupState` of
--                      wizard.rs, the `apply_gdrive_` functions of app.rs and the blocks of the loop in
--                      cli.rs that run the device flow
--   Providers.GoogleDrive core/src/providers/google_drive: errors.rs and rest.rs; the servers are a
--                      function of their own state, and Client.Sends follows the requests
--   Providers.Nextcloud core/src/providers/nextcloud: Paths is path.rs, Collision is collision.rs
--
-- A connection brings a token and requests in frames (Proto.Framing); the server decodes each,
-- dispatches it on the state, and writes the response. The server has one thread, so the mutexes of
-- `AgentState` are never contended, and an operation is a function from state to state. What a
-- sequence of requests makes, one after the other, is `dispatch_all` of Agent.Server.Requests. The state of
-- Rust's `&self` methods is passed on explicitly; `Result` has the type `Result E A`.
--
-- What the program meets from outside is an argument: `Env` has the readings of both clocks, the
-- answers of the operating system to each call of `persist`, the sealed container (which
-- Agent.State.Update.Stored fills with `encrypt_set_with_kek` and the nonce that the call draws), and the answers of the provider; `Postcard` is the serializer, whose
-- round trip is a hypothesis where a theorem needs it; a `Connection` has the identity of the peer, the
-- bytes that it will send, and how much it will read. Instants and times are numbers of nanoseconds,
-- texts are lists of code points.
--
-- Fuel: the request loop (`serve`) runs on fuel, one more than the bytes that the peer will still
-- send. Each round takes a frame of at least four bytes, so that is enough. A connection is the bytes
-- that its peer sends before it closes it, and its error; the source reads without a timeout, and a
-- peer that never closes the connection, and so keeps the only thread, is not modelled. The listing of a Google
-- Drive runs on fuel too: the source follows page tokens as long as the server sends them, and the
-- number of its pages is enough.
--
-- Not modelled: the ciphers and encoders themselves, compression, the REST clients other than
-- Google Drive's, the rest
-- of the terminal interface, the completion engine and its installation, the commands that call the agent, the
-- diagnostic log, redaction in `Debug`, zeroizing of secrets, mutexes poisoned by a panic, and the
-- sockets, token and lock files of the agent.
pub mod Prelude
pub mod Profile
pub mod Proto
pub mod Agent
pub mod Providers
pub mod Tui
pub mod Cli
pub mod Completions
pub mod Commands
pub mod Tests
