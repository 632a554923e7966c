-- ===== src/Agent/Connection.antt =====
-- src/agent/server.rs, and `token_matches` and `check_peer_uid` of src/agent/security.rs: a
-- connection and the accept loop. Sockets, the token file, the lock file and the diagnostic log are
-- not modelled; what a connection brings is a value.
pub mod Auth
pub mod Invariant
pub mod Reachable
pub mod Serves
pub mod Expired
use zz_drop.Prelude.{
  ℕ, zero, suc, ◌+◌, ◌*◌, Text, Bytes, Bool, true, false, not, ◌&&◌, Option, none, some, List, [],
  ◌∷◌, length, ltb, ◌==◌, text_eq, codes, if◌then◌else◌, Result, ok, err, is_some,
}
use zz_drop.Profile.{PlainProfile}
use zz_drop.Profile.Container.{contains_alias}
use zz_drop.Proto.{
  AgentRequest, AgentResponse, AgentError, VersionedRequest, VersionedResponse, into_kek,
}
use zz_drop.Proto.Framing.{
  Postcard, Reader, Writer, read_frame, write_frame, decode_request_body, encode_response_body,
}
use zz_drop.Agent.ListCache.{Hit, secs, epoch_secs}
use zz_drop.Agent.State.{
  AgentState, UpdateError, ListError, Env, unlock, lock, touch, is_unlocked, idle_for,
  set_active_alias, get_active_profile_renewing_ttl, check_ttl_and_lock, ttl_remaining_secs,
  request_exit, should_exit,
}
use zz_drop.Agent.State.Update.{update_profile, update_profile_set}
use zz_drop.Agent.State.Listing.{list_remote, invalidate_remote_prefix}
use zz_drop.Agent.Server.{dispatch}

abbrev pub token_len : ℕ
token_len = 32

-- `token_matches`: equality in constant time
abbrev pub token_matches : Bytes → Bytes → Bool
token_matches a b = text_eq a b

-- `check_peer_uid`, with `none` where the peer's credentials cannot be read
abbrev pub check_peer_uid : Option ℕ → ℕ → Bool
check_peer_uid none expected = false
check_peer_uid (some uid) expected = uid == expected

pub data ConnError : Type 0 where
  unauthorized io decode encode : ConnError

abbrev pub is_exit : AgentRequest → Bool
is_exit AgentRequest.exit = true
is_exit _ = false

-- What a client does with a connection: its identity, what it sends before it closes the connection (or
-- the connection fails), and how much it reads. A peer that stays silent for ever is no such value.
pub record Connection : Type 0 where
  pub blocking : Bool
  pub peer_uid : Option ℕ
  pub incoming : Reader
  pub outgoing : Writer

-- How a connection ends, the agent's state by then, and what was written.
pub record Ended (Client : Type 0) : Type 0 where
  pub outcome : Result ConnError (Unit {0})
  pub state : AgentState Client
  pub outgoing : Writer

-- `postcard` in both directions, and the agent's credentials
pub record Setting : Type 0 where
  pub requests : Postcard VersionedRequest
  pub responses : Postcard VersionedResponse
  pub expected_euid : ℕ
  pub expected_token : Bytes

-- the frame with the token, which comes first
abbrev pub token_accepted : Setting → Bytes → Bool
token_accepted setting received =
    length received == token_len && token_matches received setting.expected_token

-- One turn of the accept loop: the clock, and the connection that was waiting, if any.
pub record Turn (Client : Type 0) : Type 0 where
  pub at : Env Client
  pub during : ℕ → Env Client
  pub waiting : Option Connection

pub data ExitReason : Type 0 where
  exit_request idle_exit : ExitReason

-- the state behind a connection; `none` would be a loop that ran out of fuel
abbrev pub after_connection :
    {Client : Type 0} → AgentState Client → Option (Ended Client) → AgentState Client
after_connection s none = s
after_connection s (some e) = e.state

module _ {Client : Type 0} (setting : Setting) where
  -- One round of the loop behind a decoded request. The flag says whether the loop goes on.
  unfoldable pub answer_request :
      Env Client → AgentRequest → AgentState Client → Writer → Bool × Ended Client
  answer_request env request s w =
      let (response, s') = dispatch env request (touch env s) in
      elim (encode_response_body setting.responses response) [
        | err _ ↦ (false, record { outcome = err encode; state = s'; outgoing = w })
        | ok body ↦
            let (written, w') = write_frame body w in
            elim written [
              | err _ ↦ (false, record { outcome = err io; state = s'; outgoing = w' })
              | ok _ ↦
                  if is_exit request
                  then (false, record { outcome = ok tt; state = request_exit s'; outgoing = w' })
                  else (true, record { outcome = ok tt; state = s'; outgoing = w' })
            ]
      ]

  -- The request loop on fuel, `none` if the fuel runs out. Request number `i` meets `env i`.
  unfoldable pub serve :
      ℕ → (ℕ → Env Client) → ℕ → Reader → AgentState Client → Writer → Option (Ended Client)
  serve zero env i r s w = none
  serve (suc fuel) env i r s w = elim (read_frame r) [
    | err _ ↦ some (record { outcome = ok tt; state = s; outgoing = w })
    | ok (body, r') ↦ elim (decode_request_body setting.requests body) [
      | err _ ↦ some (record { outcome = err decode; state = s; outgoing = w })
      | ok request ↦
          let (goes_on, e) = answer_request (env i) request s w in
          elim goes_on [ false ↦ some e | true ↦ serve fuel env (suc i) r' e.state e.outgoing ]
    ]
  ]

  abbrev refuse : ConnError → AgentState Client → Connection → Option (Ended Client)
  refuse e s c = some (record { outcome = err e; state = s; outgoing = c.outgoing })

  -- The fuel of the request loop is one more than the bytes to come.
  unfoldable pub handle_connection :
      (ℕ → Env Client) → Connection → AgentState Client → Option (Ended Client)
  handle_connection env c s =
      if not c.blocking
      then refuse io s c
      else if not (check_peer_uid c.peer_uid setting.expected_euid)
      then refuse unauthorized s c
      else elim (read_frame c.incoming) [
        | err _ ↦ refuse unauthorized s c
        | ok (received, r) ↦
            if token_accepted setting received
            then serve (suc (length r.incoming)) env 1 r (touch (env 0) s) c.outgoing
            else refuse unauthorized s c
      ]

  unfoldable pub turn : ℕ → Turn Client → AgentState Client → Option ExitReason × AgentState Client
  turn idle_exit_ns t s =
      if should_exit s
      then (some exit_request, s)
      else let s' = (check_ttl_and_lock t.at s).1 in
        if not (is_unlocked s') && ltb idle_exit_ns (idle_for t.at s')
        then (some idle_exit, s')
        else elim t.waiting [
          | none ↦ (none, s')
          | some c ↦ (none, after_connection s' (handle_connection t.during c s'))
        ]

  -- The loop over the turns that come, up to the one that ends it.
  unfoldable pub run :
      ℕ → List (Turn Client) → AgentState Client → Option ExitReason × AgentState Client
  run idle_exit_ns [] s = (none, s)
  run idle_exit_ns (t ∷ ts) s =
      let (reason, s') = turn idle_exit_ns t s in
      elim reason [ some why ↦ (some why, s') | none ↦ run idle_exit_ns ts s' ]
