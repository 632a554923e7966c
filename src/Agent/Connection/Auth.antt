-- ===== src/Agent/Connection/Auth.antt =====
-- Who is served by src/agent/server.rs, and for how long.
pub mod Fuel
use zz_drop.Prelude.{
  ℕ, zero, suc, ◌-◌, ◌<◌, ◌≤◌, ◌≡◌, refl, Text, Bytes, Bool, true, false, Option, none, some,
  Result, ok, err, arith, subst, sym, text_eq_iff, Bool-cases, Option-cases, Result-cases, inl, inr,
  ◌⊎◌,
}
use zz_drop.Profile.{PlainProfile}
use zz_drop.Proto.{AgentRequest, AgentResponse}
use zz_drop.Proto.Framing.{Reader, read_frame}
use zz_drop.Agent.State.{AgentState, Env, active_of, get_active_profile_renewing_ttl, touch}
use zz_drop.Agent.Server.{dispatch}
use zz_drop.Agent.Connection.{
  Setting, Ended, Connection, ConnError, handle_connection, check_peer_uid, token_accepted,
  token_len,
}

module _ {Client : Type 0} where
  -- nothing written, the state as it was, the idle timer included, and an error
  abbrev pub Refused : AgentState Client → Connection → Ended Client → Type 0
  Refused s c e =
      (e.state ≡ s) × (e.outgoing ≡ c.outgoing) × ((why : ConnError) × (e.outcome ≡ err why))

module _ (setting : Setting) where
  abbrev pub Authenticated : Connection → Type 0
  Authenticated c =
      (c.peer_uid ≡ some setting.expected_euid)
      × ((r : Reader) × (read_frame c.incoming ≡ ok (setting.expected_token, r)))

  check_peer_uid-true :
      (peer : Option ℕ)
      → check_peer_uid peer setting.expected_euid ≡ true
      → peer ≡ some setting.expected_euid
  check_peer_uid-true none h = cc
  check_peer_uid-true (some uid) h = ground arith

  token_accepted-true :
      (received : Bytes)
      → token_accepted setting received ≡ true
      → received ≡ setting.expected_token
  token_accepted-true received h = ground (arith, text_eq_iff received setting.expected_token)

module _ {Client : Type 0} (setting : Setting) where
  -- However a connection ends, either it was refused, with an error, nothing written and the agent's
  -- state as it was, or its peer is a process of the agent's user whose first frame was the agent's
  -- token.
  pub handle_connection-Authenticated :
      (env : ℕ → Env Client) (c : Connection) (s : AgentState Client) (e : Ended Client)
      → handle_connection setting env c s ≡ some e
      → Refused s c e ⊎ Authenticated setting c
  unfolding handle_connection
  handle_connection-Authenticated env c s e h = elim (Bool-cases c.blocking) [
    | inr refused ↦ inl (refused_as ConnError.io (rw (refused, handle_connection) at h))
    | inl open_ ↦ elim (Bool-cases (check_peer_uid c.peer_uid setting.expected_euid)) [
      | inr refused ↦
          inl (refused_as ConnError.unauthorized (rw (open_, refused, handle_connection) at h))
      | inl peer ↦ elim (Result-cases (read_frame c.incoming)) [
        | inr (x, failed) ↦
            inl
              (refused_as ConnError.unauthorized (rw (open_, peer, failed, handle_connection) at h))
        | inl ((received, r), read) ↦ elim (Bool-cases (token_accepted setting received)) [
          | inr refused ↦ inl (
              refused_as ConnError.unauthorized
                (rw (open_, peer, read, refused, handle_connection) at h))
          | inl accepted ↦ inr (
            check_peer_uid-true setting c.peer_uid peer,
            (
              r,
              subst (λ t. read_frame c.incoming ≡ ok (t, r))
                  (token_accepted-true setting received accepted) read,
            ),
          )
        ]
      ]
    ]
  ]
    where
      refused_as :
          (why : ConnError)
          → some (record { outcome = err why; state = s; outgoing = c.outgoing }) ≡ some e
          → Refused s c e
      refused_as why same = (ground arith, ground arith, (why, ground arith))

module _ {Client : Type 0} where
  -- Inside a connection `GetProfile` is answered with the active profile also when the time to
  -- live has passed since the last unlock or renewal, and the time counts from anew.
  pub get_profile-after_ttl :
      (env : Env Client) (s : AgentState Client) (t : ℕ) (p : PlainProfile)
      → s.inner.unlocked_at ≡ some t
      → s.inner.ttl < env.instant - t
      → active_of s.inner.active_alias s.inner.profile_set ≡ some p
      → ((dispatch env AgentRequest.get_profile (touch env s)).0 ≡ AgentResponse.profile p)
        × ((dispatch env AgentRequest.get_profile (touch env s)).1.inner.unlocked_at
            ≡ some env.instant)
  unfolding dispatch get_active_profile_renewing_ttl touch
  get_profile-after_ttl env s t p unlocked late active = ground arith
