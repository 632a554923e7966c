-- ===== src/Agent/Connection/Invariant.antt =====
-- A rule for invariants of the accept loop.
use zz_drop.Prelude.{
  ℕ, zero, suc, ◌≡◌, Option, none, some, List, [], ◌∷◌, false, Bool-cases, inl, inr, ◌⊎◌, arith,
  not, ◌&&◌, ltb, Option-cases, Result-cases, length,
}
use zz_drop.Proto.{AgentRequest}
use zz_drop.Proto.Framing.{Reader, Writer, read_frame, decode_request_body}
use zz_drop.Agent.State.{
  AgentState, Env, touch, check_ttl_and_lock, request_exit, is_unlocked, idle_for,
}
use zz_drop.Agent.Server.{dispatch}
use zz_drop.Agent.Connection.{
  Setting, Ended, Connection, Turn, answer_request, serve, handle_connection, turn, run,
  token_accepted, check_peer_uid, after_connection,
}

pub record Kept {Client : Type 0} (P : AgentState Client → Type 0) : Type 0 where
  pub touch_keeps : (env : Env Client) (s : AgentState Client) → P s → P (touch env s)
  pub dispatch_keeps :
      (env : Env Client) (request : AgentRequest) (s : AgentState Client)
      → P s
      → P (dispatch env request s).1
  pub check_keeps :
      (env : Env Client) (s : AgentState Client) → P s → P (check_ttl_and_lock env s).1
  pub exit_keeps : (s : AgentState Client) → P s → P (request_exit s)

state-answer_request :
    {Client : Type 0} (setting : Setting) (env : Env Client) (request : AgentRequest)
    (s : AgentState Client) (w : Writer)
    → ((answer_request setting env request s w).1.state ≡ (dispatch env request (touch env s)).1)
      ⊎ ((answer_request setting env request s w).1.state
          ≡ request_exit (dispatch env request (touch env s)).1)
unfolding answer_request
state-answer_request setting env request s w = ground arith

running :
    {Client : Type 0} (setting : Setting) (idle_exit_ns : ℕ) (t : Turn Client)
    (s : AgentState Client)
    → s.exit_flag ≡ false
    → let s' = (check_ttl_and_lock t.at s).1 in
      ((turn setting idle_exit_ns t s).1 ≡ s')
      ⊎ ((c : Connection) × ((turn setting idle_exit_ns t s).1
            ≡ after_connection s' (handle_connection setting t.during c s')))
unfolding turn
running setting idle_exit_ns t s on = elim (Option-cases t.waiting) [
  | inl quiet ↦ inl (ground arith)
  | inr (c, there) ↦
      let s' = (check_ttl_and_lock t.at s).1 in
      elim (Bool-cases (not (is_unlocked s') && ltb idle_exit_ns (idle_for t.at s'))) [
        | inl idle ↦ inl (ground arith)
        | inr busy ↦ inr (c, ground arith)
      ]
]

state-turn :
    {Client : Type 0} (setting : Setting) (idle_exit_ns : ℕ) (t : Turn Client)
    (s : AgentState Client)
    → let s' = (check_ttl_and_lock t.at s).1 in
      ((turn setting idle_exit_ns t s).1 ≡ s)
      ⊎ (((turn setting idle_exit_ns t s).1 ≡ s')
          ⊎ ((c : Connection) × ((turn setting idle_exit_ns t s).1
                ≡ after_connection s' (handle_connection setting t.during c s'))))
unfolding turn
state-turn setting idle_exit_ns t s = elim (Bool-cases s.exit_flag) [
  | inl stop ↦ inl (rw (stop, turn))
  | inr on ↦ inr (running setting idle_exit_ns t s on)
]

module _ {Client : Type 0} (P : AgentState Client → Type 0) (k : Kept P) (setting : Setting) where
  abbrev EndsIn : Option (Ended Client) → Type 0
  EndsIn none = Unit {0}
  EndsIn (some e) = P e.state

  answer_request-keeps :
      (env : Env Client) (request : AgentRequest) (s : AgentState Client) (w : Writer)
      → P s
      → P (answer_request setting env request s w).1.state
  answer_request-keeps env request s w h =
      let kept = k.dispatch_keeps env request (touch env s) (k.touch_keeps env s h) in
      elim (state-answer_request setting env request s w) [
        | inl same ↦ rw same kept
        | inr exited ↦ rw exited (k.exit_keeps _ kept)
      ]

  serve-keeps :
      (fuel : ℕ) (env : ℕ → Env Client) (i : ℕ) (r : Reader) (s : AgentState Client) (w : Writer)
      → P s
      → EndsIn (serve setting fuel env i r s w)
  unfolding serve
  serve-keeps zero env i r s w h = tt
  serve-keeps (suc fuel) env i r s w h = elim (Result-cases (read_frame r)) [
    | inr (e, failed) ↦ rw (failed, serve) h
    | inl ((body, r'), read) ↦ elim (Result-cases (decode_request_body setting.requests body)) [
      | inr (e, failed) ↦ rw (read, failed, serve) h
      | inl (request, decoded) ↦
          let kept = answer_request-keeps (env i) request s w h in
          let e = (answer_request setting (env i) request s w).1 in
          elim (Bool-cases (answer_request setting (env i) request s w).0) [
            | inl on ↦
                rw (read, decoded, on, serve)
                  (serve-keeps fuel env (suc i) r' e.state e.outgoing kept)
            | inr off ↦ rw (read, decoded, off, serve) kept
          ]
    ]
  ]

  pub handle_connection-keeps :
      (env : ℕ → Env Client) (c : Connection) (s : AgentState Client)
      → P s
      → EndsIn (handle_connection setting env c s)
  unfolding handle_connection
  handle_connection-keeps env c s h = elim (Bool-cases c.blocking) [
    | inr refused ↦ rw (refused, handle_connection) h
    | inl open_ ↦ elim (Bool-cases (check_peer_uid c.peer_uid setting.expected_euid)) [
      | inr refused ↦ rw (open_, refused, handle_connection) h
      | inl peer ↦ elim (Result-cases (read_frame c.incoming)) [
        | inr (e, failed) ↦ rw (open_, peer, failed, handle_connection) h
        | inl ((received, r), read) ↦ elim (Bool-cases (token_accepted setting received)) [
          | inr refused ↦ rw (open_, peer, read, refused, handle_connection) h
          | inl accepted ↦
              rw (open_, peer, read, accepted, handle_connection)
                (serve-keeps (suc (length r.incoming)) env 1 r (touch (env 0) s) c.outgoing
                  (k.touch_keeps (env 0) s h))
        ]
      ]
    ]
  ]

  after_connection-keeps :
      (s : AgentState Client) (o : Option (Ended Client))
      → P s
      → EndsIn o
      → P (after_connection s o)
  after_connection-keeps s none h e = h
  after_connection-keeps s (some _) h e = e

  turn-keeps :
      (idle_exit_ns : ℕ) (t : Turn Client) (s : AgentState Client)
      → P s
      → P (turn setting idle_exit_ns t s).1
  turn-keeps idle_exit_ns t s h =
      let s' = (check_ttl_and_lock t.at s).1 in
      let checked = k.check_keeps t.at s h in
      elim (state-turn setting idle_exit_ns t s) [
        | inl same ↦ rw same h
        | inr later ↦ elim later [
          | inl same ↦ rw same checked
          | inr (c, after) ↦
              rw after (
                after_connection-keeps s' _ checked (handle_connection-keeps t.during c s' checked))
        ]
      ]

  pub run-keeps :
      (idle_exit_ns : ℕ) (ts : List (Turn Client)) (s : AgentState Client)
      → P s
      → P (run setting idle_exit_ns ts s).1
  unfolding run
  run-keeps idle_exit_ns [] s h = h
  run-keeps idle_exit_ns (t ∷ ts) s h =
      let kept = turn-keeps idle_exit_ns t s h in
      elim (Option-cases (turn setting idle_exit_ns t s).0) [
        | inl on ↦ rw (on, run) (run-keeps idle_exit_ns ts _ kept)
        | inr (why, off) ↦ rw (off, run) kept
      ]
