-- ===== src/Agent/Connection/Auth/Fuel.antt =====
-- The fuel of the request loop of src/agent/server.rs.
use zz_drop.Prelude.{
  ℕ, zero, suc, ◌<◌, ◌≡◌, Bytes, true, ok, arith, length, ◌++◌, ap, length-append, Bool-cases,
  Result-cases, inl, inr, is_some,
}
use zz_drop.Proto.Framing.{Reader, Writer, read_frame, decode_request_body}
use zz_drop.Proto.Framing.Limits.{read_frame_bounds}
use zz_drop.Agent.State.{AgentState, Env, touch}
use zz_drop.Agent.Connection.{Setting, Connection, answer_request, serve, handle_connection}

read_frame-shrinks :
    (r r' : Reader) (payload : Bytes)
    → read_frame r ≡ ok (payload, r')
    → length r'.incoming < length r.incoming
read_frame-shrinks r r' payload h =
    let (_, (prefix, four, _, e)) = read_frame_bounds r r' payload h in
    omega (
      arith,
      ap length e,
      length-append prefix (payload ++ r'.incoming),
      length-append payload r'.incoming,
    )

module _ {Client : Type 0} (setting : Setting) where
  serve-some :
      (fuel : ℕ) (env : ℕ → Env Client) (i : ℕ) (r : Reader) (s : AgentState Client) (w : Writer)
      → length r.incoming < fuel
      → is_some (serve setting fuel env i r s w) ≡ true
  unfolding serve
  serve-some zero env i r s w h = absurd (omega arith)
  serve-some (suc fuel) env i r s w h = elim (Result-cases (read_frame r)) [
    | inr (e, failed) ↦ rw (failed, serve)
    | inl ((body, r'), read) ↦
        let shorter = read_frame-shrinks r r' body read in
        elim (Result-cases (decode_request_body setting.requests body)) [
          | inr (e, failed) ↦ rw (read, failed, serve)
          | inl (request, decoded) ↦
              let e = (answer_request setting (env i) request s w).1 in
              elim (Bool-cases (answer_request setting (env i) request s w).0) [
                | inl on ↦
                    rw (read, decoded, on, serve)
                      (serve-some fuel env (suc i) r' e.state e.outgoing (omega arith))
                | inr off ↦ rw (read, decoded, off, serve)
              ]
        ]
  ]

  -- On the bytes that a peer sends before it closes the connection, the request loop never runs out of
  -- the fuel that `handle_connection` gives it.
  pub handle_connection-some :
      (env : ℕ → Env Client) (c : Connection) (s : AgentState Client)
      → is_some (handle_connection setting env c s) ≡ true
  unfolding handle_connection
  handle_connection-some env c s = elim (Result-cases (read_frame c.incoming)) [
    | inr (e, failed) ↦ ground arith
    | inl ((received, r), read) ↦ ground (
      arith,
      serve-some (suc (length r.incoming)) env 1 r (touch (env 0) s) c.outgoing (omega arith),
    )
  ]
