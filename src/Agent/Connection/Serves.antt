-- ===== src/Agent/Connection/Serves.antt =====
-- What the loop of `handle_connection` makes of the requests of a client that closes the connection behind
-- them.
use zz_drop.Prelude.{
  ℕ, zero, suc, ◌<◌, ◌≤◌, ◌≡◌, refl, Bytes, Bool, true, false, some, List, [], ◌∷◌, length, ok,
  arith, ap, length-append, Result-cases, inl, inr, All, text_eq_refl, subst, sym, ◌∙◌, Result,
}
use zz_drop.Proto.{AgentRequest, AgentResponse, VersionedRequest, protocol_version}
use zz_drop.Proto.Framing.Lengths.{length-to_be_bytes}
use zz_drop.Proto.Framing.{
  FramingError, Reader, Writer, Faithful, frame_limit, read_frame, write_frame, encode_request_body,
  decode_request_body, encode_response_body, to_be_bytes,
}
use zz_drop.Proto.Framing.RoundTrip.Stream.{
  framed, framed_all, write_frames, write_frames-eq-ok, read_frame-framed,
}
use zz_drop.Agent.State.{AgentState, Env, touch}
use zz_drop.Agent.Server.{dispatch}
use zz_drop.Agent.Server.Requests.{dispatch_all}
use zz_drop.Agent.Connection.{
  Setting, Ended, answer_request, serve, handle_connection, is_exit, token_len,
}

write_frames-head :
    (p : Bytes) (ps : List Bytes) (w : Writer)
    → (write_frames (p ∷ ps) w).0 ≡ ok tt
    → ((write_frame p w).0 ≡ ok tt)
      × (write_frames (p ∷ ps) w ≡ write_frames ps (write_frame p w).1)
unfolding write_frames
write_frames-head p ps w h = elim (Result-cases (write_frame p w).0) [
  | inl (tt, written) ↦ (written, rw (written, write_frames) refl)
  | inr (e, failed) ↦ absurd (ground arith)
]

length-framed_all : (ps : List Bytes) → length ps ≤ length (framed_all ps)
length-framed_all [] = omega arith
length-framed_all (p ∷ ps) = omega (
  arith,
  length-framed_all ps,
  length-append (framed p) (framed_all ps),
  length-append (to_be_bytes (length p)) p,
  length-to_be_bytes (length p),
)

module _ (setting : Setting) where
  -- the bodies of requests, none of which is to exit
  abbrev pub Sent : List AgentRequest → List Bytes → Type 0
  Sent [] [] = Unit {0}
  Sent (request ∷ requests) (body ∷ bodies) =
      (encode_request_body setting.requests request ≡ ok body)
      × (is_exit request ≡ false)
      × Sent requests bodies
  Sent _ _ = ⊥

  -- the bodies of responses
  abbrev pub Answers : List AgentResponse → List Bytes → Type 0
  Answers [] [] = Unit {0}
  Answers (response ∷ responses) (body ∷ bodies) =
      (encode_response_body setting.responses response ≡ ok body) × Answers responses bodies
  Answers _ _ = ⊥

  decode-encode :
      (request : AgentRequest) (body : Bytes)
      → Faithful setting.requests
      → encode_request_body setting.requests request ≡ ok body
      → decode_request_body setting.requests body ≡ ok request
  unfolding encode_request_body decode_request_body
  decode-encode request body faithful e =
      let envelope : VersionedRequest = record { version = protocol_version; request = request } in
      ground (arith, faithful envelope body)

module _ {Client : Type 0} (setting : Setting) where
  answer_request-ok :
      (env : Env Client) (request : AgentRequest) (s : AgentState Client) (w : Writer)
      (body : Bytes)
      → encode_response_body setting.responses (dispatch env request (touch env s)).0 ≡ ok body
      → (write_frame body w).0 ≡ ok tt
      → is_exit request ≡ false
      → answer_request setting env request s w ≡ (
        true,
        record {
          outcome = ok tt;
          state = (dispatch env request (touch env s)).1;
          outgoing = (write_frame body w).1;
        },
      )
  unfolding answer_request
  answer_request-ok env request s w body encoded written on = ground arith

  -- The client closes the connection.
  serve-closed :
      (fuel : ℕ) (env : ℕ → Env Client) (i : ℕ) (fails : FramingError) (s : AgentState Client)
      (w : Writer)
      → serve setting (suc fuel) env i (record { incoming = []; then_fails = fails }) s w
        ≡ some (record { outcome = ok tt; state = s; outgoing = w })
  unfolding serve read_frame
  serve-closed fuel env i fails s w = refl

  serve-step :
      (fuel : ℕ) (env : ℕ → Env Client) (i : ℕ) (r r' : Reader) (body : Bytes)
      (request : AgentRequest) (s : AgentState Client) (w : Writer) (e : Ended Client)
      → read_frame r ≡ ok (body, r')
      → decode_request_body setting.requests body ≡ ok request
      → answer_request setting (env i) request s w ≡ (true, e)
      → serve setting (suc fuel) env i r s w ≡ serve setting fuel env (suc i) r' e.state e.outgoing
  unfolding serve
  serve-step fuel env i r r' body request s w e read decoded answered =
      rw (read, decoded, answered, serve)
        (ap (λ (a : Bool × Ended Client). serve setting fuel env (suc i) r' a.1.state a.1.outgoing)
          answered)

  serve-requests :
      (fuel : ℕ) (env : ℕ → Env Client) (i : ℕ) (fails : FramingError)
      (requests : List AgentRequest) (bodies answers : List Bytes) (s : AgentState Client)
      (w : Writer)
      → length bodies < fuel
      → Faithful setting.requests
      → Sent setting requests bodies
      → All (λ (p : Bytes). length p ≤ frame_limit) bodies
      → Answers setting (dispatch_all env i requests s).0 answers
      → (write_frames answers w).0 ≡ ok tt
      → serve setting fuel env i (record { incoming = framed_all bodies; then_fails = fails }) s w
        ≡ some (record {
          outcome = ok tt;
          state = (dispatch_all env i requests s).1;
          outgoing = (write_frames answers w).1;
        })
  unfolding dispatch_all
  serve-requests zero env i fails requests bodies answers s w h faithful sent fit answered written =
      absurd (omega arith)
  serve-requests (suc fuel) env i fails [] [] [] s w h faithful sent fit answered written =
      unfold write_frames in serve-closed fuel env i fails s w
  serve-requests (suc fuel) env i fails (request ∷ requests) (body ∷ bodies) (answer ∷ answers) s w
        h faithful (encoded, on, sent) (fits, fit) (first, answered) written =
      let s' = (dispatch (env i) request (touch (env i) s)).1 in
      let w' = (write_frame answer w).1 in
      let (here, later) = write_frames-head answer answers w written in
      let served = answer_request-ok (env i) request s w answer first here on in
      let rest =
        serve-requests fuel env (suc i) fails requests bodies answers s' w' (omega arith) faithful
          sent fit answered (subst (λ r. r.0 ≡ ok tt) later written) in
      serve-step fuel env i _ _ body request s w _
        (read_frame-framed body (framed_all bodies) fails fits)
        (decode-encode setting request body faithful encoded) served
      ∙ rest
      ∙ ap
          (λ (r : Result FramingError (Unit {0}) × Writer). some (record {
            outcome = ok tt;
            state = (dispatch_all env (suc i) requests s').1;
            outgoing = r.1;
          }))
          (sym later)
  serve-requests (suc fuel) env i fails [] (_ ∷ _) answers s w h faithful sent fit answered
        written =
      absurd sent
  serve-requests (suc fuel) env i fails (_ ∷ _) [] answers s w h faithful sent fit answered
        written =
      absurd sent
  serve-requests (suc fuel) env i fails [] [] (_ ∷ _) s w h faithful sent fit answered written =
      absurd answered
  serve-requests (suc fuel) env i fails (_ ∷ _) (_ ∷ _) [] s w h faithful sent fit answered
        written =
      absurd answered

  handle_connection-accepted :
      (env : ℕ → Env Client) (s : AgentState Client) (r : Reader) (w : Writer) {r' : Reader}
      → read_frame r ≡ ok (setting.expected_token, r')
      → length setting.expected_token ≡ token_len
      → handle_connection setting env
          (record {
            blocking = true;
            peer_uid = some setting.expected_euid;
            incoming = r;
            outgoing = w;
          })
          s
        ≡ serve setting (suc (length r'.incoming)) env 1 r' (touch (env 0) s) w
  unfolding handle_connection
  handle_connection-accepted env s r w read long =
      ground (arith, text_eq_refl setting.expected_token)

  -- A client of the right user that sends the token, of 32 bytes, and then requests other than to exit, and closes the
  -- connection behind them, is served all of these requests in their order: the agent's state
  -- is what they make one after the other, and what was written are the frames of their answers, in
  -- order. Postcard must decode what it encoded, every answer must have an encoding, and the client must
  -- take all that is written.
  pub handle_connection-requests :
      (env : ℕ → Env Client) (s : AgentState Client) (requests : List AgentRequest)
      (bodies answers : List Bytes) (client w : Writer) (fails : FramingError)
      → length setting.expected_token ≡ token_len
      → Faithful setting.requests
      → Sent setting requests bodies
      → client.written ≡ []
      → (write_frames (setting.expected_token ∷ bodies) client).0 ≡ ok tt
      → Answers setting (dispatch_all env 1 requests (touch (env 0) s)).0 answers
      → (write_frames answers w).0 ≡ ok tt
      → handle_connection setting env
          (record {
            blocking = true;
            peer_uid = some setting.expected_euid;
            incoming = record {
              incoming = (write_frames (setting.expected_token ∷ bodies) client).1.written;
              then_fails = fails;
            };
            outgoing = w;
          })
          s
        ≡ some (record {
          outcome = ok tt;
          state = (dispatch_all env 1 requests (touch (env 0) s)).1;
          outgoing = (write_frames answers w).1;
        })
  handle_connection-requests env s requests bodies answers client w fails long faithful sent fresh
        out answered written =
      let ((token_fits, fits), e) =
        write_frames-eq-ok (setting.expected_token ∷ bodies) client out in
      rw (e, fresh)
        (handle_connection-accepted env s _ w
            (read_frame-framed setting.expected_token (framed_all bodies) fails token_fits) long
          ∙ serve-requests (suc (length (framed_all bodies))) env 1 fails requests bodies answers
              (touch (env 0) s) w (omega (arith, length-framed_all bodies)) faithful sent fits
              answered written)
