-- ===== src/Proto/Framing/Limits.antt =====
-- Which frames and messages the readers of core/src/agent_proto/framing.rs accept.
use zz_drop.Prelude.{
  ℕ, ◌+◌, ◌<◌, ◌≤◌, ◌≡◌, sym, ap, ◌∙◌, [], ◌∷◌, ◌++◌, Bytes, length, take, drop, arith, ok, All,
  >>=-eq-ok, take-append-drop, length-take, length-drop,
}
use zz_drop.Proto.{VersionedRequest, AgentRequest, protocol_version}
use zz_drop.Proto.Framing.{
  to_be_bytes, from_be_bytes, split_frame, frame_limit, Postcard, decode_request_body, Reader,
  read_exact, read_frame,
}
use zz_drop.Proto.Framing.Lengths.{to_be_bytes-from_be_bytes}

abbrev pub IsByte : ℕ → Type 0
IsByte b = b < 256

four_bytes :
    (frame : Bytes)
    → (4 ≤ length frame)
    → All IsByte frame
    → (to_be_bytes (from_be_bytes (take 4 frame)) ≡ take 4 frame)
four_bytes (a ∷ b ∷ c ∷ d ∷ rest) h (ha, (hb, (hc, (hd, _)))) =
    to_be_bytes-from_be_bytes a b c d ha hb hc hd
four_bytes (a ∷ b ∷ c ∷ []) h _ = absurd (omega arith)
four_bytes (a ∷ b ∷ []) h _ = absurd (omega arith)
four_bytes (a ∷ []) h _ = absurd (omega arith)
four_bytes [] h _ = absurd (omega arith)

split_frame-eq-ok :
    (frame body : Bytes)
    → split_frame frame ≡ ok body
    → (4 ≤ length frame)
      × (from_be_bytes (take 4 frame) ≤ frame_limit)
      × (4 + from_be_bytes (take 4 frame) ≤ length frame)
      × (take (from_be_bytes (take 4 frame)) (drop 4 frame) ≡ body)
unfolding split_frame
split_frame-eq-ok frame body h = ground arith

-- A slice of bytes is accepted only if it begins with the body's length in four bytes and then the
-- body, and the body is within the limit.
pub split_frame_sound :
    (frame body : Bytes)
    → All IsByte frame
    → split_frame frame ≡ ok body
    → (length body ≤ frame_limit)
      × ((rest : Bytes) × (frame ≡ to_be_bytes (length body) ++ (body ++ rest)))
split_frame_sound frame body bytes h =
    let (four, small, enough, e) = split_frame-eq-ok frame body h in
    let n : ℕ = from_be_bytes (take 4 frame) in
    let size : length body ≡ n =
      omega (arith, ap length e, length-take n (drop 4 frame), length-drop 4 frame) in
    let tail : drop 4 frame ≡ body ++ drop n (drop 4 frame) =
      sym (take-append-drop n (drop 4 frame)) ∙ ap (λ b. b ++ drop n (drop 4 frame)) e in
    (
      omega arith,
      (
        drop n (drop 4 frame),
        sym (take-append-drop 4 frame)
            ∙ ap (λ b. b ++ drop 4 frame) (sym (four_bytes frame four bytes))
            ∙ ap (λ b. to_be_bytes n ++ b) tail
            ∙ ap (λ k. to_be_bytes k ++ (body ++ drop n (drop 4 frame))) (sym size),
      ),
    )

read_exact-eq-ok :
    (n : ℕ) (r r' : Reader) (bytes : Bytes)
    → read_exact n r ≡ ok (bytes, r')
    → (length bytes ≡ n) × (r.incoming ≡ bytes ++ r'.incoming)
unfolding read_exact
read_exact-eq-ok n r r' bytes h =
    ground (arith, length-take n r.incoming, take-append-drop n r.incoming)

read_frame-eq-ok :
    (r r' : Reader) (payload : Bytes)
    → read_frame r ≡ ok (payload, r')
    → (prefix : Bytes) × ((s : Reader) × (read_exact 4 r ≡ ok (prefix, s))
        × (from_be_bytes prefix ≤ frame_limit)
        × (read_exact (from_be_bytes prefix) s ≡ ok (payload, r')))
unfolding read_frame
read_frame-eq-ok r r' payload h =
    let ((prefix, s), first, later) = >>=-eq-ok (read_exact 4 r) _ h in
    (prefix, (s, first, ground arith, ground arith))

-- A read of a frame, whatever the peer sends, returns at most `frame_limit` bytes, which stood on
-- the connection behind a prefix of four bytes that gives their number.
pub read_frame_bounds :
    (r r' : Reader) (payload : Bytes)
    → read_frame r ≡ ok (payload, r')
    → (length payload ≤ frame_limit)
      × ((prefix : Bytes) × (length prefix ≡ 4)
          × (from_be_bytes prefix ≡ length payload)
          × (r.incoming ≡ prefix ++ (payload ++ r'.incoming)))
read_frame_bounds r r' payload h =
    let (prefix, (s, first, small, second)) = read_frame-eq-ok r r' payload h in
    let (four, e) = read_exact-eq-ok 4 r s prefix first in
    let (size, e') = read_exact-eq-ok (from_be_bytes prefix) s r' payload second in
    (omega arith, (prefix, four, sym size, e ∙ ap (λ b. prefix ++ b) e'))

-- A message body is accepted only in an envelope of this protocol's version.
pub decode_request_body-version :
    (pc : Postcard VersionedRequest) (body : Bytes) (req : AgentRequest)
    → decode_request_body pc body ≡ ok req
    → pc.from_bytes body ≡ ok (record { version = protocol_version; request = req })
unfolding decode_request_body
decode_request_body-version pc body req h = ground arith
