-- ===== src/Proto/Framing/RoundTrip.antt =====
-- Framing against reading back: from a slice, from a stream, and through the message encoding.
pub mod Stream
use zz_drop.Prelude.{
  ℕ, ◌+◌, ◌≡◌, refl, sym, ap, ◌∙◌, List, [], ◌∷◌, ◌++◌, Bytes, length, take, drop, arith, ok,
  append_assoc, take-length-append, drop-length-append, length-append, >>=-eq-ok, map_err, ◌≤◌,
  Result, err,
}
use zz_drop.Proto.{VersionedRequest, VersionedResponse, AgentRequest, AgentResponse}
use zz_drop.Proto.Framing.{
  to_be_bytes, from_be_bytes, frame_payload, split_frame, frame_limit, Postcard, Faithful,
  encode_request_body, decode_request_body, encode_request, decode_request, encode_response_body,
  decode_response_body, encode_response, decode_response, FramingError, encode,
}
use zz_drop.Proto.Framing.Lengths.{
  from_be_bytes-to_be_bytes, length-to_be_bytes, take-to_be_bytes, drop-to_be_bytes,
  frame_payload-eq-ok,
}

split_frame-prefix :
    (payload rest : Bytes)
    → length payload ≤ frame_limit
    → split_frame (to_be_bytes (length payload) ++ (payload ++ rest)) ≡ ok payload
unfolding split_frame
split_frame-prefix payload rest h =
    rw
      (
        take-to_be_bytes,
        from_be_bytes-to_be_bytes (length payload) [] (omega arith),
        drop-to_be_bytes,
        take-length-append,
      )
      (ground (
        arith,
        length-append (to_be_bytes (length payload)) (payload ++ rest),
        length-append payload rest,
        length-to_be_bytes (length payload),
      ))

-- Whatever frame was built from a payload, and whatever stands behind it in the buffer, splitting
-- returns exactly that payload.
pub split_frame-frame_payload :
    (payload rest frame : Bytes)
    → frame_payload payload ≡ ok frame
    → split_frame (frame ++ rest) ≡ ok payload
split_frame-frame_payload payload rest frame h =
    let (fits, e) = frame_payload-eq-ok payload frame h in
    rw (← e, append_assoc) (split_frame-prefix payload rest fits)

map_err-ok : {A : Type 0} (r : Result Bytes A) (a : A) → map_err encode r ≡ ok a → r ≡ ok a
map_err-ok (ok b) a h = ground arith
map_err-ok (err e) a h = cc

-- A request encoded by one end is decoded to itself by the other, whatever stands behind the frame,
-- if `postcard` decodes what it encoded.
pub decode_request-encode_request :
    (pc : Postcard VersionedRequest) (req : AgentRequest) (frame rest : Bytes)
    → Faithful pc
    → encode_request pc req ≡ ok frame
    → decode_request pc (frame ++ rest) ≡ ok req
unfolding encode_request decode_request encode_request_body decode_request_body
decode_request-encode_request pc req frame rest faithful h =
    let (body, encoded, framed) = >>=-eq-ok (encode_request_body pc req) frame_payload h in
    let back = faithful _ body (map_err-ok _ body encoded) in
    rw (split_frame-frame_payload body rest frame framed, back)

-- A response encoded by one end is decoded to itself by the other, whatever stands behind the frame,
-- if `postcard` decodes what it encoded.
pub decode_response-encode_response :
    (pc : Postcard VersionedResponse) (resp : AgentResponse) (frame rest : Bytes)
    → Faithful pc
    → encode_response pc resp ≡ ok frame
    → decode_response pc (frame ++ rest) ≡ ok resp
unfolding encode_response decode_response encode_response_body decode_response_body
decode_response-encode_response pc resp frame rest faithful h =
    let (body, encoded, framed) = >>=-eq-ok (encode_response_body pc resp) frame_payload h in
    let back = faithful _ body (map_err-ok _ body encoded) in
    rw (split_frame-frame_payload body rest frame framed, back)
