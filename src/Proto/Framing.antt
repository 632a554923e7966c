-- ===== src/Proto/Framing.antt =====
-- core/src/agent_proto/framing.rs: length-prefixed frames around versioned messages. `postcard`,
-- which turns a message into bytes, is the argument `pc` of the functions that use it.
pub mod Lengths
pub mod RoundTrip
pub mod Limits
use zz_drop.Prelude.{
  ℕ, ◌+◌, ◌*◌, ◌/◌, ◌%◌, ◌^◌, ◌-◌, ◌≡◌, Text, Bytes, Bool, not, List, [], ◌∷◌, ◌++◌, length, take,
  drop, ltb, leb, ◌==◌, if◌then◌else◌, Result, ok, err, ◌>>=◌, ◌>>◌, map_err,
}
use zz_drop.Proto.{
  AgentRequest, AgentResponse, VersionedRequest, VersionedResponse, protocol_version,
}

abbrev pub frame_limit : ℕ
frame_limit = 2 ^ 20

pub data FramingError : Type 0 where
  frame_too_large : (size limit : ℕ) → FramingError
  io : Text → FramingError
  encode : Text → FramingError
  decode : Text → FramingError
  unsupported_version : (got expected : ℕ) → FramingError
  truncated : FramingError

-- `u32::to_be_bytes` and `u32::from_be_bytes`
unfoldable pub to_be_bytes : ℕ → Bytes
to_be_bytes n = n / 2 ^ 24 % 256 ∷ n / 2 ^ 16 % 256 ∷ n / 2 ^ 8 % 256 ∷ n % 256 ∷ []

unfoldable pub from_be_bytes : Bytes → ℕ
from_be_bytes (a ∷ b ∷ c ∷ d ∷ _) = a * 2 ^ 24 + b * 2 ^ 16 + c * 2 ^ 8 + d
from_be_bytes _ = 0

-- `u32::try_from(payload.len())`, with the error that the callers map it to
abbrev length_u32 : Bytes → Result FramingError ℕ
length_u32 payload =
    if ltb (length payload) (2 ^ 32)
    then ok (length payload)
    else err (frame_too_large (length payload) frame_limit)

unfoldable pub frame_payload : Bytes → Result FramingError Bytes
unfolding to_be_bytes
frame_payload payload =
    if ltb frame_limit (length payload)
    then err (frame_too_large (length payload) frame_limit)
    else do len ← length_u32 payload; ok (to_be_bytes len ++ payload)

unfoldable pub split_frame : Bytes → Result FramingError Bytes
unfolding from_be_bytes
split_frame frame =
    let len = from_be_bytes (take 4 frame) in
    if ltb (length frame) 4
    then err truncated
    else if ltb frame_limit len
    then err (frame_too_large len frame_limit)
    else if ltb (length frame) (4 + len)
    then err truncated
    else ok (take len (drop 4 frame))

-- `postcard::to_allocvec` and `postcard::from_bytes` at one type. Its documented promise, used only
-- where a theorem takes it: what it encoded it decodes to the same value.
pub record Postcard (A : Type 0) : Type 0 where
  pub to_allocvec : A → Result Text Bytes
  pub from_bytes : Bytes → Result Text A

abbrev pub Faithful : {A : Type 0} → Postcard A → Type 0
Faithful {A} pc = (a : A) (body : Bytes) → pc.to_allocvec a ≡ ok body → pc.from_bytes body ≡ ok a

module _ (pc : Postcard VersionedRequest) where
  unfoldable pub encode_request_body : AgentRequest → Result FramingError Bytes
  encode_request_body req =
      map_err encode (pc.to_allocvec (record { version = protocol_version; request = req }))

  unfoldable pub decode_request_body : Bytes → Result FramingError AgentRequest
  decode_request_body body = do
    envelope ← map_err decode (pc.from_bytes body)
    if not (envelope.version == protocol_version)
        then err (unsupported_version envelope.version protocol_version)
        else ok envelope.request

  unfoldable pub encode_request : AgentRequest → Result FramingError Bytes
  encode_request req = do payload ← encode_request_body req; frame_payload payload

  unfoldable pub decode_request : Bytes → Result FramingError AgentRequest
  decode_request frame = do body ← split_frame frame; decode_request_body body

module _ (pc : Postcard VersionedResponse) where
  unfoldable pub encode_response_body : AgentResponse → Result FramingError Bytes
  encode_response_body resp =
      map_err encode (pc.to_allocvec (record { version = protocol_version; response = resp }))

  unfoldable pub decode_response_body : Bytes → Result FramingError AgentResponse
  decode_response_body body = do
    envelope ← map_err decode (pc.from_bytes body)
    if not (envelope.version == protocol_version)
        then err (unsupported_version envelope.version protocol_version)
        else ok envelope.response

  unfoldable pub encode_response : AgentResponse → Result FramingError Bytes
  encode_response resp = do payload ← encode_response_body resp; frame_payload payload

  unfoldable pub decode_response : Bytes → Result FramingError AgentResponse
  decode_response frame = do body ← split_frame frame; decode_response_body body

-- A stream to read from: the bytes that will still come, and the error behind them (`truncated` is
-- the end of the stream, as `FramingError::from` turns `UnexpectedEof` into `Truncated`).
pub record Reader : Type 0 where
  pub incoming : Bytes
  pub then_fails : FramingError

-- `read_exact`, with the error already converted
unfoldable pub read_exact : ℕ → Reader → Result FramingError (Bytes × Reader)
read_exact n r =
    if leb n (length r.incoming)
    then ok (take n r.incoming, record r { incoming = drop n r.incoming })
    else err r.then_fails

unfoldable pub read_frame : Reader → Result FramingError (Bytes × Reader)
unfolding read_exact from_be_bytes
read_frame r = do
  (len_bytes, r') ← read_exact 4 r
  let len = from_be_bytes len_bytes
  if ltb frame_limit len then err (frame_too_large len frame_limit) else read_exact len r'

-- A stream to write to: what has been written, and how much it still takes before it fails.
pub record Writer : Type 0 where
  pub written : Bytes
  pub room : ℕ
  pub failure : Text

-- `write_all`; a write that fails has written what fitted
unfoldable pub write_all : Bytes → Writer → Result FramingError (Unit {0}) × Writer
write_all bytes w =
    if leb (length bytes) w.room
    then (ok tt, record w { written = w.written ++ bytes; room = w.room - length bytes })
    else (err (io w.failure), record w { written = w.written ++ take w.room bytes; room = 0 })

-- the payload is written only if its length was
abbrev write_rest :
    Bytes → Result FramingError (Unit {0}) × Writer → Result FramingError (Unit {0}) × Writer
write_rest payload (ok _, w) = write_all payload w
write_rest payload (err e, w) = (err e, w)

unfoldable pub write_frame : Bytes → Writer → Result FramingError (Unit {0}) × Writer
unfolding write_all to_be_bytes
write_frame payload w =
    if ltb frame_limit (length payload)
    then (err (frame_too_large (length payload) frame_limit), w)
    else elim (length_u32 payload) [
      | ok len ↦ write_rest payload (write_all (to_be_bytes len) w)
      | err e ↦ (err e, w)
    ]
