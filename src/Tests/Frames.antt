-- ===== src/Tests/Frames.antt =====
-- Frames: a small encoding that keeps the promise of `postcard`, and the theorems at it.
use zz_drop.Prelude.{
  ℕ, ◌≤◌, ◌≡◌, refl, Text, Bytes, codes, List, [], ◌∷◌, ◌++◌, Result, ok, err, arith, length, ◌==◌,
  ◌⊎◌, inl, inr, if◌then◌else◌,
}
use zz_drop.Proto.{AgentRequest, AgentResponse, VersionedRequest, VersionedResponse}
use zz_drop.Proto.Framing.{
  Postcard, Faithful, Reader, Writer, FramingError, encode_request_body, encode_response_body,
  encode_request, decode_request, encode_response, split_frame, read_frame, read_exact, to_be_bytes,
  from_be_bytes, frame_payload, frame_limit, encode_request_body, encode_response_body, write_frame,
  write_all, decode_request_body,
}
use zz_drop.Proto.Framing.RoundTrip.{decode_request-encode_request}
use zz_drop.Proto.Framing.RoundTrip.Stream.{read_frames, write_frames, read_frames-write_frames}
use zz_drop.Proto.Framing.Limits.{read_frame_bounds}

pub request_tag : AgentRequest → Result Text ℕ
request_tag AgentRequest.ping = ok 0
request_tag AgentRequest.get_profile = ok 2
request_tag AgentRequest.lock = ok 6
request_tag _ = err (codes "not in this table")

pub request_of : ℕ → Result Text AgentRequest
request_of tag =
    if tag == 0
    then ok AgentRequest.ping
    else if tag == 2
    then ok AgentRequest.get_profile
    else if tag == 6
    then ok AgentRequest.lock
    else err (codes "unknown tag")

pub encode_small : VersionedRequest → Result Text Bytes
unfolding request_tag
encode_small v = elim (request_tag v.request) [ ok tag ↦ ok (v.version ∷ tag ∷ []) | err e ↦ err e ]

pub decode_small : Bytes → Result Text VersionedRequest
unfolding request_of
decode_small (version ∷ tag ∷ _) = elim (request_of tag) [
  | ok r ↦ ok (record { version = version; request = r })
  | err e ↦ err e
]
decode_small _ = err (codes "end of input")

-- Three requests in two bytes each.
abbrev pub small : Postcard VersionedRequest
small = record { to_allocvec = encode_small; from_bytes = decode_small }

request_of-request_tag :
    (r : AgentRequest) (tag : ℕ) → request_tag r ≡ ok tag → request_of tag ≡ ok r
unfolding request_tag request_of
request_of-request_tag AgentRequest.ping tag h = ground arith
request_of-request_tag AgentRequest.get_profile tag h = ground arith
request_of-request_tag AgentRequest.lock tag h = ground arith
request_of-request_tag (AgentRequest.unlock _ _ _ _) tag h = cc
request_of-request_tag (AgentRequest.update_profile _) tag h = cc
request_of-request_tag (AgentRequest.update_profile_set _) tag h = cc
request_of-request_tag (AgentRequest.set_active_alias _) tag h = cc
request_of-request_tag AgentRequest.exit tag h = cc
request_of-request_tag AgentRequest.status tag h = cc
request_of-request_tag (AgentRequest.list_remote _ _ _) tag h = cc
request_of-request_tag (AgentRequest.invalidate_remote _) tag h = cc

pub small-Faithful : Faithful small
unfolding encode_small decode_small
small-Faithful v body h = ground (arith, request_of-request_tag v.request)

pub response_tag : AgentResponse → Result Text ℕ
response_tag AgentResponse.pong = ok 0
response_tag AgentResponse.locked = ok 4
response_tag _ = err (codes "not in this table")

pub encode_answer : VersionedResponse → Result Text Bytes
unfolding response_tag
encode_answer v = elim (response_tag v.response) [
  | ok tag ↦ ok (v.version ∷ tag ∷ [])
  | err e ↦ err e
]

pub decode_answer : Bytes → Result Text VersionedResponse
decode_answer (version ∷ tag ∷ _) =
    if tag == 0
    then ok (record { version = version; response = AgentResponse.pong })
    else if tag == 4
    then ok (record { version = version; response = AgentResponse.locked })
    else err (codes "unknown tag")
decode_answer _ = err (codes "end of input")

abbrev pub small_answers : Postcard VersionedResponse
small_answers = record { to_allocvec = encode_answer; from_bytes = decode_answer }

response_tag-eq-ok :
    (r : AgentResponse) (tag : ℕ)
    → response_tag r ≡ ok tag
    → ((r ≡ AgentResponse.pong) × (tag ≡ 0)) ⊎ ((r ≡ AgentResponse.locked) × (tag ≡ 4))
unfolding response_tag
response_tag-eq-ok AgentResponse.pong tag h = inl (ground arith)
response_tag-eq-ok AgentResponse.locked tag h = inr (ground arith)
response_tag-eq-ok AgentResponse.unlocked tag h = cc
response_tag-eq-ok (AgentResponse.profile _) tag h = cc
response_tag-eq-ok AgentResponse.updated tag h = cc
response_tag-eq-ok AgentResponse.exited tag h = cc
response_tag-eq-ok (AgentResponse.status _ _) tag h = cc
response_tag-eq-ok (AgentResponse.error _) tag h = cc
response_tag-eq-ok (AgentResponse.remote_list _ _ _) tag h = cc

small_answers-Faithful : Faithful small_answers
unfolding encode_answer decode_answer
small_answers-Faithful v body h = ground (arith, response_tag-eq-ok v.response)

pub ping_body : encode_request_body small AgentRequest.ping ≡ ok (1 ∷ 0 ∷ [])
unfolding encode_request_body encode_small
ping_body = refl

pub lock_body : encode_request_body small AgentRequest.lock ≡ ok (1 ∷ 6 ∷ [])
unfolding encode_request_body encode_small
lock_body = refl

pub pong_body : encode_response_body small_answers AgentResponse.pong ≡ ok (1 ∷ 0 ∷ [])
unfolding encode_response_body encode_answer
pong_body = refl

pub locked_body : encode_response_body small_answers AgentResponse.locked ≡ ok (1 ∷ 4 ∷ [])
unfolding encode_response_body encode_answer
locked_body = refl

abbrev ping_frame : Bytes
ping_frame = 0 ∷ 0 ∷ 0 ∷ 2 ∷ 1 ∷ 0 ∷ []

abbrev two_bytes : Bytes
two_bytes = 1 ∷ 0 ∷ []

abbrev locked_frame : Bytes
locked_frame = 0 ∷ 0 ∷ 0 ∷ 2 ∷ 1 ∷ 4 ∷ []

abbrev fresh_writer : Writer
fresh_writer = record { written = []; room = 100; failure = codes "broken pipe" }

abbrev three_payloads : List Bytes
three_payloads = (7 ∷ 8 ∷ []) ∷ [] ∷ (9 ∷ []) ∷ []

ping_encoded : encode_request small AgentRequest.ping ≡ ok ping_frame
unfolding encode_request encode_request_body encode_small request_tag frame_payload to_be_bytes
ping_encoded = refl

locked_encoded : encode_response small_answers AgentResponse.locked ≡ ok locked_frame
unfolding encode_response encode_response_body encode_answer response_tag frame_payload to_be_bytes
locked_encoded = refl

version_2_refused :
    decode_request small (0 ∷ 0 ∷ 0 ∷ 2 ∷ 2 ∷ 0 ∷ []) ≡ err (FramingError.unsupported_version 2 1)
unfolding decode_request decode_request_body decode_small request_of split_frame from_be_bytes
version_2_refused = refl

decode_request-encode_request_example :
    decode_request small (ping_frame ++ (5 ∷ [])) ≡ ok AgentRequest.ping
decode_request-encode_request_example =
    decode_request-encode_request small AgentRequest.ping ping_frame (5 ∷ []) small-Faithful
      ping_encoded

framed_example : frame_payload (1 ∷ 0 ∷ []) ≡ ok ping_frame
unfolding frame_payload to_be_bytes
framed_example = refl

split_example : split_frame (ping_frame ++ (5 ∷ [])) ≡ ok (1 ∷ 0 ∷ [])
unfolding split_frame from_be_bytes
split_example = refl

abbrev ping_reader : Reader
ping_reader = record { incoming = ping_frame ++ (5 ∷ []); then_fails = FramingError.truncated }

read_example :
    read_frame ping_reader
    ≡ ok (1 ∷ 0 ∷ [], record { incoming = 5 ∷ []; then_fails = FramingError.truncated })
unfolding read_frame read_exact from_be_bytes
read_example = refl

read_frame_bounds_example :
    (length two_bytes ≤ frame_limit)
    × ((prefix : Bytes) × (length prefix ≡ 4)
        × (from_be_bytes prefix ≡ length two_bytes)
        × (ping_frame ++ (5 ∷ []) ≡ prefix ++ (two_bytes ++ (5 ∷ []))))
read_frame_bounds_example =
    read_frame_bounds ping_reader
      (record { incoming = 5 ∷ []; then_fails = FramingError.truncated }) (1 ∷ 0 ∷ []) read_example

three_written : (write_frames three_payloads fresh_writer).0 ≡ ok tt
unfolding write_frames write_frame write_all to_be_bytes
three_written = refl

read_frames-write_frames_example :
    read_frames 3 (record {
      incoming = (write_frames three_payloads fresh_writer).1.written ++ (5 ∷ []);
      then_fails = FramingError.truncated;
    })
    ≡ ok (three_payloads, record { incoming = 5 ∷ []; then_fails = FramingError.truncated })
read_frames-write_frames_example =
    read_frames-write_frames three_payloads fresh_writer (5 ∷ []) FramingError.truncated refl
      three_written
