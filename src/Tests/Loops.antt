-- ===== src/Tests/Loops.antt =====
-- Connections and the accept loop: a run of the model, and the theorems at it.
use zz_drop.Prelude.{
  List, ◌⊎◌, ℕ, ◌+◌, ◌≡◌, refl, Bytes, codes, true, Option, none, some, [], ◌∷◌, ◌++◌, text_eq, ok,
  err,
}
use zz_drop.Proto.Framing.{FramingError, Writer, write_frame, write_all, to_be_bytes}
use zz_drop.Profile.Container.{find_by_alias}
use zz_drop.Agent.ListCache.{secs}
use zz_drop.Agent.State.{AgentState, unlock, active_of, touch}
use zz_drop.Agent.State.Consistent.{IsConsistent}
use zz_drop.Agent.State.Listing.Bounds.{IsCapped}
use zz_drop.Agent.Connection.{Setting, Ended, Connection, Turn, ConnError, handle_connection, run}
use zz_drop.Agent.Connection.Auth.{Refused, Authenticated, handle_connection-Authenticated}
use zz_drop.Agent.Connection.Serves.{Sent, Answers, handle_connection-requests}
use zz_drop.Agent.Server.{dispatch}
use zz_drop.Agent.Server.Requests.{dispatch_all}
use zz_drop.Proto.{AgentRequest}
use zz_drop.Proto.Framing.RoundTrip.Stream.{write_frames}
use zz_drop.Agent.Connection.Reachable.{run-IsConsistent}
use zz_drop.Tests.Data.{profile_of, alpha, two_profiles, kek, at, disk, locked}
use zz_drop.Tests.Frames.{
  ping_body, lock_body, pong_body, locked_body, small-Faithful, small, small_answers,
}

abbrev zeros_32 : Bytes
zeros_32 =
    0 ∷ 0 ∷ 0 ∷ 0 ∷ 0 ∷ 0 ∷ 0 ∷ 0 ∷ 0 ∷ 0 ∷ 0 ∷ 0 ∷ 0 ∷ 0 ∷ 0 ∷ 0 ∷ 0 ∷ 0 ∷ 0 ∷ 0 ∷ 0 ∷ 0 ∷ 0 ∷ 0
    ∷ 0 ∷ 0 ∷ 0 ∷ 0 ∷ 0 ∷ 0 ∷ 0 ∷ 0 ∷ []

abbrev setting : Setting
setting = record {
  requests = small;
  responses = small_answers;
  expected_euid = 1000;
  expected_token = zeros_32;
}

abbrev writer : Writer
writer = record { written = []; room = 100; failure = codes "broken pipe" }

-- the token, `Ping`, `Lock`, and the end of the stream
abbrev visitor : Option ℕ → Bytes → Connection
visitor uid bytes = record {
  blocking = true;
  peer_uid = uid;
  incoming = record { incoming = bytes; then_fails = FramingError.truncated };
  outgoing = writer;
}

abbrev pings : Bytes
pings = 0 ∷ 0 ∷ 0 ∷ 2 ∷ 1 ∷ 0 ∷ 0 ∷ 0 ∷ 0 ∷ 2 ∷ 1 ∷ 6 ∷ []

abbrev friend : Connection
friend = visitor (some 1000) (0 ∷ 0 ∷ 0 ∷ 32 ∷ zeros_32 ++ pings)

abbrev guesser : Connection
guesser = visitor (some 1000) (0 ∷ 0 ∷ 0 ∷ 1 ∷ 9 ∷ [])

abbrev open_alpha : AgentState ℕ
unfolding unlock
open_alpha = unlock (at 5) two_profiles kek alpha none locked

abbrev friendly_turn : Turn ℕ
friendly_turn = record { at = at 6; during = λ i. at (7 + i); waiting = some friend }

abbrev late_turn : Turn ℕ
late_turn = record { at = at 999; during = λ i. at 999; waiting = none }

run-IsConsistent_example :
    IsConsistent (run setting (secs 300) (friendly_turn ∷ late_turn ∷ []) locked).1
    × IsCapped (run setting (secs 300) (friendly_turn ∷ late_turn ∷ []) locked).1.list_cache
run-IsConsistent_example =
    run-IsConsistent setting 0 (secs 600) (secs 300) disk (friendly_turn ∷ late_turn ∷ [])

-- what the friend's client wrote, and the answers to it
abbrev ping_and_lock : List AgentRequest
ping_and_lock = AgentRequest.ping ∷ AgentRequest.lock ∷ []

abbrev bodies : List Bytes
bodies = (1 ∷ 0 ∷ []) ∷ (1 ∷ 6 ∷ []) ∷ []

abbrev answers : List Bytes
answers = (1 ∷ 0 ∷ []) ∷ (1 ∷ 4 ∷ []) ∷ []

bodies-Sent : Sent setting ping_and_lock bodies
bodies-Sent = (ping_body, refl, (lock_body, refl, tt))

client_wrote : (write_frames (zeros_32 ∷ bodies) writer).0 ≡ ok tt
unfolding write_frames write_frame write_all to_be_bytes
client_wrote = refl

agent_wrote : (write_frames answers writer).0 ≡ ok tt
unfolding write_frames write_frame write_all to_be_bytes
agent_wrote = refl

answers_encoded :
    Answers setting
      (dispatch_all (λ i. at (7 + i)) 1 ping_and_lock (touch (at 7) open_alpha)).0
      answers
unfolding dispatch_all dispatch
answers_encoded = (pong_body, (locked_body, tt))

handle_connection-requests_example :
    handle_connection setting
      (λ i. at (7 + i))
      (record {
        blocking = true;
        peer_uid = some 1000;
        incoming = record {
          incoming = (write_frames (zeros_32 ∷ bodies) writer).1.written;
          then_fails = FramingError.truncated;
        };
        outgoing = writer;
      })
      open_alpha
    ≡ some (record {
      outcome = ok tt;
      state = (dispatch_all (λ i. at (7 + i)) 1 ping_and_lock (touch (at 7) open_alpha)).1;
      outgoing = (write_frames answers writer).1;
    })
handle_connection-requests_example =
    handle_connection-requests setting (λ i. at (7 + i)) open_alpha ping_and_lock bodies answers
      writer writer FramingError.truncated refl small-Faithful bodies-Sent refl client_wrote
      answers_encoded agent_wrote

abbrev refused_stranger : Ended ℕ
refused_stranger = record {
  outcome = err ConnError.unauthorized;
  state = open_alpha;
  outgoing = writer;
}

stranger_refused :
    handle_connection setting (λ i. at (7 + i)) (visitor (some 1001) pings) open_alpha
    ≡ some refused_stranger
unfolding handle_connection
stranger_refused = refl

handle_connection-Authenticated_example :
    Refused open_alpha (visitor (some 1001) pings) refused_stranger
    ⊎ Authenticated setting (visitor (some 1001) pings)
handle_connection-Authenticated_example =
    handle_connection-Authenticated setting (λ i. at (7 + i)) (visitor (some 1001) pings) open_alpha
      refused_stranger stranger_refused

alpha_active :
    active_of open_alpha.inner.active_alias open_alpha.inner.profile_set ≡ some (profile_of alpha)
unfolding unlock find_by_alias text_eq
alpha_active = refl
