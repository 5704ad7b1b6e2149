-- ===== src/Tests/Server.antt =====
-- The theorems on the server at concrete inputs, with the two protocols.
use prime_server.Prelude.{
  ◌-◌, ◌≡◌, refl, arith, none, some, List, [], ◌∷◌, Bytes, codes, Bool, true, false, equal, All,
  inl, inr, ◌==◌, ==_iff, Bool-cases,
}
use prime_server.Prelude.Maps.{find, erase, nat_key, bytes_key}
use prime_server.Prelude.Effects.{IsDefined, value, undefined, Ends}
use prime_server.Netstring.{NetstringEntity, fresh, response, bad_length}
use prime_server.Netstring
use prime_server.Stdlib
use prime_server.Http.{get, find_header}
use prime_server.Http.Message
use prime_server.Http.Request.{HttpRequest}
use prime_server.Http.Request
use prime_server.Http.Message.{HttpRequestInfo}
use prime_server.Server.{
  Server, Config, Poll, Environment, sent, request_key, key, serve, handle_timeouts, handle_request,
  dequeue, enqueue_each, client_bytes, client_identity,
}
use prime_server.Server.Tracking.{IsTracked}
use prime_server.Server.Timeouts.{AllCurrent, handle_timeouts-AllCurrent, serve-IsTracked}
use prime_server.Server.Replies.{IsInterrupted, dequeue-dequeue, handle_request_disconnect}
use prime_server.Server.Orphans.{all_sent, handle_request_rejected, enqueue_each_dangles}
use prime_server.Protocols.{
  NetstringRequestInfo, read_netstring_info, netstring_protocol, http_protocol,
}
use prime_server.Server.Defined.{HoldsInfo, serve-IsDefined}
use prime_server.Protocols.Laws.{netstring_protocol-IsLawful}

abbrev config : Config NetstringEntity
config = record {
  max_request_size = 10;
  request_timeout = 5;
  health_check_matcher = none;
  health_check_response = [];
}

abbrev open_line : Environment NetstringRequestInfo
open_line trace frame = sent

abbrev empty_server : Server NetstringEntity NetstringRequestInfo
empty_server = record {
  request_id = 0;
  sessions = [];
  requests = [];
  request_history = [];
  trace = [];
}

abbrev info : NetstringRequestInfo
info = record { id = 0; time_stamp = 100 }

abbrev session : NetstringEntity
session = record { body = []; body_length = 0; enqueued = request_key 0 100 ∷ [] }

-- A client with a request that waits.
abbrev busy_server : Server NetstringEntity NetstringRequestInfo
busy_server = record {
  request_id = 1;
  sessions = (codes "c", session) ∷ [];
  requests = (request_key 0 100, codes "c") ∷ [];
  request_history = info ∷ [];
  trace = [];
}

empty_server-IsTracked : IsTracked netstring_protocol empty_server
unfolding find
empty_server-IsTracked k identity h = absurd (cc h)

busy_server-IsTracked : IsTracked netstring_protocol busy_server
unfolding find netstring_protocol
busy_server-IsTracked k identity h = elim (Bool-cases (request_key 0 100 == k)) [
  | inl e ↦ inl ((==_iff (request_key 0 100) k).0 e)
  | inr e ↦ absurd (ground (arith, e, h))
]

-- The bytes of `info`.
abbrev info_frame : Bytes
info_frame = 0 ∷ 0 ∷ 0 ∷ 0 ∷ 100 ∷ 0 ∷ 0 ∷ 0 ∷ []

info_frame_read : netstring_protocol.read_info info_frame ≡ some info
unfolding netstring_protocol read_netstring_info Stdlib.read_bytes
info_frame_read = refl

-- A client connects, sends two requests, and goes away; an answer comes for the first.
abbrev polls : List Poll
polls =
    record { result = none; request = some (codes "c" ∷ [] ∷ []); now = 100 }
    ∷ record { result = none; request = some (codes "c" ∷ codes "1:x,1:y," ∷ []); now = 100 }
    ∷ record {
      result = some (info_frame ∷ codes "ok" ∷ []);
      request = some (codes "c" ∷ [] ∷ []);
      now = 101;
    }
    ∷ []

serve-IsTracked_example :
    Ends
      (λ _. IsTracked netstring_protocol)
      (IsTracked netstring_protocol)
      (serve netstring_protocol config open_line polls empty_server)
serve-IsTracked_example =
    serve-IsTracked netstring_protocol config open_line netstring_protocol-IsLawful polls
      empty_server empty_server-IsTracked

handle_timeouts-AllCurrent_example :
    Ends
      (λ _. AllCurrent netstring_protocol config open_line netstring_protocol-IsLawful (200 - 5))
      (IsTracked netstring_protocol)
      (handle_timeouts netstring_protocol config open_line 200 busy_server)
handle_timeouts-AllCurrent_example =
    handle_timeouts-AllCurrent netstring_protocol config open_line netstring_protocol-IsLawful 200
      busy_server busy_server-IsTracked (tt, tt)

-- The request of the client is answered.
abbrev answered_server : Server NetstringEntity NetstringRequestInfo
answered_server = record busy_server {
  requests = [];
  trace = (client_bytes (codes "ok"), sent) ∷ (client_identity (codes "c"), sent) ∷ [];
}

dequeue-dequeue_example :
    dequeue netstring_protocol config open_line info (codes "late") answered_server
    ≡ value false answered_server
unfolding dequeue netstring_protocol find equal erase request_key prime_server.Server.send
dequeue-dequeue_example =
    dequeue-dequeue netstring_protocol config open_line info (codes "ok") (codes "late") busy_server
      answered_server true refl

handle_request_disconnect_example :
    IsDefined
      (handle_request netstring_protocol config open_line 101 (codes "c" ∷ [] ∷ []) busy_server)
    × Ends
        (λ _ t.
          (find (codes "c") t.sessions ≡ none)
          × All
              (IsInterrupted netstring_protocol config open_line t)
              (netstring_protocol.enqueued session))
        (λ _. Unit {0})
        (handle_request netstring_protocol config open_line 101 (codes "c" ∷ [] ∷ []) busy_server)
unfolding find equal
handle_request_disconnect_example =
    handle_request_disconnect netstring_protocol config open_line 101 (codes "c") session
      busy_server refl

handle_request_rejected_example :
    (t : Server NetstringEntity NetstringRequestInfo) × (handle_request netstring_protocol config
        (all_sent netstring_protocol config)
        101
        (codes "c" ∷ codes "x" ∷ [])
        busy_server
      ≡ value tt t)
    × (find (codes "c") t.sessions ≡ none)
    × (t.requests ≡ busy_server.requests)
unfolding find netstring_protocol Netstring.from_stream Stdlib.is_digit equal
handle_request_rejected_example =
    handle_request_rejected netstring_protocol config 101 (codes "c") b'x' [] (response bad_length)
      session session busy_server refl refl

abbrev is_health : HttpRequest → Bool
is_health r = equal r.path (codes "/health")

abbrev http_config : Config HttpRequest
http_config = record {
  max_request_size = 1000;
  request_timeout = 5;
  health_check_matcher = some is_health;
  health_check_response = codes "HTTP/1.0 200 OK\r\n\r\n";
}

-- A request of HTTP/1.0, which is not kept alive.
abbrev health_request : HttpRequest
health_request = Request.make_request get (codes "/health") [] [] [] (codes "HTTP/1.0")

abbrev http_server : Server HttpRequest HttpRequestInfo
http_server = record {
  request_id = 1;
  sessions = (codes "c", Request.fresh get) ∷ [];
  requests = [];
  request_history = [];
  trace = [];
}

enqueue_each_dangles_example :
    enqueue_each
      (http_protocol get some some)
      http_config
      (all_sent (http_protocol get some some) http_config)
      100
      (codes "c")
      (health_request ∷ health_request ∷ [])
      http_server
    ≡ undefined
unfolding find equal http_protocol Message.to_info Message.keep_alive Request.make_request
    Message.request_to_string find_header
enqueue_each_dangles_example =
    enqueue_each_dangles (http_protocol get some some) http_config 100 (codes "c") is_health
      (Request.fresh get) health_request health_request [] http_server refl refl refl refl refl
      (λ _. (codes "GET /health HTTP/1.0\r\n\r\n", refl))

netstring_protocol-keep_alive : (i : NetstringRequestInfo) → netstring_protocol.keep_alive i ≡ true
unfolding netstring_protocol
netstring_protocol-keep_alive i = refl

-- A client that sends bytes that are rejected, an answer with a request of a client without a
-- session, and a time-out.
abbrev open_polls : List Poll
open_polls =
    record { result = none; request = some (codes "c" ∷ codes "x" ∷ []); now = 100 }
    ∷ record {
      result = some (info_frame ∷ codes "ok" ∷ []);
      request = some (codes "d" ∷ codes "3:abc," ∷ []);
      now = 100;
    }
    ∷ record { result = none; request = none; now = 200 }
    ∷ []

open_polls-HoldInfo : All (λ poll. HoldsInfo netstring_protocol poll.result) open_polls
open_polls-HoldInfo = (tt, ((λ e. absurd (cc (e, info_frame_read))), (tt, tt)))

serve-IsDefined_example :
    IsDefined (serve netstring_protocol config open_line open_polls busy_server)
serve-IsDefined_example =
    serve-IsDefined netstring_protocol config open_line netstring_protocol-keep_alive open_polls
      busy_server open_polls-HoldInfo
