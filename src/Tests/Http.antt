-- ===== src/Tests/Http.antt =====
-- Runs of the HTTP codec, and its theorems at concrete inputs.
use prime_server.Prelude.{
  ◌≡◌, ◌-◌, refl, arith, Option, none, some, List, [], ◌∷◌, Bytes, codes, ◌++◌, equal,
  if◌then◌else◌, not,
}
use prime_server.Stdlib.{word_mod}
use prime_server.Http.{State, get, find_header}
use prime_server.Http.Query.{split_path_query, parameters}
use prime_server.Http.Query.Paths.{split_path_query-append, split_path_query-Lacks}
use prime_server.Http.Request.{
  HttpRequest, Outcome, returned, thrown, from_stream, fresh, make_request, seen_size,
}
use prime_server.Http.Request
use prime_server.Http.Request.Ends.{Leaves, from_stream-Leaves, fresh-IsReady}
use prime_server.Http.Request.Limits.{
  awaiting, buffering, from_stream-awaiting, from_stream_overflow,
}
use prime_server.Http.Message.{to_info, keep_alive, has_value}
use prime_server.Http.Message.KeepAlive.{keep_alive-to_info}

abbrev requests_of : Outcome → Option (List HttpRequest)
requests_of (returned r requests) = some requests
requests_of (thrown r x) = none
requests_of Request.diverged = none

abbrev simple : Bytes
simple =
    codes
      "GET /a?b=c HTTP/1.1\r\nHost: x\r\nContent-Length: 2\r\n\r\nhiPOST / HTTP/1.0\r\nTransfer-Encoding: chunked\r\n\r\n3\r\nabc\r\n0\r\n\r\n"

from_stream-Leaves_example : Leaves (from_stream some 1000 (fresh get) simple)
from_stream-Leaves_example = from_stream-Leaves some 1000 (fresh get) simple (fresh-IsReady get)

-- A request of which ten bytes of the body are missing.
abbrev half : HttpRequest
half = record {
  entity = record {
    version = codes "HTTP/1.1";
    headers = [];
    body = [];
    delimiter = [];
    partial_buffer = codes "ab";
    partial_length = 0;
    state = State.body;
    body_length = 10;
    consumed = 50;
  };
  method = get;
  path = codes "/";
  query = [];
  log_line = [];
  enqueued = [];
}

from_stream-awaiting_example :
    (from_stream some 100 (awaiting half) (codes "cde")
      ≡ returned (buffering (awaiting half) (codes "cde")) [])
    × (seen_size (buffering (awaiting half) (codes "cde")) ≡ seen_size half)
unfolding seen_size
from_stream-awaiting_example =
    from_stream-awaiting some 100 half (codes "cde") (λ e. cc e) (omega arith) (omega arith)

-- The header of this one said that nearly 2^64 bytes follow.
abbrev huge : HttpRequest
huge = record half { entity = record half.entity { body_length = word_mod - 52 } }

from_stream_overflow_example :
    from_stream some 100 (awaiting huge) (codes "cde")
    ≡ returned (buffering (awaiting huge) (codes "cde")) []
from_stream_overflow_example =
    from_stream_overflow some 100 huge (codes "cde") (λ e. cc e) (omega arith) (omega arith)

split_path_query-append_example :
    split_path_query (codes "/a" ++ b'?' ∷ codes "b=c?d") ≡ (codes "/a", parameters (codes "b=c?d"))
split_path_query-append_example =
    split_path_query-append (codes "/a") (codes "b=c?d") (refl, (refl, tt))

split_path_query-Lacks_example :
    split_path_query (codes "/a") ≡ (codes "/a", (codes "/a", [] ∷ []) ∷ [])
split_path_query-Lacks_example =
    split_path_query-Lacks (codes "/a") (λ e. cc e) (refl, (refl, tt)) (refl, (refl, tt))
      (refl, (refl, tt))

keep_alive-to_info_example : keep_alive (to_info half 3 100) ≡ (
    if equal half.version (codes "HTTP/1.0")
    then has_value (find_header (codes "Connection") half.headers) (codes "Keep-Alive")
    else not (has_value (find_header (codes "Connection") half.headers) (codes "Close")))
keep_alive-to_info_example = keep_alive-to_info half 3 100
