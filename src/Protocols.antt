-- ===== src/Protocols.antt =====
-- The two protocols that the library makes `server_t` for: prime_server/netstring_protocol.hpp and
-- prime_server/http_protocol.hpp with their `.cpp` files.
--
-- The parsers end on every chunk, so `diverged`, here an exception of the standard library, does not
-- come up. `escape` and `unescape` are libcurl's, and `method` is what the uninitialised field holds.
pub mod Laws
use prime_server.Prelude.{
  ℕ, ◌%◌, ◌/◌, ◌^◌, ◌==◌, Bool, true, Option, none, some, List, [], ◌∷◌, drop, Bytes, codes,
}
use prime_server.Stdlib.{read_bytes}
use prime_server.Server.{Parse, parsed, rejected, escaped, Protocol}
use prime_server.Netstring.{NetstringEntity, RequestException}
use prime_server.Netstring
use prime_server.Http.{Method}
use prime_server.Http.Request.{HttpRequest, Failure}
use prime_server.Http.Request
use prime_server.Http.Message.{HttpRequestInfo, HttpResponse, canned, response_to_string}
use prime_server.Http.Message

-- `netstring_request_info_t`.
pub record NetstringRequestInfo : Type 0 where
  pub id : ℕ
  pub time_stamp : ℕ

abbrev pub netstring_parse : Netstring.Outcome → Parse NetstringEntity
netstring_parse (Netstring.returned e requests) = parsed e requests
netstring_parse (Netstring.thrown e x) = rejected e (Netstring.response x)
netstring_parse Netstring.diverged = escaped Netstring.fresh

-- The bytes of a struct, the low one first: two words of 32 bits.
unfoldable pub read_netstring_info : Bytes → Option NetstringRequestInfo
unfolding read_bytes
read_netstring_info frame = elim (read_bytes 4 frame) [
  | none ↦ none
  | some id ↦ elim (read_bytes 4 (drop 4 frame)) [
    | none ↦ none
    | some time_stamp ↦ some (record { id = id; time_stamp = time_stamp })
  ]
]

unfoldable pub netstring_protocol : Protocol NetstringEntity NetstringRequestInfo
unfolding Netstring.from_stream Netstring.to_string Netstring.response Netstring.timeout
netstring_protocol = record {
  fresh = Netstring.fresh;
  from_stream = λ max_size e input. netstring_parse (Netstring.from_stream max_size e input);
  to_string = λ e. some (Netstring.to_string e);
  to_info = λ e id now. record { id = id; time_stamp = now % 2 ^ 32 };
  enqueued = λ e. e.enqueued;
  with_enqueued = λ e ids. record e { enqueued = ids };
  id = λ info. info.id;
  time_stamp = λ info. info.time_stamp;
  keep_alive = λ info. true;
  timeout = λ info. (info, Netstring.timeout);
  read_info = read_netstring_info;
}

-- The responses of the exceptions.
unfoldable pub failure_response : Failure → Option HttpResponse
failure_response Request.response_400 =
    some (canned 400 (codes "Bad Request") (codes "Malformed HTTP request"))
failure_response Request.response_413 =
    some (canned 413 (codes "Request Entity Too Large") (codes "The HTTP request was too large"))
failure_response Request.response_500 = some (
    canned 500 (codes "Internal Server Error") (
      codes
        "The server encountered an unexpected condition which prevented it from fulfilling the request"))
failure_response Request.response_501 =
    some (canned 501 (codes "Not Implemented") (codes "The HTTP request method is not supported"))
failure_response Request.response_505 = some (
    canned 505 (codes "HTTP Version Not Supported")
      (codes "The HTTP request version is not supported"))
failure_response Request.runtime_error = none

abbrev pub http_failed : HttpRequest → Option HttpResponse → Parse HttpRequest
http_failed r none = escaped r
http_failed r (some response) = rejected r (response_to_string response)

abbrev pub http_parse : Method → Request.Outcome → Parse HttpRequest
http_parse method (Request.returned r requests) = parsed r requests
http_parse method (Request.thrown r x) = http_failed r (failure_response x)
http_parse method Request.diverged = escaped (Request.fresh method)

-- Two words of 32 bits, and one of 16 bits with two bytes behind it that fill up the struct: three
-- bits for the version, one for each header, ten for the code.
abbrev http_info : ℕ → ℕ → ℕ → HttpRequestInfo
http_info id time_stamp bits = record {
  id = id;
  time_stamp = time_stamp;
  version = bits % 8;
  connection_keep_alive = bits / 8 % 2 == 1;
  connection_close = bits / 16 % 2 == 1;
  response_code = bits / 32 % 2 ^ 10;
}

unfoldable pub read_http_info : Bytes → Option HttpRequestInfo
unfolding read_bytes
read_http_info frame = elim (read_bytes 4 frame) [
  | none ↦ none
  | some id ↦ elim (read_bytes 4 (drop 4 frame)) [
    | none ↦ none
    | some time_stamp ↦ elim (read_bytes 4 (drop 8 frame)) [
      | none ↦ none
      | some bits ↦ some (http_info id time_stamp bits)
    ]
  ]
]

unfoldable pub http_protocol :
    Method → (Bytes → Option Bytes) → (Bytes → Option Bytes) → Protocol HttpRequest HttpRequestInfo
unfolding Request.from_stream Request.fresh Message.request_to_string Message.to_info
    Message.keep_alive Message.timeout response_to_string failure_response
http_protocol method unescape escape = record {
  fresh = Request.fresh method;
  from_stream =
      λ max_size r input. http_parse method (Request.from_stream unescape max_size r input);
  to_string = Message.request_to_string escape;
  to_info = Message.to_info;
  enqueued = λ r. r.enqueued;
  with_enqueued = λ r ids. record r { enqueued = ids };
  id = λ info. info.id;
  time_stamp = λ info. info.time_stamp;
  keep_alive = Message.keep_alive;
  timeout = Message.timeout;
  read_info = read_http_info;
}
