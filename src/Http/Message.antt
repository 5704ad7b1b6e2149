-- ===== src/Http/Message.antt =====
-- src/http_protocol.cpp and prime_server/http_protocol.hpp: what is written, `http_request_t::to_string`,
-- `http_response_t::generic` and `from_info`, the replies of the exceptions, and the request info.
--
-- `escape` is `curl_escape`, `none` for its null pointer.
pub mod KeepAlive
use prime_server.Prelude.{
  ℕ, zero, suc, ◌+◌, ◌%◌, ◌^◌, Bool, true, false, not, ◌&&◌, ◌||◌, Option, none, some, List, [],
  ◌∷◌, ◌++◌, ◌==◌, if◌then◌else◌, is_empty, length, Bytes, codes, equal,
}
use prime_server.Stdlib.{to_string}
use prime_server.Http.{Method, method_to_string, Headers, find_header, insert_header, Query, crlf}
use prime_server.Http.Request.{HttpRequest, until_nul}

-- `http_request_info_t`: `version` is 0 for HTTP/1.0 and 1 for any other.
pub record HttpRequestInfo : Type 0 where
  pub id : ℕ
  pub time_stamp : ℕ
  pub version : ℕ
  pub connection_keep_alive : Bool
  pub connection_close : Bool
  pub response_code : ℕ

abbrev pub has_value : Option Bytes → Bytes → Bool
has_value none v = false
has_value (some w) v = equal w v

-- `http_request_t::to_info`; `now` is the clock.
unfoldable pub to_info : HttpRequest → ℕ → ℕ → HttpRequestInfo
unfolding find_header
to_info r id now =
    let connection = find_header (codes "Connection") r.headers in
    record {
      id = id;
      time_stamp = now % 2 ^ 32;
      version = if equal r.version (codes "HTTP/1.0") then 0 else 1;
      connection_keep_alive = has_value connection (codes "Keep-Alive");
      connection_close = has_value connection (codes "Close");
      response_code = 0;
    }

unfoldable pub keep_alive : HttpRequestInfo → Bool
keep_alive info =
    (info.version == 0 && info.connection_keep_alive)
    || (info.version == 1 && not info.connection_close)

pub record HttpResponse : Type 0 where
  pub code : ℕ
  pub message : Bytes
  pub headers : Headers
  pub body : Bytes
  pub version : Bytes

unfoldable pub header_line : Bytes → Bytes → Bytes
header_line name v = name ++ (codes ": " ++ (v ++ crlf))

unfoldable pub header_lines : Headers → Bytes
unfolding header_line
header_lines [] = []
header_lines ((name, v) ∷ rest) = header_line name v ++ header_lines rest

-- The headers of a response; its length is written by itself.
unfoldable pub response_lines : Headers → Bytes
unfolding header_line
response_lines [] = []
response_lines ((name, v) ∷ rest) =
    if equal name (codes "Content-Length")
    then response_lines rest
    else header_line name v ++ response_lines rest

-- `http_response_t::generic`.
unfoldable pub generic : ℕ → Bytes → Headers → Bytes → Bytes → Bytes
unfolding response_lines
generic code message headers body version =
    version
    ++ (b' '
        ∷ (to_string code
            ++ (b' '
                ∷ (message
                    ++ (crlf
                        ++ (response_lines headers
                            ++ (codes "Content-Length: "
                                ++ (to_string (length body) ++ (codes "\r\n\r\n" ++ body)))))))))

unfoldable pub response_to_string : HttpResponse → Bytes
unfolding generic
response_to_string r = generic r.code r.message r.headers r.body r.version

-- `http_response_t::from_info`, which also writes the code into the info, a field of ten bits.
unfoldable pub from_info : HttpResponse → HttpRequestInfo → HttpResponse × HttpRequestInfo
unfolding insert_header
from_info r info =
    let kept =
      if info.connection_keep_alive
      then insert_header (codes "Connection") (codes "Keep-Alive") r.headers
      else r.headers in
    let closed =
      if info.connection_close
      then insert_header (codes "Connection") (codes "Close") kept
      else kept in
    (
      record r {
        version = if not (info.version == 0) then codes "HTTP/1.1" else codes "HTTP/1.0";
        headers = closed;
      },
      record info { response_code = r.code % 2 ^ 10 },
    )

abbrev pub cors : Headers
cors = (codes "Access-Control-Allow-Origin", codes "*") ∷ []

-- `http_response_t(code, message, body, {CORS})`.
abbrev pub canned : ℕ → Bytes → Bytes → HttpResponse
canned code message body = record {
  code = code;
  message = message;
  headers = cors;
  body = body;
  version = codes "HTTP/1.1";
}

abbrev pub response_504 : HttpResponse
response_504 = canned 504 (codes "Gateway Time-out") (codes "The server didn't respond in time")

-- `http_request_t::timeout`.
unfoldable pub timeout : HttpRequestInfo → HttpRequestInfo × Bytes
unfolding response_to_string
timeout info = (record info { response_code = 504 }, response_to_string response_504)

-- `?`, and `key=value` for each value, with `&` between them; the flag is `amp`.
unfoldable pub value_pairs : Bool → Bytes → List Bytes → Bytes
value_pairs amp key [] = []
value_pairs amp key (v ∷ vs) =
    (if amp then b'&' ∷ [] else []) ++ (key ++ (b'=' ∷ (v ++ value_pairs true key vs)))

unfoldable pub query_pairs : Bool → Query → Bytes
unfolding value_pairs
query_pairs amp [] = []
query_pairs amp ((key, vs) ∷ rest) =
    value_pairs amp key vs ++ query_pairs (amp || not (is_empty vs)) rest

unfoldable pub target : Bytes → Query → Bytes
unfolding query_pairs
target path [] = path
target path (kv ∷ rest) = path ++ (b'?' ∷ query_pairs false (kv ∷ rest))

unfoldable pub length_line : Option Bytes → Bytes → Bytes
unfolding header_line
length_line none body = header_line (codes "Content-Length") (to_string (length body))
length_line (some v) body = []

unfoldable pub body_lines : Headers → Bytes → Bytes
unfolding length_line find_header
body_lines headers [] = crlf
body_lines headers (c ∷ cs) =
    length_line (find_header (codes "Content-Length") headers) (c ∷ cs) ++ (crlf ++ c ∷ cs)

-- What stands around the escaped path and query.
unfoldable pub request_lines :
    Method → Bytes → Query → Headers → Bytes → Bytes → Option Bytes → Option Bytes
unfolding body_lines header_lines until_nul method_to_string
request_lines method path query headers body version none = none
request_lines method path query headers body version (some escaped) = some (
    method_to_string method
    ++ (b' '
        ∷ (until_nul escaped
            ++ (b' ' ∷ (version ++ (crlf ++ (header_lines headers ++ body_lines headers body)))))))

-- `http_request_t::to_string`; `none` if the escaping fails.
unfoldable pub request_to_string : (Bytes → Option Bytes) → HttpRequest → Option Bytes
unfolding request_lines target
request_to_string escape r =
    request_lines r.method r.path r.query r.headers r.body r.version
      (escape (target r.path r.query))
