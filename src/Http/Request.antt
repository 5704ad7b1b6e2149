-- ===== src/Http/Request.antt =====
-- src/http_protocol.cpp: `http_request_t::from_stream`.
--
-- `unescape` is `curl_unescape`, `none` for its null pointer. The loop runs on fuel, and `diverged`
-- says that the fuel ran out. A throw carries the object as the throw leaves it.
pub mod Ends
pub mod Limits
pub mod Steps
pub mod Written
pub mod RoundTrip
use prime_server.Prelude.{
  ℕ, zero, suc, ◌+◌, ◌*◌, ◌%◌, Bool, true, false, not, ◌&&◌, Option, none, some, List, [], ◌∷◌,
  ◌++◌, ltb, leb, ◌==◌, if◌then◌else◌, is_empty, length, Bytes, codes, equal,
}
use prime_server.Prelude.Maps.{Key, bytes_key, find}
use prime_server.Stdlib.{word_mod, stoul}
use prime_server.Http.{
  Method, string_to_method, is_supported, Headers, find_header, insert_header, Query, State,
  HttpEntity, space, crlf, flush_stream,
}
use prime_server.Http.Entity.{Consumed, consume_until}
use prime_server.Http.Query.{split_at, split_path_query}

-- The exceptions, by their response codes, and those of the standard library.
pub data Failure : Type 0 where
  response_400 response_413 response_500 response_501 response_505 runtime_error : Failure

pub record HttpRequest : Type 0 where
  pub entity : HttpEntity
  pub open entity use *
  pub method : Method
  pub path : Bytes
  pub query : Query
  pub log_line : Bytes
  pub enqueued : List ℕ

-- `http_request_t(method, path, body, query, headers, version)`.
unfoldable pub make_request : Method → Bytes → Bytes → Query → Headers → Bytes → HttpRequest
make_request method path body query headers version = record {
  entity = record {
    version = version;
    headers = headers;
    body = body;
    delimiter = space;
    partial_buffer = [];
    partial_length = 0;
    state = State.method;
    body_length = 0;
    consumed = 0;
  };
  method = method;
  path = path;
  query = query;
  log_line = [];
  enqueued = [];
}

-- `http_request_t()`; the constructor leaves `method` as it finds it.
unfoldable pub fresh : Method → HttpRequest
unfolding make_request
fresh method = make_request method [] [] [] [] []

unfoldable pub flush : HttpRequest → HttpRequest
unfolding flush_stream
flush r = record r { entity = flush_stream State.method r.entity; path = []; query = [] }

pub data Outcome : Type 0 where
  returned : HttpRequest → List HttpRequest → Outcome
  thrown : HttpRequest → Failure → Outcome
  diverged : Outcome

-- What a case of the `switch` does: it goes on, with the requests that it finished, or throws.
pub data Step : Type 0 where
  goes : HttpRequest → List HttpRequest → Step
  fails : HttpRequest → Failure → Step

abbrev pub with_entity : HttpRequest → HttpEntity → HttpRequest
with_entity r e = record r { entity = e }

-- A whole request, and the parser ready for the next.
unfoldable pub emit : HttpRequest → Step
unfolding make_request flush
emit r =
    let whole = make_request r.method r.path r.body r.query r.headers r.version in
    goes (flush (record r { log_line = [] })) (record whole { log_line = r.log_line } ∷ [])

unfoldable pub read_method : HttpRequest → Option Method → Step
read_method r none = fails r response_501
read_method r (some m) =
    goes
      (record (with_entity r (record r.entity { state = State.path })) {
        log_line = r.partial_buffer ++ r.delimiter;
        method = m;
      })
      []

-- A C string ends at its first NUL.
unfoldable pub until_nul : Bytes → Bytes
until_nul [] = []
until_nul (c ∷ cs) = if c == 0 then [] else c ∷ until_nul cs

unfoldable pub read_path : HttpRequest → Option Bytes → Step
unfolding until_nul
read_path r none =
    fails (record r { log_line = r.log_line ++ (r.partial_buffer ++ r.delimiter) }) runtime_error
read_path r (some decoded) =
    goes
      (record (with_entity r (record r.entity { state = State.version; delimiter = crlf })) {
        log_line = r.log_line ++ (r.partial_buffer ++ r.delimiter);
        path = until_nul decoded;
      })
      []

unfoldable pub read_version : HttpRequest → Step
unfolding is_supported split_path_query
read_version r =
    if not (is_supported r.partial_buffer)
    then fails r response_505
    else (let (truncated, query) = split_path_query r.path in
        goes
          (record (with_entity r
            (record r.entity { state = State.headers; version = r.partial_buffer })) {
              log_line = r.log_line ++ r.partial_buffer;
              path = truncated;
              query = query;
            })
          [])

unfoldable pub skip_blanks : Bytes → Bytes
skip_blanks [] = []
skip_blanks (c ∷ cs) = let rest = skip_blanks cs in if c == b' ' then rest else c ∷ cs

unfoldable pub read_header : HttpRequest → Option (Bytes × Bytes) → Step
unfolding insert_header skip_blanks
read_header r none = fails r response_400
read_header r (some (name, behind)) =
    goes
      (with_entity r
        (record r.entity { headers = insert_header name (skip_blanks behind) r.headers }))
      []

unfoldable pub is_trailer : State → Bool
is_trailer State.trailer = true
is_trailer _ = false

abbrev pub is_chunked : Option Bytes → Bool
is_chunked none = false
is_chunked (some v) = equal v (codes "chunked")

unfoldable pub start_body : HttpRequest → Option ℕ → Step
start_body r none = fails r response_400
start_body r (some n) =
    goes (with_entity r (record r.entity { body_length = n; delimiter = []; state = State.body }))
      []

-- The empty line; the arguments are the values of `Content-Length` and `Transfer-Encoding`.
unfoldable pub end_headers : HttpRequest → Option Bytes → Option Bytes → Step
unfolding start_body emit is_trailer stoul
end_headers r none encoding =
    if not (is_trailer r.state) && is_chunked encoding
    then goes (with_entity r (record r.entity { state = State.chunk_length })) []
    else emit r
end_headers r (some v) encoding =
    if not (is_trailer r.state)
    then start_body r (stoul 10 v)
    else if not (is_trailer r.state) && is_chunked encoding
    then goes (with_entity r (record r.entity { state = State.chunk_length })) []
    else emit r

unfoldable pub read_line : HttpRequest → Step
unfolding read_header end_headers find_header split_at
read_line r =
    if not (is_empty r.partial_buffer)
    then read_header r (split_at b':' r.partial_buffer)
    else end_headers r (find_header (codes "Content-Length") r.headers)
        (find_header (codes "Transfer-Encoding") r.headers)

unfoldable pub read_chunk_length : HttpRequest → Option ℕ → Step
read_chunk_length r none = fails r response_400
read_chunk_length r (some n) =
    goes
      (with_entity r (record r.entity {
        body_length = n;
        state = if n == 0 then State.trailer else State.chunk;
      }))
      []

-- The `switch`.
unfoldable pub dispatch : (Bytes → Option Bytes) → State → HttpRequest → Step
unfolding read_method read_path read_version read_line read_chunk_length emit string_to_method
dispatch unescape State.message r = fails r response_500
dispatch unescape State.code r = fails r response_500
dispatch unescape State.method r = read_method r (find r.partial_buffer string_to_method)
dispatch unescape State.path r = read_path r (unescape r.partial_buffer)
dispatch unescape State.version r = read_version r
dispatch unescape State.headers r = read_line r
dispatch unescape State.trailer r = read_line r
dispatch unescape State.body r =
    emit (with_entity r (record r.entity { body = r.partial_buffer; partial_buffer = r.body }))
dispatch unescape State.chunk_length r = read_chunk_length r (stoul 16 r.partial_buffer)
dispatch unescape State.chunk r =
    goes
      (with_entity r
        (record r.entity { body = r.body ++ r.partial_buffer; state = State.chunk_length }))
      []

-- The sizes of the longest method and version, with what may stand behind them.
abbrev pub method_max_size : ℕ
method_max_size = 8

abbrev pub version_max_size : ℕ
version_max_size = 10

abbrev pub is_method : State → Bool
is_method State.method = true
is_method _ = false

abbrev pub is_version : State → Bool
is_version State.version = true
is_version _ = false

-- The input ran out before the delimiter.
unfoldable pub ran_out : HttpRequest → List HttpRequest → Outcome
ran_out r requests =
    if is_method r.state && leb method_max_size (length r.partial_buffer)
    then thrown r response_400
    else if is_version r.state && leb version_max_size (length r.partial_buffer)
    then thrown r response_400
    else returned r requests

-- `consumed + partial_buffer.size() + body_length`, in `size_t`.
unfoldable pub seen_size : HttpRequest → ℕ
seen_size r = (r.consumed + length r.partial_buffer + r.body_length) % word_mod

abbrev pub Rounds : Type 0
Rounds = HttpRequest → Bytes → List HttpRequest → Outcome

-- What follows the `switch`: the buffer is cleared.
unfoldable pub next_piece : Rounds → Bytes → List HttpRequest → Step → Outcome
next_piece again rest requests (fails r x) = thrown r x
next_piece again rest requests (goes r whole) =
    again (with_entity r (record r.entity { partial_buffer = [] })) rest (requests ++ whole)

unfoldable pub after_consume :
    (Bytes → Option Bytes) → Rounds → HttpRequest → List HttpRequest → Bool → Bytes → Outcome
unfolding ran_out next_piece dispatch
after_consume unescape again r requests false rest = ran_out r requests
after_consume unescape again r requests true rest =
    next_piece again rest requests (dispatch unescape r.state r)

-- `while (start != end)`, whose test does not change in the loop: the loop ends by `break`, or by
-- a throw.
unfoldable pub from_stream_loop : (Bytes → Option Bytes) → ℕ → ℕ → Rounds
unfolding seen_size consume_until after_consume
from_stream_loop unescape max_size zero = λ r input requests. diverged
from_stream_loop unescape max_size (suc fuel) = λ r input requests.
    let c = consume_until r.entity input in
    if ltb max_size (seen_size r)
    then thrown r response_413
    else after_consume unescape (from_stream_loop unescape max_size fuel) (with_entity r c.entity)
        requests c.found c.rest

-- Two rounds for each byte and two more are enough.
unfoldable pub from_stream : (Bytes → Option Bytes) → ℕ → HttpRequest → Bytes → Outcome
unfolding from_stream_loop
from_stream unescape max_size r input =
    if is_empty input
    then returned r []
    else from_stream_loop unescape max_size (2 * length input + 2) r input []
