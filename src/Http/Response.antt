-- ===== src/Http/Response.antt =====
-- src/http_protocol.cpp: `http_response_t::from_stream`.
--
-- The loop runs on fuel, and `diverged` says that the fuel ran out. All its throws are exceptions of
-- the standard library; a throw carries the object as the throw leaves it. `code` is a `uint16_t`.
pub mod Ends
pub mod Steps
pub mod Written
pub mod RoundTrip
use prime_server.Prelude.{
  ℕ, zero, suc, ◌+◌, ◌*◌, ◌%◌, ◌^◌, Bool, true, false, not, ◌&&◌, Option, none, some, List, [], ◌∷◌,
  ◌++◌, ◌==◌, if◌then◌else◌, is_empty, length, Bytes, codes, drop,
}
use prime_server.Stdlib.{stoul}
use prime_server.Http.{
  is_supported, find_header, insert_header, Headers, State, HttpEntity, space, crlf, flush_stream,
}
use prime_server.Http.Entity.{Consumed, consume_until}
use prime_server.Http.Request.{is_trailer, is_chunked}

-- The members of `http_response_t`, the base class's in `entity`.
pub record Response : Type 0 where
  pub entity : HttpEntity
  pub open entity use *
  pub code : ℕ
  pub message : Bytes

-- `http_response_t(code, message, body, headers, version)`.
unfoldable pub make_response : ℕ → Bytes → Bytes → Headers → Bytes → Response
make_response code message body headers version = record {
  entity = record {
    version = version;
    headers = headers;
    body = body;
    delimiter = space;
    partial_buffer = [];
    partial_length = 0;
    state = State.method;
    body_length = 0;
    consumed = 0;
  };
  code = code;
  message = message;
}

unfoldable pub flush : Response → Response
unfolding flush_stream
flush r = record r { entity = flush_stream State.version r.entity; message = [] }

-- `http_response_t()`; the constructor leaves `code` as it finds it.
unfoldable pub fresh : ℕ → Response
unfolding make_response flush
fresh code = flush (make_response code [] [] [] [])

pub data Outcome : Type 0 where
  returned : Response → List Response → Outcome
  thrown : Response → Outcome
  diverged : Outcome

pub data Step : Type 0 where
  goes : Response → List Response → Step
  fails : Response → Step

abbrev pub with_entity : Response → HttpEntity → Response
with_entity r e = record r { entity = e }

unfoldable pub emit : Response → Step
unfolding make_response flush
emit r = goes (flush r) (make_response r.code r.message r.body r.headers r.version ∷ [])

unfoldable pub read_code : Response → Option ℕ → Step
read_code r none = fails r
read_code r (some n) =
    goes
      (record (with_entity r (record r.entity { state = State.message; delimiter = crlf })) {
        code = n % 2 ^ 16;
      })
      []

unfoldable pub read_version : Response → Step
unfolding is_supported
read_version r =
    if not (is_supported r.partial_buffer)
    then fails r
    else goes
        (with_entity r (record r.entity {
          state = State.code;
          version = r.partial_buffer;
          partial_buffer = r.version;
        }))
        []

-- `find(": ")`: what stands before it, and behind it.
unfoldable pub split_header : Bytes → Option (Bytes × Bytes)
split_header [] = none
split_header (c ∷ []) = none
split_header (c ∷ d ∷ cs) =
    let rest = split_header (d ∷ cs) in
    if c == b':' && d == b' '
    then some ([], cs)
    else elim rest [ none ↦ none | some (name, behind) ↦ some (c ∷ name, behind) ]

unfoldable pub read_header : Response → Option (Bytes × Bytes) → Step
unfolding insert_header
read_header r none = fails r
read_header r (some (name, behind)) =
    goes (with_entity r (record r.entity { headers = insert_header name behind r.headers })) []

unfoldable pub start_body : Response → Option ℕ → Step
start_body r none = fails r
start_body r (some n) =
    goes (with_entity r (record r.entity { body_length = n; delimiter = []; state = State.body }))
      []

-- The empty line; the arguments are the values of `Content-Length` and `Transfer-Encoding`.
unfoldable pub end_headers : Response → Option Bytes → Option Bytes → Step
unfolding start_body emit is_trailer stoul
end_headers r none encoding =
    if not (is_trailer r.state) && is_chunked encoding
    then goes (with_entity r (record r.entity { state = State.chunk_length })) []
    else emit r
end_headers r (some v) encoding =
    if not (is_trailer r.state)
    then start_body r (stoul 10 v)
    else if not (is_trailer r.state) && is_chunked encoding
    then goes (with_entity r (record r.entity { state = State.chunk_length })) []
    else emit r

unfoldable pub read_line : Response → Step
unfolding read_header end_headers find_header split_header
read_line r =
    if not (is_empty r.partial_buffer)
    then read_header r (split_header r.partial_buffer)
    else end_headers r (find_header (codes "Content-Length") r.headers)
        (find_header (codes "Transfer-Encoding") r.headers)

unfoldable pub read_chunk_length : Response → Option ℕ → Step
read_chunk_length r none = fails r
read_chunk_length r (some n) =
    goes
      (with_entity r (record r.entity {
        body_length = n;
        state = if n == 0 then State.trailer else State.chunk;
      }))
      []

-- The `switch`.
unfoldable pub dispatch : State → Response → Step
unfolding read_code read_version read_line read_chunk_length emit
dispatch State.method r = fails r
dispatch State.path r = fails r
dispatch State.message r =
    goes
      (record (with_entity r
        (record r.entity { state = State.headers; partial_buffer = r.message })) {
          message = r.partial_buffer;
        })
      []
dispatch State.code r = read_code r (stoul 10 r.partial_buffer)
dispatch State.version r = read_version r
dispatch State.headers r = read_line r
dispatch State.trailer r = read_line r
dispatch State.body r =
    emit (with_entity r (record r.entity { body = r.partial_buffer; partial_buffer = r.body }))
dispatch State.chunk_length r = read_chunk_length r (stoul 16 r.partial_buffer)
dispatch State.chunk r =
    goes
      (with_entity r
        (record r.entity { body = r.body ++ r.partial_buffer; state = State.chunk_length }))
      []

abbrev pub Rounds : Type 0
Rounds = Response → Bytes → List Response → Outcome

unfoldable pub next_piece : Rounds → Bytes → List Response → Step → Outcome
next_piece again rest responses (fails r) = thrown r
next_piece again rest responses (goes r whole) =
    again (with_entity r (record r.entity { partial_buffer = [] })) rest (responses ++ whole)

unfoldable pub after_consume : Rounds → Response → List Response → Bool → Bytes → Outcome
unfolding next_piece dispatch
after_consume again r responses false rest = returned r responses
after_consume again r responses true rest = next_piece again rest responses (dispatch r.state r)

-- `while (start != end)`, whose test does not change in the loop.
unfoldable pub from_stream_loop : ℕ → Rounds
unfolding consume_until after_consume
from_stream_loop zero = λ r input responses. diverged
from_stream_loop (suc fuel) = λ r input responses.
    let c = consume_until r.entity input in
    after_consume (from_stream_loop fuel) (with_entity r c.entity) responses c.found c.rest

-- Two rounds for each byte and two more are enough.
unfoldable pub from_stream : Response → Bytes → Outcome
unfolding from_stream_loop
from_stream r input =
    if is_empty input then returned r [] else from_stream_loop (2 * length input + 2) r input []
