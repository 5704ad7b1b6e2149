-- ===== src/Netstring.antt =====
-- src/netstring_protocol.cpp and prime_server/netstring_protocol.hpp: the netstring codec.
--
-- A received chunk is a byte list. `start[0 .. i)` and `start[i .. length)` of the source's loop are
-- the lists `seen` and `rest` here, so `start += i + 1` drops `seen` and the byte after it. The
-- `std::move` of `body` into the parsed request leaves the source's `body` unspecified for a
-- moment; it is cleared by `flush_stream` before it is read again. An exception carries the entity
-- as the throw leaves it. `isdigit` is taken to be false on bytes from 128 on. The loop runs on fuel;
-- `diverged` says that the fuel ran out.
pub mod Machine
pub mod Refines
pub mod Faults
pub mod Cuts
pub mod Streaming
pub mod RoundTrip
pub mod Limits
use prime_server.Prelude.{
  ℕ, zero, suc, ◌+◌, ◌-◌, ◌%◌, Option, none, some, List, [], ◌∷◌, ◌++◌, not, ltb, ◌==◌,
  if◌then◌else◌, is_empty, length, get_or, take, drop, Bytes, codes,
}
use prime_server.Stdlib.{word_mod, is_digit, stoul}
use prime_server.Stdlib

-- The four exceptions that the parser throws.
pub data RequestException : Type 0 where
  bad_length too_long bad_body_separator bad_message_separator : RequestException

pub record NetstringEntity : Type 0 where
  pub body : Bytes
  pub body_length : ℕ
  pub enqueued : List ℕ

abbrev pub fresh : NetstringEntity
fresh = record { body = []; body_length = 0; enqueued = [] }

-- `netstring_entity_t::to_string(const std::string&)`.
unfoldable pub encode : Bytes → Bytes
encode body = Stdlib.to_string (length body) ++ (b':' ∷ (body ++ b',' ∷ []))

unfoldable pub to_string : NetstringEntity → Bytes
unfolding encode
to_string e = encode e.body

unfoldable pub description : RequestException → Bytes
description bad_length = codes "BAD_REQUEST: Non-numeric length"
description too_long = codes "BAD_REQUEST: Request exceeded maximum length"
description bad_body_separator = codes "BAD_REQUEST: Missing ':' between length and body"
description bad_message_separator = codes "BAD_REQUEST: Missing ',' after body"

-- `request_exception_t::response`, the bytes that the server sends before it hangs up.
unfoldable pub response : RequestException → Bytes
unfolding encode description
response e = encode (description e)

unfoldable pub timeout : Bytes
timeout = codes "7:TIMEOUT,"

unfoldable pub flush_stream : NetstringEntity → NetstringEntity
flush_stream e = record e { body = []; body_length = 0 }

unfoldable pub size : NetstringEntity → ℕ
size e = length e.body

pub data Outcome : Type 0 where
  returned : NetstringEntity → List NetstringEntity → Outcome
  thrown : NetstringEntity → RequestException → Outcome
  diverged : Outcome

abbrev pub Loop : Type 0
Loop = NetstringEntity → Bytes → Bytes → List NetstringEntity → Outcome

-- The colon after the digits: `std::stoul`, the size limit, and the reset for the body.
unfoldable pub length_end :
    Loop → ℕ → NetstringEntity → Option ℕ → Bytes → List NetstringEntity → Outcome
length_end again max_size e none rest requests = thrown e bad_length
length_end again max_size e (some n) rest requests =
    if ltb max_size n
    then thrown (record e { body_length = n }) too_long
    else again (record e { body = []; body_length = n }) [] rest requests

-- The branch `body_length == 0`, at the byte `c == start[i]`.
unfoldable pub read_length :
    Loop → ℕ → NetstringEntity → Bytes → ℕ → Bytes → List NetstringEntity → Outcome
unfolding length_end
read_length again max_size e seen c rest requests =
    if not (is_digit c)
    then (if c == b':'
        then length_end again max_size (record e { body = e.body ++ seen })
            (stoul 10 (e.body ++ seen)) rest requests
        else if not (is_empty seen)
        then thrown e bad_body_separator
        else thrown e bad_length)
    else again e (seen ++ c ∷ []) rest requests

-- `body_length - body.size()` in `size_t`.
unfoldable pub remaining : NetstringEntity → ℕ
remaining e = (e.body_length + word_mod - length e.body) % word_mod

-- The code behind the loop keeps what is left.
unfoldable pub keep_rest : NetstringEntity → Bytes → List NetstringEntity → Outcome
keep_rest e input requests = returned (record e { body = e.body ++ input }) requests

-- The branch `body_length != 0`, at `input == start[0 .. length)`.
unfoldable pub read_body : Loop → NetstringEntity → Bytes → List NetstringEntity → Outcome
unfolding remaining keep_rest flush_stream
read_body again e input requests =
    let n = remaining e in
    if ltb n (length input)
    then (if get_or input n 0 == b','
        then again (flush_stream e) [] (drop (n + 1) input) (
            requests
            ++ record { body = e.body ++ take n input; body_length = 0; enqueued = [] } ∷ [])
        else thrown e bad_message_separator)
    else keep_rest e input requests

-- `while (i < length)`.
unfoldable pub from_stream_loop : ℕ → ℕ → Loop
unfolding read_length read_body keep_rest
from_stream_loop zero max_size e seen rest requests = diverged
from_stream_loop (suc fuel) max_size e seen [] requests = keep_rest e seen requests
from_stream_loop (suc fuel) max_size e seen (c ∷ cs) requests =
    if e.body_length == 0
    then read_length (from_stream_loop fuel max_size) max_size e seen c cs requests
    else read_body (from_stream_loop fuel max_size) e (seen ++ c ∷ cs) requests

-- Each round of the loop takes at least one byte, so `length + 1` rounds are enough.
unfoldable pub from_stream : ℕ → NetstringEntity → Bytes → Outcome
unfolding from_stream_loop
from_stream max_size e input = from_stream_loop (suc (length input)) max_size e [] input []

-- `netstring_client_t::stream_responses`, which has no size limit: the responses that
-- `collect_function` gets, written out again; the function returns their number. A refusal of the
-- parser leaves the function.
unfoldable pub formatted : List NetstringEntity → List Bytes
unfolding encode
formatted [] = []
formatted (response ∷ rest) = encode response.body ∷ formatted rest

pub data Streamed : Type 0 where
  collected : NetstringEntity → List Bytes → Streamed
  escaped : NetstringEntity → RequestException → Streamed
  unfinished : Streamed

abbrev pub streamed : Outcome → Streamed
streamed (returned e responses) = collected e (formatted responses)
streamed (thrown e x) = escaped e x
streamed diverged = unfinished

unfoldable pub stream_responses : NetstringEntity → Bytes → Streamed
unfolding from_stream formatted
stream_responses e message = streamed (from_stream (word_mod - 1) e message)
