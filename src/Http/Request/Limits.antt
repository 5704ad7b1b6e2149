-- ===== src/Http/Request/Limits.antt =====
-- The size limit of the request parser.
use prime_server.Prelude.{
  ℕ, suc, ◌+◌, ◌*◌, ◌-◌, ◌≤◌, ◌<◌, false, Option, [], ◌∷◌, ◌++◌, ◌==◌, length, Bytes, ◌≡◌, ◌≢◌,
  refl, arith, length-append, le→ltb, take_all,
}
use prime_server.Stdlib.{word_mod}
use prime_server.Http.{State}
use prime_server.Http.Entity.{consume_until, take_body, scan, finish}
use prime_server.Http.Entity.Scanning.{drop_all}
use prime_server.Http.Request.{
  HttpRequest, returned, with_entity, seen_size, after_consume, from_stream_loop, from_stream,
  ran_out,
}

-- The parser, waiting for the body that `Content-Length` announced.
abbrev pub awaiting : HttpRequest → HttpRequest
awaiting r =
    with_entity r (record r.entity { state = State.body; delimiter = []; partial_length = 0 })

-- More of the body in its buffer.
abbrev pub buffering : HttpRequest → Bytes → HttpRequest
buffering r input = with_entity r (record r.entity {
  partial_buffer = r.partial_buffer ++ input;
  body_length = r.body_length - length input;
})

take_body-short :
    (n available : ℕ) → available < n → take_body n available ≡ (available, n - available)
unfolding take_body
take_body-short n available h =
    let some_left : (n == 0) ≡ false = ground arith in
    rw (some_left, le→ltb n available (omega arith))

consume_until-body :
    (r : HttpRequest) (input : Bytes)
    → length input < r.body_length
    → consume_until (awaiting r).entity input
      ≡ record { found = false; entity = (buffering (awaiting r) input).entity; rest = input }
unfolding consume_until scan finish
consume_until-body r input h =
    let some_left : (r.body_length - length input == 0) ≡ false = ground arith in
    let whole : length input + 0 ≡ length input = omega arith in
    rw (
      take_body-short r.body_length (length input) h,
      drop_all (length input) input (omega arith),
      some_left,
      whole,
      take_all (length input) input (omega arith),
    )

seen_size-awaiting : (r : HttpRequest) → seen_size (awaiting r) ≡ seen_size r
unfolding seen_size
seen_size-awaiting r = refl

loop-awaiting :
    (unescape : Bytes → Option Bytes) (max_size fuel : ℕ) (r : HttpRequest) (input : Bytes)
    → length input < r.body_length
    → seen_size r ≤ max_size
    → from_stream_loop unescape max_size (suc fuel) (awaiting r) input []
      ≡ returned (buffering (awaiting r) input) []
unfolding from_stream_loop after_consume ran_out
loop-awaiting unescape max_size fuel r input h fit =
    rw (seen_size-awaiting r, le→ltb max_size (seen_size r) fit, consume_until-body r input h)

seen_size-buffering :
    (r : HttpRequest) (input : Bytes)
    → length input < r.body_length
    → seen_size (buffering (awaiting r) input) ≡ seen_size r
unfolding seen_size
seen_size-buffering r input h =
    let same : r.consumed + length (r.partial_buffer ++ input) + (r.body_length - length input)
        ≡ r.consumed + length r.partial_buffer + r.body_length =
      omega (arith, length-append r.partial_buffer input) in
    rw same

-- While a body is awaited and the size seen is within the limit, every chunk that is not empty and
-- shorter than what is left of the body is buffered whole, and the size that the limit is compared
-- with does not change.
pub from_stream-awaiting :
    (unescape : Bytes → Option Bytes) (max_size : ℕ) (r : HttpRequest) (input : Bytes)
    → input ≢ []
    → length input < r.body_length
    → seen_size r ≤ max_size
    → (from_stream unescape max_size (awaiting r) input
        ≡ returned (buffering (awaiting r) input) [])
      × (seen_size (buffering (awaiting r) input) ≡ seen_size r)
unfolding from_stream
from_stream-awaiting unescape max_size r [] ne h fit = absurd (ne refl)
from_stream-awaiting unescape max_size r (c ∷ cs) ne h fit =
    let rounds : 2 * suc (length cs) + 2 ≡ suc (2 * suc (length cs) + 1) = omega arith in
    (
      rw rounds (loop-awaiting unescape max_size (2 * suc (length cs) + 1) r (c ∷ cs) h fit),
      seen_size-buffering r (c ∷ cs) h,
    )

-- A body length with which the sum of the size check is 2^64 passes any limit: a chunk that is not
-- empty and shorter than it is buffered, whatever `max_size` is.
pub from_stream_overflow :
    (unescape : Bytes → Option Bytes) (max_size : ℕ) (r : HttpRequest) (input : Bytes)
    → input ≢ []
    → length input < r.body_length
    → r.consumed + length r.partial_buffer + r.body_length ≡ word_mod
    → from_stream unescape max_size (awaiting r) input ≡ returned (buffering (awaiting r) input) []
unfolding seen_size
from_stream_overflow unescape max_size r input ne h sum =
    (from_stream-awaiting unescape max_size r input ne h (omega (arith, sum))).0
