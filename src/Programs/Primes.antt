-- ===== src/Programs/Primes.antt =====
-- src/prime_serverd.cpp: the two work functions of the primality server, and the numbers that its
-- batch client asks for.
--
-- A `size_t` goes from one worker to the other as the eight bytes that x86-64 keeps it in. What
-- `std::stoul` says when it throws is the parameter `stoul_what`. `divisor` stays below `high`, so
-- `++divisor` does not wrap.
pub mod Search
pub mod Answers
use prime_server.Prelude.{
  ℕ, zero, suc, ◌+◌, ◌-◌, ◌*◌, ◌/◌, ◌%◌, Bool, true, false, not, ◌||◌, Option, none, some, List, [],
  ◌∷◌, ltb, ◌==◌, if◌then◌else◌, is_empty, length, Bytes, codes, equal,
}
use prime_server.Prelude.Maps.{Key, bytes_key, find}
use prime_server.Stdlib.{read_bytes, word_mod, stoul, to_string}
use prime_server.Http.{Method, get, post}
use prime_server.Http.Request.{HttpRequest, Failure}
use prime_server.Http.Request
use prime_server.Http.Strings.{Whole, whole, incomplete, rejected, request_from_string}
use prime_server.Http.Message.{HttpRequestInfo, HttpResponse, from_info, response_to_string}
use prime_server.Worker.{WorkResult}

-- What a work function does: it returns, with what it made of the info; it throws a `std::exception`,
-- which the worker logs; it throws what nobody catches, or ends the process by `throw;` without an
-- exception; or it reads a message that is not there.
pub data JobResult : Type 0 where
  works : WorkResult → HttpRequestInfo → JobResult
  throws : JobResult
  terminates : JobResult
  undefined : JobResult

-- `while (divisor < high)`. The divisor grows up to `prime` at most, so `prime` rounds are enough.
unfoldable pub search : ℕ → ℕ → ℕ → ℕ → Option (ℕ × ℕ)
search zero prime divisor high = none
search (suc fuel) prime divisor high =
    let rest = search fuel prime (divisor + 1) (prime / divisor) in
    if ltb divisor high
    then (if prime % divisor == 0 then some (divisor, high) else rest)
    else some (divisor, high)

-- The number if it was found prime, else the largest `size_t`.
abbrev pub verdict : ℕ → Option (ℕ × ℕ) → Option ℕ
verdict prime none = none
verdict prime (some (divisor, high)) = some (if ltb divisor high then word_mod - 1 else prime)

unfoldable pub check_prime : ℕ → Option ℕ
unfolding search
check_prime prime = verdict prime (search (suc prime) prime 2 prime)

unfoldable pub low_bytes : ℕ → ℕ → Bytes
low_bytes zero n = []
low_bytes (suc k) n = n % 256 ∷ low_bytes k (n / 256)

-- `sizeof(size_t)` bytes at `&n`.
abbrev pub size_bytes : ℕ → Bytes
size_bytes n = low_bytes 8 n

-- `http_response_t(code, message, body)`, without headers.
abbrev pub plain : ℕ → Bytes → Bytes → HttpResponse
plain code message body = record {
  code = code;
  message = message;
  headers = [];
  body = body;
  version = codes "HTTP/1.1";
}

-- The end of a job: the response, made for the request's version and connection.
unfoldable pub respond : HttpResponse → HttpRequestInfo → JobResult
unfolding from_info response_to_string
respond response info =
    let (made, marked) = from_info response info in
    works
      (record { intermediate = false; messages = response_to_string made ∷ []; heart_beat = [] })
      marked

-- What the request asks for: a number, or what the exception says; `throw;` has no exception to
-- throw again.
pub data Asked : Type 0 where
  number : ℕ → Asked
  bad : Bytes → Asked
  rethrows : Asked

abbrev pub usage_get : Bytes
usage_get = codes "GET requests should look like: 'is_prime?possible_prime=SOME_NUMBER'"

abbrev pub usage_post : Bytes
usage_post = codes "POST requests should have a path of 'is_prime' and a body with 'SOME_NUMBER'"

abbrev pub number_or : Bytes → Option ℕ → Asked
number_or what none = bad what
number_or what (some n) = number n

unfoldable pub ask_values : Bytes → Option (List Bytes) → Asked
unfolding stoul
ask_values stoul_what (some (v ∷ [])) = number_or stoul_what (stoul 10 v)
ask_values stoul_what _ = bad usage_get

unfoldable pub ask_get : Bytes → HttpRequest → Asked
unfolding ask_values
ask_get stoul_what r =
    if not (equal r.path (codes "/is_prime"))
    then bad usage_get
    else ask_values stoul_what (find (codes "possible_prime") r.query)

unfoldable pub ask_post : HttpRequest → Asked
unfolding stoul
ask_post r = if is_empty r.body then rethrows else number_or usage_post (stoul 10 r.body)

unfoldable pub asked : Bytes → Method → HttpRequest → Asked
unfolding ask_get ask_post
asked stoul_what get r = ask_get stoul_what r
asked stoul_what post r = ask_post r
asked stoul_what _ r = bad (codes "Only GET and POST requests supported")

unfoldable pub answer_asked : HttpRequestInfo → Asked → JobResult
unfolding respond low_bytes
answer_asked info (number n) =
    works (record { intermediate = true; messages = size_bytes n ∷ []; heart_beat = [] }) info
answer_asked info (bad what) = respond (plain 400 (codes "Bad Request") what) info
answer_asked info rethrows = terminates

-- `what_thrown` is what libcurl's wrapper says when it fails.
unfoldable pub parse_whole : Bytes → HttpRequestInfo → Whole HttpRequest Failure → JobResult
unfolding asked answer_asked
parse_whole stoul_what info (whole r) = answer_asked info (asked stoul_what r.method r)
parse_whole stoul_what info incomplete = answer_asked info (bad (codes "Incomplete http request"))
parse_whole stoul_what info (rejected Request.runtime_error) =
    answer_asked info (bad (codes "url decoding failed"))
parse_whole stoul_what info (rejected _) = terminates

-- The work function of the parsing workers.
unfoldable pub parse_work :
    (Bytes → Option Bytes) → Method → Bytes → List Bytes → HttpRequestInfo → JobResult
unfolding parse_whole request_from_string
parse_work unescape method stoul_what [] info = undefined
parse_work unescape method stoul_what (first ∷ _) info =
    parse_whole stoul_what info (request_from_string unescape method first)

abbrev pub compute_checked : HttpRequestInfo → Option ℕ → JobResult
compute_checked info none = undefined
compute_checked info (some n) = respond (plain 200 (codes "OK") (to_string n)) info

unfoldable pub compute_read : HttpRequestInfo → Option ℕ → JobResult
unfolding check_prime respond to_string
compute_read info none = undefined
compute_read info (some n) = compute_checked info (check_prime n)

-- The work function of the computing workers.
unfoldable pub compute_work : List Bytes → HttpRequestInfo → JobResult
unfolding compute_read read_bytes
compute_work [] info = undefined
compute_work (first ∷ _) info = compute_read info (read_bytes 8 first)
