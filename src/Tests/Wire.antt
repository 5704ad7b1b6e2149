-- ===== src/Tests/Wire.antt =====
-- The theorems on what HTTP writes and reads at concrete inputs.
use prime_server.Prelude.{
  ℕ, ◌<◌, ◌+◌, ◌-◌, some, ap, Bool, true, not, ◌&&◌, ◌==◌, Bool-cases, inl, inr, [], ◌∷◌, Bytes,
  codes, equal, ◌≡◌, refl, arith,
}
use prime_server.Stdlib.{to_lower}
use prime_server.Http.{get, post, is_supported, find_header, equal_caseless}
use prime_server.Http.Message.{HttpResponse}
use prime_server.Http.Entity.Tokens.{Lacks}
use prime_server.Http.Message.{target}
use prime_server.Http.Request.{HttpRequest, make_request, skip_blanks}
use prime_server.Http.Request
use prime_server.Http.Request.Steps.{no_limit}
use prime_server.Http.Request.Written.{IsCodec}
use prime_server.Http.Request.Written
use prime_server.Http.Request.RoundTrip.{last_method, from_stream-request_to_string}
use prime_server.Http.Request.RoundTrip
use prime_server.Http.Response.{fresh, from_stream, returned}
use prime_server.Http.Response.Written.{IsHeader, IsWritable}
use prime_server.Http.Response.RoundTrip.{wire, all_read, last_code, from_stream-response_to_string}

-- The test of `Lacks`.
lacks : ℕ → Bytes → Bool
lacks b [] = true
lacks b (c ∷ cs) = not (b == c) && lacks b cs

lacks-Lacks : (b : ℕ) (s : Bytes) → lacks b s ≡ true → Lacks b s
unfolding lacks
lacks-Lacks b [] h = tt
lacks-Lacks b (c ∷ cs) h = elim (Bool-cases (b == c)) [
  | inl same ↦ absurd (cc (rw same at h))
  | inr other ↦ (other, lacks-Lacks b cs (rw other at h))
]

abbrev ok_response : HttpResponse
ok_response = record {
  code = 200;
  message = codes "OK";
  headers = (codes "Content-type", codes "text/html") ∷ [];
  body = codes "<a/>\r\n\r\n";
  version = codes "HTTP/1.1";
}

abbrev empty_response : HttpResponse
empty_response = record {
  code = 304;
  message = codes "Not Modified";
  headers = [];
  body = [];
  version = codes "HTTP/1.0";
}

html-IsHeader : IsHeader (codes "Content-type") (codes "text/html")
unfolding lacks equal
html-IsHeader = record {
  plain = lacks-Lacks b':' (codes "Content-type") refl;
  clean = lacks-Lacks b'\r' (codes "Content-type") refl;
  tidy = lacks-Lacks b'\r' (codes "text/html") refl;
  other = refl;
}

ok_response-IsWritable : IsWritable ok_response
unfolding lacks equal is_supported find_header equal_caseless to_lower
ok_response-IsWritable = record {
  supported = refl;
  code_fits = omega arith;
  one_line = lacks-Lacks b'\r' (codes "OK") refl;
  headers_apart = (html-IsHeader, refl, tt);
  length_free = refl;
  body_fits = omega arith;
}

empty_response-IsWritable : IsWritable empty_response
unfolding lacks equal is_supported find_header
empty_response-IsWritable = record {
  supported = refl;
  code_fits = omega arith;
  one_line = lacks-Lacks b'\r' (codes "Not Modified") refl;
  headers_apart = tt;
  length_free = refl;
  body_fits = omega arith;
}

from_stream-response_to_string_example :
    from_stream (fresh 0) (wire (ok_response ∷ empty_response ∷ []))
    ≡ returned
        (fresh (last_code 0 (ok_response ∷ empty_response ∷ [])))
        (all_read (ok_response ∷ empty_response ∷ []))
from_stream-response_to_string_example =
    from_stream-response_to_string 0 (ok_response ∷ empty_response ∷ [])
      (ok_response-IsWritable, (empty_response-IsWritable, tt))

-- A codec: each byte is moved up, out of the way of blanks and NULs.
up : Bytes → Bytes
up [] = []
up (c ∷ cs) = (c + 33) ∷ up cs

down : Bytes → Bytes
down [] = []
down (c ∷ cs) = (c - 33) ∷ down cs

down-up : (s : Bytes) → down (up s) ≡ s
unfolding up down
down-up [] = refl
down-up (c ∷ cs) = let back : c + 33 - 33 ≡ c = omega arith in rw (back, down-up cs)

up-Lacks : (b : ℕ) (s : Bytes) → b < 33 → Lacks b (up s)
unfolding up
up-Lacks b [] h = tt
up-Lacks b (c ∷ cs) h = (ground arith, up-Lacks b cs h)

up-IsCodec : IsCodec (λ s. some (up s)) (λ s. some (down s))
up-IsCodec = record {
  escaped = λ s h.
      (up s, refl, up-Lacks b' ' s (omega arith), up-Lacks 0 s (omega arith), ap some (down-up s));
}

abbrev asks : HttpRequest
asks =
    make_request get (codes "/is_prime") []
      ((codes "possible_prime", codes "32416190071" ∷ []) ∷ [])
      ((codes "Host", codes "localhost") ∷ []) (codes "HTTP/1.1")

abbrev posts : HttpRequest
posts = make_request post (codes "/is_prime") (codes "97") [] [] (codes "HTTP/1.0")

host-IsHeader : Written.IsHeader (codes "Host") (codes "localhost")
unfolding lacks skip_blanks
host-IsHeader = record {
  plain = lacks-Lacks b':' (codes "Host") refl;
  clean = lacks-Lacks b'\r' (codes "Host") refl;
  tidy = lacks-Lacks b'\r' (codes "localhost") refl;
  whole = refl;
}

asks-IsWritable : Written.IsWritable asks
unfolding lacks equal is_supported find_header equal_caseless to_lower make_request target
asks-IsWritable = record {
  supported = refl;
  no_nul =
      lacks-Lacks 0
        (target (codes "/is_prime") ((codes "possible_prime", codes "32416190071" ∷ []) ∷ [])) refl;
  headers_apart = (host-IsHeader, refl, tt);
  length_free = refl;
  unchunked = refl;
  body_fits = omega arith;
}

posts-IsWritable : Written.IsWritable posts
unfolding lacks equal is_supported find_header make_request target
posts-IsWritable = record {
  supported = refl;
  no_nul = lacks-Lacks 0 (codes "/is_prime") refl;
  headers_apart = tt;
  length_free = refl;
  unchunked = refl;
  body_fits = omega arith;
}

from_stream-request_to_string_example :
    Request.from_stream
      (λ s. some (down s))
      no_limit
      (Request.fresh get)
      (RoundTrip.wire (λ s. some (up s)) (λ s. some (down s)) up-IsCodec (asks ∷ posts ∷ []))
    ≡ Request.returned
        (Request.fresh (last_method get (asks ∷ posts ∷ [])))
        (RoundTrip.all_read (λ s. some (up s)) (λ s. some (down s)) up-IsCodec (asks ∷ posts ∷ []))
from_stream-request_to_string_example =
    from_stream-request_to_string (λ s. some (up s)) (λ s. some (down s)) up-IsCodec get
      (asks ∷ posts ∷ []) (asks-IsWritable, (posts-IsWritable, tt))
