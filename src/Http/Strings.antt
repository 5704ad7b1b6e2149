-- ===== src/Http/Strings.antt =====
-- src/http_protocol.cpp: `from_string` of requests and responses, which parse a whole message.
use prime_server.Prelude.{ℕ, ◌-◌, Option, [], ◌∷◌, Bytes}
use prime_server.Stdlib.{word_mod}
use prime_server.Http.{Method}
use prime_server.Http.Request.{HttpRequest, Failure}
use prime_server.Http.Request
use prime_server.Http.Response.{Response}
use prime_server.Http.Response

-- A message; an exception of the standard library for one that is not whole; or what the parser
-- throws.
pub data Whole (A X : Type 0) : Type 0 where
  whole : A → Whole A X
  incomplete : Whole A X
  rejected : X → Whole A X

abbrev pub front_request : Request.Outcome → Whole HttpRequest Failure
front_request (Request.returned r []) = incomplete
front_request (Request.returned r (first ∷ rest)) = whole first
front_request (Request.thrown r x) = rejected x
front_request Request.diverged = incomplete

-- `method` is what the field of the local object holds before it is read.
unfoldable pub request_from_string :
    (Bytes → Option Bytes) → Method → Bytes → Whole HttpRequest Failure
unfolding Request.from_stream Request.fresh
request_from_string unescape method s =
    front_request (Request.from_stream unescape (word_mod - 1) (Request.fresh method) s)

abbrev pub front_response : Response.Outcome → Whole Response (Unit {0})
front_response (Response.returned r []) = incomplete
front_response (Response.returned r (first ∷ rest)) = whole first
front_response (Response.thrown r) = rejected tt
front_response Response.diverged = incomplete

unfoldable pub response_from_string : ℕ → Bytes → Whole Response (Unit {0})
unfolding Response.from_stream Response.fresh
response_from_string code s = front_response (Response.from_stream (Response.fresh code) s)
