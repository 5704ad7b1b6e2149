-- ===== src/Http.antt =====
-- prime_server/http_protocol.hpp: the types and the tables of the HTTP codec.
--
-- Byte strings are lists of byte values. `headers_t` and `query_t` are association lists in the
-- order of iteration. libcurl's escaping is a parameter where it is used.
pub mod Entity
pub mod Query
pub mod Request
pub mod Message
pub mod Client
pub mod Response
pub mod Strings
use prime_server.Prelude.{
  ℕ, Bool, true, false, ◌&&◌, ◌||◌, not, Option, none, some, List, [], ◌∷◌, ◌++◌, ◌==◌,
  if◌then◌else◌, Bytes, codes, equal,
}
use prime_server.Prelude.Maps.{Key, bytes_key, find}
use prime_server.Stdlib.{to_lower}

pub data Method : Type 0 where
  options get head post put delete trace connect : Method

-- `STRING_TO_METHOD`.
unfoldable pub string_to_method : List (Bytes × Method)
string_to_method =
    (codes "OPTIONS", options)
    ∷ (codes "GET", get)
    ∷ (codes "HEAD", head)
    ∷ (codes "POST", post)
    ∷ (codes "PUT", put)
    ∷ (codes "DELETE", delete)
    ∷ (codes "TRACE", trace)
    ∷ (codes "CONNECT", connect)
    ∷ []

-- `METHOD_TO_STRING`, which has every method.
unfoldable pub method_to_string : Method → Bytes
method_to_string options = codes "OPTIONS"
method_to_string get = codes "GET"
method_to_string head = codes "HEAD"
method_to_string post = codes "POST"
method_to_string put = codes "PUT"
method_to_string delete = codes "DELETE"
method_to_string trace = codes "TRACE"
method_to_string connect = codes "CONNECT"

-- `SUPPORTED_VERSIONS`.
unfoldable pub is_supported : Bytes → Bool
is_supported version = equal version (codes "HTTP/1.0") || equal version (codes "HTTP/1.1")

-- `caseless_predicates_t`: equal up to the case of ASCII letters.
unfoldable pub equal_caseless : Bytes → Bytes → Bool
equal_caseless [] [] = true
equal_caseless (x ∷ xs) (y ∷ ys) = to_lower x == to_lower y && equal_caseless xs ys
equal_caseless _ _ = false

abbrev pub Headers : Type 0
Headers = List (Bytes × Bytes)

-- `headers.find`.
unfoldable pub find_header : Bytes → Headers → Option Bytes
unfolding equal_caseless
find_header name [] = none
find_header name ((key, v) ∷ rest) =
    if equal_caseless key name then some v else find_header name rest

-- `headers.insert`, which leaves a header that is there.
unfoldable pub insert_header : Bytes → Bytes → Headers → Headers
unfolding equal_caseless
insert_header name v [] = (name, v) ∷ []
insert_header name v ((key, w) ∷ rest) =
    if equal_caseless key name then (key, w) ∷ rest else (key, w) ∷ insert_header name v rest

abbrev pub Query : Type 0
Query = List (Bytes × List Bytes)

-- `http_entity_t::state_t`.
pub data State : Type 0 where
  method message code path version headers body chunk_length chunk trailer : State

-- The members of `http_entity_t` but for `cursor` and `end`, which are the input of each call.
pub record HttpEntity : Type 0 where
  pub version : Bytes
  pub headers : Headers
  pub body : Bytes
  pub delimiter : Bytes
  pub partial_buffer : Bytes
  pub partial_length : ℕ
  pub state : State
  pub body_length : ℕ
  pub consumed : ℕ

abbrev pub space : Bytes
space = b' ' ∷ []

abbrev pub crlf : Bytes
crlf = b'\r' ∷ b'\n' ∷ []

-- `http_entity_t::flush_stream`.
unfoldable pub flush_stream : State → HttpEntity → HttpEntity
flush_stream state e = record e {
  state = state;
  delimiter = space;
  partial_length = 0;
  body_length = 0;
  consumed = 0;
  partial_buffer = [];
  version = [];
  headers = [];
  body = [];
}
