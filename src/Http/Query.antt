-- ===== src/Http/Query.antt =====
-- src/http_protocol.cpp: `http_request_t::split_path_query`.
pub mod Paths
use prime_server.Prelude.{
  ℕ, Bool, true, false, Option, none, some, List, [], ◌∷◌, ◌++◌, ◌==◌, if◌then◌else◌, Bytes, codes,
  is_empty, ◌≡◌, ◌≢◌, refl, arith, Bool-cases, inl, inr,
}
use prime_server.Prelude.Maps.{Key, bytes_key, find, emplace, assign}
use prime_server.Http.{Query}

-- The bytes before the first `c` and those behind it, if there is one.
unfoldable pub split_at : ℕ → Bytes → Option (Bytes × Bytes)
split_at c [] = none
split_at c (x ∷ xs) =
    if x == c
    then some ([], xs)
    else elim (split_at c xs) [ none ↦ none | some (before, behind) ↦ some (x ∷ before, behind) ]

abbrev values_or_empty : Option (List Bytes) → List Bytes
values_or_empty none = []
values_or_empty (some vs) = vs

-- `query[key].emplace_back(value)`.
unfoldable pub add_value : Bytes → Bytes → Query → Query
add_value key v query =
    assign key (values_or_empty (find key query) ++ v ∷ []) (emplace key [] query)

-- The loop's variables: the key whose value is being read, if any, and the bytes since
-- `key_start` or `value_start`.
pub record Splitting : Type 0 where
  pub query : Query
  pub key : Option Bytes
  pub since : Bytes

-- `case '&'`.
unfoldable pub end_parameter : Splitting → Option Bytes → Splitting
unfolding add_value
end_parameter s (some key) = record {
  query = add_value key s.since s.query;
  key = none;
  since = [];
}
end_parameter s none = record { query = add_value s.since [] s.query; key = none; since = [] }

-- `case '='`; a second one is a byte of the value.
unfoldable pub end_key : Splitting → Option Bytes → Splitting
end_key s (some key) = record s { since = s.since ++ b'=' ∷ [] }
end_key s none = record { query = emplace s.since [] s.query; key = some s.since; since = [] }

unfoldable pub split_byte : Splitting → ℕ → Splitting
unfolding end_parameter end_key
split_byte s c =
    if c == b'&'
    then end_parameter s s.key
    else if c == b'='
    then end_key s s.key
    else record s { since = s.since ++ c ∷ [] }

unfoldable pub split_bytes : Splitting → Bytes → Splitting
unfolding split_byte
split_bytes s [] = s
split_bytes s (c ∷ cs) = split_bytes (split_byte s c) cs

-- The last parameter, kept if `key_start < path.end()`: not behind a trailing `&`.
unfoldable pub last_parameter : Splitting → Option Bytes → Query
unfolding add_value
last_parameter s (some key) = add_value key s.since s.query
last_parameter s none = if is_empty s.since then s.query else add_value s.since [] s.query

unfoldable pub parameters : Bytes → Query
unfolding split_bytes last_parameter
parameters bytes =
    let s = split_bytes (record { query = []; key = none; since = [] }) bytes in
    last_parameter s s.key

-- Without a `?`, `find` returns `npos`, and `path.begin() + npos + 1` is `path.begin()`: the whole
-- path is split up, and is not truncated.
unfoldable pub split_found : Bytes → Option (Bytes × Bytes) → Bytes × Query
unfolding parameters
split_found path none = (path, parameters path)
split_found path (some (before, behind)) = (before, parameters behind)

-- The truncated path, and the query.
unfoldable pub split_path_query : Bytes → Bytes × Query
unfolding split_found split_at
split_path_query path = split_found path (split_at b'?' path)
