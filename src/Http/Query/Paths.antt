-- ===== src/Http/Query/Paths.antt =====
-- Where the query of a request begins.
use prime_server.Prelude.{
  ℕ, false, none, some, [], ◌∷◌, ◌++◌, ◌==◌, Bytes, ◌≡◌, ◌≢◌, refl, ◌∙◌, arith, All, append_assoc,
  append-nil, equal_self,
}
use prime_server.Prelude.Maps.{bytes_key, find, emplace, assign}
use prime_server.Http.Query.{
  split_at, add_value, Splitting, split_byte, split_bytes, last_parameter, parameters, split_found,
  split_path_query,
}

abbrev pub Lacks : ℕ → Bytes → Type 0
Lacks c = All (λ x. (x == c) ≡ false)

split_at-Lacks : (c : ℕ) (s : Bytes) → Lacks c s → split_at c s ≡ none
unfolding split_at
split_at-Lacks c [] h = refl
split_at-Lacks c (x ∷ xs) h = rw (h.0, split_at-Lacks c xs h.1)

split_at-append : (c : ℕ) (s rest : Bytes) → Lacks c s → split_at c (s ++ c ∷ rest) ≡ some (s, rest)
unfolding split_at
split_at-append c [] rest h = ground arith
split_at-append c (x ∷ xs) rest h = rw (h.0, split_at-append c xs rest h.1)

-- The path of a target is what stands before the first `?`, and the query comes from what stands
-- behind it.
pub split_path_query-append :
    (path query : Bytes)
    → Lacks b'?' path
    → split_path_query (path ++ b'?' ∷ query) ≡ (path, parameters query)
unfolding split_path_query split_found
split_path_query-append path query h = rw (split_at-append b'?' path query h, split_found)

split_bytes-Lacks :
    (s : Bytes) (t : Splitting)
    → Lacks b'&' s
    → Lacks b'=' s
    → split_bytes t s ≡ record t { since = t.since ++ s }
unfolding split_bytes split_byte
split_bytes-Lacks [] t h k = rw append-nil
split_bytes-Lacks (x ∷ xs) t h k =
    rw (h.0, k.0)
      (split_bytes-Lacks xs (record t { since = t.since ++ x ∷ [] }) h.1 k.1 ∙ rw append_assoc)

-- A target that is not empty and has none of `?`, `&` and `=` is not cut, and the whole of it is
-- taken for a parameter with an empty value: a request without a query gets one.
pub split_path_query-Lacks :
    (path : Bytes)
    → path ≢ []
    → Lacks b'?' path
    → Lacks b'&' path
    → Lacks b'=' path
    → split_path_query path ≡ (path, (path, [] ∷ []) ∷ [])
unfolding split_path_query split_found parameters last_parameter add_value find emplace assign
split_path_query-Lacks [] ne q a e = absurd (ne refl)
split_path_query-Lacks (c ∷ cs) ne q a e =
    rw (split_at-Lacks b'?' (c ∷ cs) q, split_found)
      (rw (
        split_bytes-Lacks (c ∷ cs) (record { query = []; key = none; since = [] }) a e,
        equal_self (c ∷ cs),
      ))
