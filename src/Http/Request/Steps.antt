-- ===== src/Http/Request/Steps.antt =====
-- The request parser on the parts of a request, one round each, with no limit on the size.
use prime_server.Prelude.{
  ℕ, suc, ◌+◌, ◌-◌, ◌<◌, true, false, Option, none, some, List, [], ◌∷◌, ◌++◌, ltb, le→ltb, length,
  Bytes, codes, equal, All-append, append-nil, ◌≡◌, refl, ap, ◌∙◌, arith,
}
use prime_server.Prelude.Maps.{bytes_key, find}
use prime_server.Stdlib.{word_mod, to_string}
use prime_server.Stdlib.Decimal.{stoul-to_string}
use prime_server.Http.{
  Method, options, get, head, post, put, delete, trace, connect, string_to_method, method_to_string,
  State, Headers, Query, HttpEntity, space, crlf, is_supported, find_header, flush_stream,
}
use prime_server.Http.Query.{split_at, split_path_query}
use prime_server.Http.Entity.{consume_until}
use prime_server.Http.Entity.Tokens.{
  Lacks, consume_until-space, consume_until-crlf, consume_until-body,
}
use prime_server.Http.Response.Steps.{header_text, header_text-cons, insert_header_new, not_this}
use prime_server.Http.Request.{
  HttpRequest, make_request, fresh, flush, Outcome, with_entity, next_piece, after_consume,
  dispatch, seen_size, from_stream_loop, read_method, until_nul, read_path, read_version,
  skip_blanks, read_header, is_trailer, is_chunked, start_body, end_headers, read_line, emit,
}

-- `std::numeric_limits<size_t>::max()`, the default of `max_size`.
abbrev pub no_limit : ℕ
no_limit = word_mod - 1

pub within-limit : (r : HttpRequest) → ltb no_limit (seen_size r) ≡ false
unfolding seen_size
within-limit r = le→ltb no_limit (seen_size r) (omega arith)

module _ (unescape : Bytes → Option Bytes) where
  abbrev pub loop : ℕ → HttpRequest → Bytes → List HttpRequest → Outcome
  loop = from_stream_loop unescape no_limit

  found-loop :
      (fuel : ℕ) (r : HttpRequest) (input rest : Bytes) (rs : List HttpRequest) (e : HttpEntity)
      → consume_until r.entity input ≡ record { found = true; entity = e; rest = rest }
      → loop (suc fuel) r input rs
        ≡ next_piece (loop fuel) rest rs (dispatch unescape e.state (with_entity r e))
  unfolding from_stream_loop after_consume
  found-loop fuel r input rest rs e h =
      rw (within-limit r)
        (ap (λ c. after_consume unescape (loop fuel) (with_entity r c.entity) rs c.found c.rest) h)

  -- A request of which the first parts were read.
  abbrev pub stage :
      State → Bytes → Bytes → Headers → ℕ → Method → Bytes → Query → Bytes → HttpRequest
  stage state delimiter version headers consumed method path query log_line = record {
    entity = record {
      version = version;
      headers = headers;
      body = [];
      delimiter = delimiter;
      partial_buffer = [];
      partial_length = 0;
      state = state;
      body_length = 0;
      consumed = consumed;
    };
    method = method;
    path = path;
    query = query;
    log_line = log_line;
    enqueued = [];
  }

  find-method_to_string : (m : Method) → find (method_to_string m) string_to_method ≡ some m
  unfolding find string_to_method method_to_string equal
  find-method_to_string options = refl
  find-method_to_string get = refl
  find-method_to_string head = refl
  find-method_to_string post = refl
  find-method_to_string put = refl
  find-method_to_string delete = refl
  find-method_to_string trace = refl
  find-method_to_string connect = refl

  method_to_string-Lacks : (m : Method) → Lacks b' ' (method_to_string m)
  unfolding method_to_string
  method_to_string-Lacks options = (refl, (refl, (refl, (refl, (refl, (refl, (refl, tt)))))))
  method_to_string-Lacks get = (refl, (refl, (refl, tt)))
  method_to_string-Lacks head = (refl, (refl, (refl, (refl, tt))))
  method_to_string-Lacks post = (refl, (refl, (refl, (refl, tt))))
  method_to_string-Lacks put = (refl, (refl, (refl, tt)))
  method_to_string-Lacks delete = (refl, (refl, (refl, (refl, (refl, (refl, tt))))))
  method_to_string-Lacks trace = (refl, (refl, (refl, (refl, (refl, tt)))))
  method_to_string-Lacks connect = (refl, (refl, (refl, (refl, (refl, (refl, (refl, tt)))))))

  pub method-stage :
      (fuel : ℕ) (old m : Method) (rest : Bytes) (rs : List HttpRequest)
      → loop (suc fuel) (fresh old) (method_to_string m ++ b' ' ∷ rest) rs
        ≡ loop fuel
            (stage State.path space [] []
              (0 + (0 + suc (length (method_to_string m))))
              m
              []
              []
              (method_to_string m ++ space))
            rest
            rs
  unfolding fresh make_request dispatch read_method next_piece
  method-stage fuel old m rest rs =
      found-loop fuel (fresh old) (method_to_string m ++ b' ' ∷ rest) rest rs _ (
        consume_until-space (fresh old).entity (method_to_string m) rest (method_to_string-Lacks m))
      ∙ rw (find-method_to_string m, append-nil rs)

  pub path-stage :
      (fuel n : ℕ) (m : Method) (escaped decoded line rest : Bytes) (rs : List HttpRequest)
      → Lacks b' ' escaped
      → unescape escaped ≡ some decoded
      → loop (suc fuel) (stage State.path space [] [] n m [] [] line) (escaped ++ b' ' ∷ rest) rs
        ≡ loop fuel
            (stage State.version crlf [] []
              (n + (0 + suc (length escaped)))
              m
              (until_nul decoded)
              []
              (line ++ (escaped ++ space)))
            rest
            rs
  unfolding dispatch read_path next_piece
  path-stage fuel n m escaped decoded line rest rs lacks decodes =
      found-loop fuel (stage State.path space [] [] n m [] [] line) (escaped ++ b' ' ∷ rest) rest rs
        _
        (consume_until-space (stage State.path space [] [] n m [] [] line).entity escaped rest
          lacks)
      ∙ rw (decodes, append-nil rs)

  pub version-stage :
      (fuel n : ℕ) (m : Method) (path version line rest : Bytes) (rs : List HttpRequest)
      → is_supported version ≡ true
      → Lacks b'\r' version
      → loop
          (suc fuel)
          (stage State.version crlf [] [] n m path [] line)
          (version ++ b'\r' ∷ b'\n' ∷ rest)
          rs
        ≡ loop fuel
            (stage State.headers crlf version []
              (n + (0 + suc (suc (length version))))
              m
              (split_path_query path).0
              (split_path_query path).1
              (line ++ version))
            rest
            rs
  unfolding dispatch read_version next_piece
  version-stage fuel n m path version line rest rs supported lacks =
      found-loop fuel (stage State.version crlf [] [] n m path [] line)
        (version ++ b'\r' ∷ b'\n' ∷ rest) rest rs _
        (consume_until-crlf (stage State.version crlf [] [] n m path [] line).entity version rest
          lacks)
      ∙ rw (supported, append-nil rs)

  split_at-header_text :
      (name v : Bytes)
      → Lacks b':' name
      → split_at b':' (header_text name v) ≡ some (name, b' ' ∷ v)
  unfolding split_at
  split_at-header_text [] v h = refl
  split_at-header_text (c ∷ name) v h = rw (not_this b':' c h.0, split_at-header_text name v h.1)

  skip_blanks-blank : (v : Bytes) → skip_blanks v ≡ v → skip_blanks (b' ' ∷ v) ≡ v
  unfolding skip_blanks
  skip_blanks-blank v h = h

  pub header-stage :
      (fuel n : ℕ) (m : Method) (path : Bytes) (query : Query) (version line name v rest : Bytes)
      (hs : Headers) (rs : List HttpRequest)
      → Lacks b':' name
      → Lacks b'\r' name
      → Lacks b'\r' v
      → skip_blanks v ≡ v
      → find_header name hs ≡ none
      → loop
          (suc fuel)
          (stage State.headers crlf version hs n m path query line)
          (header_text name v ++ b'\r' ∷ b'\n' ∷ rest)
          rs
        ≡ loop fuel
            (stage State.headers crlf version
              (hs ++ (name, v) ∷ [])
              (n + (0 + suc (suc (length (header_text name v)))))
              m
              path
              query
              line)
            rest
            rs
  unfolding dispatch read_line read_header next_piece
  header-stage fuel n m path query version line name v rest hs rs plain clean tidy whole new =
      found-loop fuel (stage State.headers crlf version hs n m path query line)
        (header_text name v ++ b'\r' ∷ b'\n' ∷ rest) rest rs _
        (consume_until-crlf (stage State.headers crlf version hs n m path query line).entity
          (header_text name v) rest
          (All-append _ name (b':' ∷ b' ' ∷ v) clean (refl, (refl, tidy))))
      ∙ rw (
        header_text-cons name v,
        split_at-header_text name v plain,
        skip_blanks-blank v whole,
        insert_header_new name v hs new,
        append-nil rs,
      )

  -- The empty line, when the length of the body is known.
  pub blank-stage :
      (fuel n size : ℕ) (m : Method) (path : Bytes) (query : Query) (version line rest : Bytes)
      (hs : Headers) (rs : List HttpRequest)
      → find_header (codes "Content-Length") hs ≡ some (to_string size)
      → size < word_mod
      → loop
          (suc fuel)
          (stage State.headers crlf version hs n m path query line)
          (b'\r' ∷ b'\n' ∷ rest)
          rs
        ≡ loop fuel
            (record (stage State.body [] version hs (n + 2) m path query line) {
              entity = record (stage State.body [] version hs (n + 2) m path query line).entity {
                body_length = size;
              };
            })
            rest
            rs
  unfolding dispatch read_line end_headers start_body is_trailer next_piece
  blank-stage fuel n size m path query version line rest hs rs known small =
      found-loop fuel (stage State.headers crlf version hs n m path query line)
        (b'\r' ∷ b'\n' ∷ rest) rest rs _
        (consume_until-crlf (stage State.headers crlf version hs n m path query line).entity [] rest
          tt)
      ∙ rw (known, stoul-to_string size small, append-nil rs)

  -- What is emitted.
  abbrev pub whole_request : Method → Bytes → Bytes → Query → Headers → Bytes → Bytes → HttpRequest
  whole_request m path body query hs version line =
      record (make_request m path body query hs version) { log_line = line }

  -- The empty line, when there is no body.
  pub end-stage :
      (fuel n : ℕ) (m : Method) (path : Bytes) (query : Query) (version line rest : Bytes)
      (hs : Headers) (rs : List HttpRequest)
      → find_header (codes "Content-Length") hs ≡ none
      → is_chunked (find_header (codes "Transfer-Encoding") hs) ≡ false
      → loop
          (suc fuel)
          (stage State.headers crlf version hs n m path query line)
          (b'\r' ∷ b'\n' ∷ rest)
          rs
        ≡ loop fuel (fresh m) rest (rs ++ whole_request m path [] query hs version line ∷ [])
  unfolding dispatch read_line end_headers is_trailer emit flush flush_stream fresh make_request
      next_piece
  end-stage fuel n m path query version line rest hs rs missing plain =
      found-loop fuel (stage State.headers crlf version hs n m path query line)
        (b'\r' ∷ b'\n' ∷ rest) rest rs _
        (consume_until-crlf (stage State.headers crlf version hs n m path query line).entity [] rest
          tt)
      ∙ rw (missing, plain)

  pub body-stage :
      (fuel n : ℕ) (m : Method) (path : Bytes) (query : Query) (version line body rest : Bytes)
      (hs : Headers) (rs : List HttpRequest)
      → loop
          (suc fuel)
          (record (stage State.body [] version hs n m path query line) {
            entity = record (stage State.body [] version hs n m path query line).entity {
              body_length = length body;
            };
          })
          (body ++ rest)
          rs
        ≡ loop fuel (fresh m) rest (rs ++ whole_request m path body query hs version line ∷ [])
  unfolding dispatch emit flush flush_stream fresh make_request next_piece
  body-stage fuel n m path query version line body rest hs rs =
      found-loop fuel _ (body ++ rest) rest rs _
        (consume_until-body (stage State.body [] version hs n m path query line).entity body rest)
