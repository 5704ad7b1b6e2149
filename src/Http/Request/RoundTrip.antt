-- ===== src/Http/Request/RoundTrip.antt =====
-- What `to_string` writes for requests is read back.
use prime_server.Prelude.{
  ℕ, suc, ◌+◌, ◌*◌, ◌-◌, ◌<◌, ◌≤◌, false, Option, none, some, List, [], ◌∷◌, ◌++◌, is_empty, length,
  length-append, Bytes, codes, All, append_assoc, append-nil, ◌≡◌, refl, ap, sym, ◌∙◌, arith,
}
use prime_server.Stdlib.{word_mod, to_string, is_digit, to_lower}
use prime_server.Stdlib.Decimal.{IsDigits, to_string-IsDigits}
use prime_server.Http.{
  Method, method_to_string, State, Headers, Query, space, crlf, find_header, equal_caseless,
}
use prime_server.Http.Message.{
  header_line, header_lines, target, length_line, body_lines, request_lines, request_to_string,
}
use prime_server.Http.Query.{split_path_query}
use prime_server.Http.Entity.{consume_until}
use prime_server.Http.Response.Written.{
  after_lines, header_line_then, digits-Lacks, find_header-append,
}
use prime_server.Http.Response.RoundTrip.{
  with_length, after_lines-length, length_name-Lacks, has_bytes,
}
use prime_server.Http.Request.{
  HttpRequest, returned, make_request, fresh, until_nul, skip_blanks, is_chunked, from_stream_loop,
  from_stream, after_consume, ran_out,
}
use prime_server.Http.Request.Steps.{
  no_limit, loop, stage, whole_request, method-stage, path-stage, version-stage, header-stage,
  blank-stage, end-stage, body-stage,
}
use prime_server.Http.Request.Written.{
  IsCodec, IsWritable, until_nul-Lacks, supported-Lacks, headers-stage, header_lines-length,
}

-- The headers that are written.
abbrev pub headers_read : Headers → Bytes → Headers
headers_read hs [] = hs
headers_read hs (c ∷ cs) = with_length hs (c ∷ cs)

-- A round for each part behind the headers.
unfoldable end_rounds : Bytes → ℕ → ℕ
end_rounds [] fuel = suc fuel
end_rounds (c ∷ cs) fuel = suc (suc (suc fuel))

digits-skip_blanks : (ds : Bytes) → IsDigits ds → skip_blanks ds ≡ ds
unfolding skip_blanks is_digit
digits-skip_blanks [] h = refl
digits-skip_blanks (c ∷ cs) h = ground (arith, h.0)

module _ (unescape : Bytes → Option Bytes) where
  -- The rest of a request behind its headers.
  ends :
      (fuel n : ℕ) (m : Method) (path : Bytes) (query : Query) (version line : Bytes) (hs : Headers)
      (body behind : Bytes) (rs : List HttpRequest)
      → find_header (codes "Content-Length") hs ≡ none
      → is_chunked (find_header (codes "Transfer-Encoding") hs) ≡ false
      → length body < word_mod
      → loop unescape
          (end_rounds body fuel)
          (stage unescape State.headers crlf version hs n m path query line)
          (body_lines hs body ++ behind)
          rs
        ≡ loop unescape fuel (fresh m) behind (
            rs ++ whole_request unescape m path body query (headers_read hs body) version line ∷ [])
  unfolding end_rounds body_lines length_line is_digit to_lower equal_caseless skip_blanks
  ends fuel n m path query version line hs [] behind rs missing plain fits =
      end-stage unescape fuel n m path query version line behind hs rs missing plain
  ends fuel n m path query version line hs (c ∷ cs) behind rs missing plain fits =
      let size = to_string (length (c ∷ cs)) in
      let digits = to_string-IsDigits (length (c ∷ cs)) in
      rw
        (
          missing,
          append_assoc (header_line (codes "Content-Length") size) (crlf ++ c ∷ cs) behind,
          header_line_then (codes "Content-Length") size ((crlf ++ c ∷ cs) ++ behind),
        )
        (header-stage unescape (suc (suc fuel)) n m path query version line (codes "Content-Length")
            size (b'\r' ∷ b'\n' ∷ (c ∷ cs ++ behind)) hs rs length_name-Lacks.0 length_name-Lacks.1
            (digits-Lacks b'\r' size refl digits) (digits-skip_blanks size digits) missing
          ∙ blank-stage unescape (suc fuel) _ (length (c ∷ cs)) m path query version line
              (c ∷ cs ++ behind) (with_length hs (c ∷ cs)) rs
              (find_header-append (codes "Content-Length") (codes "Content-Length") size hs missing
                refl)
              fits
          ∙ body-stage unescape fuel _ m path query version line (c ∷ cs) behind
              (with_length hs (c ∷ cs)) rs)

end_rounds_few : (body : Bytes) → (j : ℕ) × (j ≤ 3) × ((fuel : ℕ) → end_rounds body fuel ≡ j + fuel)
unfolding end_rounds
end_rounds_few [] = (1, omega arith, λ fuel. omega arith)
end_rounds_few (c ∷ cs) = (3, omega arith, λ fuel. omega arith)

-- What is written if the escaping succeeds.
abbrev pub or_nothing : Option Bytes → Bytes
or_nothing none = []
or_nothing (some s) = s

-- The first line of a request without its end, which the log keeps.
unfoldable pub first_line : (Bytes → Option Bytes) → HttpRequest → Bytes
first_line escape r =
    ((method_to_string r.method ++ space)
      ++ (until_nul (or_nothing (escape (target r.path r.query))) ++ space))
    ++ r.version

-- What is read of a request: the target split up, and its length in the headers.
unfoldable pub read_back : (Bytes → Option Bytes) → HttpRequest → HttpRequest
unfolding first_line
read_back escape r =
    let (path, query) = split_path_query (target r.path r.query) in
    record (make_request r.method path r.body query (headers_read r.headers r.body) r.version) {
      log_line = first_line escape r;
    }

-- What the field holds in the end; the constructor leaves it as it finds it.
abbrev pub last_method : Method → List HttpRequest → Method
last_method old [] = old
last_method old (r ∷ rs) = last_method r.method rs

module _ (escape unescape : Bytes → Option Bytes) (codec : IsCodec escape unescape) where
  written : HttpRequest → Bytes
  written r = or_nothing (request_to_string escape r)

  rounds : HttpRequest → ℕ → ℕ
  rounds r fuel = suc (suc (suc (after_lines r.headers (end_rounds r.body fuel))))

  text : HttpRequest → Bytes → Bytes → Bytes
  text r w behind =
      method_to_string r.method
      ++ b' '
        ∷ (w
            ++ b' '
              ∷ (r.version
                  ++ b'\r'
                    ∷ b'\n'
                    ∷ (header_lines r.headers ++ (body_lines r.headers r.body ++ behind))))

  written-text :
      (r : HttpRequest) (w behind : Bytes)
      → escape (target r.path r.query) ≡ some w
      → until_nul w ≡ w
      → written r ++ behind ≡ text r w behind
  unfolding written text request_to_string request_lines
  written-text r w behind escaped whole =
      let a = header_lines r.headers ++ body_lines r.headers r.body in
      let b = r.version ++ (crlf ++ a) in
      rw (escaped, whole)
        (append_assoc (method_to_string r.method) (b' ' ∷ (w ++ b' ' ∷ b)) behind
          ∙ ap (λ t. method_to_string r.method ++ b' ' ∷ t) (append_assoc w (b' ' ∷ b) behind)
          ∙ ap (λ t. method_to_string r.method ++ b' ' ∷ (w ++ b' ' ∷ t))
              (append_assoc r.version (crlf ++ a) behind)
          ∙ ap (λ t. method_to_string r.method ++ b' ' ∷ (w ++ b' ' ∷ (r.version ++ (crlf ++ t))))
              (append_assoc (header_lines r.headers) (body_lines r.headers r.body) behind))

  one_request :
      (fuel : ℕ) (old : Method) (r : HttpRequest) (behind : Bytes) (rs : List HttpRequest)
      → IsWritable r
      → loop unescape (rounds r fuel) (fresh old) (written r ++ behind) rs
        ≡ loop unescape fuel (fresh r.method) behind (rs ++ read_back escape r ∷ [])
  unfolding rounds text read_back first_line
  one_request fuel old r behind rs ok =
      let t = target r.path r.query in
      let (w, escaped, lacks, clean, back) = codec.escaped t ok.no_nul in
      let whole = until_nul-Lacks w clean in
      let same = until_nul-Lacks t ok.no_nul in
      let split = split_path_query t in
      let lines = after_lines r.headers (end_rounds r.body fuel) in
      let line = (method_to_string r.method ++ space) ++ (w ++ space) in
      let n1 = 0 + (0 + suc (length (method_to_string r.method))) in
      let n2 = n1 + (0 + suc (length w)) in
      let n3 = n2 + (0 + suc (suc (length r.version))) in
      let (n, listed) =
        headers-stage unescape (end_rounds r.body fuel) n3 r.method split.0 split.1 r.version
          (line ++ r.version) (body_lines r.headers r.body ++ behind) [] r.headers rs
          ok.headers_apart in
      ap (λ s. loop unescape (rounds r fuel) (fresh old) s rs)
        (written-text r w behind escaped whole)
      ∙ method-stage unescape (suc (suc lines)) old r.method _ rs
      ∙ path-stage unescape (suc lines) n1 r.method w t (method_to_string r.method ++ space) _ rs
          lacks back
      ∙ rw same (
          version-stage unescape lines n2 r.method t r.version line _ rs ok.supported
            (supported-Lacks r.version ok.supported))
      ∙ listed
      ∙ ends unescape fuel n r.method split.0 split.1 r.version (line ++ r.version) r.headers r.body
          behind rs ok.length_free ok.unchunked ok.body_fits
      ∙ ap
          (λ o. loop unescape fuel (fresh r.method) behind (
            rs
            ++ whole_request unescape r.method split.0 r.body split.1
                (headers_read r.headers r.body) r.version
                (((method_to_string r.method ++ space) ++ (o ++ space)) ++ r.version)
              ∷ []))
          (sym (ap (λ o. until_nul (or_nothing o)) escaped ∙ whole))

  pub wire : List HttpRequest → Bytes
  wire [] = []
  wire (r ∷ rs) = written r ++ wire rs

  abbrev pub all_read : List HttpRequest → List HttpRequest
  all_read [] = []
  all_read (r ∷ rs) = read_back escape r ∷ all_read rs

  all_rounds : List HttpRequest → ℕ → ℕ
  all_rounds [] fuel = fuel
  all_rounds (r ∷ rs) fuel = rounds r (all_rounds rs fuel)

  many_requests :
      (fuel : ℕ) (old : Method) (rs read : List HttpRequest)
      → All IsWritable rs
      → loop unescape (all_rounds rs fuel) (fresh old) (wire rs) read
        ≡ loop unescape fuel (fresh (last_method old rs)) [] (read ++ all_read rs)
  unfolding all_rounds wire
  many_requests fuel old [] read w = rw (append-nil read)
  many_requests fuel old (r ∷ rs) read (this, others) =
      one_request (all_rounds rs fuel) old r (wire rs) read this
      ∙ many_requests fuel r.method rs (read ++ read_back escape r ∷ []) others
      ∙ ap (loop unescape fuel (fresh (last_method r.method rs)) [])
          (append_assoc read (read_back escape r ∷ []) (all_read rs))

  loop_end :
      (fuel : ℕ) (old : Method) (read : List HttpRequest)
      → loop unescape (suc fuel) (fresh old) [] read ≡ returned (fresh old) read
  unfolding from_stream_loop fresh make_request consume_until after_consume ran_out
  loop_end fuel old read = refl

  -- The rounds are no more than the bytes.
  written-length : (r : HttpRequest) → IsWritable r → length r.headers + 4 ≤ length (written r)
  unfolding text
  written-length r ok =
      let (w, escaped, lacks, clean, back) = codec.escaped (target r.path r.query) ok.no_nul in
      let whole = until_nul-Lacks w clean in
      let a = header_lines r.headers ++ (body_lines r.headers r.body ++ []) in
      rw (sym (append-nil (written r)), written-text r w [] escaped whole)
        (omega (
          arith,
          header_lines-length r.headers,
          length-append (method_to_string r.method)
              (b' ' ∷ (w ++ b' ' ∷ (r.version ++ b'\r' ∷ b'\n' ∷ a))),
          length-append w (b' ' ∷ (r.version ++ b'\r' ∷ b'\n' ∷ a)),
          length-append r.version (b'\r' ∷ b'\n' ∷ a),
          length-append (header_lines r.headers) (body_lines r.headers r.body ++ []),
        ))

  all_rounds-length :
      (rs : List HttpRequest)
      → All IsWritable rs
      → (k : ℕ) × (k ≤ 2 * length (wire rs)) × ((fuel : ℕ) → all_rounds rs fuel ≡ k + fuel)
  unfolding all_rounds wire rounds
  all_rounds-length [] w = (0, omega arith, λ fuel. omega arith)
  all_rounds-length (r ∷ rs) (this, others) =
      let (k, small, same) = all_rounds-length rs others in
      let (j, few, end) = end_rounds_few r.body in
      (
        length r.headers + 3 + j + k,
        omega (arith, small, few, written-length r this, length-append (written r) (wire rs)),
        λ fuel. omega (
          arith,
          same fuel,
          end (all_rounds rs fuel),
          after_lines-length r.headers (end_rounds r.body (all_rounds rs fuel)),
        ),
      )

  -- Some fuel is left of what `from_stream` gives.
  enough :
      (rs : List HttpRequest)
      → All IsWritable rs
      → (left : ℕ) × (2 * length (wire rs) + 2 ≡ all_rounds rs (suc left))
  enough rs w =
      let (k, small, same) = all_rounds-length rs w in
      let left = 2 * length (wire rs) + 1 - k in (left, omega (arith, small, same (suc left)))

  wire_has_bytes :
      (r : HttpRequest) (rs : List HttpRequest) → IsWritable r → is_empty (wire (r ∷ rs)) ≡ false
  unfolding wire
  wire_has_bytes r rs w =
      has_bytes (written r ++ wire rs)
        (omega (arith, written-length r w, length-append (written r) (wire rs)))

  from_stream_nothing :
      (old : Method) → from_stream unescape no_limit (fresh old) (wire []) ≡ returned (fresh old) []
  unfolding from_stream wire
  from_stream_nothing old = refl

  -- From a new parser without a limit on the size, what `to_string` writes for any number of requests
  -- is read back, each with its target split up again, the length of a body in its headers and its
  -- first line for the log, and the parser is as new but for the method, which nothing reads before
  -- it is written: for requests with a supported version, a target without NUL, headers that are
  -- neither chunked nor a length, without a carriage return, with different names without a colon and
  -- values that do not begin with a blank, and bodies shorter than 2 ^ 64; if libcurl escapes blanks
  -- and NULs, and reverts it.
  pub from_stream-request_to_string :
      (old : Method) (rs : List HttpRequest)
      → All IsWritable rs
      → from_stream unescape no_limit (fresh old) (wire rs)
        ≡ returned (fresh (last_method old rs)) (all_read rs)
  unfolding from_stream
  from_stream-request_to_string old [] w = from_stream_nothing old
  from_stream-request_to_string old (r ∷ rs) w =
      let (left, same) = enough (r ∷ rs) w in
      rw (wire_has_bytes r rs w.0, same)
        (many_requests (suc left) old (r ∷ rs) [] w
          ∙ loop_end left (last_method old (r ∷ rs)) (all_read (r ∷ rs)))
