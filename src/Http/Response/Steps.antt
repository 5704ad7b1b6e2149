-- ===== src/Http/Response/Steps.antt =====
-- The response parser on the parts of a response, one round each.
use prime_server.Prelude.{
  ℕ, suc, ◌+◌, ◌%◌, ◌^◌, ◌<◌, true, false, Bool-cases, inl, inr, none, some, List, [], ◌∷◌, ◌++◌,
  ◌==◌, is_empty, length, Bytes, codes, All-append, append-nil, ◌≡◌, refl, ap, ◌∙◌, arith,
}
use prime_server.Stdlib.{word_mod, to_string}
use prime_server.Stdlib.Decimal.{stoul-to_string}
use prime_server.Http.{
  State, Headers, HttpEntity, space, crlf, equal_caseless, is_supported, find_header, insert_header,
  flush_stream,
}
use prime_server.Http.Entity.{consume_until}
use prime_server.Http.Entity.Tokens.{
  Lacks, consume_until-space, consume_until-crlf, consume_until-body,
}
use prime_server.Http.Response.{
  Response, make_response, flush, fresh, with_entity, next_piece, after_consume, dispatch,
  from_stream_loop, read_version, read_code, read_line, read_header, split_header, end_headers,
  start_body, emit,
}
use prime_server.Http.Request.{is_trailer}

found-loop :
    (fuel : ℕ) (r : Response) (input rest : Bytes) (rs : List Response) (e : HttpEntity)
    → consume_until r.entity input ≡ record { found = true; entity = e; rest = rest }
    → from_stream_loop (suc fuel) r input rs
      ≡ next_piece (from_stream_loop fuel) rest rs (dispatch e.state (with_entity r e))
unfolding from_stream_loop after_consume
found-loop fuel r input rest rs e h =
    ap (λ c. after_consume (from_stream_loop fuel) (with_entity r c.entity) rs c.found c.rest) h

-- A response of which the first parts were read.
abbrev pub stage : State → Bytes → Bytes → Headers → ℕ → ℕ → Bytes → Response
stage state delimiter version headers consumed code message = record {
  entity = record {
    version = version;
    headers = headers;
    body = [];
    delimiter = delimiter;
    partial_buffer = [];
    partial_length = 0;
    state = state;
    body_length = 0;
    consumed = consumed;
  };
  code = code;
  message = message;
}

pub version-stage :
    (fuel code : ℕ) (version rest : Bytes) (rs : List Response)
    → is_supported version ≡ true
    → Lacks b' ' version
    → from_stream_loop (suc fuel) (fresh code) (version ++ b' ' ∷ rest) rs
      ≡ from_stream_loop fuel
          (stage State.code space version [] (0 + (0 + suc (length version))) code [])
          rest
          rs
unfolding fresh flush make_response flush_stream dispatch read_version next_piece
version-stage fuel code version rest rs supported lacks =
    found-loop fuel (fresh code) (version ++ b' ' ∷ rest) rest rs _
      (consume_until-space (fresh code).entity version rest lacks)
    ∙ rw (supported, append-nil rs)

pub code-stage :
    (fuel old code n : ℕ) (version rest : Bytes) (rs : List Response)
    → code < 2 ^ 16
    → Lacks b' ' (to_string code)
    → from_stream_loop
        (suc fuel)
        (stage State.code space version [] n old [])
        (to_string code ++ b' ' ∷ rest)
        rs
      ≡ from_stream_loop fuel
          (stage State.message crlf version [] (n + (0 + suc (length (to_string code)))) code [])
          rest
          rs
unfolding dispatch read_code next_piece
code-stage fuel old code n version rest rs small lacks =
    let kept : code % 2 ^ 16 ≡ code = omega arith in
    found-loop fuel (stage State.code space version [] n old []) (to_string code ++ b' ' ∷ rest)
      rest rs _
      (consume_until-space (stage State.code space version [] n old []).entity (to_string code) rest
        lacks)
    ∙ rw (stoul-to_string code (omega arith), kept, append-nil rs)

pub message-stage :
    (fuel code n : ℕ) (version message rest : Bytes) (rs : List Response)
    → Lacks b'\r' message
    → from_stream_loop
        (suc fuel)
        (stage State.message crlf version [] n code [])
        (message ++ b'\r' ∷ b'\n' ∷ rest)
        rs
      ≡ from_stream_loop fuel
          (stage State.headers crlf version [] (n + (0 + suc (suc (length message)))) code message)
          rest
          rs
unfolding dispatch next_piece
message-stage fuel code n version message rest rs lacks =
    found-loop fuel (stage State.message crlf version [] n code [])
      (message ++ b'\r' ∷ b'\n' ∷ rest) rest rs _
      (consume_until-crlf (stage State.message crlf version [] n code []).entity message rest lacks)
    ∙ rw (append-nil rs)

-- `name: v`.
abbrev pub header_text : Bytes → Bytes → Bytes
header_text name v = name ++ b':' ∷ b' ' ∷ v

pub header_text-cons : (name v : Bytes) → is_empty (header_text name v) ≡ false
header_text-cons [] v = refl
header_text-cons (c ∷ name) v = refl

pub not_this : (b c : ℕ) → (b == c) ≡ false → (c == b) ≡ false
not_this b c h = ground arith

split_header-header_text :
    (name v : Bytes) → Lacks b':' name → split_header (header_text name v) ≡ some (name, v)
unfolding split_header
split_header-header_text [] v h = refl
split_header-header_text (c ∷ []) v h = rw (not_this b':' c h.0)
split_header-header_text (c ∷ d ∷ name) v h =
    rw (not_this b':' c h.0, split_header-header_text (d ∷ name) v h.1)

pub insert_header_new :
    (name v : Bytes) (hs : Headers)
    → find_header name hs ≡ none
    → insert_header name v hs ≡ hs ++ (name, v) ∷ []
unfolding find_header insert_header
insert_header_new name v [] h = refl
insert_header_new name v ((key, w) ∷ hs) h = elim (Bool-cases (equal_caseless key name)) [
  | inl same ↦ absurd (cc (rw same at h))
  | inr other ↦ rw other (ap (◌∷◌ (key, w)) (insert_header_new name v hs (rw other at h)))
]

pub header-stage :
    (fuel code n : ℕ) (version message name v rest : Bytes) (hs : Headers) (rs : List Response)
    → Lacks b':' name
    → Lacks b'\r' name
    → Lacks b'\r' v
    → find_header name hs ≡ none
    → from_stream_loop
        (suc fuel)
        (stage State.headers crlf version hs n code message)
        (header_text name v ++ b'\r' ∷ b'\n' ∷ rest)
        rs
      ≡ from_stream_loop fuel
          (stage State.headers crlf version
            (hs ++ (name, v) ∷ [])
            (n + (0 + suc (suc (length (header_text name v)))))
            code
            message)
          rest
          rs
unfolding dispatch read_line read_header next_piece
header-stage fuel code n version message name v rest hs rs plain clean tidy new =
    found-loop fuel (stage State.headers crlf version hs n code message)
      (header_text name v ++ b'\r' ∷ b'\n' ∷ rest) rest rs _
      (consume_until-crlf (stage State.headers crlf version hs n code message).entity
        (header_text name v) rest (All-append _ name (b':' ∷ b' ' ∷ v) clean (refl, (refl, tidy))))
    ∙ rw (
      header_text-cons name v,
      split_header-header_text name v plain,
      insert_header_new name v hs new,
      append-nil rs,
    )

-- The empty line, when the length of the body is known.
pub blank-stage :
    (fuel code n size : ℕ) (version message rest : Bytes) (hs : Headers) (rs : List Response)
    → find_header (codes "Content-Length") hs ≡ some (to_string size)
    → size < word_mod
    → from_stream_loop
        (suc fuel)
        (stage State.headers crlf version hs n code message)
        (b'\r' ∷ b'\n' ∷ rest)
        rs
      ≡ from_stream_loop fuel
          (record (stage State.body [] version hs (n + 2) code message) {
            entity = record (stage State.body [] version hs (n + 2) code message).entity {
              body_length = size;
            };
          })
          rest
          rs
unfolding dispatch read_line end_headers start_body is_trailer next_piece
blank-stage fuel code n size version message rest hs rs known small =
    found-loop fuel (stage State.headers crlf version hs n code message) (b'\r' ∷ b'\n' ∷ rest) rest
      rs _
      (consume_until-crlf (stage State.headers crlf version hs n code message).entity [] rest tt)
    ∙ rw (known, stoul-to_string size small, append-nil rs)

pub body-stage :
    (fuel code n : ℕ) (version message body rest : Bytes) (hs : Headers) (rs : List Response)
    → from_stream_loop
        (suc fuel)
        (record (stage State.body [] version hs n code message) {
          entity = record (stage State.body [] version hs n code message).entity {
            body_length = length body;
          };
        })
        (body ++ rest)
        rs
      ≡ from_stream_loop fuel
          (fresh code)
          rest
          (rs ++ make_response code message body hs version ∷ [])
unfolding dispatch emit next_piece fresh flush make_response flush_stream
body-stage fuel code n version message body rest hs rs =
    found-loop fuel _ (body ++ rest) rest rs _
      (consume_until-body (stage State.body [] version hs n code message).entity body rest)
