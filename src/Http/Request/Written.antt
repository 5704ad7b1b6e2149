-- ===== src/Http/Request/Written.antt =====
-- The request parser on the lines that `to_string` writes.
use prime_server.Prelude.{
  ℕ, suc, ◌+◌, ◌<◌, ◌≤◌, true, false, Bool-cases, inl, inr, Option, none, some, List, [], ◌∷◌, ◌++◌,
  length, length-append, Bytes, codes, equal, equal-same, append_assoc, append-nil, ◌≡◌, refl, ap,
  sym, subst, ◌∙◌, arith,
}
use prime_server.Stdlib.{word_mod}
use prime_server.Http.{Method, State, Headers, Query, crlf, is_supported, find_header}
use prime_server.Http.Message.{header_line, header_lines, target}
use prime_server.Http.Entity.Tokens.{Lacks}
use prime_server.Http.Response.Steps.{header_text, not_this}
use prime_server.Http.Response.Written.{after_lines, header_line_then}
use prime_server.Http.Request.{HttpRequest, until_nul, skip_blanks, is_chunked}
use prime_server.Http.Request.Steps.{loop, stage, header-stage}

-- What libcurl documents: `curl_escape` leaves no blank and no NUL, and `curl_unescape` reverts it.
pub record IsCodec (escape unescape : Bytes → Option Bytes) : Type 0 where
  pub escaped :
      (s : Bytes)
      → Lacks 0 s
      → (w : Bytes) × (escape s ≡ some w) × Lacks b' ' w × Lacks 0 w × (unescape w ≡ some s)

-- A header that a line can hold, whose value does not begin with a blank.
pub record IsHeader (name v : Bytes) : Type 0 where
  pub plain : Lacks b':' name
  pub clean : Lacks b'\r' name
  pub tidy : Lacks b'\r' v
  pub whole : skip_blanks v ≡ v

-- No header has the name of one before it, up to the case of letters.
abbrev pub AreHeaders : Headers → Headers → Type 0
AreHeaders before [] = Unit
AreHeaders before ((name, v) ∷ hs) =
    IsHeader name v × (find_header name before ≡ none) × AreHeaders (before ++ (name, v) ∷ []) hs

-- A request that the parser can read.
pub record IsWritable (r : HttpRequest) : Type 0 where
  pub supported : is_supported r.version ≡ true
  pub no_nul : Lacks 0 (target r.path r.query)
  pub headers_apart : AreHeaders [] r.headers
  pub length_free : find_header (codes "Content-Length") r.headers ≡ none
  pub unchunked : is_chunked (find_header (codes "Transfer-Encoding") r.headers) ≡ false
  pub body_fits : length r.body < word_mod

pub until_nul-Lacks : (s : Bytes) → Lacks 0 s → until_nul s ≡ s
unfolding until_nul
until_nul-Lacks [] h = refl
until_nul-Lacks (c ∷ s) h = rw (not_this 0 c h.0) (ap (◌∷◌ c) (until_nul-Lacks s h.1))

pub supported-Lacks : (version : Bytes) → is_supported version ≡ true → Lacks b'\r' version
unfolding is_supported
supported-Lacks version h = elim (Bool-cases (equal version (codes "HTTP/1.0"))) [
  | inl old ↦
      subst (Lacks b'\r') (sym ((equal-same version (codes "HTTP/1.0")).0 old))
        (refl, (refl, (refl, (refl, (refl, (refl, (refl, (refl, tt))))))))
  | inr new ↦
      subst (Lacks b'\r') (sym ((equal-same version (codes "HTTP/1.1")).0 (rw new at h)))
        (refl, (refl, (refl, (refl, (refl, (refl, (refl, (refl, tt))))))))
]

pub headers-stage :
    (unescape : Bytes → Option Bytes) (fuel n : ℕ) (m : Method) (path : Bytes) (query : Query)
    (version line rest : Bytes) (before hs : Headers) (rs : List HttpRequest)
    → AreHeaders before hs
    → (n' : ℕ) × (loop unescape
          (after_lines hs fuel)
          (stage unescape State.headers crlf version before n m path query line)
          (header_lines hs ++ rest)
          rs
        ≡ loop unescape fuel
            (stage unescape State.headers crlf version (before ++ hs) n' m path query line)
            rest
            rs)
unfolding after_lines header_lines
headers-stage unescape fuel n m path query version line rest before [] rs h =
    (n, rw (append-nil before))
headers-stage unescape fuel n m path query version line rest before ((name, v) ∷ hs) rs
      (fine, new, later) =
    let k = n + (0 + suc (suc (length (header_text name v)))) in
    let (n', others) =
      headers-stage unescape fuel k m path query version line rest (before ++ (name, v) ∷ []) hs rs
        later in
    (
      n',
      rw
          (
            append_assoc (header_line name v) (header_lines hs) rest,
            header_line_then name v (header_lines hs ++ rest),
          )
          (header-stage unescape (after_lines hs fuel) n m path query version line name v
              (header_lines hs ++ rest) before rs fine.plain fine.clean fine.tidy fine.whole new
            ∙ rw (← append_assoc before ((name, v) ∷ []) hs) others),
    )

pub length_line-le : (name v : Bytes) → 4 ≤ length (header_line name v)
unfolding header_line
length_line-le name v =
    let outer = length-append name (codes ": " ++ (v ++ crlf)) in
    let inner = length-append v crlf in omega (arith, outer, inner)

pub header_lines-length : (hs : Headers) → length hs ≤ length (header_lines hs)
unfolding header_lines
header_lines-length [] = omega arith
header_lines-length ((name, v) ∷ hs) = omega (
  arith,
  header_lines-length hs,
  length_line-le name v,
  length-append (header_line name v) (header_lines hs),
)
