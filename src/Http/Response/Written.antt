-- ===== src/Http/Response/Written.antt =====
-- The response parser on what `generic` writes.
use prime_server.Prelude.{
  ℕ, suc, ◌+◌, ◌^◌, ◌<◌, true, false, Bool-cases, inl, inr, none, some, List, [], ◌∷◌, ◌++◌, length,
  Bytes, codes, equal, equal-same, append_assoc, append-nil, ◌≡◌, refl, ap, sym, subst, ◌∙◌, arith,
}
use prime_server.Stdlib.{word_mod, is_digit}
use prime_server.Stdlib.Decimal.{IsDigits}
use prime_server.Http.{State, Headers, crlf, is_supported, equal_caseless, find_header}
use prime_server.Http.Message.{HttpResponse, header_line, response_lines}
use prime_server.Http.Entity.Tokens.{Lacks}
use prime_server.Http.Response.{Response, from_stream_loop}
use prime_server.Http.Response.Steps.{stage, header_text, header-stage}

-- A header that a line can hold, and that is not written by `generic` itself.
pub record IsHeader (name v : Bytes) : Type 0 where
  pub plain : Lacks b':' name
  pub clean : Lacks b'\r' name
  pub tidy : Lacks b'\r' v
  pub other : equal name (codes "Content-Length") ≡ false

-- No header has the name of one before it, up to the case of letters.
abbrev pub AreHeaders : Headers → Headers → Type 0
AreHeaders before [] = Unit
AreHeaders before ((name, v) ∷ hs) =
    IsHeader name v × (find_header name before ≡ none) × AreHeaders (before ++ (name, v) ∷ []) hs

-- A response that the parser can read.
pub record IsWritable (r : HttpResponse) : Type 0 where
  pub supported : is_supported r.version ≡ true
  pub code_fits : r.code < 2 ^ 16
  pub one_line : Lacks b'\r' r.message
  pub headers_apart : AreHeaders [] r.headers
  pub length_free : find_header (codes "Content-Length") r.headers ≡ none
  pub body_fits : length r.body < word_mod

pub digits-Lacks : (b : ℕ) (ds : Bytes) → is_digit b ≡ false → IsDigits ds → Lacks b ds
unfolding is_digit
digits-Lacks b [] h d = tt
digits-Lacks b (c ∷ ds) h d = (ground (arith, d.0), digits-Lacks b ds h d.1)

pub supported-Lacks : (version : Bytes) → is_supported version ≡ true → Lacks b' ' version
unfolding is_supported
supported-Lacks version h = elim (Bool-cases (equal version (codes "HTTP/1.0"))) [
  | inl old ↦
      subst (Lacks b' ') (sym ((equal-same version (codes "HTTP/1.0")).0 old))
        (refl, (refl, (refl, (refl, (refl, (refl, (refl, (refl, tt))))))))
  | inr new ↦
      subst (Lacks b' ') (sym ((equal-same version (codes "HTTP/1.1")).0 (rw new at h)))
        (refl, (refl, (refl, (refl, (refl, (refl, (refl, (refl, tt))))))))
]

pub find_header-append :
    (name name' v : Bytes) (hs : Headers)
    → find_header name hs ≡ none
    → equal_caseless name' name ≡ true
    → find_header name (hs ++ (name', v) ∷ []) ≡ some v
unfolding find_header
find_header-append name name' v [] h same = rw same
find_header-append name name' v ((key, w) ∷ hs) h same =
    elim (Bool-cases (equal_caseless key name)) [
      | inl found ↦ absurd (cc (rw found at h))
      | inr other ↦ rw other (find_header-append name name' v hs (rw other at h) same)
    ]

pub header_line_then :
    (name v rest : Bytes) → header_line name v ++ rest ≡ header_text name v ++ b'\r' ∷ b'\n' ∷ rest
unfolding header_line
header_line_then name v rest =
    append_assoc name (b':' ∷ b' ' ∷ (v ++ crlf)) rest
    ∙ ap (λ t. name ++ b':' ∷ b' ' ∷ t) (append_assoc v crlf rest)
    ∙ sym (append_assoc name (b':' ∷ b' ' ∷ v) (b'\r' ∷ b'\n' ∷ rest))

-- A round for each header.
unfoldable pub after_lines : Headers → ℕ → ℕ
after_lines [] fuel = fuel
after_lines (h ∷ hs) fuel = suc (after_lines hs fuel)

pub headers-stage :
    (fuel code n : ℕ) (version message rest : Bytes) (before hs : Headers) (rs : List Response)
    → AreHeaders before hs
    → (n' : ℕ) × (from_stream_loop
          (after_lines hs fuel)
          (stage State.headers crlf version before n code message)
          (response_lines hs ++ rest)
          rs
        ≡ from_stream_loop fuel
            (stage State.headers crlf version (before ++ hs) n' code message)
            rest
            rs)
unfolding after_lines response_lines
headers-stage fuel code n version message rest before [] rs h = (n, rw (append-nil before))
headers-stage fuel code n version message rest before ((name, v) ∷ hs) rs (line, new, later) =
    let m = n + (0 + suc (suc (length (header_text name v)))) in
    let (n', others) =
      headers-stage fuel code m version message rest (before ++ (name, v) ∷ []) hs rs later in
    (
      n',
      rw
          (
            line.other,
            append_assoc (header_line name v) (response_lines hs) rest,
            header_line_then name v (response_lines hs ++ rest),
          )
          (header-stage (after_lines hs fuel) code n version message name v
              (response_lines hs ++ rest) before rs line.plain line.clean line.tidy new
            ∙ rw (← append_assoc before ((name, v) ∷ []) hs) others),
    )
