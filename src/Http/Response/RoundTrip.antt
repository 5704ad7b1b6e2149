-- ===== src/Http/Response/RoundTrip.antt =====
-- What `generic` writes is read back.
use prime_server.Prelude.{
  ℕ, suc, ◌+◌, ◌*◌, ◌-◌, ◌≤◌, ◌<◌, false, List, [], ◌∷◌, ◌++◌, is_empty, length, length-append,
  Bytes, codes, All, append_assoc, append-nil, ◌≡◌, refl, ap, ◌∙◌, arith,
}
use prime_server.Stdlib.{to_string, is_digit, to_lower}
use prime_server.Stdlib.Decimal.{to_string-IsDigits}
use prime_server.Http.{Headers, crlf, equal_caseless}
use prime_server.Http.Message.{
  HttpResponse, header_line, response_lines, generic, response_to_string,
}
use prime_server.Http.Entity.Tokens.{Lacks}
use prime_server.Http.Response.{
  Response, returned, make_response, fresh, from_stream_loop, from_stream, after_consume,
}
use prime_server.Http.Entity.{consume_until}
use prime_server.Http.Response.Steps.{
  version-stage, code-stage, message-stage, header_text, header-stage, blank-stage, body-stage,
}
use prime_server.Http.Response.Written.{
  AreHeaders, IsWritable, digits-Lacks, supported-Lacks, find_header-append, after_lines,
  headers-stage,
}

-- The header that `generic` adds.
abbrev pub with_length : Headers → Bytes → Headers
with_length hs body = hs ++ (codes "Content-Length", to_string (length body)) ∷ []

-- What is read of a response.
abbrev pub read_back : HttpResponse → Response
read_back r = make_response r.code r.message r.body (with_length r.headers r.body) r.version

-- `generic` with `rest` in the place of the body.
abbrev front : HttpResponse → Bytes → Bytes
front r rest =
    r.version
    ++ (b' '
        ∷ (to_string r.code
            ++ (b' '
                ∷ (r.message
                    ++ (crlf
                        ++ (response_lines r.headers
                            ++ (codes "Content-Length: "
                                ++ (to_string (length r.body) ++ (codes "\r\n\r\n" ++ rest)))))))))

front-append :
    (r : HttpResponse) (behind : Bytes)
    → response_to_string r ++ behind ≡ front r (r.body ++ behind)
unfolding response_to_string generic
front-append r behind =
    let n = to_string (length r.body) in
    let a = codes "\r\n\r\n" ++ r.body in
    let b = codes "Content-Length: " ++ (n ++ a) in
    let c = crlf ++ (response_lines r.headers ++ b) in
    let d = b' ' ∷ (r.message ++ c) in
    append_assoc r.version (b' ' ∷ (to_string r.code ++ d)) behind
    ∙ ap (λ t. r.version ++ b' ' ∷ t) (append_assoc (to_string r.code) d behind)
    ∙ ap (λ t. r.version ++ b' ' ∷ (to_string r.code ++ b' ' ∷ t)) (append_assoc r.message c behind)
    ∙ ap (λ t. r.version ++ b' ' ∷ (to_string r.code ++ b' ' ∷ (r.message ++ (crlf ++ t))))
        (append_assoc (response_lines r.headers) b behind)
    ∙ ap
        (λ t.
          r.version
          ++ b' '
            ∷ (to_string r.code
                ++ b' '
                  ∷ (r.message
                      ++ (crlf ++ (response_lines r.headers ++ (codes "Content-Length: " ++ t))))))
        (append_assoc n a behind)

-- A round for each part.
unfoldable rounds : HttpResponse → ℕ → ℕ
rounds r fuel = suc (suc (suc (after_lines r.headers (suc (suc (suc fuel))))))

pub length_name-Lacks : (Lacks b':' (codes "Content-Length")) × Lacks b'\r' (codes "Content-Length")
length_name-Lacks = (
  (
    refl,
    (
      refl,
      (
        refl,
        (refl, (refl, (refl, (refl, (refl, (refl, (refl, (refl, (refl, (refl, (refl, tt))))))))))),
      ),
    ),
  ),
  (
    refl,
    (
      refl,
      (
        refl,
        (refl, (refl, (refl, (refl, (refl, (refl, (refl, (refl, (refl, (refl, (refl, tt))))))))))),
      ),
    ),
  ),
)

one_response :
    (fuel old : ℕ) (r : HttpResponse) (behind : Bytes) (rs : List Response)
    → IsWritable r
    → from_stream_loop (rounds r fuel) (fresh old) (response_to_string r ++ behind) rs
      ≡ from_stream_loop fuel (fresh r.code) behind (rs ++ read_back r ∷ [])
unfolding rounds to_lower equal_caseless is_digit
one_response fuel old r behind rs w =
    let n = to_string (length r.body) in
    let digits = to_string-IsDigits (length r.body) in
    let tail = b'\r' ∷ b'\n' ∷ (r.body ++ behind) in
    let lines = after_lines r.headers (suc (suc (suc fuel))) in
    let n1 = 0 + (0 + suc (length r.version)) in
    let n2 = n1 + (0 + suc (length (to_string r.code))) in
    let n3 = n2 + (0 + suc (suc (length r.message))) in
    let (n4, listed) =
      headers-stage (suc (suc (suc fuel))) r.code n3 r.version r.message
        (header_text (codes "Content-Length") n ++ b'\r' ∷ b'\n' ∷ tail) [] r.headers rs
        w.headers_apart in
    ap (λ t. from_stream_loop (rounds r fuel) (fresh old) t rs) (front-append r behind)
    ∙ version-stage (suc (suc lines)) old r.version _ rs w.supported
        (supported-Lacks r.version w.supported)
    ∙ code-stage (suc lines) old r.code n1 r.version _ rs w.code_fits
        (digits-Lacks b' ' (to_string r.code) refl (to_string-IsDigits r.code))
    ∙ message-stage lines r.code n2 r.version r.message _ rs w.one_line
    ∙ listed
    ∙ header-stage (suc (suc fuel)) r.code n4 r.version r.message (codes "Content-Length") n tail
        r.headers rs length_name-Lacks.0 length_name-Lacks.1 (digits-Lacks b'\r' n refl digits)
        w.length_free
    ∙ blank-stage (suc fuel) r.code _ (length r.body) r.version r.message (r.body ++ behind)
        (with_length r.headers r.body) rs
        (find_header-append (codes "Content-Length") (codes "Content-Length") n r.headers
          w.length_free refl)
        w.body_fits
    ∙ body-stage fuel r.code _ r.version r.message r.body behind (with_length r.headers r.body) rs

pub wire : List HttpResponse → Bytes
wire [] = []
wire (r ∷ rs) = response_to_string r ++ wire rs

pub AreWritable : List HttpResponse → Type 0
AreWritable = All IsWritable

abbrev pub all_read : List HttpResponse → List Response
all_read [] = []
all_read (r ∷ rs) = read_back r ∷ all_read rs

-- What the field holds in the end; the constructor leaves it as it finds it.
abbrev pub last_code : ℕ → List HttpResponse → ℕ
last_code code [] = code
last_code code (r ∷ rs) = last_code r.code rs

all_rounds : List HttpResponse → ℕ → ℕ
all_rounds [] fuel = fuel
all_rounds (r ∷ rs) fuel = rounds r (all_rounds rs fuel)

many_responses :
    (fuel code : ℕ) (rs : List HttpResponse) (read : List Response)
    → All IsWritable rs
    → from_stream_loop (all_rounds rs fuel) (fresh code) (wire rs) read
      ≡ from_stream_loop fuel (fresh (last_code code rs)) [] (read ++ all_read rs)
unfolding all_rounds wire
many_responses fuel code [] read w = rw (append-nil read)
many_responses fuel code (r ∷ rs) read (this, others) =
    one_response (all_rounds rs fuel) code r (wire rs) read this
    ∙ many_responses fuel r.code rs (read ++ read_back r ∷ []) others
    ∙ ap (from_stream_loop fuel (fresh (last_code r.code rs)) [])
        (append_assoc read (read_back r ∷ []) (all_read rs))

loop_end :
    (fuel code : ℕ) (read : List Response)
    → from_stream_loop (suc fuel) (fresh code) [] read ≡ returned (fresh code) read
unfolding from_stream_loop fresh consume_until after_consume
loop_end fuel code read = refl

length_line : (name v : Bytes) → 4 ≤ length (header_line name v)
unfolding header_line
length_line name v =
    let outer = length-append name (codes ": " ++ (v ++ crlf)) in
    let inner = length-append v crlf in omega (arith, outer, inner)

response_lines-length :
    (before hs : Headers) → AreHeaders before hs → length hs ≤ length (response_lines hs)
unfolding response_lines
response_lines-length before [] h = omega arith
response_lines-length before ((name, v) ∷ hs) (line, new, later) =
    let rest = response_lines-length (before ++ (name, v) ∷ []) hs later in
    rw line.other (
      omega
        (arith, rest, length_line name v, length-append (header_line name v) (response_lines hs)))

pub after_lines-length : (hs : Headers) (fuel : ℕ) → after_lines hs fuel ≡ length hs + fuel
unfolding after_lines
after_lines-length [] fuel = omega arith
after_lines-length (h ∷ hs) fuel = omega (arith, after_lines-length hs fuel)

-- The rounds are no more than the bytes.
response_to_string-length :
    (r : HttpResponse) → IsWritable r → length r.headers + 6 ≤ length (response_to_string r)
unfolding response_to_string generic
response_to_string-length r w =
    let n = to_string (length r.body) in
    let a = codes "\r\n\r\n" ++ r.body in
    let b = codes "Content-Length: " ++ (n ++ a) in
    let c = crlf ++ (response_lines r.headers ++ b) in
    let d = b' ' ∷ (r.message ++ c) in
    omega (
      arith,
      response_lines-length [] r.headers w.headers_apart,
      length-append r.version (b' ' ∷ (to_string r.code ++ d)),
      length-append (to_string r.code) d,
      length-append r.message c,
      length-append (response_lines r.headers) b,
      length-append n a,
    )

all_rounds-length :
    (rs : List HttpResponse)
    → All IsWritable rs
    → (k : ℕ) × (k ≤ length (wire rs)) × ((fuel : ℕ) → all_rounds rs fuel ≡ k + fuel)
unfolding all_rounds wire rounds
all_rounds-length [] w = (0, omega arith, λ fuel. omega arith)
all_rounds-length (r ∷ rs) (this, others) =
    let (k, small, same) = all_rounds-length rs others in
    (
      length r.headers + 6 + k,
      omega (
        arith,
        small,
        response_to_string-length r this,
        length-append (response_to_string r) (wire rs),
      ),
      λ fuel.
          omega
            (arith, same fuel, after_lines-length r.headers (suc (suc (suc (all_rounds rs fuel))))),
    )

-- Some fuel is left of what `from_stream` gives.
enough :
    (rs : List HttpResponse)
    → All IsWritable rs
    → (left : ℕ) × (2 * length (wire rs) + 2 ≡ all_rounds rs (suc left))
enough rs w =
    let (k, small, same) = all_rounds-length rs w in
    let left = 2 * length (wire rs) + 1 - k in (left, omega (arith, small, same (suc left)))

pub has_bytes : (s : Bytes) → 0 < length s → is_empty s ≡ false
has_bytes [] h = absurd (omega arith)
has_bytes (c ∷ s) h = refl

wire_has_bytes :
    (r : HttpResponse) (rs : List HttpResponse) → IsWritable r → is_empty (wire (r ∷ rs)) ≡ false
unfolding wire
wire_has_bytes r rs w =
    has_bytes (response_to_string r ++ wire rs)
      (omega (arith, response_to_string-length r w, length-append (response_to_string r) (wire rs)))

from_stream_nothing : (code : ℕ) → from_stream (fresh code) (wire []) ≡ returned (fresh code) []
unfolding from_stream wire
from_stream_nothing code = refl

-- From a new parser, what `to_string` writes for any number of responses is read back, each with the
-- header for its length added, and the parser is as new but for its code, which nothing reads before
-- it is written: for responses with a supported version, a code below 2 ^ 16, a message and headers
-- without a carriage return, names without a colon, different from each other and from
-- Content-Length up to the case of letters, and bodies shorter than 2 ^ 64.
pub from_stream-response_to_string :
    (code : ℕ) (rs : List HttpResponse)
    → All IsWritable rs
    → from_stream (fresh code) (wire rs) ≡ returned (fresh (last_code code rs)) (all_read rs)
unfolding from_stream
from_stream-response_to_string code [] w = from_stream_nothing code
from_stream-response_to_string code (r ∷ rs) w =
    let (left, same) = enough (r ∷ rs) w in
    rw (wire_has_bytes r rs w.0, same)
      (many_responses (suc left) code (r ∷ rs) [] w
        ∙ loop_end left (last_code code (r ∷ rs)) (all_read (r ∷ rs)))
