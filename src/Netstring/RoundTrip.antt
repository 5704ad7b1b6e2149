-- ===== src/Netstring/RoundTrip.antt =====
-- What `to_string` writes, `from_stream` reads.
use prime_server.Prelude.{
  ℕ, ◌≤◌, ◌<◌, List, [], ◌∷◌, ◌++◌, length, Bytes, ◌≡◌, refl, ◌∙◌, arith, All, append_assoc,
  append-nil, le→ltb, ap, ◌-◌,
}
use prime_server.Stdlib.{word_mod, is_digit, stoul}
use prime_server.Stdlib
use prime_server.Stdlib.Decimal.{stoul-to_string, to_string-IsDigits, IsDigits}
use prime_server.Netstring.{
  NetstringEntity, returned, from_stream, encode, to_string, formatted, stream_responses, collected,
  streamed,
}
use prime_server.Netstring.Machine.{
  accepts, prepend-nil, step, run, run-append, message, announced, verdict-accepts,
}
use prime_server.Netstring.Refines.{
  IsValid, from_stream-run, step_digit, step_colon, step_full, run_short,
}
use prime_server.Netstring.Streaming.{IsRequest}

-- Digits in front of the colon gather in the body.
pub run-IsDigits :
    (max_size : ℕ) (ds : Bytes) (e : NetstringEntity)
    → IsDigits ds
    → e.body_length ≡ 0
    → run max_size e ds ≡ accepts (record e { body = e.body ++ ds }) []
unfolding run
run-IsDigits max_size [] e h z = rw append-nil
run-IsDigits max_size (c ∷ cs) e h z =
    rw (step_digit max_size e c z h.0, prepend-nil)
      (run-IsDigits max_size cs (record e { body = e.body ++ c ∷ [] }) h.1 z ∙ rw append_assoc)

-- The messages of a list of requests, one after another.
abbrev pub wire : List NetstringEntity → Bytes
wire [] = []
wire (e ∷ es) = to_string e ++ wire es

abbrev pub messages : List NetstringEntity → List NetstringEntity
messages [] = []
messages (e ∷ es) = message e.body ∷ messages es

-- An entity between two messages.
abbrev pub idle : List ℕ → NetstringEntity
idle enqueued = record { body = []; body_length = 0; enqueued = enqueued }

step-colon-to_string :
    (max_size n : ℕ) (q : List ℕ)
    → n ≤ max_size
    → n < word_mod
    → step max_size (record { body = Stdlib.to_string n; body_length = 0; enqueued = q }) b':'
      ≡ accepts (record { body = []; body_length = n; enqueued = q }) []
unfolding announced is_digit
step-colon-to_string max_size n q fit sized =
    step_colon max_size (record { body = Stdlib.to_string n; body_length = 0; enqueued = q }) b':'
      refl refl
    ∙ rw (stoul-to_string n sized, le→ltb max_size n fit)

-- The machine behind the length of a message.
run-header :
    (max_size n : ℕ) (q : List ℕ) (rest : Bytes)
    → n ≤ max_size
    → n < word_mod
    → run max_size (idle q) (Stdlib.to_string n ++ b':' ∷ rest)
      ≡ run max_size (record { body = []; body_length = n; enqueued = q }) rest
unfolding run
run-header max_size n q rest fit sized =
    run-append max_size (Stdlib.to_string n) (b':' ∷ rest) (idle q)
    ∙ rw (
      run-IsDigits max_size (Stdlib.to_string n) (idle q) (to_string-IsDigits n) refl,
      step-colon-to_string max_size n q fit sized,
      prepend-nil,
      prepend-nil,
    )

run-encode :
    (max_size : ℕ) (body : Bytes) (q : List ℕ)
    → 0 < length body
    → length body ≤ max_size
    → length body < word_mod
    → run max_size (idle q) (encode body) ≡ accepts (idle q) (message body ∷ [])
unfolding encode run
run-encode max_size body q nonempty fit sized =
    run-header max_size (length body) q (body ++ b',' ∷ []) fit sized
    ∙ run-append max_size body (b',' ∷ [])
        (record { body = []; body_length = length body; enqueued = q })
    ∙ rw (
      run_short max_size (record { body = []; body_length = length body; enqueued = q }) body
          (omega arith) (omega arith),
      step_full max_size (record { body = body; body_length = length body; enqueued = q }) b','
          (omega arith) refl,
    )

-- The parser, however the limit is set, reads a row of messages back as the requests that were
-- written, and is ready for the next one.
pub run-wire :
    (max_size : ℕ) (es : List NetstringEntity) (q : List ℕ)
    → All (IsRequest max_size) es
    → max_size < word_mod
    → run max_size (idle q) (wire es) ≡ accepts (idle q) (messages es)
unfolding to_string run
run-wire max_size [] q h sized = refl
run-wire max_size (e ∷ es) q h sized =
    run-append max_size (encode e.body) (wire es) (idle q)
    ∙ rw (
      run-encode max_size e.body q h.0.nonempty h.0.limited (omega (arith, h.0.limited)),
      run-wire max_size es q h.1 sized,
    )

pub idle-IsValid : (q : List ℕ) → IsValid (idle q)
idle-IsValid q = record { fits = λ _. omega arith; sized = omega arith }

-- What `to_string` writes for a list of requests whose bodies are neither empty nor over the limit,
-- a limit below 2^64, an idle `from_stream` reads in one chunk: it returns their bodies in order and
-- is idle again.
pub from_stream-wire :
    (max_size : ℕ) (es : List NetstringEntity) (q : List ℕ)
    → All (IsRequest max_size) es
    → max_size < word_mod
    → from_stream max_size (idle q) (wire es) ≡ returned (idle q) (messages es)
from_stream-wire max_size es q h sized =
    verdict-accepts (from_stream max_size (idle q) (wire es)) (
      from_stream-run max_size (idle q) (wire es) (idle-IsValid q) ∙ run-wire max_size es q h sized)

formatted-messages : (es : List NetstringEntity) → formatted (messages es) ≡ formatted es
unfolding formatted
formatted-messages [] = refl
formatted-messages (e ∷ es) = ap (◌∷◌ (encode e.body)) (formatted-messages es)

-- An idle client passes on each response exactly as the server wrote it, one by one, if their bodies
-- are not empty and shorter than 2^64.
pub stream_responses-wire :
    (es : List NetstringEntity) (q : List ℕ)
    → All (IsRequest (word_mod - 1)) es
    → stream_responses (idle q) (wire es) ≡ collected (idle q) (formatted es)
unfolding stream_responses
stream_responses-wire es q h =
    ap streamed (from_stream-wire (word_mod - 1) es q h (omega arith))
    ∙ ap (collected (idle q)) (formatted-messages es)
