-- ===== src/Http/Entity/Tokens.antt =====
-- What the scanner finds when the whole of it is there.
use prime_server.Prelude.{
  ℕ, zero, suc, ◌+◌, ◌-◌, true, false, [], ◌∷◌, ◌++◌, ◌==◌, ltb, length, length-append, take, drop,
  Bytes, All, ◌≡◌, refl, ap, arith, le→ltb,
}
use prime_server.Http.{HttpEntity, space, crlf}
use prime_server.Http.Entity.{awaited, scan, take_body, token, finish, consume_until}

-- No byte of it is this one.
abbrev pub Lacks : ℕ → Bytes → Type 0
Lacks b = All (λ c. (b == c) ≡ false)

pub take_front : (word rest : Bytes) → take (length word) (word ++ rest) ≡ word
take_front [] rest = refl
take_front (c ∷ word) rest = ap (◌∷◌ c) (take_front word rest)

pub drop_front : (word rest : Bytes) → drop (length word) (word ++ rest) ≡ rest
drop_front [] rest = refl
drop_front (c ∷ word) rest = drop_front word rest

drop-append :
    (n k : ℕ) (word rest : Bytes) → k ≡ length word + n → drop k (word ++ rest) ≡ drop n rest
drop-append n k [] rest h = let same : k ≡ n = omega (arith, h) in ap (λ i. drop i rest) same
drop-append n zero (c ∷ word) rest h = absurd (omega (arith, h))
drop-append n (suc k) (c ∷ word) rest h = drop-append n k word rest (omega (arith, h))

scan_whole : (d : Bytes) (p : ℕ) (rest : Bytes) → awaited d p ≡ 0 → scan d p rest ≡ (0, p)
unfolding scan
scan_whole d p [] h = refl
scan_whole d p (c ∷ cs) h = rw h

scan-space :
    (word rest : Bytes)
    → Lacks b' ' word
    → scan space 0 (word ++ b' ' ∷ rest) ≡ (suc (length word), 1)
unfolding scan
scan-space [] rest h = rw (scan_whole space 1 rest refl)
scan-space (c ∷ word) rest h = rw (h.0, scan-space word rest h.1)

scan-crlf :
    (word rest : Bytes)
    → Lacks b'\r' word
    → scan crlf 0 (word ++ b'\r' ∷ b'\n' ∷ rest) ≡ (suc (suc (length word)), 2)
unfolding scan
scan-crlf [] rest h = rw (scan_whole crlf 2 rest refl)
scan-crlf (c ∷ word) rest h = rw (h.0, scan-crlf word rest h.1)

-- An entity that waits for a delimiter with nothing buffered.
abbrev pub waiting : HttpEntity → Bytes → HttpEntity
waiting e delimiter = record e {
  delimiter = delimiter;
  partial_buffer = [];
  partial_length = 0;
  body_length = 0;
}

-- The same with a word found, and `n` bytes taken.
abbrev pub holding : HttpEntity → Bytes → Bytes → ℕ → HttpEntity
holding e delimiter word n = record e {
  delimiter = delimiter;
  partial_buffer = word;
  partial_length = 0;
  body_length = 0;
  consumed = e.consumed + n;
}

pub consume_until-space :
    (e : HttpEntity) (word rest : Bytes)
    → Lacks b' ' word
    → consume_until (waiting e space) (word ++ b' ' ∷ rest)
      ≡ record { found = true; entity = holding e space word (0 + suc (length word)); rest = rest }
unfolding consume_until take_body finish token
consume_until-space e word rest h =
    let small : ltb (0 + suc (length word)) 1 ≡ false = le→ltb _ _ (omega arith) in
    let cut : 0 + suc (length word) - 1 ≡ length word = omega arith in
    rw (
      scan-space word rest h,
      small,
      cut,
      take_front word (b' ' ∷ rest),
      drop-append 1 (0 + suc (length word)) word (b' ' ∷ rest) (omega arith),
    )

pub consume_until-crlf :
    (e : HttpEntity) (word rest : Bytes)
    → Lacks b'\r' word
    → consume_until (waiting e crlf) (word ++ b'\r' ∷ b'\n' ∷ rest) ≡ record {
      found = true;
      entity = holding e crlf word (0 + suc (suc (length word)));
      rest = rest;
    }
unfolding consume_until take_body finish token
consume_until-crlf e word rest h =
    let small : ltb (0 + suc (suc (length word))) 2 ≡ false = le→ltb _ _ (omega arith) in
    let cut : 0 + suc (suc (length word)) - 2 ≡ length word = omega arith in
    rw (
      scan-crlf word rest h,
      small,
      cut,
      take_front word (b'\r' ∷ b'\n' ∷ rest),
      drop-append 2 (0 + suc (suc (length word))) word (b'\r' ∷ b'\n' ∷ rest) (omega arith),
    )

-- The same while a body of `n` bytes is awaited.
abbrev pub awaiting : HttpEntity → ℕ → HttpEntity
awaiting e n = record (waiting e []) { body_length = n }

take_body_whole :
    (word rest : Bytes) → take_body (length word) (length (word ++ rest)) ≡ (length word, 0)
unfolding take_body
take_body_whole word rest = let total = length-append word rest in ground (arith, total)

scan_nothing : (input : Bytes) → scan [] 0 input ≡ (0, 0)
scan_nothing input = scan_whole [] 0 input refl

pub consume_until-body :
    (e : HttpEntity) (word rest : Bytes)
    → consume_until (awaiting e (length word)) (word ++ rest)
      ≡ record { found = true; entity = holding e [] word (length word + 0); rest = rest }
unfolding consume_until finish token
consume_until-body e word rest =
    let small : ltb (length word + 0) 0 ≡ false = le→ltb _ _ (omega arith) in
    let cut : length word + 0 - 0 ≡ length word = omega arith in
    rw (
      take_body_whole word rest,
      scan_nothing (drop (length word) (word ++ rest)),
      small,
      cut,
      take_front word rest,
      drop-append 0 (length word + 0) word rest refl,
    )
