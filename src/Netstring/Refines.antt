-- ===== src/Netstring/Refines.antt =====
-- `from_stream` on a chunk does what the machine does on its bytes.
use prime_server.Prelude.{
  ℕ, zero, suc, ◌+◌, ◌≤◌, ◌<◌, Option, none, some, List, [], ◌∷◌, ◌++◌, ltb, ◌==◌, if◌then◌else◌,
  length, Bytes, ◌≡◌, ◌≢◌, refl, sym, ◌∙◌, append_assoc, append-nil, true, false, Bool-cases, inl,
  inr, arith, tests, drop, take, get_or, length-append, ltb→lt, length-drop, length-take,
  drop-get_or, ==_ne,
}
use prime_server.Stdlib.{word_mod, is_digit, stoul}
use prime_server.Stdlib.Decimal.{stoul-lt}
use prime_server.Netstring.{
  NetstringEntity, thrown, from_stream_loop, from_stream, Loop, remaining, read_length, read_body,
  flush_stream, bad_message_separator, length_end,
}
use prime_server.Netstring.Machine.{
  accepts, refuses, verdict, prepend, prepend-append, prepend-nil, and_then, step, run, message,
  announced, bad_prefix, bad_end,
}

-- The state between two chunks: a body that is awaited has room for what is buffered.
pub record IsValid (e : NetstringEntity) : Type 0 where
  pub fits : e.body_length ≢ 0 → length e.body ≤ e.body_length
  pub sized : e.body_length < word_mod

abbrev pub push : NetstringEntity → ℕ → NetstringEntity
push e c = record e { body = e.body ++ c ∷ [] }

pub step-push :
    (max_size : ℕ) (e : NetstringEntity) (c : ℕ)
    → e.body_length ≢ 0
    → length e.body < e.body_length
    → step max_size e c ≡ accepts (push e c) []
unfolding step
step-push max_size e c h p = ground arith

pub length-push : (xs : Bytes) (c : ℕ) → length (xs ++ c ∷ []) ≡ length xs + 1
length-push xs c = length-append xs (c ∷ [])

-- A body of which `k` bytes are missing takes them from the stream.
run_body :
    (max_size k : ℕ) (e : NetstringEntity) (input : Bytes)
    → e.body_length ≢ 0
    → length e.body + k ≡ e.body_length
    → k < length input
    → run max_size e input
      ≡ run max_size (record e { body = e.body ++ take k input }) (drop k input)
unfolding run
run_body max_size k e [] h p lt = absurd (omega arith)
run_body max_size zero e (c ∷ cs) h p lt = rw append-nil
run_body max_size (suc k) e (c ∷ cs) h p lt =
    rw (step-push max_size e c h (omega arith), prepend-nil)
      (run_body max_size k (push e c) cs h (omega (arith, length-push e.body c)) (omega arith)
        ∙ rw append_assoc)

pub run_short :
    (max_size : ℕ) (e : NetstringEntity) (input : Bytes)
    → e.body_length ≢ 0
    → length e.body + length input ≤ e.body_length
    → run max_size e input ≡ accepts (record e { body = e.body ++ input }) []
unfolding run
run_short max_size e [] h p = rw append-nil
run_short max_size e (c ∷ cs) h p =
    rw (step-push max_size e c h (omega arith), prepend-nil)
      (run_short max_size (push e c) cs h (omega (arith, length-push e.body c)) ∙ rw append_assoc)

pub step_colon :
    (max_size : ℕ) (e : NetstringEntity) (c : ℕ)
    → e.body_length ≡ 0
    → is_digit c ≡ false
    → step max_size e c
      ≡ (if c == b':' then announced max_size e (stoul 10 e.body) else refuses bad_prefix)
unfolding step
step_colon max_size e c z d = ground arith

pub step_digit :
    (max_size : ℕ) (e : NetstringEntity) (c : ℕ)
    → e.body_length ≡ 0
    → is_digit c ≡ true
    → step max_size e c ≡ accepts (push e c) []
unfolding step
step_digit max_size e c z d = ground arith

pub step_full :
    (max_size : ℕ) (e : NetstringEntity) (c : ℕ)
    → e.body_length ≢ 0
    → length e.body ≡ e.body_length
    → step max_size e c ≡ (
        if c == b','
        then accepts (record e { body = []; body_length = 0 }) (message e.body ∷ [])
        else refuses bad_end)
unfolding step
step_full max_size e c h p = ground arith

pub remaining-eq-sub :
    (e : NetstringEntity)
    → IsValid e
    → e.body_length ≢ 0
    → length e.body + remaining e ≡ e.body_length
unfolding remaining
remaining-eq-sub e v h = omega arith

colon_run :
    (again : Loop) (max_size : ℕ) (e : NetstringEntity) (o : Option ℕ) (cs : Bytes)
    (requests : List NetstringEntity)
    → ((n : ℕ) → o ≡ some n → n < word_mod)
    → ((n : ℕ)
        → n < word_mod
        → verdict (again (record e { body = []; body_length = n }) [] cs requests)
          ≡ prepend requests (run max_size (record e { body = []; body_length = n }) cs))
    → verdict (length_end again max_size e o cs requests)
      ≡ prepend requests (and_then (announced max_size e o) (λ e'. run max_size e' cs))
unfolding length_end announced
colon_run again max_size e none cs requests bound colon = refl
colon_run again max_size e (some n) cs requests bound colon = elim (Bool-cases (ltb max_size n)) [
  | inl big ↦ rw big
  | inr fit ↦ rw (fit, prepend-nil) (colon n (bound n refl))
]

-- The round for a byte of the length, with what the rounds behind it are known to do.
read_length-run :
    (again : Loop) (max_size : ℕ) (e : NetstringEntity) (seen : Bytes) (c : ℕ) (cs : Bytes)
    (requests : List NetstringEntity)
    → e.body_length ≡ 0
    → verdict (again e (seen ++ c ∷ []) cs requests)
      ≡ prepend requests (run max_size (record e { body = e.body ++ (seen ++ c ∷ []) }) cs)
    → ((n : ℕ)
        → n < word_mod
        → verdict (again (record e { body = []; body_length = n }) [] cs requests)
          ≡ prepend requests (run max_size (record e { body = []; body_length = n }) cs))
    → verdict (read_length again max_size e seen c cs requests)
      ≡ prepend requests (run max_size (record e { body = e.body ++ seen }) (c ∷ cs))
unfolding read_length run
read_length-run again max_size e seen c cs requests z digit colon = elim (Bool-cases (is_digit c)) [
  | inl d ↦
      rw (d, step_digit max_size (record e { body = e.body ++ seen }) c z d, prepend-nil)
        (digit ∙ rw append_assoc)
  | inr d ↦
      rw (d, step_colon max_size (record e { body = e.body ++ seen }) c z d)
        (elim (Bool-cases (c == b':')) [
          | inl e' ↦ rw e' (
              colon_run again max_size (record e { body = e.body ++ seen })
                (stoul 10 (e.body ++ seen)) cs requests (λ n h. stoul-lt 10 (e.body ++ seen) h)
                colon)
          | inr e' ↦ rw e' (ground arith)
        ])
]

-- The byte behind a whole body.
full_run :
    (again : Loop) (max_size : ℕ) (e : NetstringEntity) (n : ℕ) (input : Bytes)
    (requests : List NetstringEntity)
    → e.body_length ≢ 0
    → length e.body + n ≡ e.body_length
    → n < length input
    → ((k : ℕ) (sent : List NetstringEntity)
        → verdict (again (record e { body = []; body_length = 0 }) [] (drop (k + 1) input) sent)
          ≡ prepend sent
              (run max_size (record e { body = []; body_length = 0 }) (drop (k + 1) input)))
    → verdict (
        if get_or input n 0 == b','
        then again
            (flush_stream e)
            []
            (drop (n + 1) input)
            (requests ++ message (e.body ++ take n input) ∷ [])
        else thrown e bad_message_separator)
      ≡ prepend requests (run max_size (record e { body = e.body ++ take n input }) (drop n input))
unfolding run flush_stream
full_run again max_size e n input requests h missing lt next =
    let full : length (e.body ++ take n input) ≡ e.body_length =
      omega (arith, length-append e.body (take n input), length-take n input) in
    rw
      (
        drop-get_or n input 0 lt,
        step_full max_size (record e { body = e.body ++ take n input }) (get_or input n 0) h full,
      )
      (elim (Bool-cases (get_or input n 0 == b',')) [
        | inl comma ↦ rw comma (
            next n (requests ++ message (e.body ++ take n input) ∷ [])
            ∙ sym (
                prepend-append requests (message (e.body ++ take n input) ∷ [])
                  (run max_size (record e { body = []; body_length = 0 }) (drop (n + 1) input))))
        | inr other ↦ rw other
      ])

-- The round that looks at the whole of the body.
read_body-run :
    (again : Loop) (max_size : ℕ) (e : NetstringEntity) (input : Bytes)
    (requests : List NetstringEntity)
    → IsValid e
    → e.body_length ≢ 0
    → ((k : ℕ) (sent : List NetstringEntity)
        → verdict (again (record e { body = []; body_length = 0 }) [] (drop (k + 1) input) sent)
          ≡ prepend sent
              (run max_size (record e { body = []; body_length = 0 }) (drop (k + 1) input)))
    → verdict (read_body again e input requests) ≡ prepend requests (run max_size e input)
unfolding read_body
read_body-run again max_size e input requests v h next =
    let missing = remaining-eq-sub e v h in
    elim (Bool-cases (ltb (remaining e) (length input))) [
      | inl lt ↦
          rw (lt, run_body max_size (remaining e) e input h missing (ltb→lt _ _ lt))
            (full_run again max_size e (remaining e) input requests h missing (ltb→lt _ _ lt) next)
      | inr lt ↦ rw (lt, run_short max_size e input h (omega (tests, missing)), append-nil)
    ]

-- The loop at `seen` and `rest` is the machine at the entity with the seen digits in its body.
loop_run :
    (fuel max_size : ℕ) (e : NetstringEntity) (seen rest : Bytes) (requests : List NetstringEntity)
    → IsValid e
    → (e.body_length ≢ 0 → seen ≡ [])
    → length rest < fuel
    → verdict (from_stream_loop fuel max_size e seen rest requests)
      ≡ prepend requests (run max_size (record e { body = e.body ++ seen }) rest)
unfolding from_stream_loop run
loop_run zero max_size e seen rest requests v d lt = absurd (omega arith)
loop_run (suc fuel) max_size e seen [] requests v d lt = rw append-nil
loop_run (suc fuel) max_size e seen (c ∷ cs) requests v d lt =
    elim (Bool-cases (e.body_length == 0)) [
      | inl z ↦ rw z (
          read_length-run (from_stream_loop fuel max_size) max_size e seen c cs requests
            (ground arith)
            (loop_run fuel max_size e (seen ++ c ∷ []) cs requests v
              (λ h. absurd (h (ground arith))) (omega arith))
            (λ n h.
              loop_run fuel max_size (record e { body = []; body_length = n }) [] cs requests
                (record { fits = λ _. omega arith; sized = h }) (λ _. refl) (omega arith)))
      | inr z ↦
          rw (z, d (==_ne z))
            (rw append-nil (
              read_body-run (from_stream_loop fuel max_size) max_size e (c ∷ cs) requests v
                (==_ne z)
                (λ k sent.
                  loop_run fuel max_size (record e { body = []; body_length = 0 }) []
                    (drop (k + 1) (c ∷ cs)) sent
                    (record { fits = λ _. omega arith; sized = omega arith }) (λ _. refl)
                    (omega (arith, length-drop (k + 1) (c ∷ cs))))))
    ]

-- On a well-formed entity `from_stream` ends, and accepts, refuses and answers as the machine
-- does on the bytes of the chunk.
pub from_stream-run :
    (max_size : ℕ) (e : NetstringEntity) (input : Bytes)
    → IsValid e
    → verdict (from_stream max_size e input) ≡ run max_size e input
unfolding from_stream
from_stream-run max_size e input v =
    loop_run (suc (length input)) max_size e [] input [] v (λ _. refl) (omega arith)
    ∙ prepend-nil (run max_size (record e { body = e.body ++ [] }) input)
    ∙ rw append-nil
