-- ===== src/Netstring/Faults.antt =====
-- Which exception refuses a netstring chunk: `Machine` has one class for the two about a length.
use prime_server.Prelude.{
  ℕ, zero, suc, ◌+◌, ◌≤◌, ◌<◌, Bool, true, false, not, ◌&&◌, Option, none, some, List, [], ◌∷◌,
  ◌++◌, ltb, ◌==◌, if◌then◌else◌, is_empty, length, take, drop, get_or, Bytes, ◌≡◌, ◌≢◌, refl, sym,
  ap, ◌∙◌, append_assoc, append-nil, Bool-cases, inl, inr, arith, tests, length-append, ltb→lt,
  length-drop, length-take, drop-get_or, ==_ne,
}
use prime_server.Stdlib.{word_mod, is_digit, stoul}
use prime_server.Stdlib.Decimal.{stoul-lt}
use prime_server.Netstring.{
  NetstringEntity, RequestException, bad_length, too_long, bad_body_separator,
  bad_message_separator, Outcome, returned, thrown, diverged, from_stream_loop, from_stream, Loop,
  remaining, read_length, read_body, flush_stream, length_end,
}
use prime_server.Netstring.Machine.{
  Refusal, bad_prefix, oversized, bad_end, Verdict, accepts, refuses, unknown, step, announced,
}
use prime_server.Netstring.Refines.{
  IsValid, push, step-push, length-push, step_colon, step_digit, step_full, remaining-eq-sub,
}

-- The exception that leaves the parser.
abbrev pub reason : Outcome → Option RequestException
reason (returned e requests) = none
reason (thrown e x) = some x
reason diverged = none

-- The exception of the byte `c`; `digits` says that a digit of this length stands in the same chunk.
abbrev pub exception : Bool → ℕ → Refusal → RequestException
exception digits c bad_prefix = if digits && not (c == b':') then bad_body_separator else bad_length
exception digits c oversized = too_long
exception digits c bad_end = bad_message_separator

abbrev pub on_step :
    Bool → ℕ → Verdict → (NetstringEntity → Option RequestException) → Option RequestException
on_step digits c (accepts e requests) next = next e
on_step digits c (refuses r) next = some (exception digits c r)
on_step digits c unknown next = none

abbrev pub is_length : NetstringEntity → ℕ → Bool
is_length e c = e.body_length == 0 && is_digit c

-- The exception of the machine that reads a chunk byte by byte.
unfoldable pub fault : ℕ → NetstringEntity → Bool → Bytes → Option RequestException
fault max_size e digits [] = none
fault max_size e digits (c ∷ cs) =
    on_step digits c (step max_size e c) (λ e'. fault max_size e' (is_length e c) cs)

fault_body :
    (max_size k : ℕ) (e : NetstringEntity) (input : Bytes)
    → e.body_length ≢ 0
    → length e.body + k ≡ e.body_length
    → k < length input
    → fault max_size e false input
      ≡ fault max_size (record e { body = e.body ++ take k input }) false (drop k input)
unfolding fault
fault_body max_size k e [] h p lt = absurd (omega arith)
fault_body max_size zero e (c ∷ cs) h p lt = rw append-nil
fault_body max_size (suc k) e (c ∷ cs) h p lt =
    let other : (e.body_length == 0) ≡ false = ground arith in
    rw (step-push max_size e c h (omega arith), other)
      (fault_body max_size k (push e c) cs h (omega (arith, length-push e.body c)) (omega arith)
        ∙ rw append_assoc)

fault_short :
    (max_size : ℕ) (e : NetstringEntity) (input : Bytes)
    → e.body_length ≢ 0
    → length e.body + length input ≤ e.body_length
    → fault max_size e false input ≡ none
unfolding fault
fault_short max_size e [] h p = refl
fault_short max_size e (c ∷ cs) h p =
    let other : (e.body_length == 0) ≡ false = ground arith in
    rw (step-push max_size e c h (omega arith), other)
      (fault_short max_size (push e c) cs h (omega (arith, length-push e.body c)))

colon_fault :
    (again : Loop) (max_size : ℕ) (e : NetstringEntity) (digits : Bool) (c : ℕ) (o : Option ℕ)
    (cs : Bytes) (requests : List NetstringEntity)
    → (c == b':') ≡ true
    → ((n : ℕ) → o ≡ some n → n < word_mod)
    → ((n : ℕ)
        → n < word_mod
        → reason (again (record e { body = []; body_length = n }) [] cs requests)
          ≡ fault max_size (record e { body = []; body_length = n }) false cs)
    → reason (length_end again max_size e o cs requests)
      ≡ on_step digits c (announced max_size e o) (λ e'. fault max_size e' false cs)
unfolding length_end announced
colon_fault again max_size e true c none cs requests h bound colon = rw h
colon_fault again max_size e false c none cs requests h bound colon = refl
colon_fault again max_size e digits c (some n) cs requests h bound colon =
    elim (Bool-cases (ltb max_size n)) [
      | inl big ↦ rw big
      | inr fit ↦ rw fit (colon n (bound n refl))
    ]

separator_fault :
    (e : NetstringEntity) (seen : Bytes) (c : ℕ)
    → (c == b':') ≡ false
    → reason (if not (is_empty seen) then thrown e bad_body_separator else thrown e bad_length)
      ≡ some (exception (not (is_empty seen)) c bad_prefix)
separator_fault e [] c h = refl
separator_fault e (x ∷ xs) c h = rw h

read_length-fault :
    (again : Loop) (max_size : ℕ) (e : NetstringEntity) (seen : Bytes) (c : ℕ) (cs : Bytes)
    (requests : List NetstringEntity)
    → e.body_length ≡ 0
    → reason (again e (seen ++ c ∷ []) cs requests)
      ≡ fault max_size (record e { body = e.body ++ (seen ++ c ∷ []) }) true cs
    → ((n : ℕ)
        → n < word_mod
        → reason (again (record e { body = []; body_length = n }) [] cs requests)
          ≡ fault max_size (record e { body = []; body_length = n }) false cs)
    → reason (read_length again max_size e seen c cs requests)
      ≡ fault max_size (record e { body = e.body ++ seen }) (not (is_empty seen)) (c ∷ cs)
unfolding read_length fault
read_length-fault again max_size e seen c cs requests z digit colon =
    let at_length : (e.body_length == 0) ≡ true = ground arith in
    elim (Bool-cases (is_digit c)) [
      | inl d ↦
          rw (d, step_digit max_size (record e { body = e.body ++ seen }) c z d, at_length)
            (digit ∙ rw append_assoc)
      | inr d ↦
          rw (d, step_colon max_size (record e { body = e.body ++ seen }) c z d, at_length)
            (elim (Bool-cases (c == b':')) [
              | inl h ↦ rw h (
                  colon_fault again max_size (record e { body = e.body ++ seen })
                    (not (is_empty seen)) c (stoul 10 (e.body ++ seen)) cs requests h
                    (λ n k. stoul-lt 10 (e.body ++ seen) k) colon)
              | inr h ↦ rw h (separator_fault e seen c h)
            ])
    ]

full_fault :
    (again : Loop) (max_size : ℕ) (e : NetstringEntity) (n : ℕ) (input : Bytes)
    (requests : List NetstringEntity)
    → e.body_length ≢ 0
    → length e.body + n ≡ e.body_length
    → n < length input
    → ((sent : List NetstringEntity)
        → reason (again (record e { body = []; body_length = 0 }) [] (drop (n + 1) input) sent)
          ≡ fault max_size (record e { body = []; body_length = 0 }) false (drop (n + 1) input))
    → reason (
        if get_or input n 0 == b','
        then again (flush_stream e) [] (drop (n + 1) input) (
            requests
            ++ record { body = e.body ++ take n input; body_length = 0; enqueued = [] } ∷ [])
        else thrown e bad_message_separator)
      ≡ fault max_size (record e { body = e.body ++ take n input }) false (drop n input)
unfolding fault flush_stream
full_fault again max_size e n input requests h missing lt next =
    let full : length (e.body ++ take n input) ≡ e.body_length =
      omega (arith, length-append e.body (take n input), length-take n input) in
    let other : (e.body_length == 0) ≡ false = ground arith in
    rw
      (
        drop-get_or n input 0 lt,
        step_full max_size (record e { body = e.body ++ take n input }) (get_or input n 0) h full,
        other,
      )
      (elim (Bool-cases (get_or input n 0 == b',')) [
        | inl comma ↦ rw comma (next _)
        | inr wrong ↦ rw wrong
      ])

read_body-fault :
    (again : Loop) (max_size : ℕ) (e : NetstringEntity) (input : Bytes)
    (requests : List NetstringEntity)
    → IsValid e
    → e.body_length ≢ 0
    → ((k : ℕ) (sent : List NetstringEntity)
        → reason (again (record e { body = []; body_length = 0 }) [] (drop (k + 1) input) sent)
          ≡ fault max_size (record e { body = []; body_length = 0 }) false (drop (k + 1) input))
    → reason (read_body again e input requests) ≡ fault max_size e false input
unfolding read_body
read_body-fault again max_size e input requests v h next =
    let missing = remaining-eq-sub e v h in
    elim (Bool-cases (ltb (remaining e) (length input))) [
      | inl lt ↦
          rw (lt, fault_body max_size (remaining e) e input h missing (ltb→lt _ _ lt))
            (full_fault again max_size e (remaining e) input requests h missing (ltb→lt _ _ lt)
              (next (remaining e)))
      | inr lt ↦ rw (lt, fault_short max_size e input h (omega (tests, missing)))
    ]

fault-nil : (max_size : ℕ) (e : NetstringEntity) (digits : Bool) → fault max_size e digits [] ≡ none
unfolding fault
fault-nil max_size e digits = refl

more : (seen : Bytes) (c : ℕ) → not (is_empty (seen ++ c ∷ [])) ≡ true
more [] c = refl
more (x ∷ xs) c = refl

loop_fault :
    (fuel max_size : ℕ) (e : NetstringEntity) (seen rest : Bytes) (requests : List NetstringEntity)
    → IsValid e
    → (e.body_length ≢ 0 → seen ≡ [])
    → length rest < fuel
    → reason (from_stream_loop fuel max_size e seen rest requests)
      ≡ fault max_size (record e { body = e.body ++ seen }) (not (is_empty seen)) rest
unfolding from_stream_loop
loop_fault zero max_size e seen rest requests v d lt = absurd (omega arith)
loop_fault (suc fuel) max_size e seen [] requests v d lt =
    sym (fault-nil max_size (record e { body = e.body ++ seen }) (not (is_empty seen)))
loop_fault (suc fuel) max_size e seen (c ∷ cs) requests v d lt =
    elim (Bool-cases (e.body_length == 0)) [
      | inl z ↦ rw z (
          read_length-fault (from_stream_loop fuel max_size) max_size e seen c cs requests
            (ground arith)
            (loop_fault fuel max_size e (seen ++ c ∷ []) cs requests v
                (λ h. absurd (h (ground arith))) (omega arith)
              ∙ ap (λ b. fault max_size (record e { body = e.body ++ (seen ++ c ∷ []) }) b cs)
                  (more seen c))
            (λ n h.
              loop_fault fuel max_size (record e { body = []; body_length = n }) [] cs requests
                (record { fits = λ _. omega arith; sized = h }) (λ _. refl) (omega arith)))
      | inr z ↦
          rw (z, d (==_ne z))
            (rw append-nil (
              read_body-fault (from_stream_loop fuel max_size) max_size e (c ∷ cs) requests v
                (==_ne z)
                (λ k sent.
                  loop_fault fuel max_size (record e { body = []; body_length = 0 }) []
                    (drop (k + 1) (c ∷ cs)) sent
                    (record { fits = λ _. omega arith; sized = omega arith }) (λ _. refl)
                    (omega (arith, length-drop (k + 1) (c ∷ cs))))))
    ]

-- On a well-formed entity, the exception of `from_stream` is that of the machine.
pub from_stream-fault :
    (max_size : ℕ) (e : NetstringEntity) (input : Bytes)
    → IsValid e
    → reason (from_stream max_size e input) ≡ fault max_size e false input
unfolding from_stream
from_stream-fault max_size e input v =
    loop_fault (suc (length input)) max_size e [] input [] v (λ _. refl) (omega arith)
    ∙ rw append-nil
