-- ===== src/Netstring/Streaming.antt =====
-- What holds between the chunks of a netstring stream.
use prime_server.Prelude.{
  ℕ, false, ◌≤◌, ◌<◌, Option, none, some, List, [], ◌∷◌, ◌++◌, ltb, ◌==◌, length, Bytes, ◌≡◌, ◌≢◌,
  refl, sym, ap, ◌∙◌, subst, Bool-cases, inl, inr, arith, tests, All, All-append, ==_ne,
}
use prime_server.Stdlib.{word_mod, is_digit, stoul}
use prime_server.Stdlib.Decimal.{stoul-lt}
use prime_server.Netstring.{
  NetstringEntity, RequestException, Outcome, returned, thrown, diverged, from_stream,
}
use prime_server.Netstring.Faults.{reason, from_stream-fault}
use prime_server.Netstring.Cuts.{SameFault, cut_at, fault-append}
use prime_server.Netstring.Machine.{
  Verdict, accepts, refuses, unknown, verdict, prepend, and_then, step, run, run-append, announced,
}
use prime_server.Netstring.Refines.{
  IsValid, from_stream-run, step_digit, step_colon, step-push, step_full, length-push,
}

-- A request that the parser hands out: a body, neither empty nor over the limit.
pub record IsRequest (max_size : ℕ) (e : NetstringEntity) : Type 0 where
  pub nonempty : 0 < length e.body
  pub limited : length e.body ≤ max_size

pub record IsBounded (max_size : ℕ) (e : NetstringEntity) : Type 0 where
  pub valid : IsValid e
  pub announced_le : e.body_length ≤ max_size

abbrev pub Keeps : ℕ → Verdict → Type 0
Keeps max_size (accepts e requests) = IsBounded max_size e × All (IsRequest max_size) requests
Keeps max_size (refuses r) = Unit
Keeps max_size unknown = ⊥

announced-Keeps :
    (max_size : ℕ) (e : NetstringEntity) (o : Option ℕ)
    → ((n : ℕ) → o ≡ some n → n < word_mod)
    → Keeps max_size (announced max_size e o)
unfolding announced
announced-Keeps max_size e none bound = tt
announced-Keeps max_size e (some n) bound = elim (Bool-cases (ltb max_size n)) [
  | inl big ↦ rw big tt
  | inr fit ↦ rw fit (
    record {
      valid = record { fits = λ _. omega arith; sized = bound n refl };
      announced_le = omega tests;
    },
    tt,
  )
]

prefix-Keeps :
    (max_size : ℕ) (e : NetstringEntity) (c : ℕ)
    → IsBounded max_size e
    → e.body_length ≡ 0
    → Keeps max_size (step max_size e c)
prefix-Keeps max_size e c b z = elim (Bool-cases (is_digit c)) [
  | inl d ↦ rw (step_digit max_size e c z d) (
    record {
      valid = record { fits = λ h. absurd (h z); sized = b.valid.sized };
      announced_le = b.announced_le;
    },
    tt,
  )
  | inr d ↦ rw (step_colon max_size e c z d) (elim (Bool-cases (c == b':')) [
    | inl colon ↦
        rw colon (announced-Keeps max_size e (stoul 10 e.body) (λ n h. stoul-lt 10 e.body h))
    | inr other ↦ rw other tt
  ])
]

body-Keeps :
    (max_size : ℕ) (e : NetstringEntity) (c : ℕ)
    → IsBounded max_size e
    → e.body_length ≢ 0
    → Keeps max_size (step max_size e c)
body-Keeps max_size e c b h = elim (Bool-cases (ltb (length e.body) e.body_length)) [
  | inl more ↦
      let lt : length e.body < e.body_length = omega tests in
      rw (step-push max_size e c h lt) (
        record {
          valid = record { fits = λ _. omega (arith, length-push e.body c); sized = b.valid.sized };
          announced_le = b.announced_le;
        },
        tt,
      )
  | inr full ↦
      let le : length e.body ≤ e.body_length = b.valid.fits h in
      let eq : length e.body ≡ e.body_length = omega tests in
      rw (step_full max_size e c h eq) (elim (Bool-cases (c == b',')) [
        | inl comma ↦ rw comma (
          record {
            valid = record { fits = λ _. omega arith; sized = omega arith };
            announced_le = omega arith;
          },
          (record { nonempty = omega arith; limited = omega (arith, b.announced_le) }, tt),
        )
        | inr other ↦ rw other tt
      ])
]

-- Each byte keeps the bounds.
pub step-Keeps :
    (max_size : ℕ) (e : NetstringEntity) (c : ℕ)
    → IsBounded max_size e
    → Keeps max_size (step max_size e c)
step-Keeps max_size e c b = elim (Bool-cases (e.body_length == 0)) [
  | inl z ↦ prefix-Keeps max_size e c b (ground arith)
  | inr z ↦ body-Keeps max_size e c b (==_ne z)
]

prepend-Keeps :
    (max_size : ℕ) (before : List NetstringEntity) (v : Verdict)
    → All (IsRequest max_size) before
    → Keeps max_size v
    → Keeps max_size (prepend before v)
prepend-Keeps max_size before (accepts e requests) h k =
    (k.0, All-append (IsRequest max_size) before requests h k.1)
prepend-Keeps max_size before (refuses r) h k = tt
prepend-Keeps max_size before unknown h k = k

and_then-Keeps :
    (max_size : ℕ) (v : Verdict) (next : NetstringEntity → Verdict)
    → Keeps max_size v
    → ((e : NetstringEntity) → IsBounded max_size e → Keeps max_size (next e))
    → Keeps max_size (and_then v next)
and_then-Keeps max_size (accepts e requests) next k h =
    prepend-Keeps max_size requests (next e) k.1 (h e k.0)
and_then-Keeps max_size (refuses r) next k h = tt
and_then-Keeps max_size unknown next k h = k

pub run-Keeps :
    (max_size : ℕ) (input : Bytes) (e : NetstringEntity)
    → IsBounded max_size e
    → Keeps max_size (run max_size e input)
unfolding run
run-Keeps max_size [] e b = (b, tt)
run-Keeps max_size (c ∷ cs) e b =
    and_then-Keeps max_size (step max_size e c) (λ e'. run max_size e' cs)
      (step-Keeps max_size e c b) (run-Keeps max_size cs)

-- From an entity that is valid and announces at most `max_size` bytes, the parser ends on every
-- chunk; if it accepts, that holds of the entity again, and each request has a body, of at most
-- `max_size` bytes.
pub from_stream-Keeps :
    (max_size : ℕ) (e : NetstringEntity) (input : Bytes)
    → IsBounded max_size e
    → Keeps max_size (verdict (from_stream max_size e input))
from_stream-Keeps max_size e input b =
    subst (Keeps max_size) (sym (from_stream-run max_size e input b.valid))
      (run-Keeps max_size input e b)

and_then-cong :
    (max_size : ℕ) (v : Verdict) (f g : NetstringEntity → Verdict)
    → Keeps max_size v
    → ((e : NetstringEntity) → IsBounded max_size e → f e ≡ g e)
    → and_then v f ≡ and_then v g
and_then-cong max_size (accepts e requests) f g k h = ap (prepend requests) (h e k.0)
and_then-cong max_size (refuses r) f g k h = refl
and_then-cong max_size unknown f g k h = refl

verdict-append :
    (max_size : ℕ) (e : NetstringEntity) (a b : Bytes)
    → IsBounded max_size e
    → verdict (from_stream max_size e (a ++ b))
      ≡ and_then (verdict (from_stream max_size e a)) (λ e'. verdict (from_stream max_size e' b))
verdict-append max_size e a b h =
    from_stream-run max_size e (a ++ b) h.valid
    ∙ run-append max_size a b e
    ∙ sym (
        ap (λ v. and_then v (λ e'. verdict (from_stream max_size e' b)))
          (from_stream-run max_size e a h.valid)
        ∙ and_then-cong max_size (run max_size e a) _ _ (run-Keeps max_size a e h)
            (λ e' h'. from_stream-run max_size e' b h'.valid))

-- The exception on the second chunk, if the first is accepted.
abbrev pub reason_after :
    Outcome → (NetstringEntity → Option RequestException) → Option RequestException
reason_after (returned e requests) next = next e
reason_after (thrown e x) next = some x
reason_after diverged next = none

cut_at-reason_after :
    (max_size : ℕ) (b : Bytes) (o : Outcome)
    → Keeps max_size (verdict o)
    → cut_at max_size (verdict o) (reason o) b
      ≡ reason_after o (λ e. reason (from_stream max_size e b))
cut_at-reason_after max_size b (returned e requests) k =
    sym (from_stream-fault max_size e b k.0.valid)
cut_at-reason_after max_size b (thrown e x) k = refl
cut_at-reason_after max_size b diverged k = absurd k

reason-append :
    (max_size : ℕ) (e : NetstringEntity) (a b : Bytes)
    → IsBounded max_size e
    → SameFault
        (reason (from_stream max_size e (a ++ b)))
        (reason_after (from_stream max_size e a) (λ e'. reason (from_stream max_size e' b)))
reason-append max_size e a b h =
    rw
      (
        ← cut_at-reason_after max_size b (from_stream max_size e a)
            (from_stream-Keeps max_size e a h),
        from_stream-fault max_size e (a ++ b) h.valid,
        from_stream-fault max_size e a h.valid,
        from_stream-run max_size e a h.valid,
      )
      (fault-append max_size a b e false)

-- From an entity that is valid and announces at most `max_size` bytes: however a stream is cut into
-- two chunks, the parser accepts the same requests and ends in the same state, or refuses it with
-- the same exception, as on the whole; but a cut can turn the exception about a missing colon into
-- the one about a bad length.
pub from_stream-append :
    (max_size : ℕ) (e : NetstringEntity) (a b : Bytes)
    → IsBounded max_size e
    → (verdict (from_stream max_size e (a ++ b))
        ≡ and_then (verdict (from_stream max_size e a)) (λ e'. verdict (from_stream max_size e' b)))
      × SameFault
          (reason (from_stream max_size e (a ++ b)))
          (reason_after (from_stream max_size e a) (λ e'. reason (from_stream max_size e' b)))
from_stream-append max_size e a b h =
    (verdict-append max_size e a b h, reason-append max_size e a b h)
