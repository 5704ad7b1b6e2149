-- ===== src/Netstring/Machine.antt =====
-- The netstring stream as a machine that reads one byte at a time: the specification of
-- `netstring_entity_t::from_stream`, which looks at whole chunks.
use prime_server.Prelude.{
  ℕ, Option, none, some, List, [], ◌∷◌, ◌++◌, ltb, ◌==◌, if◌then◌else◌, length, Bytes, ◌≡◌, refl,
  sym, ap, fun_ext, ◌∙◌, append_assoc,
}
use prime_server.Stdlib.{is_digit, stoul}
use prime_server.Netstring.{NetstringEntity, RequestException, Outcome, returned, thrown, diverged}

-- Why a stream is refused. The code has two messages for a bad length, and which one it uses
-- depends on where the chunk began; the machine has one.
pub data Refusal : Type 0 where
  bad_prefix oversized bad_end : Refusal

abbrev pub refusal : RequestException → Refusal
refusal RequestException.bad_length = bad_prefix
refusal RequestException.bad_body_separator = bad_prefix
refusal RequestException.too_long = oversized
refusal RequestException.bad_message_separator = bad_end

-- `unknown` is the verdict on a loop that did not end.
pub data Verdict : Type 0 where
  accepts : NetstringEntity → List NetstringEntity → Verdict
  refuses : Refusal → Verdict
  unknown : Verdict

abbrev pub verdict : Outcome → Verdict
verdict (returned e requests) = accepts e requests
verdict (thrown e x) = refuses (refusal x)
verdict diverged = unknown

pub verdict-accepts :
    (o : Outcome) {e : NetstringEntity} {requests : List NetstringEntity}
    → verdict o ≡ accepts e requests
    → o ≡ returned e requests
verdict-accepts (returned e requests) h = cc
verdict-accepts (thrown e x) h = cc
verdict-accepts diverged h = cc

abbrev pub prepend : List NetstringEntity → Verdict → Verdict
prepend before (accepts e requests) = accepts e (before ++ requests)
prepend before (refuses r) = refuses r
prepend before unknown = unknown

abbrev pub and_then : Verdict → (NetstringEntity → Verdict) → Verdict
and_then (accepts e requests) next = prepend requests (next e)
and_then (refuses r) next = refuses r
and_then unknown next = unknown

pub prepend-append :
    (xs ys : List NetstringEntity) (v : Verdict) → prepend xs (prepend ys v) ≡ prepend (xs ++ ys) v
prepend-append xs ys (accepts e zs) = rw append_assoc
prepend-append xs ys (refuses r) = refl
prepend-append xs ys unknown = refl

pub prepend-nil : (v : Verdict) → prepend [] v ≡ v
prepend-nil (accepts e requests) = refl
prepend-nil (refuses r) = refl
prepend-nil unknown = refl

abbrev pub message : Bytes → NetstringEntity
message body = record { body = body; body_length = 0; enqueued = [] }

-- The number after the colon, if it is one.
unfoldable pub announced : ℕ → NetstringEntity → Option ℕ → Verdict
announced max_size e none = refuses bad_prefix
announced max_size e (some n) =
    if ltb max_size n
    then refuses oversized
    else accepts (record e { body = []; body_length = n }) []

unfoldable pub step : ℕ → NetstringEntity → ℕ → Verdict
unfolding announced
step max_size e c =
    if e.body_length == 0
    then (if is_digit c
        then accepts (record e { body = e.body ++ c ∷ [] }) []
        else if c == b':'
        then announced max_size e (stoul 10 e.body)
        else refuses bad_prefix)
    else if ltb (length e.body) e.body_length
    then accepts (record e { body = e.body ++ c ∷ [] }) []
    else if c == b','
    then accepts (record e { body = []; body_length = 0 }) (message e.body ∷ [])
    else refuses bad_end

unfoldable pub run : ℕ → NetstringEntity → Bytes → Verdict
run max_size e [] = accepts e []
run max_size e (c ∷ cs) = and_then (step max_size e c) (λ e'. run max_size e' cs)

and_then-prepend :
    (xs : List NetstringEntity) (v : Verdict) (g : NetstringEntity → Verdict)
    → and_then (prepend xs v) g ≡ prepend xs (and_then v g)
and_then-prepend xs (accepts e ys) g = sym (prepend-append xs ys (g e))
and_then-prepend xs (refuses r) g = refl
and_then-prepend xs unknown g = refl

pub and_then-and_then :
    (v : Verdict) (f g : NetstringEntity → Verdict)
    → and_then (and_then v f) g ≡ and_then v (λ e. and_then (f e) g)
and_then-and_then (accepts e requests) f g = and_then-prepend requests (f e) g
and_then-and_then (refuses r) f g = refl
and_then-and_then unknown f g = refl

-- The machine reads a stream in pieces.
pub run-append :
    (max_size : ℕ) (a b : Bytes) (e : NetstringEntity)
    → run max_size e (a ++ b) ≡ and_then (run max_size e a) (λ e'. run max_size e' b)
unfolding run
run-append max_size [] b e = sym (prepend-nil (run max_size e b))
run-append max_size (c ∷ cs) b e =
    ap (and_then (step max_size e c)) (fun_ext (run-append max_size cs b))
    ∙ sym
        (and_then-and_then (step max_size e c) (λ e'. run max_size e' cs) (λ e'. run max_size e' b))
