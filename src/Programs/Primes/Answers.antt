-- ===== src/Programs/Primes/Answers.antt =====
-- A question travels through the two workers.
use prime_server.Prelude.{
  ℕ, zero, suc, ◌*◌, ◌/◌, ◌≤◌, ◌<◌, true, Option, none, some, List, [], ◌∷◌, Bytes, codes, equal,
  equal_self, is_empty, if◌then◌else◌, ◌≡◌, ◌≢◌, ◌↔◌, refl, ap, ◌∙◌, arith, Bool-cases, inl, inr,
}
use prime_server.Prelude.Maps.{bytes_key, find}
use prime_server.Stdlib.{word_mod, to_string, stoul, read_bytes}
use prime_server.Stdlib.Decimal.{stoul-to_string}
use prime_server.Http.{Method, get, post, options, head, put, delete, trace, connect}
use prime_server.Http.Request.{HttpRequest}
use prime_server.Http.Strings.{whole}
use prime_server.Http.Message.{HttpRequestInfo}
use prime_server.Worker.{WorkResult}
use prime_server.Programs.Primes.{
  JobResult, works, terminates, check_prime, low_bytes, size_bytes, plain, respond, number, bad,
  rethrows, number_or, ask_values, ask_get, ask_post, asked, answer_asked, parse_whole,
  compute_checked, compute_read, compute_work, usage_post,
}
use prime_server.Programs.Primes.Search.{Decides, check_prime-Decides}

abbrev width : ℕ → ℕ
width zero = 1
width (suc k) = 256 * width k

read_bytes-low_bytes : (k n : ℕ) → n < width k → read_bytes k (low_bytes k n) ≡ some n
unfolding read_bytes low_bytes
read_bytes-low_bytes zero n h = ap some (omega (arith, h))
read_bytes-low_bytes (suc k) n h =
    let rest : read_bytes k (low_bytes k (n / 256)) ≡ some (n / 256) =
      read_bytes-low_bytes k (n / 256) (omega (arith, h)) in
    rw (rest) (ap some (omega arith))

-- The answer to a number, if there is one.
abbrev Answers : ℕ → HttpRequestInfo → Option ℕ → JobResult → Type 0
Answers n info o result =
    (m : ℕ) × (result ≡ respond (plain 200 (codes "OK") (to_string m)) info) × Decides n (some m)

compute_checked-Answers :
    (n : ℕ) (info : HttpRequestInfo) (o : Option ℕ)
    → Decides n o
    → Answers n info o (compute_checked info o)
compute_checked-Answers n info none d = absurd d
compute_checked-Answers n info (some m) d = (m, refl, d)

-- The job that the parsing worker sends on for a number.
abbrev pub question : ℕ → WorkResult
question n = record { intermediate = true; messages = size_bytes n ∷ []; heart_beat = [] }

asked-number :
    (what : Bytes) (r : HttpRequest) (n : ℕ)
    → n < word_mod
    → r.path ≡ codes "/is_prime"
    → find (codes "possible_prime") r.query ≡ some (to_string n ∷ [])
    → asked what get r ≡ number n
unfolding asked ask_get ask_values
asked-number what r n sized path value =
    rw (path, equal_self (codes "/is_prime"), value, stoul-to_string n sized)

-- A GET request for `/is_prime` whose one `possible_prime` is a number from 2 to below 2^64 is sent
-- on, and the computing worker answers what it is sent with that number, and then it is prime, or
-- with the largest `size_t`, and then it has a divisor.
pub question_answered :
    (what : Bytes) (r : HttpRequest) (info : HttpRequestInfo) (n : ℕ)
    → 2 ≤ n
    → n < word_mod
    → r.method ≡ get
    → r.path ≡ codes "/is_prime"
    → find (codes "possible_prime") r.query ≡ some (to_string n ∷ [])
    → (parse_whole what info (whole r) ≡ works (question n) info)
      × (m : ℕ) × (compute_work (question n).messages info
          ≡ respond (plain 200 (codes "OK") (to_string m)) info)
      × Decides n (some m)
unfolding parse_whole compute_work compute_read answer_asked
question_answered what r info n two sized method path value =
    let (m, answer, decides) =
      compute_checked-Answers n info (check_prime n) (check_prime-Decides n two) in
    (
      rw (method, asked-number what r n sized path value),
      m,
      ap (compute_read info) (read_bytes-low_bytes 8 n sized) ∙ answer,
      decides,
    )

-- Whether the process ends in the middle of a job.
abbrev Survives : JobResult → Type 0
Survives result = result ≢ terminates

bad-Survives : (info : HttpRequestInfo) (what : Bytes) → Survives (answer_asked info (bad what))
unfolding answer_asked respond
bad-Survives info what e = cc e

number_or-Survives :
    (info : HttpRequestInfo) (what : Bytes) (o : Option ℕ)
    → Survives (answer_asked info (number_or what o))
unfolding answer_asked
number_or-Survives info what none e = bad-Survives info what e
number_or-Survives info what (some n) e = cc e

ask_values-Survives :
    (info : HttpRequestInfo) (what : Bytes) (o : Option (List Bytes))
    → Survives (answer_asked info (ask_values what o))
unfolding ask_values
ask_values-Survives info what none = bad-Survives info _
ask_values-Survives info what (some []) = bad-Survives info _
ask_values-Survives info what (some (v ∷ [])) = number_or-Survives info what (stoul 10 v)
ask_values-Survives info what (some (v ∷ w ∷ vs)) = bad-Survives info _

ask_get-Survives :
    (info : HttpRequestInfo) (what : Bytes) (r : HttpRequest)
    → Survives (answer_asked info (ask_get what r))
unfolding ask_get
ask_get-Survives info what r = elim (Bool-cases (equal r.path (codes "/is_prime"))) [
  | inl e ↦ rw e (ask_values-Survives info what (find (codes "possible_prime") r.query))
  | inr e ↦ rw e (bad-Survives info _)
]

body_missing :
    (info : HttpRequestInfo) (body : Bytes)
    → answer_asked info (if is_empty body then rethrows else number_or usage_post (stoul 10 body))
      ≡ terminates
    → body ≡ []
body_missing info [] e = refl
body_missing info (c ∷ cs) e = absurd (number_or-Survives info usage_post (stoul 10 (c ∷ cs)) e)

ask_post-terminates :
    (info : HttpRequestInfo) (r : HttpRequest)
    → (answer_asked info (ask_post r) ≡ terminates) ↔ (r.body ≡ [])
unfolding ask_post answer_asked
ask_post-terminates info r = (body_missing info r.body, λ e. rw e)

asked-terminates :
    (what : Bytes) (info : HttpRequestInfo) (m : Method) (r : HttpRequest)
    → answer_asked info (asked what m r) ≡ terminates
    → (m ≡ post) × (r.body ≡ [])
unfolding asked
asked-terminates what info get r e = absurd (ask_get-Survives info what r e)
asked-terminates what info post r e = (refl, (ask_post-terminates info r).0 e)
asked-terminates what info options r e = absurd (bad-Survives info _ e)
asked-terminates what info head r e = absurd (bad-Survives info _ e)
asked-terminates what info put r e = absurd (bad-Survives info _ e)
asked-terminates what info delete r e = absurd (bad-Survives info _ e)
asked-terminates what info trace r e = absurd (bad-Survives info _ e)
asked-terminates what info connect r e = absurd (bad-Survives info _ e)

-- A request that was parsed ends the whole process if and only if it is a POST without a body: its
-- `throw;` has no exception to throw again.
pub parse_whole-terminates :
    (what : Bytes) (info : HttpRequestInfo) (r : HttpRequest)
    → (parse_whole what info (whole r) ≡ terminates) ↔ ((r.method ≡ post) × (r.body ≡ []))
unfolding parse_whole asked
parse_whole-terminates what info r = (
  asked-terminates what info r.method r,
  λ h. ap (λ m. answer_asked info (asked what m r)) h.0 ∙ (ask_post-terminates info r).1 h.1,
)
