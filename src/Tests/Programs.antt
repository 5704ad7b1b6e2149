-- ===== src/Tests/Programs.antt =====
-- Runs of the primality server and its theorems at concrete inputs.
use prime_server.Prelude.{ℕ, ◌-◌, ◌≡◌, ◌↔◌, refl, arith, some, [], ◌∷◌, codes, equal}
use prime_server.Prelude.Maps.{find}
use prime_server.Stdlib.{word_mod, to_string}
use prime_server.Http.{get, post}
use prime_server.Http.Request.{HttpRequest, fresh}
use prime_server.Http.Strings.{whole}
use prime_server.Programs.Primes.{
  check_prime, parse_whole, compute_work, works, terminates, respond, plain,
}
use prime_server.Programs.Files.{skip_front}
use prime_server.Programs.Primes.Search.{Decides}
use prime_server.Programs.Primes.Answers.{question, question_answered, parse_whole-terminates}
use prime_server.Tests.Files.{info}

prime_run : check_prime 97 ≡ some 97
unfolding check_prime
prime_run = refl

composite_run : check_prime 91 ≡ some (word_mod - 1)
unfolding check_prime
composite_run = refl

abbrev asks_97 : HttpRequest
asks_97 = record (fresh get) {
  path = codes "/is_prime";
  query = (codes "possible_prime", to_string 97 ∷ []) ∷ [];
}

question_answered_example :
    (parse_whole (codes "stoul") info (whole asks_97) ≡ works (question 97) info)
    × (m : ℕ) × (compute_work (question 97).messages info
        ≡ respond (plain 200 (codes "OK") (to_string m)) info)
    × Decides 97 (some m)
unfolding fresh find equal
question_answered_example =
    question_answered (codes "stoul") asks_97 info 97 (omega arith) (omega arith) refl refl refl

parse_whole-terminates_example :
    (parse_whole (codes "stoul") info (whole (fresh post)) ≡ terminates)
    ↔ (((fresh post).method ≡ post) × ((fresh post).body ≡ []))
parse_whole-terminates_example = parse_whole-terminates (codes "stoul") info (fresh post)

-- Dots behind the front of a path stay.
skip_front_run : skip_front (codes "/../x/../../secret") ≡ codes "x/../../secret"
unfolding skip_front
skip_front_run = refl
