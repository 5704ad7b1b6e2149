-- ===== src/Http/Entity/Scanning.antt =====
-- How far the scanner gets.
use prime_server.Prelude.{
  ℕ, zero, suc, ◌+◌, ◌≤◌, ◌<◌, true, false, ◌&&◌, [], ◌∷◌, ◌==◌, if◌then◌else◌, length, drop, Bytes,
  ◌≡◌, ◌≢◌, refl, arith, Bool-cases, inl, inr, length-drop, subst, sym, ℕ_cases,
}
use prime_server.Http.{HttpEntity}
use prime_server.Http.Entity.{awaited, scan, take_body, Consumed, finish, consume_until}

pub scan-le : (d : Bytes) (p : ℕ) (input : Bytes) → (scan d p input).0 ≤ length input
unfolding scan
scan-le d p [] = omega arith
scan-le d p (c ∷ cs) = ground (arith, scan-le d (if awaited d p == c then suc p else 0) cs)

-- A delimiter that is not whole is not found before one more byte.
pub scan_progress :
    (d : Bytes) (p : ℕ) (input : Bytes)
    → awaited d p ≢ 0
    → awaited d (scan d p input).1 ≡ 0
    → 0 < (scan d p input).0
unfolding scan
scan_progress d p [] h e = absurd (h e)
scan_progress d p (c ∷ cs) h e = ground arith

-- What a search for the delimiter left behind.
pub record IsProgress (e : HttpEntity) (input : Bytes) (c : Consumed) : Type 0 where
  pub state_kept : c.entity.state ≡ e.state
  pub delimiter_kept : c.entity.delimiter ≡ e.delimiter
  pub whole : c.found ≡ true → (length c.rest ≤ length input) × (c.entity.partial_length ≡ 0)
  pub shorter :
      c.found ≡ true → awaited e.delimiter e.partial_length ≢ 0 → length c.rest < length input
  pub still :
      c.found ≡ false
      → awaited e.delimiter e.partial_length ≢ 0
      → awaited e.delimiter c.entity.partial_length ≢ 0

take_body-le : (n available : ℕ) → (take_body n available).0 ≤ available
unfolding take_body
take_body-le n available = ground arith

-- A body that is not whole takes all there is.
take_body_all :
    (n available : ℕ) → (take_body n available).1 ≢ 0 → (take_body n available).0 ≡ available
unfolding take_body
take_body_all n available h = ground arith

pub drop_all : (n : ℕ) (input : Bytes) → length input ≤ n → drop n input ≡ []
drop_all zero [] h = refl
drop_all zero (c ∷ cs) h = absurd (omega arith)
drop_all (suc n) [] h = refl
drop_all (suc n) (c ∷ cs) h = drop_all n cs (omega arith)

both_zero : (a b : ℕ) → (a == 0 && b == 0) ≡ true → (a ≡ 0) × (b ≡ 0)
both_zero a b h = ground arith

not_both_zero : (a b : ℕ) → (a == 0 && b == 0) ≡ false → b ≡ 0 → a ≢ 0
not_both_zero a b h z = ground arith

finish-IsProgress :
    (e : HttpEntity) (input : Bytes) (taken p body_length : ℕ)
    → taken ≤ length input
    → (awaited e.delimiter e.partial_length ≢ 0
        → awaited e.delimiter p ≡ 0
        → body_length ≡ 0
        → 0 < taken)
    → (awaited e.delimiter e.partial_length ≢ 0 → body_length ≢ 0 → awaited e.delimiter p ≢ 0)
    → IsProgress e input (finish e input taken p body_length)
unfolding finish
finish-IsProgress e input taken p body_length le moves waits =
    elim (Bool-cases (awaited e.delimiter p == 0 && body_length == 0)) [
      | inl found ↦
          let (matched, all) = both_zero (awaited e.delimiter p) body_length found in
          rw found (record {
            state_kept = refl;
            delimiter_kept = refl;
            whole = λ _. (omega (arith, length-drop taken input), refl);
            shorter = λ _ h. omega (arith, length-drop taken input, moves h matched all);
            still = λ x. cc;
          })
      | inr missing ↦ rw missing (record {
        state_kept = refl;
        delimiter_kept = refl;
        whole = λ x. cc;
        shorter = λ x. cc;
        still = λ _ h. elim (ℕ_cases body_length) [
          | inl z ↦ not_both_zero (awaited e.delimiter p) body_length missing z
          | inr more ↦ waits h more
        ];
      })
    ]

consume_until-taken :
    (e : HttpEntity) (input : Bytes) (skipped : ℕ)
    → skipped ≤ length input
    → skipped + (scan e.delimiter e.partial_length (drop skipped input)).0 ≤ length input
consume_until-taken e input skipped le =
    omega
      (arith, scan-le e.delimiter e.partial_length (drop skipped input), length-drop skipped input)

scan_nothing :
    (d : Bytes) (p n : ℕ) (input : Bytes) → length input ≤ n → (scan d p (drop n input)).1 ≡ p
unfolding scan
scan_nothing d p n input h = rw (drop_all n input h)

-- A search keeps the state and the delimiter. One that succeeds takes no more than there is, and at
-- least a byte if it was looking for a delimiter; one that fails has still some of the delimiter to find.
pub consume_until-IsProgress :
    (e : HttpEntity) (input : Bytes) → IsProgress e input (consume_until e input)
unfolding consume_until
consume_until-IsProgress e input =
    let skipped = (take_body e.body_length (length input)).0 in
    let left = (take_body e.body_length (length input)).1 in
    let scanned = scan e.delimiter e.partial_length (drop skipped input) in
    let le : skipped ≤ length input = take_body-le e.body_length (length input) in
    finish-IsProgress e input (skipped + scanned.0) scanned.1 left
      (consume_until-taken e input skipped le)
      (λ h matched all.
        omega (arith, scan_progress e.delimiter e.partial_length (drop skipped input) h matched))
      (λ h more.
        let all : skipped ≡ length input = take_body_all e.body_length (length input) more in
        subst (λ p. awaited e.delimiter p ≢ 0)
          (sym (scan_nothing e.delimiter e.partial_length skipped input (omega arith))) h)
