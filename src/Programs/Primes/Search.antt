-- ===== src/Programs/Primes/Search.antt =====
-- The primality test is right, for every number from 2 on.
use prime_server.Prelude.{
  ℕ, zero, suc, ◌+◌, ◌-◌, ◌*◌, ◌/◌, ◌%◌, ◌≤◌, ◌<◌, Option, none, some, ltb, ◌==◌, ==_iff, ==_ne,
  ◌≡◌, ◌≢◌, refl, subst, arith, Bool-cases, inl, inr, ltb→lt, ltb→le, lt→ltb, le→ltb, ◌⊎◌,
}
use native.Mathlib.Nat.{
  mul-mod_left, mul-le-mul, mul-le-mul_left, lt-mul-div-succ, div-add-mod, div-le_self,
}
use prime_server.Stdlib.{word_mod}
use prime_server.Programs.Primes.{search, verdict, check_prime}

-- No number from 2 to below `m` divides `n`.
abbrev pub Undivided : ℕ → ℕ → Type 0
Undivided n m = (k : ℕ) → 2 ≤ k → k < m → n % k ≢ 0

abbrev pub IsPrime : ℕ → Type 0
IsPrime n = (2 ≤ n) × Undivided n n

-- What the loop finds: a divisor, or that there is none.
abbrev Found : ℕ → Option (ℕ × ℕ) → Type 0
Found n none = ⊥
Found n (some (divisor, high)) =
    ((divisor < high) × (2 ≤ divisor) × (divisor < n) × (n % divisor ≡ 0))
    ⊎ ((high ≤ divisor) × Undivided n n)

cofactor-low : (k q n : ℕ) → k * q ≡ n → 2 ≤ k → k < n → 2 ≤ q
cofactor-low k zero n e lo hi = absurd (grind arith)
cofactor-low k (suc zero) n e lo hi = absurd (grind arith)
cofactor-low k (suc (suc q)) n e lo hi = omega arith

cofactor-below : (k q n d : ℕ) → k * q ≡ n → n < d * d → d ≤ k → q < d
cofactor-below k q n d e small le = elim (Bool-cases (ltb q d)) [
  | inl lt ↦ ltb→lt q d lt
  | inr ge ↦
      let above : d ≤ q = ltb→le q d ge in
      let square : d * d ≤ k * q = mul-le-mul le above in absurd (omega (arith, e, small, square))
]

-- A divisor of at least the root has a cofactor below it.
Undivided-square : (n d : ℕ) → n < d * d → Undivided n d → Undivided n n
Undivided-square n d small h k lo hi e = elim (Bool-cases (ltb k d)) [
  | inl lt ↦ h k lo (ltb→lt k d lt) e
  | inr ge ↦
      let whole = div-add-mod n k in
      let product : k * (n / k) ≡ n = omega (arith, whole, e) in
      let divides : n % (n / k) ≡ 0 =
        subst (λ m. m % (n / k) ≡ 0) product (mul-mod_left k (n / k)) in
      h (n / k) (cofactor-low k (n / k) n product lo hi)
        (cofactor-below k (n / k) n d product small (ltb→le k d ge)) divides
]

-- The loop at `divisor`: nothing below it divides, and `high` is the number or its quotient by
-- the divisor before.
pub record IsSearched (n divisor high : ℕ) : Type 0 where
  pub from_two : 2 ≤ divisor
  pub undivided : Undivided n divisor
  pub high_le : high ≤ n
  pub divisor_le : divisor ≤ n + 1
  pub quotient : high ≤ divisor → n < divisor * divisor

quotient_square : (n d : ℕ) → 2 ≤ d → n / d ≤ d + 1 → n < (d + 1) * (d + 1)
quotient_square n d two h =
    let next : n < d * (n / d + 1) = lt-mul-div-succ n (omega arith) in
    let over : d * (n / d + 1) ≤ d * (d + 2) = mul-le-mul_left d (omega (arith, h)) in
    grind (arith, next, over)

Undivided-suc : (n d : ℕ) → Undivided n d → n % d ≢ 0 → Undivided n (d + 1)
Undivided-suc n d h ne k lo hi e = elim (Bool-cases (k == d)) [
  | inl same ↦ ne (subst (λ m. n % m ≡ 0) ((==_iff k d).0 same) e)
  | inr other ↦ let apart : k ≢ d = ==_ne other in h k lo (omega (arith, hi, apart)) e
]

search-Found :
    (fuel n divisor high : ℕ)
    → IsSearched n divisor high
    → n + 1 < fuel + divisor
    → Found n (search fuel n divisor high)
unfolding search
search-Found zero n divisor high v h = absurd (omega (arith, v.divisor_le))
search-Found (suc fuel) n divisor high v h = elim (Bool-cases (ltb divisor high)) [
  | inl lt ↦
      let below : divisor < high = ltb→lt divisor high lt in
      elim (Bool-cases (n % divisor == 0)) [
        | inl divides ↦
            rw (lt, divides)
              (inl (
                below,
                v.from_two,
                omega (arith, below, v.high_le),
                (==_iff (n % divisor) 0).0 divides,
              ))
        | inr other ↦
            rw (lt, other)
              (search-Found fuel n (divisor + 1) (n / divisor)
                (record {
                  from_two = omega (arith, v.from_two);
                  undivided = Undivided-suc n divisor v.undivided (==_ne other);
                  high_le = div-le_self n divisor;
                  divisor_le = omega (arith, below, v.high_le);
                  quotient = quotient_square n divisor v.from_two;
                })
                (omega (arith, h)))
      ]
  | inr ge ↦
      let over : high ≤ divisor = ltb→le divisor high ge in
      rw ge (inr (over, Undivided-square n divisor (v.quotient over) v.undivided))
]

-- What the answer says of the number.
abbrev pub Decides : ℕ → Option ℕ → Type 0
Decides n none = ⊥
Decides n (some m) =
    ((m ≡ n) × IsPrime n) ⊎ ((m ≡ word_mod - 1) × (d : ℕ) × (2 ≤ d) × (d < n) × (n % d ≡ 0))

Found-Decides : (n : ℕ) (o : Option (ℕ × ℕ)) → 2 ≤ n → Found n o → Decides n (verdict n o)
Found-Decides n none two h = h
Found-Decides n (some (divisor, high)) two (inl f) =
    rw (lt→ltb divisor high f.0) (inr (refl, divisor, f.1, f.2, f.3))
Found-Decides n (some (divisor, high)) two (inr f) =
    rw (le→ltb divisor high f.0) (inl (refl, (two, f.1)))

-- From two on, the loop of the computing worker ends; its answer is the number itself, which then
-- is prime, or the largest `size_t`, and then a number from two to below it divides it.
pub check_prime-Decides : (n : ℕ) → 2 ≤ n → Decides n (check_prime n)
unfolding check_prime
check_prime-Decides n two = Found-Decides n (search (suc n) n 2 n) two (
    search-Found (suc n) n 2 n
      (record {
        from_two = omega arith;
        undivided = λ k lo hi. absurd (omega arith);
        high_le = omega arith;
        divisor_le = omega arith;
        quotient = λ h. omega arith;
      })
      (omega arith))
