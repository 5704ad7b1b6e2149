-- ===== src/Stdlib/Decimal.antt =====
-- `std::stoul` reads back what `std::to_string` prints.
use prime_server.Prelude.{
  ℕ, zero, suc, ◌+◌, ◌*◌, ◌/◌, ◌%◌, ◌<◌, ◌≡◌, refl, true, Option, none, some, [], ◌∷◌, All, ltb,
  Bool-cases, inl, inr, arith, Bytes, tests, ◌∙◌, ap, subst, false, ◌==◌,
}
use prime_server.Stdlib.{
  word_mod, is_digit, is_space, to_string, digit_of, value_from, digits, skip_prefix, in_range,
  negated, signed, stoul, print, skip_spaces,
}

abbrev pub IsDigits : Bytes → Type 0
IsDigits = All (λ c. is_digit c ≡ true)

digit_of_digit : (d : ℕ) → d < 10 → digit_of (b'0' + d) ≡ d
unfolding digit_of
digit_of_digit d h = ground arith

is_digit_digit : (d : ℕ) → d < 10 → is_digit (b'0' + d) ≡ true
unfolding is_digit
is_digit_digit d h = ground arith

print-IsDigits : (f n : ℕ) (rest : Bytes) → IsDigits rest → IsDigits (print f n rest)
unfolding print
print-IsDigits zero n rest h = h
print-IsDigits (suc f) n rest h =
    let d : is_digit (b'0' + n % 10) ≡ true = is_digit_digit (n % 10) (omega arith) in
    elim (Bool-cases (ltb n 10)) [
      | inl e ↦ rw e (d, h)
      | inr e ↦ rw e (print-IsDigits f (n / 10) ((b'0' + n % 10) ∷ rest) (d, h))
    ]

pub to_string-IsDigits : (n : ℕ) → IsDigits (to_string n)
unfolding to_string
to_string-IsDigits n = print-IsDigits (suc n) n [] tt

value-print :
    (f n : ℕ) (rest : Bytes) → n < f → value_from 10 0 (print f n rest) ≡ value_from 10 n rest
unfolding print value_from
value-print zero n rest h = elim h [ ]
value-print (suc f) n rest h = elim (Bool-cases (ltb n 10)) [
  | inl e ↦ rw e (ground (arith, digit_of_digit (n % 10)))
  | inr e ↦ rw e (
      value-print f (n / 10) ((b'0' + n % 10) ∷ rest) (omega tests)
      ∙ ground (arith, digit_of_digit (n % 10)))
]

print_onto_cons :
    (f n x : ℕ) (rest : Bytes) → (c : ℕ) × (cs : Bytes) × (print f n (x ∷ rest) ≡ c ∷ cs)
unfolding print
print_onto_cons zero n x rest = (x, rest, refl)
print_onto_cons (suc f) n x rest = elim (Bool-cases (ltb n 10)) [
  | inl e ↦ (b'0' + n % 10, x ∷ rest, rw e)
  | inr e ↦ rw e (print_onto_cons f (n / 10) (b'0' + n % 10) (x ∷ rest))
]

pub to_string-cons : (n : ℕ) → (c : ℕ) × (cs : Bytes) × (to_string n ≡ c ∷ cs)
unfolding to_string print
to_string-cons n = elim (Bool-cases (ltb n 10)) [
  | inl e ↦ (b'0' + n % 10, [], rw e)
  | inr e ↦ rw e (print_onto_cons n (n / 10) (b'0' + n % 10) [])
]

skip_prefix-ten : (s : Bytes) → skip_prefix 10 s ≡ s
unfolding skip_prefix
skip_prefix-ten [] = refl
skip_prefix-ten (a ∷ []) = refl
skip_prefix-ten (a ∷ b ∷ []) = refl
skip_prefix-ten (a ∷ b ∷ c ∷ s) = refl

digit_head :
    (c : ℕ)
    → is_digit c ≡ true
    → (is_space c ≡ false)
      × ((c == b'-') ≡ false)
      × ((c == b'+') ≡ false)
      × (ltb (digit_of c) 10 ≡ true)
unfolding is_digit is_space digit_of
digit_head c h = (ground arith, ground arith, ground arith, ground arith)

-- Without a sign or blanks in front, the value of the digits decides.
pub stoul-IsDigits :
    (c : ℕ) (cs : Bytes)
    → IsDigits (c ∷ cs)
    → stoul 10 (c ∷ cs) ≡ in_range (some (value_from 10 0 (c ∷ cs)))
unfolding stoul skip_spaces signed digits value_from
stoul-IsDigits c cs h =
    let (blank, minus, plus, digit) = digit_head c h.0 in
    let whole : 0 * 10 + digit_of c ≡ digit_of c = omega arith in
    rw (blank, minus, plus, skip_prefix-ten, digit, whole)

pub value-to_string : (n : ℕ) → value_from 10 0 (to_string n) ≡ n
unfolding to_string value_from
value-to_string n = value-print (suc n) n [] (omega arith)

-- `std::stoul(std::to_string(n)) == n` for every `size_t`.
pub stoul-to_string : (n : ℕ) → n < word_mod → stoul 10 (to_string n) ≡ some n
unfolding in_range
stoul-to_string n h =
    let (c, cs, e) = to_string-cons n in
    rw e (
      stoul-IsDigits c cs (subst IsDigits e (to_string-IsDigits n))
      ∙ ground (arith, value-to_string n, ap (value_from 10 0) e))

in_range-lt : (o : Option ℕ) {n : ℕ} → in_range o ≡ some n → n < word_mod
unfolding in_range
in_range-lt none h = cc
in_range-lt (some m) h = ground arith

negated-lt : (o : Option ℕ) {n : ℕ} → negated o ≡ some n → n < word_mod
unfolding negated
negated-lt none h = cc
negated-lt (some m) h = ground arith

signed-lt : (base : ℕ) (s : Bytes) {n : ℕ} → signed base s ≡ some n → n < word_mod
unfolding signed
signed-lt base [] h = cc
signed-lt base (c ∷ cs) h = ground (
  arith,
  negated-lt (in_range (digits base (skip_prefix base cs))),
  in_range-lt (digits base (skip_prefix base cs)),
  in_range-lt (digits base (skip_prefix base (c ∷ cs))),
)

-- What `std::stoul` returns is a `size_t`.
pub stoul-lt : (base : ℕ) (s : Bytes) {n : ℕ} → stoul base s ≡ some n → n < word_mod
unfolding stoul
stoul-lt base s h = signed-lt base (skip_spaces s) h
