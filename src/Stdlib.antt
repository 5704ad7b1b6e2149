-- ===== src/Stdlib.antt =====
-- The parts of the C++ standard library that the protocols call on bytes: `std::isdigit`,
-- `::tolower`, `std::to_string` on a `size_t`, and `std::stoul` (LP64: `unsigned long` has 64 bits).
pub mod Decimal
use prime_server.Prelude.{
  ℕ, zero, suc, ◌+◌, ◌-◌, ◌*◌, ◌/◌, ◌%◌, ◌^◌, Bool, ◌&&◌, ◌||◌, Option, none, some, List, [], ◌∷◌,
  ltb, leb, ◌==◌, if◌then◌else◌, Bytes,
}

-- 2^64, the modulus of `size_t` and of `unsigned long`.
abbrev pub word_mod : ℕ
word_mod = 2 ^ 64

-- `std::isdigit` in the C locale.
unfoldable pub is_digit : ℕ → Bool
is_digit c = leb b'0' c && leb c b'9'

-- `::tolower` in the C locale.
unfoldable pub to_lower : ℕ → ℕ
to_lower c = if leb b'A' c && leb c b'Z' then c + 32 else c

-- `std::isspace` in the C locale.
unfoldable pub is_space : ℕ → Bool
is_space c = c == b' ' || (leb 9 c && leb c 13)

print : ℕ → ℕ → Bytes → Bytes
print zero n rest = rest
print (suc fuel) n rest =
    let more = print fuel (n / 10) ((b'0' + n % 10) ∷ rest) in
    if ltb n 10 then (b'0' + n % 10) ∷ rest else more

-- `std::to_string`: decimal digits, at least one. Fuel `n + 1` is above the number of digits.
unfoldable pub to_string : ℕ → Bytes
unfolding print
to_string n = print (suc n) n []

-- The value of a digit in bases up to 36; 36 for any other byte.
unfoldable pub digit_of : ℕ → ℕ
unfolding is_digit to_lower
digit_of c =
    if is_digit c
    then c - b'0'
    else if leb b'a' (to_lower c) && leb (to_lower c) b'z'
    then to_lower c - b'a' + 10
    else 36

-- Digits are taken up to the first byte that is none.
unfoldable pub value_from : ℕ → ℕ → Bytes → ℕ
value_from base acc [] = acc
value_from base acc (c ∷ cs) =
    let rest = value_from base (acc * base + digit_of c) cs in
    if ltb (digit_of c) base then rest else acc

-- No conversion without a digit.
unfoldable pub digits : ℕ → Bytes → Option ℕ
unfolding value_from
digits base [] = none
digits base (c ∷ cs) =
    if ltb (digit_of c) base then some (value_from base (digit_of c) cs) else none

-- The optional `0x` of base 16, skipped only before a hexadecimal digit.
unfoldable pub skip_prefix : ℕ → Bytes → Bytes
skip_prefix base (z ∷ x ∷ d ∷ cs) =
    if base == 16 && z == b'0' && to_lower x == b'x' && ltb (digit_of d) 16
    then d ∷ cs
    else z ∷ x ∷ d ∷ cs
skip_prefix base s = s

-- `std::out_of_range` above `ULONG_MAX`.
unfoldable pub in_range : Option ℕ → Option ℕ
in_range none = none
in_range (some n) = if ltb n word_mod then some n else none

unfoldable pub negated : Option ℕ → Option ℕ
negated none = none
negated (some n) = some ((word_mod - n) % word_mod)

unfoldable pub signed : ℕ → Bytes → Option ℕ
unfolding skip_prefix digits in_range negated
signed base [] = none
signed base (c ∷ cs) =
    if c == b'-'
    then negated (in_range (digits base (skip_prefix base cs)))
    else if c == b'+'
    then in_range (digits base (skip_prefix base cs))
    else in_range (digits base (skip_prefix base (c ∷ cs)))

skip_spaces : Bytes → Bytes
skip_spaces [] = []
skip_spaces (c ∷ cs) = let rest = skip_spaces cs in if is_space c then rest else c ∷ cs

-- `std::stoul(s, nullptr, base)`; `none` for either exception.
unfoldable pub stoul : ℕ → Bytes → Option ℕ
unfolding skip_spaces signed is_space digit_of
stoul base s = signed base (skip_spaces s)

-- A number of so many bytes at the start of a frame, the low byte first, as x86-64 keeps it; `none`
-- if the frame is shorter.
unfoldable pub read_bytes : ℕ → Bytes → Option ℕ
read_bytes zero s = some 0
read_bytes (suc k) [] = none
read_bytes (suc k) (c ∷ cs) = elim (read_bytes k cs) [ none ↦ none | some n ↦ some (c + 256 * n) ]
