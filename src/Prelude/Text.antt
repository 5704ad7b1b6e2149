-- ===== src/Prelude/Text.antt =====
-- Bytes, ASCII literals, and comparison of byte strings.
use Prim.Native.Nat.{ℕ}
use Prim.Native.Char.{code}
use Prim.Native.String.{String}
use mathlib.Core.Path.{◌≡◌, refl}
use mathlib.Core.Logic.{◌↔◌}
use mathlib.Core.Bool.{Bool, true, false, ◌&&◌}
use mathlib.Core.List.{List, [], ◌∷◌}
use native.Mathlib.Omega.{arith}
use prime_server.Prelude.Tests.{◌==◌}

-- A byte string, each byte as its value 0 to 255.
abbrev pub Bytes : Type 0
Bytes = List ℕ

abbrev pub codes : String → Bytes
codes String.[] = []
codes (String.◌∷◌ c s) = code c ∷ codes s

-- `std::string::operator==`.
unfoldable pub equal : Bytes → Bytes → Bool
equal [] [] = true
equal [] (b ∷ right) = false
equal (a ∷ left) [] = false
equal (a ∷ left) (b ∷ right) = a == b && equal left right

pub equal-same : (s t : Bytes) → (equal s t ≡ true) ↔ (s ≡ t)
unfolding equal
equal-same [] [] = ground arith
equal-same [] (d ∷ t) = ground arith
equal-same (c ∷ s) [] = ground arith
equal-same (c ∷ s) (d ∷ t) = let tails = equal-same s t in ground (arith, tails)

pub equal_self : (s : Bytes) → equal s s ≡ true
equal_self s = (equal-same s s).1 refl
