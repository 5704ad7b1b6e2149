-- ===== src/Beacon/Members.antt =====
-- What a beacon promises: a list of members by the time they last checked in.
use prime_server.Prelude.{
  ℕ, ◌-◌, ◌≤◌, ◌<◌, Bool, true, false, List, [], ◌∷◌, ◌++◌, ltb, if◌then◌else◌, Bytes, equal, ◌≡◌,
  ◌≢◌, All,
}

pub record Member : Type 0 where
  pub endpoint : Bytes
  pub uuid : Bytes
  pub time : ℕ
  pub node : ℕ

-- All but the members of an endpoint.
unfoldable pub without : Bytes → List Member → List Member
without e [] = []
without e (m ∷ ms) = let rest = without e ms in if equal m.endpoint e then rest else m ∷ rest

unfoldable pub is_member : Bytes → List Member → Bool
is_member e [] = false
is_member e (m ∷ ms) = if equal m.endpoint e then true else is_member e ms

-- Those from the first on that checked in less than `max_age` ago.
unfoldable pub recent : ℕ → ℕ → List Member → List Member
recent now max_age [] = []
recent now max_age (m ∷ ms) =
    let rest = recent now max_age ms in if ltb (now - m.time) max_age then m ∷ ms else rest

-- An endpoint checks in: it goes to the end.
abbrev pub checked_in : ℕ → Bytes → Bytes → ℕ → List Member → List Member
checked_in now e u node ms =
    without e ms ++ record { endpoint = e; uuid = u; time = now; node = node } ∷ []

abbrev pub Apart : Member → List Member → Type 0
Apart m ms = All (λ k. (equal k.endpoint m.endpoint ≡ false) × (k.node ≢ m.node)) ms

-- Endpoints and nodes are different, nodes are old, and times ascend up to the clock.
abbrev pub IsRoster : ℕ → ℕ → List Member → Type 0
IsRoster next now [] = Unit
IsRoster next now (m ∷ ms) =
    Apart m ms
    × (m.node < next)
    × (m.time ≤ now)
    × All (λ k. m.time ≤ k.time) ms
    × IsRoster next now ms

-- Those before them.
unfoldable pub lapsed : ℕ → ℕ → List Member → List Member
lapsed now max_age [] = []
lapsed now max_age (m ∷ ms) =
    let rest = lapsed now max_age ms in if ltb (now - m.time) max_age then [] else m ∷ rest

abbrev pub IsYoung : ℕ → ℕ → Member → Type 0
IsYoung now max_age m = now - m.time < max_age
