-- ===== src/Beacon/Rosters.antt =====
-- A roster stays one: a check-in, and the end of those that did not check in lately.
use prime_server.Prelude.{
  ℕ, suc, ◌-◌, ◌≤◌, ◌<◌, false, List, [], ◌∷◌, ◌++◌, ltb, Bytes, equal, ◌≡◌, sym, arith, All,
  All-append, Bool-cases, inl, inr, ltb→lt,
}
use prime_server.Prelude.Maps.{bytes_key, same_ne, ne_same}
use prime_server.Beacon.Members.{Member, without, recent, checked_in, IsRoster, IsYoung}

pub equal_sym : (a b : Bytes) → equal a b ≡ false → equal b a ≡ false
equal_sym a b h = ne_same b a (λ e. same_ne a b h (sym e))

All-without : (P : Member → Type 0) (e : Bytes) (ms : List Member) → All P ms → All P (without e ms)
unfolding without
All-without P e [] a = a
All-without P e (m ∷ ms) a = elim (Bool-cases (equal m.endpoint e)) [
  | inl t ↦ rw t (All-without P e ms a.1)
  | inr t ↦ rw t (a.0, All-without P e ms a.1)
]

All-map :
    {P Q : Member → Type 0} (ms : List Member) → ((m : Member) → P m → Q m) → All P ms → All Q ms
All-map [] f a = a
All-map (m ∷ ms) f a = (f m a.0, All-map ms f a.1)

without-absent :
    (e : Bytes) (ms : List Member) → All (λ m. equal m.endpoint e ≡ false) (without e ms)
unfolding without
without-absent e [] = tt
without-absent e (m ∷ ms) = elim (Bool-cases (equal m.endpoint e)) [
  | inl t ↦ rw t (without-absent e ms)
  | inr t ↦ rw t (t, without-absent e ms)
]

without-IsRoster :
    (next now : ℕ) (e : Bytes) (ms : List Member)
    → IsRoster next now ms
    → IsRoster next now (without e ms)
unfolding without
without-IsRoster next now e [] r = r
without-IsRoster next now e (m ∷ ms) (apart, old, past, later, rest) =
    elim (Bool-cases (equal m.endpoint e)) [
      | inl t ↦ rw t (without-IsRoster next now e ms rest)
      | inr t ↦ rw t (
        All-without _ e ms apart,
        old,
        past,
        All-without _ e ms later,
        without-IsRoster next now e ms rest,
      )
    ]

pub recent-IsRoster :
    (next now now' max_age : ℕ) (ms : List Member)
    → IsRoster next now ms
    → IsRoster next now (recent now' max_age ms)
unfolding recent
recent-IsRoster next now now' max_age [] r = r
recent-IsRoster next now now' max_age (m ∷ ms) r = elim (Bool-cases (ltb (now' - m.time) max_age)) [
  | inl t ↦ rw t r
  | inr t ↦ rw t (recent-IsRoster next now now' max_age ms r.4)
]

pub now-IsRoster :
    (next now now' : ℕ) (ms : List Member)
    → now ≤ now'
    → IsRoster next now ms
    → IsRoster next now' ms
now-IsRoster next now now' [] h r = r
now-IsRoster next now now' (m ∷ ms) h (apart, old, past, later, rest) =
    (apart, old, omega arith, later, now-IsRoster next now now' ms h rest)

IsRoster-append :
    (next now : ℕ) (e u : Bytes) (ms : List Member)
    → IsRoster next now ms
    → All (λ m. equal m.endpoint e ≡ false) ms
    → IsRoster
        (suc next)
        now
        (ms ++ record { endpoint = e; uuid = u; time = now; node = next } ∷ [])
IsRoster-append next now e u [] r a = (tt, omega arith, omega arith, tt, tt)
IsRoster-append next now e u (m ∷ ms) (apart, old, past, later, rest) (this, others) = (
  All-append _ ms _ apart ((equal_sym m.endpoint e this, λ same. omega arith), tt),
  omega arith,
  past,
  All-append _ ms _ later (past, tt),
  IsRoster-append next now e u ms rest others,
)

pub checked_in-IsRoster :
    (next now now' : ℕ) (e u : Bytes) (ms : List Member)
    → now ≤ now'
    → IsRoster next now ms
    → IsRoster (suc next) now' (checked_in now' e u next ms)
checked_in-IsRoster next now now' e u ms h r =
    IsRoster-append next now' e u (without e ms)
      (without-IsRoster next now' e ms (now-IsRoster next now now' ms h r)) (without-absent e ms)

-- Who is left checked in lately.
pub recent-IsYoung :
    (next now now' max_age : ℕ) (ms : List Member)
    → IsRoster next now ms
    → All (IsYoung now' max_age) (recent now' max_age ms)
unfolding recent
recent-IsYoung next now now' max_age [] r = tt
recent-IsYoung next now now' max_age (m ∷ ms) r = elim (Bool-cases (ltb (now' - m.time) max_age)) [
  | inl t ↦
      let young : now' - m.time < max_age = ltb→lt _ _ t in
      rw t (young, All-map ms (λ k later. omega arith) r.3)
  | inr t ↦ rw t (recent-IsYoung next now now' max_age ms r.4)
]
