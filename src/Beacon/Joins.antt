-- ===== src/Beacon/Joins.antt =====
-- A check-in of the containers is one of the members.
use prime_server.Prelude.{
  ℕ, suc, Bool, true, false, not, Option, none, some, List, [], ◌∷◌, if◌then◌else◌, Bytes, equal,
  equal_self, equal-same, length, ◌≡◌, ◌≢◌, refl, sym, ap, ◌∙◌, subst, Bool-cases, Option-cases,
  inl, inr, ==_self,
}
use prime_server.Prelude.Maps.{nat_key, bytes_key, find, erase, find-erase_self, ne_same}
use prime_server.Prelude.Effects.{value}
use prime_server.Beacon.{
  Services, Rehashes, stale_after, erase_member, leave, check_in, join_clique,
}
use prime_server.Beacon.Members.{Member, without, is_member, checked_in, Apart, IsRoster}
use prime_server.Beacon.Containers.{
  services_of, card_of, clique_of, represent, emplace_absent, erase-services_of, erase-clique_of,
  services_of-append, card_of-append, clique_of-append,
}

-- The member of an endpoint.
lookup : Bytes → List Member → Option Member
lookup e [] = none
lookup e (m ∷ ms) = if equal m.endpoint e then some m else lookup e ms

abbrev node_of : Option Member → Option ℕ
node_of none = none
node_of (some m) = some m.node

find-clique_of : (e : Bytes) (ms : List Member) → find e (clique_of ms) ≡ node_of (lookup e ms)
unfolding find clique_of lookup
find-clique_of e [] = refl
find-clique_of e (m ∷ ms) = elim (Bool-cases (equal m.endpoint e)) [
  | inl h ↦ rw h
  | inr h ↦ rw h (find-clique_of e ms)
]

abbrev is_found : Option Member → Bool
is_found none = false
is_found (some m) = true

is_member-lookup : (e : Bytes) (ms : List Member) → is_member e ms ≡ is_found (lookup e ms)
unfolding is_member lookup
is_member-lookup e [] = refl
is_member-lookup e (m ∷ ms) = elim (Bool-cases (equal m.endpoint e)) [
  | inl h ↦ rw h
  | inr h ↦ rw h (is_member-lookup e ms)
]

without_absent : (e : Bytes) (ms : List Member) → lookup e ms ≡ none → without e ms ≡ ms
unfolding without lookup
without_absent e [] h = refl
without_absent e (m ∷ ms) h = elim (Bool-cases (equal m.endpoint e)) [
  | inl k ↦ absurd (cc (rw k at h))
  | inr k ↦ rw k (ap (◌∷◌ m) (without_absent e ms (rw k at h)))
]

without-Apart : (m : Member) (ms : List Member) → Apart m ms → without m.endpoint ms ≡ ms
unfolding without
without-Apart m [] a = refl
without-Apart m (k ∷ ms) a = rw (a.0.0) (ap (◌∷◌ k) (without-Apart m ms a.1))

erase-Apart : (m : Member) (ms : List Member) → Apart m ms → erase m.node (card_of ms) ≡ card_of ms
unfolding erase card_of
erase-Apart m [] a = refl
erase-Apart m (k ∷ ms) a =
    rw (ne_same k.node m.node a.0.1)
      (ap (◌∷◌ (k.node, (k.time, k.endpoint))) (erase-Apart m ms a.1))

lookup-Apart :
    (m k : Member) (e : Bytes) (ms : List Member)
    → Apart m ms
    → lookup e ms ≡ some k
    → k.node ≢ m.node
unfolding lookup
lookup-Apart m k e [] a h = absurd (cc h)
lookup-Apart m k e (x ∷ ms) a h = elim (Bool-cases (equal x.endpoint e)) [
  | inl t ↦
      let found : some x ≡ some k = rw t at h in
      let same : x ≡ k = cc found in subst (λ y. y.node ≢ m.node) same a.0.1
  | inr t ↦ lookup-Apart m k e ms a.1 (rw t at h)
]

-- The node of a member holds its endpoint.
find-card_of :
    (next now : ℕ) (e : Bytes) (k : Member) (ms : List Member)
    → IsRoster next now ms
    → lookup e ms ≡ some k
    → find k.node (card_of ms) ≡ some (k.time, e)
unfolding find card_of lookup
find-card_of next now e k [] r h = absurd (cc h)
find-card_of next now e k (m ∷ ms) r h = elim (Bool-cases (equal m.endpoint e)) [
  | inl t ↦
      let found : some m ≡ some k = rw t at h in
      let same : m ≡ k = cc found in
      let named : m.endpoint ≡ e = (equal-same m.endpoint e).0 t in
      rw (← same, ==_self m.node, named)
  | inr t ↦
      let found : lookup e ms ≡ some k = rw t at h in
      rw (ne_same m.node k.node (λ n. lookup-Apart m k e ms r.0 found (sym n)))
        (find-card_of next now e k ms r.4 found)
]

pub without_first : (m : Member) (ms : List Member) → Apart m ms → without m.endpoint (m ∷ ms) ≡ ms
unfolding without
without_first m ms a = rw (equal_self m.endpoint) (without-Apart m ms a)

erase_first :
    (m : Member) (ms : List Member) → Apart m ms → erase m.node (card_of (m ∷ ms)) ≡ card_of ms
unfolding erase card_of
erase_first m ms a = rw (==_self m.node) (erase-Apart m ms a)

-- Erasing its node erases the member.
erase-card_of :
    (next now : ℕ) (e : Bytes) (k : Member) (ms : List Member)
    → IsRoster next now ms
    → lookup e ms ≡ some k
    → erase k.node (card_of ms) ≡ card_of (without e ms)
unfolding erase card_of lookup without
erase-card_of next now e k [] r h = absurd (cc h)
erase-card_of next now e k (m ∷ ms) r h = elim (Bool-cases (equal m.endpoint e)) [
  | inl t ↦
      let found : some m ≡ some k = rw t at h in
      let same : m ≡ k = cc found in
      let named : m.endpoint ≡ e = (equal-same m.endpoint e).0 t in
      subst (λ y. erase y.node (card_of (m ∷ ms)) ≡ card_of (without e (m ∷ ms))) same
        (subst (λ n. erase m.node (card_of (m ∷ ms)) ≡ card_of (without n (m ∷ ms))) named
          (erase_first m ms r.0 ∙ sym (ap card_of (without_first m ms r.0))))
  | inr t ↦
      let found : lookup e ms ≡ some k = rw t at h in
      rw (t, ne_same m.node k.node (λ n. lookup-Apart m k e ms r.0 found (sym n)))
        (ap (◌∷◌ (m.node, (m.time, m.endpoint))) (erase-card_of next now e k ms r.4 found))
]

leave-represent :
    (next now : ℕ) (e : Bytes) (ms : List Member)
    → IsRoster next now ms
    → leave e (represent next ms) (find e (clique_of ms))
      ≡ value (not (is_member e ms)) (represent next (without e ms))
unfolding leave erase_member
leave-represent next now e ms r = elim (Option-cases (lookup e ms)) [
  | inl missing ↦
      rw (find-clique_of e ms, is_member-lookup e ms, missing, without_absent e ms missing)
  | inr (k, there) ↦ rw (
    find-clique_of e ms,
    is_member-lookup e ms,
    there,
    find-card_of next now e k ms r there,
    erase-services_of e ms,
    erase-clique_of e ms,
    erase-card_of next now e k ms r there,
  )
]

-- No insert rehashes the map while it holds a service.
abbrev pub KeepsIterators : Rehashes → Type 0
KeepsIterators rehashes = (node k : ℕ) → rehashes node (suc k) ≡ false

stale_after-nil :
    (rehashes : Rehashes) (node : ℕ) (services : Services)
    → KeepsIterators rehashes
    → stale_after rehashes node services [] ≡ []
unfolding stale_after
stale_after-nil rehashes node [] kept = elim (Bool-cases (rehashes node 0)) [
  | inl h ↦ rw h
  | inr h ↦ rw h
]
stale_after-nil rehashes node (s ∷ services) kept = rw (kept node (length services))

pub join_clique-represent :
    (rehashes : Rehashes) (next now now' : ℕ) (e u : Bytes) (ms : List Member)
    → KeepsIterators rehashes
    → IsRoster next now ms
    → join_clique rehashes now' e u (represent next ms)
      ≡ value (not (is_member e ms)) (represent (suc next) (checked_in now' e u next ms))
unfolding join_clique check_in
join_clique-represent rehashes next now now' e u ms kept r =
    let services = find-erase_self e (services_of ms) in
    let clique = find-erase_self e (clique_of ms) in
    let member : Member = record { endpoint = e; uuid = u; time = now'; node = next } in
    rw (
      leave-represent next now e ms r,
      emplace_absent e u (services_of (without e ms)) (rw (erase-services_of e ms) at services),
      emplace_absent e next (clique_of (without e ms)) (rw (erase-clique_of e ms) at clique),
      services_of-append (without e ms) member,
      card_of-append (without e ms) member,
      clique_of-append (without e ms) member,
      stale_after-nil rehashes next (services_of (without e ms)) kept,
    )
