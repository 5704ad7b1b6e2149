-- ===== src/Beacon/Containers.antt =====
-- The containers of `beacon_t` as one list of members.
use prime_server.Prelude.{
  ℕ, none, List, [], ◌∷◌, ◌++◌, Bytes, equal, ◌≡◌, refl, ap, Bool-cases, inl, inr,
}
use prime_server.Prelude.Maps.{nat_key, bytes_key, find, emplace, erase, Key}
use prime_server.Beacon.{Services, Clique}
use prime_server.Beacon.Members.{Member, without}

-- The containers of a list of members.
unfoldable pub services_of : List Member → Services
services_of [] = []
services_of (m ∷ ms) = (m.endpoint, m.uuid) ∷ services_of ms

unfoldable pub card_of : List Member → List (ℕ × (ℕ × Bytes))
card_of [] = []
card_of (m ∷ ms) = (m.node, (m.time, m.endpoint)) ∷ card_of ms

unfoldable pub clique_of : List Member → List (Bytes × ℕ)
clique_of [] = []
clique_of (m ∷ ms) = (m.endpoint, m.node) ∷ clique_of ms

abbrev pub represent : ℕ → List Member → Clique
represent next ms = record {
  services = services_of ms;
  punch_card = card_of ms;
  clique = clique_of ms;
  next_node = next;
  stale = [];
}

pub emplace_absent :
    {K V : Type 0} ⦃k : Key K⦄ (a : K) (v : V) (m : List (K × V))
    → find a m ≡ none
    → emplace a v m ≡ m ++ (a, v) ∷ []
unfolding find emplace
emplace_absent ⦃k⦄ a v [] h = refl
emplace_absent ⦃k⦄ a v ((b, w) ∷ m) h = elim (Bool-cases (k.same b a)) [
  | inl e ↦ absurd (cc (rw e at h))
  | inr e ↦ rw e (ap (◌∷◌ (b, w)) (emplace_absent a v m (rw e at h)))
]

pub erase-services_of :
    (e : Bytes) (ms : List Member) → erase e (services_of ms) ≡ services_of (without e ms)
unfolding erase services_of without
erase-services_of e [] = refl
erase-services_of e (m ∷ ms) = elim (Bool-cases (equal m.endpoint e)) [
  | inl h ↦ rw h (erase-services_of e ms)
  | inr h ↦ rw h (ap (◌∷◌ (m.endpoint, m.uuid)) (erase-services_of e ms))
]

pub erase-clique_of :
    (e : Bytes) (ms : List Member) → erase e (clique_of ms) ≡ clique_of (without e ms)
unfolding erase clique_of without
erase-clique_of e [] = refl
erase-clique_of e (m ∷ ms) = elim (Bool-cases (equal m.endpoint e)) [
  | inl h ↦ rw h (erase-clique_of e ms)
  | inr h ↦ rw h (ap (◌∷◌ (m.endpoint, m.node)) (erase-clique_of e ms))
]

pub services_of-append :
    (ms : List Member) (m : Member)
    → services_of (ms ++ m ∷ []) ≡ services_of ms ++ (m.endpoint, m.uuid) ∷ []
unfolding services_of
services_of-append [] m = refl
services_of-append (k ∷ ms) m = ap (◌∷◌ (k.endpoint, k.uuid)) (services_of-append ms m)

pub card_of-append :
    (ms : List Member) (m : Member)
    → card_of (ms ++ m ∷ []) ≡ card_of ms ++ (m.node, (m.time, m.endpoint)) ∷ []
unfolding card_of
card_of-append [] m = refl
card_of-append (k ∷ ms) m = ap (◌∷◌ (k.node, (k.time, k.endpoint))) (card_of-append ms m)

pub clique_of-append :
    (ms : List Member) (m : Member)
    → clique_of (ms ++ m ∷ []) ≡ clique_of ms ++ (m.endpoint, m.node) ∷ []
unfolding clique_of
clique_of-append [] m = refl
clique_of-append (k ∷ ms) m = ap (◌∷◌ (k.endpoint, k.node)) (clique_of-append ms m)
