-- ===== src/Beacon/Purges.antt =====
-- The purge of the containers is one of the members.
use prime_server.Prelude.{
  ℕ, ◌-◌, some, List, [], ◌∷◌, ltb, if◌then◌else◌, Bytes, equal_self, ◌≡◌, refl, ap, ◌∙◌,
  Bool-cases, inl, inr,
}
use prime_server.Prelude.Maps.{nat_key, bytes_key, find, emplace, erase}
use prime_server.Prelude.Effects.{Exit, value}
use prime_server.Beacon.{Services, Clique, drop_member, purge_loop}
use prime_server.Beacon.Members.{Member, recent, Apart, IsRoster}
use prime_server.Beacon.Containers.{
  services_of, card_of, clique_of, represent, erase-services_of, erase-clique_of,
}
use prime_server.Beacon.Joins.{without_first}

-- Who is dropped.
unfoldable pub gone : ℕ → ℕ → List Member → Services → Services
gone now max_age [] dropped = dropped
gone now max_age (m ∷ ms) dropped =
    let rest = gone now max_age ms (emplace m.endpoint m.uuid dropped) in
    if ltb (now - m.time) max_age then dropped else rest

-- What the loop leaves when it drops the first member.
drop_first :
    (next : ℕ) (m : Member) (ms : List Member) (card : List (ℕ × (ℕ × Bytes)))
    → Apart m ms
    → record (record (represent next (m ∷ ms)) { punch_card = card }) {
      services = erase m.endpoint (services_of (m ∷ ms));
      clique = erase m.endpoint (clique_of (m ∷ ms));
    }
      ≡ record (represent next ms) { punch_card = card }
drop_first next m ms card a = rw (
  erase-services_of m.endpoint (m ∷ ms),
  erase-clique_of m.endpoint (m ∷ ms),
  without_first m ms a,
)

find_first : (m : Member) (ms : List Member) → find m.endpoint (services_of (m ∷ ms)) ≡ some m.uuid
unfolding find services_of
find_first m ms = rw (equal_self m.endpoint)

drop_member_first :
    (next : ℕ) (m : Member) (ms : List Member) (card : List (ℕ × (ℕ × Bytes))) (dropped : Services)
    (again : Clique → Services → Exit Clique Services)
    → Apart m ms
    → drop_member again m.endpoint
        (find m.endpoint (services_of (m ∷ ms)))
        (record (represent next (m ∷ ms)) { punch_card = card })
        dropped
      ≡ again (record (represent next ms) { punch_card = card }) (emplace m.endpoint m.uuid dropped)
unfolding drop_member
drop_member_first next m ms card dropped again a =
    rw (find_first m ms)
      (ap (λ c. again c (emplace m.endpoint m.uuid dropped)) (drop_first next m ms card a))

pub purge_loop-represent :
    (next now max_age now' : ℕ) (ms : List Member) (card : List (ℕ × (ℕ × Bytes)))
    (dropped : Services)
    → IsRoster next now ms
    → purge_loop now' max_age
        (card_of ms)
        (record (represent next ms) { punch_card = card })
        dropped
      ≡ value (gone now' max_age ms dropped) (represent next (recent now' max_age ms))
unfolding purge_loop gone recent card_of
purge_loop-represent next now max_age now' [] card dropped r = refl
purge_loop-represent next now max_age now' (m ∷ ms) card dropped r =
    elim (Bool-cases (ltb (now' - m.time) max_age)) [
      | inl young ↦ rw young
      | inr old ↦ rw old (
          drop_member_first next m ms card dropped (purge_loop now' max_age (card_of ms)) r.0
          ∙ purge_loop-represent next now max_age now' ms card (emplace m.endpoint m.uuid dropped)
              r.4)
    ]
