-- ===== src/Beacon/Updates.antt =====
-- `update` over time: which services a beacon reports and which it keeps.
use prime_server.Prelude.{
  ℕ, suc, ◌-◌, ◌≤◌, Option, none, some, List, [], ◌∷◌, ◌++◌, ltb, if◌then◌else◌, Bytes, ◌≡◌, refl,
  ap, ◌∙◌, All, Bool-cases, inl, inr,
}
use prime_server.Prelude.Maps.{bytes_key, find, find-concat}
use prime_server.Prelude.Effects.{value}
use prime_server.Beacon.{
  Services, Rehashes, purge_clique, after_join, update_read, update, read_frame,
}
use prime_server.Beacon.Members.{Member, is_member, recent, lapsed, checked_in, Apart, IsRoster}
use prime_server.Beacon.Rosters.{recent-IsRoster, checked_in-IsRoster, now-IsRoster, equal_sym}
use prime_server.Beacon.Containers.{represent, services_of, emplace_absent}
use prime_server.Beacon.Joins.{KeepsIterators, join_clique-represent}
use prime_server.Beacon.Purges.{gone, purge_loop-represent}

-- What `update` reads of a signal.
abbrev pub heard : Option (Bytes × Bytes) → Option (Bytes × Bytes)
heard none = none
heard (some (ip, frame)) = read_frame ip frame

-- The members after a check-in, the next node and who joined.
unfoldable pub after_check_in : ℕ → Option (Bytes × Bytes) → ℕ × List Member → ℕ × List Member
after_check_in now none (next, ms) = (next, ms)
after_check_in now (some (e, u)) (next, ms) = (suc next, checked_in now e u next ms)

unfoldable pub joined_by : Option (Bytes × Bytes) → List Member → Services
joined_by none ms = []
joined_by (some (e, u)) ms = if is_member e ms then [] else (e, u) ∷ []

-- One update of the members, and what it reports.
unfoldable pub next_members : ℕ → Option (Bytes × Bytes) → ℕ × List Member → ℕ × List Member
unfolding after_check_in
next_members now sig s = ((after_check_in now sig s).0, recent now 60 (after_check_in now sig s).1)

unfoldable pub report : ℕ → Option (Bytes × Bytes) → ℕ × List Member → Services × Services
unfolding after_check_in joined_by
report now sig s = (joined_by sig s.1, services_of (lapsed now 60 (after_check_in now sig s).1))

-- No service of `ds` has the endpoint of a member.
IsNew : Services → List Member → Type 0
IsNew dropped ms = All (λ m. find m.endpoint dropped ≡ none) ms

append-IsNew :
    (m : Member) (ms : List Member) (dropped : Services)
    → Apart m ms
    → IsNew dropped ms
    → IsNew (dropped ++ (m.endpoint, m.uuid) ∷ []) ms
unfolding IsNew
append-IsNew m [] dropped a new = tt
append-IsNew m (k ∷ ms) dropped a new = (
  rw (
    find-concat k.endpoint m.endpoint m.uuid dropped,
    new.0,
    equal_sym k.endpoint m.endpoint a.0.0,
  ),
  append-IsNew m ms dropped a.1 new.1,
)

++-assoc_one :
    (xs : Services) (x : Bytes × Bytes) (ys : Services) → (xs ++ x ∷ []) ++ ys ≡ xs ++ x ∷ ys
++-assoc_one [] x ys = refl
++-assoc_one (z ∷ xs) x ys = ap (◌∷◌ z) (++-assoc_one xs x ys)

++_nil : (xs : Services) → xs ≡ xs ++ []
++_nil [] = refl
++_nil (x ∷ xs) = ap (◌∷◌ x) (++_nil xs)

gone-lapsed :
    (next now now' max_age : ℕ) (ms : List Member) (dropped : Services)
    → IsRoster next now ms
    → IsNew dropped ms
    → gone now' max_age ms dropped ≡ dropped ++ services_of (lapsed now' max_age ms)
unfolding gone lapsed services_of IsNew
gone-lapsed next now now' max_age [] dropped r new = ++_nil dropped
gone-lapsed next now now' max_age (m ∷ ms) dropped r new =
    elim (Bool-cases (ltb (now' - m.time) max_age)) [
      | inl young ↦ rw young (++_nil dropped)
      | inr old ↦
          rw
            (
              old,
              emplace_absent m.endpoint m.uuid dropped new.0,
              ← ++-assoc_one dropped (m.endpoint, m.uuid) (services_of (lapsed now' max_age ms)),
            )
            (gone-lapsed next now now' max_age ms (dropped ++ (m.endpoint, m.uuid) ∷ []) r.4
              (append-IsNew m ms dropped r.0 new.1))
    ]

nil-IsNew : (ms : List Member) → IsNew [] ms
unfolding IsNew find
nil-IsNew [] = tt
nil-IsNew (m ∷ ms) = (refl, nil-IsNew ms)

purge_clique-represent :
    (next now now' : ℕ) (ms : List Member)
    → IsRoster next now ms
    → purge_clique now' 60 (represent next ms)
      ≡ value (services_of (lapsed now' 60 ms)) (represent next (recent now' 60 ms))
unfolding purge_clique
purge_clique-represent next now now' ms r =
    purge_loop-represent next now 60 now' ms _ [] r
    ∙ ap (λ d. value d (represent next (recent now' 60 ms)))
        (gone-lapsed next now now' 60 ms [] r (nil-IsNew ms))

update_read-represent :
    (rehashes : Rehashes) (next now now' : ℕ) (sig : Option (Bytes × Bytes)) (ms : List Member)
    → IsRoster next now ms
    → now ≤ now'
    → KeepsIterators rehashes
    → update_read rehashes now' sig (represent next ms)
      ≡ value
          (report now' sig (next, ms))
          (represent (next_members now' sig (next, ms)).0 (next_members now' sig (next, ms)).1)
unfolding update_read after_join report joined_by after_check_in next_members
update_read-represent rehashes next now now' none ms r h kept =
    rw (purge_clique-represent next now now' ms r)
update_read-represent rehashes next now now' (some (e, u)) ms r h kept =
    elim (Bool-cases (is_member e ms)) [
      | inl old ↦ rw (
        join_clique-represent rehashes next now now' e u ms kept r,
        old,
        purge_clique-represent (suc next) now' now' (checked_in now' e u next ms)
            (checked_in-IsRoster next now now' e u ms h r),
      )
      | inr new ↦ rw (
        join_clique-represent rehashes next now now' e u ms kept r,
        new,
        purge_clique-represent (suc next) now' now' (checked_in now' e u next ms)
            (checked_in-IsRoster next now now' e u ms h r),
      )
    ]

pub update-represent :
    (rehashes : Rehashes) (next now now' : ℕ) (sig : Option (Bytes × Bytes)) (ms : List Member)
    → IsRoster next now ms
    → now ≤ now'
    → KeepsIterators rehashes
    → update rehashes now' sig (represent next ms)
      ≡ value (report now' (heard sig) (next, ms)) (
          represent
            (next_members now' (heard sig) (next, ms)).0
            (next_members now' (heard sig) (next, ms)).1)
unfolding update
update-represent rehashes next now now' none ms r h kept =
    update_read-represent rehashes next now now' none ms r h kept
update-represent rehashes next now now' (some (ip, frame)) ms r h kept =
    update_read-represent rehashes next now now' (read_frame ip frame) ms r h kept

pub next_members-IsRoster :
    (next now now' : ℕ) (sig : Option (Bytes × Bytes)) (ms : List Member)
    → IsRoster next now ms
    → now ≤ now'
    → IsRoster (next_members now' sig (next, ms)).0 now' (next_members now' sig (next, ms)).1
unfolding next_members after_check_in
next_members-IsRoster next now now' none ms r h =
    recent-IsRoster next now' now' 60 ms (now-IsRoster next now now' ms h r)
next_members-IsRoster next now now' (some (e, u)) ms r h =
    recent-IsRoster (suc next) now' now' 60 (checked_in now' e u next ms)
      (checked_in-IsRoster next now now' e u ms h r)
