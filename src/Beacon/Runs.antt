-- ===== src/Beacon/Runs.antt =====
-- Any number of updates, from the start of a beacon.
use prime_server.Prelude.{ℕ, suc, ◌≤◌, Option, none, some, List, [], ◌∷◌, Bytes, ◌≡◌, refl, All}
use prime_server.Prelude.Maps.{bytes_key}
use prime_server.Prelude.Effects.{Exit, value, raised, undefined}
use prime_server.Beacon.{Services, Clique, Rehashes, update}
use prime_server.Beacon.Members.{Member, checked_in, IsRoster, IsYoung}
use prime_server.Beacon.Rosters.{recent-IsYoung, checked_in-IsRoster}
use prime_server.Beacon.Containers.{represent}
use prime_server.Beacon.Joins.{KeepsIterators}
use prime_server.Beacon.Updates.{
  heard, after_check_in, next_members, report, update-represent, next_members-IsRoster,
}

-- What each update got, with the clock, the first first.
abbrev pub Events : Type 0
Events = List (ℕ × Option (Bytes × Bytes))

abbrev pub and_then :
    (Clique → Exit Clique (List (Services × Services)))
    → Exit Clique (Services × Services)
    → Exit Clique (List (Services × Services))
and_then rest (value x c) = elim (rest c) [
  | value xs d ↦ value (x ∷ xs) d
  | raised d ↦ raised d
  | undefined ↦ undefined
]
and_then rest (raised c) = raised c
and_then rest undefined = undefined

unfoldable pub updates : Rehashes → Events → Clique → Exit Clique (List (Services × Services))
updates rehashes [] c = value [] c
updates rehashes ((now, sig) ∷ events) c =
    and_then (updates rehashes events) (update rehashes now sig c)

-- The same for a list of members.
unfoldable pub members_after : Events → ℕ × List Member → ℕ × List Member
members_after [] s = s
members_after ((now, sig) ∷ events) s = members_after events (next_members now (heard sig) s)

unfoldable pub reports : Events → ℕ × List Member → List (Services × Services)
reports [] s = []
reports ((now, sig) ∷ events) s =
    report now (heard sig) s ∷ reports events (next_members now (heard sig) s)

-- The clock does not go back.
abbrev pub Ascends : ℕ → Events → Type 0
Ascends now [] = Unit
Ascends now ((now', sig) ∷ events) = (now ≤ now') × Ascends now' events

abbrev pub last_time : ℕ → Events → ℕ
last_time now [] = now
last_time now ((now', sig) ∷ events) = last_time now' events

next_members-IsYoung :
    (next now now' : ℕ) (sig : Option (Bytes × Bytes)) (ms : List Member)
    → IsRoster next now ms
    → now ≤ now'
    → All (IsYoung now' 60) (next_members now' sig (next, ms)).1
unfolding next_members after_check_in
next_members-IsYoung next now now' none ms r h = recent-IsYoung next now now' 60 ms r
next_members-IsYoung next now now' (some (e, u)) ms r h =
    recent-IsYoung (suc next) now' now' 60 (checked_in now' e u next ms)
      (checked_in-IsRoster next now now' e u ms h r)

updates-represent :
    (rehashes : Rehashes) (events : Events) (next now : ℕ) (ms : List Member)
    → IsRoster next now ms
    → Ascends now events
    → KeepsIterators rehashes
    → updates rehashes events (represent next ms)
      ≡ value
          (reports events (next, ms))
          (represent (members_after events (next, ms)).0 (members_after events (next, ms)).1)
unfolding updates reports members_after
updates-represent rehashes [] next now ms r a kept = refl
updates-represent rehashes ((now', sig) ∷ events) next now ms r (h, a) kept =
    let s = next_members now' (heard sig) (next, ms) in
    rw (
      update-represent rehashes next now now' sig ms r h kept,
      updates-represent rehashes events s.0 now' s.1
          (next_members-IsRoster next now now' (heard sig) ms r h) a kept,
    )

members_after-IsYoung :
    (events : Events) (next now : ℕ) (ms : List Member)
    → IsRoster next now ms
    → All (IsYoung now 60) ms
    → Ascends now events
    → All (IsYoung (last_time now events) 60) (members_after events (next, ms)).1
unfolding members_after
members_after-IsYoung [] next now ms r y a = y
members_after-IsYoung ((now', sig) ∷ events) next now ms r y (h, a) =
    let s = next_members now' (heard sig) (next, ms) in
    members_after-IsYoung events s.0 now' s.1
      (next_members-IsRoster next now now' (heard sig) ms r h)
      (next_members-IsYoung next now now' (heard sig) ms r h) a

-- If no insert rehashes the map of the services while it holds one, then from the start of a beacon,
-- any number of updates whose clock does not go back end without the use of an invalid iterator and
-- without an exception; they report who joined and who was dropped, and leave the
-- three containers, as the list of members does that keeps the time of each endpoint's last
-- check-in; and every member that is left checked in less than 60 seconds before the last update.
pub updates-Members :
    (rehashes : Rehashes) (events : Events)
    → KeepsIterators rehashes
    → Ascends 0 events
    → (updates rehashes events (represent 0 [])
        ≡ value
            (reports events (0, []))
            (represent (members_after events (0, [])).0 (members_after events (0, [])).1))
      × All (IsYoung (last_time 0 events) 60) (members_after events (0, [])).1
updates-Members rehashes events kept a = (
  updates-represent rehashes events 0 0 [] tt a kept,
  members_after-IsYoung events 0 0 [] tt tt a,
)
