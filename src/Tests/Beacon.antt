-- ===== src/Tests/Beacon.antt =====
-- Runs of the beacon and its theorems at concrete inputs.
use prime_server.Prelude.{
  zero, suc, equal, true, false, ◌≡◌, refl, arith, All, none, some, [], ◌∷◌, Bytes, codes,
}
use prime_server.Prelude.Effects.{value, undefined}
use prime_server.Beacon.{
  Rehashes, update, update_read, join_clique, check_in, leave, erase_member, stale_after,
  after_join, purge_clique, purge_loop, zre_frame, read_frame, endpoint_of,
}
use prime_server.Beacon.Members.{IsYoung, is_member, lapsed, without, recent}
use prime_server.Beacon.Containers.{represent, services_of, card_of, clique_of}
use prime_server.Beacon.Updates.{report, next_members}
use prime_server.Beacon.Runs.{Events, updates, members_after, reports, last_time, updates-Members}
use prime_server.Beacon.Joins.{KeepsIterators}
use prime_server.Prelude.Maps.{find, emplace}
use prime_server.Beacon.Frames.{read_frame-zre_frame}

abbrev uuid : Bytes
uuid = codes "0123456789abcdef"

-- Two services; the first checks in twice, the second is not heard of again.
abbrev events : Events
events =
    (10, some (codes "10.0.0.1", zre_frame uuid 8001))
    ∷ (20, some (codes "10.0.0.2", zre_frame uuid 8002))
    ∷ (50, some (codes "10.0.0.1", zre_frame uuid 8001))
    ∷ (80, none)
    ∷ []

-- The second one is dropped at the end.
reports_run :
    reports events (0, [])
    ≡ ((codes "tcp://10.0.0.1:8001", uuid) ∷ [], [])
      ∷ ((codes "tcp://10.0.0.2:8002", uuid) ∷ [], [])
      ∷ ([], [])
      ∷ ([], (codes "tcp://10.0.0.2:8002", uuid) ∷ [])
      ∷ []
unfolding reports zre_frame read_frame report is_member services_of lapsed next_members without
    recent
reports_run = refl

-- Only the first insert makes room.
abbrev first_rehashes : Rehashes
first_rehashes node zero = true
first_rehashes node (suc k) = false

first_rehashes-KeepsIterators : KeepsIterators first_rehashes
first_rehashes-KeepsIterators node k = refl

-- A rehash while a service is there makes its next check-in undefined.
stale_run : updates (λ node count. true) events (represent 0 []) ≡ undefined
unfolding updates update update_read join_clique check_in leave erase_member stale_after zre_frame
    read_frame after_join purge_clique purge_loop find equal clique_of card_of emplace services_of
stale_run = refl

updates-Members_example :
    (updates first_rehashes events (represent 0 [])
      ≡ value
          (reports events (0, []))
          (represent (members_after events (0, [])).0 (members_after events (0, [])).1))
    × All (IsYoung (last_time 0 events) 60) (members_after events (0, [])).1
updates-Members_example =
    updates-Members first_rehashes events first_rehashes-KeepsIterators
      (omega arith, (omega arith, (omega arith, (omega arith, tt))))

read_frame-zre_frame_example :
    read_frame (codes "10.0.0.1") (zre_frame uuid 8001)
    ≡ some (endpoint_of (codes "10.0.0.1") 8001, uuid)
read_frame-zre_frame_example = read_frame-zre_frame (codes "10.0.0.1") uuid 8001 refl (omega arith)
