-- ===== src/Beacon.antt =====
-- src/zmq_helpers.cpp: `beacon_t`, which announces a service and keeps the list of the others that
-- announce themselves.
--
-- CZMQ's actor is the environment: `update` gets the address and the frame that it receives, if any.
-- The nodes of `punch_card` have addresses, numbers here. An iterator into `services`, an unordered
-- map, is the key it points to, as long as no insert has rehashed the map since: then its use is
-- undefined behaviour. `rehashes` says which inserts do, by the node of the check-in, which counts
-- the inserts, and the number of services that the map holds before it.
-- `now` is the clock of one `update`, which reads it twice. `htons` and `ntohs` put the high byte first.
pub mod Members
pub mod Rosters
pub mod Containers
pub mod Joins
pub mod Purges
pub mod Updates
pub mod Runs
pub mod Frames
use prime_server.Prelude.{
  ℕ, zero, suc, ◌+◌, ◌-◌, ◌*◌, ◌/◌, ◌%◌, Bool, true, false, not, ◌&&◌, Option, none, some, List, [],
  ◌∷◌, ◌++◌, ltb, ◌==◌, if◌then◌else◌, length, take, drop, get_or, Bytes, codes, equal,
}
use prime_server.Prelude.Maps.{Key, nat_key, bytes_key, find, emplace, erase}
use prime_server.Prelude.Effects.{Exit, value, raised, undefined}
use prime_server.Stdlib.{to_string}

abbrev pub Services : Type 0
Services = List (Bytes × Bytes)

-- The members of `cheshire_cat_t` about others.
pub record Clique : Type 0 where
  pub services : Services
  -- the time and the service of each check-in
  pub punch_card : List (ℕ × (ℕ × Bytes))
  pub clique : List (Bytes × ℕ)
  pub next_node : ℕ
  -- the services to which the iterators are invalid
  pub stale : List Bytes

abbrev pub nobody : Clique
nobody = record { services = []; punch_card = []; clique = []; next_node = 0; stale = [] }

abbrev pub Rehashes : Type 0
Rehashes = ℕ → ℕ → Bool

abbrev pub is_stale : Bytes → List Bytes → Bool
is_stale endpoint [] = false
is_stale endpoint (s ∷ stale) = if equal s endpoint then true else is_stale endpoint stale

abbrev pub endpoints : Services → List Bytes
endpoints [] = []
endpoints ((endpoint, uuid) ∷ services) = endpoint ∷ endpoints services

-- What is stale after the insert of a node.
unfoldable pub stale_after : Rehashes → ℕ → Services → List Bytes → List Bytes
stale_after rehashes node services stale =
    if rehashes node (length services) then endpoints services else stale

-- The last check-in of a member is erased; the argument is what its node holds.
unfoldable pub erase_member : Bytes → ℕ → Clique → Option (ℕ × Bytes) → Exit Clique Bool
erase_member endpoint node c none = undefined
erase_member endpoint node c (some (time, service)) =
    if is_stale service c.stale
    then undefined
    else value false (record c {
      services = erase service c.services;
      punch_card = erase node c.punch_card;
      clique = erase endpoint c.clique;
    })

-- Whether it joined is the result.
unfoldable pub leave : Bytes → Clique → Option ℕ → Exit Clique Bool
unfolding erase_member
leave endpoint c none = value true c
leave endpoint c (some node) = erase_member endpoint node c (find node c.punch_card)

unfoldable pub check_in : Rehashes → ℕ → Bytes → Bytes → Exit Clique Bool → Exit Clique Bool
unfolding stale_after
check_in rehashes now endpoint uuid (value joined c) = value joined (record c {
  services = emplace endpoint uuid c.services;
  punch_card = c.punch_card ++ (c.next_node, (now, endpoint)) ∷ [];
  clique = emplace endpoint c.next_node c.clique;
  next_node = suc c.next_node;
  stale = stale_after rehashes c.next_node c.services c.stale;
})
check_in rehashes now endpoint uuid (raised c) = raised c
check_in rehashes now endpoint uuid undefined = undefined

unfoldable pub join_clique : Rehashes → ℕ → Bytes → Bytes → Clique → Exit Clique Bool
unfolding leave check_in
join_clique rehashes now endpoint uuid c =
    check_in rehashes now endpoint uuid (leave endpoint c (find endpoint c.clique))

-- The loop over the card, at what is left of it; `service` is what the iterator points to.
unfoldable pub drop_member :
    (Clique → Services → Exit Clique Services)
    → Bytes
    → Option Bytes
    → Clique
    → Services
    → Exit Clique Services
drop_member again endpoint none c dropped = undefined
drop_member again endpoint (some uuid) c dropped =
    if is_stale endpoint c.stale
    then undefined
    else again (record c { services = erase endpoint c.services; clique = erase endpoint c.clique })
        (emplace endpoint uuid dropped)

unfoldable pub purge_loop :
    ℕ → ℕ → List (ℕ × (ℕ × Bytes)) → Clique → Services → Exit Clique Services
unfolding drop_member
purge_loop now max_age [] c dropped = value dropped (record c { punch_card = [] })
purge_loop now max_age ((node, (time, service)) ∷ rest) c dropped =
    if ltb (now - time) max_age
    then value dropped (record c { punch_card = (node, (time, service)) ∷ rest })
    else drop_member (purge_loop now max_age rest) service (find service c.services) c dropped

unfoldable pub purge_clique : ℕ → ℕ → Clique → Exit Clique Services
unfolding purge_loop
purge_clique now max_age c = purge_loop now max_age c.punch_card c []

abbrev pub header : Bytes
header = codes "ZRE" ++ 1 ∷ []

-- The frame that `broadcast` publishes.
unfoldable pub zre_frame : Bytes → ℕ → Bytes
zre_frame uuid port = header ++ (uuid ++ port / 256 % 256 ∷ port % 256 ∷ [])

unfoldable pub endpoint_of : Bytes → ℕ → Bytes
unfolding to_string
endpoint_of ip port = codes "tcp://" ++ (ip ++ (b':' ∷ to_string port))

-- The endpoint and the uuid of a frame of the right size and header.
unfoldable pub read_frame : Bytes → Bytes → Option (Bytes × Bytes)
unfolding endpoint_of equal
read_frame ip frame =
    if length frame == 22 && equal (take 4 frame) header
    then some (endpoint_of ip (get_or frame 20 0 * 256 + get_or frame 21 0), take 16 (drop 4 frame))
    else none

abbrev pub purged : Services → Exit Clique Services → Exit Clique (Services × Services)
purged joined (value dropped c) = value (joined, dropped) c
purged joined (raised c) = raised c
purged joined undefined = undefined

unfoldable pub after_join : ℕ → Bytes → Bytes → Exit Clique Bool → Exit Clique (Services × Services)
unfolding purge_clique
after_join now endpoint uuid (value true c) = purged ((endpoint, uuid) ∷ []) (purge_clique now 60 c)
after_join now endpoint uuid (value false c) = purged [] (purge_clique now 60 c)
after_join now endpoint uuid (raised c) = raised c
after_join now endpoint uuid undefined = undefined

unfoldable pub update_read :
    Rehashes → ℕ → Option (Bytes × Bytes) → Clique → Exit Clique (Services × Services)
unfolding join_clique after_join purge_clique
update_read rehashes now none c = purged [] (purge_clique now 60 c)
update_read rehashes now (some (endpoint, uuid)) c =
    after_join now endpoint uuid (join_clique rehashes now endpoint uuid c)

-- `update`: who joined and who was dropped. The argument is what was received.
unfoldable pub update :
    Rehashes → ℕ → Option (Bytes × Bytes) → Clique → Exit Clique (Services × Services)
unfolding update_read read_frame
update rehashes now none c = update_read rehashes now none c
update rehashes now (some (ip, frame)) c = update_read rehashes now (read_frame ip frame) c
