-- ===== src/Proxy.antt =====
-- src/prime_server.cpp: `proxy_t`, which hands jobs to the workers that said they are idle.
--
-- The nodes of `std::list fifo` have addresses, numbers here: `fifo` pairs each with the heart beat
-- that it holds, `workers` maps a worker's identity to its node, and `heart_beats` maps the address
-- back. `next_node` is an address that no node has had. `choose` is the application's function on
-- the fifo and the job; what it returns need not be the address of a node. `deliver` is ZeroMQ.
pub mod Links
use prime_server.Prelude.{
  ℕ, suc, ◌+◌, Bool, true, false, Option, none, some, List, [], ◌∷◌, ◌++◌, Bytes,
}
use prime_server.Prelude.Maps.{Key, nat_key, bytes_key, find, emplace, assign, erase}
use prime_server.Prelude.Effects.{Exit, value, raised, undefined, M, caught, try_log, return}

-- A job goes out whole, or in part at most, which is logged, or the socket throws.
pub data Delivery : Type 0 where
  delivered refused throws : Delivery

pub record Proxy : Type 0 where
  pub fifo : List (ℕ × Bytes)
  pub workers : List (Bytes × ℕ)
  pub heart_beats : List (ℕ × Bytes)
  pub next_node : ℕ
  -- the jobs that went out, with their workers, the latest first
  pub forwarded : List (Bytes × List Bytes)

abbrev pub idle_proxy : Proxy
idle_proxy = record { fifo = []; workers = []; heart_beats = []; next_node = 0; forwarded = [] }

-- `expire`: how many of the sockets are polled; without an idle worker only the workers' one.
unfoldable pub expire : Proxy → ℕ
expire p = elim p.fifo [ [] ↦ 1 | _ ∷ _ ↦ 2 ]

-- A worker is bored; the argument is its node, if it is known.
unfoldable pub record_heart_beat : Bytes → Bytes → Option ℕ → Proxy → Proxy
record_heart_beat address beat none p = record p {
  fifo = p.fifo ++ (p.next_node, beat) ∷ [];
  workers = emplace address p.next_node p.workers;
  heart_beats = emplace p.next_node address p.heart_beats;
  next_node = suc p.next_node;
}
record_heart_beat address beat (some node) p = record p { fifo = assign node beat p.fifo }

-- A message of a worker; one of a single part makes the source read past the end of the list.
unfoldable pub handle_heart_beat : List Bytes → M Proxy (Unit {0})
unfolding record_heart_beat
handle_heart_beat (address ∷ beat ∷ _) p =
    value tt (record_heart_beat address beat (find address p.workers) p)
handle_heart_beat _ p = undefined

-- The worker of a node, and the node: the chosen one, or else the first of the fifo.
unfoldable pub owner_of : ℕ → Option Bytes → Option (ℕ × Bytes)
owner_of node none = none
owner_of node (some address) = some (node, address)

unfoldable pub front_worker : Proxy → List (ℕ × Bytes) → Option (ℕ × Bytes)
unfolding owner_of
front_worker p [] = none
front_worker p ((node, _) ∷ _) = owner_of node (find node p.heart_beats)

unfoldable pub owner_or_front : Proxy → ℕ → Option Bytes → Option (ℕ × Bytes)
unfolding front_worker
owner_or_front p node none = front_worker p p.fifo
owner_or_front p node (some address) = some (node, address)

unfoldable pub chosen_worker : Proxy → Option ℕ → Option (ℕ × Bytes)
unfolding owner_or_front
chosen_worker p none = front_worker p p.fifo
chosen_worker p (some node) = owner_or_front p node (find node p.heart_beats)

-- The worker is dead to us until it reports back.
unfoldable pub forget : ℕ → Bytes → Option ℕ → M Proxy (Unit {0})
forget node address none = λ p. undefined
forget node address (some place) = λ p. value tt (record p {
  fifo = erase place p.fifo;
  workers = erase address p.workers;
  heart_beats = erase node p.heart_beats;
})

unfoldable pub deliver_to : ℕ → Bytes → List Bytes → Delivery → M Proxy (Unit {0})
unfolding forget
deliver_to node address job throws = λ p. raised p
deliver_to node address job refused = λ p. forget node address (find address p.workers) p
deliver_to node address job delivered = λ p.
    forget node address (find address p.workers)
      (record p { forwarded = (address, job) ∷ p.forwarded })

abbrev pub Choose : Type 0
Choose = Option (List (ℕ × Bytes) → List Bytes → Option ℕ)

abbrev pub ask : Choose → List (ℕ × Bytes) → List Bytes → Option ℕ
ask none fifo job = none
ask (some choose) fifo job = choose fifo job

unfoldable pub send_job :
    (Bytes → List Bytes → Delivery) → List Bytes → Option (ℕ × Bytes) → M Proxy (Unit {0})
unfolding deliver_to
send_job deliver job none = λ p. undefined
send_job deliver job (some (node, address)) = deliver_to node address job (deliver address job)

-- A request: the previous hop is stripped, and the info is kept from the application's choice.
unfoldable pub handle_job :
    Choose → (Bytes → List Bytes → Delivery) → List Bytes → M Proxy (Unit {0})
unfolding chosen_worker send_job
handle_job choose deliver (from ∷ info ∷ job) p =
    send_job deliver (info ∷ job) (chosen_worker p (ask choose p.fifo job)) p
handle_job choose deliver _ p = undefined

-- What one round of `forward` receives. The requests are polled only if a worker is idle.
pub record Poll : Type 0 where
  pub downstream : Option (List Bytes)
  pub upstream : Option (List Bytes)

unfoldable pub on_downstream : Option (List Bytes) → M Proxy (Unit {0})
unfolding handle_heart_beat
on_downstream none = return tt
on_downstream (some messages) = try_log (handle_heart_beat messages)

unfoldable pub on_upstream :
    Choose → (Bytes → List Bytes → Delivery) → Option (List Bytes) → M Proxy (Unit {0})
unfolding handle_job
on_upstream choose deliver none = return tt
on_upstream choose deliver (some messages) = try_log (handle_job choose deliver messages)
