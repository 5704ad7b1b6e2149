-- ===== src/Proxy/Links.antt =====
-- The three containers of the proxy stay linked.
use prime_server.Prelude.{
  ℕ, suc, ◌<◌, Option, none, some, List, [], ◌∷◌, ◌++◌, Bytes, ◌≡◌, ◌≢◌, refl, ap, ◌∙◌, subst,
  arith, Option-cases, inl, inr,
}
use prime_server.Prelude.Maps.{
  nat_key, bytes_key, find, emplace, erase, find-emplace_self, find-emplace_new, find-emplace_keeps,
  find-concat_keeps, find-concat_self, find-concat_some, find-assign-some, find-assign_there,
  find-erase_other, same_ne, ne_same, find-erase-some, find-erase_self, same_self,
}
use prime_server.Prelude.Effects.{Exit, value, raised, undefined}
use prime_server.Proxy.{
  Proxy, Delivery, delivered, refused, throws, record_heart_beat, handle_heart_beat, owner_of,
  front_worker, owner_or_front, chosen_worker, forget, deliver_to, Choose, ask, send_job,
  handle_job,
}

-- Each idle worker has a node of the fifo, the node has this worker, and there are no other nodes.
pub record IsLinked (p : Proxy) : Type 0 where
  pub worker_beat : (w : Bytes) (n : ℕ) → find w p.workers ≡ some n → find n p.heart_beats ≡ some w
  pub beat_worker : (n : ℕ) (w : Bytes) → find n p.heart_beats ≡ some w → find w p.workers ≡ some n
  pub beat_old : (n : ℕ) (w : Bytes) → find n p.heart_beats ≡ some w → n < p.next_node
  pub fifo_beat :
      (n : ℕ) (beat : Bytes)
      → find n p.fifo ≡ some beat
      → (w : Bytes) × (find n p.heart_beats ≡ some w)
  pub beat_fifo :
      (n : ℕ) (w : Bytes)
      → find n p.heart_beats ≡ some w
      → (beat : Bytes) × (find n p.fifo ≡ some beat)

-- The exits keep the links; none is undefined behaviour.
abbrev pub Links : Exit Proxy (Unit {0}) → Type 0
Links (value a p) = IsLinked p
Links (raised p) = IsLinked p
Links undefined = ⊥

module _ (p : Proxy) (linked : IsLinked p) where
  no_node : find p.next_node p.heart_beats ≡ none
  no_node = elim (Option-cases (find p.next_node p.heart_beats)) [
    | inl e ↦ e
    | inr (w, e) ↦ absurd (omega (arith, linked.beat_old p.next_node w e))
  ]

  no_place : find p.next_node p.fifo ≡ none
  no_place = elim (Option-cases (find p.next_node p.fifo)) [
    | inl e ↦ e
    | inr (beat, e) ↦ let (w, there) = linked.fifo_beat p.next_node beat e in cc (there, no_node)
  ]

  module _ (address beat : Bytes) (unknown : find address p.workers ≡ none) where
    new_worker_beat :
        (w : Bytes) (n : ℕ)
        → find w (emplace address p.next_node p.workers) ≡ some n
        → find n (emplace p.next_node address p.heart_beats) ≡ some w
    new_worker_beat w n e = elim (find-emplace_new w address p.next_node n p.workers unknown e) [
      | inl old ↦
          find-emplace_keeps n p.next_node address w p.heart_beats (linked.worker_beat w n old)
      | inr (same, new) ↦
          subst (λ m. find m (emplace p.next_node address p.heart_beats) ≡ some w) new
            (find-emplace_self p.next_node address p.heart_beats no_node ∙ ap some same)
    ]

    new_beat_worker :
        (n : ℕ) (w : Bytes)
        → find n (emplace p.next_node address p.heart_beats) ≡ some w
        → find w (emplace address p.next_node p.workers) ≡ some n
    new_beat_worker n w e =
        elim (find-emplace_new n p.next_node address w p.heart_beats no_node e) [
          | inl old ↦
              find-emplace_keeps w address p.next_node n p.workers (linked.beat_worker n w old)
          | inr (new, same) ↦
              subst (λ x. find x (emplace address p.next_node p.workers) ≡ some n) same
                (find-emplace_self address p.next_node p.workers unknown ∙ ap some new)
        ]

    new_beat_old :
        (n : ℕ) (w : Bytes)
        → find n (emplace p.next_node address p.heart_beats) ≡ some w
        → n < suc p.next_node
    new_beat_old n w e = elim (find-emplace_new n p.next_node address w p.heart_beats no_node e) [
      | inl old ↦ omega (arith, linked.beat_old n w old)
      | inr (new, _) ↦ omega (arith, new)
    ]

    new_fifo_beat :
        (n : ℕ) (b : Bytes)
        → find n (p.fifo ++ (p.next_node, beat) ∷ []) ≡ some b
        → (w : Bytes) × (find n (emplace p.next_node address p.heart_beats) ≡ some w)
    new_fifo_beat n b e = elim (find-concat_some n p.next_node beat b p.fifo e) [
      | inl old ↦
          let (w, there) = linked.fifo_beat n b old in
          (w, find-emplace_keeps n p.next_node address w p.heart_beats there)
      | inr new ↦ (
        address,
        subst (λ m. find m (emplace p.next_node address p.heart_beats) ≡ some address) new
            (find-emplace_self p.next_node address p.heart_beats no_node),
      )
    ]

    new_beat_fifo :
        (n : ℕ) (w : Bytes)
        → find n (emplace p.next_node address p.heart_beats) ≡ some w
        → (b : Bytes) × (find n (p.fifo ++ (p.next_node, beat) ∷ []) ≡ some b)
    new_beat_fifo n w e = elim (find-emplace_new n p.next_node address w p.heart_beats no_node e) [
      | inl old ↦
          let (b, there) = linked.beat_fifo n w old in
          (b, find-concat_keeps n p.next_node beat b p.fifo there)
      | inr (new, _) ↦ (
        beat,
        subst (λ m. find m (p.fifo ++ (p.next_node, beat) ∷ []) ≡ some beat) new
            (find-concat_self p.next_node beat p.fifo no_place),
      )
    ]

    new-IsLinked : IsLinked (record_heart_beat address beat none p)
    unfolding record_heart_beat
    new-IsLinked = record {
      worker_beat = new_worker_beat;
      beat_worker = new_beat_worker;
      beat_old = new_beat_old;
      fifo_beat = new_fifo_beat;
      beat_fifo = new_beat_fifo;
    }

  update-IsLinked :
      (address beat : Bytes) (node : ℕ) → IsLinked (record_heart_beat address beat (some node) p)
  unfolding record_heart_beat
  update-IsLinked address beat node = record {
    worker_beat = linked.worker_beat;
    beat_worker = linked.beat_worker;
    beat_old = linked.beat_old;
    fifo_beat = λ n b e.
        let (x, there) = find-assign-some n node beat b p.fifo e in linked.fifo_beat n x there;
    beat_fifo = λ n w e.
        let (b, there) = linked.beat_fifo n w e in find-assign_there n node beat b p.fifo there;
  }

  record_heart_beat-IsLinked :
      (address beat : Bytes) (o : Option ℕ)
      → find address p.workers ≡ o
      → IsLinked (record_heart_beat address beat o p)
  record_heart_beat-IsLinked address beat none e = new-IsLinked address beat e
  record_heart_beat-IsLinked address beat (some node) e = update-IsLinked address beat node

  -- A worker that was sent a job is taken out of all three containers.
  forget-IsLinked :
      (node : ℕ) (address : Bytes)
      → find node p.heart_beats ≡ some address
      → IsLinked (record p {
        fifo = erase node p.fifo;
        workers = erase address p.workers;
        heart_beats = erase node p.heart_beats;
      })
  forget-IsLinked node address e = record {
    worker_beat = λ w n h.
        let (there, other) = find-erase-some w address p.workers h in
        let owned : find n p.heart_beats ≡ some w = linked.worker_beat w n there in
        find-erase_other n node w p.heart_beats owned (
          ne_same node n λ same.
            let clash : find n p.heart_beats ≡ some address =
              subst (λ m. find m p.heart_beats ≡ some address) same e in
            same_ne address w other (cc (owned, clash)));
    beat_worker = λ n w h.
        let (there, other) = find-erase-some n node p.heart_beats h in
        let known : find w p.workers ≡ some n = linked.beat_worker n w there in
        find-erase_other w address n p.workers known (
          ne_same address w λ same.
            let clash : find w p.workers ≡ some node =
              subst (λ x. find x p.workers ≡ some node) same (linked.beat_worker node address e) in
            same_ne node n other (cc (known, clash)));
    beat_old = λ n w h. linked.beat_old n w (find-erase-some n node p.heart_beats h).0;
    fifo_beat = λ n b h.
        let (there, other) = find-erase-some n node p.fifo h in
        let (w, owned) = linked.fifo_beat n b there in
        (w, find-erase_other n node w p.heart_beats owned other);
    beat_fifo = λ n w h.
        let (there, other) = find-erase-some n node p.heart_beats h in
        let (b, placed) = linked.beat_fifo n w there in
        (b, find-erase_other n node b p.fifo placed other);
  }

-- Linked containers stay linked whatever worker reports, whether it was idle or not.
pub handle_heart_beat-Links :
    (address beat : Bytes) (others : List Bytes) (p : Proxy)
    → IsLinked p
    → Links (handle_heart_beat (address ∷ beat ∷ others) p)
unfolding handle_heart_beat
handle_heart_beat-Links address beat others p linked =
    record_heart_beat-IsLinked p linked address beat (find address p.workers) refl

-- The worker of a job, and its node.
abbrev Owner : Proxy → Option (ℕ × Bytes) → Type 0
Owner p o =
    (node : ℕ) × (address : Bytes) × (o ≡ some (node, address))
    × (find node p.heart_beats ≡ some address)

front_worker-Owner :
    (p : Proxy) (fifo : List (ℕ × Bytes))
    → IsLinked p
    → p.fifo ≡ fifo
    → fifo ≢ []
    → Owner p (front_worker p fifo)
unfolding front_worker find
front_worker-Owner p [] linked e ne = absurd (ne refl)
front_worker-Owner p ((node, beat) ∷ rest) linked e ne =
    let there : find node p.fifo ≡ some beat = ap (find node) e ∙ rw (same_self node) in
    let (address, owned) = linked.fifo_beat node beat there in
    (node, address, rw (owned, owner_of), owned)

owner_or_front-Owner :
    (p : Proxy) (node : ℕ) (o : Option Bytes)
    → IsLinked p
    → p.fifo ≢ []
    → find node p.heart_beats ≡ o
    → Owner p (owner_or_front p node o)
unfolding owner_or_front
owner_or_front-Owner p node none linked ne e = front_worker-Owner p p.fifo linked refl ne
owner_or_front-Owner p node (some address) linked ne e = (node, address, refl, e)

chosen_worker-Owner :
    (p : Proxy) (o : Option ℕ) → IsLinked p → p.fifo ≢ [] → Owner p (chosen_worker p o)
unfolding chosen_worker
chosen_worker-Owner p none linked ne = front_worker-Owner p p.fifo linked refl ne
chosen_worker-Owner p (some node) linked ne =
    owner_or_front-Owner p node (find node p.heart_beats) linked ne refl

-- The links do not depend on what was sent.
logged-IsLinked :
    (p : Proxy) (forwarded : List (Bytes × List Bytes))
    → IsLinked p
    → IsLinked (record p { forwarded = forwarded })
logged-IsLinked p forwarded linked = record {
  worker_beat = linked.worker_beat;
  beat_worker = linked.beat_worker;
  beat_old = linked.beat_old;
  fifo_beat = linked.fifo_beat;
  beat_fifo = linked.beat_fifo;
}

sent-Links :
    (node : ℕ) (address : Bytes) (job : List Bytes) (delivery : Delivery) (p : Proxy)
    → IsLinked p
    → find node p.heart_beats ≡ some address
    → Links (deliver_to node address job delivery p)
unfolding deliver_to
sent-Links node address job throws p linked owned = linked
sent-Links node address job refused p linked owned =
    rw (linked.beat_worker node address owned, forget, Links)
      (forget-IsLinked p linked node address owned)
sent-Links node address job delivered p linked owned =
    rw (linked.beat_worker node address owned, forget, Links)
      (logged-IsLinked _ _ (forget-IsLinked p linked node address owned))

-- With linked containers and a worker idle, a job leaves the containers linked and runs into no
-- undefined behaviour, for any choice function and any outcome of the send.
pub handle_job-Links :
    (choose : Choose) (deliver : Bytes → List Bytes → Delivery) (from info : Bytes)
    (job : List Bytes) (p : Proxy)
    → IsLinked p
    → p.fifo ≢ []
    → Links (handle_job choose deliver (from ∷ info ∷ job) p)
unfolding handle_job
handle_job-Links choose deliver from info job p linked ne =
    let (node, address, chosen, owned) = chosen_worker-Owner p (ask choose p.fifo job) linked ne in
    rw (chosen, send_job, Links)
      (sent-Links node address (info ∷ job) (deliver address (info ∷ job)) p linked owned)

-- With linked containers and a worker idle, and when sends succeed, a job goes to one worker, which
-- was idle and is not after it; what it gets is the message without the previous hop.
pub handle_job_delivered :
    (choose : Choose) (from info : Bytes) (job : List Bytes) (p : Proxy)
    → IsLinked p
    → p.fifo ≢ []
    → (address : Bytes) × (node : ℕ) × (q : Proxy) × (handle_job choose
          (λ _ _. delivered)
          (from ∷ info ∷ job)
          p
        ≡ value tt q)
      × (find address p.workers ≡ some node)
      × (find address q.workers ≡ none)
      × (q.forwarded ≡ (address, info ∷ job) ∷ p.forwarded)
unfolding handle_job send_job deliver_to
handle_job_delivered choose from info job p linked ne =
    let (node, address, chosen, owned) = chosen_worker-Owner p (ask choose p.fifo job) linked ne in
    let idle : find address p.workers ≡ some node = linked.beat_worker node address owned in
    (
      address,
      node,
      record p {
        fifo = erase node p.fifo;
        workers = erase address p.workers;
        heart_beats = erase node p.heart_beats;
        forwarded = (address, info ∷ job) ∷ p.forwarded;
      },
      rw (chosen, send_job) (rw (idle, forget)),
      idle,
      find-erase_self address p.workers,
      refl,
    )
