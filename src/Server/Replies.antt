-- ===== src/Server/Replies.antt =====
-- Answers: at most one for a request, and none for a client that went away.
use prime_server.Prelude.{
  ℕ, Bool, false, Option, none, some, List, [], ◌∷◌, Bytes, ◌≡◌, refl, sym, subst, ◌⊎◌, inl, inr,
  arith,
}
use prime_server.Prelude.Maps.{nat_key, bytes_key, find, erase, find-erase, find-erase_self}
use prime_server.Prelude.Effects.{
  IsDefined, after_exit-IsDefined, for_each-IsDefined, Exit, value, raised, undefined, M,
  after_exit, ◌>>=◌, modify, for_each, Ends, Ends-bind, Ends-weaken,
}
use prime_server.Server.{
  Sending, Protocol, Config, Environment, Server, Trace, Frame, interrupt, sent, would_block, fails,
  send, sending, key, answer, dequeue_found, dequeue, disconnect, handle_frames, handle_request,
}
use prime_server.Prelude.{All}

module _ {Container Info : Type 0} (protocol : Protocol Container Info) (config : Config Container)
    (answers : Environment Info) where
  Ends-any :
      {A : Type 0} (e : Exit (Server Container Info) A) → Ends (λ _ _. Unit {0}) (λ _. Unit {0}) e
  Ends-any (value a s) = tt
  Ends-any (raised s) = tt
  Ends-any undefined = tt

  dequeue_found-Ends-none :
      (info : Info) (response : Bytes) (o : Option Bytes) (s : Server Container Info)
      → find (key protocol info) s.requests ≡ o
      → Ends
          (λ _ t. find (key protocol info) t.requests ≡ none)
          (λ _. Unit {0})
          (dequeue_found protocol config answers info response o s)
  unfolding dequeue_found
  dequeue_found-Ends-none info response none s e = e
  dequeue_found-Ends-none info response (some identity) s e =
      Ends-bind (λ _ _. Unit {0}) (λ _ t. find (key protocol info) t.requests ≡ none)
        (λ _. Unit {0}) (answer protocol config answers info response identity s) _
        (Ends-any (answer protocol config answers info response identity s))
        (λ _ t _. find-erase_self (key protocol info) t.requests)

  dequeue_missing :
      (info : Info) (response : Bytes) (s : Server Container Info)
      → find (key protocol info) s.requests ≡ none
      → dequeue protocol config answers info response s ≡ value false s
  unfolding dequeue dequeue_found
  dequeue_missing info response s e = rw (e, dequeue_found)

  -- A request is answered at most once: after a `dequeue` that returned, a second one for the same
  -- request sends nothing, changes nothing and returns false.
  pub dequeue-dequeue :
      (info : Info) (response response' : Bytes) (s t : Server Container Info) (found : Bool)
      → dequeue protocol config answers info response s ≡ value found t
      → dequeue protocol config answers info response' t ≡ value false t
  unfolding dequeue
  dequeue-dequeue info response response' s t found e = dequeue_missing info response' t (
      subst (Ends (λ _ t. find (key protocol info) t.requests ≡ none) (λ _. Unit {0})) e
        (dequeue_found-Ends-none info response (find (key protocol info) s.requests) s refl))

  abbrev pub WasTried : Frame Info → Trace Info → Type 0
  WasTried frame [] = ⊥
  WasTried frame ((f, _) ∷ trace) = (f ≡ frame) ⊎ WasTried frame trace

  -- The request is off the books, and its worker was told.
  abbrev pub IsInterrupted : Server Container Info → ℕ → Type 0
  IsInterrupted s k = (find k s.requests ≡ none) × WasTried (interrupt k) s.trace

  find-erase-none :
      (k id : ℕ) (requests : List (ℕ × Bytes))
      → find k requests ≡ none
      → find k (erase id requests) ≡ none
  find-erase-none k id requests h = ground (arith, find-erase k id requests)

  -- One round of the loop in `disconnect`.
  abbrev drop_one : ℕ → M (Server Container Info) (Unit {0})
  drop_one id = do
    _ ← send protocol config answers (interrupt id)
    modify (λ s. record s { requests = erase id s.requests })

  Grows : Server Container Info → Server Container Info → Type 0
  Grows s t = (k : ℕ) → IsInterrupted s k → IsInterrupted t k

  drop_one-Ends :
      (id : ℕ) (s : Server Container Info)
      → Ends (λ _ t. IsInterrupted t id × Grows s t) (λ _. Unit {0}) (drop_one id s)
  unfolding send sending Grows
  drop_one-Ends id s =
      elim (answers s.trace (interrupt id))
        as (λ a.
          Ends (λ _ t. IsInterrupted t id × Grows s t) (λ _. Unit {0})
            (after_exit (sending protocol config answers (interrupt id) a s)
              (λ _. modify (λ s. record s { requests = erase id s.requests })))) [
                | sent ↦ (
                  (find-erase_self id s.requests, inl refl),
                  λ k h. (find-erase-none k id s.requests h.0, inr h.1),
                )
                | would_block ↦ (
                  (find-erase_self id s.requests, inl refl),
                  λ k h. (find-erase-none k id s.requests h.0, inr h.1),
                )
                | fails ↦ tt
              ]

  drop_each-Ends :
      (ids : List ℕ) (s : Server Container Info)
      → Ends
          (λ _ t. All (IsInterrupted t) ids × Grows s t)
          (λ _. Unit {0})
          (for_each ids drop_one s)
  unfolding for_each Grows
  drop_each-Ends [] s = (tt, λ k h. h)
  drop_each-Ends (id ∷ ids) s =
      Ends-bind (λ _ t. IsInterrupted t id × Grows s t)
        (λ _ t. All (IsInterrupted t) (id ∷ ids) × Grows s t) (λ _. Unit {0}) (drop_one id s)
        (λ _. for_each ids drop_one) (drop_one-Ends id s)
        (λ _ u h.
          Ends-weaken (λ _ t. All (IsInterrupted t) ids × Grows u t)
            (λ _ t. All (IsInterrupted t) (id ∷ ids) × Grows s t) (λ _. Unit {0}) (λ _. Unit {0})
            (for_each ids drop_one u) (drop_each-Ends ids u)
            (λ _ t k. ((k.1 id h.0, k.0), λ j i. k.1 j (h.1 j i))) (λ _ _. tt))

  sending-IsDefined :
      (frame : Frame Info) (outcome : Sending) (s : Server Container Info)
      → IsDefined (sending protocol config answers frame outcome s)
  unfolding sending
  sending-IsDefined frame sent s = tt
  sending-IsDefined frame would_block s = tt
  sending-IsDefined frame fails s = tt

  drop_one-IsDefined : (id : ℕ) (s : Server Container Info) → IsDefined (drop_one id s)
  unfolding send
  drop_one-IsDefined id s =
      after_exit-IsDefined (send protocol config answers (interrupt id) s) _
        (sending-IsDefined (interrupt id) (answers s.trace (interrupt id)) s) (λ a t. tt)

  -- An empty message from a client with a session runs into no undefined behaviour, and, if no send
  -- throws, ends the session; every request in it is off the books and its interrupt was tried.
  pub handle_request_disconnect :
      (now : ℕ) (requester : Bytes) (session : Container) (s : Server Container Info)
      → find requester s.sessions ≡ some session
      → IsDefined (handle_request protocol config answers now (requester ∷ [] ∷ []) s)
        × Ends
            (λ _ t.
              (find requester t.sessions ≡ none)
              × All (IsInterrupted t) (protocol.enqueued session))
            (λ _. Unit {0})
            (handle_request protocol config answers now (requester ∷ [] ∷ []) s)
  unfolding handle_request handle_frames disconnect
  handle_request_disconnect now requester session s e =
      subst
        (λ o.
          IsDefined (handle_frames protocol config answers now requester [] o s)
          × Ends
              (λ _ t.
                (find requester t.sessions ≡ none)
                × All (IsInterrupted t) (protocol.enqueued session))
              (λ _. Unit {0}) (handle_frames protocol config answers now requester [] o s))
        (sym e)
        (
          after_exit-IsDefined (for_each (protocol.enqueued session) drop_one s) _
              (for_each-IsDefined (protocol.enqueued session) drop_one s drop_one-IsDefined)
              (λ a t. tt),
          Ends-bind (λ _ t. All (IsInterrupted t) (protocol.enqueued session) × Grows s t) _
              (λ _. Unit {0}) (for_each (protocol.enqueued session) drop_one s) _
              (drop_each-Ends (protocol.enqueued session) s)
              (λ _ t h. (find-erase_self requester t.sessions, h.0)),
        )
