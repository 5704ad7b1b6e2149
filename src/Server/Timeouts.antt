-- ===== src/Server/Timeouts.antt =====
-- `handle_timeouts`, and `serve` around it.
use prime_server.Prelude.{
  ℕ, zero, suc, ◌-◌, Bool, true, ◌&&◌, Option, none, some, List, [], ◌∷◌, ltb, Bytes, length, ◌≡◌,
  refl, sym, ap, subst, ◌∙◌, ◌⊎◌, inl, inr, arith, Bool-cases,
}
use prime_server.Prelude.Maps.{nat_key, bytes_key, find}
use prime_server.Prelude.Effects.{
  Exit, M, Ends, Preserves, Ends-bind, Ends-weaken, Preserves-bind, Preserves-try_log,
}
use prime_server.Server.{
  Protocol, Config, Environment, Server, interrupt, Poll, back, handle_info, send, key, dequeue,
  pop_front, mark, time_out, handle_timeouts_round, handle_timeouts_loop, handle_timeouts,
  handle_result, handle_message, serve_once, serve,
}
use prime_server.Server.{IsLawful}
use prime_server.Server.Tracking.{
  InHistory, IsTracked, HasHistory, Answered, dequeue-Ends, dequeue-IsTracked,
  handle_request-IsTracked,
}
use prime_server.Prelude.{lt→ltb, ltb→le, All, ◌≤◌}
use prime_server.Server.Bookkeeping.{send-Preserves}

module _ {Container Info : Type 0} (protocol : Protocol Container Info) where
  -- The time stamps do not fall along the history.
  abbrev pub IsAscending : List Info → Type 0
  IsAscending [] = Unit
  IsAscending (i ∷ is) =
      All (λ j. protocol.time_stamp i ≤ protocol.time_stamp j) is × IsAscending is

  -- An entry of the history has this key, and is not older than `limit`.
  abbrev pub IsCurrent : ℕ → ℕ → List Info → Type 0
  IsCurrent limit k [] = ⊥
  IsCurrent limit k (i ∷ is) =
      ((key protocol i ≡ k) × (limit ≤ protocol.time_stamp i)) ⊎ IsCurrent limit k is

  All-le_trans :
      (limit m : ℕ) (is : List Info)
      → limit ≤ m
      → All (λ j. m ≤ protocol.time_stamp j) is
      → All (λ j. limit ≤ protocol.time_stamp j) is
  All-le_trans limit m [] h k = tt
  All-le_trans limit m (i ∷ is) h k = (omega arith, All-le_trans limit m is h k.1)

  All-zero : (is : List Info) → All (λ j. 0 ≤ protocol.time_stamp j) is
  All-zero [] = tt
  All-zero (i ∷ is) = (omega arith, All-zero is)

  InHistory-IsCurrent :
      (limit k : ℕ) (is : List Info)
      → All (λ j. limit ≤ protocol.time_stamp j) is
      → InHistory protocol k is
      → IsCurrent limit k is
  InHistory-IsCurrent limit k [] a h = h
  InHistory-IsCurrent limit k (i ∷ is) a (inl e) = inl (e, a.0)
  InHistory-IsCurrent limit k (i ∷ is) a (inr h) = inr (InHistory-IsCurrent limit k is a.1 h)

  marked-key :
      IsLawful protocol → (info : Info) → key protocol (protocol.timeout info).0 ≡ key protocol info
  marked-key law info = rw (law.timeout_id info, law.timeout_time_stamp info)

module _ {Container Info : Type 0} (protocol : Protocol Container Info) (config : Config Container)
    (answers : Environment Info) (law : IsLawful protocol) where
  InHistory-tail :
      (info : Info) (rest : List Info) (u : Server Container Info) (k : ℕ) (identity : Bytes)
      → find (key protocol info) u.requests ≡ none
      → find k u.requests ≡ some identity
      → InHistory protocol k (info ∷ rest)
      → InHistory protocol k rest
  InHistory-tail info rest u k identity gone e (inl h) =
      let there : find (key protocol info) u.requests ≡ some identity =
        subst (λ j. find j u.requests ≡ some identity) (sym h) e in
      cc (there, gone)
  InHistory-tail info rest u k identity gone e (inr h) = h

  InHistory-front :
      (info : Info) (rest : List Info) (k : ℕ)
      → InHistory protocol k (info ∷ rest)
      → InHistory protocol k ((protocol.timeout info).0 ∷ rest)
  InHistory-front info rest k (inl h) = inl (marked-key protocol law info ∙ h)
  InHistory-front info rest k (inr h) = inr h

  pop-HasHistory :
      (info : Info) (rest : List Info) (u : Server Container Info)
      → Answered protocol config answers (info ∷ rest) (key protocol info) u
      → HasHistory protocol rest (record u { request_history = pop_front u.request_history })
  pop-HasHistory info rest u a =
      let popped : pop_front u.request_history ≡ rest = ap pop_front a.0.0 in
      (
        popped,
        λ k identity e. subst (InHistory protocol k) (sym popped) (
            InHistory-tail info rest u k identity a.1 e
              (subst (InHistory protocol k) a.0.0 (a.0.1 k identity e))),
      )

  -- The mark does not change the key of the front.
  mark-HasHistory :
      (info : Info) (rest : List Info) (u : Server Container Info)
      → HasHistory protocol (info ∷ rest) u
      → HasHistory protocol
          ((protocol.timeout info).0 ∷ rest)
          (record u { request_history = mark (protocol.timeout info).0 u.request_history })
  mark-HasHistory info rest u t =
      let marked = (protocol.timeout info).0 in
      let same : mark marked u.request_history ≡ marked ∷ rest = ap (mark marked) t.0 in
      (
        same,
        λ k identity e.
            subst (InHistory protocol k) (sym same)
              (InHistory-front info rest k (subst (InHistory protocol k) t.0 (t.1 k identity e))),
      )

  -- The frame goes out, or throws, before the books change.
  interrupt-Ends :
      (k : ℕ) (h : List Info) (s : Server Container Info)
      → HasHistory protocol h s
      → Ends
          (λ (_ : Bool). HasHistory protocol h)
          (IsTracked protocol)
          (send protocol config answers (interrupt k) s)
  interrupt-Ends k h s t =
      Ends-weaken (λ _. HasHistory protocol h) (λ _. HasHistory protocol h) (HasHistory protocol h)
        (IsTracked protocol) (send protocol config answers (interrupt k) s)
        (send-Preserves protocol config answers (HasHistory protocol h) (λ _ _ _ p. p) (interrupt k)
          s t)
        (λ _ _ p. p) (λ _ p. p.1)

  -- A request that timed out is answered and leaves the history; what waits is still tracked.
  time_out-Ends :
      (info : Info) (rest : List Info) (s : Server Container Info)
      → HasHistory protocol (info ∷ rest) s
      → Ends
          (λ _. HasHistory protocol rest)
          (IsTracked protocol)
          (time_out protocol config answers info s)
  unfolding time_out
  time_out-Ends info rest s t =
      let marked = (protocol.timeout info).0 in
      let response = (protocol.timeout info).1 in
      Ends-bind (λ _. HasHistory protocol (info ∷ rest)) (λ _. HasHistory protocol rest)
        (IsTracked protocol) (send protocol config answers (interrupt (key protocol info)) s) _
        (interrupt-Ends (key protocol info) (info ∷ rest) s t)
        (λ _ u k.
          let w = record u { request_history = mark marked u.request_history } in
          Ends-bind (λ _. Answered protocol config answers (marked ∷ rest) (key protocol marked))
            (λ _. HasHistory protocol rest) (IsTracked protocol)
            (dequeue protocol config answers marked response w) _
            (Ends-weaken
              (λ _. Answered protocol config answers (marked ∷ rest) (key protocol marked))
              (λ _. Answered protocol config answers (marked ∷ rest) (key protocol marked))
              (HasHistory protocol (marked ∷ rest)) (IsTracked protocol)
              (dequeue protocol config answers marked response w)
              (dequeue-Ends protocol config answers marked response (marked ∷ rest) w
                (mark-HasHistory info rest u k))
              (λ _ _ p. p) (λ _ p. p.1))
            (λ _ v m. pop-HasHistory marked rest v m))

  -- What is left when the loop ends.
  abbrev pub IsSettled : ℕ → Server Container Info → Type 0
  IsSettled limit s =
      IsTracked protocol s × All (λ j. limit ≤ protocol.time_stamp j) s.request_history

  abbrev Settles : ℕ → Exit (Server Container Info) (Unit {0}) → Type 0
  Settles limit e = Ends (λ _. IsSettled limit) (IsTracked protocol) e

  -- A round ends the loop at an entry that is not too old, else it goes on behind that entry.
  round-Settles :
      (again : M (Server Container Info) (Unit {0})) (limit : ℕ) (h : List Info)
      (s : Server Container Info)
      → HasHistory protocol h s
      → IsAscending protocol h
      → ((u : Server Container Info)
          → HasHistory protocol (pop_front h) u
          → Settles limit (again u))
      → Settles limit (handle_timeouts_round protocol config answers again limit h s)
  unfolding handle_timeouts_round
  round-Settles again limit [] s t a next = (t.1, rw t.0 tt)
  round-Settles again zero (i ∷ is) s t a next = (t.1, All-zero protocol s.request_history)
  round-Settles again (suc limit) (i ∷ is) s t a next =
      let positive : ltb 0 (suc limit) ≡ true = lt→ltb 0 (suc limit) (omega arith) in
      elim (Bool-cases (ltb (protocol.time_stamp i) (suc limit))) [
        | inl old ↦
            rw (positive, old, Ends)
              (Ends-bind (λ _. HasHistory protocol is) (λ _. IsSettled (suc limit))
                (IsTracked protocol) (time_out protocol config answers i s) (λ _. again)
                (time_out-Ends i is s t) (λ _ u k. next u k))
        | inr young ↦
            rw (positive, young, Ends)
              (
                t.1,
                rw t.0 (
                  ltb→le _ _ young,
                  All-le_trans protocol (suc limit) (protocol.time_stamp i) is (ltb→le _ _ young)
                      a.0,
                ),
              )
      ]

  IsAscending-tail : (h : List Info) → IsAscending protocol h → IsAscending protocol (pop_front h)
  IsAscending-tail [] a = tt
  IsAscending-tail (i ∷ is) a = a.1

  length-pop_front : (h : List Info) (n : ℕ) → length h ≤ suc n → length (pop_front h) ≤ n
  length-pop_front [] n le = omega arith
  length-pop_front (i ∷ is) n le = omega arith

  loop-Settles :
      (rounds limit : ℕ) (h : List Info) (s : Server Container Info)
      → HasHistory protocol h s
      → IsAscending protocol h
      → length h ≤ rounds
      → Settles limit (handle_timeouts_loop protocol config answers rounds limit s)
  unfolding handle_timeouts_loop
  loop-Settles zero limit [] s t a le = (t.1, rw t.0 tt)
  loop-Settles zero limit (i ∷ is) s t a le = absurd (omega arith)
  loop-Settles (suc rounds) limit h s t a le =
      subst
        (λ x. Settles limit (
          handle_timeouts_round protocol config answers
            (handle_timeouts_loop protocol config answers rounds limit) limit x s))
        (sym t.0)
        (round-Settles (handle_timeouts_loop protocol config answers rounds limit) limit h s t a
          (λ u k.
            loop-Settles rounds limit (pop_front h) u k (IsAscending-tail h a)
              (length-pop_front h rounds le)))

  -- Each waiting request is in the history with a time stamp that is not too old.
  abbrev pub AllCurrent : ℕ → Server Container Info → Type 0
  AllCurrent limit s =
      (k : ℕ) (identity : Bytes)
      → find k s.requests ≡ some identity
      → IsCurrent protocol limit k s.request_history

  -- When `handle_timeouts` returns, no request waits that is older than `request_timeout`, if the
  -- history was in the order of its time stamps and held all that waits, and the protocol is lawful.
  -- If a send throws, what waits is still in the history. Undefined behaviour is left out.
  pub handle_timeouts-AllCurrent :
      (now : ℕ) (s : Server Container Info)
      → IsTracked protocol s
      → IsAscending protocol s.request_history
      → Ends
          (λ _. AllCurrent (now - config.request_timeout))
          (IsTracked protocol)
          (handle_timeouts protocol config answers now s)
  unfolding handle_timeouts
  handle_timeouts-AllCurrent now s t a =
      let limit = now - config.request_timeout in
      Ends-weaken (λ _. IsSettled limit) (λ _. AllCurrent limit) (IsTracked protocol)
        (IsTracked protocol)
        (handle_timeouts_loop protocol config answers (length s.request_history) limit s)
        (loop-Settles (length s.request_history) limit s.request_history s (refl, t) a
          (omega arith))
        (λ _ u p k identity e.
          InHistory-IsCurrent protocol limit k u.request_history p.1 (p.0 k identity e))
        (λ _ p. p)

  time_out-Keeps :
      (info : Info) (h : List Info) (s : Server Container Info)
      → HasHistory protocol h s
      → h ≡ info ∷ pop_front h
      → Ends
          (λ _. IsTracked protocol)
          (IsTracked protocol)
          (time_out protocol config answers info s)
  time_out-Keeps info h s t e =
      Ends-weaken (λ _. HasHistory protocol (pop_front h)) (λ _. IsTracked protocol)
        (IsTracked protocol) (IsTracked protocol) (time_out protocol config answers info s)
        (time_out-Ends info (pop_front h) s (subst (λ x. HasHistory protocol x s) e t))
        (λ _ _ p. p.1) (λ _ p. p)

  round-Keeps :
      (again : M (Server Container Info) (Unit {0})) (limit : ℕ) (h : List Info)
      (s : Server Container Info)
      → HasHistory protocol h s
      → Preserves (IsTracked protocol) again
      → Ends
          (λ _. IsTracked protocol)
          (IsTracked protocol)
          (handle_timeouts_round protocol config answers again limit h s)
  unfolding handle_timeouts_round
  round-Keeps again limit [] s t next = t.1
  round-Keeps again limit (i ∷ is) s t next =
      elim (Bool-cases (ltb 0 limit && ltb (protocol.time_stamp i) limit)) [
        | inl old ↦
            rw (old, Ends)
              (Ends-bind (λ _. IsTracked protocol) (λ _. IsTracked protocol) (IsTracked protocol)
                (time_out protocol config answers i s) (λ _. again)
                (time_out-Keeps i (i ∷ is) s t refl) (λ _. next))
        | inr young ↦ rw (young, Ends) t.1
      ]

  loop-Keeps :
      (rounds limit : ℕ)
      → Preserves (IsTracked protocol) (handle_timeouts_loop protocol config answers rounds limit)
  unfolding handle_timeouts_loop
  loop-Keeps zero limit = λ s t. t
  loop-Keeps (suc rounds) limit = λ s t.
      round-Keeps (handle_timeouts_loop protocol config answers rounds limit) limit
        s.request_history s (refl, t) (loop-Keeps rounds limit)

  handle_info-Keeps :
      (found : Option Info) (response : Bytes)
      → Preserves (IsTracked protocol) (handle_info protocol config answers found response)
  unfolding handle_info
  handle_info-Keeps none response = λ s t. tt
  handle_info-Keeps (some info) response = Preserves-try_log (IsTracked protocol) _ (
      Preserves-bind (IsTracked protocol) _ _
        (dequeue-IsTracked protocol config answers info response) (λ _ s t. t))

  handle_result-Keeps :
      (result : Option (List Bytes))
      → Preserves (IsTracked protocol) (handle_result protocol config answers result)
  unfolding handle_result
  handle_result-Keeps none = λ s t. t
  handle_result-Keeps (some []) = λ s t. tt
  handle_result-Keeps (some (first ∷ rest)) =
      handle_info-Keeps (protocol.read_info first) (back first rest)

  handle_message-Keeps :
      (now : ℕ) (request : Option (List Bytes))
      → Preserves (IsTracked protocol) (handle_message protocol config answers now request)
  unfolding handle_message
  handle_message-Keeps now none = λ s t. t
  handle_message-Keeps now (some messages) =
      Preserves-try_log (IsTracked protocol) _
        (handle_request-IsTracked protocol config answers now messages)

  -- However many rounds the server runs, and whatever it is sent, each request that waits for an
  -- answer is in the history that `handle_timeouts` goes through, if that holds at the start and
  -- the protocol is lawful: also when an exception ends `serve`. Undefined behaviour is left out.
  pub serve-IsTracked :
      (polls : List Poll) (s : Server Container Info)
      → IsTracked protocol s
      → Ends (λ _. IsTracked protocol) (IsTracked protocol) (serve protocol config answers polls s)
  unfolding serve serve_once handle_timeouts
  serve-IsTracked [] = λ s t. t
  serve-IsTracked (poll ∷ polls) =
      Preserves-bind (IsTracked protocol) _ _
        (Preserves-bind (IsTracked protocol) _ _ (handle_result-Keeps poll.result) (λ _.
          Preserves-bind (IsTracked protocol) _ _ (handle_message-Keeps poll.now poll.request)
            (λ _ s. loop-Keeps (length s.request_history) (poll.now - config.request_timeout) s)))
        (λ _. serve-IsTracked polls)
