-- ===== src/Server/Tracking.antt =====
-- Every request that waits for an answer is in the history that `handle_timeouts` goes through.
use prime_server.Prelude.{
  ℕ, Bool, true, false, Option, none, some, List, [], ◌∷◌, ◌++◌, Bytes, ◌≡◌, refl, subst, ◌⊎◌, inl,
  inr,
}
use prime_server.Prelude.Maps.{
  nat_key, bytes_key, find, emplace, erase, find-emplace-some, find-erase-some, find-erase_self,
}
use prime_server.Prelude.Effects.{
  M, Ends, Preserves, Ends-bind, Ends-weaken, Preserves-bind, Preserves-if, Preserves-for_each,
}
use prime_server.Server.{
  Protocol, Config, Environment, Server, Frame, client_identity, client_bytes, proxy_info,
  proxy_job, interrupt, Parse, parsed, rejected, escaped, send, send_both, key, answer,
  dequeue_found, dequeue, remember_found, remember, forward_job, forward, accept, take_id,
  enqueue_as, enqueue_one, enqueue_each, write_session, enqueue_parsed, enqueue, connect,
  disconnect, handle_frames, handle_request,
}
use prime_server.Server.{is_health_check}
use prime_server.Server.Bookkeeping.{
  send-Preserves, send_both-Preserves, answer-Preserves, reject-Preserves,
}

module _ {Container Info : Type 0} (protocol : Protocol Container Info) where
  abbrev pub InHistory : ℕ → List Info → Type 0
  InHistory k [] = ⊥
  InHistory k (i ∷ is) = (key protocol i ≡ k) ⊎ InHistory k is

  abbrev pub IsTracked : Server Container Info → Type 0
  IsTracked s =
      (k : ℕ) (identity : Bytes) → find k s.requests ≡ some identity → InHistory k s.request_history

  InHistory-append_left : (k : ℕ) (is js : List Info) → InHistory k is → InHistory k (is ++ js)
  InHistory-append_left k [] js h = absurd h
  InHistory-append_left k (i ∷ is) js (inl e) = inl e
  InHistory-append_left k (i ∷ is) js (inr h) = inr (InHistory-append_left k is js h)

  InHistory-last : (is : List Info) (i : Info) → InHistory (key protocol i) (is ++ i ∷ [])
  InHistory-last [] i = inl refl
  InHistory-last (j ∷ is) i = inr (InHistory-last is i)

  -- The history is not touched while a request is answered.
  abbrev pub HasHistory : List Info → Server Container Info → Type 0
  HasHistory h s = (s.request_history ≡ h) × IsTracked s

  erase-IsTracked :
      (s : Server Container Info) (k : ℕ)
      → IsTracked s
      → IsTracked (record s { requests = erase k s.requests })
  erase-IsTracked s k t j identity e = t j identity (find-erase-some j k s.requests e).0

  remember-IsTracked :
      (s : Server Container Info) (info : Info) (requester : Bytes)
      → IsTracked s
      → IsTracked (record s {
        requests = emplace (key protocol info) requester s.requests;
        request_history = s.request_history ++ info ∷ [];
      })
  remember-IsTracked s info requester t k identity e =
      elim (find-emplace-some k (key protocol info) requester identity s.requests e) [
        | inl old ↦ InHistory-append_left k s.request_history (info ∷ []) (t k identity old)
        | inr new ↦
            subst (λ j. InHistory j (s.request_history ++ info ∷ [])) new
              (InHistory-last s.request_history info)
      ]

module _ {Container Info : Type 0} (protocol : Protocol Container Info) (config : Config Container)
    (answers : Environment Info) where
  -- An answered request is off the books.
  abbrev pub Answered : List Info → ℕ → Server Container Info → Type 0
  Answered h k s = HasHistory protocol h s × (find k s.requests ≡ none)

  dequeue_found-Ends :
      (info : Info) (response : Bytes) (h : List Info) (o : Option Bytes)
      (s : Server Container Info)
      → HasHistory protocol h s
      → find (key protocol info) s.requests ≡ o
      → Ends
          (λ _. Answered h (key protocol info))
          (HasHistory protocol h)
          (dequeue_found protocol config answers info response o s)
  unfolding dequeue_found
  dequeue_found-Ends info response h none s t e = (t, e)
  dequeue_found-Ends info response h (some identity) s t e =
      Ends-bind (λ _. HasHistory protocol h) (λ _. Answered h (key protocol info))
        (HasHistory protocol h) (answer protocol config answers info response identity s) _
        (answer-Preserves protocol config answers (HasHistory protocol h) (λ _ _ _ p. p) info
          response identity s t)
        (λ _ u k. (
          (k.0, erase-IsTracked protocol u (key protocol info) k.1),
          find-erase_self (key protocol info) u.requests,
        ))

  -- Whether or not it finds the request, `dequeue` leaves it off the books.
  pub dequeue-Ends :
      (info : Info) (response : Bytes) (h : List Info) (s : Server Container Info)
      → HasHistory protocol h s
      → Ends
          (λ _. Answered h (key protocol info))
          (HasHistory protocol h)
          (dequeue protocol config answers info response s)
  unfolding dequeue
  dequeue-Ends info response h s t =
      dequeue_found-Ends info response h (find (key protocol info) s.requests) s t refl

  pub dequeue-IsTracked :
      (info : Info) (response : Bytes)
      → Preserves (IsTracked protocol) (dequeue protocol config answers info response)
  dequeue-IsTracked info response s t =
      Ends-weaken (λ _. Answered s.request_history (key protocol info)) (λ _. IsTracked protocol)
        (HasHistory protocol s.request_history) (IsTracked protocol)
        (dequeue protocol config answers info response s)
        (dequeue-Ends info response s.request_history s (refl, t)) (λ _ u k. k.0.1) (λ u k. k.1)

  remember_found-Preserves :
      (requester : Bytes) (info : Info) (o : Option Container)
      → Preserves (IsTracked protocol) (remember_found protocol config answers requester info o)
  unfolding remember_found
  remember_found-Preserves requester info none = λ s t. tt
  remember_found-Preserves requester info (some session) =
      λ s t. remember-IsTracked protocol s info requester t

  remember-Preserves :
      (requester : Bytes) (info : Info)
      → Preserves (IsTracked protocol) (remember protocol config answers requester info)
  unfolding remember
  remember-Preserves requester info s =
      remember_found-Preserves requester info (find requester s.sessions) s

  abbrev pub Keeps : {A : Type 0} → M (Server Container Info) A → Type 0
  Keeps m = Preserves (IsTracked protocol) m

  send_both-Keeps :
      (first second : Frame Info) → Keeps (send_both protocol config answers first second)
  send_both-Keeps = send_both-Preserves protocol config answers (IsTracked protocol) (λ _ _ _ t. t)

  accept-Keeps :
      (health_check : Bool) (requester : Bytes) (info : Info)
      → Keeps (accept protocol config answers health_check requester info)
  unfolding accept
  accept-Keeps health_check requester info =
      Preserves-bind (IsTracked protocol) _ _ (remember-Preserves requester info) (λ _.
        Preserves-bind (IsTracked protocol) _ _
          (Preserves-if (IsTracked protocol) health_check _ _
            (dequeue-IsTracked info config.health_check_response) (λ s t. t))
          (λ _ s t. t))

  send-Keeps : (frame : Frame Info) → Keeps (send protocol config answers frame)
  send-Keeps = send-Preserves protocol config answers (IsTracked protocol) (λ _ _ _ t. t)

  forward_job-Keeps : (job : Option Bytes) → Keeps (forward_job protocol config answers job)
  unfolding forward_job
  forward_job-Keeps none = λ s t. t
  forward_job-Keeps (some job) = send-Keeps (proxy_job job)

  forward-Keeps :
      (health_check : Bool) (info : Info) (request : Container)
      → Keeps (forward protocol config answers health_check info request)
  unfolding forward
  forward-Keeps true info request = λ s t. t
  forward-Keeps false info request =
      Preserves-bind (IsTracked protocol) _ _ (send-Keeps (proxy_info info)) (λ ok.
        Preserves-if (IsTracked protocol) ok _ _ (forward_job-Keeps (protocol.to_string request))
          (λ s t. t))

  enqueue_one-Keeps :
      (now : ℕ) (requester : Bytes) (request : Container)
      → Keeps (enqueue_one protocol config answers now requester request)
  unfolding enqueue_one enqueue_as
  enqueue_one-Keeps now requester request s t =
      let health_check =
        is_health_check protocol config answers config.health_check_matcher request in
      let info = protocol.to_info request s.request_id now in
      Preserves-bind (IsTracked protocol) _ _ (forward-Keeps health_check info request)
        (λ forwarded.
          Preserves-if (IsTracked protocol) forwarded _ _ (accept-Keeps health_check requester info)
            (λ s t. t))
        (take_id protocol config answers s) t

  enqueue_each-Keeps :
      (now : ℕ) (requester : Bytes) (requests : List Container)
      → Keeps (enqueue_each protocol config answers now requester requests)
  unfolding enqueue_each
  enqueue_each-Keeps now requester [] = λ s t. t
  enqueue_each-Keeps now requester (request ∷ rest) =
      Preserves-bind (IsTracked protocol) _ _ (enqueue_one-Keeps now requester request) (λ going.
        Preserves-if (IsTracked protocol) going _ _ (enqueue_each-Keeps now requester rest)
          (λ s t. t))

  enqueue_parsed-Keeps :
      (now : ℕ) (requester : Bytes) (result : Parse Container)
      → Keeps (enqueue_parsed protocol config answers now requester result)
  unfolding enqueue_parsed write_session
  enqueue_parsed-Keeps now requester (parsed container requests) =
      λ s t. enqueue_each-Keeps now requester requests _ t
  enqueue_parsed-Keeps now requester (rejected container reply) = λ s t.
      Preserves-bind (IsTracked protocol) _ _
        (send_both-Keeps (client_identity requester) (client_bytes reply)) (λ _ u k. k) _ t
  enqueue_parsed-Keeps now requester (escaped container) = λ s t. t

  disconnect-Keeps :
      (requester : Bytes) (session : Container)
      → Keeps (disconnect protocol config answers requester session)
  unfolding disconnect
  disconnect-Keeps requester session =
      Preserves-bind (IsTracked protocol) _ _
        (Preserves-for_each (IsTracked protocol) (protocol.enqueued session) _ (λ id.
          Preserves-bind (IsTracked protocol) _ _
            (send-Preserves protocol config answers (IsTracked protocol) (λ _ _ _ t. t)
              (interrupt id))
            (λ _ u k. erase-IsTracked protocol u id k)))
        (λ _ s t. t)

  handle_frames-Keeps :
      (now : ℕ) (requester body : Bytes) (o : Option Container)
      → Keeps (handle_frames protocol config answers now requester body o)
  unfolding handle_frames connect enqueue
  handle_frames-Keeps now requester [] none = λ s t. t
  handle_frames-Keeps now requester [] (some session) = disconnect-Keeps requester session
  handle_frames-Keeps now requester (c ∷ cs) none = λ s t. t
  handle_frames-Keeps now requester (c ∷ cs) (some session) =
      Preserves-bind (IsTracked protocol) _ _
        (enqueue_parsed-Keeps now requester
          (protocol.from_stream config.max_request_size session (c ∷ cs)))
        (λ ok.
          Preserves-if (IsTracked protocol) ok _ _ (λ s t. t)
            (reject-Preserves protocol config answers (IsTracked protocol) (λ _ _ _ t. t)
              requester))

  -- If each request that waits for an answer is in the history, that is so after any frames that
  -- come in, whether `handle_request` returns or throws; undefined behaviour is left out.
  pub handle_request-IsTracked :
      (now : ℕ) (messages : List Bytes) (s : Server Container Info)
      → IsTracked protocol s
      → Ends
          (λ _. IsTracked protocol)
          (IsTracked protocol)
          (handle_request protocol config answers now messages s)
  unfolding handle_request
  handle_request-IsTracked now (requester ∷ body ∷ []) s t =
      handle_frames-Keeps now requester body (find requester s.sessions) s t
  handle_request-IsTracked now _ s t = t
