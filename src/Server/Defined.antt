-- ===== src/Server/Defined.antt =====
-- A server whose connections are all kept alive works on no session that is gone.
use prime_server.Prelude.{
  ℕ, zero, suc, ◌-◌, Bool, true, Option, none, some, List, [], ◌∷◌, length, Bytes, ◌≡◌, ◌≢◌, refl,
  ltb, All, ◌&&◌,
}
use prime_server.Prelude.Maps.{nat_key, bytes_key, find, find-assign_there}
use prime_server.Prelude.Effects.{M, return, IsDefined}
use prime_server.Server.{
  Protocol, Config, Environment, Server, client_identity, client_bytes, interrupt, Parse, parsed,
  rejected, escaped, Poll, back, mark, handle_info, close_found, close_session, key, remember_found,
  remember, is_health_check, accept, take_id, enqueue_as, enqueue_one, enqueue_each, write_session,
  enqueue_parsed, enqueue, connect, disconnect, reject_found, reject, handle_frames, handle_request,
  time_out, handle_timeouts_round, handle_timeouts_loop, handle_timeouts, handle_result,
  handle_message, serve_once, serve,
}
use prime_server.Prelude.Yields.{
  Yields, Takes, Any, Takes-bind, Takes-if, Takes-for_each, Takes-try_log, Yields-IsDefined,
}
use prime_server.Server.Sends.{
  HasSession, HasSession-IsOfSessions, Any-IsOfSessions, send-Takes, send_both-Takes,
  interrupt_all-Takes, forward-Takes, dequeue-Takes,
}

-- A message of the loopback, if there is one, starts with an info.
abbrev pub HoldsInfo :
    {Container Info : Type 0} → Protocol Container Info → Option (List Bytes) → Type 0
HoldsInfo protocol none = Unit
HoldsInfo protocol (some []) = ⊥
HoldsInfo protocol (some (first ∷ rest)) = protocol.read_info first ≢ none

module _ {Container Info : Type 0} (protocol : Protocol Container Info) (config : Config Container)
    (answers : Environment Info) where
  module _ (kept : (info : Info) → protocol.keep_alive info ≡ true) where
    remember_found-Takes :
        (requester : Bytes) (info : Info) (o : Option Container) (s : Server Container Info)
        → find requester s.sessions ≡ o
        → HasSession requester s
        → Yields (HasSession requester) (remember_found protocol config answers requester info o s)
    unfolding remember_found
    remember_found-Takes requester info none s e h = cc (e, h.1)
    remember_found-Takes requester info (some session) s e h =
        find-assign_there requester requester _ session s.sessions e

    accept-Takes :
        (health_check : Bool) (requester : Bytes) (info : Info)
        → Takes
            (HasSession requester)
            (HasSession requester)
            (accept protocol config answers health_check requester info)
    unfolding accept remember
    accept-Takes health_check requester info =
        Takes-bind (HasSession requester) (HasSession requester) (HasSession requester) _ _
          (λ s h. remember_found-Takes requester info (find requester s.sessions) s refl h)
          (λ _.
            Takes-bind (HasSession requester) (HasSession requester) (HasSession requester) _ _
              (Takes-if (HasSession requester) (HasSession requester) health_check _ _
                (dequeue-Takes protocol config answers (HasSession requester)
                  (HasSession-IsOfSessions requester) kept info config.health_check_response)
                (λ s h. h))
              (λ _ s h. h))

    enqueue_one-Takes :
        (now : ℕ) (requester : Bytes) (request : Container)
        → Takes
            (HasSession requester)
            (HasSession requester)
            (enqueue_one protocol config answers now requester request)
    unfolding enqueue_one enqueue_as
    enqueue_one-Takes now requester request s h =
        let health_check =
          is_health_check protocol config answers config.health_check_matcher request in
        let info = protocol.to_info request s.request_id now in
        Takes-bind (HasSession requester) (HasSession requester) (HasSession requester) _ _
          (forward-Takes protocol config answers (HasSession requester)
            (HasSession-IsOfSessions requester) health_check info request)
          (λ forwarded.
            Takes-if (HasSession requester) (HasSession requester) forwarded _ _
              (accept-Takes health_check requester info) (λ s h. h))
          (take_id protocol config answers s) h

    enqueue_each-Takes :
        (now : ℕ) (requester : Bytes) (requests : List Container)
        → Takes
            (HasSession requester)
            (HasSession requester)
            (enqueue_each protocol config answers now requester requests)
    unfolding enqueue_each
    enqueue_each-Takes now requester [] = λ s h. h
    enqueue_each-Takes now requester (request ∷ rest) =
        Takes-bind (HasSession requester) (HasSession requester) (HasSession requester) _ _
          (enqueue_one-Takes now requester request)
          (λ going.
            Takes-if (HasSession requester) (HasSession requester) going _ _
              (enqueue_each-Takes now requester rest) (λ s h. h))

    enqueue_parsed-Takes :
        (now : ℕ) (requester : Bytes) (result : Parse Container)
        → Takes
            (HasSession requester)
            (HasSession requester)
            (enqueue_parsed protocol config answers now requester result)
    unfolding enqueue_parsed write_session
    enqueue_parsed-Takes now requester (parsed container requests) = λ s h.
        enqueue_each-Takes now requester requests _
          (find-assign_there requester requester container h.0 s.sessions h.1)
    enqueue_parsed-Takes now requester (rejected container reply) = λ s h.
        Takes-bind (HasSession requester) (HasSession requester) (HasSession requester) _ _
          (send_both-Takes protocol config answers (HasSession requester)
            (HasSession-IsOfSessions requester) (client_identity requester) (client_bytes reply))
          (λ _ u k. k) _ (find-assign_there requester requester container h.0 s.sessions h.1)
    enqueue_parsed-Takes now requester (escaped container) = λ s h. tt

    close_found-Takes :
        (requester : Bytes) (o : Option Container) (s : Server Container Info)
        → find requester s.sessions ≡ o
        → HasSession requester s
        → Yields Any (close_found protocol config answers requester o s)
    unfolding close_found
    close_found-Takes requester none s e h = cc (e, h.1)
    close_found-Takes requester (some session) s e h =
        Takes-bind Any Any Any _ _
          (interrupt_all-Takes protocol config answers Any Any-IsOfSessions
            (protocol.enqueued session))
          (λ _ u k. tt) s tt

    reject_found-Takes :
        (requester : Bytes) (o : Option Container) (s : Server Container Info)
        → find requester s.sessions ≡ o
        → HasSession requester s
        → Yields Any (reject_found protocol config answers requester o s)
    unfolding reject_found close_session
    reject_found-Takes requester none s e h = cc (e, h.1)
    reject_found-Takes requester (some session) s e h =
        Takes-bind (HasSession requester) (HasSession requester) Any _ _
          (send_both-Takes protocol config answers (HasSession requester)
            (HasSession-IsOfSessions requester) (client_identity requester) (client_bytes []))
          (λ closed.
            Takes-if (HasSession requester) Any closed _ _
              (λ u k. close_found-Takes requester (find requester u.sessions) u refl k) (λ u k. tt))
          s h

    disconnect-Takes :
        (requester : Bytes) (session : Container)
        → Takes Any Any (disconnect protocol config answers requester session)
    unfolding disconnect
    disconnect-Takes requester session =
        Takes-bind Any Any Any _ _
          (Takes-for_each Any (protocol.enqueued session) _ (λ id.
            Takes-bind Any Any Any _ _
              (send-Takes protocol config answers Any Any-IsOfSessions (interrupt id))
              (λ _ s p. tt)))
          (λ _ s p. tt)

    handle_frames-Takes :
        (now : ℕ) (requester body : Bytes) (o : Option Container) (s : Server Container Info)
        → find requester s.sessions ≡ o
        → Yields Any (handle_frames protocol config answers now requester body o s)
    unfolding handle_frames connect enqueue reject
    handle_frames-Takes now requester [] none s e = tt
    handle_frames-Takes now requester [] (some session) s e =
        disconnect-Takes requester session s tt
    handle_frames-Takes now requester (c ∷ cs) none s e = tt
    handle_frames-Takes now requester (c ∷ cs) (some session) s e =
        Takes-bind (HasSession requester) (HasSession requester) Any _ _
          (enqueue_parsed-Takes now requester
            (protocol.from_stream config.max_request_size session (c ∷ cs)))
          (λ ok.
            Takes-if (HasSession requester) Any ok _ _ (λ u k. tt)
              (λ u k. reject_found-Takes requester (find requester u.sessions) u refl k))
          s (session, e)

    handle_request-Takes :
        (now : ℕ) (messages : List Bytes)
        → Takes Any Any (handle_request protocol config answers now messages)
    unfolding handle_request
    handle_request-Takes now (requester ∷ body ∷ []) s p =
        handle_frames-Takes now requester body (find requester s.sessions) s refl
    handle_request-Takes now _ s p = tt

    time_out-Takes : (info : Info) → Takes Any Any (time_out protocol config answers info)
    unfolding time_out
    time_out-Takes info =
        Takes-bind Any Any Any _ _
          (send-Takes protocol config answers Any Any-IsOfSessions (interrupt (key protocol info)))
          (λ _ s p.
            Takes-bind Any Any Any _ _
              (dequeue-Takes protocol config answers Any Any-IsOfSessions kept
                (protocol.timeout info).0 (protocol.timeout info).1)
              (λ _ s p. tt)
              (record s { request_history = mark (protocol.timeout info).0 s.request_history }) tt)

    round-Takes :
        (again : M (Server Container Info) (Unit {0})) (drop_dead : ℕ) (history : List Info)
        → Takes Any Any again
        → Takes Any Any (handle_timeouts_round protocol config answers again drop_dead history)
    unfolding handle_timeouts_round
    round-Takes again drop_dead [] h = λ s p. tt
    round-Takes again drop_dead (info ∷ rest) h =
        Takes-if Any Any (ltb 0 drop_dead && ltb (protocol.time_stamp info) drop_dead) _ (return tt)
          (Takes-bind Any Any Any _ _ (time_out-Takes info) (λ _. h)) (λ s p. tt)

    loop-Takes :
        (rounds drop_dead : ℕ)
        → Takes Any Any (handle_timeouts_loop protocol config answers rounds drop_dead)
    unfolding handle_timeouts_loop
    loop-Takes zero drop_dead = λ s p. tt
    loop-Takes (suc rounds) drop_dead =
        λ s p. round-Takes _ drop_dead s.request_history (loop-Takes rounds drop_dead) s tt

    handle_info-Takes :
        (found : Option Info) (response : Bytes)
        → (found ≢ none)
        → Takes Any Any (handle_info protocol config answers found response)
    unfolding handle_info
    handle_info-Takes none response h = absurd (h refl)
    handle_info-Takes (some info) response h = Takes-try_log _ (
        Takes-bind Any Any Any _ _
          (dequeue-Takes protocol config answers Any Any-IsOfSessions kept info response)
          (λ _ s p. tt))

    handle_result-Takes :
        (result : Option (List Bytes))
        → HoldsInfo protocol result
        → Takes Any Any (handle_result protocol config answers result)
    unfolding handle_result
    handle_result-Takes none h = λ s p. tt
    handle_result-Takes (some []) h = absurd h
    handle_result-Takes (some (first ∷ rest)) h =
        handle_info-Takes (protocol.read_info first) (back first rest) h

    handle_message-Takes :
        (now : ℕ) (request : Option (List Bytes))
        → Takes Any Any (handle_message protocol config answers now request)
    unfolding handle_message
    handle_message-Takes now none = λ s p. tt
    handle_message-Takes now (some messages) = Takes-try_log _ (handle_request-Takes now messages)

    serve-Takes :
        (polls : List Poll)
        → All (λ poll. HoldsInfo protocol poll.result) polls
        → Takes Any Any (serve protocol config answers polls)
    unfolding serve serve_once handle_timeouts
    serve-Takes [] h = λ s p. tt
    serve-Takes (poll ∷ polls) h =
        Takes-bind Any Any Any _ _
          (Takes-bind Any Any Any _ _ (handle_result-Takes poll.result h.0) (λ _.
            Takes-bind Any Any Any _ _ (handle_message-Takes poll.now poll.request) (λ _ s p.
              loop-Takes (length s.request_history) (poll.now - config.request_timeout) s tt)))
          (λ _. serve-Takes polls h.1)

    -- If the protocol keeps every connection alive, as that of netstrings does, and each message on
    -- the loopback has a first frame that is long enough for an info, then the server never works on
    -- a session that is gone, neither through its iterator nor through a reference, and never on an
    -- info that is not there: from any state, however long it runs, whatever the clients send, and
    -- whatever the sends do.
    pub serve-IsDefined :
        (polls : List Poll) (s : Server Container Info)
        → All (λ poll. HoldsInfo protocol poll.result) polls
        → IsDefined (serve protocol config answers polls s)
    serve-IsDefined polls s h =
        Yields-IsDefined (serve protocol config answers polls s) (serve-Takes polls h s tt)
