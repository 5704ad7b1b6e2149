-- ===== src/Server/Bookkeeping.antt =====
-- What the handlers of the server leave alone: a property of `requests`, the history and the
-- counter survives all that only sends, or works on the sessions.
use prime_server.Prelude.{ℕ, Bool, not, Option, none, some, List, [], if◌then◌else◌, Bytes}
use prime_server.Prelude.Maps.{nat_key, bytes_key, find}
use prime_server.Prelude.Effects.{
  return, Ends, Preserves, Preserves-bind, Preserves-if, Preserves-for_each,
}
use prime_server.Server.{
  Protocol, Config, Environment, Server, Trace, Frame, client_identity, client_bytes, interrupt,
  sent, would_block, fails, send, sending, send_both, interrupt_all, close_found, close_session,
  answer, reject_found, reject,
}

module _ {Container Info : Type 0} (protocol : Protocol Container Info) (config : Config Container)
    (answers : Environment Info) where
  -- A property of the books alone: neither the sessions nor what was sent matter.
  abbrev pub IsOfBooks : (Server Container Info → Type 0) → Type 0
  IsOfBooks P =
      (s : Server Container Info) (sessions : List (Bytes × Container)) (trace : Trace Info)
      → P s
      → P (record s { sessions = sessions; trace = trace })

  module _ (P : Server Container Info → Type 0) (books : IsOfBooks P) where
    pub send-Preserves : (frame : Frame Info) → Preserves P (send protocol config answers frame)
    unfolding send sending
    send-Preserves frame s h =
        elim (answers s.trace frame)
          as (λ a. Ends (λ _. P) P (sending protocol config answers frame a s)) [
            | sent ↦ books s s.sessions _ h
            | would_block ↦ books s s.sessions _ h
            | fails ↦ books s s.sessions _ h
          ]

    pub send_both-Preserves :
        (first second : Frame Info) → Preserves P (send_both protocol config answers first second)
    unfolding send_both
    send_both-Preserves first second =
        Preserves-bind P (send protocol config answers first) _ (send-Preserves first)
          (λ ok. Preserves-if P ok _ _ (send-Preserves second) (λ s h. h))

    pub interrupt_all-Preserves :
        (ids : List ℕ) → Preserves P (interrupt_all protocol config answers ids)
    unfolding interrupt_all
    interrupt_all-Preserves ids = Preserves-for_each P ids _ (λ id.
        Preserves-bind P (send protocol config answers (interrupt id)) _
          (send-Preserves (interrupt id)) (λ _ s h. h))

    pub close_found-Preserves :
        (identity : Bytes) (o : Option Container)
        → Preserves P (close_found protocol config answers identity o)
    unfolding close_found
    close_found-Preserves identity none = λ s h. tt
    close_found-Preserves identity (some session) =
        Preserves-bind P (interrupt_all protocol config answers (protocol.enqueued session)) _
          (interrupt_all-Preserves (protocol.enqueued session)) (λ _ t k. books t _ t.trace k)

    pub close_session-Preserves :
        (identity : Bytes) → Preserves P (close_session protocol config answers identity)
    unfolding close_session
    close_session-Preserves identity s = close_found-Preserves identity (find identity s.sessions) s

    pub close_if-Preserves :
        (closed : Bool) (identity : Bytes)
        → Preserves P (if closed then close_session protocol config answers identity else return tt)
    close_if-Preserves closed identity =
        Preserves-if P closed _ _ (close_session-Preserves identity) (λ s h. h)

    pub reject_found-Preserves :
        (requester : Bytes) (o : Option Container)
        → Preserves P (reject_found protocol config answers requester o)
    unfolding reject_found
    reject_found-Preserves requester none = λ s h. tt
    reject_found-Preserves requester (some session) =
        Preserves-bind P
          (send_both protocol config answers (client_identity requester) (client_bytes [])) _
          (send_both-Preserves (client_identity requester) (client_bytes []))
          (λ closed. close_if-Preserves closed requester)

    pub reject-Preserves :
        (requester : Bytes) → Preserves P (reject protocol config answers requester)
    unfolding reject
    reject-Preserves requester s = reject_found-Preserves requester (find requester s.sessions) s

    pub answer-Preserves :
        (info : Info) (response identity : Bytes)
        → Preserves P (answer protocol config answers info response identity)
    unfolding answer
    answer-Preserves info response identity =
        Preserves-bind P _ _
          (send_both-Preserves (client_identity identity) (client_bytes response))
          (λ _.
            Preserves-bind P _ _
              (Preserves-if P (not (protocol.keep_alive info)) _ _
                (send_both-Preserves (client_identity identity) (client_bytes [])) (λ s h. h))
              (λ closed. close_if-Preserves closed identity))
