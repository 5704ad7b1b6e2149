-- ===== src/Server/Sends.antt =====
-- What the server sends leaves its sessions, while connections are kept alive.
use prime_server.Prelude.{
  ℕ, Bool, true, false, Option, none, some, List, Bytes, ◌≡◌, refl, sym, ap, ◌∙◌,
}
use prime_server.Prelude.Maps.{nat_key, bytes_key, find}
use prime_server.Server.{
  Protocol, Config, Environment, Server, Frame, client_identity, client_bytes, proxy_info,
  proxy_job, interrupt, Sending, sent, would_block, fails, send, sending, send_both, interrupt_all,
  key, answer, dequeue_found, dequeue, forward_job, forward,
}
use prime_server.Prelude.Yields.{Yields, Takes, Any, Takes-bind, Takes-if, Takes-for_each}

module _ {Container Info : Type 0} where
  -- A property of the sessions alone.
  abbrev pub IsOfSessions : (Server Container Info → Type 0) → Type 0
  IsOfSessions P = (s t : Server Container Info) → s.sessions ≡ t.sessions → P s → P t

  -- The client has a session.
  abbrev pub HasSession : Bytes → Server Container Info → Type 0
  HasSession requester s = (session : Container) × (find requester s.sessions ≡ some session)

  pub HasSession-IsOfSessions : (requester : Bytes) → IsOfSessions (HasSession requester)
  HasSession-IsOfSessions requester s t e h = (h.0, ap (find requester) (sym e) ∙ h.1)

  pub Any-IsOfSessions : IsOfSessions Any
  Any-IsOfSessions s t e h = tt

module _ {Container Info : Type 0} (protocol : Protocol Container Info) (config : Config Container)
    (answers : Environment Info) where
  module _ (P : Server Container Info → Type 0) (free : IsOfSessions P) where
    sending-Yields :
        (frame : Frame Info) (outcome : Sending) (s : Server Container Info)
        → P s
        → Yields P (sending protocol config answers frame outcome s)
    unfolding sending
    sending-Yields frame sent s p = free s _ refl p
    sending-Yields frame would_block s p = free s _ refl p
    sending-Yields frame fails s p = tt

    pub send-Takes : (frame : Frame Info) → Takes P P (send protocol config answers frame)
    unfolding send
    send-Takes frame s p = sending-Yields frame (answers s.trace frame) s p

    pub send_both-Takes :
        (first second : Frame Info) → Takes P P (send_both protocol config answers first second)
    unfolding send_both
    send_both-Takes first second =
        Takes-bind P P P (send protocol config answers first) _ (send-Takes first)
          (λ ok. Takes-if P P ok _ _ (send-Takes second) (λ s p. p))

    pub interrupt_all-Takes : (ids : List ℕ) → Takes P P (interrupt_all protocol config answers ids)
    unfolding interrupt_all
    interrupt_all-Takes ids = Takes-for_each P ids _ (λ id.
        Takes-bind P P P (send protocol config answers (interrupt id)) _ (send-Takes (interrupt id))
          (λ _ s p. p))

    forward_job-Takes : (job : Option Bytes) → Takes P P (forward_job protocol config answers job)
    unfolding forward_job
    forward_job-Takes none = λ s p. tt
    forward_job-Takes (some job) = send-Takes (proxy_job job)

    pub forward-Takes :
        (health_check : Bool) (info : Info) (request : Container)
        → Takes P P (forward protocol config answers health_check info request)
    unfolding forward
    forward-Takes true info request = λ s p. p
    forward-Takes false info request =
        Takes-bind P P P _ _ (send-Takes (proxy_info info))
          (λ ok. Takes-if P P ok _ _ (forward_job-Takes (protocol.to_string request)) (λ s p. p))

    module _ (kept : (info : Info) → protocol.keep_alive info ≡ true) where
      pub answer-Takes :
          (info : Info) (response identity : Bytes)
          → Takes P P (answer protocol config answers info response identity)
      unfolding answer
      answer-Takes info response identity =
          Takes-bind P P P _ _ (send_both-Takes (client_identity identity) (client_bytes response))
            (λ _. rw (kept info) (λ s p. p))

      pub dequeue_found-Takes :
          (info : Info) (response : Bytes) (o : Option Bytes)
          → Takes P P (dequeue_found protocol config answers info response o)
      unfolding dequeue_found
      dequeue_found-Takes info response none = λ s p. p
      dequeue_found-Takes info response (some identity) =
          Takes-bind P P P _ _ (answer-Takes info response identity) (λ _ s p. free s _ refl p)

      pub dequeue-Takes :
          (info : Info) (response : Bytes)
          → Takes P P (dequeue protocol config answers info response)
      unfolding dequeue
      dequeue-Takes info response s p =
          dequeue_found-Takes info response (find (key protocol info) s.requests) s p
