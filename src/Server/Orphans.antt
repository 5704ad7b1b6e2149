-- ===== src/Server/Orphans.antt =====
-- Two paths on which the server leaves its own books or objects in disorder.
use prime_server.Prelude.{
  ℕ, ◌+◌, ◌%◌, ◌^◌, Bool, true, false, none, some, List, [], ◌∷◌, ◌++◌, Bytes, ◌≡◌, refl, sym, ap,
  ◌∙◌,
}
use prime_server.Prelude.Maps.{
  nat_key, bytes_key, find, emplace, assign, erase, find-erase_self, find-assign_self,
  find-emplace_self,
}
use prime_server.Prelude.Effects.{value, undefined, for_each}
use prime_server.Server.{
  Protocol, Config, Environment, Server, Trace, client_identity, client_bytes, interrupt, sent,
  rejected, send, sending, send_both, interrupt_all, close_found, close_session, key, answer,
  dequeue_found, dequeue, remember_found, remember, forward, forward_job, accept, take_id,
  enqueue_as, enqueue_one, enqueue_each, write_session, enqueue_parsed, enqueue, reject_found,
  reject, handle_frames, handle_request,
}
use prime_server.Server.{is_health_check}

module _ {Container Info : Type 0} (protocol : Protocol Container Info)
    (config : Config Container) where
  -- Every frame goes out.
  abbrev pub all_sent : Environment Info
  all_sent trace frame = sent

  interrupt_all_sent :
      (ids : List ℕ) (s : Server Container Info)
      → (trace : Trace Info) × (interrupt_all protocol config all_sent ids s
          ≡ value tt (record s { trace = trace }))
  unfolding interrupt_all for_each send sending
  interrupt_all_sent [] s = (s.trace, refl)
  interrupt_all_sent (id ∷ ids) s =
      interrupt_all_sent ids (record s { trace = (interrupt id, sent) ∷ s.trace })

  close_session_sent :
      (requester : Bytes) (session : Container) (s : Server Container Info)
      → find requester s.sessions ≡ some session
      → (trace : Trace Info) × (close_session protocol config all_sent requester s
          ≡ value tt (record s { sessions = erase requester s.sessions; trace = trace }))
  unfolding close_session close_found
  close_session_sent requester session s e =
      let (trace, out) = interrupt_all_sent (protocol.enqueued session) s in
      (trace, rw (e, close_found) (rw out))

  reject_sent :
      (requester : Bytes) (session : Container) (s : Server Container Info)
      → find requester s.sessions ≡ some session
      → (trace : Trace Info) × (reject protocol config all_sent requester s
          ≡ value tt (record s { sessions = erase requester s.sessions; trace = trace }))
  unfolding reject reject_found send_both send sending
  reject_sent requester session s e =
      let (trace, out) =
        close_session_sent requester session
          (record s {
            trace = (client_bytes [], sent) ∷ (client_identity requester, sent) ∷ s.trace;
          })
          e in
      (trace, rw (e, reject_found) out)

  -- When every frame goes out, a client with a session whose bytes the protocol rejects loses its
  -- session, but no request is taken off the books, unlike at a disconnect.
  pub handle_request_rejected :
      (now : ℕ) (requester : Bytes) (c : ℕ) (cs reply : Bytes) (session container : Container)
      (s : Server Container Info)
      → find requester s.sessions ≡ some session
      → protocol.from_stream config.max_request_size session (c ∷ cs) ≡ rejected container reply
      → (t : Server Container Info) × (handle_request protocol config all_sent now
            (requester ∷ (c ∷ cs) ∷ [])
            s
          ≡ value tt t)
        × (find requester t.sessions ≡ none)
        × (t.requests ≡ s.requests)
  unfolding handle_request handle_frames enqueue enqueue_parsed write_session send_both send sending
  handle_request_rejected now requester c cs reply session container s e r =
      let written = record s {
        sessions = assign requester container s.sessions;
        request_id = (s.request_id + 1) % 2 ^ 32;
        trace = (client_bytes reply, sent) ∷ (client_identity requester, sent) ∷ s.trace;
      } in
      let (trace, out) =
        reject_sent requester container written
          (find-assign_self requester container session s.sessions e) in
      (
        record written { sessions = erase requester written.sessions; trace = trace },
        rw (e, handle_frames) (rw (r, enqueue_parsed) out),
        find-erase_self requester written.sessions,
        refl,
      )

  answer_sent :
      (info : Info) (response requester : Bytes) (session : Container) (s : Server Container Info)
      → protocol.keep_alive info ≡ false
      → find requester s.sessions ≡ some session
      → (trace : Trace Info) × (answer protocol config all_sent info response requester s
          ≡ value tt (record s { sessions = erase requester s.sessions; trace = trace }))
  unfolding answer send_both send sending
  answer_sent info response requester session s close e =
      let (trace, out) =
        close_session_sent requester session
          (record s {
            trace =
                (client_bytes [], sent)
                ∷ (client_identity requester, sent)
                ∷ (client_bytes response, sent)
                ∷ (client_identity requester, sent)
                ∷ s.trace;
          })
          e in
      (trace, rw close out)

  dequeue_sent :
      (info : Info) (response requester : Bytes) (session : Container) (s : Server Container Info)
      → protocol.keep_alive info ≡ false
      → find requester s.sessions ≡ some session
      → find (key protocol info) s.requests ≡ some requester
      → (t : Server Container Info) × (dequeue protocol config all_sent info response s
          ≡ value true t)
        × (find requester t.sessions ≡ none)
  unfolding dequeue
  dequeue_sent info response requester session s close e r =
      let (trace, out) = answer_sent info response requester session s close e in
      (
        record s {
          sessions = erase requester s.sessions;
          requests = erase (key protocol info) s.requests;
          trace = trace;
        },
        rw (r, dequeue_found) (rw out),
        find-erase_self requester s.sessions,
      )

  accept_sent :
      (requester : Bytes) (info : Info) (session : Container) (s : Server Container Info)
      → protocol.keep_alive info ≡ false
      → find requester s.sessions ≡ some session
      → find (key protocol info) s.requests ≡ none
      → (t : Server Container Info) × (accept protocol config all_sent true requester info s
          ≡ value true t)
        × (find requester t.sessions ≡ none)
  unfolding accept remember remember_found
  accept_sent requester info session s close e fresh =
      let marked =
        protocol.with_enqueued session (protocol.enqueued session ++ key protocol info ∷ []) in
      let booked = record s {
        sessions = assign requester marked s.sessions;
        requests = emplace (key protocol info) requester s.requests;
        request_history = s.request_history ++ info ∷ [];
      } in
      let (t, out, gone) =
        dequeue_sent info config.health_check_response requester marked booked close
          (find-assign_self requester marked session s.sessions e)
          (find-emplace_self (key protocol info) requester s.requests fresh) in
      (t, rw (e, remember_found) (rw out), gone)

  enqueue_as_dangles :
      (health_check : Bool) (requester : Bytes) (request : Container) (info : Info)
      (s : Server Container Info)
      → (health_check ≡ false → (job : Bytes) × (protocol.to_string request ≡ some job))
      → find requester s.sessions ≡ none
      → enqueue_as protocol config all_sent health_check requester request info s ≡ undefined
  unfolding enqueue_as accept remember remember_found forward forward_job send sending
  enqueue_as_dangles true requester request info s written gone = rw (gone, remember_found)
  enqueue_as_dangles false requester request info s written gone =
      rw ((written refl).1, forward_job) (rw (gone, remember_found))

  enqueue_one_sent :
      (now : ℕ) (requester : Bytes) (session first : Container) (s : Server Container Info)
      → is_health_check protocol config all_sent config.health_check_matcher first ≡ true
      → protocol.keep_alive (protocol.to_info first s.request_id now) ≡ false
      → find requester s.sessions ≡ some session
      → find (key protocol (protocol.to_info first s.request_id now)) s.requests ≡ none
      → (t : Server Container Info) × (enqueue_one protocol config all_sent now requester first s
          ≡ value true t)
        × (find requester t.sessions ≡ none)
  unfolding enqueue_one enqueue_as forward
  enqueue_one_sent now requester session first s hc close e fresh =
      let (t, out, gone) =
        accept_sent requester (protocol.to_info first s.request_id now) session
          (take_id protocol config all_sent s) close e fresh in
      (t, rw (hc, forward) out, gone)

  enqueue_one_dangles :
      (now : ℕ) (requester : Bytes) (request : Container) (s : Server Container Info)
      → (is_health_check protocol config all_sent config.health_check_matcher request ≡ false
          → (job : Bytes) × (protocol.to_string request ≡ some job))
      → find requester s.sessions ≡ none
      → enqueue_one protocol config all_sent now requester request s ≡ undefined
  unfolding enqueue_one
  enqueue_one_dangles now requester request s written gone =
      enqueue_as_dangles
        (is_health_check protocol config all_sent config.health_check_matcher request) requester
        request (protocol.to_info request s.request_id now) s written gone

  -- Two requests in one message, of which the first is a health check on a connection that is not
  -- kept alive, with a key that is not in use, and the second is a health check, too, or `to_string`
  -- of it does not throw, and every frame goes out: the answer to the first ends the session that
  -- the code then works on, which is undefined behaviour.
  pub enqueue_each_dangles :
      (now : ℕ) (requester : Bytes) (matcher : Container → Bool) (session first second : Container)
      (rest : List Container) (s : Server Container Info)
      → config.health_check_matcher ≡ some matcher
      → matcher first ≡ true
      → protocol.keep_alive (protocol.to_info first s.request_id now) ≡ false
      → find requester s.sessions ≡ some session
      → find (key protocol (protocol.to_info first s.request_id now)) s.requests ≡ none
      → (matcher second ≡ false → (job : Bytes) × (protocol.to_string second ≡ some job))
      → enqueue_each protocol config all_sent now requester (first ∷ second ∷ rest) s ≡ undefined
  unfolding enqueue_each
  enqueue_each_dangles now requester matcher session first second rest s m hc close e fresh
        written =
      let health_check = ap (λ o. is_health_check protocol config all_sent o first) m ∙ hc in
      let matched = ap (λ o. is_health_check protocol config all_sent o second) m in
      let (t, out, gone) =
        enqueue_one_sent now requester session first s health_check close e fresh in
      rw out (rw (enqueue_one_dangles now requester second t (λ h. written (sym matched ∙ h)) gone))
