-- ===== src/Server.antt =====
-- src/prime_server.cpp: `server_t`, between the clients on a stream socket and the workers.
--
-- The template's two classes are `Container` and `Info`, with the operations that `server_t` calls
-- collected in `Protocol`. ZeroMQ is the environment: `answers` says what each `zmq_send` does,
-- given all that was sent before. `now` is the clock, read once for each call of a handler. What
-- goes to the log only is left out.

pub mod Bookkeeping
pub mod Tracking
pub mod Timeouts
pub mod Replies
pub mod Orphans
pub mod Sends
pub mod Defined
use prime_server.Prelude.{
  ℕ, zero, suc, ◌+◌, ◌-◌, ◌*◌, ◌%◌, ◌^◌, ◌<◌, Bool, true, false, not, ◌&&◌, ◌||◌, Option, none,
  some, List, [], ◌∷◌, ◌++◌, ltb, if◌then◌else◌, length, Bytes, ◌≡◌,
}
use prime_server.Prelude.Maps.{Key, nat_key, bytes_key, find, emplace, assign, erase}
use prime_server.Prelude.Effects.{
  Exit, value, raised, undefined, M, return, after_exit, ◌>>=◌, ◌>>◌, modify, for_each, caught,
  try_log,
}

-- `from_stream`: requests, the protocol's own exception with its reply, or another exception.
pub data Parse (Container : Type 0) : Type 0 where
  parsed : Container → List Container → Parse Container
  rejected : Container → Bytes → Parse Container
  escaped : Container → Parse Container

pub record Protocol (Container Info : Type 0) : Type 0 where
  pub fresh : Container
  pub from_stream : ℕ → Container → Bytes → Parse Container
  -- none if it throws
  pub to_string : Container → Option Bytes
  -- the arguments are the id and the clock
  pub to_info : Container → ℕ → ℕ → Info
  pub enqueued : Container → List ℕ
  pub with_enqueued : Container → List ℕ → Container
  pub id : Info → ℕ
  pub time_stamp : Info → ℕ
  pub keep_alive : Info → Bool
  -- the reply, and the info with the response code that it gets
  pub timeout : Info → Info × Bytes
  -- the info that a frame holds, none if the frame is shorter than that
  pub read_info : Bytes → Option Info

-- `operator uint64_t`: the id in the low half, the time stamp in the high half.
unfoldable pub request_key : ℕ → ℕ → ℕ
request_key id time_stamp = id % 2 ^ 32 + (time_stamp % 2 ^ 32) * 2 ^ 32

abbrev pub key : {Container Info : Type 0} → Protocol Container Info → Info → ℕ
key protocol info = request_key (protocol.id info) (protocol.time_stamp info)

-- `timeout` writes the response code and nothing else of the info.
pub record IsLawful {Container Info : Type 0} (protocol : Protocol Container Info) : Type 0 where
  pub timeout_id : (info : Info) → protocol.id (protocol.timeout info).0 ≡ protocol.id info
  pub timeout_time_stamp :
      (info : Info) → protocol.time_stamp (protocol.timeout info).0 ≡ protocol.time_stamp info

-- What goes out: frames to a client (an identity, then bytes for it), to the proxy, and interrupts.
pub data Frame (Info : Type 0) : Type 0 where
  client_identity : Bytes → Frame Info
  client_bytes : Bytes → Frame Info
  proxy_info : Info → Frame Info
  proxy_job : Bytes → Frame Info
  interrupt : ℕ → Frame Info

-- `zmq_send` sends, reports `EAGAIN`, or fails in another way, at which `socket_t::send` throws.
pub data Sending : Type 0 where
  sent would_block fails : Sending

abbrev pub Trace : Type 0 → Type 0
Trace Info = List (Frame Info × Sending)

abbrev pub Environment : Type 0 → Type 0
Environment Info = Trace Info → Frame Info → Sending

pub record Config (Container : Type 0) : Type 0 where
  pub max_request_size : ℕ
  pub request_timeout : ℕ
  pub health_check_matcher : Option (Container → Bool)
  pub health_check_response : Bytes

-- The members of `server_t`, and what it has sent so far, the latest first.
pub record Server (Container Info : Type 0) : Type 0 where
  pub request_id : ℕ
  pub sessions : List (Bytes × Container)
  pub requests : List (ℕ × Bytes)
  pub request_history : List Info
  pub trace : Trace Info

-- `std::list::pop_front`.
abbrev pub pop_front : {A : Type 0} → List A → List A
pop_front [] = []
pop_front (x ∷ xs) = xs

-- `std::list::back` of a list that is not empty.
abbrev pub back : Bytes → List Bytes → Bytes
back last [] = last
back first (next ∷ rest) = back next rest

-- The front of the history, written over.
abbrev pub mark : {A : Type 0} → A → List A → List A
mark y [] = []
mark y (x ∷ xs) = y ∷ xs

-- What one round of `serve` finds on its two sockets, the frames of a message each, and the clock.
pub record Poll : Type 0 where
  pub result : Option (List Bytes)
  pub request : Option (List Bytes)
  pub now : ℕ

module _ {Container Info : Type 0} (protocol : Protocol Container Info) (config : Config Container)
    (answers : Environment Info) where
  abbrev pub State : Type 0
  State = Server Container Info

  unfoldable pub sending : Frame Info → Sending → State → Exit State Bool
  sending frame sent s = value true (record s { trace = (frame, sent) ∷ s.trace })
  sending frame would_block s = value false (record s { trace = (frame, would_block) ∷ s.trace })
  sending frame fails s = raised (record s { trace = (frame, fails) ∷ s.trace })

  -- `socket_t::send`.
  unfoldable pub send : Frame Info → M State Bool
  unfolding sending
  send frame s = sending frame (answers s.trace frame) s

  -- `send(first) && send(second)`.
  unfoldable pub send_both : Frame Info → Frame Info → M State Bool
  send_both first second = do ok ← send first; (if ok then send second else return false)

  unfoldable pub interrupt_all : List ℕ → M State (Unit {0})
  interrupt_all ids = for_each ids (λ id. do _ ← send (interrupt id); return tt)

  -- What `dequeue` does with the session of a request that is not to be kept alive. The source
  -- reads `session->second` without a test, also at `end()`.
  unfoldable pub close_found : Bytes → Option Container → M State (Unit {0})
  close_found identity none = λ _. undefined
  close_found identity (some session) = do
    interrupt_all (protocol.enqueued session)
    modify (λ s. record s { sessions = erase identity s.sessions })

  unfoldable pub close_session : Bytes → M State (Unit {0})
  unfolding close_found
  close_session identity s = close_found identity (find identity s.sessions) s

  -- The response or error to the client; then, unless it is kept alive, the disconnect message and
  -- the end of its session.
  unfoldable pub answer : Info → Bytes → Bytes → M State (Unit {0})
  unfolding send_both close_session
  answer info response identity = do
    _ ← send_both (client_identity identity) (client_bytes response)
    closed ←
        (if not (protocol.keep_alive info)
          then send_both (client_identity identity) (client_bytes [])
          else return false)
    (if closed then close_session identity else return tt)

  unfoldable pub dequeue_found : Info → Bytes → Option Bytes → M State Bool
  unfolding answer
  dequeue_found info response none = return false
  dequeue_found info response (some identity) = do
    answer info response identity
    modify (λ s. record s { requests = erase (key protocol info) s.requests })
    return true

  unfoldable pub dequeue : Info → Bytes → M State Bool
  unfolding dequeue_found
  dequeue info response s = dequeue_found info response (find (key protocol info) s.requests) s

  -- `request.enqueued.emplace_back`, `requests.emplace` and `request_history.emplace_back`. The
  -- reference `request` dangles when the session is gone.
  unfoldable pub remember_found : Bytes → Info → Option Container → M State (Unit {0})
  remember_found requester info none = λ _. undefined
  remember_found requester info (some session) = modify (λ s. record s {
    sessions =
        assign requester
          (protocol.with_enqueued session (protocol.enqueued session ++ key protocol info ∷ []))
          s.sessions;
    requests = emplace (key protocol info) requester s.requests;
    request_history = s.request_history ++ info ∷ [];
  })

  unfoldable pub remember : Bytes → Info → M State (Unit {0})
  unfolding remember_found
  remember requester info s = remember_found requester info (find requester s.sessions) s

  abbrev pub is_health_check : Option (Container → Bool) → Container → Bool
  is_health_check none request = false
  is_health_check (some matcher) request = matcher request

  unfoldable pub forward_job : Option Bytes → M State Bool
  unfolding send
  forward_job none = raised
  forward_job (some job) = send (proxy_job job)

  -- `to_string` is called when the info is sent already.
  unfoldable pub forward : Bool → Info → Container → M State Bool
  unfolding forward_job
  forward true info request = return true
  forward false info request = do
    ok ← send (proxy_info info)
    (if ok then forward_job (protocol.to_string request) else return false)

  -- A request that was forwarded, or that is a health check and is answered at once.
  unfoldable pub accept : Bool → Bytes → Info → M State Bool
  unfolding remember dequeue
  accept health_check requester info = do
    remember requester info
    _ ← (if health_check then dequeue info config.health_check_response else return true)
    return true

  abbrev pub take_id : State → State
  take_id s = record s { request_id = (s.request_id + 1) % 2 ^ 32 }

  unfoldable pub enqueue_as : Bool → Bytes → Container → Info → M State Bool
  unfolding forward accept
  enqueue_as health_check requester request info = do
    modify take_id
    forwarded ← forward health_check info request
    (if forwarded then accept health_check requester info else return false)

  -- The body of the loop over the parsed requests; `false` is its early return.
  unfoldable pub enqueue_one : ℕ → Bytes → Container → M State Bool
  unfolding enqueue_as
  enqueue_one now requester request s =
      enqueue_as (is_health_check config.health_check_matcher request) requester request
        (protocol.to_info request s.request_id now) s

  unfoldable pub enqueue_each : ℕ → Bytes → List Container → M State Bool
  unfolding enqueue_one
  enqueue_each now requester [] = return true
  enqueue_each now requester (request ∷ rest) = do
    going ← enqueue_one now requester request
    let others = enqueue_each now requester rest
    (if going then others else return false)

  -- The parser works on the container in the session, also when it throws.
  unfoldable pub write_session : Bytes → Container → M State (Unit {0})
  write_session requester container =
      modify (λ s. record s { sessions = assign requester container s.sessions })

  unfoldable pub enqueue_parsed : ℕ → Bytes → Parse Container → M State Bool
  unfolding write_session enqueue_each send_both
  enqueue_parsed now requester (parsed container requests) = do
    write_session requester container
    enqueue_each now requester requests
  enqueue_parsed now requester (rejected container reply) = do
    write_session requester container
    _ ← send_both (client_identity requester) (client_bytes reply)
    modify take_id
    return false
  enqueue_parsed now requester (escaped container) =
      λ s. raised (record s { sessions = assign requester container s.sessions })

  -- `enqueue(session->first, body, session->second)`.
  unfoldable pub enqueue : ℕ → Bytes → Bytes → Container → M State Bool
  unfolding enqueue_parsed
  enqueue now requester message request =
      enqueue_parsed now requester (protocol.from_stream config.max_request_size request message)

  unfoldable pub connect : Bytes → M State (Unit {0})
  connect requester =
      modify (λ s. record s { sessions = emplace requester protocol.fresh s.sessions })

  unfoldable pub disconnect : Bytes → Container → M State (Unit {0})
  disconnect requester session = do
    for_each (protocol.enqueued session) (λ id. do
      _ ← send (interrupt id)
      modify (λ s. record s { requests = erase id s.requests }))
    modify (λ s. record s { sessions = erase requester s.sessions })

  -- After a rejected request: the disconnect message, and the end of the session.
  unfoldable pub reject_found : Bytes → Option Container → M State (Unit {0})
  unfolding send_both close_session
  reject_found requester none = λ _. undefined
  reject_found requester (some session) = do
    closed ← send_both (client_identity requester) (client_bytes [])
    (if closed then close_session requester else return tt)

  unfoldable pub reject : Bytes → M State (Unit {0})
  unfolding reject_found
  reject requester s = reject_found requester (find requester s.sessions) s

  unfoldable pub handle_frames : ℕ → Bytes → Bytes → Option Container → M State (Unit {0})
  unfolding connect disconnect enqueue reject
  handle_frames now requester [] none = connect requester
  handle_frames now requester [] (some session) = disconnect requester session
  handle_frames now requester (c ∷ cs) none = return tt
  handle_frames now requester (c ∷ cs) (some session) = do
    ok ← enqueue now requester (c ∷ cs) session
    (if ok then return tt else reject requester)

  -- A message of two parts, an identity and a body; any other is ignored.
  unfoldable pub handle_request : ℕ → List Bytes → M State (Unit {0})
  unfolding handle_frames
  handle_request now (requester ∷ body ∷ []) s =
      handle_frames now requester body (find requester s.sessions) s
  handle_request now _ s = value tt s

  -- The front of the history has timed out; `timeout` marks it with the response code.
  unfoldable pub time_out : Info → M State (Unit {0})
  unfolding dequeue
  time_out info = do
    _ ← send (interrupt (key protocol info))
    let (marked, response) = protocol.timeout info
    modify (λ s. record s { request_history = mark marked s.request_history })
    _ ← dequeue marked response
    modify (λ s. record s { request_history = pop_front s.request_history })

  -- One round of the `while` of `handle_timeouts`; `again` is what follows it. `drop_dead` is an
  -- `int64_t` in the source; below zero it ends the loop, as zero does.
  unfoldable pub handle_timeouts_round : M State (Unit {0}) → ℕ → List Info → M State (Unit {0})
  unfolding time_out
  handle_timeouts_round again drop_dead [] = return tt
  handle_timeouts_round again drop_dead (info ∷ _) =
      if ltb 0 drop_dead && ltb (protocol.time_stamp info) drop_dead
      then time_out info >> again
      else return tt

  -- Each round pops one entry, so a round for each entry is enough.
  unfoldable pub handle_timeouts_loop : ℕ → ℕ → M State (Unit {0})
  unfolding handle_timeouts_round
  handle_timeouts_loop zero drop_dead = return tt
  handle_timeouts_loop (suc rounds) drop_dead = λ s.
      handle_timeouts_round (handle_timeouts_loop rounds drop_dead) drop_dead s.request_history s

  unfoldable pub handle_timeouts : ℕ → M State (Unit {0})
  unfolding handle_timeouts_loop
  handle_timeouts now s =
      handle_timeouts_loop (length s.request_history) (now - config.request_timeout) s

  -- The cast of a frame that is too short for an info reads past its end.
  unfoldable pub handle_info : Option Info → Bytes → M State (Unit {0})
  unfolding dequeue
  handle_info none response = λ _. undefined
  handle_info (some info) response = try_log (do _ ← dequeue info response; return tt)

  -- `front()` and `back()` of a message; `recv_all` gives no frame when there is nothing to receive.
  unfoldable pub handle_result : Option (List Bytes) → M State (Unit {0})
  unfolding handle_info
  handle_result none = return tt
  handle_result (some []) = λ _. undefined
  handle_result (some (first ∷ rest)) = handle_info (protocol.read_info first) (back first rest)

  unfoldable pub handle_message : ℕ → Option (List Bytes) → M State (Unit {0})
  unfolding handle_request
  handle_message now none = return tt
  handle_message now (some messages) = try_log (handle_request now messages)

  -- One round of `serve`. The timeouts are outside the `try` blocks.
  unfoldable pub serve_once : Poll → M State (Unit {0})
  unfolding handle_result handle_message handle_timeouts
  serve_once poll = do
    handle_result poll.result
    handle_message poll.now poll.request
    handle_timeouts poll.now

  -- The rounds until `shutting_down()`.
  unfoldable pub serve : List Poll → M State (Unit {0})
  unfolding serve_once
  serve [] = return tt
  serve (poll ∷ polls) = do serve_once poll; serve polls
