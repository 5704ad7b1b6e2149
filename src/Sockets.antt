-- ===== src/Sockets.antt =====
-- src/zmq_helpers.cpp: `socket_t::recv_all` and `socket_t::send_all`, which move messages of several
-- parts.
--
-- ZeroMQ is the environment: what each receive brings, with what `ZMQ_RCVMORE` says behind it, is a
-- list, which ends where a receive does not return; what a send does is a function of what was sent
-- before. A frame is what is sent, and whether `ZMQ_SNDMORE` is set.
pub mod Parts
use prime_server.Prelude.{ℕ, zero, suc, ◌+◌, Bool, true, false, ◌||◌, List, [], ◌∷◌, ◌++◌, Bytes}
use prime_server.Prelude.Effects.{Exit, value, raised, undefined, M, return, ◌>>=◌}

pub data Received : Type 0 where
  got : Bytes → Received
  again : Received
  fails : Received

pub record Part : Type 0 where
  pub received : Received
  pub more : Bool

pub data Reading : Type 0 where
  read : List Bytes → Reading
  thrown : Reading
  waits : Reading

-- Behind a receive, and out of the loop without more parts.
unfoldable pub after_recv : (List Bytes → Reading) → Received → Bool → List Bytes → Reading
after_recv next (got message) true messages = next (messages ++ message ∷ [])
after_recv next (got message) false messages = read (messages ++ message ∷ [])
after_recv next again true messages = next messages
after_recv next again false messages = read messages
after_recv next fails more messages = thrown

unfoldable pub recv_loop : List Part → List Bytes → Reading
unfolding after_recv
recv_loop [] messages = waits
recv_loop (part ∷ parts) messages = after_recv (recv_loop parts) part.received part.more messages

unfoldable pub recv_all : List Part → Reading
unfolding recv_loop
recv_all parts = recv_loop parts []

abbrev pub Frame : Type 0
Frame = Bytes × Bool

pub data Sending : Type 0 where
  sent : Sending
  would_block : Sending
  refused : Sending

-- The frames that went out, the first first.
abbrev pub Wire : Type 0
Wire = List Frame

-- Whether it was sent, as a number.
unfoldable pub sending : Frame → Sending → M Wire ℕ
sending frame sent wire = value 1 (wire ++ frame ∷ [])
sending frame would_block wire = value 0 wire
sending frame refused wire = raised wire

-- The messages from one on; all but the last get `ZMQ_SNDMORE`, and the last has it if `flags` do.
unfoldable pub send_from : (Wire → Frame → Sending) → Bool → Bytes → List Bytes → ℕ → M Wire ℕ
unfolding sending
send_from answers more first [] total =
    λ wire. (sending (first, more) (answers wire (first, more)) >>= λ n. return (total + n)) wire
send_from answers more first (second ∷ rest) total = λ wire.
    (sending (first, true) (answers wire (first, true)) >>= λ n.
    send_from answers more second rest (total + n))
      wire

-- `messages.back()` of no messages is undefined behaviour.
unfoldable pub send_all : (Wire → Frame → Sending) → Bool → List Bytes → M Wire ℕ
unfolding send_from
send_all answers more [] = λ wire. undefined
send_all answers more (first ∷ rest) = send_from answers more first rest 0
