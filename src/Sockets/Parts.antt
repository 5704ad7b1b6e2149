-- ===== src/Sockets/Parts.antt =====
-- The parts that `send_all` sends are one message for `recv_all`.
use prime_server.Prelude.{
  ℕ, ◌+◌, true, false, List, [], ◌∷◌, ◌++◌, Bytes, length, ◌≡◌, refl, ap, ◌∙◌, arith, append_assoc,
}
use prime_server.Prelude.Effects.{value}
use prime_server.Sockets.{
  got, Part, read, recv_loop, after_recv, recv_all, Frame, Sending, sent, Wire, sending, send_from,
  send_all,
}

-- What arrives of a frame.
abbrev pub arrives : Wire → List Part
arrives [] = []
arrives ((message, more) ∷ wire) = record { received = got message; more = more } ∷ arrives wire

abbrev pub all_sent : Wire → Frame → Sending
all_sent wire frame = sent

-- The frames of a message.
abbrev frames : Bytes → List Bytes → Wire
frames first [] = (first, false) ∷ []
frames first (second ∷ rest) = (first, true) ∷ frames second rest

send_from-frames :
    (first : Bytes) (rest : List Bytes) (total : ℕ) (wire : Wire)
    → send_from all_sent false first rest total wire
      ≡ value (total + length (first ∷ rest)) (wire ++ frames first rest)
unfolding send_from sending
send_from-frames first [] total wire = refl
send_from-frames first (second ∷ rest) total wire =
    let count : total + 1 + length (second ∷ rest) ≡ total + length (first ∷ second ∷ rest) =
      omega arith in
    send_from-frames second rest (total + 1) (wire ++ (first, true) ∷ [])
    ∙ rw (count) (
        ap (value (total + length (first ∷ second ∷ rest)))
          (append_assoc wire ((first, true) ∷ []) (frames second rest)))

recv_loop-frames :
    (first : Bytes) (rest messages : List Bytes) (behind : List Part)
    → recv_loop (arrives (frames first rest) ++ behind) messages ≡ read (messages ++ first ∷ rest)
unfolding recv_loop after_recv
recv_loop-frames first [] messages behind = refl
recv_loop-frames first (second ∷ rest) messages behind =
    recv_loop-frames second rest (messages ++ first ∷ []) behind
    ∙ ap read (append_assoc messages (first ∷ []) (second ∷ rest))

-- If all sends succeed, `send_all` of one or more messages counts them all, and `recv_all` makes the
-- same messages, and no more, of the frames that it sent, whatever comes behind them.
pub send_all-recv_all :
    (first : Bytes) (rest : List Bytes)
    → (wire : Wire) × (send_all all_sent false (first ∷ rest) []
        ≡ value (length (first ∷ rest)) wire)
      × ((behind : List Part) → recv_all (arrives wire ++ behind) ≡ read (first ∷ rest))
unfolding send_all recv_all
send_all-recv_all first rest =
    let count : 0 + length (first ∷ rest) ≡ length (first ∷ rest) = omega arith in
    (
      frames first rest,
      send_from-frames first rest 0 [] ∙ ap (λ n. value n (frames first rest)) count,
      recv_loop-frames first rest [],
    )
