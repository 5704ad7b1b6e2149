-- ===== src/Client/Flow.antt =====
-- No more than `batch_size` requests are without a response at any time.
use prime_server.Prelude.{
  ℕ, zero, suc, ◌+◌, ◌≤◌, Bool, true, false, List, [], ◌∷◌, ltb, ltb→le, length, Bytes, ◌≡◌, refl,
  arith, Bool-cases, inl, inr,
}
use prime_server.Client.{
  Streaming, streamed, thrown, escaped, StreamResponses, Offer, offers, throws, Receipt, Batch,
  Ended, finished, waits, leaves, undefined, take_offer, send_requests, Passed, passed, left_by,
  broken, on_streaming, on_frames, receive, go_on, after_pass, receive_loop, rounds, is_connection,
  start, batch,
}

-- What is on its way fits the batch.
pub HasFlow : {S : Type 0} → ℕ → Batch S → Type 0
HasFlow batch_size b = length b.sent ≤ b.collected + batch_size

pub EndsInFlow : {S : Type 0} → ℕ → Ended S → Type 0
EndsInFlow batch_size (finished b) = HasFlow batch_size b
EndsInFlow batch_size (waits b) = HasFlow batch_size b
EndsInFlow batch_size (leaves b) = HasFlow batch_size b
EndsInFlow batch_size undefined = Unit

module _ {S : Type 0} where
  abbrev HasRoom : ℕ → ℕ → Batch S → Type 0
  HasRoom batch_size current b = length b.sent + current ≤ b.collected + batch_size

  Grows : ℕ → Batch S → Batch S → Type 0
  Grows left b b' = (length b'.sent ≤ length b.sent + left) × (b'.collected ≡ b.collected)

  same-Grows : (b : Batch S) → Grows 0 b b
  unfolding Grows
  same-Grows b = (omega arith, refl)

  take_offer-Grows :
      (left : ℕ) (again : Batch S → Batch S) (o : Offer) (b : Batch S)
      → ((c : Batch S) → Grows left c (again c))
      → Grows (suc left) b (take_offer again o (record b { asked = suc b.asked }))
  unfolding take_offer Grows
  take_offer-Grows left again throws b next =
      let rest = next (record b { asked = suc b.asked }) in (omega (arith, rest.0), rest.1)
  take_offer-Grows left again (offers [] out) b next = (omega arith, refl)
  take_offer-Grows left again (offers (c ∷ cs) true) b next =
      let rest = next (record b { asked = suc b.asked; sent = (c ∷ cs) ∷ b.sent }) in
      (omega (arith, rest.0), rest.1)
  take_offer-Grows left again (offers (c ∷ cs) false) b next =
      let rest = next (record b { asked = suc b.asked }) in (omega (arith, rest.0), rest.1)

  send_requests-Grows :
      (ask : ℕ → Offer) (left : ℕ) (b : Batch S) → Grows left b (send_requests ask left b)
  unfolding send_requests
  send_requests-Grows ask zero b = same-Grows b
  send_requests-Grows ask (suc left) b =
      take_offer-Grows left (send_requests ask left) (ask b.asked) b (send_requests-Grows ask left)

  PassesInFlow : ℕ → Passed S → Type 0
  PassesInFlow batch_size (passed current more b) = HasRoom batch_size current b
  PassesInFlow batch_size (left_by b) = HasRoom batch_size 0 b
  PassesInFlow batch_size broken = Unit

  on_streaming-PassesInFlow :
      (batch_size current : ℕ) (b : Batch S) (r : Streaming S)
      → HasRoom batch_size current b
      → PassesInFlow batch_size (on_streaming current b r)
  unfolding on_streaming PassesInFlow
  on_streaming-PassesInFlow batch_size current b (streamed n more s) h = omega arith
  on_streaming-PassesInFlow batch_size current b (thrown more s) h = h
  on_streaming-PassesInFlow batch_size current b (escaped s) h = omega arith

  on_frames-PassesInFlow :
      (batch_size : ℕ) (stream : StreamResponses S) (current : ℕ) (more : Bool)
      (frames : List Bytes) (b : Batch S)
      → HasRoom batch_size current b
      → PassesInFlow batch_size (on_frames stream current more frames b)
  unfolding on_frames PassesInFlow
  on_frames-PassesInFlow batch_size stream current more [] b h = tt
  on_frames-PassesInFlow batch_size stream current more (identity ∷ []) b h = tt
  on_frames-PassesInFlow batch_size stream current more (identity ∷ (data_frame ∷ rest)) b h =
      on_streaming-PassesInFlow batch_size current b (stream data_frame more b.client) h

  receive-PassesInFlow :
      (batch_size : ℕ) (stream : StreamResponses S) (current : ℕ) (more : Bool) (r : Receipt)
      (b : Batch S)
      → HasRoom batch_size current b
      → PassesInFlow batch_size (receive stream current more r b)
  unfolding receive PassesInFlow
  receive-PassesInFlow batch_size stream current more r b h = elim (Bool-cases r.fails) [
    | inl fails ↦ rw fails h
    | inr works ↦ rw works (on_frames-PassesInFlow batch_size stream current more r.frames b h)
  ]

  finished-EndsInFlow :
      (batch_size current : ℕ) (b : Batch S)
      → HasRoom batch_size current b
      → EndsInFlow batch_size (finished b)
  unfolding EndsInFlow HasFlow
  finished-EndsInFlow batch_size current b h = omega arith

  HasRoom-HasFlow :
      (batch_size current : ℕ) (b : Batch S) → HasRoom batch_size current b → HasFlow batch_size b
  unfolding HasFlow
  HasRoom-HasFlow batch_size current b h = omega arith

  send_requests-HasRoom :
      (ask : ℕ → Offer) (batch_size current : ℕ) (b : Batch S)
      → HasRoom batch_size current b
      → ltb current batch_size ≡ false
      → HasRoom batch_size 0 (send_requests ask batch_size b)
  unfolding Grows
  send_requests-HasRoom ask batch_size current b h full =
      let grows = send_requests-Grows ask batch_size b in
      let enough : batch_size ≤ current = ltb→le current batch_size full in
      omega (arith, grows.0, grows.1)

  leaves-EndsInFlow :
      (batch_size : ℕ) (b : Batch S) → HasRoom batch_size 0 b → EndsInFlow batch_size (leaves b)
  unfolding EndsInFlow HasFlow
  leaves-EndsInFlow batch_size b h = omega arith

  go_on-EndsInFlow :
      (ask : ℕ → Offer) (batch_size : ℕ) (again : ℕ → Bool → Batch S → Ended S) (small down : Bool)
      (current : ℕ) (b : Batch S)
      → ltb current batch_size ≡ small
      → ((current : ℕ) (more : Bool) (b : Batch S)
          → HasRoom batch_size current b
          → EndsInFlow batch_size (again current more b))
      → HasRoom batch_size current b
      → EndsInFlow batch_size (go_on ask batch_size again small down current b)
  unfolding go_on
  go_on-EndsInFlow ask batch_size again true down current b test next h = next current true b h
  go_on-EndsInFlow ask batch_size again false true current b test next h =
      finished-EndsInFlow batch_size current b h
  go_on-EndsInFlow ask batch_size again false false current b test next h =
      next 0 false (send_requests ask batch_size b)
        (send_requests-HasRoom ask batch_size current b h test)

  after_pass-EndsInFlow :
      (ask : ℕ → Offer) (batch_size : ℕ) (down : Bool) (again : ℕ → Bool → Batch S → Ended S)
      (p : Passed S)
      → ((current : ℕ) (more : Bool) (b : Batch S)
          → HasRoom batch_size current b
          → EndsInFlow batch_size (again current more b))
      → PassesInFlow batch_size p
      → EndsInFlow batch_size (after_pass ask batch_size down again p)
  unfolding after_pass PassesInFlow EndsInFlow
  after_pass-EndsInFlow ask batch_size down again (passed current false b) next h =
      finished-EndsInFlow batch_size current b h
  after_pass-EndsInFlow ask batch_size down again (passed current true b) next h =
      go_on-EndsInFlow ask batch_size again (ltb current batch_size) down current b refl next h
  after_pass-EndsInFlow ask batch_size down again (left_by b) next h =
      leaves-EndsInFlow batch_size b h
  after_pass-EndsInFlow ask batch_size down again broken next h = tt

  receive_loop-EndsInFlow :
      (stream : StreamResponses S) (ask : ℕ → Offer) (batch_size : ℕ) (rs : List Receipt)
      (current : ℕ) (more : Bool) (b : Batch S)
      → HasRoom batch_size current b
      → EndsInFlow batch_size (receive_loop stream ask batch_size rs current more b)
  unfolding receive_loop EndsInFlow
  receive_loop-EndsInFlow stream ask batch_size [] current more b h =
      HasRoom-HasFlow batch_size current b h
  receive_loop-EndsInFlow stream ask batch_size (r ∷ rs) current more b h =
      after_pass-EndsInFlow ask batch_size r.down (receive_loop stream ask batch_size rs) _
        (receive_loop-EndsInFlow stream ask batch_size rs)
        (receive-PassesInFlow batch_size stream current more r b h)

  rounds-EndsInFlow :
      (stream : StreamResponses S) (ask : ℕ → Offer) (batch_size : ℕ) (rs : List Receipt) (s : S)
      → EndsInFlow batch_size (rounds stream ask batch_size rs (start s))
  unfolding rounds EndsInFlow HasFlow Grows
  rounds-EndsInFlow stream ask zero rs s = omega arith
  rounds-EndsInFlow stream ask (suc n) rs s =
      let grows = send_requests-Grows ask (suc n) (start s) in
      receive_loop-EndsInFlow stream ask (suc n) rs 0 false (send_requests ask (suc n) (start s))
        (omega (arith, grows.0, grows.1))

  -- Whatever `stream_responses` and `request_function` do and the server sends, when `batch` ends or
  -- waits, the requests that went out are at most `batch_size` more than the responses that
  -- `stream_responses` counted; runs that read a frame that is not there are left out.
  pub batch-EndsInFlow :
      (stream : StreamResponses S) (ask : ℕ → Offer) (batch_size : ℕ) (connection : List Bytes)
      (rs : List Receipt) (s : S)
      → EndsInFlow batch_size (batch stream ask batch_size connection rs s)
  unfolding batch EndsInFlow HasFlow
  batch-EndsInFlow stream ask batch_size connection rs s =
      elim (Bool-cases (is_connection connection)) [
        | inl ok ↦ rw ok (rounds-EndsInFlow stream ask batch_size rs s)
        | inr bad ↦ rw bad (omega arith)
      ]
