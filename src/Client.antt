-- ===== src/Client.antt =====
-- src/prime_server.cpp: `client_t::batch`, which sends requests and takes responses in batches.
--
-- `request_function`, the socket and `shutting_down` are the environment: the n-th call of
-- `request_function` and the sends behind it are `ask n`, what each `recv_all` brings is a list, and
-- an empty list is a receive that does not return. `collect` is `collect_function`: what it returns
-- on a response, by those that it got before, the latest first.
pub mod Flow
pub mod Partial
use prime_server.Prelude.{
  ℕ, zero, suc, ◌+◌, ◌%◌, Bool, true, false, not, ◌&&◌, ◌||◌, List, [], ◌∷◌, ltb, ◌==◌,
  if◌then◌else◌, is_empty, length, Bytes,
}
use prime_server.Stdlib.{word_mod}
use prime_server.Netstring.{NetstringEntity}
use prime_server.Netstring
use prime_server.Http.Client.{Scan}
use prime_server.Http.Client

-- How `stream_responses` ends: it returns the number of responses, or throws a `std::exception`, or
-- something else; with `more` and the object.
pub data Streaming (S : Type 0) : Type 0 where
  streamed : ℕ → Bool → S → Streaming S
  thrown : Bool → S → Streaming S
  escaped : S → Streaming S

-- The virtual `stream_responses`.
abbrev pub StreamResponses : Type 0 → Type 0
StreamResponses S = Bytes → Bool → S → Streaming S

abbrev pub Collect : Type 0
Collect = List Bytes → Bytes → Bool

-- The calls of `collect_function`: what it got, and `more`.
unfoldable pub collect_all : Collect → List Bytes → List Bytes → Bool → List Bytes × Bool
collect_all collect [] seen more = (seen, more)
collect_all collect (r ∷ rs) seen more = collect_all collect rs (r ∷ seen) (collect seen r)

abbrev pub NetstringClient : Type 0
NetstringClient = NetstringEntity × List Bytes

-- A parser that does not end does not occur.
unfoldable pub netstring_collected :
    Collect → List Bytes → Bool → Netstring.Streamed → Streaming NetstringClient
unfolding collect_all
netstring_collected collect seen more (Netstring.collected e responses) =
    let (seen', more') = collect_all collect responses seen more in
    streamed (length responses) more' (e, seen')
netstring_collected collect seen more (Netstring.escaped e x) = escaped (e, seen)
netstring_collected collect seen more Netstring.unfinished = escaped (Netstring.fresh, seen)

unfoldable pub netstring_client : Collect → StreamResponses NetstringClient
unfolding netstring_collected Netstring.stream_responses
netstring_client collect message more (e, seen) =
    netstring_collected collect seen more (Netstring.stream_responses e message)

-- The scanner, the buffer, and what `collect_function` got.
abbrev pub HttpClient : Type 0
HttpClient = Scan × (Bytes × List Bytes)

unfoldable pub http_collected : Collect → List Bytes → Bool → Client.Streamed → Streaming HttpClient
unfolding collect_all
http_collected collect seen more (Client.streamed s buffer responses) =
    let (seen', more') = collect_all collect responses seen more in
    streamed (length responses) more' (s, (buffer, seen'))
http_collected collect seen more (Client.thrown s buffer responses) =
    let (seen', more') = collect_all collect responses seen more in
    thrown more' (s, (buffer, seen'))

unfoldable pub http_client : Collect → StreamResponses HttpClient
unfolding http_collected Client.stream_responses
http_client collect message more (s, (buffer, seen)) =
    http_collected collect seen more (Client.stream_responses message s buffer)

-- What `request_function` offers, and whether both frames go out. A throw of either is logged.
pub data Offer : Type 0 where
  offers : Bytes → Bool → Offer
  throws : Offer

-- What `recv_all` brings: its frames, or a throw; and what `shutting_down` says behind it.
pub record Receipt : Type 0 where
  pub frames : List Bytes
  pub fails : Bool
  pub down : Bool

pub record Batch (S : Type 0) : Type 0 where
  pub client : S
  -- how often `request_function` was called, the requests that went out, and the sum of what
  -- `stream_responses` returned
  pub asked : ℕ
  pub sent : List Bytes
  pub collected : ℕ

pub data Ended (S : Type 0) : Type 0 where
  finished : Batch S → Ended S
  waits : Batch S → Ended S
  leaves : Batch S → Ended S
  undefined : Ended S

-- What one pass of the receiving loop makes of a receipt: `current_batch`, `more` and the object.
pub data Passed (S : Type 0) : Type 0 where
  passed : ℕ → Bool → Batch S → Passed S
  left_by : Batch S → Passed S
  broken : Passed S

module _ {S : Type 0} where
  unfoldable pub take_offer : (Batch S → Batch S) → Offer → Batch S → Batch S
  take_offer again throws b = again b
  take_offer again (offers [] out) b = b
  take_offer again (offers (c ∷ cs) true) b = again (record b { sent = (c ∷ cs) ∷ b.sent })
  take_offer again (offers (c ∷ cs) false) b = again b

  -- The loop that sends requests, at most `left` more.
  unfoldable pub send_requests : (ℕ → Offer) → ℕ → Batch S → Batch S
  unfolding take_offer
  send_requests ask zero b = b
  send_requests ask (suc left) b =
      take_offer (send_requests ask left) (ask b.asked) (record b { asked = suc b.asked })

  unfoldable pub on_streaming : ℕ → Batch S → Streaming S → Passed S
  on_streaming current b (streamed n more s) =
      passed ((current + n) % word_mod) more (record b { client = s; collected = b.collected + n })
  on_streaming current b (thrown more s) = passed current more (record b { client = s })
  on_streaming current b (escaped s) = left_by (record b { client = s })

  -- `pop_front` and `front` want two frames.
  unfoldable pub on_frames : StreamResponses S → ℕ → Bool → List Bytes → Batch S → Passed S
  unfolding on_streaming
  on_frames stream current more [] b = broken
  on_frames stream current more (identity ∷ []) b = broken
  on_frames stream current more (identity ∷ (data_frame ∷ rest)) b =
      on_streaming current b (stream data_frame more b.client)

  unfoldable pub receive : StreamResponses S → ℕ → Bool → Receipt → Batch S → Passed S
  unfolding on_frames
  receive stream current more r b =
      if r.fails then passed current more b else on_frames stream current more r.frames b

  -- While more is expected: on in the inner loop, or out of it, and to a new round of the outer one.
  unfoldable pub go_on :
      (ℕ → Offer) → ℕ → (ℕ → Bool → Batch S → Ended S) → Bool → Bool → ℕ → Batch S → Ended S
  unfolding send_requests
  go_on ask batch_size again true down current b = again current true b
  go_on ask batch_size again false true current b = finished b
  go_on ask batch_size again false false current b = again 0 false (send_requests ask batch_size b)

  -- Behind a pass; without `more` both loops end.
  unfoldable pub after_pass :
      (ℕ → Offer) → ℕ → Bool → (ℕ → Bool → Batch S → Ended S) → Passed S → Ended S
  unfolding go_on
  after_pass ask batch_size down again (passed current false b) = finished b
  after_pass ask batch_size down again (passed current true b) =
      go_on ask batch_size again (ltb current batch_size) down current b
  after_pass ask batch_size down again (left_by b) = leaves b
  after_pass ask batch_size down again broken = undefined

  unfoldable pub receive_loop :
      StreamResponses S → (ℕ → Offer) → ℕ → List Receipt → ℕ → Bool → Batch S → Ended S
  unfolding receive after_pass
  receive_loop stream ask batch_size [] current more b = waits b
  receive_loop stream ask batch_size (r ∷ rs) current more b =
      after_pass ask batch_size r.down (receive_loop stream ask batch_size rs)
        (receive stream current more r b)

  -- The two loops; for a `batch_size` of 0 neither inner loop has a pass.
  unfoldable pub rounds : StreamResponses S → (ℕ → Offer) → ℕ → List Receipt → Batch S → Ended S
  unfolding send_requests receive_loop
  rounds stream ask zero receipts b = finished b
  rounds stream ask (suc n) receipts b =
      receive_loop stream ask (suc n) receipts 0 false (send_requests ask (suc n) b)

-- What the first receive must bring: an identity and an empty frame.
unfoldable pub is_connection : List Bytes → Bool
is_connection (identity ∷ (blank ∷ [])) = not (is_empty identity) && is_empty blank
is_connection [] = false
is_connection (identity ∷ []) = false
is_connection (identity ∷ (blank ∷ (x ∷ rest))) = false

abbrev pub start : {S : Type 0} → S → Batch S
start s = record { client = s; asked = 0; sent = []; collected = 0 }

-- `batch`; the first receive is `connection`.
unfoldable pub batch :
    {S : Type 0} → StreamResponses S → (ℕ → Offer) → ℕ → List Bytes → List Receipt → S → Ended S
unfolding is_connection rounds
batch stream ask batch_size connection receipts s =
    if is_connection connection
    then rounds stream ask batch_size receipts (start s)
    else leaves (start s)
