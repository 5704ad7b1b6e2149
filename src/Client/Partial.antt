-- ===== src/Client/Partial.antt =====
-- A batch ends when the first message of a round completes no response.
use prime_server.Prelude.{ℕ, zero, suc, ◌-◌, Bool, true, false, List, [], ◌∷◌, Bytes, ◌≡◌, refl}
use prime_server.Stdlib.{word_mod}
use prime_server.Stdlib.Decimal.{IsDigits}
use prime_server.Netstring.{NetstringEntity, fresh}
use prime_server.Netstring
use prime_server.Netstring.Limits.{from_stream-IsDigits}
use prime_server.Client.{
  streamed, Collect, NetstringClient, netstring_client, netstring_collected, collect_all, Offer,
  offers, throws, Receipt, Batch, finished, take_offer, send_requests, on_streaming, on_frames,
  receive, after_pass, receive_loop, rounds, is_connection, start, batch,
}

module _ {S : Type 0} where
  -- Sending leaves the client and the count of responses.
  Same : Batch S → Batch S → Type 0
  Same b b' = (b'.client ≡ b.client) × (b'.collected ≡ b.collected)

  take_offer-Same :
      (again : Batch S → Batch S) (o : Offer) (b : Batch S)
      → ((c : Batch S) → Same c (again c))
      → Same b (take_offer again o (record b { asked = suc b.asked }))
  unfolding take_offer Same
  take_offer-Same again throws b next = next (record b { asked = suc b.asked })
  take_offer-Same again (offers [] out) b next = (refl, refl)
  take_offer-Same again (offers (c ∷ cs) true) b next =
      next (record b { asked = suc b.asked; sent = (c ∷ cs) ∷ b.sent })
  take_offer-Same again (offers (c ∷ cs) false) b next = next (record b { asked = suc b.asked })

  send_requests-Same :
      (ask : ℕ → Offer) (left : ℕ) (b : Batch S) → Same b (send_requests ask left b)
  unfolding send_requests Same
  send_requests-Same ask zero b = (refl, refl)
  send_requests-Same ask (suc left) b =
      take_offer-Same (send_requests ask left) (ask b.asked) b (send_requests-Same ask left)

-- A netstring client whose first message holds only digits keeps them, and no response.
netstring_client-IsDigits :
    (collect : Collect) (more : Bool) (ds : Bytes) (seen : List Bytes)
    → IsDigits ds
    → netstring_client collect ds more (fresh, seen)
      ≡ streamed 0 more (record { body = ds; body_length = 0; enqueued = [] }, seen)
unfolding netstring_client netstring_collected Netstring.stream_responses Netstring.formatted
    collect_all
netstring_client-IsDigits collect more ds seen h = rw (from_stream-IsDigits (word_mod - 1) [] ds h)

-- For a netstring client, whatever `collect_function` and `request_function` do: when the connection
-- is made, a batch of at least one is wanted and the first message holds no more than digits of the
-- first response's length, `batch` ends behind it, and `collect_function` got nothing.
pub batch-IsDigits :
    (collect : Collect) (ask : ℕ → Offer) (n : ℕ) (connection : List Bytes) (identity ds : Bytes)
    (down : Bool) (rs : List Receipt)
    → is_connection connection ≡ true
    → IsDigits ds
    → batch
        (netstring_client collect)
        ask
        (suc n)
        connection
        (record { frames = identity ∷ (ds ∷ []); fails = false; down = down } ∷ rs)
        (fresh, [])
      ≡ finished (record (send_requests ask (suc n) (start (fresh, []))) {
        client = (record { body = ds; body_length = 0; enqueued = [] }, []);
        collected = 0;
      })
unfolding batch rounds receive_loop receive on_frames on_streaming after_pass Same
batch-IsDigits collect ask n connection identity ds down rs connected h =
    let same = send_requests-Same ask (suc n) (start {S = NetstringClient} (fresh, [])) in
    rw (connected, same.0, netstring_client-IsDigits collect false ds [] h, same.1)
