-- ===== src/Tests/Client.antt =====
-- The theorems on the clients and on the response parser at concrete inputs.
use prime_server.Prelude.{ℕ, ◌≡◌, refl, arith, true, false, List, [], ◌∷◌, ◌++◌, Bytes, codes}
use prime_server.Stdlib.{word_mod}
use prime_server.Stdlib
use prime_server.Http.Client.{Scan, stream_responses, streamed}
use prime_server.Http.Client.Steady.{IsSteady}
use prime_server.Http.Client.Chunks.{verdict, and_then, stream_responses-append}
use prime_server.Http.Response.{fresh, from_stream}
use prime_server.Http.Response.Ends.{Leaves, response_from_stream-Leaves, fresh-IsReady}
use prime_server.Netstring.{NetstringEntity, formatted, collected}
use prime_server.Netstring
use prime_server.Netstring.RoundTrip.{idle, wire, stream_responses-wire}
use prime_server.Client.{
  NetstringClient, Collect, netstring_client, Offer, offers, Receipt, Ended, finished,
  send_requests, start, batch, is_connection,
}
use prime_server.Client.Flow.{EndsInFlow, batch-EndsInFlow}
use prime_server.Sockets.{Part, Wire, recv_all, read, send_all}
use prime_server.Sockets.Parts.{arrives, all_sent, send_all-recv_all}
use prime_server.Prelude.Effects.{value}
use prime_server.Client.Partial.{batch-IsDigits}

abbrev new_scan : Scan
new_scan = record {
  parse_headers = true;
  parse_length = false;
  parse_body = false;
  content_length = [];
  length = 0;
  double_return_itr = 0;
  content_length_itr = 0;
  done = false;
}

new_scan-IsSteady : IsSteady new_scan
new_scan-IsSteady = record { waiting = refl; apart = λ e. refl }

abbrev ok_response : Bytes
ok_response = codes "HTTP/1.0 200 OK\r\nContent-Length: 4\r\n\r\nbody"

-- A response in one message.
stream_responses_run :
    stream_responses ok_response new_scan [] ≡ streamed new_scan [] (ok_response ∷ [])
unfolding stream_responses Stdlib.is_digit Stdlib.stoul
stream_responses_run = refl

stream_responses-append_example :
    verdict
      (stream_responses (ok_response ++ codes "HTTP/1.0 304 Not Modified\r\n\r\n") new_scan [])
    ≡ and_then
        (verdict (stream_responses ok_response new_scan []))
        (λ s kept. verdict (stream_responses (codes "HTTP/1.0 304 Not Modified\r\n\r\n") s kept))
stream_responses-append_example =
    stream_responses-append ok_response (codes "HTTP/1.0 304 Not Modified\r\n\r\n") new_scan []
      new_scan-IsSteady

response_from_stream-Leaves_example : Leaves (from_stream (fresh 0) ok_response)
response_from_stream-Leaves_example =
    response_from_stream-Leaves (fresh 0) ok_response (fresh-IsReady 0)

abbrev one : List NetstringEntity
one = record { body = codes "hello"; body_length = 0; enqueued = [] } ∷ []

stream_responses-wire_example :
    Netstring.stream_responses (idle []) (wire one) ≡ collected (idle []) (formatted one)
stream_responses-wire_example =
    stream_responses-wire one [] (record { nonempty = omega arith; limited = omega arith }, tt)

-- A server that answers two requests, and a client that wants to go on once.
abbrev asking : ℕ → Offer
asking n = offers (codes "3:abc,") true

abbrev once : Collect
once [] response = true
once (x ∷ seen) response = false

abbrev connection : List Bytes
connection = codes "id" ∷ [] ∷ []

abbrev from_server : Bytes → Receipt
from_server data_frame = record {
  frames = codes "id" ∷ data_frame ∷ [];
  fails = false;
  down = false;
}

abbrev batch_run_end : Ended NetstringClient
batch_run_end =
    batch (netstring_client once) asking 1 connection
      (from_server (codes "1:x,") ∷ from_server (codes "1:y,") ∷ []) (Netstring.fresh, [])

batch_run :
    batch_run_end
    ≡ finished (record {
      client = (Netstring.fresh, codes "1:y," ∷ codes "1:x," ∷ []);
      asked = 2;
      sent = codes "3:abc," ∷ codes "3:abc," ∷ [];
      collected = 2;
    })
unfolding batch netstring_client Stdlib.is_digit Stdlib.stoul Stdlib.to_string
batch_run = refl

batch-EndsInFlow_example : EndsInFlow 1 (
    batch
      (netstring_client once)
      asking
      1
      connection
      (from_server (codes "1:x,") ∷ from_server (codes "1:y,") ∷ [])
      (Netstring.fresh, []))
batch-EndsInFlow_example =
    batch-EndsInFlow (netstring_client once) asking 1 connection
      (from_server (codes "1:x,") ∷ from_server (codes "1:y,") ∷ []) (Netstring.fresh, [])

-- The response `12:...` comes in two messages.
batch-IsDigits_example :
    batch
      (netstring_client once)
      asking
      1
      connection
      (from_server (codes "12") ∷ from_server (codes ":hello, world,") ∷ [])
      (Netstring.fresh, [])
    ≡ finished (record (send_requests asking 1 (start (Netstring.fresh, []))) {
      client = (record { body = codes "12"; body_length = 0; enqueued = [] }, []);
      collected = 0;
    })
unfolding is_connection Stdlib.is_digit
batch-IsDigits_example =
    batch-IsDigits once asking 0 connection (codes "id") (codes "12") false
      (from_server (codes ":hello, world,") ∷ []) refl (refl, (refl, tt))

send_all-recv_all_example :
    (wire : Wire) × (send_all all_sent false (codes "a" ∷ codes "b" ∷ []) [] ≡ value 2 wire)
    × ((behind : List Part) → recv_all (arrives wire ++ behind) ≡ read (codes "a" ∷ codes "b" ∷ []))
send_all-recv_all_example = send_all-recv_all (codes "a") (codes "b" ∷ [])
