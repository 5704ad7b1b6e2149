-- ===== src/Tests/Netstring.antt =====
-- The theorems on the netstring codec at concrete inputs.
use prime_server.Prelude.{◌≡◌, refl, arith, some, List, [], ◌∷◌, codes, ◌++◌}
use prime_server.Stdlib
use prime_server.Netstring.{
  NetstringEntity, from_stream, returned, fresh, encode, bad_length, bad_body_separator,
}
use prime_server.Netstring.Faults.{reason}
use prime_server.Netstring.Cuts.{SameFault}
use prime_server.Netstring.Machine.{verdict, run, and_then, refuses, bad_prefix}
use prime_server.Netstring.Streaming.{
  IsBounded, Keeps, reason_after, from_stream-Keeps, from_stream-append,
}
use prime_server.Netstring.Refines.{from_stream-run}
use prime_server.Netstring.RoundTrip.{idle, wire, messages, idle-IsValid, from_stream-wire}
use prime_server.Netstring.Limits.{from_stream-encode_empty, from_stream-IsDigits}

abbrev two : List NetstringEntity
two =
    record { body = codes "hello"; body_length = 0; enqueued = [] }
    ∷ record { body = codes "x"; body_length = 0; enqueued = [] }
    ∷ []

abbrev idle-IsBounded : IsBounded 10 (idle [])
idle-IsBounded = record { valid = idle-IsValid []; announced_le = omega arith }

from_stream-run_example :
    verdict (from_stream 10 (idle []) (codes "5:hello,1:x,3:a"))
    ≡ run 10 (idle []) (codes "5:hello,1:x,3:a")
from_stream-run_example = from_stream-run 10 (idle []) (codes "5:hello,1:x,3:a") (idle-IsValid [])

from_stream-Keeps_example : Keeps 10 (verdict (from_stream 10 (idle []) (codes "5:hello,1:x,3:a")))
from_stream-Keeps_example = from_stream-Keeps 10 (idle []) (codes "5:hello,1:x,3:a") idle-IsBounded

from_stream-append_example :
    (verdict (from_stream 10 (idle []) (codes "1:x,5" ++ codes "x"))
      ≡ and_then
          (verdict (from_stream 10 (idle []) (codes "1:x,5")))
          (λ e. verdict (from_stream 10 e (codes "x"))))
    × SameFault (reason (from_stream 10 (idle []) (codes "1:x,5" ++ codes "x"))) (
        reason_after
          (from_stream 10 (idle []) (codes "1:x,5"))
          (λ e. reason (from_stream 10 e (codes "x"))))
from_stream-append_example =
    from_stream-append 10 (idle []) (codes "1:x,5") (codes "x") idle-IsBounded

-- The exceptions of that stream, whole and cut.
whole_reason : reason (from_stream 10 (idle []) (codes "1:x,5x")) ≡ some bad_body_separator
unfolding from_stream Stdlib.is_digit Stdlib.stoul
whole_reason = refl

cut_reason :
    reason_after
      (from_stream 10 (idle []) (codes "1:x,5"))
      (λ e. reason (from_stream 10 e (codes "x")))
    ≡ some bad_length
unfolding from_stream Stdlib.is_digit Stdlib.stoul
cut_reason = refl

from_stream-wire_example : from_stream 10 (idle []) (wire two) ≡ returned (idle []) (messages two)
from_stream-wire_example =
    from_stream-wire 10 two []
      (
        record { nonempty = omega arith; limited = omega arith },
        (record { nonempty = omega arith; limited = omega arith }, tt),
      )
      (omega arith)

from_stream-encode_empty_example :
    verdict (from_stream 10 (idle []) (encode [] ++ codes "1:x,")) ≡ refuses bad_prefix
from_stream-encode_empty_example = from_stream-encode_empty 10 [] (codes "1:x,")

from_stream-IsDigits_example :
    from_stream 2 (idle []) (codes "12345")
    ≡ returned (record { body = codes "12345"; body_length = 0; enqueued = [] }) []
unfolding Stdlib.is_digit
from_stream-IsDigits_example =
    from_stream-IsDigits 2 [] (codes "12345") (refl, (refl, (refl, (refl, (refl, tt)))))

-- A run in two chunks.
from_stream_run :
    from_stream 10 fresh (codes "5:hello,1:x,3:a")
    ≡ returned
        (record { body = codes "a"; body_length = 3; enqueued = [] })
        (record { body = codes "hello"; body_length = 0; enqueued = [] }
          ∷ record { body = codes "x"; body_length = 0; enqueued = [] }
          ∷ [])
unfolding from_stream Stdlib.is_digit Stdlib.stoul
from_stream_run = refl
