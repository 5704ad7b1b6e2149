-- ===== src/Netstring/Limits.antt =====
-- Two places where the netstring codec does not do what its callers count on.
use prime_server.Prelude.{ℕ, List, [], ◌++◌, Bytes, ◌≡◌, refl, ◌∙◌, arith}
use prime_server.Stdlib.{
  is_digit, stoul, signed, digits, value_from, digit_of, is_space, skip_prefix, in_range, word_mod,
}
use prime_server.Stdlib
use prime_server.Stdlib.Decimal.{IsDigits}
use prime_server.Netstring.{returned, from_stream, encode}
use prime_server.Netstring.Machine.{
  refuses, bad_prefix, verdict, verdict-accepts, step, run, announced,
}
use prime_server.Netstring.Refines.{from_stream-run}
use prime_server.Netstring.RoundTrip.{run-IsDigits, idle, idle-IsValid}

-- The message that `to_string` writes for the empty body is refused by an idle parser, whatever
-- follows it and whatever the limit is.
pub from_stream-encode_empty :
    (max_size : ℕ) (q : List ℕ) (rest : Bytes)
    → verdict (from_stream max_size (idle q) (encode [] ++ rest)) ≡ refuses bad_prefix
unfolding run step announced encode is_digit Stdlib.to_string stoul
from_stream-encode_empty max_size q rest =
    from_stream-run max_size (idle q) (encode [] ++ rest) (idle-IsValid q) ∙ ground arith

-- Digits that no colon follows are kept without any limit: an idle parser buffers all of them,
-- whatever `max_size` is.
pub from_stream-IsDigits :
    (max_size : ℕ) (q : List ℕ) (ds : Bytes)
    → IsDigits ds
    → from_stream max_size (idle q) ds
      ≡ returned (record { body = ds; body_length = 0; enqueued = q }) []
from_stream-IsDigits max_size q ds h = verdict-accepts (from_stream max_size (idle q) ds) (
    from_stream-run max_size (idle q) ds (idle-IsValid q)
    ∙ run-IsDigits max_size ds (idle q) h refl)
