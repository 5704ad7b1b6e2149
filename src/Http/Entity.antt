-- ===== src/Http/Entity.antt =====
-- src/http_protocol.cpp: `http_entity_t::consume_until`, the scanner under both HTTP parsers.
pub mod Scanning
pub mod Tokens
use prime_server.Prelude.{
  ℕ, suc, ◌+◌, ◌-◌, Bool, true, false, ◌&&◌, List, [], ◌∷◌, ◌++◌, ltb, ◌==◌, if◌then◌else◌, length,
  get_or, take, drop, Bytes,
}
use prime_server.Http.{HttpEntity}

-- `*(delimiter + partial_length)`, with the NUL behind the delimiter.
abbrev pub awaited : Bytes → ℕ → ℕ
awaited delimiter partial_length = get_or delimiter partial_length 0

-- The `while` loop: the bytes taken, and the `partial_length` behind them.
unfoldable pub scan : Bytes → ℕ → Bytes → ℕ × ℕ
scan delimiter partial_length [] = (0, partial_length)
scan delimiter partial_length (c ∷ cs) =
    let rest =
      scan delimiter (if awaited delimiter partial_length == c then suc partial_length else 0) cs in
    if awaited delimiter partial_length == 0 then (0, partial_length) else (suc rest.0, rest.1)

-- What the body takes of the input first: the bytes, and the `body_length` left.
unfoldable pub take_body : ℕ → ℕ → ℕ × ℕ
take_body body_length available =
    if body_length == 0
    then (0, 0)
    else if ltb body_length available
    then (body_length, 0)
    else (available, body_length - available)

-- Whether the delimiter was found, the entity, and the input from `cursor` on.
pub record Consumed : Type 0 where
  pub found : Bool
  pub entity : HttpEntity
  pub rest : Bytes

-- `length < partial_length` holds if a part of the delimiter came with the chunk before.
unfoldable pub token : Bytes → Bytes → ℕ → ℕ → Bytes
token partial_buffer input taken partial_length =
    if ltb taken partial_length
    then take (length partial_buffer - (partial_length - taken)) partial_buffer
    else partial_buffer ++ take (taken - partial_length) input

unfoldable pub finish : HttpEntity → Bytes → ℕ → ℕ → ℕ → Consumed
unfolding token
finish e input taken partial_length body_length =
    if awaited e.delimiter partial_length == 0 && body_length == 0
    then record {
      found = true;
      entity = record e {
        partial_buffer = token e.partial_buffer input taken partial_length;
        partial_length = 0;
        body_length = 0;
        consumed = e.consumed + taken;
      };
      rest = drop taken input;
    }
    else record {
      found = false;
      entity = record e {
        partial_buffer = e.partial_buffer ++ take taken input;
        partial_length = partial_length;
        body_length = body_length;
      };
      rest = input;
    }

unfoldable pub consume_until : HttpEntity → Bytes → Consumed
unfolding take_body scan finish
consume_until e input =
    let (skipped, body_length) = take_body e.body_length (length input) in
    let (scanned, partial_length) = scan e.delimiter e.partial_length (drop skipped input) in
    finish e input (skipped + scanned) partial_length body_length
