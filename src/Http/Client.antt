-- ===== src/Http/Client.antt =====
-- src/http_protocol.cpp: `http_client_t::stream_responses`, which cuts the bytes of a server into
-- responses.
--
-- `begin[0 .. current - begin)` is the list `seen`. The iterators into the two constants are
-- positions; one behind the end reads the terminating NUL. `done` is a local variable of the
-- function. The messages that `collect_function` gets are listed; the function returns their
-- number, and `more` is what the last call returned. A throw of `std::stoul` leaves the function.
pub mod Steady
pub mod Chunks
use prime_server.Prelude.{
  ℕ, zero, suc, ◌+◌, ◌-◌, ◌%◌, Bool, true, false, not, ◌&&◌, Option, none, some, List, [], ◌∷◌,
  ◌++◌, ◌==◌, if◌then◌else◌, is_empty, length, get_or, Bytes, codes,
}
use prime_server.Stdlib.{word_mod, is_digit, stoul}

-- `CONTENT_LENGTH` and `DOUBLE_RETURN`.
abbrev pub content_length_header : Bytes
content_length_header = codes "\r\nContent-Length: "

abbrev pub double_return : Bytes
double_return = codes "\r\n\r\n"

-- The members of `http_client_t` but for `buffer`, and `done`.
pub record Scan : Type 0 where
  pub parse_headers : Bool
  pub parse_length : Bool
  pub parse_body : Bool
  pub content_length : Bytes
  pub length : ℕ
  pub double_return_itr : ℕ
  pub content_length_itr : ℕ
  pub done : Bool

unfoldable pub reset : Scan → Scan
reset s = record s {
  parse_headers = true;
  parse_length = false;
  parse_body = false;
  content_length = [];
  length = 0;
  double_return_itr = 0;
  content_length_itr = 0;
}

-- What the body of the loop makes of a byte: no response yet, one is ready, or a throw.
pub data Looked : Type 0 where
  waits : Scan → Looked
  completes : Scan → Looked
  throws : Scan → Looked

abbrev pub finish_look : Scan → Looked
finish_look s = if s.done then completes s else waits s

unfoldable pub return_matched : Scan → Scan
return_matched s =
    if s.double_return_itr == 4
    then (if not (s.length == 0) then record s { parse_body = true } else record s { done = true })
    else s

unfoldable pub match_return : ℕ → Scan → Scan
unfolding return_matched
match_return c s =
    if c == get_or double_return s.double_return_itr 0
    then return_matched (record s { double_return_itr = s.double_return_itr + 1 })
    else record s { double_return_itr = 0 }

unfoldable pub header_matched : Scan → Scan
header_matched s =
    if s.content_length_itr == 18
    then record s { parse_headers = false; parse_length = true }
    else s

unfoldable pub match_header : ℕ → Scan → Scan
unfolding header_matched
match_header c s =
    if not (s.content_length_itr == 18) && c == get_or content_length_header s.content_length_itr 0
    then header_matched (record s { content_length_itr = s.content_length_itr + 1 })
    else record s { content_length_itr = 0 }

unfoldable pub look_headers : ℕ → Scan → Looked
unfolding match_header match_return
look_headers c s = finish_look (match_return c (if s.parse_headers then match_header c s else s))

unfoldable pub end_length : ℕ → Scan → Option ℕ → Looked
unfolding look_headers
end_length c s none = throws s
end_length c s (some n) = look_headers c (record s { length = n; parse_length = false })

unfoldable pub look_length : ℕ → Scan → Looked
unfolding end_length
look_length c s =
    if s.parse_length
    then (if not (is_digit c)
        then end_length c s (stoul 10 s.content_length)
        else waits (record s { content_length = s.content_length ++ c ∷ [] }))
    else look_headers c s

-- Behind `--length`.
unfoldable pub look_body : ℕ → Scan → Looked
unfolding look_length
look_body c s = if s.length == 0 then look_length c (record s { done = true }) else waits s

unfoldable pub look : ℕ → Scan → Looked
unfolding look_body
look c s =
    if s.parse_body
    then look_body c (record s { length = (s.length + word_mod - 1) % word_mod })
    else look_length c s

pub data Streamed : Type 0 where
  streamed : Scan → Bytes → List Bytes → Streamed
  thrown : Scan → Bytes → List Bytes → Streamed

abbrev pub Loop : Type 0
Loop = Scan → Bytes → Bytes → List Bytes → Streamed

-- From the buffer, or from the stream.
unfoldable pub response : Bytes → Bytes → Bytes
response buffer seen = if not (is_empty buffer) then buffer ++ seen else seen

unfoldable pub on_look : Loop → Bytes → Bytes → List Bytes → Looked → Streamed
unfolding reset response
on_look again buffer seen sent (waits s) = again s buffer seen sent
on_look again buffer seen sent (completes s) =
    again (record (reset s) { done = false }) [] [] (sent ++ response buffer seen ∷ [])
on_look again buffer seen sent (throws s) = thrown s buffer sent

unfoldable pub stream_loop : Bytes → Loop
unfolding on_look look
stream_loop [] s buffer seen sent = streamed s (buffer ++ seen) sent
stream_loop (c ∷ cs) s buffer seen sent =
    on_look (stream_loop cs) buffer (seen ++ c ∷ []) sent (look c s)

unfoldable pub stream_responses : Bytes → Scan → Bytes → Streamed
unfolding stream_loop
stream_responses message s buffer =
    if is_empty message
    then streamed s buffer []
    else stream_loop message (record s { done = false }) buffer [] []
