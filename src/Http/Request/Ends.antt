-- ===== src/Http/Request/Ends.antt =====
-- The request parser ends on every input, and keeps its scanner in step with its state.
use prime_server.Prelude.{
  ℕ, zero, suc, ◌+◌, ◌*◌, ◌≤◌, ◌<◌, Bool, true, false, not, ◌&&◌, Option, none, some, List, [],
  ◌++◌, ltb, ◌==◌, if◌then◌else◌, is_empty, length, Bytes, ◌≡◌, ◌≢◌, refl, ap, sym, ◌∙◌, arith,
  Bool-cases, inl, inr,
}
use prime_server.Prelude.Maps.{bytes_key, find}
use prime_server.Http.{
  Method, State, HttpEntity, space, crlf, flush_stream, is_supported, string_to_method,
}
use prime_server.Http.Entity.{consume_until, awaited}
use prime_server.Http.Entity.Scanning.{consume_until-IsProgress}
use prime_server.Http.Query.{split_at}
use prime_server.Stdlib.{stoul}
use prime_server.Http.Request.{
  HttpRequest, Outcome, returned, thrown, diverged, Step, goes, fails, with_entity, emit,
  read_method, read_path, read_version, read_header, is_trailer, is_chunked, start_body,
  end_headers, read_line, read_chunk_length, dispatch, ran_out, seen_size, Rounds, next_piece,
  after_consume, from_stream_loop, from_stream, flush, fresh,
}

-- The delimiter that each state looks for.
abbrev pub delimiter_of : State → Bytes
delimiter_of State.method = space
delimiter_of State.path = space
delimiter_of State.body = []
delimiter_of State.message = space
delimiter_of State.code = space
delimiter_of _ = crlf

abbrev pub is_body : State → Bool
is_body State.body = true
is_body _ = false

pub record IsReady (e : HttpEntity) : Type 0 where
  pub fits : e.delimiter ≡ delimiter_of e.state
  pub unmatched : is_body e.state ≡ false → awaited e.delimiter e.partial_length ≢ 0

-- Behind a whole delimiter.
record IsBetween (e : HttpEntity) : Type 0 where
  fits : e.delimiter ≡ delimiter_of e.state
  nothing : e.partial_length ≡ 0

-- A step from a body is to another state, so two steps in a row take a byte.
abbrev Good : State → Step → Type 0
Good st (fails r x) = Unit
Good st (goes r whole) = IsBetween r.entity × (is_body st ≡ true → is_body r.state ≡ false)

emit-Good : (st : State) (r : HttpRequest) → Good st (emit r)
unfolding emit flush flush_stream
emit-Good st r = (record { fits = refl; nothing = refl }, λ _. refl)

read_method-Good :
    (r : HttpRequest) (o : Option Method)
    → IsBetween r.entity
    → r.state ≡ State.method
    → Good State.method (read_method r o)
unfolding read_method
read_method-Good r none b e = tt
read_method-Good r (some m) b e =
    (record { fits = b.fits ∙ ap delimiter_of e; nothing = b.nothing }, λ x. cc)

read_path-Good :
    (r : HttpRequest) (o : Option Bytes) → IsBetween r.entity → Good State.path (read_path r o)
unfolding read_path
read_path-Good r none b = tt
read_path-Good r (some decoded) b = (record { fits = refl; nothing = b.nothing }, λ x. cc)

read_version-Good :
    (r : HttpRequest)
    → IsBetween r.entity
    → r.state ≡ State.version
    → Good State.version (read_version r)
unfolding read_version
read_version-Good r b e = elim (Bool-cases (is_supported r.partial_buffer)) [
  | inl ok ↦ rw ok (record { fits = b.fits ∙ ap delimiter_of e; nothing = b.nothing }, λ x. cc)
  | inr bad ↦ rw bad tt
]

-- In the header lines the delimiter is the end of a line.
abbrev IsLine : HttpRequest → Type 0
IsLine r = IsBetween r.entity × (delimiter_of r.state ≡ crlf)

read_header-Good :
    (st : State) (r : HttpRequest) (o : Option (Bytes × Bytes))
    → IsBetween r.entity
    → (is_body st ≡ true → is_body r.state ≡ false)
    → Good st (read_header r o)
unfolding read_header
read_header-Good st r none b n = tt
read_header-Good st r (some (name, behind)) b n = (record { fits = b.fits; nothing = b.nothing }, n)

start_body-Good :
    (st : State) (r : HttpRequest) (o : Option ℕ)
    → IsBetween r.entity
    → is_body st ≡ false
    → Good st (start_body r o)
unfolding start_body
start_body-Good st r none b n = tt
start_body-Good st r (some k) b n = (record { fits = refl; nothing = b.nothing }, λ x. cc)

chunked-Good :
    (st : State) (r : HttpRequest) (chunked : Bool)
    → IsLine r
    → Good st (
        if chunked
        then goes (with_entity r (record r.entity { state = State.chunk_length })) []
        else emit r)
chunked-Good st r true l = (record { fits = l.0.fits ∙ l.1; nothing = l.0.nothing }, λ _. refl)
chunked-Good st r false l = emit-Good st r

end_headers-Good :
    (st : State) (r : HttpRequest) (o encoding : Option Bytes)
    → IsLine r
    → is_body st ≡ false
    → Good st (end_headers r o encoding)
unfolding end_headers
end_headers-Good st r none encoding l n =
    chunked-Good st r (not (is_trailer r.state) && is_chunked encoding) l
end_headers-Good st r (some v) encoding l n = elim (Bool-cases (not (is_trailer r.state))) [
  | inl first ↦ rw first (start_body-Good st r (stoul 10 v) l.0 n)
  | inr last ↦ rw last (emit-Good st r)
]

read_line-Good :
    (st : State) (r : HttpRequest) → IsLine r → is_body st ≡ false → Good st (read_line r)
unfolding read_line
read_line-Good st r l n = elim (Bool-cases (is_empty r.partial_buffer)) [
  | inl end ↦ rw end (end_headers-Good st r _ _ l n)
  | inr more ↦ rw more (read_header-Good st r (split_at b':' r.partial_buffer) l.0 (λ x. cc))
]

read_chunk_length-Good :
    (r : HttpRequest) (o : Option ℕ) → IsLine r → Good State.chunk_length (read_chunk_length r o)
unfolding read_chunk_length
read_chunk_length-Good r none l = tt
read_chunk_length-Good r (some n) l = elim (Bool-cases (n == 0)) [
  | inl last ↦ rw last (record { fits = l.0.fits ∙ l.1; nothing = l.0.nothing }, λ x. cc)
  | inr more ↦ rw more (record { fits = l.0.fits ∙ l.1; nothing = l.0.nothing }, λ x. cc)
]

dispatch-Good :
    (unescape : Bytes → Option Bytes) (st : State) (r : HttpRequest)
    → IsBetween r.entity
    → r.state ≡ st
    → Good st (dispatch unescape st r)
unfolding dispatch
dispatch-Good unescape State.message r b e = tt
dispatch-Good unescape State.code r b e = tt
dispatch-Good unescape State.method r b e =
    read_method-Good r (find r.partial_buffer string_to_method) b e
dispatch-Good unescape State.path r b e = read_path-Good r (unescape r.partial_buffer) b
dispatch-Good unescape State.version r b e = read_version-Good r b e
dispatch-Good unescape State.headers r b e =
    read_line-Good State.headers r (b, ap delimiter_of e) refl
dispatch-Good unescape State.trailer r b e =
    read_line-Good State.trailer r (b, ap delimiter_of e) refl
dispatch-Good unescape State.body r b e =
    emit-Good State.body
      (with_entity r (record r.entity { body = r.partial_buffer; partial_buffer = r.body }))
dispatch-Good unescape State.chunk_length r b e =
    read_chunk_length-Good r (stoul 16 r.partial_buffer) (b, ap delimiter_of e)
dispatch-Good unescape State.chunk r b e =
    (record { fits = b.fits ∙ ap delimiter_of e; nothing = b.nothing }, λ x. cc)

-- What the parser leaves behind.
abbrev pub Leaves : Outcome → Type 0
Leaves (returned r requests) = IsReady r.entity
Leaves (thrown r x) = Unit
Leaves diverged = ⊥

awaited_start : (st : State) → is_body st ≡ false → awaited (delimiter_of st) 0 ≢ 0
awaited_start State.body h = cc
awaited_start State.method h = omega arith
awaited_start State.path h = omega arith
awaited_start State.message h = omega arith
awaited_start State.code h = omega arith
awaited_start _ h = omega arith

IsBetween-IsReady : (e : HttpEntity) → IsBetween e → IsReady (record e { partial_buffer = [] })
IsBetween-IsReady e b = record {
  fits = b.fits;
  unmatched = λ h. rw (b.fits, b.nothing) (awaited_start e.state h);
}

ran_out-Leaves :
    (r : HttpRequest) (requests : List HttpRequest) → IsReady r.entity → Leaves (ran_out r requests)
unfolding ran_out
ran_out-Leaves r requests h = ground arith

-- A round for the body may take nothing, any other takes a byte.
abbrev bodies : State → ℕ
bodies st = if is_body st then 1 else 0

next-Leaves :
    (again : Rounds) (st : State) (rest : Bytes) (requests : List HttpRequest) (step : Step)
    → Good st step
    → ((r : HttpRequest) (done : List HttpRequest)
        → IsReady r.entity
        → (is_body st ≡ true → is_body r.state ≡ false)
        → Leaves (again r rest done))
    → Leaves (next_piece again rest requests step)
unfolding next_piece
next-Leaves again st rest requests (fails r x) g next = tt
next-Leaves again st rest requests (goes r whole) g next =
    next (with_entity r (record r.entity { partial_buffer = [] })) (requests ++ whole)
      (IsBetween-IsReady r.entity g.0) g.1

after-Leaves :
    (unescape : Bytes → Option Bytes) (again : Rounds) (r : HttpRequest)
    (requests : List HttpRequest) (found : Bool) (rest : Bytes)
    → (found ≡ false → IsReady r.entity)
    → (found ≡ true → IsBetween r.entity)
    → (found ≡ true
        → (r' : HttpRequest) (done : List HttpRequest) → IsReady r'.entity
        → (is_body r.state ≡ true → is_body r'.state ≡ false)
        → Leaves (again r' rest done))
    → Leaves (after_consume unescape again r requests found rest)
unfolding after_consume
after-Leaves unescape again r requests false rest ready between next =
    ran_out-Leaves r requests (ready refl)
after-Leaves unescape again r requests true rest ready between next =
    next-Leaves again r.state rest requests (dispatch unescape r.state r)
      (dispatch-Good unescape r.state r (between refl) refl) (next refl)

bodies_le : (st : State) → bodies st ≤ 1
bodies_le st = ground arith

-- Fewer rounds are left to go behind a piece.
round_lt :
    (fuel before behind : ℕ) (st st' : State)
    → 2 * before + bodies st < suc fuel
    → behind ≤ before
    → (is_body st ≡ false → behind < before)
    → (is_body st ≡ true → is_body st' ≡ false)
    → 2 * behind + bodies st' < fuel
round_lt fuel before behind st st' h le lt body = elim (Bool-cases (is_body st)) [
  | inl b ↦ let one : bodies st ≡ 1 = rw b in let none : bodies st' ≡ 0 = rw (body b) in omega arith
  | inr b ↦ let fewer : behind < before = lt b in omega (arith, bodies_le st')
]

loop-Leaves :
    (unescape : Bytes → Option Bytes) (max_size fuel : ℕ) (r : HttpRequest) (input : Bytes)
    (requests : List HttpRequest)
    → IsReady r.entity
    → 2 * length input + bodies r.state < fuel
    → Leaves (from_stream_loop unescape max_size fuel r input requests)
unfolding from_stream_loop
loop-Leaves unescape max_size zero r input requests v h = absurd (omega arith)
loop-Leaves unescape max_size (suc fuel) r input requests v h =
    elim (Bool-cases (ltb max_size (seen_size r))) [
      | inl big ↦ rw big tt
      | inr fit ↦
          let p = consume_until-IsProgress r.entity input in
          let c = consume_until r.entity input in
          rw fit (
            after-Leaves unescape (from_stream_loop unescape max_size fuel) (with_entity r c.entity)
              requests c.found c.rest
              (λ missing. record {
                fits = p.delimiter_kept ∙ v.fits ∙ ap delimiter_of (sym p.state_kept);
                unmatched = λ n.
                    rw p.delimiter_kept
                      (p.still missing (v.unmatched (ap is_body (sym p.state_kept) ∙ n)));
              })
              (λ found. record {
                fits = p.delimiter_kept ∙ v.fits ∙ ap delimiter_of (sym p.state_kept);
                nothing = (p.whole found).1;
              })
              (λ found r' done ready body. loop-Leaves unescape max_size fuel r' c.rest done ready (
                round_lt fuel (length input) (length c.rest) r.state r'.state h (p.whole found).0
                  (λ n. p.shorter found (v.unmatched n))
                  (λ b. body (ap is_body p.state_kept ∙ b)))))
    ]

-- From a parser that is ready, `from_stream` ends on every chunk, whatever `curl_unescape` does: it
-- returns, and is ready for the next chunk, or it throws.
pub from_stream-Leaves :
    (unescape : Bytes → Option Bytes) (max_size : ℕ) (r : HttpRequest) (input : Bytes)
    → IsReady r.entity
    → Leaves (from_stream unescape max_size r input)
unfolding from_stream
from_stream-Leaves unescape max_size r input v = elim (Bool-cases (is_empty input)) [
  | inl nothing ↦ rw nothing v
  | inr some_bytes ↦ rw some_bytes (
      loop-Leaves unescape max_size (2 * length input + 2) r input [] v
        (omega (arith, bodies_le r.state)))
]

pub fresh-IsReady : (m : Method) → IsReady (fresh m).entity
unfolding fresh
fresh-IsReady m = record { fits = refl; unmatched = λ _. omega arith }
