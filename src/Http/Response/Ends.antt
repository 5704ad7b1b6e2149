-- ===== src/Http/Response/Ends.antt =====
-- The response parser ends on every input, and keeps its scanner in step with its state.
use prime_server.Prelude.{
  ℕ, zero, suc, ◌+◌, ◌*◌, ◌≤◌, ◌<◌, Bool, true, false, not, ◌&&◌, Option, none, some, List, [],
  ◌++◌, ◌==◌, if◌then◌else◌, is_empty, length, Bytes, ◌≡◌, ◌≢◌, refl, ap, sym, ◌∙◌, arith,
  Bool-cases, inl, inr,
}
use prime_server.Http.{State, HttpEntity, space, crlf, flush_stream, is_supported}
use prime_server.Http.Entity.{consume_until, awaited}
use prime_server.Http.Entity.Scanning.{consume_until-IsProgress}
use prime_server.Http.Request.{is_trailer, is_chunked}
use prime_server.Stdlib.{stoul}
use prime_server.Http.Response.{
  Response, Outcome, returned, thrown, diverged, Step, goes, fails, with_entity, emit, flush,
  read_code, read_version, read_header, split_header, start_body, end_headers, read_line,
  read_chunk_length, dispatch, Rounds, next_piece, after_consume, from_stream_loop, from_stream,
  fresh,
}

-- The delimiter that each state looks for.
abbrev pub delimiter_of : State → Bytes
delimiter_of State.version = space
delimiter_of State.code = space
delimiter_of State.body = []
delimiter_of _ = crlf

abbrev pub is_body : State → Bool
is_body State.body = true
is_body _ = false

pub record IsReady (e : HttpEntity) : Type 0 where
  pub fits : e.delimiter ≡ delimiter_of e.state
  pub unmatched : is_body e.state ≡ false → awaited e.delimiter e.partial_length ≢ 0

-- Behind a whole delimiter.
record IsSplit (e : HttpEntity) : Type 0 where
  fits : e.delimiter ≡ delimiter_of e.state
  nothing : e.partial_length ≡ 0

-- A step from a body is to another state, so two steps in a row take a byte.
abbrev Steps : State → Step → Type 0
Steps st (fails r) = Unit
Steps st (goes r whole) = IsSplit r.entity × (is_body st ≡ true → is_body r.state ≡ false)

emit-Steps : (st : State) (r : Response) → Steps st (emit r)
unfolding emit flush flush_stream
emit-Steps st r = (record { fits = refl; nothing = refl }, λ _. refl)

read_code-Steps :
    (r : Response) (o : Option ℕ) → IsSplit r.entity → Steps State.code (read_code r o)
unfolding read_code
read_code-Steps r none b = tt
read_code-Steps r (some n) b = (record { fits = refl; nothing = b.nothing }, λ x. cc)

read_version-Steps :
    (r : Response)
    → IsSplit r.entity
    → r.state ≡ State.version
    → Steps State.version (read_version r)
unfolding read_version
read_version-Steps r b e = elim (Bool-cases (is_supported r.partial_buffer)) [
  | inl ok ↦ rw ok (record { fits = b.fits ∙ ap delimiter_of e; nothing = b.nothing }, λ x. cc)
  | inr bad ↦ rw bad tt
]

-- In the header lines the delimiter is the end of a line.
abbrev EndsLine : Response → Type 0
EndsLine r = IsSplit r.entity × (delimiter_of r.state ≡ crlf)

read_header-Steps :
    (st : State) (r : Response) (o : Option (Bytes × Bytes))
    → IsSplit r.entity
    → is_body st ≡ false
    → Steps st (read_header r o)
unfolding read_header
read_header-Steps st r none b n = tt
read_header-Steps st r (some (name, behind)) b n =
    (record { fits = b.fits; nothing = b.nothing }, λ x. absurd (cc (x, n)))

start_body-Steps :
    (st : State) (r : Response) (o : Option ℕ)
    → IsSplit r.entity
    → is_body st ≡ false
    → Steps st (start_body r o)
unfolding start_body
start_body-Steps st r none b n = tt
start_body-Steps st r (some k) b n =
    (record { fits = refl; nothing = b.nothing }, λ x. absurd (cc (x, n)))

chunked-Steps :
    (st : State) (r : Response) (chunked : Bool)
    → EndsLine r
    → Steps st (
        if chunked
        then goes (with_entity r (record r.entity { state = State.chunk_length })) []
        else emit r)
chunked-Steps st r true l = (record { fits = l.0.fits ∙ l.1; nothing = l.0.nothing }, λ _. refl)
chunked-Steps st r false l = emit-Steps st r

end_headers-Steps :
    (st : State) (r : Response) (o encoding : Option Bytes)
    → EndsLine r
    → is_body st ≡ false
    → Steps st (end_headers r o encoding)
unfolding end_headers
end_headers-Steps st r none encoding l n =
    chunked-Steps st r (not (is_trailer r.state) && is_chunked encoding) l
end_headers-Steps st r (some v) encoding l n = elim (Bool-cases (not (is_trailer r.state))) [
  | inl first ↦ rw first (start_body-Steps st r (stoul 10 v) l.0 n)
  | inr last ↦ rw last (emit-Steps st r)
]

read_line-Steps :
    (st : State) (r : Response) → EndsLine r → is_body st ≡ false → Steps st (read_line r)
unfolding read_line
read_line-Steps st r l n = elim (Bool-cases (is_empty r.partial_buffer)) [
  | inl end ↦ rw end (end_headers-Steps st r _ _ l n)
  | inr more ↦ rw more (read_header-Steps st r (split_header r.partial_buffer) l.0 n)
]

read_chunk_length-Steps :
    (r : Response) (o : Option ℕ) → EndsLine r → Steps State.chunk_length (read_chunk_length r o)
unfolding read_chunk_length
read_chunk_length-Steps r none l = tt
read_chunk_length-Steps r (some n) l = elim (Bool-cases (n == 0)) [
  | inl last ↦ rw last (record { fits = l.0.fits ∙ l.1; nothing = l.0.nothing }, λ x. cc)
  | inr more ↦ rw more (record { fits = l.0.fits ∙ l.1; nothing = l.0.nothing }, λ x. cc)
]

dispatch-Steps :
    (st : State) (r : Response) → IsSplit r.entity → r.state ≡ st → Steps st (dispatch st r)
unfolding dispatch
dispatch-Steps State.method r b e = tt
dispatch-Steps State.path r b e = tt
dispatch-Steps State.message r b e =
    (record { fits = b.fits ∙ ap delimiter_of e; nothing = b.nothing }, λ x. cc)
dispatch-Steps State.code r b e = read_code-Steps r (stoul 10 r.partial_buffer) b
dispatch-Steps State.version r b e = read_version-Steps r b e
dispatch-Steps State.headers r b e = read_line-Steps State.headers r (b, ap delimiter_of e) refl
dispatch-Steps State.trailer r b e = read_line-Steps State.trailer r (b, ap delimiter_of e) refl
dispatch-Steps State.body r b e =
    emit-Steps State.body
      (with_entity r (record r.entity { body = r.partial_buffer; partial_buffer = r.body }))
dispatch-Steps State.chunk_length r b e =
    read_chunk_length-Steps r (stoul 16 r.partial_buffer) (b, ap delimiter_of e)
dispatch-Steps State.chunk r b e =
    (record { fits = b.fits ∙ ap delimiter_of e; nothing = b.nothing }, λ x. cc)

-- What the parser leaves behind.
abbrev pub Leaves : Outcome → Type 0
Leaves (returned r responses) = IsReady r.entity
Leaves (thrown r) = Unit
Leaves diverged = ⊥

awaited_start : (st : State) → is_body st ≡ false → awaited (delimiter_of st) 0 ≢ 0
awaited_start State.body h = cc
awaited_start State.version h = omega arith
awaited_start State.code h = omega arith
awaited_start _ h = omega arith

IsSplit-IsReady : (e : HttpEntity) → IsSplit e → IsReady (record e { partial_buffer = [] })
IsSplit-IsReady e b = record {
  fits = b.fits;
  unmatched = λ h. rw (b.fits, b.nothing) (awaited_start e.state h);
}

-- A round for the body may take nothing, any other takes a byte.
abbrev bodies : State → ℕ
bodies st = if is_body st then 1 else 0

bodies_le : (st : State) → bodies st ≤ 1
bodies_le st = ground arith

next_piece-Leaves :
    (again : Rounds) (st : State) (rest : Bytes) (responses : List Response) (step : Step)
    → Steps st step
    → ((r : Response) (whole : List Response)
        → IsReady r.entity
        → (is_body st ≡ true → is_body r.state ≡ false)
        → Leaves (again r rest whole))
    → Leaves (next_piece again rest responses step)
unfolding next_piece
next_piece-Leaves again st rest responses (fails r) g next = tt
next_piece-Leaves again st rest responses (goes r whole) g next =
    next (with_entity r (record r.entity { partial_buffer = [] })) (responses ++ whole)
      (IsSplit-IsReady r.entity g.0) g.1

after_consume-Leaves :
    (again : Rounds) (r : Response) (responses : List Response) (found : Bool) (rest : Bytes)
    → (found ≡ false → IsReady r.entity)
    → (found ≡ true → IsSplit r.entity)
    → (found ≡ true
        → (r' : Response) (whole : List Response) → IsReady r'.entity
        → (is_body r.state ≡ true → is_body r'.state ≡ false)
        → Leaves (again r' rest whole))
    → Leaves (after_consume again r responses found rest)
unfolding after_consume
after_consume-Leaves again r responses false rest ready between next = ready refl
after_consume-Leaves again r responses true rest ready between next =
    next_piece-Leaves again r.state rest responses (dispatch r.state r)
      (dispatch-Steps r.state r (between refl) refl) (next refl)

-- Fewer rounds are left to go behind a piece.
rounds_lt :
    (fuel before behind : ℕ) (st st' : State)
    → 2 * before + bodies st < suc fuel
    → behind ≤ before
    → (is_body st ≡ false → behind < before)
    → (is_body st ≡ true → is_body st' ≡ false)
    → 2 * behind + bodies st' < fuel
rounds_lt fuel before behind st st' h le lt body = elim (Bool-cases (is_body st)) [
  | inl b ↦ let one : bodies st ≡ 1 = rw b in let none : bodies st' ≡ 0 = rw (body b) in omega arith
  | inr b ↦ let fewer : behind < before = lt b in omega (arith, bodies_le st')
]

loop-Leaves :
    (fuel : ℕ) (r : Response) (input : Bytes) (responses : List Response)
    → IsReady r.entity
    → 2 * length input + bodies r.state < fuel
    → Leaves (from_stream_loop fuel r input responses)
unfolding from_stream_loop
loop-Leaves zero r input responses v h = absurd (omega arith)
loop-Leaves (suc fuel) r input responses v h =
    let p = consume_until-IsProgress r.entity input in
    let c = consume_until r.entity input in
    let same : c.entity.delimiter ≡ delimiter_of c.entity.state =
      p.delimiter_kept ∙ v.fits ∙ ap delimiter_of (sym p.state_kept) in
    after_consume-Leaves (from_stream_loop fuel) (with_entity r c.entity) responses c.found c.rest
      (λ missing. record {
        fits = same;
        unmatched = λ n.
            rw p.delimiter_kept (p.still missing (v.unmatched (ap is_body (sym p.state_kept) ∙ n)));
      })
      (λ found. record { fits = same; nothing = (p.whole found).1 })
      (λ found r' whole ready body. loop-Leaves fuel r' c.rest whole ready (
        rounds_lt fuel (length input) (length c.rest) r.state r'.state h (p.whole found).0
          (λ n. p.shorter found (v.unmatched n)) (λ b. body (ap is_body p.state_kept ∙ b))))

-- From a response parser that is ready, `from_stream` ends on every chunk: it returns, and is ready
-- for the next chunk, or it throws.
pub response_from_stream-Leaves :
    (r : Response) (input : Bytes) → IsReady r.entity → Leaves (from_stream r input)
unfolding from_stream
response_from_stream-Leaves r input v = elim (Bool-cases (is_empty input)) [
  | inl nothing ↦ rw nothing v
  | inr some_bytes ↦
      rw some_bytes
        (loop-Leaves (2 * length input + 2) r input [] v (omega (arith, bodies_le r.state)))
]

pub fresh-IsReady : (code : ℕ) → IsReady (fresh code).entity
unfolding fresh flush flush_stream
fresh-IsReady code = record { fits = refl; unmatched = λ _. omega arith }
