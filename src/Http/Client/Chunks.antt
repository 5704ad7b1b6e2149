-- ===== src/Http/Client/Chunks.antt =====
-- The responses do not depend on how the stream is cut into messages.
use prime_server.Prelude.{
  false, List, [], ◌∷◌, ◌++◌, Bytes, ◌≡◌, refl, sym, ap, ◌∙◌, append_assoc, append-nil,
}
use prime_server.Http.Client.{
  Scan, reset, Looked, waits, completes, throws, look, Streamed, streamed, thrown, Loop, response,
  on_look, stream_loop, stream_responses,
}
use prime_server.Http.Client.Steady.{IsSteady, Steady, look-Steady}

-- What a message leads to: the scanner, what is buffered, and the responses; at a throw only those
-- that were passed on before.
pub data Verdict : Type 0 where
  collects : Scan → Bytes → List Bytes → Verdict
  fails : List Bytes → Verdict

abbrev pub verdict : Streamed → Verdict
verdict (streamed s buffer sent) = collects s buffer sent
verdict (thrown s buffer sent) = fails sent

abbrev pub prepend : List Bytes → Verdict → Verdict
prepend before (collects s buffer sent) = collects s buffer (before ++ sent)
prepend before (fails sent) = fails (before ++ sent)

abbrev pub and_then : Verdict → (Scan → Bytes → Verdict) → Verdict
and_then (collects s buffer sent) next = prepend sent (next s buffer)
and_then (fails sent) next = fails sent

-- A message is read byte by byte, with all that no response has taken in one buffer.
abbrev Next : Type 0
Next = Scan → Bytes → Verdict

abbrev take_look : Next → Bytes → Looked → Verdict
take_look next pending (waits s) = next s pending
take_look next pending (completes s) =
    prepend (pending ∷ []) (next (record (reset s) { done = false }) [])
take_look next pending (throws s) = fails []

unfoldable run : Bytes → Next
run [] s pending = collects s pending []
run (c ∷ cs) s pending = take_look (run cs) (pending ++ c ∷ []) (look c s)

prepend-prepend : (a b : List Bytes) (v : Verdict) → prepend a (prepend b v) ≡ prepend (a ++ b) v
prepend-prepend a b (collects s buffer sent) = rw append_assoc
prepend-prepend a b (fails sent) = rw append_assoc

prepend-nil : (v : Verdict) → prepend [] v ≡ v
prepend-nil (collects s buffer sent) = refl
prepend-nil (fails sent) = refl

response-append : (buffer seen : Bytes) → response buffer seen ≡ buffer ++ seen
unfolding response
response-append [] seen = refl
response-append (c ∷ cs) seen = refl

look-run :
    (again : Loop) (next : Next) (buffer seen : Bytes) (sent : List Bytes) (l : Looked)
    → ((s : Scan) (b n : Bytes) (m : List Bytes)
        → verdict (again s b n m) ≡ prepend m (next s (b ++ n)))
    → verdict (on_look again buffer seen sent l) ≡ prepend sent (take_look next (buffer ++ seen) l)
unfolding on_look
look-run again next buffer seen sent (waits s) h = h s buffer seen sent
look-run again next buffer seen sent (completes s) h =
    h (record (reset s) { done = false }) [] [] (sent ++ response buffer seen ∷ [])
    ∙ rw (response-append buffer seen, prepend-prepend)
look-run again next buffer seen sent (throws s) h = rw append-nil

loop-run :
    (cs : Bytes) (s : Scan) (buffer seen : Bytes) (sent : List Bytes)
    → verdict (stream_loop cs s buffer seen sent) ≡ prepend sent (run cs s (buffer ++ seen))
unfolding stream_loop run
loop-run [] s buffer seen sent = rw append-nil
loop-run (c ∷ cs) s buffer seen sent =
    look-run (stream_loop cs) (run cs) buffer (seen ++ c ∷ []) sent (look c s) (loop-run cs)
    ∙ rw append_assoc

and_then-prepend :
    (before : List Bytes) (v : Verdict) (next : Next)
    → and_then (prepend before v) next ≡ prepend before (and_then v next)
and_then-prepend before (collects s buffer sent) next =
    sym (prepend-prepend before sent (next s buffer))
and_then-prepend before (fails sent) next = refl

look-append :
    (first second whole : Next) (pending : Bytes) (l : Looked)
    → ((s : Scan) (p : Bytes) → whole s p ≡ and_then (first s p) second)
    → take_look whole pending l ≡ and_then (take_look first pending l) second
look-append first second whole pending (waits s) h = h s pending
look-append first second whole pending (completes s) h =
    rw (h (record (reset s) { done = false }) [], and_then-prepend)
look-append first second whole pending (throws s) h = refl

run-append :
    (a b : Bytes) (s : Scan) (pending : Bytes)
    → run (a ++ b) s pending ≡ and_then (run a s pending) (run b)
unfolding run
run-append [] b s pending = sym (prepend-nil (run b s pending))
run-append (c ∷ cs) b s pending =
    look-append (run cs) (run b) (run (cs ++ b)) (pending ++ c ∷ []) (look c s) (run-append cs b)

-- What a message leaves behind.
abbrev pub Leaves : Verdict → Type 0
Leaves (collects s buffer sent) = IsSteady s
Leaves (fails sent) = Unit

prepend-Leaves : (before : List Bytes) (v : Verdict) → Leaves v → Leaves (prepend before v)
prepend-Leaves before (collects s buffer sent) h = h
prepend-Leaves before (fails sent) h = tt

take_look-Leaves :
    (next : Next) (pending : Bytes) (l : Looked)
    → Steady l
    → ((s : Scan) (p : Bytes) → IsSteady s → Leaves (next s p))
    → Leaves (take_look next pending l)
unfolding reset
take_look-Leaves next pending (waits s) h k = k s pending h
take_look-Leaves next pending (completes s) h k =
    prepend-Leaves (pending ∷ []) _ (k _ [] (record { waiting = refl; apart = λ e. refl }))
take_look-Leaves next pending (throws s) h k = tt

run-Leaves : (cs : Bytes) (s : Scan) (pending : Bytes) → IsSteady s → Leaves (run cs s pending)
unfolding run
run-Leaves [] s pending h = h
run-Leaves (c ∷ cs) s pending h =
    take_look-Leaves (run cs) (pending ++ c ∷ []) (look c s) (look-Steady c s h) (run-Leaves cs)

-- A message is what the machine makes of it.
stream_responses-run :
    (message : Bytes) (s : Scan) (buffer : Bytes)
    → IsSteady s
    → verdict (stream_responses message s buffer) ≡ run message s buffer
unfolding stream_responses run
stream_responses-run [] s buffer h = refl
stream_responses-run (c ∷ cs) s buffer h =
    loop-run (c ∷ cs) (record s { done = false }) buffer [] []
    ∙ prepend-nil _
    ∙ ap (λ d. run (c ∷ cs) (record s { done = d }) (buffer ++ [])) (sym h.waiting)
    ∙ rw append-nil

and_then-cong :
    (v : Verdict) (f g : Next)
    → Leaves v
    → ((s : Scan) (p : Bytes) → IsSteady s → f s p ≡ g s p)
    → and_then v f ≡ and_then v g
and_then-cong (collects s buffer sent) f g h k = ap (prepend sent) (k s buffer h)
and_then-cong (fails sent) f g h k = refl

-- From a steady scanner: however the bytes of a server are cut into two messages, the client takes
-- the same responses from them, keeps the same bytes and ends in the same state, or throws behind
-- the same responses, as when they come in one.
pub stream_responses-append :
    (a b : Bytes) (s : Scan) (buffer : Bytes)
    → IsSteady s
    → verdict (stream_responses (a ++ b) s buffer)
      ≡ and_then
          (verdict (stream_responses a s buffer))
          (λ t kept. verdict (stream_responses b t kept))
stream_responses-append a b s buffer h =
    stream_responses-run (a ++ b) s buffer h
    ∙ run-append a b s buffer
    ∙ sym (
        ap (λ v. and_then v (λ t kept. verdict (stream_responses b t kept)))
          (stream_responses-run a s buffer h)
        ∙ and_then-cong (run a s buffer) _ (run b) (run-Leaves a s buffer h)
            (stream_responses-run b))
