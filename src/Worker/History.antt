-- ===== src/Worker/History.antt =====
-- The history of interrupts, from which the worker culls them.
use prime_server.Prelude.{
  ℕ, Bool, true, false, not, ◌&&◌, ◌||◌, Option, none, some, List, [], ◌∷◌, ◌++◌, ltb, ◌==◌,
  if◌then◌else◌, is_empty, Bytes, ◌≡◌, sym, arith, inl, inr, ◌⊎◌, subst,
}
use prime_server.Worker.{
  Worker, Handled, returned, interrupted, contains, insert, remove, note_interrupts, check_job,
  handle_interrupt, Work, bails, catches, results, throws, throws_other, hangs, Attempt, worked,
  gave_up, failed, escaped, hung, on_return, Ended, ends, interrupt_leaves, exception_leaves,
  never_ends, undefined, reset_job, do_keyed, do_frames, after_job, run_work, send_result,
  finish_work, JobInput, do_job, cutoff, stamp, cull, cull_history, Round, then_cull,
  take_interrupts, advertise, then_advertise, take_job, work_once,
}
use prime_server.Stdlib.{read_bytes}

-- The set is a part of the history.
abbrev pub IsCovered : List ℕ → List ℕ → Type 0
IsCovered interrupts history = (id : ℕ) → contains id interrupts ≡ true → contains id history ≡ true

-- Each interrupt that is known is in the history.
pub record IsRemembered (w : Worker) : Type 0 where
  pub covered : IsCovered w.interrupts w.interrupt_history

abbrev pub Remembers : Handled → Type 0
Remembers (returned w) = IsRemembered w
Remembers (interrupted id w) = IsRemembered w

abbrev Tried : Attempt → Type 0
Tried (worked r w) = IsRemembered w
Tried (gave_up id w) = IsRemembered w
Tried (failed w) = IsRemembered w
Tried (escaped w) = IsRemembered w
Tried (hung w) = IsRemembered w

-- The same at the end of a round, however it ends; a read of a frame that is not there is left out.
abbrev pub EndRemembers : Ended → Type 0
EndRemembers (ends w) = IsRemembered w
EndRemembers (interrupt_leaves id w) = IsRemembered w
EndRemembers (exception_leaves w) = IsRemembered w
EndRemembers (never_ends w) = IsRemembered w
EndRemembers undefined = Unit

if_holds : {A : Type 0} (P : A → Type 0) (b : Bool) (x y : A) → P x → P y → P (if b then x else y)
if_holds P true x y h k = h
if_holds P false x y h k = k

contains-append_left :
    (id : ℕ) (xs ys : List ℕ) → contains id xs ≡ true → contains id (xs ++ ys) ≡ true
unfolding contains
contains-append_left id [] ys h = absurd (cc h)
contains-append_left id (x ∷ xs) ys h = ground (arith, contains-append_left id xs ys)

contains-append_right : (id : ℕ) (xs : List ℕ) → contains id (xs ++ id ∷ []) ≡ true
unfolding contains
contains-append_right id [] = ground arith
contains-append_right id (x ∷ xs) = ground (arith, contains-append_right id xs)

contains-insert_cases :
    (id j : ℕ) (xs : List ℕ) → contains id (insert j xs) ≡ true → (j ≡ id) ⊎ (contains id xs ≡ true)
unfolding insert contains
contains-insert_cases id j xs h = ground arith

contains-remove :
    (id j : ℕ) (xs : List ℕ)
    → contains id (remove j xs) ≡ true
    → (contains id xs ≡ true) × ((j == id) ≡ false)
unfolding remove contains
contains-remove id j [] h = absurd (cc h)
contains-remove id j (x ∷ xs) h = ground (arith, contains-remove id j xs)

note_interrupts-IsRemembered :
    (messages : List ℕ) (w : Worker) → IsRemembered w → IsRemembered (note_interrupts messages w)
unfolding note_interrupts
note_interrupts-IsRemembered [] w h = h
note_interrupts-IsRemembered (j ∷ js) w h = note_interrupts-IsRemembered js _ (record {
  covered = λ id k. elim (contains-insert_cases id j w.interrupts k) [
    | inl e ↦
        subst (λ x. contains id (w.interrupt_history ++ x ∷ []) ≡ true) (sym e)
          (contains-append_right id w.interrupt_history)
    | inr old ↦ contains-append_left id w.interrupt_history (j ∷ []) (h.covered id old)
  ];
})

check_job-Remembers :
    (force_check : Bool) (messages : List ℕ) (w : Worker)
    → IsRemembered w
    → Remembers (check_job force_check messages w)
unfolding check_job
check_job-Remembers force_check messages w h =
    if_holds Remembers ((force_check || not (is_empty messages)) && contains w.job w.interrupts) _ _
      h h

handle_interrupt-Remembers :
    (down force_check : Bool) (messages : List ℕ) (w : Worker)
    → IsRemembered w
    → Remembers (handle_interrupt down force_check messages w)
unfolding handle_interrupt
handle_interrupt-Remembers true force_check messages w h = h
handle_interrupt-Remembers false force_check messages w h =
    check_job-Remembers force_check messages (note_interrupts messages w)
      (note_interrupts-IsRemembered messages w h)

on_return-Tried :
    (handled : Handled) (stop : ℕ → Worker → Attempt) (next : Worker → Attempt)
    → Remembers handled
    → ((id : ℕ) (w : Worker) → IsRemembered w → Tried (stop id w))
    → ((w : Worker) → IsRemembered w → Tried (next w))
    → Tried (on_return handled stop next)
on_return-Tried (returned w) stop next h j k = k w h
on_return-Tried (interrupted id w) stop next h j k = j id w h

run_work-Tried : (work : Work) (w : Worker) → IsRemembered w → Tried (run_work work w)
unfolding run_work
run_work-Tried (bails down messages rest) w h =
    on_return-Tried (handle_interrupt down false messages w) gave_up (run_work rest)
      (handle_interrupt-Remembers down false messages w h) (λ id v k. k) (run_work-Tried rest)
run_work-Tried (catches down messages rest caught) w h =
    on_return-Tried (handle_interrupt down false messages w) (λ id. run_work caught) (run_work rest)
      (handle_interrupt-Remembers down false messages w h) (λ id. run_work-Tried caught)
      (run_work-Tried rest)
run_work-Tried (results r) w h = h
run_work-Tried throws w h = h
run_work-Tried throws_other w h = h
run_work-Tried hangs w h = h

send_result-IsRemembered :
    (request_info : Bytes) (intermediate : Bool) (messages : List Bytes) (w : Worker)
    → IsRemembered w
    → IsRemembered (send_result request_info intermediate messages w)
unfolding send_result
send_result-IsRemembered request_info true messages w h = record { covered = h.covered }
send_result-IsRemembered request_info false [] w h = h
send_result-IsRemembered request_info false (m ∷ ms) w h = record { covered = h.covered }

finish_work-EndRemembers :
    (request_info : Bytes) (attempt : Attempt)
    → Tried attempt
    → EndRemembers (finish_work request_info attempt)
unfolding finish_work
finish_work-EndRemembers request_info (worked r w) h =
    send_result-IsRemembered request_info r.intermediate r.messages
      (record w { heart_beat = r.heart_beat }) (record { covered = h.covered })
finish_work-EndRemembers request_info (gave_up id w) h = h
finish_work-EndRemembers request_info (failed w) h = h
finish_work-EndRemembers request_info (escaped w) h = h
finish_work-EndRemembers request_info (hung w) h = h

reset_job-EndRemembers : (e : Ended) → EndRemembers e → EndRemembers (reset_job e)
reset_job-EndRemembers (ends w) h = record { covered = h.covered }
reset_job-EndRemembers (interrupt_leaves id w) h = h
reset_job-EndRemembers (exception_leaves w) h = h
reset_job-EndRemembers (never_ends w) h = h
reset_job-EndRemembers undefined h = tt

do_keyed-EndRemembers :
    (input : JobInput) (request_info : Bytes) (key : Option ℕ) (w : Worker)
    → IsRemembered w
    → EndRemembers (do_keyed input request_info key w)
unfolding do_keyed
do_keyed-EndRemembers input request_info none w h = tt
do_keyed-EndRemembers input request_info (some job) w h =
    reset_job-EndRemembers (finish_work request_info _) (
      finish_work-EndRemembers request_info _ (
        on_return-Tried (handle_interrupt input.down true input.messages (record w { job = job }))
          gave_up (run_work input.work)
          (handle_interrupt-Remembers input.down true input.messages (record w { job = job })
            (record { covered = h.covered }))
          (λ id v k. k) (run_work-Tried input.work)))

do_frames-EndRemembers :
    (input : JobInput) (frames : List Bytes) (w : Worker)
    → IsRemembered w
    → EndRemembers (do_frames input frames w)
unfolding do_frames
do_frames-EndRemembers input [] w h = tt
do_frames-EndRemembers input (request_info ∷ rest) w h =
    do_keyed-EndRemembers input request_info (read_bytes 8 request_info) w h

take_job-EndRemembers :
    (job : Option JobInput) (w : Worker) → IsRemembered w → EndRemembers (take_job job w)
unfolding take_job do_job
take_job-EndRemembers none w h = h
take_job-EndRemembers (some input) w h = do_frames-EndRemembers input input.frames w h

tail-IsCovered :
    (j : ℕ) (interrupts history : List ℕ)
    → IsCovered interrupts (j ∷ history)
    → IsCovered (remove j interrupts) history
unfolding contains
tail-IsCovered j interrupts history h id k =
    let (there, other) = contains-remove id j interrupts k in
    let known = h id there in ground (arith, known, other)

-- Culling the front of the history culls the set with it.
cull-IsCovered :
    (drop_dead : ℕ) (interrupts history : List ℕ)
    → IsCovered interrupts history
    → IsCovered (cull drop_dead interrupts history).0 (cull drop_dead interrupts history).1
unfolding cull
cull-IsCovered drop_dead interrupts [] h = h
cull-IsCovered drop_dead interrupts (j ∷ js) h =
    if_holds (λ p. IsCovered p.0 p.1) (ltb (stamp j) drop_dead)
      (cull drop_dead (remove j interrupts) js) (interrupts, j ∷ js)
      (cull-IsCovered drop_dead (remove j interrupts) js (tail-IsCovered j interrupts js h)) h

then_cull-Remembers :
    (now : ℕ) (handled : Handled) → Remembers handled → Remembers (then_cull now handled)
unfolding cull_history
then_cull-Remembers now (returned w) h = record {
  covered = cull-IsCovered (cutoff now) w.interrupts w.interrupt_history h.covered;
}
then_cull-Remembers now (interrupted id w) h = h

then_advertise-Remembers :
    (handled : Handled) → Remembers handled → EndRemembers (then_advertise handled)
unfolding advertise
then_advertise-Remembers (returned w) h = record { covered = h.covered }
then_advertise-Remembers (interrupted id w) h = h

take_interrupts-Remembers :
    (now : ℕ) (down : Bool) (messages : Option (List ℕ)) (w : Worker)
    → IsRemembered w
    → Remembers (take_interrupts now down messages w)
unfolding take_interrupts cull_history
take_interrupts-Remembers now down none w h = h
take_interrupts-Remembers now down (some messages) w h =
    then_cull-Remembers now (handle_interrupt down false messages w)
      (handle_interrupt-Remembers down false messages w h)

after_job-EndRemembers :
    (round : Round) (e : Ended) → EndRemembers e → EndRemembers (after_job round e)
unfolding after_job advertise
after_job-EndRemembers round (ends w) h = if_holds EndRemembers round.down _ _ h (
    then_advertise-Remembers _
      (take_interrupts-Remembers round.now round.down_at_interrupt round.interrupt w h))
after_job-EndRemembers round (interrupt_leaves id w) h = h
after_job-EndRemembers round (exception_leaves w) h = h
after_job-EndRemembers round (never_ends w) h = h
after_job-EndRemembers round undefined h = tt

-- If each known interrupt is in the history from which the worker culls them, that is so at the end
-- of a round, whatever comes in, also when an exception leaves the loop or the work function does
-- not return; a read of a frame that is not there is left out.
pub work_once-Remembers :
    (round : Round) (w : Worker) → IsRemembered w → EndRemembers (work_once round w)
unfolding work_once
work_once-Remembers round w h =
    after_job-EndRemembers round (take_job round.job w) (take_job-EndRemembers round.job w h)
