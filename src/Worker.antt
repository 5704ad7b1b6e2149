-- ===== src/Worker.antt =====
-- src/prime_server.cpp: `worker_t`, which takes jobs from a proxy and gives up those that the server
-- interrupts.
--
-- A job and an interrupt are the 64 bits of a request key. What the sockets and the application do
-- is an input: the frames that came in, what `shutting_down()` says, and a run of the work function
-- (`Work`), which need not return. `interrupted` is `interrupt_t`.
pub mod Interrupts
pub mod History
pub mod Clear
pub mod Rounds
use prime_server.Prelude.{
  ℕ, zero, suc, ◌+◌, ◌-◌, ◌/◌, ◌%◌, ◌^◌, Bool, true, false, not, ◌&&◌, ◌||◌, Option, none, some,
  List, [], ◌∷◌, ◌++◌, ltb, ◌==◌, if◌then◌else◌, is_empty, length, Bytes,
}
use prime_server.Stdlib.{read_bytes}

pub record Worker : Type 0 where
  pub heart_beat : Bytes
  pub job : ℕ
  pub interrupts : List ℕ
  pub interrupt_history : List ℕ
  -- what went out, the latest first: to the next proxy, and to the server
  pub forwarded : List (Bytes × List Bytes)
  pub answered : List (Bytes × Bytes)
  pub advertised : List Bytes

-- `std::numeric_limits<uint64_t>::max()`: no job.
abbrev pub no_job : ℕ
no_job = 2 ^ 64 - 1

pub data Handled : Type 0 where
  returned : Worker → Handled
  -- `interrupt_t`, with the id of the request
  interrupted : ℕ → Worker → Handled

-- `interrupts.find(id) != interrupts.cend()`.
unfoldable pub contains : ℕ → List ℕ → Bool
contains id [] = false
contains id (x ∷ xs) = x == id || contains id xs

-- `unordered_set::insert`.
unfoldable pub insert : ℕ → List ℕ → List ℕ
unfolding contains
insert id xs = if contains id xs then xs else id ∷ xs

-- `unordered_set::erase`.
unfoldable pub remove : ℕ → List ℕ → List ℕ
remove id [] = []
remove id (x ∷ xs) = let rest = remove id xs in if x == id then rest else x ∷ rest

-- The loop over the messages of the interrupt socket.
unfoldable pub note_interrupts : List ℕ → Worker → Worker
unfolding insert
note_interrupts [] w = w
note_interrupts (id ∷ ids) w = note_interrupts ids (record w {
  interrupts = insert id w.interrupts;
  interrupt_history = w.interrupt_history ++ id ∷ [];
})

-- `job & 0xFFFFFFFF`.
abbrev pub job_id : ℕ → ℕ
job_id job = job % 2 ^ 32

-- Either more interrupts came, or the backlog is to be checked.
unfoldable pub check_job : Bool → List ℕ → Worker → Handled
unfolding contains
check_job force_check messages w =
    if (force_check || not (is_empty messages)) && contains w.job w.interrupts
    then interrupted (job_id w.job) w
    else returned w

-- `handle_interrupt`; `down` is `shutting_down()`, `messages` what `recv_all` returns.
unfoldable pub handle_interrupt : Bool → Bool → List ℕ → Worker → Handled
unfolding note_interrupts check_job
handle_interrupt down force_check messages w =
    if down
    then interrupted (job_id w.job) w
    else check_job force_check messages (note_interrupts messages w)

-- `worker_t::result_t`.
pub record WorkResult : Type 0 where
  pub intermediate : Bool
  pub messages : List Bytes
  pub heart_beat : Bytes

-- A run of the work function: each call of `bail`, with what it finds, then how it ends: with a
-- result, with a `std::exception`, with another exception, or never. An `interrupt_t` of `bail`
-- leaves the function, or is caught, and then it goes on in its own way.
pub data Work : Type 0 where
  bails : Bool → List ℕ → Work → Work
  catches : Bool → List ℕ → Work → Work → Work
  results : WorkResult → Work
  throws : Work
  throws_other : Work
  hangs : Work

pub data Attempt : Type 0 where
  worked : WorkResult → Worker → Attempt
  gave_up : ℕ → Worker → Attempt
  failed : Worker → Attempt
  escaped : Worker → Attempt
  hung : Worker → Attempt

abbrev pub on_return : Handled → (ℕ → Worker → Attempt) → (Worker → Attempt) → Attempt
on_return (returned w) stop next = next w
on_return (interrupted id w) stop next = stop id w

unfoldable pub run_work : Work → Worker → Attempt
unfolding handle_interrupt
run_work (bails down messages rest) w =
    on_return (handle_interrupt down false messages w) gave_up (run_work rest)
run_work (catches down messages rest caught) w =
    on_return (handle_interrupt down false messages w) (λ id. run_work caught) (run_work rest)
run_work (results r) w = worked r w
run_work throws w = failed w
run_work throws_other w = escaped w
run_work hangs w = hung w

-- How a round of `work` ends: it is over, an `interrupt_t` or an exception that is no
-- `std::exception` leaves `work`, the work function does not return, or a frame is read that is not
-- there or too short.
pub data Ended : Type 0 where
  ends : Worker → Ended
  interrupt_leaves : ℕ → Worker → Ended
  exception_leaves : Worker → Ended
  never_ends : Worker → Ended
  undefined : Ended

-- Where the result goes: on to the next proxy, or its first message to the server; an empty result
-- goes nowhere.
unfoldable pub send_result : Bytes → Bool → List Bytes → Worker → Worker
send_result request_info true messages w = record w {
  forwarded = (request_info, messages) ∷ w.forwarded;
}
send_result request_info false [] w = w
send_result request_info false (first ∷ _) w = record w {
  answered = (request_info, first) ∷ w.answered;
}

unfoldable pub finish_work : Bytes → Attempt → Ended
unfolding send_result
finish_work request_info (worked r w) =
    ends
      (send_result request_info r.intermediate r.messages (record w { heart_beat = r.heart_beat }))
finish_work request_info (gave_up id w) = ends w
finish_work request_info (failed w) = ends w
finish_work request_info (escaped w) = exception_leaves w
finish_work request_info (hung w) = never_ends w

-- A job that came in: its frames, what the check before the work finds, and the run of the work
-- function.
pub record JobInput : Type 0 where
  pub frames : List Bytes
  pub down : Bool
  pub messages : List ℕ
  pub work : Work

abbrev pub reset_job : Ended → Ended
reset_job (ends w) = ends (record w { job = no_job })
reset_job (interrupt_leaves id w) = interrupt_leaves id w
reset_job (exception_leaves w) = exception_leaves w
reset_job (never_ends w) = never_ends w
reset_job undefined = undefined

-- The `try` block from the check on, and the reset of `job`.
unfoldable pub do_keyed : JobInput → Bytes → Option ℕ → Worker → Ended
unfolding handle_interrupt run_work finish_work
do_keyed input request_info none w = undefined
do_keyed input request_info (some job) w = reset_job (
    finish_work request_info (
      on_return (handle_interrupt input.down true input.messages (record w { job = job })) gave_up
        (run_work input.work)))

-- The info is the first frame; its first eight bytes are the job.
unfoldable pub do_frames : JobInput → List Bytes → Worker → Ended
unfolding do_keyed read_bytes
do_frames input [] w = undefined
do_frames input (request_info ∷ _) w = do_keyed input request_info (read_bytes 8 request_info) w

unfoldable pub do_job : JobInput → Worker → Ended
unfolding do_frames
do_job input w = do_frames input input.frames w

-- `static_cast<uint32_t>(now) - INTERRUPT_AGE_CUTOFF`, in 32 bits.
unfoldable pub cutoff : ℕ → ℕ
cutoff now = (now % 2 ^ 32 + 2 ^ 32 - 600) % 2 ^ 32

-- The time stamp of an interrupt: `>> 32`.
abbrev pub stamp : ℕ → ℕ
stamp id = id / 2 ^ 32

-- The loop that culls the history; `rest` is what is left of it.
unfoldable pub cull : ℕ → List ℕ → List ℕ → List ℕ × List ℕ
unfolding remove
cull drop_dead interrupts [] = (interrupts, [])
cull drop_dead interrupts (id ∷ ids) =
    let rest = cull drop_dead (remove id interrupts) ids in
    if ltb (stamp id) drop_dead then rest else (interrupts, id ∷ ids)

unfoldable pub cull_history : ℕ → Worker → Worker
unfolding cull cutoff
cull_history now w =
    let (kept, history) = cull (cutoff now) w.interrupts w.interrupt_history in
    record w { interrupts = kept; interrupt_history = history }

-- What one round of `work` finds. `handle_interrupt(false)` is outside the `try` block here.
pub record Round : Type 0 where
  pub job : Option JobInput
  pub down : Bool
  pub interrupt : Option (List ℕ)
  pub down_at_interrupt : Bool
  pub now : ℕ

abbrev pub then_cull : ℕ → Handled → Handled
then_cull now (returned w) = returned (cull_history now w)
then_cull now (interrupted id w) = interrupted id w

unfoldable pub take_interrupts : ℕ → Bool → Option (List ℕ) → Worker → Handled
unfolding handle_interrupt cull_history
take_interrupts now down none w = returned w
take_interrupts now down (some messages) w = then_cull now (handle_interrupt down false messages w)

unfoldable pub advertise : Worker → Worker
advertise w = record w { advertised = w.heart_beat ∷ w.advertised }

abbrev pub then_advertise : Handled → Ended
then_advertise (returned w) = ends (advertise w)
then_advertise (interrupted id w) = interrupt_leaves id w

unfoldable pub take_job : Option JobInput → Worker → Ended
unfolding do_job
take_job none w = ends w
take_job (some input) w = do_job input w

-- What follows the job in a round.
unfoldable pub after_job : Round → Ended → Ended
unfolding take_interrupts advertise
after_job round (ends w) =
    if round.down
    then ends w
    else then_advertise (take_interrupts round.now round.down_at_interrupt round.interrupt w)
after_job round (interrupt_leaves id w) = interrupt_leaves id w
after_job round (exception_leaves w) = exception_leaves w
after_job round (never_ends w) = never_ends w
after_job round undefined = undefined

-- One round of `work`; without interrupts or shutdown it ends in `advertise`.
unfoldable pub work_once : Round → Worker → Ended
unfolding take_job after_job
work_once round w = after_job round (take_job round.job w)
