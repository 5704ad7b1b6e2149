-- ===== src/Worker/Clear.antt =====
-- No interrupt that the worker knows is for no job.
use prime_server.Prelude.{
  ℕ, Bool, true, false, not, ◌&&◌, ◌||◌, Option, none, some, List, [], ◌∷◌, ◌==◌, ==_iff, Bytes,
  if◌then◌else◌, is_empty, All, Bool-cases, inl, inr, ◌≡◌, ◌≢◌, refl, arith,
}
use prime_server.Worker.{
  Worker, no_job, Handled, returned, interrupted, contains, insert, remove, note_interrupts,
  check_job, handle_interrupt, Work, bails, catches, results, throws, throws_other, hangs, Attempt,
  worked, gave_up, failed, escaped, hung, Ended, ends, reset_job, do_keyed, do_frames, take_job,
  on_return, run_work, send_result, finish_work, JobInput, do_job,
}
use prime_server.Stdlib.{read_bytes}

-- The keys of jobs: all but the number for no job.
abbrev pub AreKeys : List ℕ → Type 0
AreKeys ids = All (λ id. id ≢ no_job) ids

abbrev pub HasKeys : Work → Type 0
HasKeys (bails down messages rest) = AreKeys messages × HasKeys rest
HasKeys (catches down messages rest caught) = AreKeys messages × HasKeys rest × HasKeys caught
HasKeys (results r) = Unit
HasKeys throws = Unit
HasKeys throws_other = Unit
HasKeys hangs = Unit

-- The work function ends with a result or a `std::exception`, or an `interrupt_t` leaves it, whatever
-- `bail` does.
abbrev pub Returns : Work → Type 0
Returns (bails down messages rest) = Returns rest
Returns (catches down messages rest caught) = Returns rest × Returns caught
Returns (results r) = Unit
Returns throws = Unit
Returns throws_other = ⊥
Returns hangs = ⊥

-- There is a first frame, of eight bytes at least.
abbrev pub IsFramed : List Bytes → Type 0
IsFramed [] = ⊥
IsFramed (request_info ∷ rest) = (job : ℕ) × (read_bytes 8 request_info ≡ some job)

-- A job that ends: it has its frames, its work function returns, and its interrupts are keys.
abbrev pub JobEnds : Option JobInput → Type 0
JobEnds none = Unit
JobEnds (some input) =
    IsFramed input.frames × Returns input.work × AreKeys input.messages × HasKeys input.work

abbrev pub InterruptHasKeys : Option (List ℕ) → Type 0
InterruptHasKeys none = Unit
InterruptHasKeys (some messages) = AreKeys messages

-- No interrupt that is known is for no job.
abbrev pub IsClear : Worker → Type 0
IsClear w = contains no_job w.interrupts ≡ false

insert-clear :
    (id : ℕ) (xs : List ℕ)
    → id ≢ no_job
    → contains no_job xs ≡ false
    → contains no_job (insert id xs) ≡ false
unfolding insert contains
insert-clear id xs key clear = elim (Bool-cases (contains id xs)) [
  | inl known ↦ rw known clear
  | inr new ↦ elim (Bool-cases (id == no_job)) [
    | inl same ↦ absurd (key ((==_iff id no_job).0 same))
    | inr other ↦ rw (new, other) clear
  ]
]

pub remove-clear :
    (id : ℕ) (xs : List ℕ) → contains no_job xs ≡ false → contains no_job (remove id xs) ≡ false
unfolding remove contains
remove-clear id [] clear = clear
remove-clear id (x ∷ xs) clear = ground (arith, remove-clear id xs)

pub if_never : {A : Type 0} (b : Bool) (v w : A) → (if b && false then v else w) ≡ w
if_never true v w = refl
if_never false v w = refl

pub note_interrupts-IsClear :
    (messages : List ℕ) (w : Worker)
    → AreKeys messages
    → IsClear w
    → IsClear (note_interrupts messages w)
unfolding note_interrupts
note_interrupts-IsClear [] w keys clear = clear
note_interrupts-IsClear (id ∷ ids) w keys clear =
    note_interrupts-IsClear ids _ keys.1 (insert-clear id w.interrupts keys.0 clear)

HandledClear : Handled → Type 0
HandledClear (returned w) = IsClear w
HandledClear (interrupted id w) = IsClear w

check_job-HandledClear :
    (force_check : Bool) (messages : List ℕ) (w : Worker)
    → IsClear w
    → HandledClear (check_job force_check messages w)
unfolding check_job HandledClear
check_job-HandledClear force_check messages w clear =
    elim (Bool-cases ((force_check || not (is_empty messages)) && contains w.job w.interrupts)) [
      | inl hit ↦ rw hit clear
      | inr miss ↦ rw miss clear
    ]

handle_interrupt-HandledClear :
    (down force_check : Bool) (messages : List ℕ) (w : Worker)
    → AreKeys messages
    → IsClear w
    → HandledClear (handle_interrupt down force_check messages w)
unfolding handle_interrupt HandledClear
handle_interrupt-HandledClear true force_check messages w keys clear = clear
handle_interrupt-HandledClear false force_check messages w keys clear =
    check_job-HandledClear force_check messages (note_interrupts messages w)
      (note_interrupts-IsClear messages w keys clear)

AttemptClear : Attempt → Type 0
AttemptClear (worked r w) = IsClear w
AttemptClear (gave_up id w) = IsClear w
AttemptClear (failed w) = IsClear w
AttemptClear (escaped w) = ⊥
AttemptClear (hung w) = ⊥

on_return-AttemptClear :
    (h : Handled) (stop : ℕ → Worker → Attempt) (next : Worker → Attempt)
    → HandledClear h
    → ((id : ℕ) (w : Worker) → IsClear w → AttemptClear (stop id w))
    → ((w : Worker) → IsClear w → AttemptClear (next w))
    → AttemptClear (on_return h stop next)
unfolding HandledClear
on_return-AttemptClear (returned w) stop next clear stops goes = goes w clear
on_return-AttemptClear (interrupted id w) stop next clear stops goes = stops id w clear

gave_up-AttemptClear : (id : ℕ) (w : Worker) → IsClear w → AttemptClear (gave_up id w)
unfolding AttemptClear
gave_up-AttemptClear id w clear = clear

run_work-AttemptClear :
    (work : Work) (w : Worker)
    → HasKeys work
    → Returns work
    → IsClear w
    → AttemptClear (run_work work w)
unfolding run_work AttemptClear
run_work-AttemptClear (bails down messages rest) w keys ret clear =
    on_return-AttemptClear (handle_interrupt down false messages w) gave_up (run_work rest)
      (handle_interrupt-HandledClear down false messages w keys.0 clear) gave_up-AttemptClear
      (λ v. run_work-AttemptClear rest v keys.1 ret)
run_work-AttemptClear (catches down messages rest caught) w keys ret clear =
    on_return-AttemptClear (handle_interrupt down false messages w) (λ id. run_work caught)
      (run_work rest) (handle_interrupt-HandledClear down false messages w keys.0 clear)
      (λ id v. run_work-AttemptClear caught v keys.2 ret.1)
      (λ v. run_work-AttemptClear rest v keys.1 ret.0)
run_work-AttemptClear (results r) w keys ret clear = clear
run_work-AttemptClear throws w keys ret clear = clear
run_work-AttemptClear throws_other w keys ret clear = ret
run_work-AttemptClear hangs w keys ret clear = ret

send_result-IsClear :
    (info : Bytes) (intermediate : Bool) (messages : List Bytes) (w : Worker)
    → IsClear w
    → IsClear (send_result info intermediate messages w)
unfolding send_result
send_result-IsClear info true messages w clear = clear
send_result-IsClear info false [] w clear = clear
send_result-IsClear info false (first ∷ rest) w clear = clear

-- It ends, without a job.
abbrev pub EndsClear : Ended → Type 0
EndsClear e = (v : Worker) × IsClear v × (v.job ≡ no_job) × (e ≡ ends v)

finish_work-EndsClear :
    (info : Bytes) (a : Attempt) → AttemptClear a → EndsClear (reset_job (finish_work info a))
unfolding finish_work AttemptClear
finish_work-EndsClear info (worked r w) clear = (
  record (send_result info r.intermediate r.messages (record w { heart_beat = r.heart_beat })) {
    job = no_job;
  },
  send_result-IsClear info r.intermediate r.messages (record w { heart_beat = r.heart_beat }) clear,
  refl,
  refl,
)
finish_work-EndsClear info (gave_up id w) clear = (record w { job = no_job }, clear, refl, refl)
finish_work-EndsClear info (failed w) clear = (record w { job = no_job }, clear, refl, refl)
finish_work-EndsClear info (escaped w) clear = absurd clear
finish_work-EndsClear info (hung w) clear = absurd clear

do_keyed-EndsClear :
    (input : JobInput) (info : Bytes) (job : ℕ) (w : Worker)
    → AreKeys input.messages
    → HasKeys input.work
    → Returns input.work
    → IsClear w
    → EndsClear (do_keyed input info (some job) w)
unfolding do_keyed
do_keyed-EndsClear input info job w keys work ret clear = finish_work-EndsClear info _ (
    on_return-AttemptClear
      (handle_interrupt input.down true input.messages (record w { job = job })) gave_up
      (run_work input.work)
      (handle_interrupt-HandledClear input.down true input.messages (record w { job = job }) keys
        clear)
      gave_up-AttemptClear (λ v. run_work-AttemptClear input.work v work ret))

do_frames-EndsClear :
    (input : JobInput) (frames : List Bytes) (w : Worker)
    → IsFramed frames
    → AreKeys input.messages
    → HasKeys input.work
    → Returns input.work
    → IsClear w
    → EndsClear (do_frames input frames w)
unfolding do_frames
do_frames-EndsClear input [] w framed keys work ret clear = absurd framed
do_frames-EndsClear input (info ∷ rest) w (job, key) keys work ret clear =
    rw key (do_keyed-EndsClear input info job w keys work ret clear)

pub take_job-EndsClear :
    (job : Option JobInput) (w : Worker)
    → JobEnds job
    → IsClear w
    → w.job ≡ no_job
    → EndsClear (take_job job w)
unfolding take_job do_job
take_job-EndsClear none w fine clear idle = (w, clear, idle, refl)
take_job-EndsClear (some input) w (framed, ret, keys, work) clear idle =
    do_frames-EndsClear input input.frames w framed keys work ret clear
