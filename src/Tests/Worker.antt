-- ===== src/Tests/Worker.antt =====
-- The theorems on the worker at concrete inputs.
use prime_server.Prelude.{some, [], ◌∷◌, codes, false}
use prime_server.Worker.{Worker, JobInput, no_job, results}
use prime_server.Worker.{Round, catches, hangs, throws, work_once}
use prime_server.Worker.History.{IsRemembered, EndRemembers, work_once-Remembers}

abbrev interrupted_worker : Worker
interrupted_worker = record {
  heart_beat = codes "beat";
  job = no_job;
  interrupts = 5 ∷ [];
  interrupt_history = 5 ∷ [];
  forwarded = [];
  answered = [];
  advertised = [];
}

abbrev job_five : JobInput
job_five = record {
  frames = (5 ∷ 0 ∷ 0 ∷ 0 ∷ 0 ∷ 0 ∷ 0 ∷ 0 ∷ []) ∷ codes "work" ∷ [];
  down = false;
  messages = 9 ∷ [];
  work =
      results
        (record { intermediate = false; messages = codes "ok" ∷ []; heart_beat = codes "beat" });
}

-- An interrupt comes for a job that is being worked on, and later ones cull the history.
abbrev busy_round : Round
busy_round = record {
  job = some (record {
    frames = (7 ∷ 0 ∷ 0 ∷ 0 ∷ 0 ∷ 0 ∷ 0 ∷ 0 ∷ []) ∷ codes "work" ∷ [];
    down = false;
    messages = [];
    work = catches false (7 ∷ []) hangs throws;
  });
  down = false;
  interrupt = some (9 ∷ []);
  down_at_interrupt = false;
  now = 1000;
}

interrupted_worker-IsRemembered : IsRemembered interrupted_worker
interrupted_worker-IsRemembered = record { covered = λ id h. h }

work_once-Remembers_example : EndRemembers (work_once busy_round interrupted_worker)
work_once-Remembers_example =
    work_once-Remembers busy_round interrupted_worker interrupted_worker-IsRemembered

-- A work function that catches the interrupt and ends all the same.
abbrev idle_round : Round
idle_round = record busy_round {
  job = some (record {
    frames = (7 ∷ 0 ∷ 0 ∷ 0 ∷ 0 ∷ 0 ∷ 0 ∷ 0 ∷ []) ∷ codes "work" ∷ [];
    down = false;
    messages = [];
    work = catches false (7 ∷ []) throws throws;
  });
}
