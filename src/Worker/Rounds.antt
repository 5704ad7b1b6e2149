-- ===== src/Worker/Rounds.antt =====
-- When a round of `work` ends in `advertise`.
use prime_server.Prelude.{ℕ, Bool, false, Option, none, some, List, ◌≡◌}
use prime_server.Worker.{Worker, no_job, advertise, Ended, ends}
use prime_server.Worker.Clear.{IsClear}

-- Without a job.
abbrev pub IsIdle : Worker → Type 0
IsIdle w = IsClear w × (w.job ≡ no_job)

-- The process is not shutting down when the interrupts are read.
abbrev pub StaysUp : Bool → Option (List ℕ) → Type 0
StaysUp down none = Unit
StaysUp down (some messages) = down ≡ false

-- The round ends in `advertise`.
abbrev pub EndsIdle : Ended → Type 0
EndsIdle e = (v : Worker) × IsIdle v × (e ≡ ends (advertise v))
