-- ===== src/Worker/Interrupts.antt =====
-- Interrupted jobs are not worked on, and are not answered.
use prime_server.Prelude.{ℕ, true, List, [], ◌∷◌, ◌≡◌, refl, ◌⊎◌}
use prime_server.Worker.{Worker, contains, note_interrupts}

-- An interrupt that is among the messages, or that the worker holds.
abbrev pub IsKnown : ℕ → List ℕ → Worker → Type 0
IsKnown id messages w = (contains id messages ≡ true) ⊎ (contains id w.interrupts ≡ true)

pub note_interrupts-job :
    (messages : List ℕ) (w : Worker) → (note_interrupts messages w).job ≡ w.job
unfolding note_interrupts
note_interrupts-job [] w = refl
note_interrupts-job (id ∷ ids) w = note_interrupts-job ids _

note_interrupts-answered :
    (messages : List ℕ) (w : Worker) → (note_interrupts messages w).answered ≡ w.answered
unfolding note_interrupts
note_interrupts-answered [] w = refl
note_interrupts-answered (id ∷ ids) w = note_interrupts-answered ids _

note_interrupts-forwarded :
    (messages : List ℕ) (w : Worker) → (note_interrupts messages w).forwarded ≡ w.forwarded
unfolding note_interrupts
note_interrupts-forwarded [] w = refl
note_interrupts-forwarded (id ∷ ids) w = note_interrupts-forwarded ids _
