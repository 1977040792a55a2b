-- ===== src/Pipe/QueueTests.antt =====
-- One write to the pipe, as the queue that its users see.
use mydrivers.Prelude.{ℕ, ◌<◌, ◌≡◌, ◌⊎◌, refl, List, [], ◌∷◌}
use mydrivers.Kernel.{ok}
use mydrivers.Pipe.Queue.{Event, silent, calls, write_ends, to_write, Run}
use mydrivers.Pipe.Stream.{fresh}
use mydrivers.Pipe.Refinement.{queue, told, Reach-Run}
use mydrivers.Pipe.Progress.{CanWork, Rests, pipe_progress}
use mydrivers.Pipe.Tests.{
  request, empty, empty-IsValid, empty-contents, wrote, wrote-Reach, inside-Reach,
}

abbrev seen : List (ℕ × Event)
seen = (1, write_ends (ok 2)) ∷ (1, silent) ∷ (1, silent) ∷ (1, calls (to_write request)) ∷ []

Reach-Run_example : Run 2 2 (queue (fresh empty)) (told wrote-Reach) (queue wrote)
Reach-Run_example = Reach-Run empty (0 ∷ 0 ∷ 0 ∷ []) empty-IsValid empty-contents refl wrote-Reach

told_test : told wrote-Reach ≡ seen
unfolding told wrote-Reach inside-Reach
told_test = refl

-- The writer of the run is about to wake the readers, and nobody else calls.
pipe_progress_example :
    ((i : ℕ) × (i < 2) × CanWork wrote.pipe (wrote.pc i))
    ⊎ ((i : ℕ) → i < 2 → Rests wrote.pipe (wrote.pc i))
pipe_progress_example =
    pipe_progress empty (0 ∷ 0 ∷ 0 ∷ []) empty-IsValid empty-contents refl wrote-Reach
