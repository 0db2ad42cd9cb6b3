-- ===== src/Uthreads/Defects/Label.antt =====
-- The label `jump` of switch_threads, where SIGVTALRM is unblocked before startRunning.
use user_level_threads_libra.Prelude.{ℕ, ◌≡◌, Option, none, some}
use user_level_threads_libra.Uthreads.State.{Os, State, UThread, Point, in_handler}
use user_level_threads_libra.Uthreads.Process.{M, ◌>>◌}
use user_level_threads_libra.Uthreads.Scheduler.{
  Control, insert_ready_to_running, count_quantum, save_environment, jump,
}

-- Where a thread would go on.
abbrev pub place : Option UThread → Option Point
place none = none
place (some u) = some u.env.point

abbrev Saved : ℕ → Point → State → Type 0
Saved r p t = place (t.all_threads r) ≡ some p

-- The rest of `switch_threads` for a thread `r` that has left the processor.
abbrev finish : Os → ℕ → M Control
finish os r = do insert_ready_to_running; count_quantum; save_environment r in_handler; jump os
