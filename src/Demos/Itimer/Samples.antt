-- ===== src/Demos/Itimer/Samples.antt =====
-- Concrete runs of demos/demo_itimer.c.
use user_level_threads_libra.Prelude.{◌≤◌, refl, false}
use user_level_threads_libra.Demos.Itimer.{
  State, Os, loaded, main, loop, timer_handler, loops, expires, Reaches, here, later,
}
use user_level_threads_libra.Demos.Itimer.Counting.{told, expiries, Reaches-told}

abbrev linux : Os
linux = record { sigaction_fails = false; setitimer_fails = λ v. false }

abbrev started : State
started = main linux loaded

abbrev shown : State
shown = loop (loop (timer_handler started))

shown_reached : Reaches started shown
unfolding main
shown_reached = later (later (later here (expires refl refl)) loops) loops

Reaches-told_example : told shown.stdout ≤ expiries shown.stdout
Reaches-told_example = Reaches-told linux shown shown_reached
