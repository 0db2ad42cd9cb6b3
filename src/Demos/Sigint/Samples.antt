-- ===== src/Demos/Sigint/Samples.antt =====
-- Concrete runs of demos/demo_singInt_handler.c.
use user_level_threads_libra.Prelude.{◌≡◌, refl, false}
use user_level_threads_libra.Demos.Sigint.{Os, loaded, main, interrupt, interrupts}
use user_level_threads_libra.Demos.Sigint.Interrupts.{left_over}

abbrev clean : Os
clean = record { sigaction_fails = false; leftover = false }

three_interrupts : interrupts 3 (main clean loaded) ≡ left_over false 3
unfolding main interrupts interrupt
three_interrupts = refl
