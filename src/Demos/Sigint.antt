-- ===== src/Demos/Sigint.antt =====
-- demos/demo_singInt_handler.c: a handler of SIGINT.
use user_level_threads_libra.Prelude.{
  ℕ, zero, suc, if◌then◌else◌, Bool, true, false, Option, none, some, List, [], ◌∷◌,
}
pub mod Interrupts
mod Samples

pub data Line : Type 0 where
  do_not_do_that sigaction_error : Line

-- `handled` says whether SIGINT has the handler, and `resets` whether it was installed with
-- SA_RESETHAND. The newest line is the first of `stdout`.
pub record State : Type 0 where
  pub handled : Bool
  pub resets : Bool
  pub stdout : List Line

abbrev pub loaded : State
loaded = record { handled = false; resets = false; stdout = [] }

-- `main` sets only `sa_handler` of the local variable `sa`: `leftover` says whether SA_RESETHAND
-- happens to be in its `sa_flags`.
pub record Os : Type 0 where
  pub sigaction_fails : Bool
  pub leftover : Bool

abbrev pub print : Line → State → State
print l s = record s { stdout = l ∷ s.stdout }

unfoldable pub catch_int : State → State
catch_int s = print do_not_do_that s

-- `main` up to its loop.
unfoldable pub main : Os → State → State
main os s =
    if os.sigaction_fails
    then print sigaction_error s
    else record s { handled = true; resets = os.leftover }

-- One `pause()`, which a SIGINT ends: without a handler, the signal kills the process. A handler with
-- SA_RESETHAND is taken off when it is called.
unfoldable pub interrupt : State → Option State
unfolding catch_int
interrupt s =
    if s.handled
    then some (catch_int (if s.resets then record s { handled = false } else s))
    else none

unfoldable pub interrupts : ℕ → State → Option State
unfolding interrupt
interrupts zero s = some s
interrupts (suc n) s = elim (interrupt s) [ none ↦ none | some t ↦ interrupts n t ]
