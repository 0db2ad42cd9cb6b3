-- ===== src/Demos/Sigint/Interrupts.antt =====
-- What the signals do to demos/demo_singInt_handler.c.
use user_level_threads_libra.Prelude.{
  ℕ, zero, suc, Bool, true, false, Option, none, some, List, [], ◌∷◌, ◌≡◌, refl,
}
use user_level_threads_libra.Demos.Sigint.{
  Line, do_not_do_that, State, Os, loaded, main, interrupt, interrupts,
}

abbrev pub complaints : ℕ → List Line → List Line
complaints zero ls = ls
complaints (suc n) ls = complaints n (do_not_do_that ∷ ls)

caught :
    (n : ℕ) (ls : List Line)
    → interrupts n (record { handled = true; resets = false; stdout = ls })
      ≡ some (record { handled = true; resets = false; stdout = complaints n ls })
unfolding interrupts interrupt
caught zero ls = refl
caught (suc n) ls = caught n (do_not_do_that ∷ ls)

-- The process after `n` signals, none if it has been killed.
abbrev pub left_over : (resets : Bool) → ℕ → Option State
left_over false n = some (record { handled = true; resets = false; stdout = complaints n [] })
left_over true zero = some (record { handled = true; resets = true; stdout = [] })
left_over true (suc zero) =
    some (record { handled = false; resets = true; stdout = do_not_do_that ∷ [] })
left_over true (suc (suc n)) = none

interrupts_from :
    (b : Bool) (n : ℕ)
    → interrupts n (record { handled = true; resets = b; stdout = [] }) ≡ left_over b n
unfolding interrupts interrupt
interrupts_from false n = caught n []
interrupts_from true zero = refl
interrupts_from true (suc zero) = refl
interrupts_from true (suc (suc n)) = refl

-- If `sigaction` succeeds: each SIGINT gets a line and the process goes on, unless SA_RESETHAND happens to
-- be in the flags that `main` leaves unset; then the second SIGINT kills the process.
pub interrupts_lem :
    (os : Os) (n : ℕ)
    → os.sigaction_fails ≡ false
    → interrupts n (main os loaded) ≡ left_over os.leftover n
unfolding main
interrupts_lem os n e = rw e (interrupts_from os.leftover n)
