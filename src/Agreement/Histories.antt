-- ===== src/Agreement/Histories.antt =====
-- A history of requests to both libraries.
use user_level_threads_libra.Prelude.{ℕ, ◌≡◌, refl, arith, Option, List, [], ◌∷◌, ℤ}
use user_level_threads_libra.Effects.{Result, ok, exited, undefined, Returns}
use user_level_threads_libra.Uthreads.State.{State, Os}
use user_level_threads_libra.Uthreads.Api.{main_thread}
use user_level_threads_libra.Uthreads.Safety.{initial}
use user_level_threads_libra.Nim.Api.{main_thread as nim_main_thread}
use user_level_threads_libra.Nim.Safety.{initial as nim_initial}
use user_level_threads_libra.Uthreads.Invariant.Defs.{Inv}
use user_level_threads_libra.Uthreads.Healthy.{IsHealthy}
use user_level_threads_libra.Nim.State.{State as NimState, Os as NimOs}
use user_level_threads_libra.Nim.Invariant.Defs.{Inv as NimInv}
use user_level_threads_libra.Nim.Healthy.{IsHealthy as NimIsHealthy}
use user_level_threads_libra.Agreement.{Agree}
use user_level_threads_libra.Agreement.Calls.{Request, total, serve}

abbrev pub Answers : Type 0
Answers = List (Option ℤ)

unfoldable and_then : {S : Type 0} → Option ℤ → Result S Answers → Result S Answers
and_then x (ok xs s) = ok (x ∷ xs) s
and_then x (exited z s) = exited z s
and_then x undefined = undefined

unfoldable pub history :
    {S : Type 0} → (Request → S → Result S (Option ℤ)) → List Request → S → Result S Answers
unfolding and_then
history serve [] s = ok [] s
history serve (r ∷ rs) s = elim (serve r s) [
  | ok x t ↦ and_then x (history serve rs t)
  | exited z t ↦ exited z t
  | undefined ↦ undefined
]

-- Both histories return, with the same answers, and leave states that agree.
abbrev pub AllAlike : Result State Answers → Result NimState Answers → Type 0
AllAlike r r' = Returns (λ x s. Returns (λ y n. (x ≡ y) × Inv s × NimInv n × Agree s n) r') r

-- The states after `uthread_init` agree.
pub initial-Agree : (os : NimOs) (q : ℕ) → Agree (initial q) (nim_initial os q)
unfolding main_thread nim_main_thread
initial-Agree os q = record {
  running = refl;
  ready = refl;
  blocked = λ k. refl;
  total = refl;
  quantums = λ k. ground arith;
  awake = refl;
  unlocked = refl;
  waiting = refl;
}
