-- ===== src/Clients/World.antt =====
-- A process that uses the library: the library's state, the shared variables, the output, and the stacks of
-- the threads.
use user_level_threads_libra.Prelude.{
  ℕ, ◌+◌, ◌==◌, Bool, true, false, if◌then◌else◌, Option, none, some, List, [], ◌∷◌, ℤ, pos, ◌≡◌,
}
use Prim.Native.String.{String}
use user_level_threads_libra.Effects.{Result, ok, exited, undefined}
use user_level_threads_libra.Uthreads.State.{
  Os, Message, library_err, system_call_err, zeroed, update,
}
use user_level_threads_libra.Uthreads.Scheduler.{Control, returns, begins, goes_on}
use user_level_threads_libra.Uthreads.Api.{uthread_init}
use user_level_threads_libra.Uthreads.Program.{Event, alarm, perform}
use user_level_threads_libra.Clients.Code.{
  Code, ends, forever, aborts, printf, assign, expect, ask, while_ne, Query, variable, result,
  errors, init, equal, unroll,
}
use user_level_threads_libra.Uthreads.State
pub mod Good
pub mod Frames
pub mod Safety

pub record Line : Type 0 where
  pub format : String
  pub args : List ℤ

-- `now` is what the running thread does next. `frames t` is what thread `t` does with what its call returns;
-- a thread that an alarm interrupted makes no use of that. The newest line is the first of `stdout`, and
-- `failures` counts the expectations that were not met.
pub record World : Type 0 where
  pub lib : State.State
  pub vars : ℕ → ℤ
  pub stdout : List Line
  pub failures : ℕ
  pub frames : ℕ → Option (ℤ → Code)
  pub now : Code

abbrev pub loaded : World
loaded = record {
  lib = zeroed;
  vars = λ _. pos 0;
  stdout = [];
  failures = 0;
  frames = λ _. none;
  now = ends;
}

-- `128 + SIGABRT`, as a shell tells of it.
abbrev pub aborted : ℤ
aborted = pos 134

abbrev pub library_errors : List Message → ℕ
library_errors [] = 0
library_errors (library_err e ∷ rest) = library_errors rest + 1
library_errors (system_call_err e ∷ rest) = library_errors rest

abbrev pub M : Type 0 → Type 0
M A = World → Result World A

-- The stack of the thread that runs now gives back control.
unfoldable pub go_on : Option (ℤ → Code) → ℤ → M (Unit {0})
go_on none n w = undefined
go_on (some k) n w = ok tt (record w { now = k n })

unfoldable pub begin : Option Code → M (Unit {0})
begin none w = undefined
begin (some c) w = ok tt (record w { now = c })

-- `uthread_init` switches to no other thread.
abbrev pub value : Control → ℤ
value (returns n) = n
value (begins sp pc) = pos 0
value goes_on = pos 0

-- `uthread_init` in the main thread. No alarm comes before it has armed the timer.
unfoldable pub initialize : Os → ℤ → (ℤ → Code) → M (Unit {0})
initialize os q k w = elim (uthread_init os q w.lib) [
  | ok c s ↦ ok tt (record w { lib = s; now = k (value c) })
  | exited n s ↦ exited n (record w { lib = s })
  | undefined ↦ undefined
]

-- `uthread_init` first thing in `main`, and then `k`.
unfoldable pub after_init : Os → ℤ → Code → Result World (Unit {0})
unfolding initialize
after_init os q k = initialize os q (λ _. k) loaded

-- An expiry comes between two steps, never inside a call: not between unblock_vtAlarm and switch_threads in
-- uthread_terminate, and not at the label jump.
pub data Tick : Type 0 where
  works expires : Tick

-- `code_at` is the code at an address, as it is in a saved context: behind `translate_address`.
module _ (code_at : ℕ → Option Code) where
  unfoldable pub arrive : Control → M (Unit {0})
  unfolding go_on begin
  arrive (returns n) w = go_on (w.frames w.lib.running_tid) n w
  arrive (begins sp pc) w = begin (code_at pc) w
  arrive goes_on w = go_on (w.frames w.lib.running_tid) (pos 0) w

  -- The running thread enters the library, by a call or by an alarm, and would do `k` after it.
  unfoldable pub enter : Os → Event → (ℤ → Code) → M (Unit {0})
  unfolding arrive
  enter os e k w = elim (perform os e w.lib) [
    | ok c s ↦ arrive c (record w { lib = s; frames = update w.frames w.lib.running_tid (some k) })
    | exited n s ↦ exited n (record w { lib = s })
    | undefined ↦ undefined
  ]

  -- The next step of the running thread. The main thread exits where `main` returns; for any other thread
  -- there is nothing to return to.
  unfoldable pub advance : Os → Code → M (Unit {0})
  unfolding enter initialize
  advance os ends w = if w.lib.running_tid == 0 then exited (pos 0) w else undefined
  advance os forever w = ok tt w
  advance os aborts w = exited aborted w
  advance os (printf f as' k) w =
      ok tt (record w { now = k; stdout = record { format = f; args = as' } ∷ w.stdout })
  advance os (assign x v k) w = ok tt (record w { now = k; vars = update w.vars x v })
  advance os (expect b k) w =
      ok tt (record w { now = k; failures = (if b then w.failures else w.failures + 1) })
  advance os (ask (variable x) k) w = ok tt (record w { now = k (w.vars x) })
  advance os (ask (result e) k) w = enter os e k w
  advance os (ask (init q) k) w = initialize os q k w
  advance os (ask errors k) w = ok tt (record w { now = k (pos (library_errors w.lib.cerr)) })
  advance os (while_ne q n body k) w =
      ok tt
        (record w { now = ask q (λ v. if equal v n then k else unroll body (while_ne q n body k)) })

  -- The running thread makes a step, or the timer expires, if it runs.
  unfoldable pub tick : Os → Tick → M (Unit {0})
  unfolding advance enter
  tick os works w = advance os w.now w
  tick os expires w = if w.lib.armed then enter os alarm (λ _. w.now) w else ok tt w

  unfoldable pub run : List (Os × Tick) → M (Unit {0})
  unfolding tick
  run [] w = ok tt w
  run ((os, t) ∷ rest) w = elim (tick os t w) [
    | ok _ v ↦ run rest v
    | exited n v ↦ exited n v
    | undefined ↦ undefined
  ]

  unfoldable pub run_from : Result World (Unit {0}) → List (Os × Tick) → Result World (Unit {0})
  unfolding run
  run_from (ok _ w) ts = run ts w
  run_from (exited n w) ts = exited n w
  run_from undefined ts = undefined

-- `translate_address` is the same function throughout a process.
abbrev pub Translates : (ℕ → ℕ) → List (Os × Tick) → Type 0
Translates translate [] = Unit {0}
Translates translate ((os, t) ∷ rest) =
    ((f : ℕ) → os.translate_address f ≡ translate f) × Translates translate rest
