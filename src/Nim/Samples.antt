-- ===== src/Nim/Samples.antt =====
-- Concrete states that runs of nim/uthreads.cpp reach.
use user_level_threads_libra.Prelude.{
  ℕ, ◌+◌, ◌≡◌, ◌≢◌, refl, ltb, if◌then◌else◌, Bool, true, false, Option, none, some, List, [], ◌∷◌,
  pos, count, erase, arith,
}
use user_level_threads_libra.Uthreads.State.{micro_to_sec, update}
use user_level_threads_libra.Effects.{Result, ok, exited, undefined}
use user_level_threads_libra.Nim.State.{
  Os, State, Thread, Point, MutexBlock, zeroed, in_handler, in_lock,
}
use user_level_threads_libra.Nim.Scheduler.{past_jump, insert_key}
use user_level_threads_libra.Nim.Mutex.{first_unblocked}
use user_level_threads_libra.Nim.Process.{◌>>=◌}
use user_level_threads_libra.Nim.Api.{main_thread, first_free, find_ideque}
use user_level_threads_libra.Nim.Program.{
  Event, spawn, block, mutex_lock, mutex_unlock, alarm, perform, settle,
}
use user_level_threads_libra.Nim.Invariant.Defs.{IsOrdering, Inv}
use user_level_threads_libra.Nim.Safety.{initial, initial-Inv, step-Inv}
use user_level_threads_libra.Nim.Healthy.{IsHealthy}
mod Runs
mod Mutexes
mod Calls

-- A system on which nothing fails and whose maps iterate from the newest key on.
abbrev pub unix : Os
unix = record {
  sigemptyset_fails = false;
  sigaddset_fails = false;
  sigprocmask_fails = λ _. false;
  sigaction_fails = false;
  setitimer_fails = λ v. if ltb v.value.usec micro_to_sec then false else true;
  new_stack = some 4096;
  translate_address = λ a. a;
  reorder = λ m. m;
}

pub unix-IsHealthy : IsHealthy unix
unix-IsHealthy = record {
  emptyset = refl;
  addset = refl;
  procmask = λ h. refl;
  action = refl;
  itimer = λ v h k. ground arith;
}

pub unix-IsOrdering : IsOrdering unix
unix-IsOrdering = λ k m. refl

abbrev pub two_spawns : List (Os × Event)
two_spawns = (unix, spawn 10) ∷ (unix, spawn 20) ∷ []

abbrev pub end_of {ℓ} : {A : Type ℓ} → Result State A → State
end_of (ok a s) = s
end_of (exited c s) = s
end_of undefined = zeroed

abbrev after : Event → State → State
after e s = end_of ((perform unix e >>= settle past_jump unix) s)

unfoldable pub start : State
unfolding main_thread insert_key
start = initial unix 1000

pub start-Inv : Inv start
unfolding start
start-Inv = initial-Inv unix 1000 unix-IsOrdering

unfoldable pub duo : State
unfolding start perform settle first_free
duo = after (spawn 10) start

pub duo-Inv : Inv duo
unfolding duo
duo-Inv = step-Inv unix (spawn 10) start unix-IsOrdering tt start-Inv

-- The main thread runs, the threads 1 and 2 are ready.
unfoldable pub trio : State
unfolding duo perform settle first_free
trio = after (spawn 20) duo

pub trio-Inv : Inv trio
unfolding trio
trio-Inv = step-Inv unix (spawn 20) duo unix-IsOrdering tt duo-Inv

trio-ready : trio.ready ≡ 1 ∷ 2 ∷ []
unfolding trio
trio-ready = refl

unfoldable pub first_turn : State
unfolding trio perform settle
first_turn = after (alarm) trio

pub first_turn-Inv : Inv first_turn
unfolding first_turn
first_turn-Inv = step-Inv unix (alarm) trio unix-IsOrdering tt trio-Inv

-- Thread 1 runs and has the mutex.
unfoldable pub owned : State
unfolding first_turn perform settle
owned = after (mutex_lock) first_turn

pub owned-Inv : Inv owned
unfolding owned
owned-Inv = step-Inv unix (mutex_lock) first_turn unix-IsOrdering (λ h o n. cc) first_turn-Inv

unfoldable pub second_turn : State
unfolding owned perform settle
second_turn = after (alarm) owned

pub second_turn-Inv : Inv second_turn
unfolding second_turn
second_turn-Inv = step-Inv unix (alarm) owned unix-IsOrdering tt owned-Inv

-- Thread 1 has the mutex, thread 2 waits for it, and the main thread runs.
unfoldable pub contended : State
unfolding second_turn perform settle
contended = after (mutex_lock) second_turn

pub contended-Inv : Inv contended
unfolding contended
contended-Inv = step-Inv unix (mutex_lock) second_turn unix-IsOrdering (λ h o n. cc) second_turn-Inv

contended-mutex :
    (contended.mutex_blocked ≡ 2 ∷ [])
    × (contended.running ≡ 0)
    × (contended.mutex ≡ record { blocked = true; thread_block = some 1 })
unfolding contended
contended-mutex = (refl, refl, refl)

-- Thread 2 has got the mutex from thread 1 and is the next to run, in `uthread_mutex_lock`.
abbrev saved : ℕ → Point → Thread
saved t pt = record { id = t; quantums = 1; env = record { point = pt; mask = true } }

abbrev pub handed_over : State
handed_over = record zeroed {
  objects =
      update
        (update (update (λ _. none) 0 (some (saved 0 in_handler))) 1 (some (saved 1 in_handler))) 2
        (some (saved 2 in_lock));
  all_threads = 2 ∷ 1 ∷ 0 ∷ [];
  ready = 2 ∷ 1 ∷ [];
  mutex = record { blocked = true; thread_block = some 2 };
  total_quantum = 6;
  quantum_time = 1000;
  set = true;
}

pub handed_over-Inv : Inv handed_over
handed_over-Inv = record {
  placed = λ t. ground arith;
  envs = λ t h. ground arith;
  owned = ground arith;
  known = λ t h. ground arith;
  here = refl;
  mask = refl;
  alarms = refl;
}

unfoldable pub lone_turn : State
unfolding duo perform settle
lone_turn = after (alarm) duo

pub lone_turn-Inv : Inv lone_turn
unfolding lone_turn
lone_turn-Inv = step-Inv unix (alarm) duo unix-IsOrdering tt duo-Inv

unfoldable pub lone_owner : State
unfolding lone_turn perform settle
lone_owner = after (mutex_lock) lone_turn

pub lone_owner-Inv : Inv lone_owner
unfolding lone_owner
lone_owner-Inv = step-Inv unix (mutex_lock) lone_turn unix-IsOrdering (λ h o n. cc) lone_turn-Inv

-- The main thread runs; thread 1 has the mutex and has blocked itself.
unfoldable pub stranded : State
unfolding lone_owner perform settle find_ideque
stranded = after (block (pos 1)) lone_owner

pub stranded-Inv : Inv stranded
unfolding stranded
stranded-Inv = step-Inv unix (block (pos 1)) lone_owner unix-IsOrdering (λ q n. cc) lone_owner-Inv

stranded-ready : (stranded.ready ≡ []) × (stranded.running ≡ 0)
unfolding stranded
stranded-ready = (refl, refl)
