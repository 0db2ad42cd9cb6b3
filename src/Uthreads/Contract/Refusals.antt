-- ===== src/Uthreads/Contract/Refusals.antt =====
-- Which calls are refused, and with which message. A refused call changes nothing but the mask.
use user_level_threads_libra.Prelude.{
  ℕ, zero, suc, ◌≡◌, true, Option, none, some, List, [], ◌∷◌, ℤ, pos, negsuc, arith,
}
use user_level_threads_libra.Uthreads.State.{
  Os, State, UThread, LibraryError, library_err, failure, input_err, max_threads_err, tid_not_exist,
  block_thread_zero, sleep_thread_zero, spawn_null,
}
use user_level_threads_libra.Uthreads.Process.{ok, fail_with}
use user_level_threads_libra.Uthreads.Scheduler.{returns}
use user_level_threads_libra.Uthreads.Api.{
  spawn_from, terminate_id, terminate_found, block_id, block_found, resume_id, resume_found,
  sleep_if, quantums_found, thread_of,
}
use user_level_threads_libra.Uthreads.Program.{
  Event, spawn, terminate, block, resume, sleep, get_quantums, get_tid, get_total_quantums, alarm,
  perform,
}
use user_level_threads_libra.Uthreads.Healthy.{IsHealthy, block_vt_alarm-eq}

abbrev absent : Option UThread → Option LibraryError
absent none = some tid_not_exist
absent (some _) = none

abbrev spawn_refusal : List ℕ → ℕ → Option LibraryError
spawn_refusal [] pc = some max_threads_err
spawn_refusal (t ∷ ids) zero = some spawn_null
spawn_refusal (t ∷ ids) (suc pc) = none

-- The main thread is not terminated or blocked: the first ends the process.
abbrev terminate_refusal : ℤ → State → Option LibraryError
terminate_refusal (pos zero) s = none
terminate_refusal t s = absent (thread_of t s.all_threads)

abbrev block_refusal : ℤ → State → Option LibraryError
block_refusal (pos zero) s = some block_thread_zero
block_refusal t s = absent (thread_of t s.all_threads)

abbrev sleep_refusal : ℕ → ℤ → Option LibraryError
sleep_refusal zero n = some sleep_thread_zero
sleep_refusal (suc t) (negsuc n) = some input_err
sleep_refusal (suc t) (pos n) = none

-- The calls that are errors: those that uthreads.h names, an id without a thread, and a null entry
-- point.
abbrev pub refusal : Event → State → Option LibraryError
refusal (spawn pc) s = spawn_refusal s.free_ids pc
refusal (terminate t) s = terminate_refusal t s
refusal (block t) s = block_refusal t s
refusal (resume t) s = absent (thread_of t s.all_threads)
refusal (sleep n) s = sleep_refusal s.running_tid n
refusal (get_quantums t) s = absent (thread_of t s.all_threads)
refusal get_tid s = none
refusal get_total_quantums s = none
refusal alarm s = none

abbrev pub refused : LibraryError → State → State
refused e s = record s { masked = true; cerr = library_err e ∷ s.cerr }

-- On a healthy system, each call that is an error returns -1 with its message and changes nothing else,
-- but that it leaves SIGVTALRM blocked.
pub perform-refused :
    (os : Os) (v : Event) (s : State) (e : LibraryError)
    → IsHealthy os
    → refusal v s ≡ some e
    → perform os v s ≡ ok (returns failure) (refused e s)
unfolding perform spawn_from terminate_id terminate_found block_id block_found resume_id
    resume_found sleep_if quantums_found fail_with
perform-refused os (spawn pc) s e well h = ground (arith, block_vt_alarm-eq well s)
perform-refused os (terminate t) s e well h = ground (arith, block_vt_alarm-eq well s)
perform-refused os (block t) s e well h = ground (arith, block_vt_alarm-eq well s)
perform-refused os (resume t) s e well h = ground (arith, block_vt_alarm-eq well s)
perform-refused os (sleep n) s e well h = ground (arith, block_vt_alarm-eq well s)
perform-refused os (get_quantums t) s e well h = ground (arith, block_vt_alarm-eq well s)
perform-refused os get_tid s e well h = cc
perform-refused os get_total_quantums s e well h = cc
perform-refused os alarm s e well h = cc
