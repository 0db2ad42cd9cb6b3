-- ===== src/Agreement/Samples.antt =====
-- Concrete histories of both libraries.
use user_level_threads_libra.Prelude.{
  ◌≡◌, refl, true, false, if◌then◌else◌, ltb, none, some, List, [], ◌∷◌, pos, negsuc, insert_sorted,
  erase_found,
}
use user_level_threads_libra.Effects.{Result, ok, exited, undefined}
use user_level_threads_libra.Uthreads.State.{Os, State, micro_to_sec}
use user_level_threads_libra.Uthreads.Scheduler.{update_sleepers_from}
use user_level_threads_libra.Uthreads.Api.{insert_ids}
use user_level_threads_libra.Uthreads.Healthy.{IsHealthy}
use user_level_threads_libra.Uthreads.Safety.{initial, initial-Inv}
use user_level_threads_libra.Nim.State.{Os as NimOs}
use user_level_threads_libra.Nim.Healthy.{IsHealthy as NimIsHealthy}
use user_level_threads_libra.Nim.Safety.{initial as nim_initial, initial-Inv as nim_initial-Inv}
use user_level_threads_libra.Agreement.Calls.{
  Request, spawn_at, quantums_of, blocked_by_other, resumed, tid, total, expiry, serve,
}
use user_level_threads_libra.Agreement.Histories.{Answers, history}

abbrev linux : Os
linux = record {
  sigemptyset_fails = false;
  sigaddset_fails = false;
  sigprocmask_fails = λ _. false;
  sigaction_fails = false;
  setitimer_fails = λ v. if ltb v.value.usec micro_to_sec then false else true;
  new_stack = some 4096;
  translate_address = λ a. a;
}

abbrev unix : NimOs
unix = record {
  sigemptyset_fails = false;
  sigaddset_fails = false;
  sigprocmask_fails = λ _. false;
  sigaction_fails = false;
  setitimer_fails = λ v. if ltb v.value.usec micro_to_sec then false else true;
  new_stack = some 4096;
  translate_address = λ a. a;
  reorder = λ m. m;
}

abbrev requests : List Request
requests =
    spawn_at 9
    ∷ spawn_at 19
    ∷ blocked_by_other (pos 2)
    ∷ resumed (pos 2)
    ∷ expiry
    ∷ tid
    ∷ expiry
    ∷ tid
    ∷ quantums_of (pos 1)
    ∷ quantums_of (pos 7)
    ∷ total
    ∷ []

abbrev answers : Result State Answers → Answers
answers (ok xs s) = xs
answers (exited n s) = []
answers undefined = []

requests-answers :
    answers (history (serve linux) requests (initial 1000))
    ≡ some (pos 1)
      ∷ some (pos 2)
      ∷ some (pos 0)
      ∷ some (pos 0)
      ∷ none
      ∷ some (pos 1)
      ∷ none
      ∷ some (pos 2)
      ∷ some (pos 1)
      ∷ some (negsuc 0)
      ∷ some (pos 3)
      ∷ []
unfolding history serve insert_ids insert_sorted update_sleepers_from erase_found
requests-answers = refl
