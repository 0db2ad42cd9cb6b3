-- ===== src/Nim/Contract/Refusals.antt =====
-- Which calls are refused, with which message, and what a refused call changes.
use user_level_threads_libra.Prelude.{
  ℕ, zero, suc, ◌+◌, ◌==◌, ltb, ◌≡◌, refl, sym, subst, ◌∙◌, Bool, true, false, if◌then◌else◌,
  Option, none, some, ◌∷◌, ℤ, pos, negsuc, contains, length, inl, inr, Bool-cases, arith,
}
use user_level_threads_libra.Effects.{bind-eq}
use user_level_threads_libra.Uthreads.State.{failure, max_thread_num}
use user_level_threads_libra.Nim.State.{
  Os, State, LibraryError, prefix_library_error, spawn_error, terminate_error, block_error,
  block_zero_error, unblock_error, get_quantum_err, mutex_block_same, mutex_already_unblocked,
  mutex_blocked_by_someone_else,
}
use user_level_threads_libra.Nim.Process.{ok, print_errors, get_id}
use user_level_threads_libra.Nim.Signals.{block}
use user_level_threads_libra.Nim.Scheduler.{returns}
use user_level_threads_libra.Nim.Mutex.{
  owner_id, fail_with, lock_held, lock_free, uthread_mutex_lock, unlock_held, uthread_mutex_unlock,
}
use user_level_threads_libra.Nim.Api.{
  uthread_spawn, terminate_id, uthread_terminate, block_id, uthread_block, resume_id,
  uthread_resume, get_quantums_id, uthread_get_quantums,
}
use user_level_threads_libra.Nim.Program.{
  Event, spawn, terminate, resume, get_quantums, mutex_lock, mutex_unlock, get_tid,
  get_total_quantums, alarm, perform,
}
use user_level_threads_libra.Nim.Invariant.Defs.{Inv}
use user_level_threads_libra.Nim.Invariant.Steps.{remask}
use user_level_threads_libra.Nim.Invariant.Locking.{running_id, owner_id-eq}
use user_level_threads_libra.Nim.Healthy.{IsHealthy, block-eq, leave_with-eq}

-- The error `e` if no thread has the id.
abbrev absent : LibraryError → ℤ → State → Option LibraryError
absent e (negsuc _) s = some e
absent e (pos t) s = if contains t s.all_threads then none else some e

abbrev block_refusal : ℤ → State → Option LibraryError
block_refusal (pos zero) s =
    if contains 0 s.all_threads then some block_zero_error else some block_error
block_refusal t s = absent block_error t s

-- Only the thread that has the mutex may unlock it, and it may not lock it again.
abbrev has_mutex : Bool → Option ℕ → ℕ → Bool
has_mutex false o r = false
has_mutex true none r = false
has_mutex true (some o) r = o == r

abbrev lock_refusal : State → Option LibraryError
lock_refusal s =
    if has_mutex s.mutex.blocked s.mutex.thread_block s.running then some mutex_block_same else none

abbrev unlock_refusal : State → Option LibraryError
unlock_refusal s =
    if s.mutex.blocked
    then (if has_mutex s.mutex.blocked s.mutex.thread_block s.running
        then none
        else some mutex_blocked_by_someone_else)
    else some mutex_already_unblocked

-- The calls that are errors.
abbrev pub refusal : Event → State → Option LibraryError
refusal (spawn f) s =
    if ltb max_thread_num (length s.all_threads + 1) then some spawn_error else none
refusal (terminate t) s = absent terminate_error t s
refusal (Event.block t) s = block_refusal t s
refusal (resume t) s = absent unblock_error t s
refusal (get_quantums t) s = absent get_quantum_err t s
refusal mutex_lock s = lock_refusal s
refusal mutex_unlock s = unlock_refusal s
refusal get_tid s = none
refusal get_total_quantums s = none
refusal alarm s = none

-- Whether SIGVTALRM is blocked after the error.
abbrev pub stays_blocked : LibraryError → Bool
stays_blocked spawn_error = true
stays_blocked _ = false

abbrev pub refused : LibraryError → State → State
refused e s = record s { masked = stays_blocked e; cerr = prefix_library_error e ∷ s.cerr }

module _ (os : Os) (s : State) (e : LibraryError) (well : IsHealthy os) (inv : Inv s) where
  here : State
  here = record s { masked = true }

  fails :
      (d : LibraryError)
      → stays_blocked d ≡ false
      → some d ≡ some e
      → fail_with os d here ≡ ok (returns failure) (refused e s)
  unfolding print_errors here
  fails d b q = leave_with-eq well (returns failure) _ inv.alarms ∙ ground (arith, b, q)

  terminate_fails :
      (t : ℤ)
      → absent terminate_error t s ≡ some e
      → terminate_id os t here ≡ ok (returns failure) (refused e s)
  unfolding terminate_id here
  terminate_fails (negsuc n) h = fails terminate_error refl h
  terminate_fails (pos zero) h = elim (Bool-cases (contains 0 s.all_threads)) [
    | inl c ↦ cc (rw c at h)
    | inr c ↦ rw c (fails terminate_error refl (rw c at h))
  ]
  terminate_fails (pos (suc t)) h = elim (Bool-cases (contains (suc t) s.all_threads)) [
    | inl c ↦ cc (rw c at h)
    | inr c ↦ rw c (fails terminate_error refl (rw c at h))
  ]

  block_fails :
      (t : ℤ) → block_refusal t s ≡ some e → block_id os t here ≡ ok (returns failure) (refused e s)
  unfolding block_id here
  block_fails (negsuc n) h = fails block_error refl h
  block_fails (pos zero) h = elim (Bool-cases (contains 0 s.all_threads)) [
    | inl c ↦ rw c (fails block_zero_error refl (rw c at h))
    | inr c ↦ rw c (fails block_error refl (rw c at h))
  ]
  block_fails (pos (suc t)) h = elim (Bool-cases (contains (suc t) s.all_threads)) [
    | inl c ↦ cc (rw c at h)
    | inr c ↦ rw c (fails block_error refl (rw c at h))
  ]

  resume_fails :
      (t : ℤ)
      → absent unblock_error t s ≡ some e
      → resume_id os t here ≡ ok (returns failure) (refused e s)
  unfolding resume_id here
  resume_fails (negsuc n) h = fails unblock_error refl h
  resume_fails (pos t) h = elim (Bool-cases (contains t s.all_threads)) [
    | inl c ↦ cc (rw c at h)
    | inr c ↦ rw c (fails unblock_error refl (rw c at h))
  ]

  quantums_fails :
      (t : ℤ)
      → absent get_quantum_err t s ≡ some e
      → get_quantums_id os t here ≡ ok (returns failure) (refused e s)
  unfolding get_quantums_id here
  quantums_fails (negsuc n) h = fails get_quantum_err refl h
  quantums_fails (pos t) h = elim (Bool-cases (contains t s.all_threads)) [
    | inl c ↦ cc (rw c at h)
    | inr c ↦ rw c (fails get_quantum_err refl (rw c at h))
  ]

  locked : Inv here
  unfolding here
  locked = remask true inv

  lock_fails :
      lock_refusal s ≡ some e → uthread_mutex_lock os s ≡ ok (returns failure) (refused e s)
  unfolding uthread_mutex_lock lock_held here
  lock_fails h =
      bind-eq (block os) _ s (block-eq well s inv.alarms) (elim (Bool-cases s.mutex.blocked) [
        | inr b ↦ absurd (ground (arith, h, b))
        | inl b ↦
            let (k, o, q) = owner_id-eq locked b in
            let mine : (k == s.running) ≡ true = ground (arith, h, b, o) in
            subst
              (λ x.
                (if x then lock_held os s.running else lock_free os s.running) here
                ≡ ok (returns failure) (refused e s))
              (sym b)
              (bind-eq (owner_id s.mutex.thread_block) _ here q (
                bind-eq (get_id s.running) _ here (running_id locked)
                  (rw mine (fails mutex_block_same refl (ground (arith, h, b, o, mine))))))
      ])

  unlock_fails :
      unlock_refusal s ≡ some e → uthread_mutex_unlock os s ≡ ok (returns failure) (refused e s)
  unfolding uthread_mutex_unlock unlock_held here
  unlock_fails h =
      bind-eq (block os) _ s (block-eq well s inv.alarms) (elim (Bool-cases s.mutex.blocked) [
        | inr b ↦
            subst
              (λ x.
                (if x then unlock_held os else fail_with os mutex_already_unblocked) here
                ≡ ok (returns failure) (refused e s))
              (sym b) (fails mutex_already_unblocked refl (ground (arith, h, b)))
        | inl b ↦
            let (k, o, q) = owner_id-eq locked b in
            let other : (s.running == k) ≡ false = ground (arith, h, b, o) in
            subst
              (λ x.
                (if x then unlock_held os else fail_with os mutex_already_unblocked) here
                ≡ ok (returns failure) (refused e s))
              (sym b)
              (bind-eq (get_id s.running) _ here (running_id locked) (
                bind-eq (owner_id s.mutex.thread_block) _ here q (
                  rw other
                    (fails mutex_blocked_by_someone_else refl (ground (arith, h, b, o, other))))))
      ])

-- On a healthy system and under the invariant, each call that is an error returns -1 with its message and
-- changes nothing else, but that SIGVTALRM is not blocked after it, or is blocked if the threads are used up.
pub perform-refusal :
    (os : Os) (v : Event) (s : State) (e : LibraryError)
    → IsHealthy os
    → Inv s
    → refusal v s ≡ some e
    → perform os v s ≡ ok (returns failure) (refused e s)
unfolding perform uthread_spawn uthread_terminate uthread_block uthread_resume uthread_get_quantums
    print_errors here
perform-refusal os (spawn f) s e well inv h =
    bind-eq (block os) _ s (block-eq well s inv.alarms)
      (elim (Bool-cases (ltb max_thread_num (length s.all_threads + 1))) [
        | inl full ↦ rw full (ground (arith, rw full at h))
        | inr room ↦ cc (rw room at h)
      ])
perform-refusal os (terminate t) s e well inv h =
    bind-eq (block os) _ s (block-eq well s inv.alarms) (terminate_fails os s e well inv t h)
perform-refusal os (Event.block t) s e well inv h =
    bind-eq (block os) _ s (block-eq well s inv.alarms) (block_fails os s e well inv t h)
perform-refusal os (resume t) s e well inv h =
    bind-eq (block os) _ s (block-eq well s inv.alarms) (resume_fails os s e well inv t h)
perform-refusal os (get_quantums t) s e well inv h =
    bind-eq (block os) _ s (block-eq well s inv.alarms) (quantums_fails os s e well inv t h)
perform-refusal os mutex_lock s e well inv h = lock_fails os s e well inv h
perform-refusal os mutex_unlock s e well inv h = unlock_fails os s e well inv h
perform-refusal os get_tid s e well inv h = cc
perform-refusal os get_total_quantums s e well inv h = cc
perform-refusal os alarm s e well inv h = cc
