-- ===== src/Uthreads/Sleepless.antt =====
-- The functions of uthreads.cpp and the sleepers: the scheduler.
use user_level_threads_libra.Prelude.{
  ℕ, zero, suc, ◌+◌, ◌≡◌, refl, Bool, true, false, if◌then◌else◌, Option, none, some, List, [], ◌∷◌,
  ℤ, pos, negsuc, Option-cases, inl, inr, insert_sorted, erase_found,
}
use user_level_threads_libra.Effects.{Yields, bind-Yields}
use user_level_threads_libra.Uthreads.State.{
  Os, State, UThread, Status, Point, SystemError, LibraryError, ready, running, blocked, asleep,
  terminated, main, in_handler, in_constructor, at_entry, in_block, in_sleep, in_terminate, success,
  update, no_time, sig_block, sig_unblock, sigs_error,
}
use user_level_threads_libra.Uthreads.Process.{
  M, ◌>>=◌, ◌>>◌, get, modify, return, set_status, push_ready, die_if, at_thread, fail_with,
}
use user_level_threads_libra.Uthreads.Signals.{
  start_timer, reset_timer, block_vt_alarm, unblock_vt_alarm,
}
use user_level_threads_libra.Uthreads.Scheduler.{
  Control, returns, update_sleepers_from, update_sleepers, run_first, insert_ready_to_running,
  leave, count_quantum, save_environment, resume_at, jump_to, start_running, jump, switch_threads,
  timer_handler, handler_returns,
}
use user_level_threads_libra.Uthreads.Api.{
  spawn_as, spawn_from, uthread_spawn, erase_ready, resume_alarm, terminate_as, terminate_found,
  terminate_id, uthread_terminate, block_as, block_found, block_id, uthread_block, resume_as,
  resume_found, resume_id, uthread_resume, quantums_found, uthread_get_quantums, uthread_get_tid,
  uthread_get_total_quantums, die_of_memory, thread_of,
}
use user_level_threads_libra.Uthreads.Program.{
  Event, spawn, terminate, block, resume, sleep, get_quantums, get_tid, get_total_quantums, alarm,
  perform, alarm_comes,
}
pub mod Api

-- If nobody sleeps before `m`, nobody sleeps after it.
pub record Sleepless {A : Type 0} (m : M A) : Type 0 where
  pub runs : (s : State) → s.sleepers ≡ [] → Yields (λ _ t. t.sleepers ≡ []) (m s)

pub seq-Sleepless :
    {A B : Type 0} {m : M A} {f : A → M B}
    → Sleepless m
    → ((a : A) → Sleepless (f a))
    → Sleepless (m >>= f)
seq-Sleepless {A} {B} {m} {f} a b = record {
  runs = λ s e.
      bind-Yields (λ _ t. t.sleepers ≡ []) (λ _ t. t.sleepers ≡ []) m f s (a.runs s e)
        λ x t h. (b x).runs t h;
}

pub then-Sleepless :
    {B : Type 0} {m : M (Unit {0})} {n : M B} → Sleepless m → Sleepless n → Sleepless (m >> n)
then-Sleepless {B} {m} {n} a b = record {
  runs = λ s e.
      bind-Yields (λ _ t. t.sleepers ≡ []) (λ _ t. t.sleepers ≡ []) m (λ _. n) s (a.runs s e)
        λ _ t h. b.runs t h;
}

pub get-Sleepless :
    {B : Type 0} {f : State → M B} → ((s : State) → Sleepless (f s)) → Sleepless (get >>= f)
get-Sleepless g = record { runs = λ s e. (g s).runs s e }

pub modify-Sleepless :
    (f : State → State) → ((s : State) → (f s).sleepers ≡ s.sleepers) → Sleepless (modify f)
modify-Sleepless f same = record { runs = λ s e. cc (same s) }

pub die_if-Sleepless : (b : Bool) (e : SystemError) → Sleepless (die_if b e)
unfolding die_if
die_if-Sleepless true e = record { runs = λ s h. tt }
die_if-Sleepless false e = record { runs = λ s h. h }

pub at_thread-Sleepless : (t : ℕ) (f : UThread → UThread) → Sleepless (at_thread t f)
unfolding at_thread
at_thread-Sleepless t f = record {
  runs = λ s h. elim (Option-cases (s.all_threads t)) [
    | inl e ↦ rw (e, at_thread) tt
    | inr (u, e) ↦ rw (e, at_thread) h
  ];
}

pub set_status-Sleepless : (t : ℕ) (st : Status) → Sleepless (set_status t st)
unfolding set_status
set_status-Sleepless t st = at_thread-Sleepless t (λ u. record u { status = st })

pub push_ready-Sleepless : (t : ℕ) → Sleepless (push_ready t)
unfolding push_ready
push_ready-Sleepless t = record { runs = λ s h. h }

pub fail_with-Sleepless : (c : Control) (e : LibraryError) → Sleepless (fail_with c e)
unfolding fail_with
fail_with-Sleepless c e = record { runs = λ s h. h }

pub return-Sleepless : {A : Type 0} (a : A) → Sleepless (return a)
return-Sleepless a = record { runs = λ s h. h }

pub update_sleepers-Sleepless : Sleepless update_sleepers
unfolding update_sleepers update_sleepers_from
update_sleepers-Sleepless = record { runs = λ s h. rw h refl }

pub run_first-Sleepless : (ts : List ℕ) → Sleepless (run_first ts)
unfolding run_first
run_first-Sleepless [] = record { runs = λ s h. h }
run_first-Sleepless (t ∷ rest) =
    then-Sleepless
      (modify-Sleepless (λ s. record s { running_tid = t; ready_tids = rest }) (λ s. refl))
      (set_status-Sleepless t running)

pub insert_ready_to_running-Sleepless : Sleepless insert_ready_to_running
unfolding insert_ready_to_running
insert_ready_to_running-Sleepless = record {
  runs = λ s h. (run_first-Sleepless s.ready_tids).runs s h;
}

pub leave-Sleepless : (to : Status) (t : ℕ) → Sleepless (leave to t)
unfolding leave
leave-Sleepless ready t = then-Sleepless (push_ready-Sleepless t) (set_status-Sleepless t ready)
leave-Sleepless blocked t =
    then-Sleepless
      (modify-Sleepless (λ s. record s { blocked_tids = update s.blocked_tids t true }) (λ s. refl))
      (set_status-Sleepless t blocked)
leave-Sleepless main t = return-Sleepless tt
leave-Sleepless running t = return-Sleepless tt
leave-Sleepless asleep t = return-Sleepless tt
leave-Sleepless terminated t = return-Sleepless tt

pub count_quantum-Sleepless : Sleepless count_quantum
count_quantum-Sleepless =
    modify-Sleepless (λ s. record s { total_quantums = s.total_quantums + 1 }) (λ s. refl)

pub save_environment-Sleepless : (t : ℕ) (p : Point) → Sleepless (save_environment t p)
unfolding save_environment
save_environment-Sleepless t p = record {
  runs = λ s h.
      (at_thread-Sleepless t (λ u. record u { env = record { point = p; mask = s.masked } })).runs s
        h;
}

module _ (os : Os) where
  pub start_timer-Sleepless : Sleepless (start_timer os)
  unfolding start_timer
  start_timer-Sleepless = record {
    runs = λ s h.
        (then-Sleepless (die_if-Sleepless (os.setitimer_fails _) _)
            (modify-Sleepless (λ s. record s { armed = true }) (λ s. refl))).runs
          (record s { timer = _ }) h;
  }

  pub reset_timer-Sleepless : Sleepless (reset_timer os)
  unfolding reset_timer
  reset_timer-Sleepless =
      then-Sleepless (modify-Sleepless (λ s. record s { timer = no_time }) (λ s. refl))
        start_timer-Sleepless

  pub mask-Sleepless :
      (a b c : Bool) (e : SystemError) (m : Bool)
      → Sleepless
          (die_if a e >> (die_if b e >> (die_if c e >> modify (λ s. record s { masked = m }))))
  mask-Sleepless a b c e m = then-Sleepless (die_if-Sleepless a e) (
      then-Sleepless (die_if-Sleepless b e) (
        then-Sleepless (die_if-Sleepless c e)
          (modify-Sleepless (λ s. record s { masked = m }) (λ s. refl))))

  pub block_vt_alarm-Sleepless : Sleepless (block_vt_alarm os)
  unfolding block_vt_alarm
  block_vt_alarm-Sleepless =
      mask-Sleepless os.sigemptyset_fails os.sigaddset_fails (os.sigprocmask_fails sig_block)
        sigs_error true

  pub unblock_vt_alarm-Sleepless : Sleepless (unblock_vt_alarm os)
  unfolding unblock_vt_alarm
  unblock_vt_alarm-Sleepless =
      mask-Sleepless os.sigemptyset_fails os.sigaddset_fails (os.sigprocmask_fails sig_unblock)
        sigs_error false

  pub resume_at-Sleepless : (p : Point) → Sleepless (resume_at os p)
  unfolding resume_at
  resume_at-Sleepless in_constructor = record { runs = λ s h. tt }
  resume_at-Sleepless (at_entry sp pc) = record { runs = λ s h. h }
  resume_at-Sleepless in_handler =
      then-Sleepless {n = handler_returns} unblock_vt_alarm-Sleepless (record { runs = λ s h. h })
  resume_at-Sleepless in_block =
      then-Sleepless unblock_vt_alarm-Sleepless (return-Sleepless (returns success))
  resume_at-Sleepless in_sleep = record { runs = λ s h. h }
  resume_at-Sleepless in_terminate =
      then-Sleepless unblock_vt_alarm-Sleepless (return-Sleepless (returns success))

  pub jump_to-Sleepless : (u : Option UThread) → Sleepless (jump_to os u)
  unfolding jump_to
  jump_to-Sleepless none = record { runs = λ s h. tt }
  jump_to-Sleepless (some u) = record {
    runs = λ s h. (resume_at-Sleepless u.env.point).runs (record s { masked = u.env.mask }) h;
  }

  pub start_running-Sleepless : Sleepless (start_running os)
  unfolding start_running
  start_running-Sleepless = get-Sleepless λ s.
      then-Sleepless
        (at_thread-Sleepless s.running_tid (λ u. record u { quantums = u.quantums + 1 }))
        (get-Sleepless λ r. jump_to-Sleepless (r.all_threads r.running_tid))

  pub jump-Sleepless : Sleepless (jump os)
  unfolding jump
  jump-Sleepless = then-Sleepless unblock_vt_alarm-Sleepless start_running-Sleepless

  -- For each kind of switch; TERMINATED leaves out the thread's own part.
  pub switch_away-Sleepless :
      (to : Status) (p : Point)
      → Sleepless (
          update_sleepers
          >> (get >>= λ s.
              leave to s.running_tid
              >> (insert_ready_to_running
                  >> (count_quantum >> (save_environment s.running_tid p >> jump os)))))
  switch_away-Sleepless to p = then-Sleepless update_sleepers-Sleepless (
      get-Sleepless λ s. then-Sleepless (leave-Sleepless to s.running_tid) (
        then-Sleepless insert_ready_to_running-Sleepless (
          then-Sleepless count_quantum-Sleepless
            (then-Sleepless (save_environment-Sleepless s.running_tid p) jump-Sleepless))))

  pub switch_threads-Sleepless : (to : Status) (p : Point) → Sleepless (switch_threads os to p)
  unfolding switch_threads
  switch_threads-Sleepless terminated p = then-Sleepless update_sleepers-Sleepless (
      then-Sleepless insert_ready_to_running-Sleepless
        (then-Sleepless count_quantum-Sleepless jump-Sleepless))
  switch_threads-Sleepless main p = switch_away-Sleepless main p
  switch_threads-Sleepless ready p = switch_away-Sleepless ready p
  switch_threads-Sleepless running p = switch_away-Sleepless running p
  switch_threads-Sleepless blocked p = switch_away-Sleepless blocked p
  switch_threads-Sleepless asleep p = switch_away-Sleepless asleep p

  pub timer_handler-Sleepless : Sleepless (timer_handler os)
  unfolding timer_handler
  timer_handler-Sleepless =
      then-Sleepless block_vt_alarm-Sleepless (switch_threads-Sleepless ready in_handler)
