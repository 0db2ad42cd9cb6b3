-- ===== src/Uthreads/Healthy.antt =====
-- The library on a system whose calls succeed when their arguments are valid: it does not exit.
use user_level_threads_libra.Prelude.{
  ℕ, zero, suc, ◌+◌, ◌*◌, ◌<◌, ◌≡◌, refl, inl, inr, true, false, Option, none, some, List, [], ◌∷◌,
  ◌++◌, Bool-cases, Option-cases, arith,
}
use user_level_threads_libra.Uthreads.State.{
  Os, State, UThread, Status, Point, ITimerVal, How, ready, running, blocked, asleep, terminated,
  main, micro_to_sec, update, in_constructor, at_entry, in_handler, in_block, in_sleep,
  in_terminate,
}
use user_level_threads_libra.Uthreads.Process.{
  ok, ◌>>=◌, ◌>>◌, get, die_if, at_thread, set_status, push_ready,
}
use user_level_threads_libra.Uthreads.Signals.{
  quantum_timer, reset_timer, block_vt_alarm, unblock_vt_alarm,
}
use user_level_threads_libra.Uthreads.Scheduler.{
  wake, update_sleepers_from, update_sleepers, run_first, insert_ready_to_running, leave,
  count_quantum, save_environment, resume_at, jump_to, start_running, jump, switch_threads,
}
use user_level_threads_libra.Uthreads.Invariant.Defs.{Stays}
use user_level_threads_libra.Uthreads.Invariant.Rules.{bind-Stays}

-- `setitimer` fails with EINVAL for a number of microseconds out of range, and for no timer in range.
pub record IsHealthy (os : Os) : Type 0 where
  pub emptyset : os.sigemptyset_fails ≡ false
  pub addset : os.sigaddset_fails ≡ false
  pub procmask : (h : How) → os.sigprocmask_fails h ≡ false
  pub action : os.sigaction_fails ≡ false
  pub itimer :
      (v : ITimerVal)
      → v.value.usec < micro_to_sec
      → v.interval.usec < micro_to_sec
      → os.setitimer_fails v ≡ false

-- The timer is set to the quantum, split into seconds and a number of microseconds in range, and to
-- the same period.
pub quantum_timer_lem :
    (q : ℕ)
    → ((quantum_timer q).value.sec * micro_to_sec + (quantum_timer q).value.usec ≡ q)
      × ((quantum_timer q).value.usec < micro_to_sec)
      × ((quantum_timer q).interval ≡ (quantum_timer q).value)
quantum_timer_lem q = (omega arith, omega arith, refl)

module _ {os : Os} (well : IsHealthy os) where
  pub block_vt_alarm-eq : (s : State) → block_vt_alarm os s ≡ ok tt (record s { masked = true })
  unfolding block_vt_alarm die_if
  block_vt_alarm-eq s = ground (arith, well.emptyset, well.addset, well.procmask How.sig_block)

  pub unblock_vt_alarm-eq :
      (s : State) → unblock_vt_alarm os s ≡ ok tt (record s { masked = false })
  unfolding unblock_vt_alarm die_if
  unblock_vt_alarm-eq s = ground (arith, well.emptyset, well.addset, well.procmask How.sig_unblock)

  pub reset_timer-eq :
      (s : State)
      → reset_timer os s ≡ ok tt (record s { timer = quantum_timer s.quantum; armed = true })
  unfolding reset_timer die_if
  reset_timer-eq s =
      ground (arith, well.itimer (quantum_timer s.quantum) (omega arith) (omega arith))

at_thread-Stays : (t : ℕ) (f : UThread → UThread) (s : State) → Stays (at_thread t f s)
unfolding at_thread
at_thread-Stays t f s = elim (Option-cases (s.all_threads t)) [
  | inl e ↦ rw (e, at_thread) tt
  | inr (u, e) ↦ rw (e, at_thread) tt
]

set_status-Stays : (t : ℕ) (st : Status) (s : State) → Stays (set_status t st s)
unfolding set_status
set_status-Stays t st s = at_thread-Stays t _ s

wake-Stays : (t : ℕ) (s : State) → Stays (wake t s)
unfolding wake
wake-Stays t s = elim (Bool-cases (s.blocked_tids t)) [
  | inl e ↦ rw (e, wake) (at_thread-Stays t _ s)
  | inr e ↦
      rw (e, wake)
        (bind-Stays (set_status t ready) (λ _. push_ready t) s (at_thread-Stays t _ s) (λ _ p. tt))
]

update_sleepers_from-Stays : (es : List (ℕ × ℕ)) (s : State) → Stays (update_sleepers_from es s)
unfolding update_sleepers_from
update_sleepers_from-Stays [] s = tt
update_sleepers_from-Stays ((t, zero) ∷ rest) s =
    bind-Stays (wake t) (λ _. update_sleepers_from rest) s (wake-Stays t s)
      (λ _ p. update_sleepers_from-Stays rest p)
update_sleepers_from-Stays ((t, suc n) ∷ rest) s = update_sleepers_from-Stays rest _

pub update_sleepers-Stays : (s : State) → Stays (update_sleepers s)
unfolding update_sleepers
update_sleepers-Stays s = update_sleepers_from-Stays s.sleepers _

run_first-Stays : (ts : List ℕ) (s : State) → Stays (run_first ts s)
unfolding run_first
run_first-Stays [] s = tt
run_first-Stays (t ∷ ts) s =
    set_status-Stays t running (record s { running_tid = t; ready_tids = ts })

pub insert_ready_to_running-Stays : (s : State) → Stays (insert_ready_to_running s)
unfolding insert_ready_to_running
insert_ready_to_running-Stays s = run_first-Stays s.ready_tids s

pub leave-Stays : (to : Status) (t : ℕ) (s : State) → Stays (leave to t s)
unfolding leave
leave-Stays main t s = tt
leave-Stays ready t s = set_status-Stays t ready (record s { ready_tids = s.ready_tids ++ t ∷ [] })
leave-Stays running t s = tt
leave-Stays blocked t s =
    set_status-Stays t blocked (record s { blocked_tids = update s.blocked_tids t true })
leave-Stays asleep t s = tt
leave-Stays terminated t s = tt

pub save_environment-Stays : (t : ℕ) (p : Point) (s : State) → Stays (save_environment t p s)
unfolding save_environment
save_environment-Stays t p s = at_thread-Stays t _ s

module _ {os : Os} (well : IsHealthy os) where
  unblock_vt_alarm-Stays : (s : State) → Stays (unblock_vt_alarm os s)
  unblock_vt_alarm-Stays s = rw (unblock_vt_alarm-eq well s) tt

  resume_at-Stays : (p : Point) (s : State) → Stays (resume_at os p s)
  unfolding resume_at
  resume_at-Stays in_constructor s = tt
  resume_at-Stays (at_entry sp pc) s = tt
  resume_at-Stays in_handler s =
      bind-Stays (unblock_vt_alarm os) _ s (unblock_vt_alarm-Stays s) (λ _ t. tt)
  resume_at-Stays in_block s =
      bind-Stays (unblock_vt_alarm os) _ s (unblock_vt_alarm-Stays s) (λ _ t. tt)
  resume_at-Stays in_sleep s = tt
  resume_at-Stays in_terminate s =
      bind-Stays (unblock_vt_alarm os) _ s (unblock_vt_alarm-Stays s) (λ _ t. tt)

  jump_to-Stays : (o : Option UThread) (s : State) → Stays (jump_to os o s)
  unfolding jump_to
  jump_to-Stays none s = tt
  jump_to-Stays (some u) s = resume_at-Stays u.env.point _

  jump-Stays : (s : State) → Stays (jump os s)
  unfolding jump start_running
  jump-Stays s =
      bind-Stays (unblock_vt_alarm os) (λ _. start_running os) s (unblock_vt_alarm-Stays s)
        λ _ t.
          bind-Stays (at_thread t.running_tid _) _ t (at_thread-Stays t.running_tid _ t)
            λ _ p. jump_to-Stays (p.all_threads p.running_tid) p

  rest_of_switch-Stays :
      (to : Status) (p : Point) (s : State)
      → Stays (
          (do
            update_sleepers
            t ← get
            let orig_tid = t.running_tid
            leave to orig_tid
            insert_ready_to_running
            count_quantum
            save_environment orig_tid p
            jump os)
            s)
  rest_of_switch-Stays to p s = bind-Stays update_sleepers _ s (update_sleepers-Stays s) λ _ t.
      bind-Stays (leave to t.running_tid) _ t (leave-Stays to t.running_tid t) λ _ t2.
        bind-Stays insert_ready_to_running _ t2 (insert_ready_to_running-Stays t2) λ _ t3.
          bind-Stays (save_environment t.running_tid p) _ _
            (save_environment-Stays t.running_tid p _) λ _ t4. jump-Stays t4

  -- A switch does not end the process.
  pub switch_threads-Stays :
      (to : Status) (p : Point) (s : State) → Stays (switch_threads os to p s)
  unfolding switch_threads
  switch_threads-Stays terminated p s =
      bind-Stays update_sleepers _ s (update_sleepers-Stays s) λ _ t.
        bind-Stays insert_ready_to_running _ t (insert_ready_to_running-Stays t)
          λ _ t2. jump-Stays _
  switch_threads-Stays main p s = rest_of_switch-Stays main p s
  switch_threads-Stays ready p s = rest_of_switch-Stays ready p s
  switch_threads-Stays running p s = rest_of_switch-Stays running p s
  switch_threads-Stays blocked p s = rest_of_switch-Stays blocked p s
  switch_threads-Stays asleep p s = rest_of_switch-Stays asleep p s
