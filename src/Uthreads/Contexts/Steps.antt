-- ===== src/Uthreads/Contexts/Steps.antt =====
-- The functions of uthreads.cpp leave the saved places as they are, but for the thread that gives up the
-- processor and for a new one.
use user_level_threads_libra.Prelude.{
  ℕ, zero, suc, ◌+◌, ◌≡◌, refl, sym, subst, Bool, true, false, if◌then◌else◌, Option, none, some,
  List, [], ◌∷◌, ◌++◌,
}
use user_level_threads_libra.Effects.{Yields}
use user_level_threads_libra.Uthreads.State.{
  Os, State, UThread, Status, Point, ready, running, blocked, asleep, terminated, main, in_handler,
  in_constructor, at_entry, in_block, in_sleep, in_terminate, success, update, sigs_error,
  timer_err, sig_block, sig_unblock, no_time,
}
use user_level_threads_libra.Uthreads.Process.{
  ◌>>=◌, ◌>>◌, get, modify, set_status, push_ready, die_if,
}
use user_level_threads_libra.Uthreads.Signals.{
  quantum_timer, start_timer, reset_timer, block_vt_alarm, unblock_vt_alarm,
}
use user_level_threads_libra.Uthreads.Scheduler.{
  wake, update_sleepers_from, update_sleepers, run_first, insert_ready_to_running, leave,
  count_quantum, save_environment, resume_at, jump_to, start_running, jump, switch_threads,
  timer_handler, handler_returns,
}
use user_level_threads_libra.Uthreads.Contexts.{
  Stands, Placed, AllPlaced, Continues, Keeps, Holds, Calls, Lands, die_if-Keeps, seq-Keeps,
  get-Keeps, seq-Calls, Keeps-Holds, seq-Lands, Lands-Calls, return-Calls, at_thread-Keeps,
  at_thread-Holds, set_status-Keeps, push_ready-Keeps,
}

module _ (P Q : ℕ → Type 0) where
  -- A change of the state that leaves the threads alone.
  pub modify-Keeps :
      (f : State → State)
      → ((s : State) → (f s).all_threads ≡ s.all_threads)
      → ((s : State) → (f s).running_tid ≡ s.running_tid)
      → Keeps P Q (modify f)
  modify-Keeps f same r = record {
    runs = λ s h. ((λ k. subst (λ m. Placed P Q k (m k)) (sym (same s)) (h k)), r s);
  }

  wake-Keeps : (t : ℕ) → Keeps P Q (wake t)
  unfolding wake
  wake-Keeps t = get-Keeps P Q λ s.
      elim (s.blocked_tids t)
        as (λ b.
          Keeps P Q (if b then set_status t blocked else (set_status t ready >> push_ready t))) [
            | true ↦ set_status-Keeps P Q t blocked
            | false ↦ seq-Keeps P Q (set_status-Keeps P Q t ready) (push_ready-Keeps P Q t)
          ]

  update_sleepers_from-Keeps : (es : List (ℕ × ℕ)) → Keeps P Q (update_sleepers_from es)
  unfolding update_sleepers_from
  update_sleepers_from-Keeps [] = record { runs = λ s h. (h, refl) }
  update_sleepers_from-Keeps ((t, zero) ∷ es) =
      seq-Keeps P Q (wake-Keeps t) (update_sleepers_from-Keeps es)
  update_sleepers_from-Keeps ((t, suc n) ∷ es) =
      seq-Keeps P Q
        (modify-Keeps (λ s. record s { sleepers = s.sleepers ++ (t, n) ∷ [] }) (λ s. refl)
          (λ s. refl))
        (update_sleepers_from-Keeps es)

  update_sleepers-Keeps : Keeps P Q update_sleepers
  unfolding update_sleepers
  update_sleepers-Keeps = record {
    runs = λ s h. (update_sleepers_from-Keeps s.sleepers).runs (record s { sleepers = [] }) h;
  }

  run_first-Holds : (ts : List ℕ) → Holds P Q (run_first ts)
  unfolding run_first
  run_first-Holds [] = record { runs = λ s h. h }
  run_first-Holds (t ∷ rest) = record {
    runs = λ s h.
        (Keeps-Holds P Q (set_status-Keeps P Q t running)).runs
          (record s { running_tid = t; ready_tids = rest }) h;
  }

  insert_ready_to_running-Holds : Holds P Q insert_ready_to_running
  unfolding insert_ready_to_running
  insert_ready_to_running-Holds = record { runs = λ s h. (run_first-Holds s.ready_tids).runs s h }

  leave-Keeps : (st : Status) (t : ℕ) → Keeps P Q (leave st t)
  unfolding leave
  leave-Keeps ready t = seq-Keeps P Q (push_ready-Keeps P Q t) (set_status-Keeps P Q t ready)
  leave-Keeps blocked t =
      seq-Keeps P Q
        (modify-Keeps (λ s. record s { blocked_tids = update s.blocked_tids t true }) (λ s. refl)
          (λ s. refl))
        (set_status-Keeps P Q t blocked)
  leave-Keeps main t = record { runs = λ s h. (h, refl) }
  leave-Keeps running t = record { runs = λ s h. (h, refl) }
  leave-Keeps asleep t = record { runs = λ s h. (h, refl) }
  leave-Keeps terminated t = record { runs = λ s h. (h, refl) }

  save_environment-Holds : (t : ℕ) (p : Point) → Stands P Q t p → Holds P Q (save_environment t p)
  unfolding save_environment
  save_environment-Holds t p st = record {
    runs = λ s h.
        (at_thread-Holds P Q t (λ u. record u { env = record { point = p; mask = s.masked } })
            (λ u. st)).runs
          s h;
  }

  masking-Keeps :
      (a b c v : Bool)
      → Keeps P Q (do
        die_if a sigs_error
        die_if b sigs_error
        die_if c sigs_error
        modify (λ s. record s { masked = v }))
  masking-Keeps a b c v = seq-Keeps P Q (die_if-Keeps P Q a sigs_error) (
      seq-Keeps P Q (die_if-Keeps P Q b sigs_error) (
        seq-Keeps P Q (die_if-Keeps P Q c sigs_error)
          (modify-Keeps (λ s. record s { masked = v }) (λ s. refl) (λ s. refl))))

  module _ (os : Os) where
    pub block_vt_alarm-Keeps : Keeps P Q (block_vt_alarm os)
    unfolding block_vt_alarm
    block_vt_alarm-Keeps =
        masking-Keeps os.sigemptyset_fails os.sigaddset_fails (os.sigprocmask_fails sig_block) true

    pub unblock_vt_alarm-Keeps : Keeps P Q (unblock_vt_alarm os)
    unfolding unblock_vt_alarm
    unblock_vt_alarm-Keeps =
        masking-Keeps os.sigemptyset_fails os.sigaddset_fails (os.sigprocmask_fails sig_unblock)
          false

    start_timer-Keeps : Keeps P Q (start_timer os)
    unfolding start_timer
    start_timer-Keeps = record {
      runs = λ s h.
          (seq-Keeps P Q (die_if-Keeps P Q (os.setitimer_fails (quantum_timer s.quantum)) timer_err)
              (modify-Keeps (λ s. record s { armed = true }) (λ s. refl) (λ s. refl))).runs
            (record s { timer = quantum_timer s.quantum }) h;
    }

    pub reset_timer-Keeps : Keeps P Q (reset_timer os)
    unfolding reset_timer
    reset_timer-Keeps =
        seq-Keeps P Q (modify-Keeps (λ s. record s { timer = no_time }) (λ s. refl) (λ s. refl))
          start_timer-Keeps

    resume_at-Lands :
        (k : ℕ) (p : Point) (s : State)
        → s.running_tid ≡ k
        → Stands P Q k p
        → AllPlaced P Q s
        → Yields (λ c t. AllPlaced P Q t × Continues P Q c t) (resume_at os p s)
    unfolding resume_at
    resume_at-Lands k in_constructor s e st h = tt
    resume_at-Lands k (at_entry sp pc) s e st h = (h, st)
    resume_at-Lands k in_handler s e st h =
        (seq-Calls P Q unblock_vt_alarm-Keeps back).runs s h (subst Q (sym e) st)
      where
        back : Calls P Q handler_returns
        back = record { runs = λ s h q. (h, q) }
    resume_at-Lands k in_block s e st h =
        (seq-Calls P Q unblock_vt_alarm-Keeps (return-Calls P Q success)).runs s h
          (subst Q (sym e) st)
    resume_at-Lands k in_sleep s e st h = (h, subst Q (sym e) st)
    resume_at-Lands k in_terminate s e st h =
        (seq-Calls P Q unblock_vt_alarm-Keeps (return-Calls P Q success)).runs s h
          (subst Q (sym e) st)

    jump_to-Lands :
        (o : Option UThread) (s : State)
        → Placed P Q s.running_tid o
        → AllPlaced P Q s
        → Yields (λ c t. AllPlaced P Q t × Continues P Q c t) (jump_to os o s)
    unfolding jump_to
    jump_to-Lands none s st h = tt
    jump_to-Lands (some u) s st h = resume_at-Lands s.running_tid u.env.point _ refl st h

    start_running-Lands : Lands P Q (start_running os)
    unfolding start_running
    start_running-Lands = record {
      runs = λ s h.
          (seq-Lands P Q
              (Keeps-Holds P Q (
                at_thread-Keeps P Q s.running_tid (λ u. record u { quantums = u.quantums + 1 })
                  (λ u. refl)))
              onward).runs
            s h;
    }
      where
        onward : Lands P Q (get >>= λ r. jump_to os (r.all_threads r.running_tid))
        onward = record {
          runs = λ t k. jump_to-Lands (t.all_threads t.running_tid) t (k t.running_tid) k;
        }

    jump-Lands : Lands P Q (jump os)
    unfolding jump
    jump-Lands = seq-Lands P Q (Keeps-Holds P Q unblock_vt_alarm-Keeps) start_running-Lands

    pub switch_terminated-Lands : (p : Point) → Lands P Q (switch_threads os terminated p)
    unfolding switch_threads
    switch_terminated-Lands p = seq-Lands P Q (Keeps-Holds P Q update_sleepers-Keeps) (
        seq-Lands P Q insert_ready_to_running-Holds (
          seq-Lands P Q
            (Keeps-Holds P Q (
              modify-Keeps (λ s. record s { total_quantums = s.total_quantums + 1 }) (λ s. refl)
                (λ s. refl)))
            jump-Lands))

    leaving-Calls :
        (to : Status) (p : Point)
        → ((k : ℕ) → Q k → Stands P Q k p)
        → Calls P Q (do
          update_sleepers
          s ← get
          leave to s.running_tid
          insert_ready_to_running
          count_quantum
          save_environment s.running_tid p
          jump os)
    leaving-Calls to p st = seq-Calls P Q update_sleepers-Keeps (record {
      runs = λ s h q.
          (seq-Lands P Q (Keeps-Holds P Q (leave-Keeps to s.running_tid)) (
              seq-Lands P Q insert_ready_to_running-Holds (
                seq-Lands P Q
                  (Keeps-Holds P Q (
                    modify-Keeps (λ s. record s { total_quantums = s.total_quantums + 1 })
                      (λ s. refl) (λ s. refl)))
                  (seq-Lands P Q (save_environment-Holds s.running_tid p (st s.running_tid q))
                    jump-Lands)))).runs
            s h;
    })

    pub switch_threads-Calls :
        (to : Status) (p : Point)
        → ((k : ℕ) → Q k → Stands P Q k p)
        → Calls P Q (switch_threads os to p)
    unfolding switch_threads
    switch_threads-Calls terminated p st = Lands-Calls P Q (switch_terminated-Lands p)
    switch_threads-Calls main p st = leaving-Calls main p st
    switch_threads-Calls ready p st = leaving-Calls ready p st
    switch_threads-Calls running p st = leaving-Calls running p st
    switch_threads-Calls blocked p st = leaving-Calls blocked p st
    switch_threads-Calls asleep p st = leaving-Calls asleep p st

    pub timer_handler-Calls : Calls P Q (timer_handler os)
    unfolding timer_handler
    timer_handler-Calls =
        seq-Calls P Q block_vt_alarm-Keeps (switch_threads-Calls ready in_handler (λ k q. q))
