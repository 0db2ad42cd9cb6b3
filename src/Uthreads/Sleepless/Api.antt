-- ===== src/Uthreads/Sleepless/Api.antt =====
-- The functions of uthreads.cpp and the sleepers: the calls of uthreads.h but `uthread_sleep`.
use user_level_threads_libra.Prelude.{
  ℕ, zero, suc, ◌≡◌, refl, Bool, true, false, if◌then◌else◌, Option, none, some, List, [], ◌∷◌, ℤ,
  pos, negsuc, Option-cases, inl, inr, insert_sorted, erase_found,
}
use user_level_threads_libra.Effects.{Yields}
use user_level_threads_libra.Uthreads.State.{
  Os, UThread, Status, ready, running, blocked, asleep, terminated, main, in_block, in_terminate,
  success, update,
}
use user_level_threads_libra.Uthreads.Process.{ok, modify}
use user_level_threads_libra.Uthreads.Scheduler.{returns, goes_on, timer_handler}
use user_level_threads_libra.Uthreads.Api.{
  spawn_as, spawn_from, uthread_spawn, erase_ready, resume_alarm, terminate_as, terminate_found,
  terminate_id, uthread_terminate, block_as, block_found, block_id, uthread_block, resume_as,
  resume_found, resume_id, uthread_resume, quantums_found, uthread_get_quantums, uthread_get_tid,
  uthread_get_total_quantums, die_of_memory, thread_of,
}
use user_level_threads_libra.Uthreads.Program.{
  Event, spawn, terminate, block, resume, sleep, get_quantums, get_tid, get_total_quantums, alarm,
  perform, alarm_comes,
}
use user_level_threads_libra.Uthreads.Sleepless.{
  Sleepless, then-Sleepless, get-Sleepless, modify-Sleepless, set_status-Sleepless,
  push_ready-Sleepless, fail_with-Sleepless, return-Sleepless, reset_timer-Sleepless,
  block_vt_alarm-Sleepless, unblock_vt_alarm-Sleepless, switch_threads-Sleepless,
  timer_handler-Sleepless,
}

abbrev pub IsAwake : Event → Type 0
IsAwake (sleep z) = ⊥
IsAwake _ = Unit {0}

module _ (os : Os) where
  answer-Sleepless : Sleepless (resume_alarm os)
  answer-Sleepless =
      then-Sleepless (unblock_vt_alarm-Sleepless os) (return-Sleepless (returns success))

  spawn_as-Sleepless :
      (tid : ℕ) (others : List ℕ) (entry_point : ℕ) → Sleepless (spawn_as os tid others entry_point)
  unfolding spawn_as die_of_memory
  spawn_as-Sleepless tid others entry_point = record {
    runs = λ s h. elim (Option-cases os.new_stack) [
      | inl e ↦ rw (e, spawn_as) tt
      | inr (stack, e) ↦
          rw (e, spawn_as)
            ((then-Sleepless (push_ready-Sleepless tid) (
                then-Sleepless (unblock_vt_alarm-Sleepless os)
                  (return-Sleepless (returns (pos tid))))).runs
              (record s { free_ids = others; all_threads = _ }) h)
    ];
  }

  spawn_from-Sleepless : (ids : List ℕ) (e : ℕ) → Sleepless (spawn_from os ids e)
  unfolding spawn_from
  spawn_from-Sleepless [] e = fail_with-Sleepless _ _
  spawn_from-Sleepless (tid ∷ others) zero = fail_with-Sleepless _ _
  spawn_from-Sleepless (tid ∷ others) (suc pc) = spawn_as-Sleepless tid others (suc pc)

  erase_ready-Sleepless : (tid : ℕ) → Sleepless (erase_ready os tid)
  unfolding erase_ready
  erase_ready-Sleepless tid = record {
    runs = λ s h. elim (Option-cases (erase_found tid s.ready_tids)) [
      | inl e ↦ rw (e, erase_ready) tt
      | inr (rest, e) ↦ rw (e, erase_ready) h
    ];
  }

  set_blocked-Sleepless :
      (t : ℕ) (b : Bool)
      → Sleepless (modify (λ s. record s { blocked_tids = update s.blocked_tids t b }))
  set_blocked-Sleepless t b =
      modify-Sleepless (λ s. record s { blocked_tids = update s.blocked_tids t b }) (λ s. refl)

  terminate_as-Sleepless : (st : Status) (tid : ℕ) → Sleepless (terminate_as os st tid)
  unfolding terminate_as
  terminate_as-Sleepless running tid = then-Sleepless (reset_timer-Sleepless os) (
      then-Sleepless (unblock_vt_alarm-Sleepless os)
        (switch_threads-Sleepless os terminated in_terminate))
  terminate_as-Sleepless ready tid = then-Sleepless (erase_ready-Sleepless tid) answer-Sleepless
  terminate_as-Sleepless blocked tid =
      then-Sleepless (set_blocked-Sleepless tid false) answer-Sleepless
  terminate_as-Sleepless main tid = answer-Sleepless
  terminate_as-Sleepless asleep tid = answer-Sleepless
  terminate_as-Sleepless terminated tid = answer-Sleepless

  block_as-Sleepless : (st : Status) (tid : ℕ) → Sleepless (block_as os st tid)
  unfolding block_as
  block_as-Sleepless running tid =
      then-Sleepless (reset_timer-Sleepless os) (switch_threads-Sleepless os blocked in_block)
  block_as-Sleepless ready tid = then-Sleepless (erase_ready-Sleepless tid) (
      then-Sleepless (set_blocked-Sleepless tid true)
        (then-Sleepless (set_status-Sleepless tid blocked) answer-Sleepless))
  block_as-Sleepless asleep tid = then-Sleepless (set_blocked-Sleepless tid true) answer-Sleepless
  block_as-Sleepless blocked tid = answer-Sleepless
  block_as-Sleepless main tid = answer-Sleepless
  block_as-Sleepless terminated tid = answer-Sleepless

  resume_as-Sleepless : (st : Status) (tid : ℕ) → Sleepless (resume_as os st tid)
  unfolding resume_as
  resume_as-Sleepless blocked tid = then-Sleepless (set_blocked-Sleepless tid false) (
      then-Sleepless (push_ready-Sleepless tid)
        (then-Sleepless (set_status-Sleepless tid ready) answer-Sleepless))
  resume_as-Sleepless asleep tid = then-Sleepless (set_blocked-Sleepless tid false) answer-Sleepless
  resume_as-Sleepless main tid = answer-Sleepless
  resume_as-Sleepless ready tid = answer-Sleepless
  resume_as-Sleepless running tid = answer-Sleepless
  resume_as-Sleepless terminated tid = answer-Sleepless

  -- From the thread that is found, if there is one.
  terminate_found-Sleepless : (o : Option UThread) (tid : ℕ) → Sleepless (terminate_found os o tid)
  unfolding terminate_found
  terminate_found-Sleepless none tid = fail_with-Sleepless _ _
  terminate_found-Sleepless (some u) tid = record {
    runs = λ s h.
        (terminate_as-Sleepless u.status tid).runs
          (record s {
            free_ids = insert_sorted tid s.free_ids;
            all_threads = update s.all_threads tid none;
          })
          h;
  }

  terminate_id-Sleepless : (z : ℤ) → Sleepless (terminate_id os z)
  unfolding terminate_id
  terminate_id-Sleepless (negsuc n) = fail_with-Sleepless _ _
  terminate_id-Sleepless (pos zero) = record { runs = λ s h. tt }
  terminate_id-Sleepless (pos (suc t)) = record {
    runs = λ s h. (terminate_found-Sleepless (s.all_threads (suc t)) (suc t)).runs s h;
  }

  block_found-Sleepless : (o : Option UThread) (tid : ℕ) → Sleepless (block_found os o tid)
  unfolding block_found
  block_found-Sleepless none tid = fail_with-Sleepless _ _
  block_found-Sleepless (some u) tid = block_as-Sleepless u.status tid

  block_id-Sleepless : (z : ℤ) → Sleepless (block_id os z)
  unfolding block_id
  block_id-Sleepless (negsuc n) = fail_with-Sleepless _ _
  block_id-Sleepless (pos zero) = fail_with-Sleepless _ _
  block_id-Sleepless (pos (suc t)) = record {
    runs = λ s h. (block_found-Sleepless (s.all_threads (suc t)) (suc t)).runs s h;
  }

  resume_found-Sleepless : (o : Option UThread) (tid : ℕ) → Sleepless (resume_found os o tid)
  unfolding resume_found
  resume_found-Sleepless none tid = fail_with-Sleepless _ _
  resume_found-Sleepless (some u) tid = resume_as-Sleepless u.status tid

  resume_id-Sleepless : (z : ℤ) → Sleepless (resume_id os z)
  unfolding resume_id
  resume_id-Sleepless (negsuc n) = fail_with-Sleepless _ _
  resume_id-Sleepless (pos t) = record {
    runs = λ s h. (resume_found-Sleepless (s.all_threads t) t).runs s h;
  }

  quantums_found-Sleepless : (o : Option UThread) → Sleepless (quantums_found os o)
  unfolding quantums_found
  quantums_found-Sleepless none = fail_with-Sleepless _ _
  quantums_found-Sleepless (some u) = record {
    runs = λ s h.
        (then-Sleepless (unblock_vt_alarm-Sleepless os)
            (return-Sleepless (returns (pos u.quantums)))).runs
          s h;
  }

  alarm_comes-Sleepless : Sleepless (alarm_comes os)
  unfolding alarm_comes
  alarm_comes-Sleepless = record {
    runs = λ s h.
        elim s.masked
          as (λ b.
            Yields (λ _ t. t.sleepers ≡ []) (if b then ok goes_on s else timer_handler os s)) [
              | true ↦ h
              | false ↦ (timer_handler-Sleepless os).runs s h
            ];
  }

  -- Every call but `uthread_sleep`, and the alarm.
  pub perform-Sleepless : (e : Event) → IsAwake e → Sleepless (perform os e)
  unfolding perform uthread_spawn uthread_terminate uthread_block uthread_resume
      uthread_get_quantums uthread_get_tid uthread_get_total_quantums
  perform-Sleepless (spawn e) a =
      then-Sleepless (block_vt_alarm-Sleepless os)
        (get-Sleepless λ s. spawn_from-Sleepless s.free_ids e)
  perform-Sleepless (terminate z) a =
      then-Sleepless (block_vt_alarm-Sleepless os) (terminate_id-Sleepless z)
  perform-Sleepless (block z) a =
      then-Sleepless (block_vt_alarm-Sleepless os) (block_id-Sleepless z)
  perform-Sleepless (resume z) a =
      then-Sleepless (block_vt_alarm-Sleepless os) (resume_id-Sleepless z)
  perform-Sleepless (sleep z) a = absurd a
  perform-Sleepless (get_quantums z) a =
      then-Sleepless (block_vt_alarm-Sleepless os)
        (get-Sleepless λ s. quantums_found-Sleepless (thread_of z s.all_threads))
  perform-Sleepless get_tid a = record { runs = λ s h. h }
  perform-Sleepless get_total_quantums a = record { runs = λ s h. h }
  perform-Sleepless alarm a = alarm_comes-Sleepless
