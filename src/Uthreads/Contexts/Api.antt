-- ===== src/Uthreads/Contexts/Api.antt =====
-- Each function of uthreads.h, and the alarm, sends control to where the thread that then runs stands.
use user_level_threads_libra.Prelude.{
  ℕ, zero, suc, ℤ, pos, negsuc, refl, Bool, true, false, if◌then◌else◌, Option, none, some, List,
  [], ◌∷◌, Option-cases, inl, inr, erase_found, insert_sorted,
}
use user_level_threads_libra.Effects.{Yields}
use user_level_threads_libra.Uthreads.State.{
  Os, State, UThread, Status, ready, running, blocked, asleep, terminated, main, in_block, in_sleep,
  in_terminate, success, failure, tid_not_exist, block_thread_zero, sleep_thread_zero, input_err,
  spawn_null, max_threads_err, update,
}
use user_level_threads_libra.Uthreads.Process.{ok, modify}
use user_level_threads_libra.Uthreads.Scheduler.{goes_on, timer_handler}
use user_level_threads_libra.Uthreads.Api.{
  new_thread, die_of_memory, emplace, emplace_sorted, spawn_as, spawn_from, uthread_spawn,
  resume_alarm, erase_ready, terminate_as, terminate_found, terminate_id, uthread_terminate,
  block_as, block_found, block_id, uthread_block, resume_as, resume_found, resume_id,
  uthread_resume, sleep_as, sleep_if, uthread_sleep, quantums_found, uthread_get_quantums,
  thread_of, uthread_get_tid, uthread_get_total_quantums,
}
use user_level_threads_libra.Uthreads.Program.{
  Event, spawn, terminate, block, resume, sleep, get_quantums, get_tid, get_total_quantums, alarm,
  alarm_comes, perform,
}
use user_level_threads_libra.Uthreads.Contexts.{
  Placed, AllPlaced, Continues, Keeps, Calls, Lands, seq-Calls, Lands-Calls, seq-Lands, Keeps-Holds,
  return-Calls, fail_with-Calls, update-Placed, set_status-Keeps, push_ready-Keeps,
}
use user_level_threads_libra.Uthreads.Contexts.Steps.{
  modify-Keeps, block_vt_alarm-Keeps, unblock_vt_alarm-Keeps, reset_timer-Keeps,
  switch_terminated-Lands, switch_threads-Calls, timer_handler-Calls,
}

-- What has to be known of a function that a call starts.
abbrev pub Launches : (ℕ → Type 0) → Os → Event → Type 0
Launches P os (spawn f) = P (os.translate_address f)
Launches P os _ = Unit {0}

module _ (P Q : ℕ → Type 0) where
  mark_blocked-Keeps :
      (t : ℕ) (b : Bool)
      → Keeps P Q (modify (λ s. record s { blocked_tids = update s.blocked_tids t b }))
  mark_blocked-Keeps t b =
      modify-Keeps P Q (λ s. record s { blocked_tids = update s.blocked_tids t b }) (λ s. refl)
        (λ s. refl)

  module _ (os : Os) where
    erase_ready-Keeps : (t : ℕ) → Keeps P Q (erase_ready os t)
    unfolding erase_ready
    erase_ready-Keeps t = record {
      runs = λ s h. elim (Option-cases (erase_found t s.ready_tids)) [
        | inl e ↦ rw (e, erase_ready) tt
        | inr (r, e) ↦ rw (e, erase_ready) (h, refl)
      ];
    }

    resume_alarm-Calls : Calls P Q (resume_alarm os)
    resume_alarm-Calls = seq-Calls P Q (unblock_vt_alarm-Keeps P Q os) (return-Calls P Q success)

    spawn_as-Calls :
        (t : ℕ) (others : List ℕ) (f : ℕ)
        → P (os.translate_address f)
        → Calls P Q (spawn_as os t others f)
    unfolding spawn_as emplace new_thread die_of_memory
    spawn_as-Calls t others f p = record {
      runs = λ s h q. elim (Option-cases os.new_stack) [
        | inl e ↦ rw (e, spawn_as) tt
        | inr (stack, e) ↦
            rw (e, spawn_as)
              ((seq-Calls P Q (push_ready-Keeps P Q t)
                  (seq-Calls P Q (unblock_vt_alarm-Keeps P Q os) (return-Calls P Q (pos t)))).runs
                (record s {
                  free_ids = others;
                  all_threads = emplace t (new_thread os t f stack) s.all_threads;
                })
                (emplaced s h stack) q)
      ];
    }
      where
        emplaced :
            (s : State)
            → AllPlaced P Q s
            → (stack k : ℕ) → Placed P Q k (emplace t (new_thread os t f stack) s.all_threads k)
        emplaced s h stack k = elim (Option-cases (s.all_threads t)) [
          | inl e ↦
              rw (e, emplace)
                (update-Placed P Q t (some (new_thread os t f stack)) s.all_threads p h k)
          | inr (u, e) ↦ rw (e, emplace) (h k)
        ]

    spawn_from-Calls :
        (ids : List ℕ) (f : ℕ) → P (os.translate_address f) → Calls P Q (spawn_from os ids f)
    unfolding spawn_from
    spawn_from-Calls [] f p = fail_with-Calls P Q failure max_threads_err
    spawn_from-Calls (t ∷ others) zero p = fail_with-Calls P Q failure spawn_null
    spawn_from-Calls (t ∷ others) (suc f) p = spawn_as-Calls t others (suc f) p

    uthread_spawn-Calls : (f : ℕ) → P (os.translate_address f) → Calls P Q (uthread_spawn os f)
    unfolding uthread_spawn
    uthread_spawn-Calls f p =
        seq-Calls P Q (block_vt_alarm-Keeps P Q os)
          (record { runs = λ s h q. (spawn_from-Calls s.free_ids f p).runs s h q })

    pub terminate_running-Lands : (t : ℕ) → Lands P Q (terminate_as os running t)
    unfolding terminate_as
    terminate_running-Lands t = seq-Lands P Q (Keeps-Holds P Q (reset_timer-Keeps P Q os)) (
        seq-Lands P Q (Keeps-Holds P Q (unblock_vt_alarm-Keeps P Q os))
          (switch_terminated-Lands P Q os in_terminate))

    terminate_as-Calls : (st : Status) (t : ℕ) → Calls P Q (terminate_as os st t)
    unfolding terminate_as
    terminate_as-Calls running t = Lands-Calls P Q (terminate_running-Lands t)
    terminate_as-Calls ready t = seq-Calls P Q (erase_ready-Keeps t) resume_alarm-Calls
    terminate_as-Calls blocked t = seq-Calls P Q (mark_blocked-Keeps t false) resume_alarm-Calls
    terminate_as-Calls main t = resume_alarm-Calls
    terminate_as-Calls asleep t = resume_alarm-Calls
    terminate_as-Calls terminated t = resume_alarm-Calls

    terminate_found-Calls : (o : Option UThread) (t : ℕ) → Calls P Q (terminate_found os o t)
    unfolding terminate_found
    terminate_found-Calls none t = fail_with-Calls P Q failure tid_not_exist
    terminate_found-Calls (some u) t = record {
      runs = λ s h q.
          (terminate_as-Calls u.status t).runs
            (record s {
              free_ids = insert_sorted t s.free_ids;
              all_threads = update s.all_threads t none;
            })
            (update-Placed P Q t none s.all_threads tt h) q;
    }

    terminate_id-Calls : (t : ℤ) → Calls P Q (terminate_id os t)
    unfolding terminate_id
    terminate_id-Calls (negsuc n) = fail_with-Calls P Q failure tid_not_exist
    terminate_id-Calls (pos zero) = record { runs = λ s h q. tt }
    terminate_id-Calls (pos (suc t)) = record {
      runs = λ s h q. (terminate_found-Calls (s.all_threads (suc t)) (suc t)).runs s h q;
    }

    block_as-Calls : (st : Status) (t : ℕ) → Calls P Q (block_as os st t)
    unfolding block_as
    block_as-Calls running t =
        seq-Calls P Q (reset_timer-Keeps P Q os)
          (switch_threads-Calls P Q os blocked in_block (λ k q. q))
    block_as-Calls ready t = seq-Calls P Q (erase_ready-Keeps t) (
        seq-Calls P Q (mark_blocked-Keeps t true)
          (seq-Calls P Q (set_status-Keeps P Q t blocked) resume_alarm-Calls))
    block_as-Calls asleep t = seq-Calls P Q (mark_blocked-Keeps t true) resume_alarm-Calls
    block_as-Calls main t = resume_alarm-Calls
    block_as-Calls blocked t = resume_alarm-Calls
    block_as-Calls terminated t = resume_alarm-Calls

    block_found-Calls : (o : Option UThread) (t : ℕ) → Calls P Q (block_found os o t)
    unfolding block_found
    block_found-Calls none t = fail_with-Calls P Q failure tid_not_exist
    block_found-Calls (some u) t = block_as-Calls u.status t

    block_id-Calls : (t : ℤ) → Calls P Q (block_id os t)
    unfolding block_id
    block_id-Calls (negsuc n) = fail_with-Calls P Q failure tid_not_exist
    block_id-Calls (pos zero) = fail_with-Calls P Q failure block_thread_zero
    block_id-Calls (pos (suc t)) = record {
      runs = λ s h q. (block_found-Calls (s.all_threads (suc t)) (suc t)).runs s h q;
    }

    resume_as-Calls : (st : Status) (t : ℕ) → Calls P Q (resume_as os st t)
    unfolding resume_as
    resume_as-Calls blocked t = seq-Calls P Q (mark_blocked-Keeps t false) (
        seq-Calls P Q (push_ready-Keeps P Q t)
          (seq-Calls P Q (set_status-Keeps P Q t ready) resume_alarm-Calls))
    resume_as-Calls asleep t = seq-Calls P Q (mark_blocked-Keeps t false) resume_alarm-Calls
    resume_as-Calls main t = resume_alarm-Calls
    resume_as-Calls ready t = resume_alarm-Calls
    resume_as-Calls running t = resume_alarm-Calls
    resume_as-Calls terminated t = resume_alarm-Calls

    resume_found-Calls : (o : Option UThread) (t : ℕ) → Calls P Q (resume_found os o t)
    unfolding resume_found
    resume_found-Calls none t = fail_with-Calls P Q failure tid_not_exist
    resume_found-Calls (some u) t = resume_as-Calls u.status t

    resume_id-Calls : (t : ℤ) → Calls P Q (resume_id os t)
    unfolding resume_id
    resume_id-Calls (negsuc n) = fail_with-Calls P Q failure tid_not_exist
    resume_id-Calls (pos t) = record {
      runs = λ s h q. (resume_found-Calls (s.all_threads t) t).runs s h q;
    }

    sleep_if-Calls : (t : ℕ) (n : ℤ) → Calls P Q (sleep_if os t n)
    unfolding sleep_if sleep_as
    sleep_if-Calls zero n = fail_with-Calls P Q failure sleep_thread_zero
    sleep_if-Calls (suc t) (negsuc n) = fail_with-Calls P Q failure input_err
    sleep_if-Calls (suc t) (pos n) = seq-Calls P Q (set_status-Keeps P Q (suc t) asleep) (
        seq-Calls P Q
          (modify-Keeps P Q (λ s. record s { sleepers = emplace_sorted (suc t) n s.sleepers })
            (λ s. refl) (λ s. refl))
          (seq-Calls P Q (reset_timer-Keeps P Q os)
            (switch_threads-Calls P Q os asleep in_sleep (λ k q. q))))

    quantums_found-Calls : (o : Option UThread) → Calls P Q (quantums_found os o)
    unfolding quantums_found
    quantums_found-Calls none = fail_with-Calls P Q failure tid_not_exist
    quantums_found-Calls (some u) =
        seq-Calls P Q (unblock_vt_alarm-Keeps P Q os) (return-Calls P Q (pos u.quantums))

    alarm_comes-Calls : Calls P Q (alarm_comes os)
    unfolding alarm_comes
    alarm_comes-Calls = record {
      runs = λ s h q.
          elim s.masked
            as (λ b.
              Yields (λ c t. AllPlaced P Q t × Continues P Q c t)
                (if b then ok goes_on s else timer_handler os s)) [
                  | true ↦ (h, q)
                  | false ↦ (timer_handler-Calls P Q os).runs s h q
                ];
    }

    -- What is known of the places at which threads stand holds after each call and each alarm, and control goes
    -- on at the place of the thread that runs then.
    pub perform-Calls : (e : Event) → Launches P os e → Calls P Q (perform os e)
    unfolding perform uthread_terminate uthread_block uthread_resume uthread_sleep
        uthread_get_quantums uthread_get_tid uthread_get_total_quantums
    perform-Calls (spawn f) p = uthread_spawn-Calls f p
    perform-Calls (terminate t) p =
        seq-Calls P Q (block_vt_alarm-Keeps P Q os) (terminate_id-Calls t)
    perform-Calls (block t) p = seq-Calls P Q (block_vt_alarm-Keeps P Q os) (block_id-Calls t)
    perform-Calls (resume t) p = seq-Calls P Q (block_vt_alarm-Keeps P Q os) (resume_id-Calls t)
    perform-Calls (sleep n) p =
        seq-Calls P Q (block_vt_alarm-Keeps P Q os)
          (record { runs = λ s h q. (sleep_if-Calls s.running_tid n).runs s h q })
    perform-Calls (get_quantums t) p =
        seq-Calls P Q (block_vt_alarm-Keeps P Q os)
          (record { runs = λ s h q. (quantums_found-Calls (thread_of t s.all_threads)).runs s h q })
    perform-Calls get_tid p = record { runs = λ s h q. (h, q) }
    perform-Calls get_total_quantums p = record { runs = λ s h q. (h, q) }
    perform-Calls alarm p = alarm_comes-Calls
