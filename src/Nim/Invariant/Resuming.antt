-- ===== src/Nim/Invariant/Resuming.antt =====
-- `uthread_resume` and the functions that only read keep the invariant.
use user_level_threads_libra.Prelude.{
  ℕ, ◌≡◌, refl, inl, inr, true, false, ℤ, pos, negsuc, count-snoc, contains, Bool-cases,
  Option-cases, arith,
}
use user_level_threads_libra.Effects.{Ensures, step-Ensures}
use user_level_threads_libra.Uthreads.State.{success}
use user_level_threads_libra.Nim.State.{Os, State}
use user_level_threads_libra.Nim.Process.{get_id, push_back}
use user_level_threads_libra.Nim.Scheduler.{returns}
use user_level_threads_libra.Nim.Api.{
  resume_blocked, resume_id, uthread_resume, uthread_get_tid, quantums_of, get_quantums_id,
  uthread_get_quantums, uthread_get_total_quantums,
}
use user_level_threads_libra.Nim.Invariant.Defs.{Inv, After}
use user_level_threads_libra.Nim.Invariant.Steps.{remask, block-Ensures, leave_with-Ensures}
use user_level_threads_libra.Nim.Invariant.Locking.{running_id, fail_with-Ensures}

module _ (os : Os) where
  resume_blocked-After :
      (tid : ℕ) {s : State} → s.blocked tid ≡ true → Inv s → Ensures After (resume_blocked os tid s)
  unfolding resume_blocked push_back
  resume_blocked-After tid {s} b inv = elim (Bool-cases (contains tid s.mutex_blocked)) [
    | inl e ↦ rw e (
        leave_with-Ensures os After (returns success) _ inv.alarms (
          record {
            placed = λ k. ground (arith, inv.placed k, inv.placed tid, e, b);
            envs = inv.envs;
            owned = inv.owned;
            known = inv.known;
            here = refl;
            mask = refl;
            alarms = inv.alarms;
          },
          tt,
        ))
    | inr e ↦ rw e (
        leave_with-Ensures os After (returns success) _ inv.alarms (
          record {
            placed =
                λ k. ground (arith, inv.placed k, inv.placed tid, e, b, count-snoc k s.ready tid);
            envs = inv.envs;
            owned = inv.owned;
            known = inv.known;
            here = refl;
            mask = refl;
            alarms = inv.alarms;
          },
          tt,
        ))
  ]

  resume_id-After : (tid : ℤ) {s : State} → Inv s → Ensures After (resume_id os tid s)
  unfolding resume_id
  resume_id-After (negsuc n) inv = fail_with-Ensures os After _ inv (λ t i. (i, tt))
  resume_id-After (pos t) {s} inv = elim (Bool-cases (contains t s.all_threads)) [
    | inr e ↦ rw e (fail_with-Ensures os After _ inv (λ t i. (i, tt)))
    | inl e ↦ rw e (elim (Bool-cases (s.blocked t)) [
      | inl b ↦ rw b (resume_blocked-After t b inv)
      | inr b ↦
          rw b (leave_with-Ensures os After (returns success) s inv.alarms (remask false inv, tt))
    ])
  ]

  pub uthread_resume-After : (tid : ℤ) {s : State} → Inv s → Ensures After (uthread_resume os tid s)
  unfolding uthread_resume
  uthread_resume-After tid {s} inv =
      block-Ensures os After _ s inv.alarms (resume_id-After tid (remask true inv))

  pub uthread_get_tid-After : {s : State} → Inv s → Ensures After (uthread_get_tid os s)
  unfolding uthread_get_tid
  uthread_get_tid-After {s} inv =
      let inv' : Inv (record s { masked = true }) = remask true inv in
      block-Ensures os After _ s inv.alarms (
        step-Ensures After (get_id s.running) _ (record s { masked = true }) (running_id inv')
          (leave_with-Ensures os After (returns (pos s.running)) _ inv.alarms
            (remask false inv, tt)))

  get_quantums_id-After : (tid : ℤ) {s : State} → Inv s → Ensures After (get_quantums_id os tid s)
  unfolding get_quantums_id quantums_of
  get_quantums_id-After (negsuc n) inv = fail_with-Ensures os After _ inv (λ t i. (i, tt))
  get_quantums_id-After (pos t) {s} inv = elim (Bool-cases (contains t s.all_threads)) [
    | inr e ↦ rw e (fail_with-Ensures os After _ inv (λ t i. (i, tt)))
    | inl e ↦ elim (Option-cases (s.objects t)) [
      | inl n ↦ absurd (ground (arith, inv.placed t, n, e))
      | inr (u, q) ↦
          rw (e, q)
            (leave_with-Ensures os After (returns (pos u.quantums)) s inv.alarms
              (remask false inv, tt))
    ]
  ]

  pub uthread_get_quantums-After :
      (tid : ℤ) {s : State} → Inv s → Ensures After (uthread_get_quantums os tid s)
  unfolding uthread_get_quantums
  uthread_get_quantums-After tid {s} inv =
      block-Ensures os After _ s inv.alarms (get_quantums_id-After tid (remask true inv))

  pub uthread_get_total_quantums-After :
      {s : State} → Inv s → Ensures After (uthread_get_total_quantums os s)
  unfolding uthread_get_total_quantums
  uthread_get_total_quantums-After {s} inv = block-Ensures os After _ s inv.alarms (
      leave_with-Ensures os After (returns (pos s.total_quantum)) _ inv.alarms
        (remask false inv, tt))
