-- ===== src/Agreement/Resuming.antt =====
-- uthread_resume in uthreads.cpp and in nim/uthreads.cpp.
use user_level_threads_libra.Prelude.{
  ℕ, ◌==◌, ◌≡◌, ◌⊎◌, inl, inr, refl, sym, ap, ◌∙◌, true, false, if◌then◌else◌, some, [], ◌∷◌, ◌++◌,
  count, contains, Option-cases, arith, ℤ, pos, negsuc,
}
use user_level_threads_libra.Effects.{ok, bind-eq}
use user_level_threads_libra.Uthreads.State.{
  State, Os, UThread, Status, main, ready, running, blocked, asleep, terminated, success, failure,
  tid_not_exist, update,
}
use user_level_threads_libra.Uthreads.Signals.{block_vt_alarm, unblock_vt_alarm}
use user_level_threads_libra.Uthreads.Scheduler.{returns}
use user_level_threads_libra.Uthreads.Api.{uthread_resume, resume_id, resume_found, resume_as}
use user_level_threads_libra.Uthreads.Program.{resume, perform}
use user_level_threads_libra.Uthreads.Invariant.Defs.{Inv}
use user_level_threads_libra.Uthreads.Safety.{perform-Inv}
use user_level_threads_libra.Uthreads.Healthy.{IsHealthy, block_vt_alarm-eq, unblock_vt_alarm-eq}
use user_level_threads_libra.Uthreads.Contract.Refusals.{refusal, refused, perform-refused}
use user_level_threads_libra.Uthreads.Contract.Resuming.{resume_blocked-eq}
use user_level_threads_libra.Nim.State.{State as NimState, Os as NimOs, unblock_error}
use user_level_threads_libra.Nim.Signals.{block}
use user_level_threads_libra.Nim.Scheduler.{returns as nim_returns}
use user_level_threads_libra.Nim.Process.{push_back}
use user_level_threads_libra.Nim.Api.{
  uthread_resume as nim_resume, resume_id as nim_resume_id, resume_blocked,
}
use user_level_threads_libra.Nim.Program
use user_level_threads_libra.Nim.Invariant.Defs.{Inv as NimInv, IsOrdering}
use user_level_threads_libra.Nim.Safety.{perform-After}
use user_level_threads_libra.Nim.Healthy.{IsHealthy as NimIsHealthy, block-eq, leave_with-eq}
use user_level_threads_libra.Nim.Contract.Refusals.{
  refusal as nim_refusal, refused as nim_refused, perform-refusal,
}
use user_level_threads_libra.Agreement.{Agree, absent-nim, nim_known}
use user_level_threads_libra.Agreement.Calls.{
  resumed, serve, nim_serve, Alike, answering-Alike, same-Agree,
}

module _ {os : Os} {os' : NimOs} {s : State} {n : NimState} (well : IsHealthy os)
    (nim_well : NimIsHealthy os') (ordered : IsOrdering os') (inv : Inv s) (nim_inv : NimInv n)
    (a : Agree s n) where
  -- What is blocked in uthreads.cpp has the status BLOCKED, since nobody sleeps.
  status_of :
      (t : ℕ) (u : UThread)
      → s.all_threads t ≡ some u
      → ((u.status ≡ blocked) × (s.blocked_tids t ≡ true))
        ⊎ ((resume_as os u.status t ≡ resume_as os ready t) × (s.blocked_tids t ≡ false))
  unfolding resume_as
  status_of t u e = go u.status refl
    where
      go :
          (st : Status)
          → u.status ≡ st
          → ((st ≡ blocked) × (s.blocked_tids t ≡ true))
            ⊎ ((resume_as os st t ≡ resume_as os ready t) × (s.blocked_tids t ≡ false))
      go main q = inr (refl, ground (arith, inv.placed t, e, q))
      go ready q = inr (refl, ground (arith, inv.placed t, e, q))
      go running q = inr (refl, ground (arith, inv.placed t, e, q))
      go blocked q = inl (refl, ground (arith, inv.placed t, e, q))
      go asleep q = absurd (ground (arith, inv.placed t, e, q, a.awake))
      go terminated q = absurd (ground (arith, inv.placed t, e, q))

  still-eq :
      (t : ℕ)
      → resume_as os ready t (record s { masked = true })
        ≡ ok (returns success) (record s { masked = false })
  unfolding resume_as
  still-eq t =
      bind-eq (unblock_vt_alarm os) _ (record s { masked = true })
        (unblock_vt_alarm-eq well (record s { masked = true })) refl

  -- A thread that is not blocked.
  idle-eq :
      (t : ℕ) (u : UThread)
      → s.all_threads t ≡ some u
      → resume_as os u.status t ≡ resume_as os ready t
      → perform os (resume (pos t)) s ≡ ok (returns success) (record s { masked = false })
  unfolding perform uthread_resume resume_id resume_found
  idle-eq t u e q =
      bind-eq (block_vt_alarm os) _ s (block_vt_alarm-eq well s) (rw (e, q) (still-eq t))

  nim_idle-eq :
      (t : ℕ)
      → count t n.all_threads ≡ 1
      → n.blocked t ≡ false
      → Program.perform os' (Program.resume (pos t)) n
        ≡ ok (nim_returns success) (record n { masked = false })
  unfolding Program.perform nim_resume nim_resume_id
  nim_idle-eq t c b = bind-eq (block os') _ n (block-eq nim_well n nim_inv.alarms) (
      rw (c, b)
        (leave_with-eq nim_well (nim_returns success) (record n { masked = true }) nim_inv.alarms))

  nim_resume-eq :
      (t : ℕ)
      → count t n.all_threads ≡ 1
      → n.blocked t ≡ true
      → Program.perform os' (Program.resume (pos t)) n
        ≡ ok (nim_returns success) (record n {
          ready = n.ready ++ t ∷ [];
          blocked = update n.blocked t false;
          masked = false;
        })
  unfolding Program.perform nim_resume nim_resume_id resume_blocked push_back
  nim_resume-eq t c b =
      let free : contains t n.mutex_blocked ≡ false = rw a.waiting refl in
      bind-eq (block os') _ n (block-eq nim_well n nim_inv.alarms) (
        rw (c, b, free)
          (leave_with-eq nim_well (nim_returns success)
            (record n {
              ready = n.ready ++ t ∷ [];
              blocked = update n.blocked t false;
              masked = true;
            })
            nim_inv.alarms))

  -- After a thread that was blocked has become ready.
  resumed-Agree :
      (t : ℕ) (u : UThread)
      → s.all_threads t ≡ some u
      → Agree
          (record s {
            all_threads = update s.all_threads t (some (record u { status = ready }));
            blocked_tids = update s.blocked_tids t false;
            ready_tids = s.ready_tids ++ t ∷ [];
            masked = false;
          })
          (record n {
            ready = n.ready ++ t ∷ [];
            blocked = update n.blocked t false;
            masked = false;
          })
  resumed-Agree t u e = record {
    running = a.running;
    ready = rw a.ready refl;
    blocked = λ k. ap (λ b. if t == k then false else b) (a.blocked k);
    total = a.total;
    quantums = λ k. ground (arith, a.quantums k, e);
    awake = a.awake;
    unlocked = a.unlocked;
    waiting = a.waiting;
  }

  absent-Alike :
      (z : ℤ)
      → refusal (resume z) s ≡ some tid_not_exist
      → nim_refusal (Program.resume z) n ≡ some unblock_error
      → Alike (serve os (resumed z) s) (nim_serve os' (resumed z) n)
  unfolding serve nim_serve
  absent-Alike z e e' =
      answering-Alike (perform os (resume z) s) (Program.perform os' (Program.resume z) n)
        (returns failure) (nim_returns failure) (refused tid_not_exist s)
        (nim_refused unblock_error n) (perform-refused os (resume z) s tid_not_exist well e)
        (perform-refusal os' (Program.resume z) n unblock_error nim_well nim_inv e')
        (perform-Inv os (resume z) s inv tt)
        (perform-After os' (Program.resume z) n ordered tt nim_inv) refl
        (same-Agree s n true false _ _ a)

  present-Alike :
      (t : ℕ) (u : UThread)
      → s.all_threads t ≡ some u
      → Alike (serve os (resumed (pos t)) s) (nim_serve os' (resumed (pos t)) n)
  unfolding serve nim_serve perform
  present-Alike t u e =
      let known = nim_known inv nim_inv a t u e in
      let kept = perform-Inv os (resume (pos t)) s inv tt in
      let nim_kept = perform-After os' (Program.resume (pos t)) n ordered tt nim_inv in
      elim (status_of t u e) [
        | inl (st, b) ↦
            answering-Alike (perform os (resume (pos t)) s)
              (Program.perform os' (Program.resume (pos t)) n) (returns success)
              (nim_returns success) _ _ (resume_blocked-eq os s t u well e st)
              (nim_resume-eq t known (sym (a.blocked t) ∙ b)) kept nim_kept refl
              (resumed-Agree t u e)
        | inr (q, b) ↦
            answering-Alike (perform os (resume (pos t)) s)
              (Program.perform os' (Program.resume (pos t)) n) (returns success)
              (nim_returns success) (record s { masked = false }) (record n { masked = false })
              (idle-eq t u e q) (nim_idle-eq t known (sym (a.blocked t) ∙ b)) kept nim_kept refl
              (same-Agree s n false false s.cerr n.cerr a)
      ]

  pub resume-Alike : (z : ℤ) → Alike (serve os (resumed z) s) (nim_serve os' (resumed z) n)
  resume-Alike (negsuc m) = absent-Alike (negsuc m) refl refl
  resume-Alike (pos t) = elim (Option-cases (s.all_threads t)) [
    | inl e ↦
        let gone = absent-nim inv nim_inv a t e in
        absent-Alike (pos t) (ground (arith, e)) (ground (arith, nim_inv.placed t, gone))
    | inr (u, e) ↦ present-Alike t u e
  ]
