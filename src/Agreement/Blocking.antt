-- ===== src/Agreement/Blocking.antt =====
-- uthread_block of another thread in uthreads.cpp and in nim/uthreads.cpp.
use user_level_threads_libra.Prelude.{
  zero, erase, erase_found-erase, ◌<◌, ℕ, suc, ◌==◌, ◌≡◌, ◌⊎◌, inl, inr, refl, subst, ap, ◌∙◌, Bool,
  true, false, if◌then◌else◌, some, count, contains, Option-cases, Bool-cases, arith, ℤ, pos,
  negsuc,
}
use user_level_threads_libra.Effects.{ok, bind-eq}
use user_level_threads_libra.Uthreads.State.{
  State, Os, UThread, Status, main, ready, running, blocked, asleep, terminated, success, failure,
  tid_not_exist, block_thread_zero, LibraryError, update,
}
use user_level_threads_libra.Uthreads.Scheduler.{returns}
use user_level_threads_libra.Uthreads.Api.{uthread_block, block_id, block_found, block_as}
use user_level_threads_libra.Uthreads.Program.{Event, perform}
use user_level_threads_libra.Uthreads.Invariant.Defs.{Inv}
use user_level_threads_libra.Uthreads.Safety.{perform-Inv}
use user_level_threads_libra.Uthreads.Healthy.{IsHealthy, block_vt_alarm-eq, unblock_vt_alarm-eq}
use user_level_threads_libra.Uthreads.Contract.Refusals.{refusal, refused, perform-refused}
use user_level_threads_libra.Uthreads.Contract.Resuming.{block_ready-eq}
use user_level_threads_libra.Nim.State.{
  State as NimState, Os as NimOs, Thread, LibraryError as NimLibraryError, block_error,
  block_zero_error,
}
use user_level_threads_libra.Nim.Signals.{block}
use user_level_threads_libra.Nim.Scheduler.{returns as nim_returns}
use user_level_threads_libra.Nim.Scheduler.{add_blocked}
use user_level_threads_libra.Nim.Invariant.Blocking.{find_ideque-eq}
use user_level_threads_libra.Nim.Api.{
  find_ideque, uthread_block as nim_block, block_id as nim_block_id, block_found as nim_block_found,
}
use user_level_threads_libra.Nim.Program
use user_level_threads_libra.Nim.Invariant.Defs.{Inv as NimInv, IsOrdering}
use user_level_threads_libra.Nim.Safety.{perform-After}
use user_level_threads_libra.Nim.Healthy.{IsHealthy as NimIsHealthy, block-eq, leave_with-eq}
use user_level_threads_libra.Nim.Contract.Refusals.{
  refusal as nim_refusal, refused as nim_refused, perform-refusal,
}
use user_level_threads_libra.Agreement.{Agree, absent-nim, nim_known}
use user_level_threads_libra.Agreement.Calls.{
  is_tid, blocked_by_other, serve, nim_serve, Alike, answering-Alike, same-Agree,
}

module _ {os : Os} {os' : NimOs} {s : State} {n : NimState} (well : IsHealthy os)
    (nim_well : NimIsHealthy os') (ordered : IsOrdering os') (inv : Inv s) (nim_inv : NimInv n)
    (a : Agree s n) where
  ready_known : (k : ℕ) → 0 < count k n.ready → (u : Thread) × (n.objects k ≡ some u) × (u.id ≡ k)
  ready_known k h = elim (Option-cases (n.objects k)) [
    | inl e ↦ absurd (ground (arith, nim_inv.placed k, e, h))
    | inr (u, e) ↦ (u, e, ground (arith, nim_inv.placed k, e))
  ]

  found-eq :
      (t : ℕ) (b : Bool)
      → contains t n.ready ≡ b
      → find_ideque t n.ready (record n { masked = true }) ≡ ok b (record n { masked = true })
  found-eq t b e =
      find_ideque-eq t n.ready (record n { masked = true }) ready_known
      ∙ ap (λ c. ok c (record n { masked = true })) e

  -- A ready thread goes from the queue to the blocked threads.
  nim_ready-eq :
      (t : ℕ)
      → count (suc t) n.all_threads ≡ 1
      → 0 < count (suc t) n.ready
      → Program.perform os' (Program.block (pos (suc t))) n
        ≡ ok (nim_returns success) (record n {
          ready = erase (suc t) n.ready;
          blocked = update n.blocked (suc t) true;
          masked = false;
        })
  unfolding Program.perform nim_block nim_block_id nim_block_found add_blocked
  nim_ready-eq t c h = bind-eq (block os') _ n (block-eq nim_well n nim_inv.alarms) (
      rw c (
        bind-eq (find_ideque (suc t) n.ready) (λ found. nim_block_found os' found (suc t))
          (record n { masked = true }) (found-eq (suc t) true (ground (arith, h)))
          (leave_with-eq nim_well (nim_returns success)
            (record n {
              ready = erase (suc t) n.ready;
              blocked = update n.blocked (suc t) true;
              masked = true;
            })
            nim_inv.alarms)))

  -- A thread that neither runs nor is ready.
  nim_blocked-eq :
      (t : ℕ)
      → count (suc t) n.all_threads ≡ 1
      → count (suc t) n.ready ≡ 0
      → (n.running == suc t) ≡ false
      → Program.perform os' (Program.block (pos (suc t))) n
        ≡ ok
            (nim_returns success)
            (record n { blocked = update n.blocked (suc t) true; masked = false })
  unfolding Program.perform nim_block nim_block_id nim_block_found add_blocked
  nim_blocked-eq t c h r = bind-eq (block os') _ n (block-eq nim_well n nim_inv.alarms) (
      rw c (
        bind-eq (find_ideque (suc t) n.ready) (λ found. nim_block_found os' found (suc t))
          (record n { masked = true }) (found-eq (suc t) false (ground (arith, h)))
          (rw r (
            leave_with-eq nim_well (nim_returns success)
              (record n { blocked = update n.blocked (suc t) true; masked = true })
              nim_inv.alarms))))

  blocked-eq :
      (t : ℕ) (u : UThread)
      → s.all_threads (suc t) ≡ some u
      → u.status ≡ blocked
      → perform os (Event.block (pos (suc t))) s
        ≡ ok (returns success) (record s { masked = false })
  unfolding perform uthread_block block_id block_found block_as
  blocked-eq t u e st = ground (
    arith,
    e,
    st,
    block_vt_alarm-eq well s,
    unblock_vt_alarm-eq well (record s { masked = true }),
  )

  unready-Agree :
      (t : ℕ) (u : UThread)
      → s.all_threads (suc t) ≡ some u
      → Agree
          (record s {
            all_threads = update s.all_threads (suc t) (some (record u { status = blocked }));
            blocked_tids = update s.blocked_tids (suc t) true;
            ready_tids = erase (suc t) s.ready_tids;
            masked = false;
          })
          (record n {
            ready = erase (suc t) n.ready;
            blocked = update n.blocked (suc t) true;
            masked = false;
          })
  unready-Agree t u e = record {
    running = a.running;
    ready = ap (λ q. erase (suc t) q) a.ready;
    blocked = λ k. ap (λ b. if suc t == k then true else b) (a.blocked k);
    total = a.total;
    quantums = λ k. ground (arith, a.quantums k, e);
    awake = a.awake;
    unlocked = a.unlocked;
    waiting = a.waiting;
  }

  -- A thread that was blocked before stays blocked.
  again-Agree :
      (t : ℕ)
      → s.blocked_tids (suc t) ≡ true
      → Agree
          (record s { masked = false })
          (record n { blocked = update n.blocked (suc t) true; masked = false })
  again-Agree t b = record {
    running = a.running;
    ready = a.ready;
    blocked = λ k. ground (arith, a.blocked k, b);
    total = a.total;
    quantums = a.quantums;
    awake = a.awake;
    unlocked = a.unlocked;
    waiting = a.waiting;
  }

  elsewhere : {A : Type 0} (z : ℤ) → is_tid z s.running_tid ≡ false → z ≡ pos n.running → A
  elsewhere z other q =
      let there : is_tid (pos n.running) s.running_tid ≡ false =
        subst (λ z. is_tid z s.running_tid ≡ false) q other in
      absurd (ground (arith, there, a.running))

  refused-Alike :
      (z : ℤ) (d : LibraryError) (d' : NimLibraryError)
      → is_tid z s.running_tid ≡ false
      → refusal (Event.block z) s ≡ some d
      → nim_refusal (Program.block z) n ≡ some d'
      → Alike (serve os (blocked_by_other z) s) (nim_serve os' (blocked_by_other z) n)
  unfolding serve nim_serve
  refused-Alike z d d' other e e' =
      rw (other, subst (λ r. is_tid z r ≡ false) a.running other)
        (answering-Alike (perform os (Event.block z) s) (Program.perform os' (Program.block z) n)
          (returns failure) (nim_returns failure) (refused d s) (nim_refused d' n)
          (perform-refused os (Event.block z) s d well e)
          (perform-refusal os' (Program.block z) n d' nim_well nim_inv e')
          (perform-Inv os (Event.block z) s inv tt)
          (perform-After os' (Program.block z) n ordered (elsewhere z other) nim_inv) refl
          (same-Agree s n true _ _ _ a))

  -- A thread that neither runs nor sleeps is ready or blocked.
  place_of :
      (t : ℕ) (u : UThread)
      → s.all_threads (suc t) ≡ some u
      → (suc t == s.running_tid) ≡ false
      → ((u.status ≡ ready) × (0 < count (suc t) s.ready_tids))
        ⊎ ((u.status ≡ blocked)
            × (count (suc t) s.ready_tids ≡ 0)
            × (s.blocked_tids (suc t) ≡ true))
  place_of t u e other = go u.status refl
    where
      go :
          (st : Status)
          → u.status ≡ st
          → ((st ≡ ready) × (0 < count (suc t) s.ready_tids))
            ⊎ ((st ≡ blocked) × (count (suc t) s.ready_tids ≡ 0) × (s.blocked_tids (suc t) ≡ true))
      go main q = absurd (ground (arith, inv.placed (suc t), e, q))
      go ready q = inl (refl, ground (arith, inv.placed (suc t), e, q))
      go running q = absurd (ground (arith, inv.placed (suc t), e, q, other))
      go blocked q =
          inr (
            refl,
            ground (arith, inv.placed (suc t), e, q),
            ground (arith, inv.placed (suc t), e, q),
          )
      go asleep q = absurd (ground (arith, inv.placed (suc t), e, q, a.awake))
      go terminated q = absurd (ground (arith, inv.placed (suc t), e, q))

  present-Alike :
      (t : ℕ) (u : UThread)
      → s.all_threads (suc t) ≡ some u
      → (suc t == s.running_tid) ≡ false
      → Alike
          (serve os (blocked_by_other (pos (suc t))) s)
          (nim_serve os' (blocked_by_other (pos (suc t))) n)
  unfolding serve nim_serve perform
  present-Alike t u e other =
      let known = nim_known inv nim_inv a (suc t) u e in
      let kept = perform-Inv os (Event.block (pos (suc t))) s inv tt in
      let nim_kept =
        perform-After os' (Program.block (pos (suc t))) n ordered (elsewhere (pos (suc t)) other)
          nim_inv in
      let nim_other = subst (λ r. (suc t == r) ≡ false) a.running other in
      rw (other, nim_other)
        (elim (place_of t u e other) [
          | inl (st, q) ↦
              answering-Alike (perform os (Event.block (pos (suc t))) s)
                (Program.perform os' (Program.block (pos (suc t))) n) (returns success)
                (nim_returns success) _ _
                (block_ready-eq os s t u (erase (suc t) s.ready_tids) well e st
                  (erase_found-erase (suc t) s.ready_tids q))
                (nim_ready-eq t known (subst (λ ts. 0 < count (suc t) ts) a.ready q)) kept nim_kept
                refl (unready-Agree t u e)
          | inr (st, q, b) ↦
              answering-Alike (perform os (Event.block (pos (suc t))) s)
                (Program.perform os' (Program.block (pos (suc t))) n) (returns success)
                (nim_returns success) (record s { masked = false }) _ (blocked-eq t u e st)
                (nim_blocked-eq t known (subst (λ ts. count (suc t) ts ≡ 0) a.ready q)
                  (ground (arith, nim_other)))
                kept nim_kept refl (again-Agree t b)
        ])

  -- A thread would block itself: neither library is asked.
  own-Alike :
      (z : ℤ)
      → is_tid z s.running_tid ≡ true
      → Alike (serve os (blocked_by_other z) s) (nim_serve os' (blocked_by_other z) n)
  unfolding serve nim_serve
  own-Alike z own = rw (own, subst (λ r. is_tid z r ≡ true) a.running own) (refl, inv, nim_inv, a)

  other-Alike :
      (z : ℤ)
      → is_tid z s.running_tid ≡ false
      → Alike (serve os (blocked_by_other z) s) (nim_serve os' (blocked_by_other z) n)
  other-Alike (negsuc m) other = refused-Alike (negsuc m) tid_not_exist block_error other refl refl
  other-Alike (pos zero) other =
      refused-Alike (pos zero) block_thread_zero block_zero_error other refl
        (ground (arith, nim_inv.placed 0))
  other-Alike (pos (suc t)) other = elim (Option-cases (s.all_threads (suc t))) [
    | inl e ↦
        let gone = absent-nim inv nim_inv a (suc t) e in
        refused-Alike (pos (suc t)) tid_not_exist block_error other (ground (arith, e))
          (ground (arith, nim_inv.placed (suc t), gone))
    | inr (u, e) ↦ present-Alike t u e other
  ]

  pub block-Alike :
      (z : ℤ) → Alike (serve os (blocked_by_other z) s) (nim_serve os' (blocked_by_other z) n)
  block-Alike z = elim (Bool-cases (is_tid z s.running_tid)) [
    | inl own ↦ own-Alike z own
    | inr other ↦ other-Alike z other
  ]
