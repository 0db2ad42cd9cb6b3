-- ===== src/Uthreads/Invariant/Steps.antt =====
-- The steps that several functions of the library share.
use user_level_threads_libra.Prelude.{
  ℕ, ◌+◌, ◌<◌, ◌≡◌, refl, true, false, some, List, count, one_at, erase_found, erase_found-some,
  arith,
}
use user_level_threads_libra.Uthreads.State.{Os, State, ITimerVal}
use user_level_threads_libra.Uthreads.Process.{M, ok, ◌>>=◌, die_if, fail_with}
use user_level_threads_libra.Uthreads.Signals.{quantum_timer, reset_timer}
use user_level_threads_libra.Uthreads.Scheduler.{Control}
use user_level_threads_libra.Uthreads.Api.{erase_ready, resume_alarm}
use user_level_threads_libra.Uthreads.Invariant.Rules.{step-Ensures}
use user_level_threads_libra.Uthreads.Invariant.Switch.{unblock_vt_alarm-Ensures, remask}
use user_level_threads_libra.Uthreads.Invariant.Defs.{Ensures, Inv}

module _ (os : Os) where
  pub reset_timer-Ensures :
      {A : Type 0} (Q : A → State → Type 0) (f : Unit {0} → M A) (s : State)
      → ((v : ITimerVal) → Ensures Q (f tt (record s { timer = v; armed = true })))
      → Ensures Q ((reset_timer os >>= f) s)
  unfolding reset_timer die_if
  reset_timer-Ensures Q f s h = ground (arith, h (quantum_timer s.quantum))

  pub fail_with-Inv :
      (c : Control) (e : _) {s : State} → Inv s → Ensures (λ _. Inv) (fail_with c e s)
  unfolding fail_with
  fail_with-Inv c e inv = record {
    placed = inv.placed;
    envs = inv.envs;
    known = inv.known;
    here = refl;
    mask = refl;
    ascending = inv.ascending;
  }

  pub resume_alarm-Inv : {s : State} → Inv s → Ensures (λ _. Inv) (resume_alarm os s)
  resume_alarm-Inv {s} inv = unblock_vt_alarm-Ensures os (λ _. Inv) _ s (remask os false inv)

  erase_ready-eq :
      (tid : ℕ) (s : State) (ys : List ℕ)
      → erase_found tid s.ready_tids ≡ some ys
      → erase_ready os tid s ≡ ok tt (record s { ready_tids = ys })
  unfolding erase_ready
  erase_ready-eq tid s ys q = rw (q, erase_ready)

  pub erase_ready-Ensures :
      {A : Type 0} (Q : A → State → Type 0) (f : Unit {0} → M A) (tid : ℕ) (s : State)
      → 0 < count tid s.ready_tids
      → ((ys : List ℕ)
          → ((t : ℕ) → count t ys + one_at tid t ≡ count t s.ready_tids)
          → Ensures Q (f tt (record s { ready_tids = ys })))
      → Ensures Q ((erase_ready os tid >>= f) s)
  unfolding erase_ready
  erase_ready-Ensures Q f tid s there h =
      let (ys, q, c) = erase_found-some tid s.ready_tids there in
      step-Ensures Q (erase_ready os tid) f s (erase_ready-eq tid s ys q) (h ys c)
