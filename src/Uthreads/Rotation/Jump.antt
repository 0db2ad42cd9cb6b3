-- ===== src/Uthreads/Rotation/Jump.antt =====
-- The jump to the next thread on the queues and the counters.
use user_level_threads_libra.Prelude.{
  ℕ, ◌+◌, refl, inl, inr, Bool, false, Option, none, some, List, one_at, Option-cases, arith,
}
use user_level_threads_libra.Uthreads.State.{
  Os, State, UThread, Point, at_entry, in_handler, in_block, in_sleep, in_terminate, in_constructor,
}
use user_level_threads_libra.Uthreads.Process.{M, ◌>>=◌, die_if, at_thread}
use user_level_threads_libra.Uthreads.Signals.{unblock_vt_alarm}
use user_level_threads_libra.Uthreads.Scheduler.{
  save_environment, resume_at, jump_to, start_running, jump,
}
use user_level_threads_libra.Uthreads.Invariant.Defs.{Yields}
use user_level_threads_libra.Uthreads.Invariant.Rules.{bind-Yields}
use user_level_threads_libra.Uthreads.Rotation.Spec.{View}
use user_level_threads_libra.Uthreads.Rotation.Views.{at_thread-View}

-- One more quantum for `r`.
abbrev pub starts : ℕ → (ℕ → ℕ) → ℕ → ℕ
starts r q k = q k + one_at r k

module _ {ts : List ℕ} {sl : List (ℕ × ℕ)} {b : ℕ → Bool} {n r : ℕ} {q : ℕ → ℕ} where
  pub remask-View :
      {s : State} (m : Bool) → View ts sl b n r q s → View ts sl b n r q (record s { masked = m })
  remask-View m v = record {
    ready_is = v.ready_is;
    sleepers_is = v.sleepers_is;
    blocked_is = v.blocked_is;
    total_is = v.total_is;
    running_is = v.running_is;
    quantums_is = v.quantums_is;
  }

  pub save_environment-View :
      (t : ℕ) (p : Point) {s : State}
      → View ts sl b n r q s
      → Yields (λ _. View ts sl b n r q) (save_environment t p s)
  unfolding save_environment
  save_environment-View t p v = at_thread-View t _ (λ u. refl) v

  pub unblock_vt_alarm-View :
      (os : Os) {A : Type 0} (Q : A → State → Type 0) (f : Unit {0} → M A) {s : State}
      → View ts sl b n r q s
      → ((t : State) → View ts sl b n r q t → Yields Q (f tt t))
      → Yields Q ((unblock_vt_alarm os >>= f) s)
  unfolding unblock_vt_alarm die_if
  unblock_vt_alarm-View os Q f {s} v rest =
      ground (arith, rest (record s { masked = false }) (remask-View false v))

  resume_at-View :
      (os : Os) (p : Point) {s : State}
      → View ts sl b n r q s
      → Yields (λ _. View ts sl b n r q) (resume_at os p s)
  unfolding resume_at
  resume_at-View os in_constructor v = tt
  resume_at-View os (at_entry sp pc) v = v
  resume_at-View os in_handler v =
      unblock_vt_alarm-View os (λ _. View ts sl b n r q) _ v (λ t w. remask-View false w)
  resume_at-View os in_block v = unblock_vt_alarm-View os (λ _. View ts sl b n r q) _ v (λ t w. w)
  resume_at-View os in_sleep v = v
  resume_at-View os in_terminate v =
      unblock_vt_alarm-View os (λ _. View ts sl b n r q) _ v (λ t w. w)

module _ {ts : List ℕ} {sl : List (ℕ × ℕ)} {b : ℕ → Bool} {n r : ℕ} {q : ℕ → ℕ} where
  jump_to-View :
      (os : Os) (o : Option UThread) {s : State}
      → View ts sl b n r q s
      → Yields (λ _. View ts sl b n r q) (jump_to os o s)
  unfolding jump_to
  jump_to-View os none v = tt
  jump_to-View os (some u) v = resume_at-View os u.env.point (remask-View u.env.mask v)

  quantum-View :
      {s : State}
      → View ts sl b n r q s
      → Yields
          (λ _. View ts sl b n r (starts r q))
          (at_thread s.running_tid (λ u. record u { quantums = u.quantums + 1 }) s)
  unfolding at_thread
  quantum-View {s} v = elim (Option-cases (s.all_threads s.running_tid)) [
    | inl e ↦ rw (e, at_thread) tt
    | inr (u, e) ↦
        rw (e, at_thread)
          (record {
            ready_is = v.ready_is;
            sleepers_is = v.sleepers_is;
            blocked_is = v.blocked_is;
            total_is = v.total_is;
            running_is = v.running_is;
            quantums_is = λ k. ground (arith, v.quantums_is k, v.running_is, e);
          })
  ]

module _ {sl : List (ℕ × ℕ)} {b : ℕ → Bool} {n r : ℕ} {q : ℕ → ℕ} (os : Os) where
  pub jump-View :
      {ts : List ℕ} {s : State}
      → View ts sl b n r q s
      → Yields (λ _. View ts sl b n r (starts r q)) (jump os s)
  unfolding jump start_running
  jump-View {ts} {s} v =
      unblock_vt_alarm-View os (λ _. View ts sl b n r (starts r q)) (λ _. start_running os) v
        λ t w.
          bind-Yields (λ _. View ts sl b n r (starts r q)) (λ _. View ts sl b n r (starts r q))
            (at_thread t.running_tid _) _ t (quantum-View w)
            λ _ p x. jump_to-View os (p.all_threads p.running_tid) x
