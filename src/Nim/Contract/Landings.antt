-- ===== src/Nim/Contract/Landings.antt =====
-- A thread into which control comes out of `saveEnv` a second time.
use user_level_threads_libra.Prelude.{
  ℕ, ◌+◌, ◌≡◌, ◌≢◌, refl, sym, subst, inl, inr, false, none, List, ◌∷◌, count, Option-cases,
  ==-refl, arith,
}
use user_level_threads_libra.Effects.{Returns, bind-eq, Returns-bind-eq}
use user_level_threads_libra.Nim.State.{Os, State, in_handler}
use user_level_threads_libra.Nim.Scheduler.{
  Control, at_save, land, switch_again, choose_next, next_thread, start_thread,
}
use user_level_threads_libra.Nim.Invariant.Defs.{Inv}
use user_level_threads_libra.Nim.Invariant.Steps.{next_thread-eq}
use user_level_threads_libra.Nim.Healthy.{start_thread-eq}

-- The thread `r` does not run, and stands in no container from which it could run again.
abbrev pub Lost : ℕ → State → Type 0
Lost r t =
    (t.running ≢ r) × (count r t.ready ≡ 0) × (count r t.mutex_blocked ≡ 0) × (t.blocked r ≡ false)

-- Under the invariant, while a thread is ready: if control that is jumped to comes out of `saveEnv` a second
-- time, a thread that the alarm had interrupted does not go on. `switchThread` jumps on to the first ready
-- thread, and the interrupted thread exists but stands nowhere, so that the invariant is lost.
pub land-Lost :
    (os : Os) (s : State) (p : ℕ) (rest : List ℕ)
    → Inv s
    → s.ready ≡ p ∷ rest
    → Returns
        (λ _ t. (t.running ≡ p) × Lost s.running t × (t.objects s.running ≢ none) × (¬ Inv t))
        (land os at_save in_handler s)
unfolding land switch_again choose_next
land-Lost os s p rest inv e = elim (Option-cases (s.objects p)) [
  | inl n ↦ absurd (ground (arith, inv.placed p, e, n))
  | inr (v, q) ↦
      Returns-bind-eq Q (choose_next os false) (λ _. start_thread) s tt chosen
        (bind-eq next_thread _ s (next_thread-eq p rest s e) refl)
        (subst (Returns Q) (sym (start_thread-eq chosen v q)) (
          refl,
          (
            λ r. ground (arith, inv.placed p, inv.placed s.running, here, e, r),
            ground (arith, inv.placed s.running, here, e),
            ground (arith, inv.placed s.running, here),
            ground (arith, inv.placed s.running, here),
          ),
          λ n. ground (arith, here, n, q),
          λ i. ground (arith, i.placed s.running, inv.placed p, inv.placed s.running, here, e, q),
        ))
]
  where
    here : s.objects s.running ≢ none
    here = inv.known s.running (==-refl s.running)

    Q : Control → State → Type 0
    Q _ t = (t.running ≡ p) × Lost s.running t × (t.objects s.running ≢ none) × (¬ Inv t)

    chosen : State
    chosen = record s { running = p; ready = rest; total_quantum = s.total_quantum + 1 }
