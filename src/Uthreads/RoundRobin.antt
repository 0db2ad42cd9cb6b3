-- ===== src/Uthreads/RoundRobin.antt =====
-- The scheduling policy: what an expired quantum does, that every ready thread gets its turn, and when
-- a sleeper wakes up.
use mathlib.Core.List.{append_assoc}
use user_level_threads_libra.Prelude.{
  ℕ, zero, suc, ◌≡◌, refl, sym, subst, ◌∙◌, true, false, inl, inr, some, Option-cases, arith,
  ==-refl, pos, List, [], ◌∷◌, ◌++◌, length,
}
use user_level_threads_libra.Uthreads.State.{Os, State, UThread, ready, in_handler}
use user_level_threads_libra.Uthreads.Process.{M, ok, ◌>>=◌, return}
use user_level_threads_libra.Uthreads.Signals.{block_vt_alarm}
use user_level_threads_libra.Uthreads.Scheduler.{Control, returns, switch_threads, timer_handler}
use user_level_threads_libra.Uthreads.Api.{uthread_get_quantums, quantums_found}
use user_level_threads_libra.Uthreads.Program.{get_quantums, alarm, perform, alarm_comes}
use user_level_threads_libra.Effects.{bind-eq}
use user_level_threads_libra.Uthreads.Healthy.{
  IsHealthy, block_vt_alarm-eq, unblock_vt_alarm-eq, switch_threads-Stays,
}
use user_level_threads_libra.Uthreads.Invariant.Defs.{Returns, Inv}
use user_level_threads_libra.Uthreads.Invariant.Rules.{
  bind-Outcome, Returns-Ensures, Returns-bind-eq,
}
use user_level_threads_libra.Uthreads.Invariant.Switch.{remask, switch_ready-Inv}
use user_level_threads_libra.Uthreads.Rotation.Spec.{woken, quantums_in}
use user_level_threads_libra.Uthreads.Rotation.Turns.{queue_after, Switched, switch_threads-View}

abbrev pub quantums_at : State → ℕ → ℕ
quantums_at s k = quantums_in (s.all_threads k)

-- What an expired quantum leaves of the state `s`.
abbrev pub Turned : State → State → Type 0
Turned s t =
    Switched (queue_after s.ready_tids s.sleepers s.blocked_tids ready s.running_tid) s.sleepers
      s.blocked_tids s.total_quantums (quantums_at s) t

-- On a healthy system and under the invariant, the handler of the timer puts the running thread behind
-- the ready threads and behind the sleepers that wake up, starts the first thread of that queue, counts
-- the quantum for the process and for that thread, and returns; each other sleeper has a quantum less to
-- go.
pub timer_handler-Turned :
    (os : Os) (s : State)
    → IsHealthy os
    → Inv s
    → Returns (λ _ t. Inv t × Turned s t) (timer_handler os s)
unfolding timer_handler
timer_handler-Turned os s well inv =
    Returns-bind-eq (λ _ t. Inv t × Turned s t) (block_vt_alarm os)
      (λ _. switch_threads os ready in_handler) s tt blocked (block_vt_alarm-eq well s)
      (Returns-Ensures (λ _. Inv) (λ _. Turned s) (switch_threads os ready in_handler blocked)
        (switch_ready-Inv os s.running_tid in_handler refl (remask os true inv))
        (switch_threads-Stays well ready in_handler blocked)
        (switch_threads-View os in_handler ready (record {
          ready_is = refl;
          sleepers_is = refl;
          blocked_is = refl;
          total_is = refl;
          running_is = refl;
          quantums_is = λ k. refl;
        })))
  where
    blocked : State
    blocked = record s { masked = true }

regroup : (xs zs us vs : List ℕ) → ((xs ++ zs) ++ us) ++ vs ≡ xs ++ ((zs ++ us) ++ vs)
regroup xs zs us vs = simp append_assoc

-- The running thread asks for its own quantums, which opens SIGVTALRM, and then the timer expires.
unfoldable pub quantum : Os → M Control
unfolding perform
quantum os s = (perform os (get_quantums (pos s.running_tid)) >>= λ _. perform os alarm) s

-- `uthread_get_quantums` for a thread that exists.
pub quantums_found-eq :
    (os : Os) (s : State) (t : ℕ) (u : UThread)
    → IsHealthy os
    → s.all_threads t ≡ some u
    → perform os (get_quantums (pos t)) s
      ≡ ok (returns (pos u.quantums)) (record s { masked = false })
unfolding perform uthread_get_quantums quantums_found
quantums_found-eq os s t u well e =
    ground
      (arith, e, block_vt_alarm-eq well s, unblock_vt_alarm-eq well (record s { masked = true }))

timer_handler-eq :
    (os : Os) (s : State)
    → IsHealthy os
    → timer_handler os s ≡ switch_threads os ready in_handler (record s { masked = true })
unfolding timer_handler
timer_handler-eq os s well =
    bind-eq (block_vt_alarm os) (λ _. switch_threads os ready in_handler) s
      (block_vt_alarm-eq well s) refl

-- The alarm is not kept back.
pub quantum-timer_handler :
    (os : Os) (s : State) → IsHealthy os → Inv s → quantum os s ≡ timer_handler os s
unfolding quantum perform alarm_comes
quantum-timer_handler os s well inv = elim (Option-cases (s.all_threads s.running_tid)) [
  | inl e ↦ absurd (inv.known s.running_tid (==-refl s.running_tid) e)
  | inr (u, e) ↦
      bind-eq (perform os (get_quantums (pos s.running_tid))) (λ _. perform os alarm) s
        (quantums_found-eq os s s.running_tid u well e)
        (timer_handler-eq os (record s { masked = false }) well ∙ sym (timer_handler-eq os s well))
]

pub quantum-Turned :
    (os : Os) (s : State)
    → IsHealthy os
    → Inv s
    → Returns (λ _ t. Inv t × Turned s t) (quantum os s)
quantum-Turned os s well inv =
    subst (Returns (λ _ t. Inv t × Turned s t)) (sym (quantum-timer_handler os s well inv))
      (timer_handler-Turned os s well inv)

-- `n` quantums expire.
unfoldable pub expire : Os → ℕ → M (Unit {0})
unfolding quantum
expire os zero = return tt
expire os (suc n) = quantum os >>= λ _. expire os n

-- On a healthy system and under the invariant, a thread with `length xs` threads before it in the ready
-- queue runs when `length xs + 1` quantums have expired, if before each expiry the running thread calls
-- `uthread_get_quantums` with its own id; the calls and the expiries all return.
pub expire-first :
    (os : Os) (xs : List ℕ) (t : ℕ) (ys : List ℕ) (s : State)
    → IsHealthy os
    → Inv s
    → s.ready_tids ≡ xs ++ t ∷ ys
    → Returns (λ _ r. Inv r × (r.running_tid ≡ t)) (expire os (suc (length xs)) s)
unfolding expire
expire-first os [] t ys s well inv e =
    bind-Outcome ⊥ ⊥ (λ _ r. Inv r × Turned s r) (λ _ r. Inv r × (r.running_tid ≡ t)) (quantum os)
      (λ _. return tt) s (quantum-Turned os s well inv) λ _ r h. (h.0, h.1.running_is ∙ rw e)
expire-first os (x ∷ xs) t ys s well inv e =
    bind-Outcome ⊥ ⊥ (λ _ r. Inv r × Turned s r) (λ _ r. Inv r × (r.running_tid ≡ t)) (quantum os)
      (λ _. expire os (suc (length xs))) s (quantum-Turned os s well inv)
      λ _ r h.
        expire-first os xs t ((ys ++ woken s.blocked_tids s.sleepers) ++ s.running_tid ∷ []) r well
          h.0
          (h.1.ready_is
            ∙ rw e (regroup xs (t ∷ ys) (woken s.blocked_tids s.sleepers) (s.running_tid ∷ [])))
