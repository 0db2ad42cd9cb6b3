-- ===== src/Uthreads/WakeUp.antt =====
-- When a sleeper wakes up: its counter falls by one with each quantum, and it is queued with the
-- quantum after the one in which the counter is 0.
use user_level_threads_libra.Prelude.{
  ℕ, zero, suc, ◌+◌, ◌<◌, ◌==◌, if◌then◌else◌, ◌≡◌, ap, ◌∙◌, Bool, false, Option, none, some, List,
  [], ◌∷◌, ◌++◌, ◌⊎◌, count, one_at, count-append, arith,
}
use user_level_threads_libra.Uthreads.State.{Os, State, UThread, ready}
use user_level_threads_libra.Uthreads.Process.{return}
use user_level_threads_libra.Uthreads.Healthy.{IsHealthy}
use user_level_threads_libra.Uthreads.Invariant.Defs.{Returns, Inv, Fits, keys}
use user_level_threads_libra.Uthreads.Invariant.Rules.{bind-Outcome, Returns-mono}
use user_level_threads_libra.Uthreads.Rotation.Spec.{woken, ticked, first, others}
use user_level_threads_libra.Uthreads.Rotation.Turns.{queue_after}
use user_level_threads_libra.Uthreads.RoundRobin.{Turned, quantum, quantum-Turned, expire}

-- The counter of thread `k` in the map of sleepers.
abbrev pub counter : ℕ → List (ℕ × ℕ) → Option ℕ
counter k [] = none
counter k ((j, w) ∷ m) = if j == k then some w else counter k m

counter-ticked :
    (k c : ℕ) (m : List (ℕ × ℕ)) → counter k m ≡ some (suc c) → counter k (ticked m) ≡ some c
counter-ticked k c [] h = cc
counter-ticked k c ((j, zero) ∷ m) h = ground (arith, counter-ticked k c m)
counter-ticked k c ((j, suc w) ∷ m) h = ground (arith, counter-ticked k c m)

count-woken :
    (b : ℕ → Bool) (k : ℕ) (m : List (ℕ × ℕ))
    → b k ≡ false
    → counter k m ≡ some 0
    → 0 < count k (woken b m)
count-woken b k [] e h = cc
count-woken b k ((j, zero) ∷ m) e h = ground (arith, count-woken b k m)
count-woken b k ((j, suc w) ∷ m) e h = ground (arith, count-woken b k m)

count-counter : (k c : ℕ) (m : List (ℕ × ℕ)) → counter k m ≡ some c → 0 < count k (keys m)
count-counter k c [] h = cc
count-counter k c ((j, w) ∷ m) h = ground (arith, count-counter k c m)

-- Thread `k` takes part in the scheduling.
abbrev pub Queued : ℕ → State → Type 0
Queued k s = (s.running_tid ≡ k) ⊎ (0 < count k s.ready_tids)

-- Thread `k` sleeps, with counter `c`.
abbrev pub Sleeps : ℕ → ℕ → State → Type 0
Sleeps k c s = (counter k s.sleepers ≡ some c) × (s.blocked_tids k ≡ false)

sleeping_elsewhere :
    (k : ℕ) (o : Option UThread) (r q z f : ℕ) (b : Bool)
    → Fits k o r q z b f
    → 0 < z
    → (r ≡ 0) × (q ≡ 0)
sleeping_elsewhere k o r q z f b h p = ground arith

Sleeps-not-Queued : (k c : ℕ) (s : State) → Inv s → Sleeps k c s → ¬ Queued k s
Sleeps-not-Queued k c s inv z q = ground (arith, count-counter k c s.sleepers z.0, elsewhere)
  where
    elsewhere : (one_at s.running_tid k ≡ 0) × (count k s.ready_tids ≡ 0)
    elsewhere =
        sleeping_elsewhere k (s.all_threads k) _ _ _ _ _ (inv.placed k)
          (omega (arith, count-counter k c s.sleepers z.0))

Queued-first-others :
    (k : ℕ) (ts : List ℕ) → 0 < count k ts → (first ts ≡ k) ⊎ (0 < count k (others ts))
Queued-first-others k [] h = absurd (omega arith)
Queued-first-others k (t ∷ ts) h = ground arith

-- A quantum less to go.
Sleeps-quantum :
    (os : Os) (k c : ℕ) (s : State)
    → IsHealthy os
    → Inv s
    → Sleeps k (suc c) s
    → Returns
        (λ _ r. Inv r × Sleeps k c r × (r.total_quantums ≡ s.total_quantums + 1))
        (quantum os s)
Sleeps-quantum os k c s well inv z =
    Returns-mono (λ _ r. Inv r × Turned s r)
      (λ _ r. Inv r × Sleeps k c r × (r.total_quantums ≡ s.total_quantums + 1)) (quantum os s)
      (quantum-Turned os s well inv)
      λ _ r (i, t).
        (i, (rw t.sleepers_is (counter-ticked k c s.sleepers z.0), rw t.blocked_is z.1), t.total_is)

wakes :
    (os : Os) (k : ℕ) (s : State)
    → IsHealthy os
    → Inv s
    → Sleeps k 0 s
    → Returns (λ _ r. Inv r × Queued k r × (r.total_quantums ≡ s.total_quantums + 1)) (quantum os s)
wakes os k s well inv z =
    Returns-mono (λ _ r. Inv r × Turned s r)
      (λ _ r. Inv r × Queued k r × (r.total_quantums ≡ s.total_quantums + 1)) (quantum os s)
      (quantum-Turned os s well inv)
      λ _ r (i, t). (i, rw (t.running_is, t.ready_is) (Queued-first-others k _ queued), t.total_is)
  where
    queued : 0 < count k (queue_after s.ready_tids s.sleepers s.blocked_tids ready s.running_tid)
    queued = omega (
      arith,
      count-append k (s.ready_tids ++ woken s.blocked_tids s.sleepers) (s.running_tid ∷ []),
      count-append k s.ready_tids (woken s.blocked_tids s.sleepers),
      count-woken s.blocked_tids k s.sleepers z.1 z.0,
    )

-- On a healthy system and under the invariant, a thread that sleeps with counter `j + c` and is not
-- blocked besides still sleeps, neither runs nor is ready, after `j` quantums have expired, if before each
-- expiry the running thread calls `uthread_get_quantums` with its own id; the calls and the expiries all return.
pub expire-Sleeps :
    (os : Os) (j c k : ℕ) (s : State)
    → IsHealthy os
    → Inv s
    → Sleeps k (j + c) s
    → Returns
        (λ _ r. Sleeps k c r × (¬ Queued k r) × (r.total_quantums ≡ s.total_quantums + j))
        (expire os j s)
unfolding expire
expire-Sleeps os zero c k s well inv z = (z', Sleeps-not-Queued k c s inv z', omega arith)
  where
    z' : Sleeps k c s
    z' = (z.0 ∙ ap some (omega arith), z.1)
expire-Sleeps os (suc j) c k s well inv z =
    bind-Outcome ⊥ ⊥ (λ _ r. Inv r × Sleeps k (j + c) r × (r.total_quantums ≡ s.total_quantums + 1))
      (λ _ r. Sleeps k c r × (¬ Queued k r) × (r.total_quantums ≡ s.total_quantums + suc j))
      (quantum os) (λ _. expire os j) s
      (Sleeps-quantum os k (j + c) s well inv (z.0 ∙ ap some (omega arith), z.1))
      λ _ r h.
        Returns-mono
          (λ _ p. Sleeps k c p × (¬ Queued k p) × (p.total_quantums ≡ r.total_quantums + j))
          (λ _ p. Sleeps k c p × (¬ Queued k p) × (p.total_quantums ≡ s.total_quantums + suc j))
          (expire os j r) (expire-Sleeps os j c k r well h.0 h.1)
          λ _ p g. (g.0, g.1, omega (arith, g.2, h.2))

-- On a healthy system and under the invariant, a thread that sleeps with counter `c` and is not blocked
-- besides is ready or runs when `c + 1` quantums have expired, if before each expiry the running thread calls
-- `uthread_get_quantums` with its own id; the calls and the expiries all return.
pub expire-Queued :
    (os : Os) (c k : ℕ) (s : State)
    → IsHealthy os
    → Inv s
    → Sleeps k c s
    → Returns
        (λ _ r. Inv r × Queued k r × (r.total_quantums ≡ s.total_quantums + (c + 1)))
        (expire os (suc c) s)
unfolding expire
expire-Queued os zero k s well inv z =
    bind-Outcome ⊥ ⊥ Q Q (quantum os) (λ _. return tt) s (wakes os k s well inv z) (λ _ r h. h)
  where
    Q : {A : Type 0} → A → State → Type 0
    Q _ r = Inv r × Queued k r × (r.total_quantums ≡ s.total_quantums + 1)
expire-Queued os (suc c) k s well inv z =
    bind-Outcome ⊥ ⊥ (λ _ r. Inv r × Sleeps k c r × (r.total_quantums ≡ s.total_quantums + 1))
      (λ _ r. Inv r × Queued k r × (r.total_quantums ≡ s.total_quantums + (suc c + 1))) (quantum os)
      (λ _. expire os (suc c)) s (Sleeps-quantum os k c s well inv z)
      λ _ r h.
        Returns-mono (λ _ p. Inv p × Queued k p × (p.total_quantums ≡ r.total_quantums + (c + 1)))
          (λ _ p. Inv p × Queued k p × (p.total_quantums ≡ s.total_quantums + (suc c + 1)))
          (expire os (suc c) r) (expire-Queued os c k r well h.0 h.1)
          λ _ p g. (g.0, g.1, omega (arith, g.2, h.2))
