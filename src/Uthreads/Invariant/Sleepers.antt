-- ===== src/Uthreads/Invariant/Sleepers.antt =====
-- `update_sleepers` keeps the invariant, and wakes only threads that exist.
use user_level_threads_libra.Prelude.{
  ℕ, zero, suc, ◌+◌, ◌≡◌, inl, inr, Bool, List, [], ◌∷◌, ◌++◌, count, one_at, count-snoc,
  Bool-cases, Option-cases, arith,
}
use native.Mathlib.Nat.{add_assoc}
use user_level_threads_libra.Uthreads.State.{State, ready}
use user_level_threads_libra.Uthreads.Process.{set_status, at_thread, push_ready}
use user_level_threads_libra.Uthreads.Scheduler.{wake, update_sleepers_from, update_sleepers}
use user_level_threads_libra.Uthreads.Invariant.Rules.{bind-Ensures, step-Ensures, at_thread-eq}
use user_level_threads_libra.Uthreads.Invariant.Defs.{Ensures, keys, Inside}

count-keys-snoc :
    (k : ℕ) (m : List (ℕ × ℕ)) (t n : ℕ)
    → count k (keys (m ++ (t, n) ∷ [])) ≡ count k (keys m) + one_at t k
count-keys-snoc k [] t n = omega arith
count-keys-snoc k ((j, w) ∷ m) t n = omega (arith, count-keys-snoc k m t n)

module _ {runs : ℕ → ℕ} {stale : ℕ → Bool} {r : ℕ} {m : Bool} where
  wake-Inside :
      (t : ℕ) {es : List (ℕ × ℕ)} {s : State}
      → Inside runs stale ((t, 0) ∷ es) r m s
      → Ensures (λ _. Inside runs stale es r m) (wake t s)
  unfolding wake
  wake-Inside t {es} {s} inv = elim (Option-cases (s.all_threads t)) [
    | inl e ↦ absurd (ground (arith, inv.placed t, e))
    | inr (u, e) ↦ elim (Bool-cases (s.blocked_tids t)) [
      | inl b ↦
          rw (b, wake, e, set_status, at_thread)
            (record {
              placed = λ k. ground (arith, inv.placed k, inv.placed t);
              envs = λ k h. ground (arith, inv.envs k h, inv.envs t);
              known = λ k h. ground (arith, inv.known k h, inv.known t);
              here = inv.here;
              mask = inv.mask;
              ascending = inv.ascending;
            })
      | inr b ↦
          rw (b, wake)
            (step-Ensures _ (set_status t ready) (λ _. push_ready t) s (at_thread-eq t _ s u e)
              (record {
                placed =
                    λ k. ground (arith, inv.placed k, inv.placed t, count-snoc k s.ready_tids t);
                envs = λ k h. ground (arith, inv.envs k h, inv.envs t);
                known = λ k h. ground (arith, inv.known k h, inv.known t);
                here = inv.here;
                mask = inv.mask;
                ascending = inv.ascending;
              }))
    ]
  ]

  update_sleepers_from-Inside :
      (es : List (ℕ × ℕ)) {s : State}
      → Inside runs stale es r m s
      → Ensures (λ _. Inside runs stale [] r m) (update_sleepers_from es s)
  unfolding update_sleepers_from
  update_sleepers_from-Inside [] inv = inv
  update_sleepers_from-Inside ((t, zero) ∷ rest) {s} inv =
      bind-Ensures (λ _. Inside runs stale rest r m) _ (wake t) (λ _. update_sleepers_from rest) s
        (wake-Inside t inv) (λ _ s' h. update_sleepers_from-Inside rest h)
  update_sleepers_from-Inside ((t, suc n) ∷ rest) {s} inv =
      update_sleepers_from-Inside rest (record {
        placed = λ k. rw (count-keys-snoc k s.sleepers t n, add_assoc) (inv.placed k);
        envs = inv.envs;
        known = inv.known;
        here = inv.here;
        mask = inv.mask;
        ascending = inv.ascending;
      })

  pub update_sleepers-Inside :
      {s : State}
      → Inside runs stale [] r m s
      → Ensures (λ _. Inside runs stale [] r m) (update_sleepers s)
  unfolding update_sleepers
  update_sleepers-Inside {s} inv = update_sleepers_from-Inside s.sleepers (record {
    placed = λ k. ground (arith, inv.placed k);
    envs = inv.envs;
    known = inv.known;
    here = inv.here;
    mask = inv.mask;
    ascending = inv.ascending;
  })
