-- ===== src/Nim/Invariant/Release.antt =====
-- `mutex_unblock_random_thread`: who gets the mutex, and that the invariant is kept while the old owner's
-- environment is not in use.
use user_level_threads_libra.Prelude.{
  ℕ, ◌<◌, ◌≡◌, ◌⊎◌, refl, inl, inr, Bool, true, false, if◌then◌else◌, none, some, List, [], ◌∷◌,
  ◌++◌, count, count-snoc, erase, count-erase, Option-cases, arith,
}
use user_level_threads_libra.Nim.State.{State, Thread}
use user_level_threads_libra.Nim.Process.{ok, get_id, push_back}
use user_level_threads_libra.Nim.Mutex.{
  first_unblocked, give_mutex, unblock_waiting, mutex_unblock_random_thread,
}
use user_level_threads_libra.Nim.Invariant.Defs.{Inside}

-- The state after `p` has got the mutex.
abbrev pub handed : ℕ → State → State
handed p s = record s {
  mutex = record { blocked = true; thread_block = some p };
  mutex_blocked = erase p s.mutex_blocked;
  ready = if s.blocked p then s.ready else s.ready ++ p ∷ [];
}

abbrev pub released_to : List ℕ → State → State
released_to [] s = record s { mutex = record { blocked = false; thread_block = none } }
released_to (p ∷ ps) s = handed (first_unblocked s.blocked (p ∷ ps) p) s

abbrev pub released : State → State
released s = released_to s.mutex_blocked s

pub first_unblocked-count :
    (b : ℕ → Bool) (qs : List ℕ) (p : ℕ)
    → (first_unblocked b qs p ≡ p) ⊎ (0 < count (first_unblocked b qs p) qs)
unfolding first_unblocked
first_unblocked-count b [] p = inl refl
first_unblocked-count b (q ∷ qs) p = ground (arith, first_unblocked-count b qs p)

module _ {runs : ℕ → ℕ} {stale : ℕ → Bool} {r : ℕ} {m : Bool} {s : State}
    (inv : Inside runs stale r m s) where
  -- A thread that waits exists, under its id.
  waiting_thread :
      (p : ℕ) → 0 < count p s.mutex_blocked → (u : Thread) × (s.objects p ≡ some u) × (u.id ≡ p)
  waiting_thread p h = elim (Option-cases (s.objects p)) [
    | inl n ↦ absurd (ground (arith, inv.placed p, n))
    | inr (u, e) ↦ (u, e, ground (arith, inv.placed p, e))
  ]

  give_mutex-eq : (p : ℕ) → 0 < count p s.mutex_blocked → give_mutex p s ≡ ok tt (handed p s)
  unfolding give_mutex get_id push_back
  give_mutex-eq p h = let (u, e, i) = waiting_thread p h in ground (arith, e, i)

  unblock_waiting-eq :
      (ws : List ℕ) → s.mutex_blocked ≡ ws → unblock_waiting ws s ≡ ok tt (released_to ws s)
  unfolding unblock_waiting
  unblock_waiting-eq [] e = refl
  unblock_waiting-eq (p ∷ ps) e =
      give_mutex-eq (first_unblocked s.blocked (p ∷ ps) p)
        (ground (arith, e, first_unblocked-count s.blocked (p ∷ ps) p))

  pub mutex_unblock_random_thread-eq : mutex_unblock_random_thread s ≡ ok tt (released s)
  unfolding mutex_unblock_random_thread
  mutex_unblock_random_thread-eq = unblock_waiting-eq s.mutex_blocked refl

  -- Handed over to a thread that waits.
  module _ (o : ℕ) (old : stale o ≡ true) (owner : s.mutex.thread_block ≡ some o) where
    handed-Inside : (p : ℕ) → 0 < count p s.mutex_blocked → Inside runs stale r m (handed p s)
    handed-Inside p h = record {
      placed = λ j. ground (
        arith,
        inv.placed j,
        inv.placed p,
        count-erase j p s.mutex_blocked,
        count-snoc j s.ready p,
        h,
      );
      envs = λ j k.
          ground
            (arith, inv.envs j k, inv.placed j, count-erase j p s.mutex_blocked, owner, old, k, h);
      owned = ground (arith, inv.placed p, count-erase p p s.mutex_blocked, h);
      known = inv.known;
      here = inv.here;
      mask = inv.mask;
      alarms = inv.alarms;
    }

    released_to-Inside :
        (ws : List ℕ) → s.mutex_blocked ≡ ws → Inside runs stale r m (released_to ws s)
    released_to-Inside [] e = record {
      placed = inv.placed;
      envs = λ j k. ground (arith, inv.envs j k, e, owner, old, k);
      owned = e;
      known = inv.known;
      here = inv.here;
      mask = inv.mask;
      alarms = inv.alarms;
    }
    released_to-Inside (p ∷ ps) e =
        handed-Inside (first_unblocked s.blocked (p ∷ ps) p)
          (ground (arith, e, first_unblocked-count s.blocked (p ∷ ps) p))

    pub released-Inside : Inside runs stale r m (released s)
    released-Inside = released_to-Inside s.mutex_blocked refl
