-- ===== src/Nim/Contract/Mutex.antt =====
-- The mutex on a system whose calls succeed: the hand-over, a lock that is released at once, and the
-- thread that waits with nobody to run.
use user_level_threads_libra.Prelude.{
  ℕ, ◌<◌, ◌==◌, ◌≡◌, ◌≢◌, ◌⊎◌, refl, sym, ap, subst, ◌∙◌, inl, inr, Bool, true, false,
  if◌then◌else◌, Option, none, some, List, [], ◌∷◌, ◌++◌, count, Bool-cases, Option-cases, ==-refl,
  arith,
}
use user_level_threads_libra.Effects.{Ensures, bind-eq, bind-undefined}
use user_level_threads_libra.Uthreads.State.{success, update}
use user_level_threads_libra.Nim.State.{
  Os, State, Thread, Point, mutex_already_unblocked, mutex_blocked, in_lock,
}
use user_level_threads_libra.Nim.Process.{ok, undefined, ◌>>=◌, return, get_id}
use user_level_threads_libra.Nim.Signals.{block, run_timer}
use user_level_threads_libra.Nim.Scheduler.{
  returns, insert_key, count_quantum, add_mutex_blocked, save_env, choose_next, next_thread,
  run_front, move_out, switch_out, switch_thread,
}
use user_level_threads_libra.Nim.Mutex.{
  owner_id, first_unblocked, fail_with, mutex_unblock_random_thread, lock_held, lock_free,
  uthread_mutex_lock, unlock_held, uthread_mutex_unlock,
}
use user_level_threads_libra.Nim.Invariant.Defs.{Inv, OwnerFits}
use user_level_threads_libra.Nim.Invariant.Steps.{get_id-eq, remask}
use user_level_threads_libra.Nim.Invariant.Switch.{at_object-eq}
use user_level_threads_libra.Nim.Invariant.Release.{
  released, released_to, mutex_unblock_random_thread-eq, first_unblocked-count,
}
use user_level_threads_libra.Nim.Invariant.Locking.{
  HasMutex, Locks, lock_free-Locks, running_id, owner_id-eq,
}
use user_level_threads_libra.Nim.Healthy.{IsHealthy, block-eq, leave_with-eq}

-- Nobody waited, or one of those that waited has the mutex: one that is not blocked besides, if there is
-- any, who then stands at the end of the ready queue.
abbrev pub HandedOver : State → State → Type 0
HandedOver s r =
    ((s.mutex_blocked ≡ []) × (r.mutex.blocked ≡ false) × (r.ready ≡ s.ready))
    ⊎ ((p : ℕ) × (r.mutex ≡ record { blocked = true; thread_block = some p })
        × (0 < count p s.mutex_blocked)
        × ((k : ℕ) → 0 < count k s.mutex_blocked → s.blocked k ≡ false → s.blocked p ≡ false)
        × (r.ready ≡ (if s.blocked p then s.ready else s.ready ++ p ∷ [])))

first_unblocked-unblocked :
    (b : ℕ → Bool) (qs : List ℕ) (p k : ℕ)
    → 0 < count k qs
    → b k ≡ false
    → b (first_unblocked b qs p) ≡ false
unfolding first_unblocked
first_unblocked-unblocked b [] p k h e = absurd (omega arith)
first_unblocked-unblocked b (q ∷ qs) p k h e = elim (Bool-cases (b q)) [
  | inl t ↦ rw t (first_unblocked-unblocked b qs p k (ground (arith, t, e)) e)
  | inr f ↦ rw f f
]

released_to-HandedOver :
    (ws : List ℕ) (s : State) → s.mutex_blocked ≡ ws → HandedOver s (released_to ws s)
released_to-HandedOver [] s e = inl (e, refl, refl)
released_to-HandedOver (p ∷ ps) s e = inr (
  first_unblocked s.blocked (p ∷ ps) p,
  refl,
  ground (arith, e, first_unblocked-count s.blocked (p ∷ ps) p),
  λ k h f. first_unblocked-unblocked s.blocked (p ∷ ps) p k (subst (λ m. 0 < count k m) e h) f,
  refl,
)

released_to-same :
    (ws : List ℕ) (s : State)
    → ((released_to ws s).objects ≡ s.objects) × ((released_to ws s).set ≡ s.set)
released_to-same [] s = (refl, refl)
released_to-same (p ∷ ps) s = (refl, refl)

released_to-masked :
    (ws : List ℕ) (s : State) (b : Bool)
    → ◌≡◌ {A = State}
        (record (released_to ws (record s { masked = b })) { masked = false })
        (record (released_to ws s) { masked = false })
released_to-masked [] s b = refl
released_to-masked (p ∷ ps) s b = refl

module _ (os : Os) (s : State) (well : IsHealthy os) (inv : Inv s) where
  taken : State
  taken = record s { masked = true }

  unlock-eq :
      HasMutex s
      → uthread_mutex_unlock os s ≡ ok (returns success) (record (released s) { masked = false })
  unfolding uthread_mutex_unlock unlock_held taken
  unlock-eq has = bind-eq (block os) _ s (block-eq well s inv.alarms) (
      subst
        (λ b.
          (if b then unlock_held os else fail_with os mutex_already_unblocked) taken
          ≡ ok (returns success) (record (released s) { masked = false }))
        (sym has.0)
        (bind-eq (get_id s.running) _ taken (running_id locked) (
          bind-eq (owner_id s.mutex.thread_block) _ taken owner.2 (
            rw mine (
              bind-eq mutex_unblock_random_thread _ taken (mutex_unblock_random_thread-eq locked) (
                leave_with-eq well (returns success) (released taken)
                  ((released_to-same s.mutex_blocked taken).1 ∙ inv.alarms)
                ∙ ap (λ x. ok (returns success) x) (released_to-masked s.mutex_blocked s true)))))))
    where
      locked : Inv taken
      locked = remask true inv

      owner :
          (k : ℕ) × (s.mutex.thread_block ≡ some k)
          × (owner_id s.mutex.thread_block taken ≡ ok k taken)
      owner = owner_id-eq locked has.0

      mine : (s.running == owner.0) ≡ true
      mine = ground (arith, owner.1, has.1)

  -- On a healthy system and under the invariant, the owner of the mutex that unlocks it gets 0; nobody
  -- waited and the mutex is free, or a thread that waited has it, one that is not blocked if there is any,
  -- who is then ready. No thread object changes, and SIGVTALRM is not blocked.
  pub uthread_mutex_unlock-HandedOver :
      HasMutex s
      → (r : State) × (uthread_mutex_unlock os s ≡ ok (returns success) r)
        × HandedOver s r
        × (r.objects ≡ s.objects)
        × (r.masked ≡ false)
  uthread_mutex_unlock-HandedOver has = (
    record (released s) { masked = false },
    unlock-eq has,
    released_to-HandedOver s.mutex_blocked s refl,
    (released_to-same s.mutex_blocked s).0,
    refl,
  )

next_thread-nil : (s : State) → s.ready ≡ [] → next_thread s ≡ undefined
unfolding next_thread run_front
next_thread-nil s e = ground (arith, e)

no_successor :
    (os : Os) (r : ℕ) (pt : Point) (b : Bool) (s : State) (u : Thread)
    → s.objects r ≡ some u
    → s.ready ≡ []
    → (save_env r pt >>= λ _. choose_next os b) s ≡ undefined
unfolding save_env choose_next
no_successor os r pt b s u q e =
    bind-eq (save_env r pt) (λ _. choose_next os b) s (at_object-eq r saves s u q)
      (bind-undefined next_thread
        (λ _. (if b then run_timer os else return tt) >>= λ _. count_quantum)
        (record s { objects = update s.objects r (some (saves u)) }) (next_thread-nil _ e))
  where
    saves : Thread → Thread
    saves u = record u { env = record { point = pt; mask = s.masked } }

idle :
    (b : Bool) (o : Option ℕ) (f : ℕ → Option Thread) (m : List ℕ)
    → b ≡ false
    → OwnerFits b o f m
    → (m ≡ []) × (o ≡ none)
idle false none f m e h = (h, refl)
idle false (some k) f m e h = absurd h
idle true o f m e h = cc

-- On a healthy system and under the invariant, to lock a free mutex and then to unlock it gives 0, and
-- leaves all as it was, with SIGVTALRM not blocked.
pub uthread_mutex_lock-uthread_mutex_unlock :
    (os : Os) (s : State)
    → IsHealthy os
    → Inv s
    → s.mutex.blocked ≡ false
    → (uthread_mutex_lock os >>= λ _. uthread_mutex_unlock os) s
      ≡ ok (returns success) (record s { masked = false })
unfolding uthread_mutex_lock lock_free
uthread_mutex_lock-uthread_mutex_unlock os s well inv free =
    bind-eq (uthread_mutex_lock os) _ s
      (bind-eq (block os) _ s (block-eq well s inv.alarms) (
        subst
          (λ b.
            (if b then lock_held os s.running else lock_free os s.running) blocked
            ≡ ok (returns success) locked)
          (sym free) locks))
      (unlock-eq os locked well now (refl, refl)
        ∙ ap (λ x. ok (returns success) x)
            (ap (λ m. record (released_to m locked) { masked = false }) nobody.0
              ∙ ground (arith, nobody.1, free)))
  where
    blocked : State
    blocked = record s { masked = true }

    locked : State
    locked = record s {
      mutex = record { blocked = true; thread_block = some s.running };
      masked = false;
    }

    locks : lock_free os s.running blocked ≡ ok (returns success) locked
    locks = leave_with-eq well (returns success) _ inv.alarms

    now : Inv locked
    now =
        (subst (Ensures Locks) locks (lock_free-Locks os {s = blocked} free (remask true inv))).0.0

    nobody : (s.mutex_blocked ≡ []) × (s.mutex.thread_block ≡ none)
    nobody = idle s.mutex.blocked s.mutex.thread_block s.objects s.mutex_blocked free inv.owned

-- On a healthy system and under the invariant, a thread that asks for a mutex that another thread has,
-- while no thread is ready, is undefined behaviour.
pub uthread_mutex_lock-undefined :
    (os : Os) (s : State)
    → IsHealthy os
    → Inv s
    → s.mutex.blocked ≡ true
    → s.mutex.thread_block ≢ some s.running
    → s.ready ≡ []
    → uthread_mutex_lock os s ≡ undefined
unfolding uthread_mutex_lock lock_held switch_thread switch_out move_out save_env choose_next
    next_thread run_front add_mutex_blocked
uthread_mutex_lock-undefined os s well inv held other none_ready =
    elim (Option-cases (s.objects s.running)) [
      | inl n ↦ absurd (inv.known s.running (==-refl s.running) n)
      | inr (u, q) ↦ bind-eq (block os) _ s (block-eq well s inv.alarms) (
          subst
            (λ b.
              (if b then lock_held os s.running else lock_free os s.running) blocked ≡ undefined)
            (sym held)
            (bind-eq (owner_id s.mutex.thread_block) _ blocked owner.2 (
              bind-eq (get_id s.running) _ blocked (running_id now) (
                rw not_mine (
                  bind-undefined (switch_out os mutex_blocked true in_lock) _ waiting (
                    bind-eq (move_out os mutex_blocked s.running) _ waiting
                      (bind-eq (get_id s.running) _ waiting
                        (get_id-eq s.running waiting u q (ground (arith, inv.placed s.running, q)))
                        refl)
                      (no_successor os s.running in_lock true again u q none_ready)))))))
    ]
  where
    blocked : State
    blocked = record s { masked = true }

    now : Inv blocked
    now = remask true inv

    again : State
    again = record s {
      masked = true;
      mutex_blocked = insert_key os s.running (insert_key os s.running s.mutex_blocked);
    }

    waiting : State
    waiting = record s { masked = true; mutex_blocked = insert_key os s.running s.mutex_blocked }

    owner :
        (k : ℕ) × (s.mutex.thread_block ≡ some k)
        × (owner_id s.mutex.thread_block blocked ≡ ok k blocked)
    owner = owner_id-eq now held

    not_mine : (owner.0 == s.running) ≡ false
    not_mine = ground (arith, owner.1, other)
