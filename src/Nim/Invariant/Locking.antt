-- ===== src/Nim/Invariant/Locking.antt =====
-- The mutex: a call of `uthread_mutex_lock` or `uthread_mutex_unlock` keeps the invariant, and who has the
-- mutex when it returns.
use user_level_threads_libra.Prelude.{
  ℕ, ◌==◌, ◌≡◌, ◌≢◌, refl, sym, subst, inl, inr, Bool, true, false, if◌then◌else◌, Option, none,
  some, [], pos, Bool-cases, Option-cases, ==-refl, arith,
}
use user_level_threads_libra.Effects.{Ensures, step-Ensures, Ensures-mono}
use user_level_threads_libra.Uthreads.State.{success, failure}
use user_level_threads_libra.Nim.State.{Os, State, Thread, LibraryError, mutex_already_unblocked}
use user_level_threads_libra.Nim.Process.{ok, get_id, print_errors}
use user_level_threads_libra.Nim.Scheduler.{Control, returns, begins, goes_on, jumps}
use user_level_threads_libra.Nim.Mutex.{
  owner_id, fail_with, lock_held, lock_free, uthread_mutex_lock, unlock_held, uthread_mutex_unlock,
  mutex_unblock_random_thread,
}
use user_level_threads_libra.Nim.Invariant.Defs.{IsOrdering, Inside, Inv, OwnerFits, After, Jumped}
use user_level_threads_libra.Nim.Invariant.Steps.{
  get_id-eq, remask, Inside-Inv, block-Ensures, leave_with-Ensures,
}
use user_level_threads_libra.Nim.Invariant.Switch.{switch_mutex_blocked-Jumped}
use user_level_threads_libra.Nim.Invariant.Release.{
  released, released-Inside, mutex_unblock_random_thread-eq,
}

-- The running thread has the mutex.
abbrev pub HasMutex : State → Type 0
HasMutex s = (s.mutex.blocked ≡ true) × (s.mutex.thread_block ≡ some s.running)

-- Success means that the running thread has the mutex.
abbrev pub Acquired : Control → State → Type 0
Acquired (returns (pos n)) s = HasMutex s
Acquired _ s = Unit {0}

abbrev pub Locks : Control → State → Type 0
Locks c s = After c s × Acquired c s

Jumped-Locks : (c : Control) (s : State) → Jumped c s → Locks c s
Jumped-Locks (jumps pt) s h = (h, tt)
Jumped-Locks (returns n) s h = absurd h
Jumped-Locks (begins sp pc) s h = absurd h
Jumped-Locks goes_on s h = absurd h

-- There is a next thread if the running thread has to wait for the mutex.
abbrev pub MayLock : State → Type 0
MayLock s = s.mutex.blocked ≡ true → s.mutex.thread_block ≢ some s.running → s.ready ≢ []

pub running_id : {s : State} → Inv s → get_id s.running s ≡ ok s.running s
running_id {s} inv = elim (Option-cases (s.objects s.running)) [
  | inl n ↦ absurd (inv.known s.running (==-refl s.running) n)
  | inr (u, e) ↦ get_id-eq s.running s u e (ground (arith, inv.placed s.running, e))
]

owner_known :
    (b : Bool) (o : Option ℕ) (s : State)
    → b ≡ true
    → ((k : ℕ) (u : Thread) → s.objects k ≡ some u → u.id ≡ k)
    → OwnerFits b o s.objects s.mutex_blocked
    → (k : ℕ) × (o ≡ some k) × (owner_id o s ≡ ok k s)
unfolding owner_id
owner_known false o s e ids h = cc
owner_known true none s e ids h = absurd h
owner_known true (some k) s e ids h = elim (Option-cases (s.objects k)) [
  | inl n ↦ absurd (h.0 n)
  | inr (u, q) ↦ (k, refl, get_id-eq k s u q (ids k u q))
]

pub owner_id-eq :
    {runs : ℕ → ℕ} {stale : ℕ → Bool} {r : ℕ} {m : Bool} {s : State}
    → Inside runs stale r m s
    → s.mutex.blocked ≡ true
    → (k : ℕ) × (s.mutex.thread_block ≡ some k) × (owner_id s.mutex.thread_block s ≡ ok k s)
owner_id-eq {s = s} inv held =
    owner_known s.mutex.blocked s.mutex.thread_block s held
      (λ k u e. ground (arith, inv.placed k, e)) inv.owned

module _ (os : Os) where
  pub fail_with-Ensures :
      (Q : Control → State → Type 0) (e : LibraryError) {s : State}
      → Inv s
      → ((t : State) → Inv t → Q (returns failure) t)
      → Ensures Q (fail_with os e s)
  unfolding print_errors
  fail_with-Ensures Q e {s} inv h = leave_with-Ensures os Q (returns failure) _ inv.alarms (
      h _ (record {
        placed = inv.placed;
        envs = inv.envs;
        owned = inv.owned;
        known = inv.known;
        here = refl;
        mask = refl;
        alarms = inv.alarms;
      }))

  lock_held-Locks :
      {s : State}
      → IsOrdering os
      → s.masked ≡ true
      → s.mutex.blocked ≡ true
      → MayLock s
      → Inv s
      → Ensures Locks (lock_held os s.running s)
  unfolding lock_held
  lock_held-Locks {s} ord m held may inv =
      let (k, o, e) = owner_id-eq inv held in
      step-Ensures Locks (owner_id s.mutex.thread_block) _ s e (
        step-Ensures Locks (get_id s.running) _ s (running_id inv)
          (elim (Bool-cases (k == s.running)) [
            | inl same ↦ rw same (fail_with-Ensures Locks _ inv (λ t i. ((i, tt), tt)))
            | inr other ↦ rw other (
                Ensures-mono Jumped Locks _
                  (switch_mutex_blocked-Jumped os ord m (may held (ground (arith, o, other))) held
                    (ground (arith, o, other)) inv)
                  Jumped-Locks)
          ]))

  pub lock_free-Locks :
      {s : State} → s.mutex.blocked ≡ false → Inv s → Ensures Locks (lock_free os s.running s)
  unfolding lock_free
  lock_free-Locks {s} free inv = leave_with-Ensures os Locks (returns success) _ inv.alarms (
    (
      record {
        placed = inv.placed;
        envs = λ j h. ground (arith, inv.envs j h, inv.owned, free);
        owned = ground (arith, inv.owned, free, inv.placed s.running, inv.known s.running);
        known = inv.known;
        here = refl;
        mask = refl;
        alarms = inv.alarms;
      },
      tt,
    ),
    (refl, refl),
  )

  -- Under the invariant, and with a next thread if the caller has to wait, `uthread_mutex_lock` is never
  -- undefined; unless the process exits, the invariant holds after it, and if it returns a number that is
  -- not negative, the caller has the mutex.
  pub uthread_mutex_lock-Locks :
      {s : State} → IsOrdering os → MayLock s → Inv s → Ensures Locks (uthread_mutex_lock os s)
  unfolding uthread_mutex_lock
  uthread_mutex_lock-Locks {s} ord may inv =
      block-Ensures os Locks _ s inv.alarms (elim (Bool-cases s.mutex.blocked) [
        | inl held ↦
            subst
              (λ b. Ensures Locks (
                (if b then lock_held os s.running else lock_free os s.running)
                  (record s { masked = true })))
              (sym held) (lock_held-Locks ord refl held may (remask true inv))
        | inr free ↦
            subst
              (λ b. Ensures Locks (
                (if b then lock_held os s.running else lock_free os s.running)
                  (record s { masked = true })))
              (sym free) (lock_free-Locks free (remask true inv))
      ])

  unlock_held-After :
      {s : State} → s.mutex.blocked ≡ true → Inv s → Ensures After (unlock_held os s)
  unfolding unlock_held
  unlock_held-After {s} held inv =
      let (k, o, e) = owner_id-eq inv held in
      step-Ensures After (get_id s.running) _ s (running_id inv) (
        step-Ensures After (owner_id s.mutex.thread_block) _ s e
          (elim (Bool-cases (s.running == k)) [
            | inl mine ↦ rw mine (
                step-Ensures After mutex_unblock_random_thread _ s
                  (mutex_unblock_random_thread-eq inv)
                  (let left = released-Inside inv k mine o in
                    leave_with-Ensures os After (returns success) (released s) left.alarms
                      (remask false (Inside-Inv left), tt)))
            | inr other ↦ rw other (fail_with-Ensures After _ inv (λ t i. (i, tt)))
          ]))

  pub uthread_mutex_unlock-After : {s : State} → Inv s → Ensures After (uthread_mutex_unlock os s)
  unfolding uthread_mutex_unlock
  uthread_mutex_unlock-After {s} inv =
      block-Ensures os After _ s inv.alarms (elim (Bool-cases s.mutex.blocked) [
        | inl held ↦
            subst
              (λ b. Ensures After (
                (if b then unlock_held os else fail_with os mutex_already_unblocked)
                  (record s { masked = true })))
              (sym held) (unlock_held-After held (remask true inv))
        | inr free ↦
            subst
              (λ b. Ensures After (
                (if b then unlock_held os else fail_with os mutex_already_unblocked)
                  (record s { masked = true })))
              (sym free) (fail_with-Ensures After _ (remask true inv) (λ t i. (i, tt)))
      ])
