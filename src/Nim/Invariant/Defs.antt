-- ===== src/Nim/Invariant/Defs.antt =====
-- The invariant of the library, with ghost parameters for the states inside a switch.
use user_level_threads_libra.Prelude.{
  ℕ, ◌+◌, ◌≤◌, ◌<◌, ◌==◌, ◌≡◌, ◌≢◌, ◌⊎◌, Bool, true, false, Option, none, some, List, [], count,
  one_at,
}
use user_level_threads_libra.Uthreads.State.{max_thread_num}
use user_level_threads_libra.Nim.State.{
  Os, State, Thread, Point, in_constructor, at_entry, in_handler, in_block, in_lock, in_terminate,
}
use user_level_threads_libra.Nim.Scheduler.{Control, returns, begins, goes_on, jumps}

-- The C++ library gives a map some order, with the same keys.
abbrev pub IsOrdering : Os → Type 0
IsOrdering os = (k : ℕ) (m : List ℕ) → count k (os.reorder m) ≡ count k m

-- A thread that is blocked neither runs nor is ready, and it may wait for the mutex besides. Any other
-- thread is at one place: it runs, or it stands in the ready queue, or it waits for the mutex.
abbrev pub Place : ℕ → (runs queued waits : ℕ) → Bool → Type 0
Place t r q w true = (t ≢ 0) × (r ≡ 0) × (q ≡ 0)
Place t r q w false = r + q + w ≡ 1

-- An id without an object is in no container. The main thread always exists.
abbrev pub Fits : ℕ → Option Thread → (runs queued waits : ℕ) → Bool → ℕ → Type 0
Fits t none r q w b a = (t ≢ 0) × (r ≡ 0) × (q ≡ 0) × (w ≡ 0) × (b ≡ false) × (a ≡ 0)
Fits t (some u) r q w b a = (u.id ≡ t) × (t < max_thread_num) × (a ≡ 1) × (w ≤ 1) × Place t r q w b

-- An environment to which `siglongjmp` may go, with the mask that was saved there.
abbrev pub Resumable : Point → Bool → Type 0
Resumable in_constructor m = ⊥
Resumable (at_entry sp pc) m = m ≡ false
Resumable in_handler m = m ≡ true
Resumable in_block m = m ≡ true
Resumable in_lock m = m ≡ true
Resumable in_terminate m = ⊥

-- A thread that was saved in `uthread_mutex_lock` waits for the mutex or has it; the others do not wait.
abbrev pub LockFits : Point → (waits : ℕ) → ℕ → Option ℕ → Type 0
LockFits in_lock w t o = (0 < w) ⊎ (o ≡ some t)
LockFits _ w t o = w ≡ 0

abbrev pub EnvFits : Option Thread → (waits : ℕ) → ℕ → Option ℕ → Type 0
EnvFits none w t o = Unit {0}
EnvFits (some u) w t o = Resumable u.env.point u.env.mask × LockFits u.env.point w t o

-- Somebody waits only for a mutex that is held, and its owner exists and does not wait.
abbrev pub OwnerFits : Bool → Option ℕ → (ℕ → Option Thread) → List ℕ → Type 0
OwnerFits false none f m = m ≡ []
OwnerFits false (some _) f m = ⊥
OwnerFits true none f m = ⊥
OwnerFits true (some o) f m = (f o ≢ none) × (count o m ≡ 0)

-- `runs` counts who runs, and the environments of the `stale` threads are not to be used.
pub record Inside (runs : ℕ → ℕ) (stale : ℕ → Bool) (r : ℕ) (m : Bool) (s : State) : Type 0 where
  pub placed :
      (t : ℕ)
      → Fits t
          (s.objects t)
          (runs t)
          (count t s.ready)
          (count t s.mutex_blocked)
          (s.blocked t)
          (count t s.all_threads)
  pub envs :
      (t : ℕ)
      → stale t ≡ false
      → EnvFits (s.objects t) (count t s.mutex_blocked) t s.mutex.thread_block
  pub owned : OwnerFits s.mutex.blocked s.mutex.thread_block s.objects s.mutex_blocked
  pub known : (t : ℕ) → stale t ≡ true → s.objects t ≢ none
  pub here : s.running ≡ r
  pub mask : s.masked ≡ m
  pub alarms : s.set ≡ true

-- The invariant between two calls.
abbrev pub Inv : State → Type 0
Inv s = Inside (one_at s.running) (λ t. s.running == t) s.running s.masked s

abbrev pub nobody : ℕ → ℕ
nobody _ = 0

abbrev pub fresh : ℕ → Bool
fresh _ = false

-- The next thread has been chosen, and every environment may be used.
abbrev pub Chosen : Bool → State → Type 0
Chosen m s = Inside (one_at s.running) fresh s.running m s

abbrev pub Owns : Point → ℕ → Option ℕ → Type 0
Owns in_lock r o = o ≡ some r
Owns _ r o = Unit {0}

-- A jump goes to an environment that may be used; if that is in `uthread_mutex_lock`, the thread has
-- the mutex.
abbrev pub Arrives : Control → State → Type 0
Arrives (jumps pt) s = Resumable pt s.masked × Owns pt s.running s.mutex.thread_block
Arrives _ s = Unit {0}

-- After a call.
abbrev pub After : Control → State → Type 0
After c s = Inv s × Arrives c s

-- After a switch: control jumps.
abbrev pub Jumped : Control → State → Type 0
Jumped (jumps pt) s = After (jumps pt) s
Jumped _ s = ⊥

pub Jumped-After : (c : Control) (s : State) → Jumped c s → After c s
Jumped-After (jumps pt) s h = h
Jumped-After (returns n) s h = absurd h
Jumped-After (begins sp pc) s h = absurd h
Jumped-After goes_on s h = absurd h
