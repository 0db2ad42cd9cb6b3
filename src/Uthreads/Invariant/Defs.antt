-- ===== src/Uthreads/Invariant/Defs.antt =====
-- The invariant of the library, with ghost parameters for the states inside a switch.
use user_level_threads_libra.Prelude.{
  ℕ, ◌+◌, ◌<◌, ◌==◌, ltb, if◌then◌else◌, ◌≡◌, ◌≢◌, Bool, true, false, Option, none, some, List, [],
  ◌∷◌, count, one_at, IsAscending,
}
use user_level_threads_libra.Uthreads.State.{
  State, UThread, Status, Point, main, ready, running, blocked, asleep, terminated, max_thread_num,
  in_constructor, at_entry, in_handler, in_block, in_sleep, in_terminate,
}
pub use user_level_threads_libra.Effects.{Outcome, Ensures, Yields, Stays, Returns}

abbrev pub keys : List (ℕ × ℕ) → List ℕ
keys [] = []
keys ((k, v) ∷ m) = k ∷ keys m

-- What the status of thread `t` says: whether it runs, how often it stands in the ready queue and
-- among the sleepers, and whether it is in the set of blocked threads.
abbrev pub StatusFits : Status → ℕ → (runs queued sleeping : ℕ) → Bool → Type 0
StatusFits main t r q z b = (t ≡ 0) × (r ≡ 1) × (q ≡ 0) × (z ≡ 0) × (b ≡ false)
StatusFits running t r q z b = (r ≡ 1) × (q ≡ 0) × (z ≡ 0) × (b ≡ false)
StatusFits ready t r q z b = (r ≡ 0) × (q ≡ 1) × (z ≡ 0) × (b ≡ false)
StatusFits blocked t r q z b = (t ≢ 0) × (r ≡ 0) × (q ≡ 0) × (z ≡ 0) × (b ≡ true)
StatusFits asleep t r q z b = (t ≢ 0) × (r ≡ 0) × (q ≡ 0) × (z ≡ 1)
StatusFits terminated t r q z b = ⊥

-- An id without a thread is in no container but the set of free ids, unless it is out of range. The
-- main thread always exists.
abbrev pub Fits : ℕ → Option UThread → (runs queued sleeping : ℕ) → Bool → ℕ → Type 0
Fits t none r q z b f =
    (t ≢ 0)
    × (r ≡ 0)
    × (q ≡ 0)
    × (z ≡ 0)
    × (b ≡ false)
    × (f ≡ (if ltb t max_thread_num then 1 else 0))
Fits t (some u) r q z b f =
    (u.tid ≡ t) × (t < max_thread_num) × (f ≡ 0) × StatusFits u.status t r q z b

-- A context to which `siglongjmp` may go, with the mask that was saved there.
abbrev pub Resumable : Point → Bool → Type 0
Resumable in_constructor m = ⊥
Resumable (at_entry sp pc) m = m ≡ false
Resumable in_handler m = m ≡ true
Resumable in_block m = m ≡ true
Resumable in_sleep m = m ≡ true
Resumable in_terminate m = ⊥

abbrev pub EnvFits : Option UThread → Type 0
EnvFits none = Unit {0}
EnvFits (some u) = Resumable u.env.point u.env.mask

-- `runs` counts who runs, the contexts of the `stale` threads are not to be used, and `es` are the
-- sleepers that `update_sleepers` has not reached yet.
pub record Inside (runs : ℕ → ℕ) (stale : ℕ → Bool) (es : List (ℕ × ℕ)) (r : ℕ) (m : Bool)
    (s : State) : Type 0 where
  pub placed :
      (t : ℕ)
      → Fits t
          (s.all_threads t)
          (runs t)
          (count t s.ready_tids)
          (count t (keys s.sleepers) + count t (keys es))
          (s.blocked_tids t)
          (count t s.free_ids)
  pub envs : (t : ℕ) → stale t ≡ false → EnvFits (s.all_threads t)
  pub known : (t : ℕ) → stale t ≡ true → s.all_threads t ≢ none
  pub here : s.running_tid ≡ r
  pub mask : s.masked ≡ m
  pub ascending : IsAscending s.free_ids

-- The invariant between two calls: one thread runs, and its own saved context is out of date.
abbrev pub Inv : State → Type 0
Inv s = Inside (one_at s.running_tid) (λ t. s.running_tid == t) [] s.running_tid s.masked s
