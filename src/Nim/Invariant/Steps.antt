-- ===== src/Nim/Invariant/Steps.antt =====
-- The single steps: the signal mask, the timer, the accesses through a pointer.
use user_level_threads_libra.Prelude.{
  ℕ, ◌+◌, ◌==◌, ◌≡◌, ◌≢◌, refl, sym, subst, Bool, true, false, if◌then◌else◌, Option, none, some,
  List, [], ◌∷◌, one_at, count, contains, arith,
}
use user_level_threads_libra.Effects.{Ensures, bind-Ensures, step-Ensures}
use user_level_threads_libra.Uthreads.State.{ITimerVal}
use user_level_threads_libra.Uthreads.Signals.{quantum_timer}
use user_level_threads_libra.Nim.State.{
  Os, State, Thread, Message, SystemError, timer_library_error,
}
use user_level_threads_libra.Nim.Process.{
  M, ok, ◌>>=◌, ◌>>◌, return, modify, die_if, system_error, get_id,
}
use user_level_threads_libra.Nim.Signals.{block, unblock, run_timer}
use user_level_threads_libra.Nim.Scheduler.{
  Control, insert_key, run_front, next_thread, count_quantum, choose_next,
}
use user_level_threads_libra.Nim.Mutex.{leave_with}
use user_level_threads_libra.Nim.Invariant.Defs.{
  IsOrdering, Inside, Inv, OwnerFits, nobody, fresh, Chosen,
}

pub count-insert_key :
    (os : Os) (k x : ℕ) (m : List ℕ)
    → IsOrdering os
    → count k (insert_key os x m) ≡ (if contains x m then count k m else count k m + one_at x k)
unfolding insert_key
count-insert_key os k x m ord = ground (arith, ord k (x ∷ m))

die_if-Ensures :
    {A : Type 0} (Q : A → State → Type 0) (b : Bool) (e : SystemError) (f : Unit {0} → M A)
    (s : State)
    → Ensures Q (f tt s)
    → Ensures Q ((die_if b e >>= f) s)
unfolding die_if system_error
die_if-Ensures Q true e f s h = tt
die_if-Ensures Q false e f s h = h

pub get_id-eq :
    (p : ℕ) (s : State) (u : Thread) → s.objects p ≡ some u → u.id ≡ p → get_id p s ≡ ok p s
unfolding get_id
get_id-eq p s u e i = ground arith

pub remask : {s : State} (b : Bool) → Inv s → Inv (record s { masked = b })
remask b inv = record {
  placed = inv.placed;
  envs = inv.envs;
  owned = inv.owned;
  known = inv.known;
  here = refl;
  mask = refl;
  alarms = inv.alarms;
}

-- A line on std::cerr.
pub logged :
    {s : State} (b : Bool) (c : List Message) → Inv s → Inv (record s { masked = b; cerr = c })
logged b c inv = record {
  placed = inv.placed;
  envs = inv.envs;
  owned = inv.owned;
  known = inv.known;
  here = refl;
  mask = refl;
  alarms = inv.alarms;
}

-- The owner of the mutex still exists, and does not wait.
pub OwnerFits-mono :
    (b : Bool) (o : Option ℕ) (f g : ℕ → Option Thread) (m m' : List ℕ)
    → (b ≡ false → m ≡ [] → m' ≡ [])
    → ((k : ℕ) → o ≡ some k → f k ≢ none → count k m ≡ 0 → (g k ≢ none) × (count k m' ≡ 0))
    → OwnerFits b o f m
    → OwnerFits b o g m'
OwnerFits-mono false none f g m m' e h w = e refl w
OwnerFits-mono false (some k) f g m m' e h w = w
OwnerFits-mono true none f g m m' e h w = w
OwnerFits-mono true (some k) f g m m' e h w = h k refl w.0 w.1

pub Inside-Inv : {r : ℕ} {m : Bool} {s : State} → Inside (one_at r) (λ t. r == t) r m s → Inv s
Inside-Inv {r} {m} {s} inv =
    subst (λ k. Inside (one_at k) (λ t. k == t) k s.masked s) (sym inv.here)
      (subst (λ b. Inside (one_at r) (λ t. r == t) r b s) (sym inv.mask) inv)

pub next_thread-eq :
    (p : ℕ) (rest : List ℕ) (s : State)
    → s.ready ≡ p ∷ rest
    → next_thread s ≡ ok tt (record s { running = p; ready = rest })
unfolding next_thread run_front
next_thread-eq p rest s e = ground (arith, e)

module _ (os : Os) where
  pub block-Ensures :
      {A : Type 0} (Q : A → State → Type 0) (f : Unit {0} → M A) (s : State)
      → s.set ≡ true
      → Ensures Q (f tt (record s { masked = true }))
      → Ensures Q ((block os >>= f) s)
  unfolding block die_if system_error
  block-Ensures Q f s e h = ground (arith, h, e)

  pub unblock-Ensures :
      {A : Type 0} (Q : A → State → Type 0) (f : Unit {0} → M A) (s : State)
      → s.set ≡ true
      → Ensures Q (f tt (record s { masked = false }))
      → Ensures Q ((unblock os >>= f) s)
  unfolding unblock die_if system_error
  unblock-Ensures Q f s e h = ground (arith, h, e)

  -- The end of a call that does not switch.
  pub leave_with-Ensures :
      (Q : Control → State → Type 0) (c : Control) (s : State)
      → s.set ≡ true
      → Q c (record s { masked = false })
      → Ensures Q (leave_with os c s)
  leave_with-Ensures Q c s e h = unblock-Ensures Q (λ _. return c) s e h

  timed :
      (P : State → Type 0) (b : Bool) (s : State)
      → ((v : ITimerVal) (a : Bool)
          → P (record s { timer = v; armed = a; total_quantum = s.total_quantum + 1 }))
      → Ensures (λ _. P) (((if b then run_timer os else return tt) >> count_quantum) s)
  unfolding run_timer
  timed P false s next = next s.timer s.armed
  timed P true s next =
      bind-Ensures (λ _ t. P (record t { total_quantum = t.total_quantum + 1 })) (λ _. P)
        (run_timer os) (λ _. count_quantum) s
        (die_if-Ensures (λ _ t. P (record t { total_quantum = t.total_quantum + 1 }))
          (os.setitimer_fails (quantum_timer s.quantum_time)) timer_library_error
          (λ _. modify (λ s. record s { armed = true }))
          (record s { timer = quantum_timer s.quantum_time })
          (next (quantum_timer s.quantum_time) true))
        (λ _ t h. h)

  pub choose_next-Ensures :
      (P : State → Type 0) (b : Bool) (p : ℕ) (rest : List ℕ) (s : State)
      → s.ready ≡ p ∷ rest
      → ((v : ITimerVal) (a : Bool)
          → P (record s {
            running = p;
            ready = rest;
            timer = v;
            armed = a;
            total_quantum = s.total_quantum + 1;
          }))
      → Ensures (λ _. P) (choose_next os b s)
  unfolding choose_next
  choose_next-Ensures P b p rest s e next =
      step-Ensures (λ _. P) next_thread _ s (next_thread-eq p rest s e)
        (timed P b (record s { running = p; ready = rest }) next)

  pub choose_next-Chosen :
      (b : Bool) (p : ℕ) (rest : List ℕ) {r : ℕ} {m : Bool} {s : State}
      → s.ready ≡ p ∷ rest
      → Inside nobody fresh r m s
      → Ensures (λ _. Chosen m) (choose_next os b s)
  choose_next-Chosen b p rest {r} {m} {s} e inv = choose_next-Ensures (Chosen m) b p rest s e λ v a.
      record {
        placed = λ k. ground (arith, inv.placed k, e);
        envs = λ k h. inv.envs k refl;
        owned = inv.owned;
        known = λ k h. absurd (cc);
        here = refl;
        mask = inv.mask;
        alarms = inv.alarms;
      }
