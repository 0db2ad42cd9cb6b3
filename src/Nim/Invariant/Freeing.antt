-- ===== src/Nim/Invariant/Freeing.antt =====
-- `uthread_terminate` keeps the invariant, if there is a next thread for the one that ends itself.
use user_level_threads_libra.Prelude.{
  ℕ, ◌+◌, ◌==◌, ◌≡◌, ◌≢◌, refl, sym, subst, inl, inr, Bool, true, false, ◌||◌, if◌then◌else◌,
  Option, none, some, List, [], ◌∷◌, one_at, count, contains, erase, count-erase, Bool-cases, arith,
}
use user_level_threads_libra.Effects.{Ensures, step-Ensures, bind-eq}
use user_level_threads_libra.Uthreads.State.{ITimerVal, update}
use user_level_threads_libra.Nim.State.{Os, State, Thread}
use user_level_threads_libra.Nim.Process.{ok, ◌>>=◌, return}
use user_level_threads_libra.Nim.Mutex.{owner_id, mutex_unblock_random_thread}
use user_level_threads_libra.Nim.Api.{find_ideque, free_thread, release_mutex_of}
use user_level_threads_libra.Nim.Invariant.Defs.{Inside, Inv, Chosen, OwnerFits}
use user_level_threads_libra.Nim.Invariant.Steps.{Inside-Inv, OwnerFits-mono}
use user_level_threads_libra.Nim.Invariant.Release.{
  released_to, first_unblocked-count, released-Inside, mutex_unblock_random_thread-eq,
}
use user_level_threads_libra.Nim.Invariant.Locking.{owner_id-eq}
use user_level_threads_libra.Nim.Invariant.Blocking.{find_ideque-eq, ready_thread}

-- The environments of the running thread and of the thread `tid` are not to be used.
abbrev pub either : ℕ → ℕ → ℕ → Bool
either r tid k = (r == k) || (tid == k)

-- Before `freeThread`: the thread `tid` does not have the mutex, and there is a next thread if it runs.
abbrev pub Ending : ℕ → ℕ → State → Type 0
Ending r tid t =
    Inside (one_at r) (either r tid) r true t
    × (t.mutex.thread_block ≢ some tid)
    × (tid ≡ r → t.ready ≢ [])

released_to-others :
    (tid : ℕ) (ws : List ℕ) (s : State)
    → count tid ws ≡ 0
    → ((released_to ws s).mutex.thread_block ≢ some tid)
      × (s.ready ≢ [] → (released_to ws s).ready ≢ [])
released_to-others tid [] s h = (λ e. cc, λ n. n)
released_to-others tid (p ∷ ps) s h = (
  λ e. ground (arith, e, first_unblocked-count s.blocked (p ∷ ps) p),
  λ n e. ground (arith, n, e),
)

not_owner :
    (b : Bool) (o : Option ℕ) (f : ℕ → Option Thread) (m : List ℕ) (tid : ℕ)
    → b ≡ false
    → OwnerFits b o f m
    → o ≢ some tid
not_owner false none f m tid e h q = cc
not_owner false (some k) f m tid e h q = h
not_owner true o f m tid e h q = cc

-- The state after `freeThread`, and the one in which the object is deleted besides.
abbrev pub freed : ℕ → State → State
freed tid t = record t {
  all_threads = erase tid t.all_threads;
  blocked = update t.blocked tid false;
  ready = if contains tid t.ready then erase tid t.ready else t.ready;
  mutex_blocked = erase tid t.mutex_blocked;
}

abbrev pub gone : ℕ → State → State
gone tid t = record t { objects = update t.objects tid none }

pub free_thread-eq :
    (tid : ℕ) {r : ℕ} {t : State}
    → Inside (one_at r) (either r tid) r true t
    → free_thread tid t ≡ ok tt (freed tid t)
unfolding free_thread
free_thread-eq tid {r} {t} inv =
    let start : State = record t {
      all_threads = erase tid t.all_threads;
      blocked = update t.blocked tid false;
    } in
    bind-eq (find_ideque tid t.ready) _ start (find_ideque-eq tid t.ready start (ready_thread inv))
      (elim (Bool-cases (contains tid t.ready)) [ inl e ↦ rw e | inr e ↦ rw e ])

module _ (os : Os) where
  pub release_mutex_of-Ending :
      (tid : ℕ) {r : ℕ} {s : State}
      → (tid ≡ r → s.ready ≢ [])
      → Inside (one_at r) (either r tid) r true s
      → Ensures (λ _. Ending r tid) (release_mutex_of os tid s)
  unfolding release_mutex_of
  release_mutex_of-Ending tid {r} {s} next inv = elim (Bool-cases s.mutex.blocked) [
    | inr free ↦
        subst
          (λ b.
            Ensures (λ _. Ending r tid)
              ((if b
                  then (owner_id s.mutex.thread_block >>= λ owner.
                      if tid == owner then mutex_unblock_random_thread else return tt)
                  else return tt)
                s))
          (sym free)
          (
            inv,
            not_owner s.mutex.blocked s.mutex.thread_block s.objects s.mutex_blocked tid free
                inv.owned,
            next,
          )
    | inl held ↦
        let (k, o, e) = owner_id-eq inv held in
        subst
          (λ b.
            Ensures (λ _. Ending r tid)
              ((if b
                  then (owner_id s.mutex.thread_block >>= λ owner.
                      if tid == owner then mutex_unblock_random_thread else return tt)
                  else return tt)
                s))
          (sym held)
          (step-Ensures (λ _. Ending r tid) (owner_id s.mutex.thread_block) _ s e
            (elim (Bool-cases (tid == k)) [
              | inl mine ↦
                  rw (mine, mutex_unblock_random_thread-eq inv)
                    (let (a, b) =
                        released_to-others tid s.mutex_blocked s
                          (ground (arith, inv.owned, held, o, mine)) in
                      (released-Inside inv k (ground (arith, mine)) o, a, λ q. b (next q)))
              | inr other ↦ rw other (inv, ground (arith, o, other), next)
            ]))
  ]

module _ (tid r : ℕ) (t0 : tid ≢ 0) {t : State} (here : t.objects tid ≢ none)
    (end : Ending r tid t) where
  inv : Inside (one_at r) (either r tid) r true t
  inv = end.0

  owned_after :
      OwnerFits t.mutex.blocked t.mutex.thread_block
        (update t.objects tid none)
        (erase tid t.mutex_blocked)
  unfolding erase
  owned_after =
      OwnerFits-mono t.mutex.blocked t.mutex.thread_block t.objects (update t.objects tid none)
        t.mutex_blocked (erase tid t.mutex_blocked) (λ b e. rw e)
        (λ k o live z.
          (ground (arith, o, end.1, live), ground (arith, count-erase k tid t.mutex_blocked, z)))
        inv.owned

  -- Another thread has ended.
  pub other-Inv : tid ≢ r → Inv (record (gone tid (freed tid t)) { masked = false })
  other-Inv ne = Inside-Inv {r = r} (record {
    placed = λ k. ground (
      arith,
      ne,
      t0,
      inv.placed k,
      inv.placed tid,
      count-erase k tid t.all_threads,
      count-erase k tid t.ready,
      count-erase k tid t.mutex_blocked,
    );
    envs = λ k h. ground (arith, inv.envs k, h, count-erase k tid t.mutex_blocked);
    owned = owned_after;
    known = λ k h. ground (arith, inv.known k, h, ne);
    here = inv.here;
    mask = refl;
    alarms = inv.alarms;
  })

  -- The running thread has ended, and the next one is chosen.
  pub next-Chosen :
      (p w : ℕ) (rest : List ℕ) (u : Thread) (v : ITimerVal) (a : Bool)
      → tid ≡ r
      → w ≡ tid
      → t.ready ≡ p ∷ rest
      → Chosen true (record (freed tid t) {
        objects = update (update t.objects w (some u)) tid none;
        running = p;
        ready = rest;
        timer = v;
        armed = a;
        total_quantum = t.total_quantum + 1;
      })
  next-Chosen p w rest u v a e same q = record {
    placed = λ k. ground (
      arith,
      e,
      same,
      q,
      t0,
      inv.placed k,
      inv.placed tid,
      count-erase k tid t.all_threads,
      count-erase k tid t.mutex_blocked,
    );
    envs = λ k h. ground (arith, inv.envs k, e, same, count-erase k tid t.mutex_blocked);
    owned =
        OwnerFits-mono t.mutex.blocked t.mutex.thread_block (update t.objects tid none) _
          (erase tid t.mutex_blocked) _ (λ b n. n) (λ k o live z. (ground (arith, live, same), z))
          owned_after;
    known = λ k h. absurd (cc);
    here = refl;
    mask = inv.mask;
    alarms = inv.alarms;
  }
