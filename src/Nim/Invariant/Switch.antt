-- ===== src/Nim/Invariant/Switch.antt =====
-- `switchThread` keeps the invariant, if there is a next thread, and jumps where it may.
use user_level_threads_libra.Prelude.{
  ℕ, ◌+◌, ◌==◌, ◌≡◌, ◌≢◌, refl, subst, inl, inr, Bool, true, false, if◌then◌else◌, Option, none,
  some, List, [], ◌∷◌, ◌++◌, one_at, count, count-snoc, contains, Option-cases, ==-refl, arith,
}
use user_level_threads_libra.Effects.{Ensures, bind-Ensures, step-Ensures, bind-eq}
use user_level_threads_libra.Uthreads.State.{update}
use user_level_threads_libra.Nim.State.{
  Os, State, Thread, States, Point, ready, blocked, mutex_blocked, in_handler, in_block, in_lock,
  in_constructor, at_entry, in_terminate,
}
use user_level_threads_libra.Nim.Process.{M, ok, ◌>>=◌, get_id, at_object, push_back}
use user_level_threads_libra.Nim.Scheduler.{
  insert_key, add_blocked, add_mutex_blocked, save_env, choose_next, start_thread, jump_to,
  move_out, switch_out, switch_thread,
}
use user_level_threads_libra.Nim.Invariant.Defs.{
  IsOrdering, Inside, Inv, Resumable, LockFits, EnvFits, Owns, nobody, Chosen, Jumped,
}
use user_level_threads_libra.Nim.Invariant.Steps.{
  OwnerFits-mono, count-insert_key, get_id-eq, choose_next-Chosen,
}

pub at_object-eq :
    (p : ℕ) (f : Thread → Thread) (s : State) (u : Thread)
    → s.objects p ≡ some u
    → at_object p f s ≡ ok tt (record s { objects = update s.objects p (some (f u)) })
unfolding at_object
at_object-eq p f s u e = rw (e, at_object)

Owns-of : (pt : Point) (r : ℕ) (o : Option ℕ) → LockFits pt 0 r o → Owns pt r o
Owns-of in_constructor r o h = tt
Owns-of (at_entry sp pc) r o h = tt
Owns-of in_handler r o h = tt
Owns-of in_block r o h = tt
Owns-of in_lock r o h = ground arith
Owns-of in_terminate r o h = tt

pub snoc-cons : (xs : List ℕ) (x : ℕ) → (p : ℕ) × (rest : List ℕ) × (xs ++ x ∷ [] ≡ p ∷ rest)
snoc-cons [] x = (x, [], refl)
snoc-cons (y ∷ ys) x = (y, ys ++ x ∷ [], refl)

pub non_empty : (xs : List ℕ) → xs ≢ [] → (p : ℕ) × (rest : List ℕ) × (xs ≡ p ∷ rest)
non_empty [] n = absurd (n refl)
non_empty (y ∷ ys) n = (y, ys, refl)

-- The chosen thread starts a quantum.
pub start_thread-Jumped : {m : Bool} {s : State} → Chosen m s → Ensures Jumped (start_thread s)
unfolding start_thread jump_to
start_thread-Jumped {m} {s} inv = elim (Option-cases (s.objects s.running)) [
  | inl n ↦ absurd (ground (arith, inv.placed s.running, n))
  | inr (u, e) ↦
      let w : count s.running s.mutex_blocked ≡ 0 = ground (arith, inv.placed s.running, e) in
      let env =
        subst (λ o. EnvFits o (count s.running s.mutex_blocked) s.running s.mutex.thread_block) e
          (inv.envs s.running refl) in
      step-Ensures Jumped (at_object s.running _) _ s (at_object-eq s.running _ s u e) (
        rw (==-refl s.running) (
          record {
            placed = λ k. ground (arith, inv.placed k, e);
            envs = λ k h. ground (arith, inv.envs k, e);
            owned = ground (arith, inv.owned, e);
            known = λ k h. ground (arith, e);
            here = refl;
            mask = refl;
            alarms = inv.alarms;
          },
          (
            env.0,
            Owns-of u.env.point s.running s.mutex.thread_block
                (subst (λ w. LockFits u.env.point w s.running s.mutex.thread_block) w env.1),
          ),
        ))
]

module _ (os : Os) where
  -- What is left of `switchThread` when the leaving thread has been put into its container.
  finish : Bool → ℕ → Point → M (Unit {0})
  finish b r pt = save_env r pt >>= λ _. choose_next os b

  finish-Chosen :
      (b : Bool) (r : ℕ) (pt : Point) (p : ℕ) (rest : List ℕ) {m : Bool} {s : State}
      → s.ready ≡ p ∷ rest
      → Resumable pt m
      → LockFits pt (count r s.mutex_blocked) r s.mutex.thread_block
      → s.objects r ≢ none
      → Inside nobody (λ t. r == t) r m s
      → Ensures (λ _. Chosen m) (finish b r pt s)
  unfolding finish save_env
  finish-Chosen b r pt p rest {m} {s} e may lock live inv = elim (Option-cases (s.objects r)) [
    | inl n ↦ absurd (live n)
    | inr (u, q) ↦
        step-Ensures (λ _. Chosen m) (save_env r pt) (λ _. choose_next os b) s
          (at_object-eq r _ s u q)
          (choose_next-Chosen os b p rest e (record {
            placed = λ k. ground (arith, inv.placed k, q);
            envs = λ k h. ground (arith, inv.envs k, may, lock, inv.mask);
            owned = ground (arith, inv.owned, q);
            known = λ k h. absurd (cc);
            here = inv.here;
            mask = inv.mask;
            alarms = inv.alarms;
          }))
  ]

  -- A switch by the state in which the leaving thread is put away.
  module _ (s t : State) {p : ℕ} {rest : List ℕ} {m : Bool} (e : t.ready ≡ p ∷ rest)
      (live : t.objects s.running ≢ none)
      (away : Inside nobody (λ k. s.running == k) s.running m t) where
    pub switch_out-Chosen :
        (mv : States) (b : Bool) (pt : Point)
        → move_out os mv s.running s ≡ ok tt t
        → Resumable pt m
        → LockFits pt (count s.running t.mutex_blocked) s.running t.mutex.thread_block
        → Ensures (λ _. Chosen m) (switch_out os mv b pt s)
    unfolding switch_out finish
    switch_out-Chosen mv b pt go may lock =
        step-Ensures (λ _. Chosen m) (move_out os mv s.running) (λ _. finish b s.running pt) s go
          (finish-Chosen b s.running pt p rest e may lock live away)

    pub switch_thread-Jumped :
        (mv : States) (b : Bool) (pt : Point)
        → move_out os mv s.running s ≡ ok tt t
        → Resumable pt m
        → LockFits pt (count s.running t.mutex_blocked) s.running t.mutex.thread_block
        → Ensures Jumped (switch_thread os mv b true pt s)
    unfolding switch_thread
    switch_thread-Jumped mv b pt go may lock =
        bind-Ensures (λ _. Chosen m) Jumped (switch_out os mv b pt) (λ _. start_thread) s
          (switch_out-Chosen mv b pt go may lock) (λ _ q c. start_thread-Jumped c)

  pub switch_ready-Jumped :
      {s : State}
      → s.masked ≡ true
      → Inv s
      → Ensures Jumped (switch_thread os ready false true in_handler s)
  unfolding move_out push_back
  switch_ready-Jumped {s} k inv =
      let (p, rest, e) = snoc-cons s.ready s.running in
      switch_thread-Jumped s (record s { ready = s.ready ++ s.running ∷ [] }) e
        (inv.known s.running (==-refl s.running))
        (record {
          placed = λ j.
              ground (arith, inv.placed j, count-snoc j s.ready s.running, inv.known s.running);
          envs = inv.envs;
          owned = inv.owned;
          known = inv.known;
          here = refl;
          mask = k;
          alarms = inv.alarms;
        })
        ready false in_handler refl refl (ground (arith, inv.placed s.running, inv.known s.running))

  pub switch_blocked-Jumped :
      {s : State}
      → s.masked ≡ true
      → s.running ≢ 0
      → s.ready ≢ []
      → Inv s
      → Ensures Jumped (switch_thread os blocked true true in_block s)
  unfolding move_out add_blocked
  switch_blocked-Jumped {s} k r0 n inv = elim (Option-cases (s.objects s.running)) [
    | inl z ↦ absurd (inv.known s.running (==-refl s.running) z)
    | inr (u, q) ↦
        let (p, rest, e) = non_empty s.ready n in
        switch_thread-Jumped s (record s { blocked = update s.blocked s.running true }) e
          (inv.known s.running (==-refl s.running))
          (record {
            placed = λ j. ground (arith, inv.placed j);
            envs = inv.envs;
            owned = inv.owned;
            known = inv.known;
            here = refl;
            mask = k;
            alarms = inv.alarms;
          })
          blocked true in_block
          (bind-eq (get_id s.running) add_blocked s
            (get_id-eq s.running s u q (ground (arith, inv.placed s.running, q))) refl)
          refl (ground (arith, inv.placed s.running, q))
  ]

  -- The running thread has put itself among the threads that wait for the mutex, and does so again.
  pub switch_mutex_blocked-Jumped :
      {s : State}
      → IsOrdering os
      → s.masked ≡ true
      → s.ready ≢ []
      → s.mutex.blocked ≡ true
      → s.mutex.thread_block ≢ some s.running
      → Inv s
      → Ensures Jumped (
          switch_thread os mutex_blocked true true in_lock
            (record s { mutex_blocked = insert_key os s.running s.mutex_blocked }))
  unfolding move_out add_mutex_blocked
  switch_mutex_blocked-Jumped {s} ord k n held other inv =
      elim (Option-cases (s.objects s.running)) [
        | inl z ↦ absurd (inv.known s.running (==-refl s.running) z)
        | inr (u, q) ↦
            let (p, rest, e) = non_empty s.ready n in
            switch_thread-Jumped waiting
              (record waiting { mutex_blocked = insert_key os s.running waiting.mutex_blocked }) e
              (inv.known s.running (==-refl s.running))
              (record {
                placed = λ j. ground (arith, inv.placed j, twice j, inv.placed s.running, q);
                envs = λ j h. ground (arith, inv.envs j h, twice j);
                owned =
                    OwnerFits-mono s.mutex.blocked s.mutex.thread_block s.objects s.objects
                      s.mutex_blocked _ (λ b n. cc)
                      (λ j o live z. (live, ground (arith, twice j, other, o, z))) inv.owned;
                known = inv.known;
                here = refl;
                mask = k;
                alarms = inv.alarms;
              })
              mutex_blocked true in_lock
              (bind-eq (get_id s.running) (add_mutex_blocked os) waiting
                (get_id-eq s.running waiting u q (ground (arith, inv.placed s.running, q))) refl)
              refl (ground (arith, twice s.running, inv.placed s.running, q))
      ]
    where
      waiting : State
      waiting = record s { mutex_blocked = insert_key os s.running s.mutex_blocked }

      twice :
          (j : ℕ)
          → count j (insert_key os s.running (insert_key os s.running s.mutex_blocked)) ≡ (
              if contains s.running s.mutex_blocked
              then count j s.mutex_blocked
              else count j s.mutex_blocked + one_at s.running j)
      twice j = ground (
        arith,
        count-insert_key os j s.running s.mutex_blocked ord,
        count-insert_key os s.running s.running s.mutex_blocked ord,
        count-insert_key os j s.running (insert_key os s.running s.mutex_blocked) ord,
      )
