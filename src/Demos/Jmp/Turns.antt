-- ===== src/Demos/Jmp/Turns.antt =====
-- The order in which the threads of demos/demo_jmp.c run, and what they print.
use user_level_threads_libra.Prelude.{
  ℕ, zero, suc, ◌+◌, ◌-◌, ◌*◌, ◌/◌, ◌%◌, ◌<◌, ltb, if◌then◌else◌, ◌≡◌, refl, sym, ap, ◌∙◌,
  Bool-cases, true, false, List, [], pos, arith, subst, ◌≤◌, inl, inr,
}
use user_level_threads_libra.Effects.{Returns, Returns-mono, bind-Outcome}
use user_level_threads_libra.Demos.Jmp.{
  update, EntryPoint, thread0, thread1, at_entry, State, loaded, Machine, IsSound, round, rounds,
  main, int_max, jump_to_thread, setup, setup_thread, stack_size, address_size,
}
use user_level_threads_libra.Demos.Jmp.Places.{
  countdown, printed, id_of, peer, Waits, Runs, Landed, counted, is_due, announced, parked,
}
use user_level_threads_libra.Demos.Jmp.Switch.{
  round-kept, round-parked, jump-Landed, kept-Runs, parked-Runs,
}

-- Who runs after `n` rounds, and how far the counters are.
abbrev Counts : EntryPoint → ℕ → (i j : ℕ) → Type 0
Counts thread0 n i j = (n % 8 < 3) × (i ≡ 3 * (n / 8) + n % 8) × (j ≡ 5 * (n / 8))
Counts thread1 n i j = (3 ≤ n % 8) × (i ≡ 3 * (n / 8) + 3) × (j + 3 ≡ 5 * (n / 8) + n % 8)

Counts-below : (f : EntryPoint) (n i j : ℕ) → Counts f n i j → (i ≤ n) × (j ≤ n)
Counts-below thread0 n i j h = ground arith
Counts-below thread1 n i j h = ground arith

Counts-kept :
    (f : EntryPoint) (n : ℕ) (s : State)
    → Counts f n (s.counter 0) (s.counter 1)
    → is_due f s ≡ false
    → Counts f (n + 1) ((counted f s).counter 0) ((counted f s).counter 1)
Counts-kept thread0 n s h e = ground arith
Counts-kept thread1 n s h e = ground arith

Counts-parked :
    (f : EntryPoint) (n : ℕ) (s : State)
    → Counts f n (s.counter 0) (s.counter 1)
    → is_due f s ≡ true
    → Counts (peer f) (n + 1) ((counted f s).counter 0) ((counted f s).counter 1)
Counts-parked thread0 n s h e = ground arith
Counts-parked thread1 n s h e = ground arith

-- What is seen after `n` rounds.
pub record After (n : ℕ) (s : State) : Type 0 where
  pub turn : s.current_thread ≡ (if ltb (n % 8) 3 then pos 0 else pos 1)
  pub former : s.counter 0 ≡ 3 * (n / 8) + (if ltb (n % 8) 3 then n % 8 else 3)
  pub latter : s.counter 1 ≡ 5 * (n / 8) + (if ltb (n % 8) 3 then 0 else n % 8 - 3)
  pub lines0 : printed thread0 s.acts ≡ countdown (s.counter 0)
  pub lines1 : printed thread1 s.acts ≡ countdown (s.counter 1)
  pub empty : s.mask ≡ []

-- Where the program is after `n` rounds.
abbrev At : Machine → ℕ → State → Type 0
At c n s = (f : EntryPoint) × Runs c f s × Counts f n (s.counter 0) (s.counter 1)

-- The state after `setup`.
abbrev prepared : Machine → List ℕ → State
prepared c m = record (loaded m) {
  env =
      update
        (update (loaded m).env 0 (record {
          point =
              at_entry (c.translate_address (c.stack 0 + stack_size - address_size))
                (c.translate_address (c.address thread0));
          saved_mask = [];
        }))
        1
        (record {
          point =
              at_entry (c.translate_address (c.stack 1 + stack_size - address_size))
                (c.translate_address (c.address thread1));
          saved_mask = [];
        });
}

module _ (c : Machine) (sound : IsSound c) where
  round-At : (n : ℕ) (s : State) → n < int_max → At c n s → Returns (λ _. At c (n + 1)) (round c s)
  round-At n s lt (f, h, k) = elim (Bool-cases (is_due f s)) [
    | inl due ↦ subst (Returns (λ _. At c (n + 1))) (sym (round-parked c f s h (below f k) due)) (
        Returns-mono (λ _ r. Landed (peer f) (parked f (announced f s)) r) (λ _. At c (n + 1)) _
          (jump-Landed c (peer f) _ sound (parked-Waits f s h))
          (λ _ r l. (peer f, parked-Runs c f s r h l, moved f r l (Counts-parked f n s k due))))
    | inr not ↦
        subst (Returns (λ _. At c (n + 1))) (sym (round-kept c f s h (below f k) not))
          (f, kept-Runs c f s h, Counts-kept f n s k not)
  ]
    where
      below :
          (f : EntryPoint) → Counts f n (s.counter 0) (s.counter 1) → s.counter (id_of f) < int_max
      below thread0 k = ground (arith, Counts-below thread0 n (s.counter 0) (s.counter 1) k)
      below thread1 k = ground (arith, Counts-below thread1 n (s.counter 0) (s.counter 1) k)

      parked-Waits :
          (f : EntryPoint) (s : State) → Runs c f s → Waits c (peer f) (parked f (announced f s))
      parked-Waits thread0 s h = h.waits
      parked-Waits thread1 s h = h.waits

      moved :
          (f : EntryPoint) (r : State)
          → Landed (peer f) (parked f (announced f s)) r
          → Counts (peer f) (n + 1) ((counted f s).counter 0) ((counted f s).counter 1)
          → Counts (peer f) (n + 1) (r.counter 0) (r.counter 1)
      moved f r l k = rw (l.same_counters.0, l.same_counters.1) k

  rounds-At : (n : ℕ) (s : State) → n ≤ int_max → At c 0 s → Returns (λ _. At c n) (rounds c n s)
  unfolding rounds
  rounds-At zero s le h = h
  rounds-At (suc n) s le h =
      bind-Outcome ⊥ ⊥ (λ _. At c n) (λ _. At c (suc n)) (rounds c n) (λ _. round c) s
        (rounds-At n s (omega arith) h)
        λ _ t k.
          subst (λ i. Returns (λ _. At c i) (round c t)) (omega arith)
            (round-At n t (omega arith) k)

  At-After : (n : ℕ) (s : State) → At c n s → After n s
  At-After n s (thread0, h, k) = record {
    turn = h.turn ∙ ground arith;
    former = ground arith;
    latter = ground arith;
    lines0 = h.lines.0;
    lines1 = h.lines.1;
    empty = h.empty;
  }
  At-After n s (thread1, h, k) = record {
    turn = h.turn ∙ ground arith;
    former = ground arith;
    latter = ground arith;
    lines0 = h.lines.0;
    lines1 = h.lines.1;
    empty = h.empty;
  }

  begun-At : (m : List ℕ) (r : State) → Landed thread0 (prepared c m) r → At c 0 r
  begun-At m r l = (
    thread0,
    record {
      turn = l.here;
      runs = l.in_frame;
      waits = inl (l.same_counters.1, _, ap (λ e. e 1) l.same_env);
      lines = (
        l.same_lines.0 ∙ ap countdown (sym l.same_counters.0),
        l.same_lines.1 ∙ ap countdown (sym l.same_counters.1),
      );
      empty = l.empty;
    },
    ground (arith, l.same_counters.0, l.same_counters.1),
  )

  -- If `siglongjmp` undoes the translation of addresses, `main` never runs into undefined behaviour in its
  -- first 2^31 - 1 rounds. After `n` rounds thread 0 runs if `n % 8 < 3`, and thread 1 otherwise; each has
  -- printed 1, 2, 3, … without a gap, three numbers of thread 0 for five of thread 1; and no signal is
  -- blocked, whatever mask the process began with.
  pub main-After : (m : List ℕ) (n : ℕ) → n ≤ int_max → Returns (λ _. After n) (main c n (loaded m))
  unfolding main setup setup_thread
  main-After m n le =
      Returns-mono (λ _. At c n) (λ _. After n) _
        (bind-Outcome ⊥ ⊥ (λ _ r. Landed thread0 (prepared c m) r) (λ _. At c n)
          (jump_to_thread c (pos 0)) (λ _. rounds c n) (prepared c m)
          (jump-Landed c thread0 (prepared c m) sound (inl (refl, _, refl)))
          λ _ r l. rounds-At n r le (begun-At m r l))
        (λ _. At-After n)
