-- ===== src/Demos/Jmp/Switch.antt =====
-- The switch of demos/demo_jmp.c: what a round does to the thread that runs and to the one that waits.
use user_level_threads_libra.Prelude.{
  ◌<◌, if◌then◌else◌, ◌≡◌, refl, sym, ap, ◌∙◌, true, false, some, [], pos, subst, inl, inr,
}
use user_level_threads_libra.Effects.{ok, Returns, bind-eq}
use user_level_threads_libra.Demos.Jmp.{
  act, ◌>>◌, EntryPoint, thread0, thread1, in_yield, Buffer, yielding, usleep, State, Machine,
  IsSound, round, int_max, loop_round, index, increment, yield, jump_to_thread, resume_at, begin,
  second,
}
use user_level_threads_libra.Demos.Jmp.Places.{
  countdown, countdown-next, id_of, peer, Waits, Runs, index-id_of, counted, increment-eq, is_due,
  slept, parked, announced, other-id_of, Landed, begun-Landed,
}

module _ (c : Machine) where
  round-eq :
      (f : EntryPoint) (s : State) → Runs c f s → round c s ≡ loop_round c (id_of f) (some f) s
  unfolding round
  round-eq f s h =
      bind-eq (index s.current_thread) _ s
        (subst (λ z. index z s ≡ ok (id_of f) s) (sym h.turn) (index-id_of f s))
        (ap (λ z. loop_round c (id_of f) z s) h.runs)

  pub round-kept :
      (f : EntryPoint) (s : State)
      → Runs c f s
      → s.counter (id_of f) < int_max
      → is_due f s ≡ false
      → round c s ≡ ok tt (slept (counted f s))
  unfolding loop_round
  round-kept f s h lt e =
      round-eq f s h
      ∙ bind-eq (increment (id_of f)) _ s (increment-eq (id_of f) s lt) (
          ap (λ b. (if b then (act (yielding f) >> yield c) else act (usleep second)) (counted f s))
            e)

  yield-eq :
      (f : EntryPoint) (s : State)
      → s.current_thread ≡ pos (id_of f)
      → yield c s ≡ jump_to_thread c (pos (id_of (peer f))) (parked f s)
  unfolding yield
  yield-eq f s e =
      bind-eq (index s.current_thread) _ s
        (subst (λ z. index z s ≡ ok (id_of f) s) (sym e) (index-id_of f s))
        (ap (λ z. jump_to_thread c z (parked f s)) (other-id_of f s e))

  pub round-parked :
      (f : EntryPoint) (s : State)
      → Runs c f s
      → s.counter (id_of f) < int_max
      → is_due f s ≡ true
      → round c s ≡ jump_to_thread c (pos (id_of (peer f))) (parked f (announced f s))
  unfolding loop_round
  round-parked f s h lt e =
      round-eq f s h
      ∙ bind-eq (increment (id_of f)) _ s (increment-eq (id_of f) s lt) (
          ap (λ b. (if b then (act (yielding f) >> yield c) else act (usleep second)) (counted f s))
            e)
      ∙ yield-eq f (announced f s) h.turn

  jump-eq :
      (f : EntryPoint) (s : State) (b : Buffer)
      → s.env (id_of f) ≡ b
      → jump_to_thread c (pos (id_of f)) s
        ≡ resume_at c
            (id_of f)
            b.point
            (record s { current_thread = pos (id_of f); mask = b.saved_mask })
  unfolding jump_to_thread index
  jump-eq thread0 s b e =
      ap (λ b. resume_at c 0 b.point (record s { current_thread = pos 0; mask = b.saved_mask })) e
  jump-eq thread1 s b e =
      ap (λ b. resume_at c 1 b.point (record s { current_thread = pos 1; mask = b.saved_mask })) e

  -- The jump to a thread that waits, or has not begun.
  pub jump-Landed :
      (f : EntryPoint) (s : State)
      → IsSound c
      → Waits c f s
      → Returns (λ _ r. Landed f s r) (jump_to_thread c (pos (id_of f)) s)
  unfolding resume_at begin
  jump-Landed f s sound (inl (i, sp, e)) =
      subst (Returns (λ _ r. Landed f s r))
        (sym (
          jump-eq f s _ e
          ∙ ap
              (λ a.
                begin (id_of f) (c.function_at a)
                  (record s { current_thread = pos (id_of f); mask = [] }))
              (sound.restores (c.address f))
          ∙ ap (λ o. begin (id_of f) o (record s { current_thread = pos (id_of f); mask = [] }))
              (sound.finds f)))
        (begun-Landed f s i)
  jump-Landed f s sound (inr (e, fr)) =
      subst (Returns (λ _ r. Landed f s r)) (sym (jump-eq f s _ e)) record {
        here = refl;
        in_frame = fr;
        same_env = refl;
        same_frame = refl;
        same_counters = (refl, refl);
        same_lines = (refl, refl);
        empty = refl;
      }

  -- A round of a thread that is not due to yield.
  pub kept-Runs : (f : EntryPoint) (s : State) → Runs c f s → Runs c f (slept (counted f s))
  kept-Runs thread0 s h = record {
    turn = h.turn;
    runs = h.runs;
    waits = h.waits;
    lines = (countdown-next (s.counter 0) h.lines.0, h.lines.1);
    empty = h.empty;
  }
  kept-Runs thread1 s h = record {
    turn = h.turn;
    runs = h.runs;
    waits = h.waits;
    lines = (h.lines.0, countdown-next (s.counter 1) h.lines.1);
    empty = h.empty;
  }

  pub parked-Runs :
      (f : EntryPoint) (s r : State)
      → Runs c f s
      → Landed (peer f) (parked f (announced f s)) r
      → Runs c (peer f) r
  parked-Runs thread0 s r h l = record {
    turn = l.here;
    runs = l.in_frame;
    waits = inr (
      ap (λ e. e 0) l.same_env ∙ ap (λ m. record { point = in_yield; saved_mask = m }) h.empty,
      l.same_frame ∙ h.runs,
    );
    lines = (
      l.same_lines.0
          ∙ countdown-next (s.counter 0) h.lines.0
          ∙ ap countdown (sym l.same_counters.0),
      l.same_lines.1 ∙ h.lines.1 ∙ ap countdown (sym l.same_counters.1),
    );
    empty = l.empty;
  }
  parked-Runs thread1 s r h l = record {
    turn = l.here;
    runs = l.in_frame;
    waits = inr (
      ap (λ e. e 1) l.same_env ∙ ap (λ m. record { point = in_yield; saved_mask = m }) h.empty,
      l.same_frame ∙ h.runs,
    );
    lines = (
      l.same_lines.0 ∙ h.lines.0 ∙ ap countdown (sym l.same_counters.0),
      l.same_lines.1
          ∙ countdown-next (s.counter 1) h.lines.1
          ∙ ap countdown (sym l.same_counters.1),
    );
    empty = l.empty;
  }
