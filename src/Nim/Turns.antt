-- ===== src/Nim/Turns.antt =====
-- The scheduling policy of nim/uthreads.cpp: what an alarm does, and when a ready thread runs.
use mathlib.Core.List.{append_assoc}
use user_level_threads_libra.Prelude.{
  ℕ, zero, suc, ◌+◌, ◌≡◌, refl, ◌∙◌, inl, inr, true, false, Option, none, some, List, [], ◌∷◌, ◌++◌,
  Bool, one_at, count-snoc, length, sym, subst, Option-cases, ==-refl, arith,
}
use user_level_threads_libra.Effects.{
  Returns, Returns-bind-eq, bind-Outcome, bind-eq, Returns-mono, Ensures,
}
use user_level_threads_libra.Uthreads.State.{update, success}
use user_level_threads_libra.Uthreads.Rotation.Spec.{first, others}
use user_level_threads_libra.Nim.State.{
  Os, State, Thread, Env, ready, in_constructor, at_entry, in_handler, in_block, in_lock,
  in_terminate,
}
use user_level_threads_libra.Nim.Process.{M, ok, ◌>>=◌, return, push_back}
use user_level_threads_libra.Nim.Signals.{block, unblock}
use user_level_threads_libra.Nim.Scheduler.{
  Control, returns, begins, goes_on, jumps, past_jump, save_env, next_thread, choose_next,
  start_thread, move_out, switch_out, switch_thread, alarm_sig_handler, land, after_switch,
  handler_returns,
}
use user_level_threads_libra.Nim.Program.{settle}
use user_level_threads_libra.Nim.Invariant.Defs.{Inv, After}
use user_level_threads_libra.Nim.Invariant.Steps.{remask, next_thread-eq}
use user_level_threads_libra.Nim.Invariant.Switch.{at_object-eq, snoc-cons}
use user_level_threads_libra.Nim.Safety.{alarm-After}
use user_level_threads_libra.Nim.Healthy.{
  IsHealthy, block-eq, unblock-eq, leave_with-eq, start_thread-eq,
}

abbrev pub quantums_in : Option Thread → ℕ
quantums_in none = 0
quantums_in (some u) = u.quantums

-- What an alarm leaves of the state `s`: the running thread has gone to the end of the queue, the first
-- thread of the queue starts a quantum, and the mutex and all that is blocked are as before.
pub record Rotated (s : State) (q : List ℕ) (t : State) : Type 0 where
  pub running_is : t.running ≡ first q
  pub ready_is : t.ready ≡ others q
  pub total_is : t.total_quantum ≡ s.total_quantum + 1
  pub quantums_is :
      (k : ℕ) → quantums_in (t.objects k) ≡ quantums_in (s.objects k) + one_at (first q) k
  pub mutex_is : t.mutex ≡ s.mutex
  pub waiting_is : t.mutex_blocked ≡ s.mutex_blocked
  pub blocked_is : t.blocked ≡ s.blocked

abbrev pub queue : State → List ℕ
queue s = s.ready ++ s.running ∷ []

module _ {os : Os} (well : IsHealthy os) where
  -- The alarm in a state whose queue, running thread and next thread are known.
  turn :
      (s : State) (p : ℕ) (rest : List ℕ) (u v : Thread)
      → s.set ≡ true
      → queue s ≡ p ∷ rest
      → s.objects s.running ≡ some u
      → update s.objects s.running
          (some (record u { env = record { point = in_handler; mask = true } }))
          p
        ≡ some v
      → alarm_sig_handler os s
        ≡ ok (jumps v.env.point) (record s {
          objects =
              update
                (update s.objects s.running
                  (some (record u { env = record { point = in_handler; mask = true } })))
                p
                (some (record v { quantums = v.quantums + 1 }));
          running = p;
          ready = rest;
          total_quantum = s.total_quantum + 1;
          masked = v.env.mask;
        })
  unfolding alarm_sig_handler switch_thread switch_out move_out push_back save_env choose_next
  turn s p rest u v a e q n = bind-eq (block os) _ s (block-eq well s a) (
      bind-eq (switch_out os ready false in_handler) (λ _. start_thread) blocked
        (bind-eq (save_env s.running in_handler) (λ _. choose_next os false) pushed
          (at_object-eq s.running _ pushed u q)
          (bind-eq next_thread _ saved (next_thread-eq p rest saved e) refl))
        (start_thread-eq chosen v n))
    where
      blocked : State
      blocked = record s { masked = true }

      pushed : State
      pushed = record s { masked = true; ready = queue s }

      saved : State
      saved = record s {
        masked = true;
        ready = queue s;
        objects =
            update s.objects s.running
              (some (record u { env = record { point = in_handler; mask = true } }));
      }

      chosen : State
      chosen = record s {
        masked = true;
        objects =
            update s.objects s.running
              (some (record u { env = record { point = in_handler; mask = true } }));
        running = p;
        ready = rest;
        total_quantum = s.total_quantum + 1;
      }

  quantums-update :
      (f : ℕ → Option Thread) (r p k : ℕ) (u v : Thread) (e : Env)
      → f r ≡ some u
      → update f r (some (record u { env = e })) p ≡ some v
      → quantums_in (
          update
            (update f r (some (record u { env = e })))
            p
            (some (record v { quantums = v.quantums + 1 }))
            k)
        ≡ quantums_in (f k) + one_at p k
  quantums-update f r p k u v e q n = ground (arith, q, n)

  -- On a healthy system and under the invariant, an alarm puts the running thread at the end of the
  -- ready queue, starts a quantum of the first thread in it, leaves the mutex and the blocked threads
  -- alone, and jumps to an environment that may be used.
  pub alarm_sig_handler-Rotated :
      (s : State)
      → Inv s
      → Returns (λ c t. After c t × Rotated s (queue s) t) (alarm_sig_handler os s)
  alarm_sig_handler-Rotated s inv =
      let (p, rest, e) = snoc-cons s.ready s.running in
      elim (Option-cases (s.objects s.running)) [
        | inl n ↦ absurd (inv.known s.running (==-refl s.running) n)
        | inr (u, q) ↦
            elim (Option-cases (
              update s.objects s.running
                (some (record u { env = record { point = in_handler; mask = true } })) p)) [
                  | inl n ↦
                      absurd (ground (arith, inv.placed p, e, count-snoc p s.ready s.running, n))
                  | inr (v, n) ↦
                      let done = turn s p rest u v inv.alarms e q n in
                      subst (Returns (λ c t. After c t × Rotated s (queue s) t)) (sym done) (
                        subst (Ensures After) done (alarm-After os s inv),
                        record {
                          running_is = rw e;
                          ready_is = rw e;
                          total_is = refl;
                          quantums_is =
                              λ k. rw e (quantums-update s.objects s.running p k u v _ q n);
                          mutex_is = refl;
                          waiting_is = refl;
                          blocked_is = refl;
                        },
                      )
                ]
      ]

  -- Landing changes nothing but the mask.
  land-unmasks :
      (os' : Os) (c : Control) (t : State)
      → IsHealthy os'
      → After c t
      → Returns (λ _ r. (b : Bool) × (r ≡ record t { masked = b })) (settle past_jump os' c t)
  unfolding settle land after_switch
  land-unmasks os' (returns n) t w a = (t.masked, refl)
  land-unmasks os' (begins sp pc) t w a = (t.masked, refl)
  land-unmasks os' goes_on t w a = (t.masked, refl)
  land-unmasks os' (jumps in_constructor) t w a = absurd a.1.0
  land-unmasks os' (jumps (at_entry sp pc)) t w a = (t.masked, refl)
  land-unmasks os' (jumps in_handler) t w a =
      Returns-bind-eq (λ _ r. (b : Bool) × (r ≡ record t { masked = b })) (unblock os')
        (λ _. handler_returns) t tt (record t { masked = false }) (unblock-eq w t a.0.alarms)
        (false, refl)
  land-unmasks os' (jumps in_block) t w a =
      rw (leave_with-eq w (returns success) t a.0.alarms) (false, refl)
  land-unmasks os' (jumps in_lock) t w a =
      rw (leave_with-eq w (returns success) t a.0.alarms) (false, refl)
  land-unmasks os' (jumps in_terminate) t w a = absurd a.1.0

  pub turned-Rotated :
      (s : State)
      → Inv s
      → Returns
          (λ _ t. Inv t × Rotated s (queue s) t)
          ((alarm_sig_handler os >>= settle past_jump os) s)
  turned-Rotated s inv =
      bind-Outcome ⊥ ⊥ (λ c t. After c t × Rotated s (queue s) t)
        (λ _ t. Inv t × Rotated s (queue s) t) (alarm_sig_handler os) (settle past_jump os) s
        (alarm_sig_handler-Rotated s inv)
        λ c t h.
          Returns-mono (λ _ r. (b : Bool) × (r ≡ record t { masked = b }))
            (λ _ r. Inv r × Rotated s (queue s) r) (settle past_jump os c t)
            (land-unmasks os c t well h.0)
            λ _ r g.
              subst (λ x. Inv x × Rotated s (queue s) x) (sym g.1)
                (
                  remask g.0 h.0.0,
                  record {
                    running_is = h.1.running_is;
                    ready_is = h.1.ready_is;
                    total_is = h.1.total_is;
                    quantums_is = h.1.quantums_is;
                    mutex_is = h.1.mutex_is;
                    waiting_is = h.1.waiting_is;
                    blocked_is = h.1.blocked_is;
                  },
                )

-- `n` quantums expire, with the landing of the thread that runs after each.
unfoldable pub expire : Os → ℕ → M (Unit {0})
expire os zero = return tt
expire os (suc n) = (alarm_sig_handler os >>= settle past_jump os) >>= λ _. expire os n

-- On a healthy system and under the invariant, if control that is jumped to comes out behind the jump: a
-- thread with `length xs` threads before it in the ready queue runs when `length xs + 1` quantums have
-- expired; the expiries all return, and the mutex stays with its owner.
pub expire-reaches :
    (os : Os) (xs : List ℕ) (t : ℕ) (ys : List ℕ) (s : State)
    → IsHealthy os
    → Inv s
    → s.ready ≡ xs ++ t ∷ ys
    → Returns (λ _ r. Inv r × (r.running ≡ t) × (r.mutex ≡ s.mutex)) (expire os (suc (length xs)) s)
unfolding expire
expire-reaches os [] t ys s well inv e =
    bind-Outcome ⊥ ⊥ (λ _ r. Inv r × Rotated s (queue s) r)
      (λ _ r. Inv r × (r.running ≡ t) × (r.mutex ≡ s.mutex))
      (alarm_sig_handler os >>= settle past_jump os) (λ _. return tt) s (turned-Rotated well s inv)
      λ _ r h. (h.0, h.1.running_is ∙ rw e, h.1.mutex_is)
expire-reaches os (x ∷ xs) t ys s well inv e =
    bind-Outcome ⊥ ⊥ (λ _ r. Inv r × Rotated s (queue s) r)
      (λ _ r. Inv r × (r.running ≡ t) × (r.mutex ≡ s.mutex))
      (alarm_sig_handler os >>= settle past_jump os) (λ _. expire os (suc (length xs))) s
      (turned-Rotated well s inv)
      λ _ r h.
        Returns-mono (λ _ q. Inv q × (q.running ≡ t) × (q.mutex ≡ r.mutex))
          (λ _ q. Inv q × (q.running ≡ t) × (q.mutex ≡ s.mutex)) (expire os (suc (length xs)) r)
          (expire-reaches os xs t (ys ++ s.running ∷ []) r well h.0
            (h.1.ready_is ∙ rw e (simp append_assoc)))
          λ _ q g. (g.0, g.1, g.2 ∙ h.1.mutex_is)
