-- ===== src/Uthreads/Rotation/Views.antt =====
-- The steps of a switch on the queues and the counters.
use mathlib.Core.List.{append-nil, append_assoc}
use user_level_threads_libra.Prelude.{
  ℕ, zero, suc, ◌≡◌, refl, ap, sym, subst, inl, inr, Bool, List, [], ◌∷◌, ◌++◌, Bool-cases,
  Option-cases, arith,
}
use user_level_threads_libra.Uthreads.State.{State, UThread, Status, ready, running, blocked}
use user_level_threads_libra.Uthreads.Process.{at_thread, set_status, push_ready}
use user_level_threads_libra.Uthreads.Scheduler.{
  wake, update_sleepers_from, update_sleepers, run_first, insert_ready_to_running,
}
use user_level_threads_libra.Uthreads.Invariant.Defs.{Yields}
use user_level_threads_libra.Uthreads.Invariant.Rules.{bind-Yields}
use user_level_threads_libra.Uthreads.Rotation.Spec.{woken, ticked, first, others, View}

woken-step :
    (b : ℕ → Bool) (t : ℕ) (ts : List ℕ) (m : List (ℕ × ℕ))
    → (ts ++ woken b ((t, 0) ∷ [])) ++ woken b m ≡ ts ++ woken b ((t, 0) ∷ m)
woken-step b t ts m = elim (Bool-cases (b t)) [
  | inl e ↦ rw (e, append-nil)
  | inr e ↦ rw e (append_assoc ts (t ∷ []) (woken b m))
]

module _ {ts : List ℕ} {sl : List (ℕ × ℕ)} {b : ℕ → Bool} {n r : ℕ} {q : ℕ → ℕ} where
  -- A write to a thread that leaves its quantums alone.
  pub at_thread-View :
      (t : ℕ) (f : UThread → UThread) {s : State}
      → ((u : UThread) → (f u).quantums ≡ u.quantums)
      → View ts sl b n r q s
      → Yields (λ _. View ts sl b n r q) (at_thread t f s)
  unfolding at_thread
  at_thread-View t f {s} keeps v = elim (Option-cases (s.all_threads t)) [
    | inl e ↦ rw (e, at_thread) tt
    | inr (u, e) ↦
        rw (e, at_thread)
          (record {
            ready_is = v.ready_is;
            sleepers_is = v.sleepers_is;
            blocked_is = v.blocked_is;
            total_is = v.total_is;
            running_is = v.running_is;
            quantums_is = λ k. ground (arith, v.quantums_is k, keeps u, e);
          })
  ]

  pub set_status-View :
      (t : ℕ) (st : Status) {s : State}
      → View ts sl b n r q s
      → Yields (λ _. View ts sl b n r q) (set_status t st s)
  unfolding set_status
  set_status-View t st v = at_thread-View t _ (λ u. refl) v

  pub push_ready-View :
      (t : ℕ) {s : State}
      → View ts sl b n r q s
      → Yields (λ _. View (ts ++ t ∷ []) sl b n r q) (push_ready t s)
  unfolding push_ready
  push_ready-View t v = record {
    ready_is = ap (λ xs. xs ++ t ∷ []) v.ready_is;
    sleepers_is = v.sleepers_is;
    blocked_is = v.blocked_is;
    total_is = v.total_is;
    running_is = v.running_is;
    quantums_is = v.quantums_is;
  }

  wake-View :
      (t : ℕ) {s : State}
      → View ts sl b n r q s
      → Yields (λ _. View (ts ++ woken b ((t, 0) ∷ [])) sl b n r q) (wake t s)
  unfolding wake
  wake-View t {s} v = elim (Bool-cases (s.blocked_tids t)) [
    | inl e ↦
        rw (e, wake, ap (λ (c : ℕ → Bool). c t) (sym v.blocked_is), e, append-nil)
          (set_status-View t blocked v)
    | inr e ↦
        rw (e, wake, ap (λ (c : ℕ → Bool). c t) (sym v.blocked_is), e)
          (bind-Yields (λ _. View ts sl b n r q) (λ _. View (ts ++ t ∷ []) sl b n r q)
            (set_status t ready) (λ _. push_ready t) s (set_status-View t ready v)
            (λ _ p w. push_ready-View t w))
  ]

module _ {sl : List (ℕ × ℕ)} {b : ℕ → Bool} {n r : ℕ} {q : ℕ → ℕ} where
  run_first-View :
      (ts : List ℕ) {s : State}
      → View ts sl b n r q s
      → Yields (λ _. View (others ts) sl b n (first ts) q) (run_first ts s)
  unfolding run_first
  run_first-View [] {s} v = record {
    ready_is = v.ready_is;
    sleepers_is = v.sleepers_is;
    blocked_is = v.blocked_is;
    total_is = v.total_is;
    running_is = refl;
    quantums_is = v.quantums_is;
  }
  run_first-View (t ∷ rest) {s} v =
      set_status-View t running {s = record s { running_tid = t; ready_tids = rest }} (record {
        ready_is = refl;
        sleepers_is = v.sleepers_is;
        blocked_is = v.blocked_is;
        total_is = v.total_is;
        running_is = refl;
        quantums_is = v.quantums_is;
      })

  pub insert_ready_to_running-View :
      (ts : List ℕ) {s : State}
      → View ts sl b n r q s
      → Yields (λ _. View (others ts) sl b n (first ts) q) (insert_ready_to_running s)
  unfolding insert_ready_to_running
  insert_ready_to_running-View ts {s} v =
      subst (λ xs. Yields (λ _. View (others ts) sl b n (first ts) q) (run_first xs s))
        (sym v.ready_is) (run_first-View ts v)

module _ {b : ℕ → Bool} {n r : ℕ} {q : ℕ → ℕ} where
  -- The loop of `update_sleepers` with the sleepers `sl` kept and `es` to come.
  update_sleepers_from-View :
      (es : List (ℕ × ℕ)) (ts : List ℕ) (kept : List (ℕ × ℕ)) {s : State}
      → View ts kept b n r q s
      → Yields
          (λ _. View (ts ++ woken b es) (kept ++ ticked es) b n r q)
          (update_sleepers_from es s)
  unfolding update_sleepers_from
  update_sleepers_from-View [] ts kept v = rw (append-nil, append-nil) v
  update_sleepers_from-View ((t, zero) ∷ rest) ts kept {s} v =
      bind-Yields (λ _. View (ts ++ woken b ((t, 0) ∷ [])) kept b n r q) _ (wake t)
        (λ _. update_sleepers_from rest) s (wake-View t v)
        λ _ p w.
          subst
            (λ xs.
              Yields (λ _. View xs (kept ++ ticked rest) b n r q) (update_sleepers_from rest p))
            (woken-step b t ts rest)
            (update_sleepers_from-View rest (ts ++ woken b ((t, 0) ∷ [])) kept w)
  update_sleepers_from-View ((t, suc k) ∷ rest) ts kept {s} v =
      rw (← append_assoc kept ((t, k) ∷ []) (ticked rest)) (
        update_sleepers_from-View rest ts (kept ++ (t, k) ∷ []) (record {
          ready_is = v.ready_is;
          sleepers_is = ap (λ m. m ++ (t, k) ∷ []) v.sleepers_is;
          blocked_is = v.blocked_is;
          total_is = v.total_is;
          running_is = v.running_is;
          quantums_is = v.quantums_is;
        }))

  pub update_sleepers-View :
      {ts : List ℕ} {sl : List (ℕ × ℕ)} {s : State}
      → View ts sl b n r q s
      → Yields (λ _. View (ts ++ woken b sl) (ticked sl) b n r q) (update_sleepers s)
  unfolding update_sleepers
  update_sleepers-View {ts} {sl} {s} v =
      subst
        (λ m.
          Yields (λ _. View (ts ++ woken b sl) (ticked sl) b n r q)
            (update_sleepers_from m (record s { sleepers = [] })))
        (sym v.sleepers_is)
        (update_sleepers_from-View sl ts [] (record {
          ready_is = v.ready_is;
          sleepers_is = refl;
          blocked_is = v.blocked_is;
          total_is = v.total_is;
          running_is = v.running_is;
          quantums_is = v.quantums_is;
        }))
