-- ===== src/Uthreads/Rotation/Turns.antt =====
-- A whole switch on the queues and the counters: the queue rotates and one thread starts a quantum.
use mathlib.Core.List.{append-nil}
use user_level_threads_libra.Prelude.{ℕ, ◌+◌, ap, sym, subst, Bool, true, List, [], ◌∷◌, ◌++◌}
use user_level_threads_libra.Uthreads.State.{
  Os, State, Status, Point, main, terminated, ready, running, blocked, asleep, update,
}
use user_level_threads_libra.Uthreads.Process.{get, ◌>>=◌, ◌>>◌, set_status, push_ready}
use user_level_threads_libra.Uthreads.Scheduler.{
  Control, update_sleepers, insert_ready_to_running, leave, save_environment, jump,
}
use user_level_threads_libra.Uthreads.Invariant.Defs.{Yields}
use user_level_threads_libra.Uthreads.Invariant.Rules.{bind-Yields}
use user_level_threads_libra.Uthreads.Rotation.Spec.{woken, ticked, first, others, View}
use user_level_threads_libra.Uthreads.Rotation.Views.{
  set_status-View, push_ready-View, insert_ready_to_running-View, update_sleepers-View,
}
use user_level_threads_libra.Uthreads.Scheduler.{switch_threads, count_quantum}
use user_level_threads_libra.Uthreads.Rotation.Jump.{jump-View, save_environment-View, starts}

-- Who is put at the end of the queue by `switch_threads (to)`, and who is blocked after it.
abbrev pub left : Status → ℕ → List ℕ
left ready r = r ∷ []
left _ r = []

abbrev pub blocked_after : Status → ℕ → (ℕ → Bool) → ℕ → Bool
blocked_after blocked r b = update b r true
blocked_after _ r b = b

module _ {ts : List ℕ} {sl : List (ℕ × ℕ)} {b : ℕ → Bool} {n r : ℕ} {q : ℕ → ℕ} where
  leave-View :
      (to : Status) {s : State}
      → View ts sl b n r q s
      → Yields (λ _. View (ts ++ left to r) sl (blocked_after to r b) n r q) (leave to r s)
  unfolding leave
  leave-View main v = rw append-nil v
  leave-View running v = rw append-nil v
  leave-View asleep v = rw append-nil v
  leave-View terminated v = rw append-nil v
  leave-View ready {s} v =
      bind-Yields (λ _. View (ts ++ r ∷ []) sl b n r q) (λ _. View (ts ++ r ∷ []) sl b n r q)
        (push_ready r) (λ _. set_status r ready) s (push_ready-View r v)
        (λ _ t w. set_status-View r ready w)
  leave-View blocked {s} v = rw append-nil (
      set_status-View r blocked {s = record s { blocked_tids = update s.blocked_tids r true }}
        (record {
          ready_is = v.ready_is;
          sleepers_is = v.sleepers_is;
          blocked_is = ap (λ (c : ℕ → Bool). update c r true) v.blocked_is;
          total_is = v.total_is;
          running_is = v.running_is;
          quantums_is = v.quantums_is;
        }))

module _ {ts : List ℕ} {sl : List (ℕ × ℕ)} {b : ℕ → Bool} {n r : ℕ} {q : ℕ → ℕ} (os : Os) where
  counted :
      {t : State}
      → View ts sl b n r q t
      → View ts sl b (n + 1) r q (record t { total_quantums = t.total_quantums + 1 })
  counted v = record {
    ready_is = v.ready_is;
    sleepers_is = v.sleepers_is;
    blocked_is = v.blocked_is;
    total_is = ap (λ k. k + 1) v.total_is;
    running_is = v.running_is;
    quantums_is = v.quantums_is;
  }

-- The queue from which the next thread is taken.
abbrev pub queue_after : List ℕ → List (ℕ × ℕ) → (ℕ → Bool) → Status → ℕ → List ℕ
queue_after ts sl b to r = (ts ++ woken b sl) ++ left to r

-- The state after a switch from the thread `r`, by the queue that it leaves.
abbrev pub Switched : List ℕ → List (ℕ × ℕ) → (ℕ → Bool) → ℕ → (ℕ → ℕ) → State → Type 0
Switched queue sl b n q =
    View (others queue) (ticked sl) b (n + 1) (first queue) (starts (first queue) q)

module _ {ts : List ℕ} {sl : List (ℕ × ℕ)} {b : ℕ → Bool} {n r : ℕ} {q : ℕ → ℕ} (os : Os)
    (p : Point) where
  rest_of_switch-View :
      (to : Status) {s : State}
      → View ts sl b n r q s
      → Yields
          (λ _. Switched (queue_after ts sl b to r) sl (blocked_after to r b) n q)
          ((do
            update_sleepers
            t ← get
            let orig_tid = t.running_tid
            leave to orig_tid
            insert_ready_to_running
            count_quantum
            save_environment orig_tid p
            jump os)
            s)
  rest_of_switch-View to {s} v =
      bind-Yields (λ _. View (ts ++ woken b sl) (ticked sl) b n r q) Q update_sleepers _ s
        (update_sleepers-View v)
        λ _ t w.
          bind-Yields
            (λ _. View (queue_after ts sl b to r) (ticked sl) (blocked_after to r b) n r q) Q
            (leave to t.running_tid) _ t
            (subst
              (λ k.
                Yields
                  (λ _. View (queue_after ts sl b to r) (ticked sl) (blocked_after to r b) n r q)
                  (leave to k t))
              (sym w.running_is) (leave-View to w))
            λ _ t2 w2.
              bind-Yields
                (λ _.
                  View (others (queue_after ts sl b to r)) (ticked sl) (blocked_after to r b) n
                    (first (queue_after ts sl b to r)) q)
                Q insert_ready_to_running _ t2
                (insert_ready_to_running-View (queue_after ts sl b to r) w2)
                λ _ t3 w3.
                  bind-Yields
                    (λ _.
                      View (others (queue_after ts sl b to r)) (ticked sl) (blocked_after to r b)
                        (n + 1) (first (queue_after ts sl b to r)) q)
                    Q (save_environment t.running_tid p) _
                    (record t3 { total_quantums = t3.total_quantums + 1 })
                    (save_environment-View t.running_tid p (counted os w3))
                    λ _ t4 w4. jump-View os w4
    where
      Q : Control → State → Type 0
      Q _ = Switched (queue_after ts sl b to r) sl (blocked_after to r b) n q

  pub switch_threads-View :
      (to : Status) {s : State}
      → View ts sl b n r q s
      → Yields
          (λ _. Switched (queue_after ts sl b to r) sl (blocked_after to r b) n q)
          (switch_threads os to p s)
  unfolding switch_threads
  switch_threads-View terminated {s} v = rw append-nil (
      bind-Yields (λ _. View (ts ++ woken b sl) (ticked sl) b n r q)
        (λ _. Switched (ts ++ woken b sl) sl b n q) update_sleepers _ s (update_sleepers-View v)
        λ _ t w.
          bind-Yields
            (λ _. View (others (ts ++ woken b sl)) (ticked sl) b n (first (ts ++ woken b sl)) q)
            (λ _. Switched (ts ++ woken b sl) sl b n q) insert_ready_to_running _ t
            (insert_ready_to_running-View (ts ++ woken b sl) w)
            λ _ t3 w3. jump-View os (counted os w3))
  switch_threads-View main v = rest_of_switch-View main v
  switch_threads-View ready v = rest_of_switch-View ready v
  switch_threads-View running v = rest_of_switch-View running v
  switch_threads-View blocked v = rest_of_switch-View blocked v
  switch_threads-View asleep v = rest_of_switch-View asleep v
