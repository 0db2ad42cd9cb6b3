-- ===== src/Uthreads/Contexts/Ends.antt =====
-- A thread that terminates itself does not come back.
use user_level_threads_libra.Prelude.{
  ℕ, suc, ◌==◌, pos, ◌≡◌, ◌≢◌, true, Option, none, some, Bool-cases, Option-cases, inl, inr,
  insert_sorted, arith,
}
use user_level_threads_libra.Effects.{Yields, bind-Yields}
use user_level_threads_libra.Uthreads.State.{
  Os, State, UThread, Point, in_constructor, at_entry, in_handler, in_block, in_sleep, in_terminate,
  running, update,
}
use user_level_threads_libra.Uthreads.Signals.{block_vt_alarm}
use user_level_threads_libra.Uthreads.Api.{terminate_found, terminate_id, uthread_terminate}
use user_level_threads_libra.Uthreads.Invariant.Defs.{Inv}
use user_level_threads_libra.Uthreads.Contexts.{Stands, Placed, AllPlaced, Continues}
use user_level_threads_libra.Uthreads.Contexts.Api.{terminate_running-Lands}

-- The running thread, if it is not the main one, has the status RUNNING.
running_status :
    (s : State) (r : ℕ)
    → Inv s
    → s.running_tid ≡ suc r
    → (u : UThread) × (s.all_threads (suc r) ≡ some u) × (u.status ≡ running)
running_status s r inv e = elim (Option-cases (s.all_threads (suc r))) [
  | inl gone ↦ absurd (ground (arith, inv.placed (suc r), gone, e))
  | inr (u, here) ↦ (u, here, ground (arith, inv.placed (suc r), here, e))
]

module _ (P Q : ℕ → Type 0) (r : ℕ) where
  abbrev pub Other : ℕ → Type 0
  Other k = Q k × (k ≢ r)

  Stands-Other : (k : ℕ) (p : Point) → k ≢ r → Stands P Q k p → Stands P Other k p
  Stands-Other k in_constructor ne h = (h, ne)
  Stands-Other k (at_entry sp pc) ne h = h
  Stands-Other k in_handler ne h = (h, ne)
  Stands-Other k in_block ne h = (h, ne)
  Stands-Other k in_sleep ne h = (h, ne)
  Stands-Other k in_terminate ne h = (h, ne)

  Placed-Other : (k : ℕ) (o : Option UThread) → k ≢ r → Placed P Q k o → Placed P Other k o
  Placed-Other k none ne h = tt
  Placed-Other k (some u) ne h = Stands-Other k u.env.point ne h

  removed-AllPlaced :
      (s : State) → AllPlaced P Q s → (k : ℕ) → Placed P Other k (update s.all_threads r none k)
  removed-AllPlaced s h k = elim (Bool-cases (r == k)) [
    | inl e ↦ rw e tt
    | inr e ↦ rw e (Placed-Other k (s.all_threads k) (ground arith) (h k))
  ]

block_vt_alarm-Yields :
    (os : Os) (s : State) → Yields (λ _ t. t ≡ record s { masked = true }) (block_vt_alarm os s)
unfolding block_vt_alarm
block_vt_alarm-Yields os s = ground arith

pub terminate_self-Lands :
    (P Q : ℕ → Type 0) (os : Os) (s : State) (r : ℕ)
    → Inv s
    → s.running_tid ≡ suc r
    → AllPlaced P Q s
    → Yields
        (λ c t. AllPlaced P (Other P Q (suc r)) t × Continues P (Other P Q (suc r)) c t)
        (uthread_terminate os (pos (suc r)) s)
unfolding uthread_terminate terminate_id terminate_found
terminate_self-Lands P Q os s r inv e h =
    let (u, here, st) = running_status s r inv e in
    bind-Yields (λ _ t. t ≡ record s { masked = true })
      (λ c t. AllPlaced P (Other P Q (suc r)) t × Continues P (Other P Q (suc r)) c t)
      (block_vt_alarm os) (λ _. terminate_id os (pos (suc r))) s (block_vt_alarm-Yields os s)
      λ _ t k. rw k (
        rw here (
          rw st (
            (terminate_running-Lands P (Other P Q (suc r)) os (suc r)).runs
              (record s {
                masked = true;
                free_ids = insert_sorted (suc r) s.free_ids;
                all_threads = update s.all_threads (suc r) none;
              })
              (removed-AllPlaced P Q (suc r) s h))))
