-- ===== src/Nim/Invariant/Blocking.antt =====
-- `uthread_block` keeps the invariant.
use user_level_threads_libra.Prelude.{
  ℕ, zero, suc, ◌<◌, ◌==◌, ◌≡◌, ◌≢◌, refl, ap, ◌∙◌, inl, inr, Bool, true, false, some, List, [],
  ◌∷◌, ℤ, pos, negsuc, count, contains, count-erase, Bool-cases, Option-cases, arith,
}
use user_level_threads_libra.Effects.{Ensures, step-Ensures, Ensures-mono, bind-eq}
use user_level_threads_libra.Uthreads.State.{success}
use user_level_threads_libra.Nim.State.{Os, State, Thread}
use user_level_threads_libra.Nim.Process.{ok, get_id}
use user_level_threads_libra.Nim.Scheduler.{returns, add_blocked}
use user_level_threads_libra.Nim.Api.{find_ideque, block_found, block_id, uthread_block}
use user_level_threads_libra.Nim.Invariant.Defs.{Inside, Inv, After, Jumped, Jumped-After}
use user_level_threads_libra.Nim.Invariant.Steps.{
  get_id-eq, remask, block-Ensures, leave_with-Ensures,
}
use user_level_threads_libra.Nim.Invariant.Switch.{switch_blocked-Jumped}
use user_level_threads_libra.Nim.Invariant.Locking.{fail_with-Ensures}

-- All threads in the ready queue exist.
pub find_ideque-eq :
    (id : ℕ) (ps : List ℕ) (s : State)
    → ((k : ℕ) → 0 < count k ps → (u : Thread) × (s.objects k ≡ some u) × (u.id ≡ k))
    → find_ideque id ps s ≡ ok (contains id ps) s
unfolding find_ideque
find_ideque-eq id [] s live = refl
find_ideque-eq id (p ∷ ps) s live =
    let (u, e, i) = live p (ground arith) in
    bind-eq (get_id p) _ s (get_id-eq p s u e i) (elim (Bool-cases (p == id)) [
      | inl here ↦ rw here (ap (λ b. ok b s) (ground (arith, here)))
      | inr other ↦ rw other (
          find_ideque-eq id ps s (λ k h. live k (ground arith))
          ∙ ap (λ b. ok b s) (ground (arith, other)))
    ])

pub ready_thread :
    {runs : ℕ → ℕ} {stale : ℕ → Bool} {r : ℕ} {m : Bool} {s : State}
    → Inside runs stale r m s
    → (k : ℕ) → 0 < count k s.ready
    → (u : Thread) × (s.objects k ≡ some u) × (u.id ≡ k)
ready_thread {s = s} inv k h = elim (Option-cases (s.objects k)) [
  | inl n ↦ absurd (ground (arith, inv.placed k, n))
  | inr (u, e) ↦ (u, e, ground (arith, inv.placed k, e))
]

module _ (os : Os) where
  block_found-After :
      (b : Bool) (tid : ℕ) {s : State}
      → s.masked ≡ true
      → tid ≢ 0
      → 0 < count tid s.all_threads
      → contains tid s.ready ≡ b
      → (tid ≡ s.running → s.ready ≢ [])
      → Inv s
      → Ensures After (block_found os b tid s)
  unfolding block_found add_blocked
  block_found-After true tid {s} m t0 known found next inv =
      leave_with-Ensures os After (returns success) _ inv.alarms (
        record {
          placed =
              λ k. ground (arith, inv.placed k, inv.placed tid, found, count-erase k tid s.ready);
          envs = inv.envs;
          owned = inv.owned;
          known = inv.known;
          here = refl;
          mask = refl;
          alarms = inv.alarms;
        },
        tt,
      )
  block_found-After false tid {s} m t0 known found next inv = elim (Bool-cases (s.running == tid)) [
    | inl mine ↦ rw mine (
        Ensures-mono Jumped After _
          (switch_blocked-Jumped os m (ground (arith, mine)) (next (ground (arith, mine))) inv)
          Jumped-After)
    | inr other ↦ rw other (
        leave_with-Ensures os After (returns success) _ inv.alarms (
          record {
            placed = λ k. ground (arith, inv.placed k, inv.placed tid, found, other, known);
            envs = inv.envs;
            owned = inv.owned;
            known = inv.known;
            here = refl;
            mask = refl;
            alarms = inv.alarms;
          },
          tt,
        ))
  ]

  -- There is a next thread if the running thread blocks itself.
  block_id-After :
      (tid : ℤ) {s : State}
      → s.masked ≡ true
      → (tid ≡ pos s.running → s.ready ≢ [])
      → Inv s
      → Ensures After (block_id os tid s)
  unfolding block_id
  block_id-After (negsuc n) m next inv = fail_with-Ensures os After _ inv (λ t i. (i, tt))
  block_id-After (pos zero) {s} m next inv = elim (Bool-cases (contains 0 s.all_threads)) [
    | inl e ↦ rw e (fail_with-Ensures os After _ inv (λ t i. (i, tt)))
    | inr e ↦ rw e (fail_with-Ensures os After _ inv (λ t i. (i, tt)))
  ]
  block_id-After (pos (suc t)) {s} m next inv = elim (Bool-cases (contains (suc t) s.all_threads)) [
    | inl e ↦ rw e (
        step-Ensures After (find_ideque (suc t) s.ready) _ s
          (find_ideque-eq (suc t) s.ready s (ready_thread inv))
          (block_found-After (contains (suc t) s.ready) (suc t) m (ground arith) (ground (arith, e))
            refl (λ q. next (ap pos q)) inv))
    | inr e ↦ rw e (fail_with-Ensures os After _ inv (λ t i. (i, tt)))
  ]

  pub uthread_block-After :
      (tid : ℤ) {s : State}
      → (tid ≡ pos s.running → s.ready ≢ [])
      → Inv s
      → Ensures After (uthread_block os tid s)
  unfolding uthread_block
  uthread_block-After tid {s} next inv =
      block-Ensures os After _ s inv.alarms (block_id-After tid refl next (remask true inv))
