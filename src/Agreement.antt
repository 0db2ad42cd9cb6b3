-- ===== src/Agreement.antt =====
-- uthreads.cpp and nim/uthreads.cpp beside one another, where nobody sleeps and the mutex is not used.
use user_level_threads_libra.Prelude.{
  ℕ, ◌+◌, ◌==◌, ◌≡◌, ◌≢◌, ◌↔◌, refl, sym, ◌∙◌, inl, inr, Bool, true, false, if◌then◌else◌, Option,
  none, some, List, [], ◌∷◌, ◌++◌, count, erase, erase_found, Option-cases, Bool-cases, one_at,
  arith, ℤ, pos, negsuc,
}
use user_level_threads_libra.Uthreads.State.{State, UThread}
use user_level_threads_libra.Uthreads.Invariant.Defs.{Inv}
use user_level_threads_libra.Uthreads.Rotation.Spec.{quantums_in}
use user_level_threads_libra.Nim.State.{State as NimState, Thread}
use user_level_threads_libra.Nim.Invariant.Defs.{Inv as NimInv}
use user_level_threads_libra.Nim.Turns.{quantums_in as nim_quantums_in}
pub mod Calls
pub mod Turns
pub mod Spawning
pub mod Resuming
pub mod Blocking
pub mod Histories
mod Samples

-- The two agree on who runs, the order of the others, who is blocked, and the quantums; nobody sleeps or waits
-- for the mutex. They need not agree on the signal mask: after a call that is refused, uthreads.cpp leaves
-- SIGVTALRM blocked, and nim/uthreads.cpp mostly does not.
pub record Agree (s : State) (n : NimState) : Type 0 where
  pub running : s.running_tid ≡ n.running
  pub ready : s.ready_tids ≡ n.ready
  pub blocked : (k : ℕ) → s.blocked_tids k ≡ n.blocked k
  pub total : s.total_quantums ≡ n.total_quantum
  pub quantums : (k : ℕ) → quantums_in (s.all_threads k) ≡ nim_quantums_in (n.objects k)
  pub awake : s.sleepers ≡ []
  pub unlocked : n.mutex.blocked ≡ false
  pub waiting : n.mutex_blocked ≡ []

module _ {s : State} {n : NimState} (inv : Inv s) (nim_inv : NimInv n) (a : Agree s n) where
  -- Then they have the same threads.
  pub absent-nim : (k : ℕ) → s.all_threads k ≡ none → n.objects k ≡ none
  absent-nim k e = elim (Option-cases (n.objects k)) [
    | inl g ↦ g
    | inr (u, g) ↦ absurd (
        ground (
          arith,
          inv.placed k,
          nim_inv.placed k,
          e,
          g,
          a.running,
          a.ready,
          a.blocked k,
          a.awake,
          a.waiting,
        ))
  ]

  pub absent-uthreads : (k : ℕ) → n.objects k ≡ none → s.all_threads k ≡ none
  absent-uthreads k e = elim (Option-cases (s.all_threads k)) [
    | inl g ↦ g
    | inr (u, g) ↦ absurd (
        ground (
          arith,
          inv.placed k,
          nim_inv.placed k,
          e,
          g,
          a.running,
          a.ready,
          a.blocked k,
          a.awake,
          a.waiting,
        ))
  ]

  pub nim_known : (k : ℕ) (u : UThread) → s.all_threads k ≡ some u → count k n.all_threads ≡ 1
  nim_known k u e = elim (Option-cases (n.objects k)) [
    | inl g ↦ absurd (ground (arith, absent-uthreads k g, e))
    | inr (v, g) ↦ ground (arith, nim_inv.placed k, g)
  ]
