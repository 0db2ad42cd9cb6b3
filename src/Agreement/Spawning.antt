-- ===== src/Agreement/Spawning.antt =====
-- uthread_spawn in uthreads.cpp and in nim/uthreads.cpp.
use user_level_threads_libra.Prelude.{
  ℕ, suc, ◌+◌, ◌<◌, ◌≤◌, ◌≡◌, ◌≢◌, ◌⊎◌, inl, inr, refl, subst, ap, true, false, Option, none, some,
  List, [], ◌∷◌, ◌++◌, count, length, length-lt_of_counts, Option-cases, Bool-cases, arith, pos,
  ltb,
}
use native.Mathlib.Decide.{dec_lt}
use user_level_threads_libra.Uthreads.State.{
  State, Os, UThread, failure, max_thread_num, max_threads_err, update,
}
use user_level_threads_libra.Uthreads.Scheduler.{returns}
use user_level_threads_libra.Uthreads.Api.{new_thread}
use user_level_threads_libra.Uthreads.Program.{spawn, perform}
use user_level_threads_libra.Uthreads.Invariant.Defs.{Inv}
use user_level_threads_libra.Uthreads.Safety.{perform-Inv}
use user_level_threads_libra.Uthreads.Healthy.{IsHealthy}
use user_level_threads_libra.Uthreads.Rotation.Spec.{quantums_in}
use user_level_threads_libra.Uthreads.Contract.Refusals.{refused, perform-refused}
use user_level_threads_libra.Uthreads.Contract.Spawning.{free_ids-nil, uthread_spawn_lem}
use user_level_threads_libra.Nim.State.{State as NimState, Os as NimOs, Thread, spawn_error}
use user_level_threads_libra.Nim.Scheduler.{returns as nim_returns}
use user_level_threads_libra.Nim.Api.{new_thread as nim_new_thread}
use user_level_threads_libra.Nim.Program
use user_level_threads_libra.Nim.Invariant.Defs.{Inv as NimInv, IsOrdering}
use user_level_threads_libra.Nim.Safety.{perform-After}
use user_level_threads_libra.Nim.Healthy.{IsHealthy as NimIsHealthy}
use user_level_threads_libra.Nim.Turns.{quantums_in as nim_quantums_in}
use user_level_threads_libra.Nim.Contract.Refusals.{refused as nim_refused, perform-refusal}
use user_level_threads_libra.Nim.Contract.Spawning.{spawned, uthread_spawn-least}
use user_level_threads_libra.Agreement.{Agree, absent-nim, absent-uthreads}
use user_level_threads_libra.Agreement.Calls.{
  spawn_at, serve, nim_serve, Alike, answering-Alike, same-Agree,
}

nil_or_cons : (xs : List ℕ) → (xs ≡ []) ⊎ ((x : ℕ) × (ys : List ℕ) × (xs ≡ x ∷ ys))
nil_or_cons [] = inl refl
nil_or_cons (x ∷ ys) = inr (x, ys, refl)

-- A new thread has not run.
new-quantums :
    (os : Os) (os' : NimOs) (e t x y k : ℕ) (f : ℕ → Option UThread) (g : ℕ → Option Thread)
    → quantums_in (f k) ≡ nim_quantums_in (g k)
    → quantums_in (update f t (some (new_thread os t e x)) k)
      ≡ nim_quantums_in (update g t (some (nim_new_thread os' t e y)) k)
unfolding new_thread nim_new_thread
new-quantums os os' e t x y k f g h = ground (arith, h)

-- With a new thread.
abbrev grown : Os → (entry_point stack t : ℕ) → List ℕ → State → State
grown os e x t ids s = record s {
  free_ids = ids;
  all_threads = update s.all_threads t (some (new_thread os t e x));
  ready_tids = s.ready_tids ++ t ∷ [];
  masked = false;
}

module _ {os : Os} {os' : NimOs} {s : State} {n : NimState} (well : IsHealthy os)
    (nim_well : NimIsHealthy os') (ordered : IsOrdering os') (inv : Inv s) (nim_inv : NimInv n)
    (a : Agree s n) where
  -- An id is left in one library while one is left in the other.
  room-nim :
      (t : ℕ) → t < max_thread_num → n.objects t ≡ none → length n.all_threads < max_thread_num
  room-nim t lt gone =
      length-lt_of_counts max_thread_num t n.all_threads lt (ground (arith, nim_inv.placed t, gone))
        (λ k below. at_most k (Option-cases (n.objects k)))
        (λ k above. outside k above (Option-cases (n.objects k)))
    where
      at_most :
          (k : ℕ)
          → (n.objects k ≡ none) ⊎ ((u : Thread) × (n.objects k ≡ some u))
          → count k n.all_threads ≤ 1
      at_most k (inl e) = ground (arith, nim_inv.placed k, e)
      at_most k (inr (u, e)) = ground (arith, nim_inv.placed k, e)

      outside :
          (k : ℕ)
          → max_thread_num ≤ k
          → (n.objects k ≡ none) ⊎ ((u : Thread) × (n.objects k ≡ some u))
          → count k n.all_threads ≡ 0
      outside k above (inl e) = ground (arith, nim_inv.placed k, e)
      outside k above (inr (u, e)) = absurd (ground (arith, nim_inv.placed k, e, above))

  full-nim :
      (stack : ℕ)
      → os'.new_stack ≡ some stack
      → s.free_ids ≡ []
      → ltb max_thread_num (length n.all_threads + 1) ≡ true
  full-nim stack memory e = elim (Bool-cases (ltb max_thread_num (length n.all_threads + 1))) [
    | inl full ↦ full
    | inr room ↦
        let (id, done, free, lt, least) =
          uthread_spawn-least os' n 1 stack nim_well nim_inv (ground (arith, room)) memory in
        absurd ((free_ids-nil s inv).0 e id lt (absent-uthreads inv nim_inv a id free))
  ]

  full-Alike :
      (e stack : ℕ)
      → os'.new_stack ≡ some stack
      → s.free_ids ≡ []
      → Alike (serve os (spawn_at e) s) (nim_serve os' (spawn_at e) n)
  unfolding serve nim_serve
  full-Alike e stack memory none_free =
      answering-Alike (perform os (spawn (suc e)) s) (Program.perform os' (Program.spawn (suc e)) n)
        (returns failure) (nim_returns failure) (refused max_threads_err s)
        (nim_refused spawn_error n)
        (perform-refused os (spawn (suc e)) s max_threads_err well (rw none_free refl))
        (perform-refusal os' (Program.spawn (suc e)) n spawn_error nim_well nim_inv
          (rw (full-nim stack memory none_free) refl))
        (perform-Inv os (spawn (suc e)) s inv tt)
        (perform-After os' (Program.spawn (suc e)) n ordered tt nim_inv) refl
        (same-Agree s n true true _ _ a)

  -- The least id that no thread has is the same.
  least-eq :
      (t id : ℕ)
      → s.all_threads t ≡ none
      → ((k : ℕ) → k < t → s.all_threads k ≢ none)
      → n.objects id ≡ none
      → ((k : ℕ) → k < id → n.objects k ≢ none)
      → t ≡ id
  least-eq t id e least e' least' = elim (dec_lt t id) [
    | yes lt ↦ absurd (least' t lt (absent-nim inv nim_inv a t e))
    | no nlt ↦ elim (dec_lt id t) [
      | yes lt ↦ absurd (least id lt (absent-uthreads inv nim_inv a id e'))
      | no nlt' ↦ omega (arith, nlt, nlt')
    ]
  ]

  spawned-Agree :
      (e t x y : ℕ) (ids : List ℕ) → Agree (grown os (suc e) x t ids s) (spawned os' t (suc e) y n)
  spawned-Agree e t x y ids = record {
    running = a.running;
    ready = rw a.ready refl;
    blocked = a.blocked;
    total = a.total;
    quantums = λ k. new-quantums os os' (suc e) t x y k s.all_threads n.objects (a.quantums k);
    awake = a.awake;
    unlocked = a.unlocked;
    waiting = a.waiting;
  }

  room-Alike :
      (e x y t : ℕ) (ids : List ℕ)
      → os.new_stack ≡ some x
      → os'.new_stack ≡ some y
      → s.free_ids ≡ t ∷ ids
      → Alike (serve os (spawn_at e) s) (nim_serve os' (spawn_at e) n)
  unfolding serve nim_serve
  room-Alike e x y t ids memory nim_memory free =
      let (done, absent, least) = uthread_spawn_lem os s e t x ids well inv free memory in
      let room =
        room-nim t (ground (arith, inv.placed t, absent, free))
          (absent-nim inv nim_inv a t absent) in
      let (id, nim_done, nim_absent, lt, nim_least) =
        uthread_spawn-least os' n (suc e) y nim_well nim_inv room nim_memory in
      let same = least-eq t id absent least nim_absent nim_least in
      answering-Alike (perform os (spawn (suc e)) s) (Program.perform os' (Program.spawn (suc e)) n)
        (returns (pos t)) (nim_returns (pos id)) (grown os (suc e) x t ids s)
        (spawned os' id (suc e) y n) done nim_done (perform-Inv os (spawn (suc e)) s inv tt)
        (perform-After os' (Program.spawn (suc e)) n ordered tt nim_inv)
        (ap (λ k. some (pos k)) same)
        (subst (λ k. Agree (grown os (suc e) x t ids s) (spawned os' k (suc e) y n)) same
          (spawned-Agree e t x y ids))

  pub spawn-Alike :
      (e x y : ℕ)
      → os.new_stack ≡ some x
      → os'.new_stack ≡ some y
      → Alike (serve os (spawn_at e) s) (nim_serve os' (spawn_at e) n)
  spawn-Alike e x y memory nim_memory = elim (nil_or_cons s.free_ids) [
    | inl none_free ↦ full-Alike e y nim_memory none_free
    | inr (t, ids, free) ↦ room-Alike e x y t ids memory nim_memory free
  ]
