-- ===== src/Uthreads/Contexts.antt =====
-- Where the threads go on: what is known of the places at which their contexts were saved is kept by each
-- function of the library, and control goes to the place of the thread that runs.
use user_level_threads_libra.Prelude.{
  ℕ, ◌==◌, if◌then◌else◌, ◌≡◌, refl, sym, subst, ℤ, ◌∙◌, Bool, true, false, Option, none, some,
  List, [], ◌∷◌, Bool-cases, inl, inr, Option-cases, arith,
}
use user_level_threads_libra.Effects.{Yields, bind-Yields, Yields-mono}
use user_level_threads_libra.Uthreads.State.{
  State, UThread, Point, in_constructor, at_entry, in_handler, in_block, in_sleep, in_terminate,
  SystemError, Status, LibraryError, update,
}
use user_level_threads_libra.Uthreads.Process.{
  M, ◌>>=◌, ◌>>◌, modify, get, return, die_if, fail_with, at_thread, set_status, push_ready,
}
use user_level_threads_libra.Uthreads.Scheduler.{Control, returns, begins, goes_on}
pub mod Steps
pub mod Api
pub mod Ends

-- `P` holds of the program counter of a new thread, and `Q` of the id of one that has run.
abbrev pub Stands : (P Q : ℕ → Type 0) → ℕ → Point → Type 0
Stands P Q k in_constructor = Q k
Stands P Q k (at_entry sp pc) = P pc
Stands P Q k in_handler = Q k
Stands P Q k in_block = Q k
Stands P Q k in_sleep = Q k
Stands P Q k in_terminate = Q k

abbrev pub Placed : (P Q : ℕ → Type 0) → ℕ → Option UThread → Type 0
Placed P Q k none = Unit {0}
Placed P Q k (some u) = Stands P Q k u.env.point

abbrev pub AllPlaced : (P Q : ℕ → Type 0) → State → Type 0
AllPlaced P Q s = (k : ℕ) → Placed P Q k (s.all_threads k)

abbrev pub Continues : (P Q : ℕ → Type 0) → Control → State → Type 0
Continues P Q (returns n) s = Q s.running_tid
Continues P Q (begins sp pc) s = P pc
Continues P Q goes_on s = Q s.running_tid

module _ (P Q : ℕ → Type 0) where
  -- The running thread stays.
  pub record Keeps (m : M (Unit {0})) : Type 0 where
    pub runs :
        (s : State)
        → AllPlaced P Q s
        → Yields (λ _ t. AllPlaced P Q t × (t.running_tid ≡ s.running_tid)) (m s)

  pub record Holds (m : M (Unit {0})) : Type 0 where
    pub runs : (s : State) → AllPlaced P Q s → Yields (λ _. AllPlaced P Q) (m s)

  -- The call comes from a thread that has run.
  pub record Calls (m : M Control) : Type 0 where
    pub runs :
        (s : State)
        → AllPlaced P Q s
        → Q s.running_tid
        → Yields (λ c t. AllPlaced P Q t × Continues P Q c t) (m s)

  pub record Lands (m : M Control) : Type 0 where
    pub runs :
        (s : State) → AllPlaced P Q s → Yields (λ c t. AllPlaced P Q t × Continues P Q c t) (m s)

  pub die_if-Keeps : (b : Bool) (e : SystemError) → Keeps (die_if b e)
  unfolding die_if
  die_if-Keeps true e = record { runs = λ s h. tt }
  die_if-Keeps false e = record { runs = λ s h. (h, refl) }

  pub seq-Keeps : {m n : M (Unit {0})} → Keeps m → Keeps n → Keeps (m >> n)
  seq-Keeps {m} {n} a b = record {
    runs = λ s h.
        bind-Yields (λ _ t. AllPlaced P Q t × (t.running_tid ≡ s.running_tid))
          (λ _ t. AllPlaced P Q t × (t.running_tid ≡ s.running_tid)) m (λ _. n) s (a.runs s h)
          λ _ t k.
            subst (λ r. Yields (λ _ u. AllPlaced P Q u × (u.running_tid ≡ r)) (n t)) k.1
              (b.runs t k.0);
  }

  pub get-Keeps : {f : State → M (Unit {0})} → ((s : State) → Keeps (f s)) → Keeps (get >>= f)
  get-Keeps g = record { runs = λ s h. (g s).runs s h }

  pub seq-Calls : {m : M (Unit {0})} {n : M Control} → Keeps m → Calls n → Calls (m >> n)
  seq-Calls {m} {n} a b = record {
    runs = λ s h q.
        bind-Yields (λ _ t. AllPlaced P Q t × (t.running_tid ≡ s.running_tid))
          (λ c t. AllPlaced P Q t × Continues P Q c t) m (λ _. n) s (a.runs s h)
          λ _ t k. b.runs t k.0 (subst Q (sym k.1) q);
  }

  pub get-Calls : {f : State → M Control} → ((s : State) → Calls (f s)) → Calls (get >>= f)
  get-Calls g = record { runs = λ s h q. (g s).runs s h q }

  pub Keeps-Holds : {m : M (Unit {0})} → Keeps m → Holds m
  Keeps-Holds {m} a = record {
    runs = λ s h.
        Yields-mono (λ _ t. AllPlaced P Q t × (t.running_tid ≡ s.running_tid)) (λ _. AllPlaced P Q)
          (m s) (a.runs s h) λ _ t k. k.0;
  }

  pub seq-Lands : {m : M (Unit {0})} {n : M Control} → Holds m → Lands n → Lands (m >> n)
  seq-Lands {m} {n} a b = record {
    runs = λ s h.
        bind-Yields (λ _. AllPlaced P Q) (λ c t. AllPlaced P Q t × Continues P Q c t) m (λ _. n) s
          (a.runs s h) λ _ t k. b.runs t k;
  }

  pub Lands-Calls : {m : M Control} → Lands m → Calls m
  Lands-Calls a = record { runs = λ s h q. a.runs s h }

  pub return-Calls : (n : ℤ) → Calls (return (returns n))
  return-Calls n = record { runs = λ s h q. (h, q) }

  pub fail_with-Calls : (n : ℤ) (e : LibraryError) → Calls (fail_with (returns n) e)
  unfolding fail_with
  fail_with-Calls n e = record { runs = λ s h q. (h, q) }

  pub update-Placed :
      (t : ℕ) (v : Option UThread) (m : ℕ → Option UThread)
      → Placed P Q t v
      → ((k : ℕ) → Placed P Q k (m k))
      → (k : ℕ) → Placed P Q k (update m t v k)
  update-Placed t v m p h k = elim (Bool-cases (t == k)) [
    | inl e ↦ rw e (subst (λ j. Placed P Q j v) (ground arith) p)
    | inr e ↦ rw e (h k)
  ]

  pub at_thread-Keeps :
      (t : ℕ) (f : UThread → UThread) → ((u : UThread) → (f u).env ≡ u.env) → Keeps (at_thread t f)
  unfolding at_thread
  at_thread-Keeps t f same = record {
    runs = λ s h. elim (Option-cases (s.all_threads t)) [
      | inl e ↦ rw (e, at_thread) tt
      | inr (u, e) ↦
          rw (e, at_thread)
            (
              update-Placed t (some (f u)) s.all_threads
                  (subst (λ v. Stands P Q t v.point) (sym (same u)) (subst (Placed P Q t) e (h t)))
                  h,
              refl,
            )
    ];
  }

  pub at_thread-Holds :
      (t : ℕ) (f : UThread → UThread)
      → ((u : UThread) → Stands P Q t (f u).env.point)
      → Holds (at_thread t f)
  unfolding at_thread
  at_thread-Holds t f stands = record {
    runs = λ s h. elim (Option-cases (s.all_threads t)) [
      | inl e ↦ rw (e, at_thread) tt
      | inr (u, e) ↦ rw (e, at_thread) (update-Placed t (some (f u)) s.all_threads (stands u) h)
    ];
  }

  pub set_status-Keeps : (t : ℕ) (st : Status) → Keeps (set_status t st)
  unfolding set_status
  set_status-Keeps t st = at_thread-Keeps t (λ u. record u { status = st }) (λ u. refl)

  pub push_ready-Keeps : (t : ℕ) → Keeps (push_ready t)
  unfolding push_ready
  push_ready-Keeps t = record { runs = λ s h. (h, refl) }
