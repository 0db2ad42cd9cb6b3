-- ===== src/Demos/Jmp/Places.antt =====
-- Where the threads of demos/demo_jmp.c stand: the one that runs, the one that waits, and a round's states.
use user_level_threads_libra.Prelude.{
  ℕ, zero, suc, ◌+◌, ◌%◌, ◌<◌, ◌≡◌, refl, sym, ap, Bool, ◌==◌, some, List, [], ◌∷◌, ◌++◌, pos,
  arith, ◌⊎◌,
}
use native.Mathlib.Numerals.{unary_clauses}
use user_level_threads_libra.Effects.{ok}
use user_level_threads_libra.Demos.Jmp.{
  update, EntryPoint, thread0, thread1, in_yield, at_entry, Act, in_thread, yielding, yield_ret,
  usleep, State, Machine, int_max, index, increment, period, second, other,
}

abbrev number : EntryPoint → Act → List ℕ
number thread0 (in_thread thread0 i) = i ∷ []
number thread1 (in_thread thread1 i) = i ∷ []
number _ _ = []

-- The numbers that a thread has printed, newest first.
abbrev pub printed : EntryPoint → List Act → List ℕ
printed f [] = []
printed f (a ∷ acts) = number f a ++ printed f acts

abbrev pub countdown : ℕ → List ℕ
countdown zero = []
countdown (suc n) = suc n ∷ countdown n

pub countdown-next : (i : ℕ) {l : List ℕ} → l ≡ countdown i → (i + 1) ∷ l ≡ countdown (i + 1)
countdown-next i e = simp unary_clauses (ap (λ l. suc i ∷ l) e)

abbrev pub id_of : EntryPoint → ℕ
id_of thread0 = 0
id_of thread1 = 1

abbrev Both : (EntryPoint → Type 0) → Type 0
Both P = P thread0 × P thread1

abbrev pub peer : EntryPoint → EntryPoint
peer thread0 = thread1
peer thread1 = thread0

-- The place of a thread that does not run: it waits in `yield`, or its function has not begun.
abbrev pub Waits : Machine → EntryPoint → State → Type 0
Waits c f s =
    ((s.counter (id_of f) ≡ 0)
      × (sp : ℕ) × (s.env (id_of f)
          ≡ record { point = at_entry sp (c.translate_address (c.address f)); saved_mask = [] }))
    ⊎ ((s.env (id_of f) ≡ record { point = in_yield; saved_mask = [] })
        × (s.frame (id_of f) ≡ some f))

-- Thread `f` runs, and the other one waits.
pub record Runs (c : Machine) (f : EntryPoint) (s : State) : Type 0 where
  pub turn : s.current_thread ≡ pos (id_of f)
  pub runs : s.frame (id_of f) ≡ some f
  pub waits : Waits c (peer f) s
  pub lines : Both (λ g. printed g s.acts ≡ countdown (s.counter (id_of g)))
  pub empty : s.mask ≡ []

pub index-id_of : (f : EntryPoint) (s : State) → index (pos (id_of f)) s ≡ ok (id_of f) s
unfolding index
index-id_of thread0 s = refl
index-id_of thread1 s = refl

-- The state in which the counter has been incremented and printed.
abbrev pub counted : EntryPoint → State → State
counted f s =
    let i = s.counter (id_of f) + 1 in
    record s { counter = update s.counter (id_of f) i; acts = in_thread f i ∷ s.acts }

pub increment-eq :
    (t : ℕ) (s : State)
    → s.counter t < int_max
    → increment t s
      ≡ ok (s.counter t + 1) (record s { counter = update s.counter t (s.counter t + 1) })
unfolding increment
increment-eq t s lt = ground arith

abbrev pub is_due : EntryPoint → State → Bool
is_due f s = (s.counter (id_of f) + 1) % period f == 0

abbrev pub slept : State → State
slept s = record s { acts = usleep second ∷ s.acts }

-- The state in which thread `f` has saved its environment in `yield`.
abbrev pub parked : EntryPoint → State → State
parked f s = record s {
  env = update s.env (id_of f) (record { point = in_yield; saved_mask = s.mask });
  acts = yield_ret 0 ∷ s.acts;
}

abbrev pub announced : EntryPoint → State → State
announced f s = record (counted f s) { acts = yielding f ∷ (counted f s).acts }

pub other-id_of :
    (f : EntryPoint) (s : State)
    → s.current_thread ≡ pos (id_of f)
    → other s.current_thread ≡ pos (id_of (peer f))
other-id_of thread0 s e = ap other e
other-id_of thread1 s e = ap other e

-- Control has jumped to thread `f`.
pub record Landed (f : EntryPoint) (s r : State) : Type 0 where
  pub here : r.current_thread ≡ pos (id_of f)
  pub in_frame : r.frame (id_of f) ≡ some f
  pub same_env : r.env ≡ s.env
  pub same_frame : r.frame (id_of (peer f)) ≡ s.frame (id_of (peer f))
  pub same_counters : Both (λ g. r.counter (id_of g) ≡ s.counter (id_of g))
  pub same_lines : Both (λ g. printed g r.acts ≡ printed g s.acts)
  pub empty : r.mask ≡ []

pub begun-Landed :
    (f : EntryPoint) (s : State)
    → s.counter (id_of f) ≡ 0
    → Landed f s (record s {
      current_thread = pos (id_of f);
      mask = [];
      frame = update s.frame (id_of f) (some f);
      counter = update s.counter (id_of f) 0;
    })
begun-Landed thread0 s i = record {
  here = refl;
  in_frame = refl;
  same_env = refl;
  same_frame = refl;
  same_counters = (sym i, refl);
  same_lines = (refl, refl);
  empty = refl;
}
begun-Landed thread1 s i = record {
  here = refl;
  in_frame = refl;
  same_env = refl;
  same_frame = refl;
  same_counters = (refl, sym i);
  same_lines = (refl, refl);
  empty = refl;
}
