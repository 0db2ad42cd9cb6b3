-- ===== src/Uthreads/Rotation/Spec.antt =====
-- The queues and the counters after a switch, as functions of those before it.
use user_level_threads_libra.Prelude.{
  ℕ, zero, suc, ◌≡◌, if◌then◌else◌, Bool, Option, none, some, List, [], ◌∷◌,
}
use user_level_threads_libra.Uthreads.State.{State, UThread}

-- The sleepers whose counter is at its end and that are not blocked besides, in order of their ids.
abbrev pub woken : (ℕ → Bool) → List (ℕ × ℕ) → List ℕ
woken b [] = []
woken b ((t, zero) ∷ m) = let rest = woken b m in if b t then rest else t ∷ rest
woken b ((t, suc n) ∷ m) = woken b m

-- The other sleepers, with a quantum less to go.
abbrev pub ticked : List (ℕ × ℕ) → List (ℕ × ℕ)
ticked [] = []
ticked ((t, zero) ∷ m) = ticked m
ticked ((t, suc n) ∷ m) = (t, n) ∷ ticked m

-- The head of the queue, the main thread if it is empty, and the other threads in it.
abbrev pub first : List ℕ → ℕ
first [] = 0
first (t ∷ ts) = t

abbrev pub others : List ℕ → List ℕ
others [] = []
others (t ∷ ts) = ts

abbrev pub quantums_in : Option UThread → ℕ
quantums_in none = 0
quantums_in (some u) = u.quantums

-- What the queues and the counters of a state are.
pub record View (ready : List ℕ) (sl : List (ℕ × ℕ)) (b : ℕ → Bool) (total r : ℕ) (q : ℕ → ℕ)
    (s : State) : Type 0 where
  pub ready_is : s.ready_tids ≡ ready
  pub sleepers_is : s.sleepers ≡ sl
  pub blocked_is : s.blocked_tids ≡ b
  pub total_is : s.total_quantums ≡ total
  pub running_is : s.running_tid ≡ r
  pub quantums_is : (k : ℕ) → quantums_in (s.all_threads k) ≡ q k
