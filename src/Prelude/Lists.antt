-- ===== src/Prelude/Lists.antt =====
-- Lists of thread ids: how often an id occurs, and the containers of the C++ library that the
-- sources use (std::deque, std::set) as far as they use them.
use Prim.Native.Nat.{ℕ, suc, ◌+◌, ◌<◌}
use mathlib.Core.Path.{◌≡◌}
use mathlib.Core.Option.{Option, none, some}
use mathlib.Core.Option
use mathlib.Core.Bool.{Bool}
use mathlib.Core.List.{List, [], ◌∷◌, ◌++◌}
use native.Mathlib.Omega.{arith}
use user_level_threads_libra.Prelude.Tests.{ltb, ◌==◌, if◌then◌else◌}

-- 1 for the id that is counted, 0 for another.
abbrev pub one_at : ℕ → ℕ → ℕ
one_at x t = if x == t then 1 else 0

abbrev pub count : ℕ → List ℕ → ℕ
count t [] = 0
count t (x ∷ xs) = one_at x t + count t xs

abbrev pub length {ℓ} : {A : Type ℓ} → List A → ℕ
length [] = 0
length (x ∷ xs) = suc (length xs)

pub count-append : (t : ℕ) (xs ys : List ℕ) → count t (xs ++ ys) ≡ count t xs + count t ys
count-append t [] ys = omega arith
count-append t (x ∷ xs) ys = omega (arith, count-append t xs ys)

pub count-snoc : (t : ℕ) (xs : List ℕ) (x : ℕ) → count t (xs ++ x ∷ []) ≡ count t xs + one_at x t
count-snoc t xs x = omega (arith, count-append t xs (x ∷ []))

-- `d.erase(std::find(d.begin(), d.end(), x))`: the first `x` goes. If there is none, `find` gives
-- `end()`, and to erase that is undefined: `none`.
unfoldable pub erase_found : ℕ → List ℕ → Option (List ℕ)
erase_found x [] = none
erase_found x (y ∷ ys) =
    let rest = Option.map (λ zs. y ∷ zs) (erase_found x ys) in if y == x then some ys else rest

-- std::set<int>::insert: in increasing order, and nothing happens to an element that is there.
unfoldable pub insert_sorted : ℕ → List ℕ → List ℕ
insert_sorted x [] = x ∷ []
insert_sorted x (y ∷ ys) =
    let rest = y ∷ insert_sorted x ys in
    if ltb x y then x ∷ y ∷ ys else (if x == y then y ∷ ys else rest)

abbrev pub Above : ℕ → List ℕ → Type 0
Above x [] = Unit {0}
Above x (y ∷ ys) = x < y

-- The order of a std::set.
abbrev pub IsAscending : List ℕ → Type 0
IsAscending [] = Unit {0}
IsAscending (x ∷ xs) = Above x xs × IsAscending xs

-- `m.find(x) != m.end()`
abbrev pub contains : ℕ → List ℕ → Bool
contains x m = ltb 0 (count x m)

-- `m.erase(x)` for a key or an iterator: the first `x` goes, if there is one.
unfoldable pub erase : ℕ → List ℕ → List ℕ
erase x [] = []
erase x (y ∷ ys) = let rest = y ∷ erase x ys in if y == x then ys else rest
