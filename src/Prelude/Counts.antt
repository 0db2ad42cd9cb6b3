-- ===== src/Prelude/Counts.antt =====
-- How the containers' operations change the number of occurrences of each id.
use Prim.Native.Nat.{ℕ, zero, suc, ◌+◌, ◌-◌, ◌<◌, ◌≤◌}
use mathlib.Core.Path.{◌≡◌, refl}
use mathlib.Core.Option.{some}
use mathlib.Core.Logic.{inl, inr}
use mathlib.Core.List.{List, [], ◌∷◌}
use native.Mathlib.Omega.{arith}
use user_level_threads_libra.Prelude.Tests.{◌==◌, ltb, if◌then◌else◌, Bool-cases}
use user_level_threads_libra.Prelude.Lists.{
  one_at, count, length, Above, IsAscending, erase_found, insert_sorted, erase,
}

-- An element that is there is found, and one of its occurrences goes.
pub erase_found-some :
    (x : ℕ) (xs : List ℕ)
    → 0 < count x xs
    → (ys : List ℕ) × (erase_found x xs ≡ some ys)
      × ((t : ℕ) → count t ys + one_at x t ≡ count t xs)
unfolding erase_found
erase_found-some x [] h = absurd (omega arith)
erase_found-some x (y ∷ ys) h = elim (Bool-cases (y == x)) [
  | inl e ↦ (ys, rw e, λ t. ground (arith, e))
  | inr e ↦
      let (zs, q, c) = erase_found-some x ys (ground arith) in
      (y ∷ zs, rw (e, q), λ t. omega (arith, c t))
]

pub erase_found-erase :
    (x : ℕ) (xs : List ℕ) → 0 < count x xs → erase_found x xs ≡ some (erase x xs)
unfolding erase_found erase
erase_found-erase x [] h = absurd (omega arith)
erase_found-erase x (y ∷ ys) h = elim (Bool-cases (y == x)) [
  | inl e ↦ rw e refl
  | inr e ↦ rw (e, erase_found-erase x ys (ground arith)) refl
]

-- A new element is put in once.
pub count-insert_sorted :
    (t x : ℕ) (xs : List ℕ)
    → count x xs ≡ 0
    → count t (insert_sorted x xs) ≡ count t xs + one_at x t
unfolding insert_sorted
count-insert_sorted t x [] h = omega arith
count-insert_sorted t x (y ∷ ys) h = ground (arith, count-insert_sorted t x ys)

Above-insert_sorted : (x y : ℕ) (ys : List ℕ) → y < x → Above y ys → Above y (insert_sorted x ys)
unfolding insert_sorted
Above-insert_sorted x y [] h a = h
Above-insert_sorted x y (z ∷ zs) h a = ground arith

pub insert_sorted-IsAscending :
    (x : ℕ) (ys : List ℕ) → IsAscending ys → IsAscending (insert_sorted x ys)
unfolding insert_sorted
insert_sorted-IsAscending x [] a = (tt, tt)
insert_sorted-IsAscending x (y ∷ ys) a =
    ground (arith, insert_sorted-IsAscending x ys a.1, Above-insert_sorted x y ys)

pub count-erase : (t x : ℕ) (xs : List ℕ) → count t (erase x xs) ≡ count t xs - one_at x t
unfolding erase
count-erase t x [] = omega arith
count-erase t x (y ∷ ys) = ground (arith, count-erase t x ys)

-- How many elements are below `n`.
sum_counts : ℕ → List ℕ → ℕ
sum_counts zero xs = 0
sum_counts (suc n) xs = count n xs + sum_counts n xs

sum_counts-nil : (n : ℕ) → sum_counts n [] ≡ 0
unfolding sum_counts
sum_counts-nil zero = refl
sum_counts-nil (suc n) = omega (arith, sum_counts-nil n)

sum_counts-cons :
    (n x : ℕ) (xs : List ℕ) → sum_counts n (x ∷ xs) ≡ sum_counts n xs + (if ltb x n then 1 else 0)
unfolding sum_counts
sum_counts-cons zero x xs = ground arith
sum_counts-cons (suc n) x xs = ground (arith, sum_counts-cons n x xs)

sum_counts-le-length : (n : ℕ) (xs : List ℕ) → sum_counts n xs ≤ length xs
sum_counts-le-length n [] = omega (arith, sum_counts-nil n)
sum_counts-le-length n (x ∷ xs) = ground (arith, sum_counts-cons n x xs, sum_counts-le-length n xs)

le-sum_counts : (n : ℕ) (xs : List ℕ) → ((k : ℕ) → k < n → 0 < count k xs) → n ≤ sum_counts n xs
unfolding sum_counts
le-sum_counts zero xs h = omega arith
le-sum_counts (suc n) xs h =
    omega (arith, h n (omega arith), le-sum_counts n xs (λ k lt. h k (omega arith)))

-- A list in which each number below `n` occurs has at least `n` elements.
pub le-length_of_counts : (n : ℕ) (xs : List ℕ) → ((k : ℕ) → k < n → 0 < count k xs) → n ≤ length xs
le-length_of_counts n xs h = omega (arith, le-sum_counts n xs h, sum_counts-le-length n xs)

sum_counts-le : (n : ℕ) (xs : List ℕ) → ((k : ℕ) → k < n → count k xs ≤ 1) → sum_counts n xs ≤ n
unfolding sum_counts
sum_counts-le zero xs h = omega arith
sum_counts-le (suc n) xs h =
    omega (arith, h n (omega arith), sum_counts-le n xs (λ k lt. h k (omega arith)))

sum_counts-lt :
    (n t : ℕ) (xs : List ℕ)
    → t < n
    → count t xs ≡ 0
    → ((k : ℕ) → k < n → count k xs ≤ 1)
    → sum_counts n xs < n
unfolding sum_counts
sum_counts-lt zero t xs lt e h = omega arith
sum_counts-lt (suc n) t xs lt e h = elim (Bool-cases (t == n)) [
  | inl q ↦ ground (arith, q, e, sum_counts-le n xs (λ k below. h k (omega arith)))
  | inr q ↦ omega (
    arith,
    h n (omega arith),
    sum_counts-lt n t xs (ground (arith, q, lt)) e (λ k below. h k (omega arith)),
  )
]

length-sum_counts :
    (n : ℕ) (xs : List ℕ) → ((k : ℕ) → n ≤ k → count k xs ≡ 0) → length xs ≤ sum_counts n xs
length-sum_counts n [] h = omega arith
length-sum_counts n (x ∷ xs) h =
    ground
      (arith, sum_counts-cons n x xs, length-sum_counts n xs (λ k le. ground (arith, h k le)), h x)

-- Different numbers below `n`, of which one is missing, are fewer than `n`.
pub length-lt_of_counts :
    (n t : ℕ) (xs : List ℕ)
    → t < n
    → count t xs ≡ 0
    → ((k : ℕ) → k < n → count k xs ≤ 1)
    → ((k : ℕ) → n ≤ k → count k xs ≡ 0)
    → length xs < n
length-lt_of_counts n t xs lt e once out =
    omega (arith, length-sum_counts n xs out, sum_counts-lt n t xs lt e once)
