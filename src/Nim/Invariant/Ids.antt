-- ===== src/Nim/Invariant/Ids.antt =====
-- The loop of `getId`: the id of a new thread.
use user_level_threads_libra.Prelude.{
  ℕ, zero, suc, ◌+◌, ◌-◌, ◌≤◌, ◌<◌, ◌≡◌, ◌⊎◌, inl, inr, List, count, contains, length,
  le-length_of_counts, Bool-cases, arith,
}
use user_level_threads_libra.Uthreads.State.{max_thread_num}
use user_level_threads_libra.Nim.Api.{first_free, get_free_id}

-- What the loop of `getId` finds: the least id that is free, or none is.
abbrev FirstFree : ℕ → ℕ → List ℕ → ℕ → Type 0
FirstFree n i ids r =
    ((i ≤ r) × (r < i + n) × (count r ids ≡ 0) × ((k : ℕ) → i ≤ k → k < r → 0 < count k ids))
    ⊎ ((k : ℕ) → i ≤ k → k < i + n → 0 < count k ids)

first_free-FirstFree : (n i : ℕ) (ids : List ℕ) → FirstFree n i ids (first_free n i ids)
unfolding first_free
first_free-FirstFree zero i ids = inr (λ k a b. absurd (omega arith))
first_free-FirstFree (suc n) i ids = elim (Bool-cases (contains i ids)) [
  | inl used ↦ rw used (elim (first_free-FirstFree n (i + 1) ids) [
    | inl (a, b, c, d) ↦ inl (omega arith, omega arith, c, λ k le lt. ground (arith, used, d k))
    | inr all ↦ inr (λ k le lt. ground (arith, used, all k))
  ])
  | inr free ↦
      rw free
        (inl (omega arith, omega arith, ground (arith, free), λ k le lt. absurd (omega arith)))
]

-- While fewer than MAX_THREAD_NUM threads exist, `getId` returns the least id that no thread has.
pub get_free_id-least :
    (ids : List ℕ)
    → 0 < count 0 ids
    → length ids < max_thread_num
    → (0 < get_free_id ids)
      × (get_free_id ids < max_thread_num)
      × (count (get_free_id ids) ids ≡ 0)
      × ((k : ℕ) → k < get_free_id ids → 0 < count k ids)
unfolding get_free_id
get_free_id-least ids main few = elim (first_free-FirstFree (max_thread_num - 1) 1 ids) [
  | inl (a, b, c, d) ↦ (omega arith, omega arith, c, λ k lt. at_least k lt d)
  | inr all ↦
      absurd (omega (arith, le-length_of_counts max_thread_num ids (λ k lt. within k lt all)))
]
  where
    within :
        (k : ℕ)
        → k < max_thread_num
        → ((j : ℕ) → 1 ≤ j → j < 1 + (max_thread_num - 1) → 0 < count j ids)
        → 0 < count k ids
    within zero lt all = main
    within (suc k) lt all = all (suc k) (omega arith) (omega arith)

    at_least :
        (k : ℕ)
        → k < first_free (max_thread_num - 1) 1 ids
        → ((j : ℕ) → 1 ≤ j → j < first_free (max_thread_num - 1) 1 ids → 0 < count j ids)
        → 0 < count k ids
    at_least zero lt d = main
    at_least (suc k) lt d = d (suc k) (omega arith) lt
