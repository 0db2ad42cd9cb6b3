-- ===== src/Clients/World/Good.antt =====
-- Code that terminates no other thread, unless no thread of the program sleeps.
use user_level_threads_libra.Prelude.{
  ℕ, zero, suc, ◌+◌, ◌≡◌, Bool, true, false, if◌then◌else◌, Option, some, List, [], ◌∷◌, ℤ, pos,
  ◌⊎◌,
}
use user_level_threads_libra.Uthreads.Program.{
  Event, spawn, terminate, block, resume, sleep, get_quantums, get_tid, get_total_quantums, alarm,
}
use user_level_threads_libra.Clients.Code.{
  Code, ends, forever, aborts, printf, assign, expect, ask, while_ne, Query, variable, result,
  errors, init, Shown, unroll, for_range,
}

-- A call that may stand in the condition or in the body of a `while`.
abbrev pub Harmless : Event → Type 0
Harmless (spawn f) = ⊥
Harmless (terminate t) = ⊥
Harmless (sleep n) = ⊥
Harmless alarm = ⊥
Harmless _ = Unit {0}

abbrev pub Asks : Query → Type 0
Asks (variable x) = Unit {0}
Asks errors = Unit {0}
Asks (init q) = ⊥
Asks (result e) = Harmless e

abbrev pub AllAsk : List Shown → Type 0
AllAsk [] = Unit {0}
AllAsk (a ∷ as') = Asks a.query × AllAsk as'

-- `naps` tells whether a thread may call `uthread_sleep`; `Launched` holds of the addresses of the functions
-- that the program starts.
module _ (naps : Bool) (code_at : ℕ → Option Code) (translate : ℕ → ℕ) (Launched : ℕ → Type 0) where
  abbrev pub Known : ℕ → Type 0
  Known pc = Launched pc × (c : Code) × (code_at pc ≡ some c)

  -- Code that thread `t` may run: it starts known functions, terminates only itself or the process,
  -- or another thread if none ever sleeps, and its function ends only if it is `main`.
  abbrev pub Good : ℕ → Code → Type 0
  Good t ends = t ≡ 0
  Good t forever = Unit {0}
  Good t aborts = Unit {0}
  Good t (printf f as' k) = Good t k
  Good t (assign x v k) = Good t k
  Good t (expect b k) = Good t k
  Good t (ask (variable x) k) = (v : ℤ) → Good t (k v)
  Good t (ask errors k) = (v : ℤ) → Good t (k v)
  Good t (ask (init q) k) = ⊥
  Good t (ask (result (spawn f)) k) = Known (translate f) × ((v : ℤ) → Good t (k v))
  Good t (ask (result (terminate z)) k) =
      ((z ≡ pos t) ⊎ (z ≡ pos 0)) ⊎ ((naps ≡ false) × ((v : ℤ) → Good t (k v)))
  Good t (ask (result (block z)) k) = (v : ℤ) → Good t (k v)
  Good t (ask (result (resume z)) k) = (v : ℤ) → Good t (k v)
  Good t (ask (result (sleep z)) k) = (naps ≡ true) × ((v : ℤ) → Good t (k v))
  Good t (ask (result (get_quantums z)) k) = (v : ℤ) → Good t (k v)
  Good t (ask (result get_tid) k) = Good t (k (pos t))
  Good t (ask (result get_total_quantums) k) = (v : ℤ) → Good t (k v)
  Good t (ask (result alarm) k) = ⊥
  Good t (while_ne q n body k) = Asks q × AllAsk body × Good t k

  abbrev pub AllGood : Type 0
  AllGood = (pc j : ℕ) (c : Code) → Launched pc → code_at pc ≡ some c → Good j c

  pub ask-Good :
      (t : ℕ) (q : Query) (k : ℤ → Code) → Asks q → ((v : ℤ) → Good t (k v)) → Good t (ask q k)
  ask-Good t (variable x) k a g = g
  ask-Good t errors k a g = g
  ask-Good t (init q) k a g = absurd a
  ask-Good t (result (block z)) k a g = g
  ask-Good t (result (resume z)) k a g = g
  ask-Good t (result (sleep z)) k a g = absurd a
  ask-Good t (result (get_quantums z)) k a g = g
  ask-Good t (result get_tid) k a g = g (pos t)
  ask-Good t (result get_total_quantums) k a g = g
  ask-Good t (result (spawn f)) k a g = absurd a
  ask-Good t (result (terminate z)) k a g = absurd a
  ask-Good t (result alarm) k a g = absurd a

  pub unroll-Good :
      (t : ℕ) (body : List Shown) (k : Code) → AllAsk body → Good t k → Good t (unroll body k)
  unfolding unroll
  unroll-Good t [] k a g = g
  unroll-Good t (s ∷ body) k a g =
      ask-Good t s.query (λ v. printf s.format (v ∷ []) (unroll body k)) a.0
        (λ v. unroll-Good t body k a.1 g)

  pub for_range-Good :
      (t n i : ℕ) (body : ℕ → Code → Code) (k : Code)
      → ((j : ℕ) (k : Code) → Good t k → Good t (body j k))
      → Good t k
      → Good t (for_range n i body k)
  unfolding for_range
  for_range-Good t zero i body k b g = g
  for_range-Good t (suc n) i body k b g =
      b i (for_range n (i + 1) body k) (for_range-Good t n (i + 1) body k b g)

  pub if-Good : (t : ℕ) (b : Bool) (k l : Code) → Good t k → Good t l → Good t (if b then k else l)
  if-Good t true k l g h = g
  if-Good t false k l g h = h
