-- ===== src/Clients/World/Frames.antt =====
-- What a frame, or the entry of a function, is when control arrives there.
use user_level_threads_libra.Prelude.{
  Bool, [], negsuc, ℕ, suc, ◌==◌, ◌≡◌, ◌≢◌, refl, subst, false, Option, none, some, ℤ, pos, ◌⊎◌,
  inl, inr, Bool-cases, Option-cases, arith,
}
use user_level_threads_libra.Effects.{Result, ok, exited, undefined, Ensures, Yields, Yields-mono}
use user_level_threads_libra.Uthreads.State.{
  Os, UThread, Point, in_constructor, at_entry, in_handler, in_block, in_sleep, in_terminate,
  update, zeroed,
}
use user_level_threads_libra.Uthreads.Scheduler.{Control, returns, begins, goes_on}
use user_level_threads_libra.Uthreads.Api.{
  main_thread, init_with, uthread_init, uthread_terminate, terminate_id,
}
use user_level_threads_libra.Uthreads.Signals.{block_vt_alarm}
use user_level_threads_libra.Uthreads.Program.{Event, terminate, perform, NotAsleep, Allowed}
use user_level_threads_libra.Uthreads.Invariant.Defs.{Inv}
use user_level_threads_libra.Uthreads.Safety.{perform-Inv}
use user_level_threads_libra.Uthreads.Contexts.{Stands, Placed, AllPlaced, Continues}
use user_level_threads_libra.Uthreads.Contexts.Api.{Launches, perform-Calls}
use user_level_threads_libra.Uthreads.Sleepless.Api.{IsAwake, perform-Sleepless}
use user_level_threads_libra.Clients.Code.{Code}
use user_level_threads_libra.Clients.World.{World, go_on, begin, arrive, enter}
use user_level_threads_libra.Uthreads.State
use user_level_threads_libra.Clients.World.Good.{Known, Good, AllGood}

pub Placed-mono :
    (P Q Q' : ℕ → Type 0) (k : ℕ) (o : Option UThread)
    → (Q k → Q' k)
    → Placed P Q k o
    → Placed P Q' k o
Placed-mono P Q Q' k none f h = tt
Placed-mono P Q Q' k (some u) f h = stands u.env.point h
  where
    stands : (p : Point) → Stands P Q k p → Stands P Q' k p
    stands in_constructor h = f h
    stands (at_entry sp pc) h = h
    stands in_handler h = f h
    stands in_block h = f h
    stands in_sleep h = f h
    stands in_terminate h = f h

pub Ensures-Yields :
    {S A : Type 0} (P Q : A → S → Type 0) (r : Result S A)
    → Ensures P r
    → Yields Q r
    → Ensures (λ a t. P a t × Q a t) r
Ensures-Yields P Q (ok a t) e y = (e, y)
Ensures-Yields P Q (exited n t) e y = tt
Ensures-Yields P Q undefined e y = e

Yields-all :
    {S A : Type 0} (P : A → S → Type 0) (r : Result S A) → ((a : A) (t : S) → P a t) → Yields P r
Yields-all P (ok a t) f = f a t
Yields-all P (exited n t) f = tt
Yields-all P undefined f = tt

pub ==-ne : (a b : ℕ) → a ≢ b → (a == b) ≡ false
==-ne a b ne = elim (Bool-cases (a == b)) [ inl e ↦ absurd (ne (ground arith)) | inr e ↦ e ]

pub running_awake :
    (s : State.State) (r : ℕ) → Inv s → s.running_tid ≡ r → NotAsleep (s.all_threads r)
running_awake s r inv e = elim (Option-cases (s.all_threads r)) [
  | inl none_ ↦ rw none_ tt
  | inr (u, here) ↦ rw here (λ st. ground (arith, inv.placed r, here, e, st))
]

pub uthread_terminate-exits :
    (os : Os) (s : State.State) → Ensures (λ _ _. ⊥) (uthread_terminate os (pos 0) s)
unfolding uthread_terminate terminate_id block_vt_alarm
uthread_terminate-exits os s = ground arith

pub main_awake : (s : State.State) → Inv s → NotAsleep (s.all_threads 0)
main_awake s inv = elim (Option-cases (s.all_threads 0)) [
  | inl none_ ↦ rw none_ tt
  | inr (u, here) ↦ rw here (λ st. ground (arith, inv.placed 0, here, st))
]

-- After `uthread_init` there is the main thread alone, and it runs.
abbrev pub Starts : State.State → Type 0
Starts t =
    (t.all_threads ≡ update (λ _. none) 0 (some main_thread))
    × (t.running_tid ≡ 0)
    × (t.sleepers ≡ [])

pub uthread_init-Starts :
    (os : Os) (q : ℕ) → Yields (λ _ t. Starts t) (uthread_init os (pos (suc q)) zeroed)
unfolding uthread_init init_with
uthread_init-Starts os q = ground arith

module _ (naps : Bool) (code_at : ℕ → Option Code) (translate : ℕ → ℕ) (Launched : ℕ → Type 0)
    (all : AllGood naps code_at translate Launched) where
  -- The thread `k` has a frame from which it may go on.
  abbrev pub Framed : (ℕ → Option (ℤ → Code)) → ℕ → Type 0
  Framed frames k =
      (f : ℤ → Code) × (frames k ≡ some f)
      × ((v : ℤ) → Good naps code_at translate Launched k (f v))

  abbrev pub Knows : ℕ → Type 0
  Knows = Known naps code_at translate Launched

  abbrev pub Stayed : World → ℕ → Type 0
  Stayed w k = (k ≡ w.lib.running_tid) ⊎ Framed w.frames k

  -- Each thread but the running one has a frame, or is at the entry of a function; and the code of the
  -- running thread may be run.
  pub record Sound (w : World) : Type 0 where
    pub inv : Inv w.lib
    pub awake : naps ≡ false → w.lib.sleepers ≡ []
    pub places : AllPlaced Knows (Stayed w) w.lib
    pub good : Good naps code_at translate Launched w.lib.running_tid w.now

  abbrev pub Safe : State.State → Type 0
  Safe t = Inv t × (naps ≡ false → t.sleepers ≡ [])

  arrive-Sound :
      (c : Control) (w : World)
      → Safe w.lib
      → AllPlaced Knows (Framed w.frames) w.lib
      → Continues Knows (Framed w.frames) c w.lib
      → Ensures (λ _. Sound) (arrive code_at c w)
  unfolding arrive go_on begin
  arrive-Sound (returns n) w inv h (f, e, g) =
      rw (e, go_on)
        (record {
          inv = inv.0;
          awake = inv.1;
          places = λ k.
              Placed-mono Knows (Framed w.frames) (Stayed w) k (w.lib.all_threads k) (λ q. inr q)
                (h k);
          good = g n;
        })
  arrive-Sound (begins sp pc) w inv h (l, c, e) =
      rw (e, begin)
        (record {
          inv = inv.0;
          awake = inv.1;
          places = λ k.
              Placed-mono Knows (Framed w.frames) (Stayed w) k (w.lib.all_threads k) (λ q. inr q)
                (h k);
          good = all pc w.lib.running_tid c l e;
        })
  arrive-Sound goes_on w inv h (f, e, g) =
      rw (e, go_on)
        (record {
          inv = inv.0;
          awake = inv.1;
          places = λ k.
              Placed-mono Knows (Framed w.frames) (Stayed w) k (w.lib.all_threads k) (λ q. inr q)
                (h k);
          good = g (pos 0);
        })

  -- The world whose running thread has left a frame.
  abbrev pub leaving : (ℤ → Code) → World → World
  leaving k w = record w { frames = update w.frames w.lib.running_tid (some k) }

  Stayed-Framed :
      (k : ℤ → Code) (w : World) (j : ℕ)
      → ((v : ℤ) → Good naps code_at translate Launched w.lib.running_tid (k v))
      → Stayed w j
      → Framed (leaving k w).frames j
  Stayed-Framed k w j g q = elim (Bool-cases (w.lib.running_tid == j)) [
    | inl e ↦ (
      k,
      rw e refl,
      subst (λ r. (v : ℤ) → Good naps code_at translate Launched r (k v)) (ground arith) g,
    )
    | inr e ↦ rw e (elim q [ inl same ↦ absurd (ground (arith, same, e)) | inr f ↦ f ])
  ]

  abbrev pub Arrives : (ℕ → Type 0) → Control → State.State → Type 0
  Arrives Q c t = AllPlaced Knows Q t × Continues Knows Q c t

  -- The rest of `enter`, from what is known of the result of the call.
  pub entered-Sound :
      (k : ℤ → Code) (w : World) (r : Result State.State Control)
      → Ensures (λ c t. Safe t × Arrives (Framed (leaving k w).frames) c t) r
      → Ensures
          (λ _. Sound)
          (elim r [
            | ok c s ↦ arrive code_at c (record (leaving k w) { lib = s })
            | exited n s ↦ exited n (record w { lib = s })
            | undefined ↦ undefined
          ])
  entered-Sound k w (ok c s) (inv, (h, q)) =
      arrive-Sound c (record (leaving k w) { lib = s }) inv h q
  entered-Sound k w (exited n s) h = tt
  entered-Sound k w undefined h = h

  pub perform-Safe :
      (os : Os) (e : Event) (w : World)
      → Sound w
      → Allowed e w.lib
      → (naps ≡ false → IsAwake e)
      → Ensures (λ _. Safe) (perform os e w.lib)
  perform-Safe os e w h a c =
      Ensures-Yields (λ _. Inv) (λ _ t. naps ≡ false → t.sleepers ≡ []) (perform os e w.lib)
        (perform-Inv os e w.lib h.inv a)
        (elim (Bool-cases naps) [
          | inl e' ↦
              Yields-all (λ _ t. naps ≡ false → t.sleepers ≡ []) (perform os e w.lib)
                (λ _ t f. absurd (ground (arith, e', f)))
          | inr f ↦
              Yields-mono (λ _ t. t.sleepers ≡ []) (λ _ t. naps ≡ false → t.sleepers ≡ []) _
                ((perform-Sleepless os e (c f)).runs w.lib (h.awake f)) (λ _ t k _. k)
        ])

  -- Where nobody sleeps, any thread may be terminated.
  pub terminate-Allowed : (z : ℤ) (w : World) → Sound w → naps ≡ false → Allowed (terminate z) w.lib
  terminate-Allowed (negsuc n) w h f = tt
  terminate-Allowed (pos t) w h f = elim (Option-cases (w.lib.all_threads t)) [
    | inl none_ ↦ rw none_ tt
    | inr (u, here) ↦ rw here (λ st. ground (arith, h.inv.placed t, here, h.awake f, st))
  ]

  pub enter-Sound :
      (os : Os) (e : Event) (k : ℤ → Code) (w : World)
      → Sound w
      → Launches Knows os e
      → Allowed e w.lib
      → (naps ≡ false → IsAwake e)
      → ((v : ℤ) → Good naps code_at translate Launched w.lib.running_tid (k v))
      → Ensures (λ _. Sound) (enter code_at os e k w)
  unfolding enter
  enter-Sound os e k w h l a c g = entered-Sound k w (perform os e w.lib) (
      Ensures-Yields (λ _. Safe) (Arrives (Framed (leaving k w).frames)) (perform os e w.lib)
        (perform-Safe os e w h a c)
        ((perform-Calls Knows (Framed (leaving k w).frames) os e l).runs w.lib
          (λ j.
            Placed-mono Knows (Stayed w) (Framed (leaving k w).frames) j (w.lib.all_threads j)
              (Stayed-Framed k w j g) (h.places j))
          (Stayed-Framed k w w.lib.running_tid g (inl refl))))
