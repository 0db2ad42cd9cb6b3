-- ===== src/Clients/World/Safety.antt =====
-- Every step of a program whose code is `Good`.
use user_level_threads_libra.Prelude.{
  ℕ, zero, suc, ◌==◌, ◌≡◌, refl, sym, subst, ◌∙◌, true, false, if◌then◌else◌, Bool, Option, some,
  List, [], ◌∷◌, ℤ, pos, ◌⊎◌, inl, inr, Bool-cases, arith, ==-refl,
}
use user_level_threads_libra.Effects.{
  Result, ok, exited, undefined, Ensures, bind-Ensures, Ensures-mono, Yields-mono,
}
use user_level_threads_libra.Uthreads.State.{
  Os, UThread, Point, in_constructor, at_entry, in_handler, in_block, in_sleep, in_terminate,
  update, zeroed,
}
use user_level_threads_libra.Uthreads.Scheduler.{Control, returns, begins, goes_on}
use user_level_threads_libra.Uthreads.Api.{
  main_thread, uthread_init, uthread_terminate, uthread_get_tid,
}
use user_level_threads_libra.Uthreads.Program.{
  spawn, terminate, block, resume, sleep, get_quantums, get_tid, get_total_quantums, alarm, perform,
}
use user_level_threads_libra.Uthreads.Invariant.Defs.{Inv}
use user_level_threads_libra.Uthreads.Safety.{uthread_init-Inv}
use user_level_threads_libra.Uthreads.Contexts.{Placed, Continues}
use user_level_threads_libra.Uthreads.Contexts.Ends.{Other, terminate_self-Lands}
use user_level_threads_libra.Clients.Code.{
  Code, ends, forever, aborts, printf, assign, expect, ask, while_ne, variable, result, errors,
  init, equal, unroll,
}
use user_level_threads_libra.Clients.World.{
  World, loaded, library_errors, go_on, value, initialize, after_init, Tick, works, expires, arrive,
  enter, advance, tick, run, run_from, Translates,
}
use user_level_threads_libra.Uthreads.State
use user_level_threads_libra.Clients.World.Good.{Good, AllGood, ask-Good, unroll-Good}
use user_level_threads_libra.Clients.World.Frames
use user_level_threads_libra.Clients.World.Frames.{
  Placed-mono, Ensures-Yields, ==-ne, running_awake, uthread_terminate-exits, Starts,
  uthread_init-Starts,
}

module _ (naps : Bool) (code_at : ℕ → Option Code) (translate : ℕ → ℕ) (Launched : ℕ → Type 0)
    (all : AllGood naps code_at translate Launched) where
  abbrev Framed : (ℕ → Option (ℤ → Code)) → ℕ → Type 0
  Framed = Frames.Framed naps code_at translate Launched all

  abbrev Knows : ℕ → Type 0
  Knows = Frames.Knows naps code_at translate Launched all

  abbrev Stayed : World → ℕ → Type 0
  Stayed = Frames.Stayed naps code_at translate Launched all

  abbrev Sound : World → Type 0
  Sound = Frames.Sound naps code_at translate Launched all

  abbrev leaving : (ℤ → Code) → World → World
  leaving = Frames.leaving naps code_at translate Launched all

  abbrev Arrives : (ℕ → Type 0) → Control → State.State → Type 0
  Arrives = Frames.Arrives naps code_at translate Launched all

  Placed-Other-Framed :
      (k : ℤ → Code) (w : World) (r j : ℕ)
      → w.lib.running_tid ≡ r
      → Other Knows (Stayed w) r j
      → Framed (leaving k w).frames j
  Placed-Other-Framed k w r j e (inl same, ne) = absurd (ne (same ∙ e))
  Placed-Other-Framed k w r j e (inr f, ne) = rw (==-ne w.lib.running_tid j (λ q. ne (sym q ∙ e))) f

  Arrives-mono :
      (Q Q' : ℕ → Type 0)
      → ((k : ℕ) → Q k → Q' k)
      → (c : Control) (t : State.State) → Arrives Q c t
      → Arrives Q' c t
  Arrives-mono Q Q' f c t (h, g) =
      ((λ k. Placed-mono Knows Q Q' k (t.all_threads k) (f k) (h k)), continues c g)
    where
      continues : (c : Control) → Continues Knows Q c t → Continues Knows Q' c t
      continues (returns n) g = f t.running_tid g
      continues (begins sp pc) g = g
      continues goes_on g = f t.running_tid g

  end_main-Sound :
      (os : Os) (k : ℤ → Code) (w : World)
      → Ensures (λ _. Sound) (enter code_at os (terminate (pos 0)) k w)
  unfolding enter perform
  end_main-Sound os k w =
      Frames.entered-Sound naps code_at translate Launched all k w
        (uthread_terminate os (pos 0) w.lib)
        (Ensures-mono (λ _ _. ⊥)
          (λ c t.
            Frames.Safe naps code_at translate Launched all t
            × Arrives (Framed (leaving k w).frames) c t)
          _ (uthread_terminate-exits os w.lib) (λ c t h. absurd h))

  end_own-Sound :
      (os : Os) (r : ℕ) (k : ℤ → Code) (w : World)
      → Sound w
      → w.lib.running_tid ≡ r
      → Ensures (λ _. Sound) (enter code_at os (terminate (pos r)) k w)
  unfolding enter perform
  end_own-Sound os zero k w h e = end_main-Sound os k w
  end_own-Sound os (suc r) k w h e =
      Frames.entered-Sound naps code_at translate Launched all k w
        (uthread_terminate os (pos (suc r)) w.lib)
        (Ensures-Yields (λ _. Frames.Safe naps code_at translate Launched all)
          (Arrives (Framed (leaving k w).frames)) _
          (Frames.perform-Safe naps code_at translate Launched all os (terminate (pos (suc r))) w h
            (running_awake w.lib (suc r) h.inv e) (λ _. tt))
          (Yields-mono (Arrives (Other Knows (Stayed w) (suc r)))
            (Arrives (Framed (leaving k w).frames)) _
            (terminate_self-Lands Knows (Stayed w) os w.lib r h.inv e h.places)
            (Arrives-mono (Other Knows (Stayed w) (suc r)) (Framed (leaving k w).frames)
              (λ j. Placed-Other-Framed k w (suc r) j e))))

  -- The call with which the running thread, or the process, ends.
  end-Sound :
      (os : Os) (z : ℤ) (k : ℤ → Code) (w : World)
      → Sound w
      → ((z ≡ pos w.lib.running_tid) ⊎ (z ≡ pos 0))
        ⊎ ((naps ≡ false)
            × ((v : ℤ) → Good naps code_at translate Launched w.lib.running_tid (k v)))
      → Ensures (λ _. Sound) (enter code_at os (terminate z) k w)
  end-Sound os z k w h (inl (inr e)) =
      subst (λ z. Ensures (λ _. Sound) (enter code_at os (terminate z) k w)) (sym e)
        (end_main-Sound os k w)
  end-Sound os z k w h (inl (inl e)) =
      subst (λ z. Ensures (λ _. Sound) (enter code_at os (terminate z) k w)) (sym e)
        (end_own-Sound os w.lib.running_tid k w h refl)
  end-Sound os z k w h (inr (f, g)) =
      Frames.enter-Sound naps code_at translate Launched all os (terminate z) k w h tt
        (Frames.terminate-Allowed naps code_at translate Launched all z w h f) (λ _. tt) g

  Stayed-leaving : (k : ℤ → Code) (w : World) (j : ℕ) → Stayed w j → Stayed (leaving k w) j
  Stayed-leaving k w j (inl e) = inl e
  Stayed-leaving k w j (inr f) = elim (Bool-cases (w.lib.running_tid == j)) [
    | inl e ↦ inl (ground arith)
    | inr e ↦ inr (rw e f)
  ]

  get_tid-Sound :
      (os : Os) (k : ℤ → Code) (w : World)
      → Sound w
      → Good naps code_at translate Launched w.lib.running_tid (k (pos w.lib.running_tid))
      → Ensures (λ _. Sound) (enter code_at os get_tid k w)
  unfolding enter perform uthread_get_tid arrive go_on
  get_tid-Sound os k w h g =
      let r = w.lib.running_tid in
      subst
        (λ b. Ensures (λ _. Sound) (go_on (if b then some k else w.frames r) (pos r) (leaving k w)))
        (sym (==-refl r))
        record {
          inv = h.inv;
          awake = h.awake;
          places = λ j.
              Placed-mono Knows (Stayed w) (Stayed (leaving k w)) j (w.lib.all_threads j)
                (Stayed-leaving k w j) (h.places j);
          good = g;
        }

  advance-Sound :
      (os : Os) (w : World)
      → ((f : ℕ) → os.translate_address f ≡ translate f)
      → Sound w
      → Ensures (λ _. Sound) (advance code_at os w.now w)
  unfolding advance
  advance-Sound os w same h = go w.now h.good
    where
      go :
          (c : Code)
          → Good naps code_at translate Launched w.lib.running_tid c
          → Ensures (λ _. Sound) (advance code_at os c w)
      go ends g = rw g tt
      go forever g = h
      go aborts g = tt
      go (printf f as' k) g = record { inv = h.inv; awake = h.awake; places = h.places; good = g }
      go (assign x v k) g = record { inv = h.inv; awake = h.awake; places = h.places; good = g }
      go (expect b k) g = record { inv = h.inv; awake = h.awake; places = h.places; good = g }
      go (ask (variable x) k) g = record {
        inv = h.inv;
        awake = h.awake;
        places = h.places;
        good = g (w.vars x);
      }
      go (ask (init q) k) g = absurd g
      go (ask errors k) g = record {
        inv = h.inv;
        awake = h.awake;
        places = h.places;
        good = g (pos (library_errors w.lib.cerr));
      }
      go (ask (result (spawn f)) k) g =
          Frames.enter-Sound naps code_at translate Launched all os (spawn f) k w h
            (subst Knows (sym (same f)) g.0) tt (λ _. tt) g.1
      go (ask (result (terminate z)) k) g = end-Sound os z k w h g
      go (ask (result (block z)) k) g =
          Frames.enter-Sound naps code_at translate Launched all os (block z) k w h tt tt (λ _. tt)
            g
      go (ask (result (resume z)) k) g =
          Frames.enter-Sound naps code_at translate Launched all os (resume z) k w h tt tt (λ _. tt)
            g
      go (ask (result (sleep z)) k) g =
          Frames.enter-Sound naps code_at translate Launched all os (sleep z) k w h tt tt
            (λ f. absurd (ground (arith, g.0, f))) g.1
      go (ask (result (get_quantums z)) k) g =
          Frames.enter-Sound naps code_at translate Launched all os (get_quantums z) k w h tt tt
            (λ _. tt) g
      go (ask (result get_tid) k) g = get_tid-Sound os k w h g
      go (ask (result get_total_quantums) k) g =
          Frames.enter-Sound naps code_at translate Launched all os get_total_quantums k w h tt tt
            (λ _. tt) g
      go (ask (result alarm) k) g = absurd g
      go (while_ne q n body k) (a, b, g) = record {
        inv = h.inv;
        awake = h.awake;
        places = h.places;
        good =
            ask-Good naps code_at translate Launched w.lib.running_tid q _ a
              (λ v. round v (Bool-cases (equal v n)));
      }
        where
          round :
              (v : ℤ)
              → (equal v n ≡ true) ⊎ (equal v n ≡ false)
              → Good naps code_at translate Launched w.lib.running_tid
                  (if equal v n then k else unroll body (while_ne q n body k))
          round v (inl e) = rw e g
          round v (inr e) = rw e (
              unroll-Good naps code_at translate Launched w.lib.running_tid body
                (while_ne q n body k) b (a, b, g))

  tick-Sound :
      (os : Os) (t : Tick) (w : World)
      → ((f : ℕ) → os.translate_address f ≡ translate f)
      → Sound w
      → Ensures (λ _. Sound) (tick code_at os t w)
  unfolding tick
  tick-Sound os works w same h = advance-Sound os w same h
  tick-Sound os expires w same h =
      elim w.lib.armed
        as (λ b.
          Ensures (λ _. Sound) (if b then enter code_at os alarm (λ _. w.now) w else ok tt w)) [
            | true ↦
                Frames.enter-Sound naps code_at translate Launched all os alarm (λ _. w.now) w h tt
                  tt (λ _. tt) (λ v. h.good)
            | false ↦ h
          ]

  pub run-Sound :
      (ts : List (Os × Tick)) (w : World)
      → Translates translate ts
      → Sound w
      → Ensures (λ _. Sound) (run code_at ts w)
  unfolding run
  run-Sound [] w same h = h
  run-Sound ((os, t) ∷ ts) w same h =
      bind-Ensures (λ _. Sound) (λ _. Sound) (tick code_at os t) (λ _. run code_at ts) w
        (tick-Sound os t w same.0 h) λ _ v k. run-Sound ts v same.1 k

  pub run_from-Sound :
      (r : Result World (Unit {0})) (ts : List (Os × Tick))
      → Translates translate ts
      → Ensures (λ _. Sound) r
      → Ensures (λ _. Sound) (run_from code_at r ts)
  unfolding run_from
  run_from-Sound (ok a w) ts same h = run-Sound ts w same h
  run_from-Sound (exited n w) ts same h = tt
  run_from-Sound undefined ts same h = h

  pub initialize-Sound :
      (os : Os) (q : ℕ) (k : ℤ → Code)
      → ((v : ℤ) → Good naps code_at translate Launched 0 (k v))
      → Ensures (λ _. Sound) (initialize os (pos (suc q)) k loaded)
  unfolding initialize main_thread
  initialize-Sound os q k g = go (uthread_init os (pos (suc q)) zeroed) (
      Ensures-Yields (λ _. Inv) (λ _ t. Starts t) _ (uthread_init-Inv os q)
        (uthread_init-Starts os q))
    where
      go :
          (r : Result State.State Control)
          → Ensures {0} (λ _ t. Inv t × Starts t) r
          → Ensures {0}
              (λ _. Sound)
              (elim r [
                | ok c s ↦ ok tt (record loaded { lib = s; now = k (value c) })
                | exited n s ↦ exited n (record loaded { lib = s })
                | undefined ↦ undefined
              ])
      go (ok c s) (inv, (only, zeroth, none_asleep)) = record {
        inv = inv;
        awake = λ _. none_asleep;
        places = λ j.
            subst
              (λ m. Placed Knows (Stayed (record loaded { lib = s; now = k (value c) })) j (m j))
              (sym only)
              (elim (Bool-cases (0 == j)) [
                | inl e ↦ rw e (inl (ground (arith, zeroth)))
                | inr e ↦ rw e tt
              ]);
        good = rw zeroth (g (value c));
      }
      go (exited n s) h = tt
      go undefined h = h

  pub after_init-Sound :
      (os : Os) (q : ℕ) (body : Code)
      → Good naps code_at translate Launched 0 body
      → Ensures (λ _. Sound) (after_init os (pos (suc q)) body)
  unfolding after_init
  after_init-Sound os q body g = initialize-Sound os q (λ _. body) (λ _. g)
