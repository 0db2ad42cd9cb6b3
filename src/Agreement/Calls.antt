-- ===== src/Agreement/Calls.antt =====
-- One request to uthreads.cpp and the same one to nim/uthreads.cpp.
use user_level_threads_libra.Prelude.{
  Bool, false, if◌then◌else◌, ◌==◌, ℕ, suc, ◌≡◌, refl, subst, inl, inr, Bool, true, false, Option,
  none, some, List, count, Option-cases, arith, ℤ, pos, negsuc,
}
use user_level_threads_libra.Effects.{Result, ok, exited, undefined, Returns, Ensures, bind-eq}
use user_level_threads_libra.Uthreads.State.{State, Os, Message, failure, tid_not_exist}
use user_level_threads_libra.Uthreads.Scheduler.{Control, returns}
use user_level_threads_libra.Uthreads.RoundRobin.{quantum, quantums_found-eq}
use user_level_threads_libra.Uthreads.Program.{
  Event, resume, spawn, get_quantums, get_tid, get_total_quantums, perform,
}
use user_level_threads_libra.Uthreads.Invariant.Defs.{Inv}
use user_level_threads_libra.Uthreads.Safety.{perform-Inv}
use user_level_threads_libra.Uthreads.Healthy.{IsHealthy}
use user_level_threads_libra.Uthreads.Contract.Refusals.{refusal, refused, perform-refused}
use user_level_threads_libra.Nim.State.{
  State as NimState, Thread, Os as NimOs, Message as NimMessage, get_quantum_err,
}
use user_level_threads_libra.Nim.Scheduler.{
  Control as NimControl, returns as nim_returns, past_jump,
}
use user_level_threads_libra.Nim.Process.{◌>>=◌, get_id}
use user_level_threads_libra.Nim.Api.{
  uthread_get_tid as nim_get_tid, uthread_get_quantums as nim_get_quantums, get_quantums_id,
  quantums_of as nim_quantums_of, uthread_get_total_quantums as nim_get_total,
}
use user_level_threads_libra.Nim.Program
use user_level_threads_libra.Nim.Invariant.Defs.{Inv as NimInv, After, IsOrdering}
use user_level_threads_libra.Nim.Safety.{perform-After}
use user_level_threads_libra.Nim.Healthy.{IsHealthy as NimIsHealthy, block-eq, leave_with-eq}
use user_level_threads_libra.Nim.Invariant.Locking.{running_id}
use user_level_threads_libra.Nim.Invariant.Steps.{remask as nim_remask}
use user_level_threads_libra.Nim.Signals.{block}
use user_level_threads_libra.Nim.Contract.Refusals.{
  refusal as nim_refusal, refused as nim_refused, perform-refusal,
}
use user_level_threads_libra.Agreement.{Agree, absent-nim, absent-uthreads, nim_known}

-- What a program may ask for. Neither library puts the thread that calls to sleep or locks the mutex here, and
-- an entry point is not null. A thread does not block itself. Before the
-- timer expires, the running thread asks for its own quantums, which opens SIGVTALRM.
pub data Request : Type 0 where
  spawn_at : ℕ → Request
  quantums_of resumed blocked_by_other : ℤ → Request
  tid total expiry : Request

-- The number that a call returns.
abbrev pub answer_of : Control → Option ℤ
answer_of (returns n) = some n
answer_of _ = none

abbrev pub nim_answer_of : NimControl → Option ℤ
nim_answer_of (nim_returns n) = some n
nim_answer_of _ = none

-- What a call returns, where it returns.
unfoldable pub answering : {S C : Type 0} → (C → Option ℤ) → Result S C → Result S (Option ℤ)
answering f (ok c s) = ok (f c) s
answering f (exited n s) = exited n s
answering f undefined = undefined

abbrev pub is_tid : ℤ → ℕ → Bool
is_tid (pos t) r = t == r
is_tid (negsuc t) r = false

unfoldable pub serve : Os → Request → State → Result State (Option ℤ)
unfolding perform quantum answering
serve os (spawn_at e) s = answering answer_of (perform os (spawn (suc e)) s)
serve os (quantums_of t) s = answering answer_of (perform os (get_quantums t) s)
serve os (resumed t) s = answering answer_of (perform os (resume t) s)
serve os (blocked_by_other t) s =
    if is_tid t s.running_tid then ok none s else answering answer_of (perform os (Event.block t) s)
serve os tid s = answering answer_of (perform os get_tid s)
serve os total s = answering answer_of (perform os get_total_quantums s)
serve os expiry s = answering (λ c. none) (quantum os s)

-- `quantum` in nim.
unfoldable pub nim_quantum : NimOs → NimState → Result NimState NimControl
unfolding Program.perform Program.settle
nim_quantum os n =
    (Program.perform os (Program.get_quantums (pos n.running)) >>= λ _.
    (Program.perform os Program.alarm >>= Program.settle past_jump os))
      n

unfoldable pub nim_serve : NimOs → Request → NimState → Result NimState (Option ℤ)
unfolding Program.perform nim_quantum answering
nim_serve os (spawn_at e) n = answering nim_answer_of (Program.perform os (Program.spawn (suc e)) n)
nim_serve os (quantums_of t) n =
    answering nim_answer_of (Program.perform os (Program.get_quantums t) n)
nim_serve os (resumed t) n = answering nim_answer_of (Program.perform os (Program.resume t) n)
nim_serve os (blocked_by_other t) n =
    if is_tid t n.running
    then ok none n
    else answering nim_answer_of (Program.perform os (Program.block t) n)
nim_serve os tid n = answering nim_answer_of (Program.perform os Program.get_tid n)
nim_serve os total n = answering nim_answer_of (Program.perform os Program.get_total_quantums n)
nim_serve os expiry n = answering (λ c. none) (nim_quantum os n)

-- Both return, with the same answer, and leave states that agree.
abbrev pub Alike : Result State (Option ℤ) → Result NimState (Option ℤ) → Type 0
Alike r r' = Returns (λ x s. Returns (λ y n. (x ≡ y) × Inv s × NimInv n × Agree s n) r') r

-- From what the two calls do.
pub answering-Alike :
    (r : Result State Control) (r' : Result NimState NimControl) (c : Control) (c' : NimControl)
    (s : State) (n : NimState)
    → r ≡ ok c s
    → r' ≡ ok c' n
    → Ensures (λ _. Inv) r
    → Ensures After r'
    → answer_of c ≡ nim_answer_of c'
    → Agree s n
    → Alike (answering answer_of r) (answering nim_answer_of r')
unfolding answering
answering-Alike r r' c c' s n e e' inv after q a =
    rw (e, e') (q, subst (Ensures (λ _. Inv)) e inv, (subst (Ensures After) e' after).0, a)

-- Neither the masks nor the error output matter.
pub same-Agree :
    (s : State) (n : NimState) (b c : Bool) (x : List Message) (y : List NimMessage)
    → Agree s n
    → Agree (record s { masked = b; cerr = x }) (record n { masked = c; cerr = y })
same-Agree s n b c x y a = record {
  running = a.running;
  ready = a.ready;
  blocked = a.blocked;
  total = a.total;
  quantums = a.quantums;
  awake = a.awake;
  unlocked = a.unlocked;
  waiting = a.waiting;
}

-- `uthread_get_quantums` in nim for a thread that exists.
pub nim_quantums-eq :
    (os' : NimOs) (n : NimState) (t : ℕ) (u : Thread)
    → NimIsHealthy os'
    → NimInv n
    → count t n.all_threads ≡ 1
    → n.objects t ≡ some u
    → Program.perform os' (Program.get_quantums (pos t)) n
      ≡ ok (nim_returns (pos u.quantums)) (record n { masked = false })
unfolding Program.perform nim_get_quantums get_quantums_id nim_quantums_of
nim_quantums-eq os' n t u nim_well nim_inv c e =
    bind-eq (block os') _ n (block-eq nim_well n nim_inv.alarms) (
      rw (c, e)
        (leave_with-eq nim_well (nim_returns (pos u.quantums)) (record n { masked = true })
          nim_inv.alarms))

module _ {os : Os} {os' : NimOs} {s : State} {n : NimState} (well : IsHealthy os)
    (nim_well : NimIsHealthy os') (ordered : IsOrdering os') (inv : Inv s) (nim_inv : NimInv n)
    (a : Agree s n) where
  nim_total-eq :
      Program.perform os' Program.get_total_quantums n
      ≡ ok (nim_returns (pos n.total_quantum)) (record n { masked = false })
  unfolding Program.perform nim_get_total
  nim_total-eq = bind-eq (block os') _ n (block-eq nim_well n nim_inv.alarms) (
      leave_with-eq nim_well (nim_returns (pos n.total_quantum)) (record n { masked = true })
        nim_inv.alarms)

  nim_tid-eq :
      Program.perform os' Program.get_tid n
      ≡ ok (nim_returns (pos n.running)) (record n { masked = false })
  unfolding Program.perform nim_get_tid
  nim_tid-eq = bind-eq (block os') _ n (block-eq nim_well n nim_inv.alarms) (
      bind-eq (get_id n.running) _ (record n { masked = true })
        (running_id (nim_remask true nim_inv))
        (leave_with-eq nim_well (nim_returns (pos n.running)) (record n { masked = true })
          nim_inv.alarms))

  pub tid-Alike : Alike (serve os tid s) (nim_serve os' tid n)
  unfolding serve nim_serve
  tid-Alike =
      answering-Alike (perform os get_tid s) (Program.perform os' Program.get_tid n)
        (returns (pos s.running_tid)) (nim_returns (pos n.running)) s (record n { masked = false })
        refl (nim_tid-eq) (perform-Inv os get_tid s inv tt)
        (perform-After os' Program.get_tid n ordered tt nim_inv) (ground (arith, a.running))
        (same-Agree s n s.masked false s.cerr n.cerr a)

  pub total-Alike : Alike (serve os total s) (nim_serve os' total n)
  unfolding serve nim_serve
  total-Alike =
      answering-Alike (perform os get_total_quantums s)
        (Program.perform os' Program.get_total_quantums n) (returns (pos s.total_quantums))
        (nim_returns (pos n.total_quantum)) s (record n { masked = false }) refl nim_total-eq
        (perform-Inv os get_total_quantums s inv tt)
        (perform-After os' Program.get_total_quantums n ordered tt nim_inv)
        (ground (arith, a.total)) (same-Agree s n s.masked false s.cerr n.cerr a)

  no_quantums-Alike :
      (z : ℤ)
      → refusal (get_quantums z) s ≡ some tid_not_exist
      → nim_refusal (Program.get_quantums z) n ≡ some get_quantum_err
      → Alike (serve os (quantums_of z) s) (nim_serve os' (quantums_of z) n)
  unfolding serve nim_serve
  no_quantums-Alike z e e' =
      answering-Alike (perform os (get_quantums z) s)
        (Program.perform os' (Program.get_quantums z) n) (returns failure) (nim_returns failure)
        (refused tid_not_exist s) (nim_refused get_quantum_err n)
        (perform-refused os (get_quantums z) s tid_not_exist well e)
        (perform-refusal os' (Program.get_quantums z) n get_quantum_err nim_well nim_inv e')
        (perform-Inv os (get_quantums z) s inv tt)
        (perform-After os' (Program.get_quantums z) n ordered tt nim_inv) refl
        (same-Agree s n true false _ _ a)

  pub quantums-Alike :
      (z : ℤ) → Alike (serve os (quantums_of z) s) (nim_serve os' (quantums_of z) n)
  unfolding serve nim_serve
  quantums-Alike (negsuc m) = no_quantums-Alike (negsuc m) refl refl
  quantums-Alike (pos t) = elim (Option-cases (s.all_threads t)) [
    | inl e ↦
        let gone = absent-nim inv nim_inv a t e in
        no_quantums-Alike (pos t) (ground (arith, e)) (ground (arith, nim_inv.placed t, gone))
    | inr (u, e) ↦ elim (Option-cases (n.objects t)) [
      | inl gone ↦ absurd (ground (arith, absent-uthreads inv nim_inv a t gone, e))
      | inr (v, e') ↦
          answering-Alike (perform os (get_quantums (pos t)) s)
            (Program.perform os' (Program.get_quantums (pos t)) n) (returns (pos u.quantums))
            (nim_returns (pos v.quantums)) (record s { masked = false })
            (record n { masked = false }) (quantums_found-eq os s t u well e)
            (nim_quantums-eq os' n t v nim_well nim_inv (nim_known inv nim_inv a t u e) e')
            (perform-Inv os (get_quantums (pos t)) s inv tt)
            (perform-After os' (Program.get_quantums (pos t)) n ordered tt nim_inv)
            (ground (arith, a.quantums t, e, e')) (same-Agree s n false false s.cerr n.cerr a)
    ]
  ]
