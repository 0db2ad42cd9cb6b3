-- ===== src/Nim/Safety.antt =====
-- The invariant in a program: after `uthread_init`, after a call or an alarm with its landing, and after a
-- history of them.
use user_level_threads_libra.Prelude.{
  ℕ, suc, ◌≡◌, ◌≢◌, refl, subst, Bool, true, false, if◌then◌else◌, Option, none, some, List, [],
  ◌∷◌, pos, count, arith,
}
use user_level_threads_libra.Effects.{Ensures, bind-Ensures, Ensures-mono, Ensures-eq}
use user_level_threads_libra.Uthreads.State.{success, update}
use user_level_threads_libra.Uthreads.Signals.{quantum_timer}
use user_level_threads_libra.Nim.State.{
  Os, State, Point, zeroed, in_constructor, at_entry, in_handler, in_block, in_lock, in_terminate,
}
use user_level_threads_libra.Nim.Process.{ok, ◌>>=◌, die_if, system_error}
use user_level_threads_libra.Nim.Signals.{install_handlers, run_timer}
use user_level_threads_libra.Nim.Scheduler.{
  Control, returns, begins, goes_on, jumps, past_jump, land, after_switch, handler_returns,
  insert_key, alarm_sig_handler,
}
use user_level_threads_libra.Nim.Api.{main_thread, make_main, init_with, uthread_init}
use user_level_threads_libra.Nim.Program.{
  Event, spawn, terminate, block, resume, get_quantums, mutex_lock, mutex_unlock, get_tid,
  get_total_quantums, alarm, perform, settle, run,
}
use user_level_threads_libra.Nim.Invariant.Defs.{
  IsOrdering, Inv, After, Jumped, Jumped-After, OwnerFits,
}
use user_level_threads_libra.Nim.Invariant.Steps.{
  remask, block-Ensures, unblock-Ensures, leave_with-Ensures,
}
use user_level_threads_libra.Nim.Invariant.Switch.{switch_ready-Jumped}
use user_level_threads_libra.Nim.Invariant.Locking.{
  HasMutex, MayLock, Locks, uthread_mutex_lock-Locks, uthread_mutex_unlock-After,
}
use user_level_threads_libra.Nim.Invariant.Spawning.{uthread_spawn-After}
use user_level_threads_libra.Nim.Invariant.Blocking.{uthread_block-After}
use user_level_threads_libra.Nim.Invariant.Resuming.{
  uthread_resume-After, uthread_get_tid-After, uthread_get_quantums-After,
  uthread_get_total_quantums-After,
}
use user_level_threads_libra.Nim.Invariant.Terminating.{uthread_terminate-After}

-- The state in which `uthread_init` returns.
abbrev pub initial : Os → ℕ → State
initial os q = record zeroed {
  objects = update zeroed.objects 0 (some main_thread);
  all_threads = insert_key os 0 [];
  total_quantum = 1;
  quantum_time = q;
  set = true;
  handled = true;
  timer = quantum_timer q;
  armed = true;
}

pub initial-Inv : (os : Os) (q : ℕ) → IsOrdering os → Inv (initial os q)
unfolding main_thread insert_key
initial-Inv os q ord = record {
  placed = λ t. ground (arith, ord t (0 ∷ []));
  envs = λ t h. ground arith;
  owned = refl;
  known = λ t h. ground arith;
  here = refl;
  mask = refl;
  alarms = refl;
}

-- `uthread_init` with a positive quantum, on the zeroed process, is never undefined; if it returns, the
-- invariant holds, whichever of its system calls fail and whatever order its maps have.
pub uthread_init-After :
    (os : Os) (q : ℕ) → IsOrdering os → Ensures (λ _. Inv) (uthread_init os (pos (suc q)) zeroed)
unfolding uthread_init init_with make_main install_handlers run_timer die_if system_error
uthread_init-After os q ord = ground (arith, initial-Inv os (suc q) ord)

-- There is a next thread for a thread that blocks itself, ends itself, or waits for the mutex.
abbrev pub HasNext : Event → State → Type 0
HasNext (terminate t) s = t ≡ pos s.running → s.ready ≢ []
HasNext (block t) s = t ≡ pos s.running → s.ready ≢ []
HasNext mutex_lock s = MayLock s
HasNext _ s = Unit {0}

pub alarm-After : (os : Os) (s : State) → Inv s → Ensures After (alarm_sig_handler os s)
unfolding alarm_sig_handler
alarm-After os s inv =
    block-Ensures os After _ s inv.alarms
      (Ensures-mono Jumped After _ (switch_ready-Jumped os refl (remask true inv)) Jumped-After)

pub perform-After :
    (os : Os) (e : Event) (s : State)
    → IsOrdering os
    → HasNext e s
    → Inv s
    → Ensures After (perform os e s)
unfolding perform
perform-After os (spawn f) s ord next inv = uthread_spawn-After os f ord inv
perform-After os (terminate t) s ord next inv = uthread_terminate-After os t next inv
perform-After os (block t) s ord next inv = uthread_block-After os t next inv
perform-After os (resume t) s ord next inv = uthread_resume-After os t inv
perform-After os (get_quantums t) s ord next inv = uthread_get_quantums-After os t inv
perform-After os mutex_lock s ord next inv =
    Ensures-mono Locks After _ (uthread_mutex_lock-Locks os ord next inv) (λ c t h. h.0)
perform-After os mutex_unlock s ord next inv = uthread_mutex_unlock-After os inv
perform-After os get_tid s ord next inv = uthread_get_tid-After os inv
perform-After os get_total_quantums s ord next inv = uthread_get_total_quantums-After os inv
perform-After os alarm s ord next inv =
    elim s.masked as (λ b. Ensures After (if b then ok goes_on s else alarm_sig_handler os s)) [
      | true ↦ (inv, tt)
      | false ↦ alarm-After os s inv
    ]

-- What the thread that control lands in may rely on.
abbrev pub LandsWell : Point → Control → State → Type 0
LandsWell in_lock c s = (c ≡ returns success) × HasMutex s
LandsWell _ c s = Unit {0}

held_by :
    (b : Bool) (o : Option ℕ) (s : State) (r : ℕ)
    → o ≡ some r
    → OwnerFits b o s.objects s.mutex_blocked
    → b ≡ true
held_by false none s r e h = cc
held_by false (some k) s r e h = absurd h
held_by true o s r e h = refl

land-LandsWell :
    (os : Os) (pt : Point) (s : State)
    → After (jumps pt) s
    → Ensures (λ c t. Inv t × LandsWell pt c t) (land os past_jump pt s)
unfolding land after_switch
land-LandsWell os in_constructor s h = absurd h.1.0
land-LandsWell os (at_entry sp pc) s h = (h.0, tt)
land-LandsWell os in_handler s h =
    unblock-Ensures os (λ c t. Inv t × Unit {0}) (λ _. handler_returns) s h.0.alarms
      (remask false h.0, tt)
land-LandsWell os in_block s h =
    leave_with-Ensures os (λ c t. Inv t × Unit {0}) (returns success) s h.0.alarms
      (remask false h.0, tt)
land-LandsWell os in_lock s h =
    leave_with-Ensures os (λ c t. Inv t × LandsWell in_lock c t) (returns success) s h.0.alarms
      (
        remask false h.0,
        (refl, (held_by s.mutex.blocked s.mutex.thread_block s s.running h.1.1 h.0.owned, h.1.1)),
      )
land-LandsWell os in_terminate s h = absurd h.1.0

settle-Inv :
    (os : Os) (c : Control) (s : State) → After c s → Ensures (λ _. Inv) (settle past_jump os c s)
unfolding settle
settle-Inv os (jumps pt) s h =
    Ensures-mono (λ c t. Inv t × LandsWell pt c t) (λ _. Inv) _ (land-LandsWell os pt s h)
      (λ c t g. g.0)
settle-Inv os (returns n) s h = h.0
settle-Inv os (begins sp pc) s h = h.0
settle-Inv os goes_on s h = h.0

-- If control that is jumped to comes out behind the jump, then a call or an alarm, with the landing of
-- the thread that runs after it, is never undefined in a state with the invariant, provided that there is
-- a next thread where the running thread gives up the processor for long; unless the process exits, the
-- invariant holds after it.
pub step-Inv :
    (os : Os) (e : Event) (s : State)
    → IsOrdering os
    → HasNext e s
    → Inv s
    → Ensures (λ _. Inv) ((perform os e >>= settle past_jump os) s)
step-Inv os e s ord next inv =
    bind-Ensures After (λ _. Inv) (perform os e) (settle past_jump os) s
      (perform-After os e s ord next inv) (settle-Inv os)

-- Each call of a program finds a next thread where it needs one, and its maps have some order.
abbrev pub AllNext : List (Os × Event) → State → Type 0
AllNext [] s = Unit {0}
AllNext ((os, e) ∷ rest) s =
    IsOrdering os
    × HasNext e s
    × ((c : Control) (t : State)
        → (perform os e >>= settle past_jump os) s ≡ ok c t
        → AllNext rest t)

-- If control that is jumped to comes out behind the jump, then no history of calls and alarms with a next
-- thread where one is needed is undefined, from a state with the invariant; unless the process exits, the
-- invariant holds at its end.
pub history-Inv :
    (es : List (Os × Event)) (s : State)
    → Inv s
    → AllNext es s
    → Ensures (λ _. Inv) (run past_jump es s)
unfolding run
history-Inv [] s inv a = inv
history-Inv ((os, e) ∷ rest) s inv a =
    bind-Ensures (λ c t. Inv t × ((perform os e >>= settle past_jump os) s ≡ ok c t)) (λ _. Inv)
      (perform os e >>= settle past_jump os) (λ _. run past_jump rest) s
      (Ensures-eq (λ _. Inv) ((perform os e >>= settle past_jump os) s)
        (step-Inv os e s a.0 a.1 inv))
      λ c t h. history-Inv rest t h.0 (a.2 c t h.1)

-- Mutual exclusion for a thread that had to wait: where control goes back to a thread inside
-- `uthread_mutex_lock`, behind the jump, after a call or an alarm in a state with the invariant and with a
-- next thread where one is needed, that call returns 0 and its thread has the mutex.
pub land-HasMutex :
    (os os' : Os) (e : Event) (s t : State)
    → IsOrdering os
    → HasNext e s
    → Inv s
    → perform os e s ≡ ok (jumps in_lock) t
    → Ensures (λ c r. (c ≡ returns success) × HasMutex r) (land os' past_jump in_lock t)
land-HasMutex os os' e s t ord next inv q =
    Ensures-mono (λ c r. Inv r × LandsWell in_lock c r) (λ c r. (c ≡ returns success) × HasMutex r)
      _ (land-LandsWell os' in_lock t (subst (Ensures After) q (perform-After os e s ord next inv)))
      (λ c r g. g.1)

-- Under the invariant, while the main thread neither runs nor waits for the mutex, it is a next thread for
-- all others: no call and no alarm lacks one.
ready_of_main :
    (s : State) → Inv s → s.running ≢ 0 → count 0 s.mutex_blocked ≡ 0 → (e : Event) → HasNext e s
ready_of_main s inv r0 w e = needs e
  where
    stands : s.ready ≢ []
    stands n = ground (arith, inv.placed 0, n, r0, w)

    needs : (e : Event) → HasNext e s
    needs (terminate t) = λ q. stands
    needs (block t) = λ q. stands
    needs mutex_lock = λ b o. stands
    needs (spawn f) = tt
    needs (resume t) = tt
    needs (get_quantums t) = tt
    needs mutex_unlock = tt
    needs get_tid = tt
    needs get_total_quantums = tt
    needs alarm = tt
