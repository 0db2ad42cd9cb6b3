-- ===== src/Agreement/Turns.antt =====
-- An expired quantum in uthreads.cpp and in nim/uthreads.cpp.
use user_level_threads_libra.Prelude.{
  true, false, inl, inr, subst, Option-cases, arith, ==-refl, pos, ◌≡◌, refl, sym, ◌∙◌, ap, none,
}
use mathlib.Core.List.{append-nil}
use user_level_threads_libra.Effects.{bind-eq, Result, ok, exited, undefined, Returns}
use user_level_threads_libra.Uthreads.State.{State, Os, ready}
use user_level_threads_libra.Uthreads.Scheduler.{Control}
use user_level_threads_libra.Uthreads.Invariant.Defs.{Inv}
use user_level_threads_libra.Uthreads.Healthy.{IsHealthy}
use user_level_threads_libra.Uthreads.Rotation.Spec.{first, others}
use user_level_threads_libra.Uthreads.Rotation.Turns.{queue_after}
use user_level_threads_libra.Uthreads.RoundRobin.{Turned, quantum, quantum-Turned}
use user_level_threads_libra.Nim.State.{State as NimState, Os as NimOs}
use user_level_threads_libra.Nim.Scheduler.{
  Control as NimControl, alarm_sig_handler, switch_thread, past_jump,
}
use user_level_threads_libra.Nim.State.{ready as nim_ready, in_handler}
use user_level_threads_libra.Nim.Signals.{block}
use user_level_threads_libra.Nim.Process.{◌>>=◌}
use user_level_threads_libra.Nim.Program.{get_quantums, alarm, perform, alarm_comes, settle}
use user_level_threads_libra.Nim.Healthy.{IsHealthy as NimIsHealthy, block-eq}
use user_level_threads_libra.Nim.Invariant.Defs.{Inv as NimInv}
use user_level_threads_libra.Nim.Turns.{Rotated, queue, turned-Rotated}
use user_level_threads_libra.Agreement.{Agree}
use user_level_threads_libra.Agreement.Calls.{
  expiry, serve, nim_serve, nim_quantum, answering, Alike, nim_quantums-eq,
}

-- The same thread is next.
queue-eq :
    (s : State) (n : NimState)
    → Agree s n
    → queue_after s.ready_tids s.sleepers s.blocked_tids ready s.running_tid ≡ queue n
queue-eq s n a = rw (a.awake, a.ready, a.running) simp append-nil

Turned-Agree :
    (s s' : State) (n n' : NimState)
    → Agree s n
    → Turned s s'
    → Rotated n (queue n) n'
    → Agree s' n'
Turned-Agree s s' n n' a t r =
    let q = queue-eq s n a in
    record {
      running = t.running_is ∙ ap first q ∙ sym r.running_is;
      ready = t.ready_is ∙ ap others q ∙ sym r.ready_is;
      blocked = λ k. ap (λ f. f k) t.blocked_is ∙ a.blocked k ∙ sym (ap (λ f. f k) r.blocked_is);
      total = t.total_is ∙ rw a.total (sym r.total_is);
      quantums = λ k. t.quantums_is k ∙ rw (q, a.quantums k) (sym (r.quantums_is k));
      awake = t.sleepers_is ∙ rw a.awake refl;
      unlocked = ap (λ m. m.blocked) r.mutex_is ∙ a.unlocked;
      waiting = r.waiting_is ∙ a.waiting;
    }

answering-Returns :
    (P : State → Type 0) (Q : NimState → Type 0) (r : Result State Control)
    (r' : Result NimState NimControl)
    → Returns (λ _. P) r
    → Returns (λ _. Q) r'
    → ((s : State) (n : NimState) → P s → Q n → Inv s × NimInv n × Agree s n)
    → Alike (answering (λ _. none) r) (answering (λ _. none) r')
unfolding answering
answering-Returns P Q (ok c s) (ok c' n) h h' f = let (i, j, k) = f s n h h' in (refl, i, j, k)
answering-Returns P Q (ok c s) (exited z n) h h' f = h'
answering-Returns P Q (ok c s) undefined h h' f = h'
answering-Returns P Q (exited z s) r' h h' f = h
answering-Returns P Q undefined r' h h' f = h

alarm_sig_handler-eq :
    (os : NimOs) (n : NimState)
    → NimIsHealthy os
    → n.set ≡ true
    → alarm_sig_handler os n
      ≡ switch_thread os nim_ready false true in_handler (record n { masked = true })
unfolding alarm_sig_handler
alarm_sig_handler-eq os n well set =
    bind-eq (block os) (λ _. switch_thread os nim_ready false true in_handler) n
      (block-eq well n set) refl

settled-eq :
    (os : NimOs) (n : NimState)
    → NimIsHealthy os
    → NimInv n
    → (perform os alarm >>= settle past_jump os) (record n { masked = false })
      ≡ (alarm_sig_handler os >>= settle past_jump os) n
unfolding perform alarm_comes
settled-eq os n well inv =
    let e = alarm_sig_handler-eq os n well inv.alarms in
    let f = alarm_sig_handler-eq os (record n { masked = false }) well inv.alarms in
    ap settled (f ∙ sym e)
  where
    settled : Result NimState NimControl → Result NimState NimControl
    settled r = elim r [
      | ok c t ↦ settle past_jump os c t
      | exited z t ↦ exited z t
      | undefined ↦ undefined
    ]

-- The alarm is not kept back.
nim_quantum-Rotated :
    (os : NimOs) (n : NimState)
    → NimIsHealthy os
    → NimInv n
    → Returns (λ _ t. NimInv t × Rotated n (queue n) t) (nim_quantum os n)
unfolding nim_quantum
nim_quantum-Rotated os n well inv = elim (Option-cases (n.objects n.running)) [
  | inl e ↦ absurd (inv.known n.running (==-refl n.running) e)
  | inr (u, e) ↦
      subst (Returns (λ _ t. NimInv t × Rotated n (queue n) t))
        (sym (
          bind-eq (perform os (get_quantums (pos n.running)))
            (λ _. (perform os alarm >>= settle past_jump os)) n
            (nim_quantums-eq os n n.running u well inv (ground (arith, inv.placed n.running, e)) e)
            (settled-eq os n well inv)))
        (turned-Rotated well n inv)
]

pub expiry-Alike :
    (os : Os) (os' : NimOs) (s : State) (n : NimState)
    → IsHealthy os
    → NimIsHealthy os'
    → Inv s
    → NimInv n
    → Agree s n
    → Alike (serve os expiry s) (nim_serve os' expiry n)
unfolding serve nim_serve
expiry-Alike os os' s n well nim_well inv nim_inv a =
    answering-Returns (λ s'. Inv s' × Turned s s') (λ n'. NimInv n' × Rotated n (queue n) n')
      (quantum os s) (nim_quantum os' n) (quantum-Turned os s well inv)
      (nim_quantum-Rotated os' n nim_well nim_inv)
      λ s' n' h h'. (h.0, h'.0, Turned-Agree s s' n n' a h.1 h'.1)
