-- ===== src/Uthreads/Defects/Masks.antt =====
-- The signal mask with which a thread goes on after a switch. `uthread_sleep` lacks the call of
-- `unblock_vtAlarm` that the other functions end with.
use user_level_threads_libra.Prelude.{◌≡◌, refl, Bool, true, false, some, ==-refl, arith}
use user_level_threads_libra.Uthreads.State.{
  Os, State, UThread, Point, success, in_constructor, at_entry, in_handler, in_block, in_sleep,
  in_terminate,
}
use user_level_threads_libra.Uthreads.Process.{ok, return, at_thread}
use user_level_threads_libra.Uthreads.Signals.{unblock_vt_alarm}
use user_level_threads_libra.Uthreads.Scheduler.{
  Control, returns, goes_on, begins, resume_at, start_running, jump, handler_returns,
}
use user_level_threads_libra.Uthreads.Program.{alarm_comes}
use user_level_threads_libra.Uthreads.Healthy.{IsHealthy, unblock_vt_alarm-eq}
use user_level_threads_libra.Uthreads.Invariant.Defs.{Returns, Resumable}
use user_level_threads_libra.Uthreads.Invariant.Rules.{Returns-bind-eq, at_thread-eq}

-- Only a thread that called `uthread_sleep` goes on with SIGVTALRM blocked.
abbrev pub stays_masked : Point → Bool
stays_masked in_sleep = true
stays_masked _ = false

-- What the thread sees.
abbrev pub seen_at : Point → Control
seen_at in_constructor = goes_on
seen_at (at_entry sp pc) = begins sp pc
seen_at in_handler = goes_on
seen_at in_block = returns success
seen_at in_sleep = returns success
seen_at in_terminate = returns success

abbrev pub Seen : Point → Control → State → Type 0
Seen p c t = (c ≡ seen_at p) × (t.masked ≡ stays_masked p)

resume_at-Seen :
    (os : Os) (p : Point) (s : State)
    → IsHealthy os
    → Resumable p s.masked
    → Returns (Seen p) (resume_at os p s)
unfolding resume_at
resume_at-Seen os in_constructor s well h = h
resume_at-Seen os (at_entry sp pc) s well h = (refl, h)
resume_at-Seen os in_handler s well h =
    Returns-bind-eq (Seen in_handler) (unblock_vt_alarm os) (λ _. handler_returns) s tt
      (record s { masked = false }) (unblock_vt_alarm-eq well s) (refl, refl)
resume_at-Seen os in_block s well h =
    Returns-bind-eq (Seen in_block) (unblock_vt_alarm os) (λ _. return (returns success)) s tt
      (record s { masked = false }) (unblock_vt_alarm-eq well s) (refl, refl)
resume_at-Seen os in_sleep s well h = (refl, h)
resume_at-Seen os in_terminate s well h = absurd h

-- On a healthy system, a thread whose saved context may be used goes on where it was saved: a new thread
-- at its entry point, an interrupted thread where the alarm came, a thread that was blocked or asleep by
-- the return of 0. SIGVTALRM is blocked afterwards exactly if that call was `uthread_sleep`.
pub jump-Seen :
    (os : Os) (s : State) (u : UThread)
    → IsHealthy os
    → s.all_threads s.running_tid ≡ some u
    → Resumable u.env.point u.env.mask
    → Returns (Seen u.env.point) (jump os s)
unfolding jump start_running
jump-Seen os s u well e h =
    Returns-bind-eq (Seen u.env.point) (unblock_vt_alarm os) (λ _. start_running os) s tt open_mask
      (unblock_vt_alarm-eq well s)
      (Returns-bind-eq (Seen u.env.point) (at_thread s.running_tid _) _ open_mask tt _
        (at_thread-eq s.running_tid _ open_mask u e)
        (rw (==-refl s.running_tid) (resume_at-Seen os u.env.point _ well h)))
  where
    open_mask : State
    open_mask = record s { masked = false }

-- While SIGVTALRM is blocked no alarm takes the processor from a thread.
pub alarm_comes-masked : (os : Os) (s : State) → s.masked ≡ true → alarm_comes os s ≡ ok goes_on s
unfolding alarm_comes
alarm_comes-masked os s m = ground arith
