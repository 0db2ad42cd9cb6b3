-- ===== src/Demos/Itimer.antt =====
-- demos/demo_itimer.c: a loop that tells of each expiry of a timer, by a variable that the handler sets.
use user_level_threads_libra.Prelude.{
  ℕ, zero, suc, ◌+◌, if◌then◌else◌, Bool, true, false, List, [], ◌∷◌, ◌≡◌,
}
use user_level_threads_libra.Uthreads.State.{TimeVal, ITimerVal, no_time}
pub mod Counting
mod Samples

pub data Line : Type 0 where
  timer_expired got_it sigaction_error setitimer_error : Line

-- The next statement of the `for` loop.
pub data Place : Type 0 where
  testing printing resetting : Place

-- `handled` and `armed` are what the kernel knows: the handler of SIGVTALRM and the timer. The newest
-- line is the first of `stdout`.
pub record State : Type 0 where
  pub gotit : Bool
  pub place : Place
  pub timer : ITimerVal
  pub handled : Bool
  pub armed : Bool
  pub stdout : List Line

abbrev pub loaded : State
loaded = record {
  gotit = false;
  place = testing;
  timer = no_time;
  handled = false;
  armed = false;
  stdout = [];
}

-- The answers of `sigaction` and `setitimer`.
pub record Os : Type 0 where
  pub sigaction_fails : Bool
  pub setitimer_fails : ITimerVal → Bool

abbrev pub one_three : ITimerVal
one_three = record { value = record { sec = 1; usec = 0 }; interval = record { sec = 3; usec = 0 } }

abbrev pub print : Line → State → State
print l s = record s { stdout = l ∷ s.stdout }

unfoldable pub timer_handler : State → State
timer_handler s = print timer_expired (record s { gotit = true })

-- `main` up to its loop. It goes on after an error.
unfoldable pub main : Os → State → State
main os s =
    let installed =
      if os.sigaction_fails then print sigaction_error s else record s { handled = true } in
    let set = record installed { timer = one_three } in
    if os.setitimer_fails one_three then print setitimer_error set else record set { armed = true }

-- One statement of the loop.
unfoldable pub loop_at : Place → State → State
loop_at testing s = if s.gotit then record s { place = printing } else s
loop_at printing s = print got_it (record s { place = resetting })
loop_at resetting s = record s { gotit = false; place = testing }

unfoldable pub loop : State → State
unfolding loop_at
loop s = loop_at s.place s

-- The loop goes on, or the timer expires between two of its statements.
pub data Step (s : State) : State → Type 0 where
  loops : Step s (loop s)
  expires : s.armed ≡ true → s.handled ≡ true → Step s (timer_handler s)

pub data Reaches (s : State) : State → Type 0 where
  here : Reaches s s
  later : {t u : State} → Reaches s t → Step t u → Reaches s u
