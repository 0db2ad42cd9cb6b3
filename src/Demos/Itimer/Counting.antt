-- ===== src/Demos/Itimer/Counting.antt =====
-- How the lines of demos/demo_itimer.c relate to the expiries of its timer.
use user_level_threads_libra.Prelude.{
  ℕ, ◌+◌, ◌≤◌, if◌then◌else◌, Bool, true, List, [], ◌∷◌, ◌≡◌, refl, arith,
}
use user_level_threads_libra.Demos.Itimer.{
  print, Line, timer_expired, got_it, sigaction_error, setitimer_error, Place, testing, printing,
  resetting, State, Os, main, loaded, loop, loop_at, timer_handler, Step, loops, expires, Reaches,
  here, later,
}

abbrev pub expiries : List Line → ℕ
expiries [] = 0
expiries (timer_expired ∷ ls) = expiries ls + 1
expiries (got_it ∷ ls) = expiries ls
expiries (sigaction_error ∷ ls) = expiries ls
expiries (setitimer_error ∷ ls) = expiries ls

abbrev pub told : List Line → ℕ
told [] = 0
told (timer_expired ∷ ls) = told ls
told (got_it ∷ ls) = told ls + 1
told (sigaction_error ∷ ls) = told ls
told (setitimer_error ∷ ls) = told ls

-- The number of lines that the loop still owes.
abbrev owed : Place → Bool → ℕ
owed testing b = if b then 1 else 0
owed printing b = 1
owed resetting b = 0

abbrev IsBacked : State → Type 0
IsBacked s = told s.stdout + owed s.place s.gotit ≤ expiries s.stdout

loop_at-IsBacked : (p : Place) (s : State) → s.place ≡ p → IsBacked s → IsBacked (loop_at p s)
unfolding loop_at
loop_at-IsBacked testing s e h = ground (arith, e)
loop_at-IsBacked printing s e h = ground (arith, e)
loop_at-IsBacked resetting s e h = ground (arith, e)

timer_handler-owed : (p : Place) (b : Bool) → owed p true ≤ owed p b + 1
timer_handler-owed testing b = ground arith
timer_handler-owed printing b = ground arith
timer_handler-owed resetting b = ground arith

Step-IsBacked : (s t : State) → Step s t → IsBacked s → IsBacked t
unfolding loop timer_handler
Step-IsBacked s t loops h = loop_at-IsBacked s.place s refl h
Step-IsBacked s t (expires a b) h = ground (arith, timer_handler-owed s.place s.gotit)

main-IsBacked : (os : Os) → IsBacked (main os loaded)
unfolding main
main-IsBacked os = ground arith

Reaches-IsBacked : {s t : State} → Reaches s t → IsBacked s → IsBacked t
Reaches-IsBacked here h = h
Reaches-IsBacked (later {t} {u} r step) h = Step-IsBacked t u step (Reaches-IsBacked r h)

-- However the expiries fall between the statements of the loop, and whether or not `sigaction` and
-- `setitimer` fail, the program never tells of more expiries than there were.
pub Reaches-told :
    (os : Os) (s : State) → Reaches (main os loaded) s → told s.stdout ≤ expiries s.stdout
Reaches-told os s r = ground (arith, Reaches-IsBacked r (main-IsBacked os))

-- An expiry that comes at the test is told of by the next two statements of the loop, once.
timer_handler-prompt :
    (s : State)
    → s.place ≡ testing
    → told (loop (loop (timer_handler s))).stdout ≡ told s.stdout + 1
unfolding loop loop_at timer_handler
timer_handler-prompt s e = rw e refl

-- An expiry that comes after the line and before `gotit = 0` is lost: the loop goes on as without it.
timer_handler-lost :
    (s : State) → s.place ≡ resetting → loop (timer_handler s) ≡ print timer_expired (loop s)
unfolding loop loop_at timer_handler
timer_handler-lost s e = rw e refl
