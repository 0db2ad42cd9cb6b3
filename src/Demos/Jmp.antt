-- ===== src/Demos/Jmp.antt =====
-- demos/demo_jmp.c: two threads that switch by sigsetjmp and siglongjmp.
use user_level_threads_libra.Prelude.{
  ℕ, zero, suc, ◌+◌, ◌-◌, ◌%◌, ◌==◌, ltb, if◌then◌else◌, Bool, true, false, Option, none, some,
  List, [], ◌∷◌, ℤ, pos, negsuc, ◌≡◌,
}
use user_level_threads_libra.Effects.{Result, ok, undefined}
mod Places
mod Switch
pub mod Turns
mod Samples

abbrev pub second : ℕ
second = 1_000_000

abbrev pub stack_size : ℕ
stack_size = 4096

-- `sizeof(address_t)` on x86_64.
abbrev pub address_size : ℕ
address_size = 8

-- `++i` beyond it is undefined.
abbrev pub int_max : ℕ
int_max = 2_147_483_647

-- The functions that run as threads.
pub data EntryPoint : Type 0 where
  thread0 thread1 : EntryPoint

-- Where a `sigjmp_buf` continues. A global one is zeroed before `setup_thread`,
-- which writes the stack pointer and the program counter into it.
pub data Point : Type 0 where
  unset in_yield : Point
  at_entry : (sp pc : ℕ) → Point

-- `saved_mask` holds the signals that are blocked after a jump.
pub record Buffer : Type 0 where
  pub point : Point
  pub saved_mask : List ℕ

-- What the program does that is seen from outside.
pub data Act : Type 0 where
  in_thread : EntryPoint → ℕ → Act
  yielding : EntryPoint → Act
  yield_ret : ℕ → Act
  usleep : ℕ → Act

-- `frame t` is the function that runs on the stack of thread `t`, and `counter t` its variable `i`. The
-- newest act is the first of `acts`.
pub record State : Type 0 where
  pub env : ℕ → Buffer
  pub current_thread : ℤ
  pub mask : List ℕ
  pub frame : ℕ → Option EntryPoint
  pub counter : ℕ → ℕ
  pub acts : List Act

-- The process before `main`, with a mask that it has from its parent.
abbrev pub loaded : List ℕ → State
loaded m = record {
  env = λ _. record { point = unset; saved_mask = [] };
  current_thread = negsuc 0;
  mask = m;
  frame = λ _. none;
  counter = λ _. 0;
  acts = [];
}

abbrev pub update {ℓ} : {A : Type ℓ} → (ℕ → A) → ℕ → A → ℕ → A
update f i a j = if i == j then a else f j

abbrev pub M : Type 0 → Type 0
M A = State → Result State A

infixl 5 ◌>>=◌ ◌>>◌
abbrev pub ◌>>=◌ : {A B : Type 0} → M A → (A → M B) → M B
◌>>=◌ m f s = user_level_threads_libra.Effects.◌>>=◌ m f s

abbrev pub ◌>>◌ : {B : Type 0} → M (Unit {0}) → M B → M B
◌>>◌ m n = m >>= λ _. n

abbrev pub modify : (State → State) → M (Unit {0})
modify f s = ok tt (f s)

abbrev pub get : M State
get s = ok s s

abbrev pub act : Act → M (Unit {0})
act a = modify (λ s. record s { acts = a ∷ s.acts })

-- The number of rounds after which a thread yields.
abbrev pub period : EntryPoint → ℕ
period thread0 = 3
period thread1 = 5

-- `1 - current_thread`
abbrev pub other : ℤ → ℤ
other (negsuc n) = pos (n + 2)
other (pos zero) = pos 1
other (pos (suc zero)) = pos 0
other (pos (suc (suc n))) = negsuc n

-- An array access `env[tid]`.
unfoldable pub index : ℤ → M ℕ
index (negsuc n) s = undefined
index (pos t) s = if ltb t 2 then ok t s else undefined

-- `++i`
unfoldable pub increment : ℕ → M ℕ
increment t s =
    let i = s.counter t + 1 in
    if ltb int_max i then undefined else ok i (record s { counter = update s.counter t i })

-- The function of a new thread begins.
unfoldable pub begin : ℕ → Option EntryPoint → M (Unit {0})
begin tid none s = undefined
begin tid (some f) s =
    ok tt (record s { frame = update s.frame tid (some f); counter = update s.counter tid 0 })

-- The machine: `translate_address` is the assembly code of that name, and `siglongjmp` undoes it. The
-- functions and the stacks have addresses.
pub record Machine : Type 0 where
  pub translate_address : ℕ → ℕ
  pub restore_address : ℕ → ℕ
  pub address : EntryPoint → ℕ
  pub function_at : ℕ → Option EntryPoint
  pub stack : ℕ → ℕ

pub record IsSound (c : Machine) : Type 0 where
  pub restores : (a : ℕ) → c.restore_address (c.translate_address a) ≡ a
  pub finds : (f : EntryPoint) → c.function_at (c.address f) ≡ some f

module _ (c : Machine) where
  -- `setup_thread(tid, stack, entry_point)`
  unfoldable pub setup_thread : ℕ → EntryPoint → M (Unit {0})
  setup_thread tid entry_point = do
    let sp = c.stack tid + stack_size - address_size
    let pc = c.address entry_point
    modify (λ s. record s {
      env = update s.env tid (record {
        point = at_entry (c.translate_address sp) (c.translate_address pc);
        saved_mask = [];
      });
    })

  unfoldable pub setup : M (Unit {0})
  unfolding setup_thread
  setup = setup_thread 0 thread0 >> setup_thread 1 thread1

  -- What is executed after `siglongjmp` to a point: a new thread begins, or `sigsetjmp` returns 1,
  -- `yield` returns, and the round of its caller ends with `usleep`.
  unfoldable pub resume_at : ℕ → Point → M (Unit {0})
  unfolding begin
  resume_at tid unset s = undefined
  resume_at tid in_yield s = (act (yield_ret 1) >> act (usleep second)) s
  resume_at tid (at_entry sp pc) s = begin tid (c.function_at (c.restore_address pc)) s

  unfoldable pub jump_to_thread : ℤ → M (Unit {0})
  unfolding index resume_at
  jump_to_thread tid = do
    modify (λ s. record s { current_thread = tid })
    t ← index tid
    s ← get
    modify (λ s. record s { mask = (s.env t).saved_mask })
    resume_at t (s.env t).point

  -- `yield`, and what comes after its jump.
  unfoldable pub yield : M (Unit {0})
  unfolding index jump_to_thread
  yield = do
    s ← get
    t ← index s.current_thread
    modify
        (λ s. record s { env = update s.env t (record { point = in_yield; saved_mask = s.mask }) })
    act (yield_ret 0)
    jump_to_thread (other s.current_thread)

  -- One round of `while (1)` in `thread0` or `thread1`.
  unfoldable pub loop_round : ℕ → Option EntryPoint → M (Unit {0})
  unfolding increment yield
  loop_round t none s = undefined
  loop_round t (some f) s =
      (do
        i ← increment t
        act (in_thread f i)
        if i % period f == 0 then (act (yielding f) >> yield) else act (usleep second))
        s

  -- A round of the thread that runs.
  unfoldable pub round : M (Unit {0})
  unfolding index loop_round
  round = do s ← get; t ← index s.current_thread; loop_round t (s.frame t)

  unfoldable pub rounds : ℕ → M (Unit {0})
  unfolding round
  rounds zero = ok tt
  rounds (suc n) = rounds n >> round

  -- `main`, for a number of rounds of its threads.
  unfoldable pub main : ℕ → M (Unit {0})
  unfolding setup jump_to_thread rounds
  main n = do setup; jump_to_thread (pos 0); rounds n
