-- ===== src/Demos/Jmp/Samples.antt =====
-- A concrete run of demos/demo_jmp.c.
use user_level_threads_libra.Prelude.{
  ℕ, ◌+◌, ◌-◌, if◌then◌else◌, ◌≡◌, refl, none, some, ◌==◌, [], ◌∷◌, pos, List, ℤ, arith,
}
use user_level_threads_libra.Effects.{Result, ok, exited, undefined, Returns}
use user_level_threads_libra.Demos.Jmp.{thread0, thread1, State, loaded, Machine, IsSound, main}
use user_level_threads_libra.Demos.Jmp.Places.{printed}
use user_level_threads_libra.Demos.Jmp.Turns.{After, main-After}

abbrev x86 : Machine
x86 = record {
  translate_address = λ a. a + 7;
  restore_address = λ a. a - 7;
  address = λ f. elim f [ thread0 ↦ 100 | thread1 ↦ 200 ];
  function_at = λ a. if a == 100 then some thread0 else (if a == 200 then some thread1 else none);
  stack = λ t. if t == 0 then 4096 else 8192;
}

abbrev view : Result State (Unit {0}) → List ℕ × List ℕ × ℤ
view (ok a s) = (printed thread0 s.acts, printed thread1 s.acts, s.current_thread)
view (exited c s) = ([], [], pos 99)
view undefined = ([], [], pos 98)

first_turns :
    view (main x86 9 (loaded (26 ∷ []))) ≡ (4 ∷ 3 ∷ 2 ∷ 1 ∷ [], 5 ∷ 4 ∷ 3 ∷ 2 ∷ 1 ∷ [], pos 0)
unfolding main
first_turns = refl

x86-IsSound : IsSound x86
x86-IsSound = record {
  restores = λ a. omega arith;
  finds = λ f. elim f as (λ f. x86.function_at (x86.address f) ≡ some f) [
    | thread0 ↦ refl
    | thread1 ↦ refl
  ];
}

main-After_example : Returns (λ _. After 100) (main x86 100 (loaded (26 ∷ [])))
main-After_example = main-After x86 x86-IsSound (26 ∷ []) 100 (omega arith)
