-- ===== src/Completion/Tests.antt =====
-- A concrete completion, a run on it, and the theorems at the run.
use mydrivers.Prelude.{
  ℕ, ◌+◌, ◌-◌, ◌^◌, ◌<◌, ◌≡◌, refl, arith, Option, none, some, List, [], ◌∷◌, ltb, ◌==◌,
  if◌then◌else◌,
}
use mydrivers.Kernel.{ok}
use mydrivers.Completion.Device.{
  Completions, waiting, Event, silent, did_read, did_write, System, Move, begin_read, end_read,
  write, Run, loaded, then_move,
}
use mydrivers.Completion.Runs.{completion_balance, completion_passes}

-- The counter stays at the largest `unsigned` once it is there.
abbrev complete_one : ℕ → ℕ
complete_one c = if ltb c (2 ^ 32 - 1) then c + 1 else c

abbrev wait_one : ℕ → Option ℕ
wait_one c = if c == 0 then none else some (if c == 2 ^ 32 - 1 then c else c - 1)

pass_one : (c : ℕ) → 0 < c → c + 1 < 2 ^ 32 → (c' : ℕ) × (wait_one c ≡ some c') × (c' + 1 ≡ c)
pass_one c h h' = (c - 1, ground arith, omega arith)

counts_one : (c : ℕ) → c + 1 < 2 ^ 32 → complete_one c ≡ c + 1
counts_one c h = ground arith

blocked : (c : ℕ) → c ≡ 0 → wait_one c ≡ none
blocked c e = ground arith

abbrev counter : Completions
counter = record {
  Completion = ℕ;
  done = λ c. c;
  declared = 0;
  complete = complete_one;
  wait_for_completion = wait_one;
  done-declared = refl;
  done-complete = counts_one;
  blocks = blocked;
  passes = pass_one;
}

-- Processes 0 and 1 wait, process 2 writes twice, and process 0 returns.
abbrev told : List (ℕ × Event)
told =
    (0, did_read (ok 0))
    ∷ (2, did_write (ok 5))
    ∷ (2, did_write (ok 5))
    ∷ (1, silent)
    ∷ (0, silent)
    ∷ []

one_left : (s : System counter) × Run counter told s × (s.my_comp ≡ 1) × (s.pc 1 ≡ waiting)
one_left = (
  _,
  then_move 0
      (then_move 2
        (then_move 2 (then_move 1 (then_move 0 loaded (begin_read refl)) (begin_read refl))
          (write 5 refl))
        (write 5 refl))
      (end_read 1 refl refl),
  refl,
  refl,
)

completion_balance_example : 1 + one_left.0.my_comp ≡ 2
completion_balance_example = completion_balance counter told one_left.0 one_left.1 (omega arith)

completion_passes_example : (s' : System counter) × Move counter one_left.0 1 (did_read (ok 0)) s'
completion_passes_example =
    completion_passes counter told one_left.0 1 one_left.1 (omega arith) (omega arith) one_left.3
