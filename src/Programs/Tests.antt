-- ===== src/Programs/Tests.antt =====
-- The programs at concrete answers of the system, and their theorems there.
use mydrivers.Prelude.{
  ℕ, zero, suc, ◌<◌, ◌≡◌, refl, true, false, none, some, List, [], ◌∷◌, arith, length, get_or,
}
use mydrivers.Examples.{copies_all, grants_all, no_blocks}
use mydrivers.Scull.Device.{basic, Block, Dev, Globals, block_at, locate}
use mydrivers.Scull.Blocks.{load}
use mydrivers.Scull.Device.{can_divide}
use mydrivers.Scull.Follow.{new_qset, walk, ensure_head, scull_follow}
use mydrivers.Scull.Read.{read_count, deliver, read_locked, scull_read}
use mydrivers.Scull.Invariant.{BlockIsFit, NodesAreFit, IsValid}
use mydrivers.Pipe.State.{Pipe, up}
use mydrivers.Pipe.System.{Reading, Writing, r_sleep, undisturbed_polls, r_wait}
use mydrivers.Kernel.{ok}
use mydrivers.Pipe.Queue.{nothing, to_read, to_write, read_ends, write_ends, Allowed}
use mydrivers.Programs.Nbtest.{Answer, gives, fails, nbtest, stdin}
use mydrivers.Programs.Copying.{GoesOn, Exits, stops, nbtest_output, nbtest_ends, parts}
use mydrivers.Programs.Nonblock.{with_nonblock, nbtest_sleeps}
use mydrivers.Programs.Asyntest.{
  request, System, notify, input_handler, wakes, sleeps, goes_on, reads, shows, clears, arrives,
  Reach, start, moves, receives, Quiet, still, next, begun, sleeping,
}
use mydrivers.Programs.Signals.{Inv, IsStalled, asyntest-Inv, asyntest_stalls}
use mydrivers.Programs.Sculluidtst.{sculluidtst, runs}
use mydrivers.Programs.Showing.{Shows, sculluidtst_lem}
use mydrivers.Programs.WholeDevice.{bytes_from, sculluidtst_shows_all}
use mydrivers.Programs.Console.{setlevel, setconsole}
use mydrivers.Programs.Arguments.{usage_lem}

-- Two rounds with data, of which the second write is refused for now, one without, and an error.
abbrev input_of : ℕ → Answer (List ℕ)
input_of zero = gives (1 ∷ 2 ∷ [])
input_of (suc zero) = gives (3 ∷ [])
input_of (suc (suc zero)) = fails 11
input_of (suc (suc (suc j))) = fails 5

abbrev output_of : ℕ → List ℕ → Answer ℕ
output_of zero b = gives (length b)
output_of (suc j) b = fails 11

no_stop : (j : ℕ) → j < 3 → stops input_of output_of j ≡ false
no_stop zero lt = refl
no_stop (suc zero) lt = refl
no_stop (suc (suc zero)) lt = refl
no_stop (suc (suc (suc j))) lt = absurd (omega arith)

parts_test : parts input_of output_of 3 0 ≡ 1 ∷ 2 ∷ []
unfolding parts
parts_test = refl

nbtest_output_test : GoesOn (nbtest input_of output_of 3) (parts input_of output_of 3 0)
nbtest_output_test = nbtest_output input_of output_of 3 no_stop

nbtest_ends_example : Exits (nbtest input_of output_of 5) stdin (parts input_of output_of 3 0)
nbtest_ends_example = nbtest_ends input_of output_of 3 5 no_stop refl (omega arith)

-- An empty pipe, opened by O_RDWR.
abbrev empty : Pipe
empty = record {
  buffer = some (0 ∷ 0 ∷ 0 ∷ []);
  end_ = 3;
  buffersize = 3;
  rp = 0;
  wp = 0;
  nreaders = 1;
  nwriters = 1;
  async_queue = false;
  sem = 0;
}

abbrev by_nbtest : Reading
by_nbtest = record { f_flags = 2050; count = 4096 }

nbtest_sleeps_example : (r_sleep by_nbtest ≡ r_sleep by_nbtest) × (up empty ≡ up empty)
unfolding with_nonblock
nbtest_sleeps_example =
    nbtest_sleeps {h = undisturbed_polls} {p = empty} 2 by_nbtest (λ e. omega (arith, e))
      (λ e. omega (arith, e)) refl refl (r_wait refl refl)

-- Two writes: the second comes, and its signal is handled, before the first is forgotten.
abbrev of_one : Writing
of_one = record { f_flags = 1; src = 7 ∷ [] }

fits : Allowed 2 [] (to_write of_one) (7 ∷ []) nothing (write_ends (ok 1))
fits = Allowed.writes 1 (omega arith) (omega arith) (λ ne. omega arith) (omega arith)

taken_out : Allowed 2 (7 ∷ []) (to_read request) [] nothing (read_ends (ok 1) (7 ∷ []))
taken_out = Allowed.reads 1 (7 ∷ []) (omega arith) (omega arith) (λ h. omega arith) refl refl

abbrev missed : System
missed = record {
  pc = sleeping;
  gotdata = 0;
  pending = false;
  owed = 0;
  queue = 7 ∷ [];
  accepted = 7 ∷ 7 ∷ [];
  taken = 7 ∷ [];
  shown = 7 ∷ [];
  handled = 2;
  rounds = 1;
}

missed-Reach : Reach 2 begun missed
missed-Reach =
    let first =
      moves (moves (receives start (arrives {w = of_one} fits)) (notify (omega arith)))
        (input_handler refl) in
    let read_one =
      moves (moves (moves first (wakes refl)) (goes_on refl (λ e. omega (arith, e))))
        (reads refl taken_out) in
    let second =
      moves (moves (receives read_one (arrives {w = of_one} fits)) (notify (omega arith)))
        (input_handler refl) in
    moves (moves second (shows 1 refl)) (clears refl)

asyntest-Inv_example : Inv missed
asyntest-Inv_example = asyntest-Inv missed-Reach

missed-IsStalled : IsStalled missed
missed-IsStalled = record { outside = refl; unaware = refl; quiet = refl; none_owed = refl }

missed-Quiet : Quiet 2 missed missed
missed-Quiet = next (next still (wakes refl)) (sleeps refl refl)

asyntest_stalls_test : (missed.queue ≡ 7 ∷ []) × (missed.taken ≡ 7 ∷ []) × (missed.shown ≡ 7 ∷ [])
asyntest_stalls_test = asyntest_stalls missed-IsStalled missed-Quiet

-- A device that was never written.
abbrev defaults : Globals
defaults = record { quantum = 4; qset_n = 3; object_size = none }

abbrev blank : Dev
blank = record { nodes = []; quantum = 4; qset = 3; size = 0; order = 0; type_ = basic }

blank-IsValid : IsValid grants_all defaults blank
blank-IsValid = record {
  quantum_pos = omega arith;
  qset_pos = omega arith;
  product_int = omega arith;
  alloc_fits = tt;
  nodes_fit = λ i. tt;
}

-- A terminal that takes all, and one that takes nothing in the last round.
abbrev puts_all : ℕ → List ℕ → ℕ
puts_all round l = length l

abbrev puts_late : ℕ → List ℕ → ℕ
puts_late zero l = 0
puts_late (suc round) l = length l

sculluidtst_lem_test :
    Shows grants_all defaults blank
      (sculluidtst copies_all grants_all puts_all 2 (runs blank no_blocks 0 []))
sculluidtst_lem_test =
    sculluidtst_lem copies_all grants_all defaults blank puts_all (λ r l. omega arith) (omega arith)
      2 no_blocks blank-IsValid

-- Three bytes in one quantum.
abbrev three : Dev
three = record {
  nodes = record { data_ = some (some (7 ∷ 8 ∷ 9 ∷ 0 ∷ []) ∷ none ∷ none ∷ []) } ∷ [];
  quantum = 4;
  qset = 3;
  size = 3;
  order = 0;
  type_ = basic;
}

three-slots : (s : ℕ) → BlockIsFit 4 (get_or (some (7 ∷ 8 ∷ 9 ∷ 0 ∷ []) ∷ none ∷ none ∷ []) s none)
three-slots zero = omega arith
three-slots (suc zero) = tt
three-slots (suc (suc zero)) = tt
three-slots (suc (suc (suc s))) = tt

three-nodes : NodesAreFit 4 3 three.nodes
three-nodes zero = (refl, three-slots)
three-nodes (suc i) = tt

three-IsValid : IsValid grants_all defaults three
three-IsValid = record {
  quantum_pos = omega arith;
  qset_pos = omega arith;
  product_int = omega arith;
  alloc_fits = tt;
  nodes_fit = three-nodes;
}

three_whole :
    (p : ℕ)
    → p < 3
    → let l = locate 4 3 p in (b : Block) × (block_at three.nodes l.item l.s_pos ≡ some b)
unfolding locate
three_whole zero lt = (7 ∷ 8 ∷ 9 ∷ 0 ∷ [], refl)
three_whole (suc zero) lt = (7 ∷ 8 ∷ 9 ∷ 0 ∷ [], refl)
three_whole (suc (suc zero)) lt = (7 ∷ 8 ∷ 9 ∷ 0 ∷ [], refl)
three_whole (suc (suc (suc p))) lt = absurd (omega arith)

sculluidtst_shows_all_example :
    sculluidtst copies_all grants_all puts_all 5 (runs three no_blocks 0 [])
    ≡ runs three no_blocks 3 (bytes_from (load three) 0 3)
sculluidtst_shows_all_example =
    sculluidtst_shows_all copies_all grants_all defaults three no_blocks three-IsValid puts_all
      (λ r l. omega arith) (omega arith) (λ l. refl) three_whole 5 (omega arith)

-- What a failed `write` does not put out is lost.
failed_write_loses :
    sculluidtst copies_all grants_all puts_late 1 (runs three no_blocks 0 [])
    ≡ runs three no_blocks 3 []
unfolding sculluidtst scull_read read_locked scull_follow ensure_head walk new_qset can_divide
    locate read_count deliver
failed_write_loses = refl

three_bytes : bytes_from (load three) 0 3 ≡ 7 ∷ 8 ∷ 9 ∷ []
unfolding locate
three_bytes = refl

usage_lem_test :
    (setconsole (λ n. false) 1 0 ≡ record { usage = true; passed = none; status = 1 })
    × (setlevel (λ n. false) 1 0 ≡ record { usage = true; passed = some 8; status = 0 })
usage_lem_test = usage_lem (λ n. false) 1 0 (λ e. omega (arith, e))
