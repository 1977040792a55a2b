-- ===== src/Proc/Tests.antt =====
-- Reads of /proc/scullmem and a walk of /proc/scullseq, and the theorems at them.
use mydrivers.Prelude.{ℕ, ◌+◌, ◌≡◌, refl, arith, false, none, some, List, [], ◌∷◌, replicate}
use mydrivers.Kernel.{fault}
use mydrivers.Examples.{copies_all, grants_all, no_blocks}
use mydrivers.Scull.Device.{Dev, basic}
use mydrivers.Print.{sprintf, sprintf_all}
use mydrivers.Proc.Mem.{
  MemLines, slot_lines, node_lines, device_lines, text, print_devices, proc_read,
}
use mydrivers.Proc.Reads.{read_all, reads_to_end}
use mydrivers.Proc.Overrun.{proc_read-overrun}
use mydrivers.Proc.Seq.{scull_seq_start, walk, walk_lem}

abbrev lines : MemLines
lines = record {
  device_line = λ i d. (48 + i) ∷ 58 ∷ 10 ∷ [];
  node_line = λ q. 110 ∷ 10 ∷ [];
  slot_line = λ j b. replicate 27 46;
  slot_long = λ j b. omega arith;
}

abbrev empty : Dev
empty = record { nodes = []; quantum = 4; qset = 2; size = 0; order = 0; type_ = basic }

abbrev one_slot : Dev
one_slot = record empty { nodes = record { data_ = some (none ∷ []) } ∷ []; qset = 1 }

abbrev both : List ℕ
both = 48 ∷ 58 ∷ 10 ∷ 49 ∷ 58 ∷ 10 ∷ 110 ∷ 10 ∷ replicate 27 46

printed : print_devices lines (λ i. false) 0 [] (empty ∷ one_slot ∷ []) ≡ text both
unfolding print_devices sprintf_all sprintf device_lines node_lines slot_lines
printed = refl

-- Ten bytes at a time, from the third byte on.
reads_to_end_example :
    read_all copies_all grants_all lines (λ i. false) (empty ∷ one_slot ∷ []) 10 34 2 no_blocks
    ≡ some (10 ∷ 49 ∷ 58 ∷ 10 ∷ 110 ∷ 10 ∷ replicate 27 46)
reads_to_end_example =
    reads_to_end copies_all grants_all lines (λ i. false) (empty ∷ one_slot ∷ []) both 10 34 2
      no_blocks (λ nth size. (replicate size 170, refl)) (λ bytes. refl) printed (omega arith)
      (omega arith) (omega arith) (omega arith) (omega arith)

-- A device of the default geometry, with one array.
abbrev written : Dev
written = record {
  nodes = record { data_ = some (replicate 1000 none) } ∷ [];
  quantum = 1024;
  qset = 1000;
  size = 1;
  order = 0;
  type_ = basic;
}

proc_read-overrun_example :
    (proc_read copies_all grants_all lines
      (λ i. false)
      (written ∷ written ∷ written ∷ written ∷ [])
      0
      100
      no_blocks).result
    ≡ fault
proc_read-overrun_example =
    proc_read-overrun copies_all grants_all lines (λ i. false)
      (written ∷ written ∷ written ∷ written ∷ []) 0 100 no_blocks (replicate 81920 170) refl
      (λ j. refl) (omega arith)

walk_lem_example : walk 4 5 (scull_seq_start 4 1) 1 ≡ some (1 ∷ 2 ∷ 3 ∷ [])
walk_lem_example = walk_lem 4 5 1 (omega arith)
