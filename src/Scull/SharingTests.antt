-- ===== src/Scull/SharingTests.antt =====
-- Two processes on one device, and the refinement at their run.
use mydrivers.Prelude.{ℕ, ◌≡◌, refl, false, none, List, [], ◌∷◌, arith}
use mydrivers.Prelude.Family.{update}
use mydrivers.Kernel.{ok}
use mydrivers.Examples.{copies_all, grants_all, no_blocks}
use mydrivers.Scull.Device.{basic, Dev, Globals, can_divide, locate}
use mydrivers.Scull.Alloc.{scull_alloc, memset_zero}
use mydrivers.Scull.Follow.{new_qset, walk, ensure_head, scull_follow}
use mydrivers.Scull.Write.{Outcome, ensure_slots, ensure_quantum, write_count, fill, scull_write}
use mydrivers.Scull.Read.{left_at, read_count, deliver, read_locked}
use mydrivers.Scull.Invariant.{IsValid}
use mydrivers.Scull.Places.{InRange}
use mydrivers.Scull.File.{Event, silent, did_read, did_write, Run}
use mydrivers.Scull.Sharing.{
  idle, reading, System, ended, begin_read, end_read, write, Steps, start, later,
}
use mydrivers.Scull.OneWrite.{file}
use mydrivers.Scull.Turns.{Inv}
use mydrivers.Scull.Refinement.{Steps-Run}

abbrev pub defaults : Globals
defaults = record { quantum = 4; qset_n = 3; object_size = none }

abbrev pub blank : Dev
blank = record { nodes = []; quantum = 4; qset = 3; size = 0; order = 0; type_ = basic }

pub blank-IsValid : IsValid grants_all defaults blank
blank-IsValid = record {
  quantum_pos = omega arith;
  qset_pos = omega arith;
  product_int = omega arith;
  alloc_fits = tt;
  nodes_fit = λ i. tt;
}

abbrev pub at_rest : System
at_rest = record { dev = blank; mem = no_blocks; pos = λ i. 0; pc = λ i. idle }

at_rest-Inv : Inv grants_all defaults 4 3 at_rest
at_rest-Inv = record {
  core = record {
    valid = blank-IsValid;
    quantum_is = refl;
    qset_is = refl;
    in_limit = λ j. omega arith;
  };
  in_size = λ j. omega arith;
}

-- Process 0 writes three bytes, and process 1 reads two of them.
abbrev pub wrote_three : Outcome
wrote_three = scull_write copies_all grants_all defaults blank 0 (7 ∷ 8 ∷ 9 ∷ []) false no_blocks

abbrev pub written : System
written = ended at_rest 0 wrote_three

abbrev begun : System
begun = record written { pc = update written.pc 1 (reading 2 (left_at wrote_three.dev.size 0)) }

abbrev read_two : Outcome
read_two =
    read_locked copies_all grants_all wrote_three.dev 0 2 (left_at wrote_three.dev.size 0)
      wrote_three.mem

abbrev told : List (ℕ × Event)
told =
    (1, did_read 2 read_two.result read_two.delivered)
    ∷ (1, silent)
    ∷ (0, did_write (7 ∷ 8 ∷ 9 ∷ []) wrote_three.result)
    ∷ []

two_read : (read_two.result ≡ ok 2) × (read_two.delivered ≡ 7 ∷ 8 ∷ [])
unfolding read_locked scull_write scull_follow ensure_head walk new_qset ensure_slots ensure_quantum
    scull_alloc memset_zero fill write_count can_divide locate read_count deliver
two_read = (refl, refl)

shared-Steps : Steps grants_all defaults 2 at_rest told (ended begun 1 read_two)
shared-Steps =
    later 1 (omega arith)
      (later 1 (omega arith)
        (later 0 (omega arith) start (write copies_all (7 ∷ 8 ∷ 9 ∷ []) false refl refl))
        (begin_read 2 refl))
      (end_read copies_all refl refl)

Steps-Run_example :
    Run (InRange 4 3) 2 (file at_rest) told (file (ended begun 1 read_two))
    × Inv grants_all defaults 4 3 (ended begun 1 read_two)
Steps-Run_example = Steps-Run grants_all defaults 4 3 at_rest-Inv shared-Steps
