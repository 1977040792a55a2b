-- ===== src/Scull/OpenTests.antt =====
-- A read that an open for writing only overtakes, and what the file may tell of it.
use mydrivers.Prelude.{ℕ, ◌≡◌, refl, true, false, List, [], ◌∷◌, arith, ◌^◌}
use mydrivers.Prelude.Family.{update}
use mydrivers.Kernel.{ok, fault}
use mydrivers.Examples.{copies_all, grants_all}
use mydrivers.Access.Users.{Opened, scull_open}
use mydrivers.Scull.Device.{can_divide, locate}
use mydrivers.Scull.Alloc.{scull_alloc, scull_free, memset_zero}
use mydrivers.Scull.Follow.{new_qset, walk, ensure_head, scull_follow}
use mydrivers.Scull.Trim.{free_slots, free_nodes, scull_trim}
use mydrivers.Scull.Write.{Outcome, ensure_slots, ensure_quantum, write_count, fill, scull_write}
use mydrivers.Scull.Read.{left_at, read_count, deliver, read_locked}
use mydrivers.Scull.Ioctl.{Caller, tquantum, number, scull_ioctl}
use mydrivers.Scull.Zeroing.{zero_quantum_crashes}
use mydrivers.Scull.Places.{InRange}
use mydrivers.Scull.File.{silent, did_read, did_write}
use mydrivers.Scull.Sharing.{reading, System, ended, begin_read, end_read, write}
use mydrivers.Scull.OneWrite.{file}
use mydrivers.Scull.Openings.{
  Told, call, did_open, shared, opened, shares, opens, OpenSteps, start, later,
}
use mydrivers.Scull.LooseFile.{LooseRun}
use mydrivers.Scull.OpenRuns.{Steady, OpenSteps-Run}
use mydrivers.Scull.SharingTests.{defaults, blank-IsValid, at_rest, wrote_three, written}

at_rest-Steady : Steady grants_all defaults at_rest
at_rest-Steady = record {
  core = record {
    valid = blank-IsValid;
    quantum_is = refl;
    qset_is = refl;
    in_limit = λ j. omega arith;
  };
  owns = omega arith;
}

-- Process 1 asks for the three bytes that process 0 wrote; process 0 empties the device, writes one
-- byte, and then process 1 gets the semaphore.
abbrev waits : System
waits = record written { pc = update written.pc 1 (reading 3 (left_at wrote_three.dev.size 0)) }

abbrev reopened : Opened
reopened = scull_open defaults 1 (shared waits)

abbrev emptied : System
emptied = opened waits 0 reopened.shared

abbrev wrote_one : Outcome
wrote_one = scull_write copies_all grants_all defaults emptied.dev 0 (5 ∷ []) false emptied.mem

abbrev again : System
again = ended emptied 0 wrote_one

abbrev read_late : Outcome
read_late =
    read_locked copies_all grants_all again.dev 0 3 (left_at wrote_three.dev.size 0) again.mem

abbrev told : List (ℕ × Told)
told =
    (1, call (did_read 3 read_late.result read_late.delivered))
    ∷ (0, call (did_write (5 ∷ []) wrote_one.result))
    ∷ (0, did_open 1 reopened.result)
    ∷ (1, call silent)
    ∷ (0, call (did_write (7 ∷ 8 ∷ 9 ∷ []) wrote_three.result))
    ∷ []

late-OpenSteps : OpenSteps grants_all defaults 2 at_rest told (ended again 1 read_late)
late-OpenSteps =
    let begun =
      later 1 (omega arith)
        (later 0 (omega arith) start (shares (write copies_all (7 ∷ 8 ∷ 9 ∷ []) false refl refl)))
        (shares (begin_read 3 refl)) in
    let anew = later 0 (omega arith) begun (opens 1 refl refl) in
    later 1 (omega arith)
      (later 0 (omega arith) anew (shares (write copies_all (5 ∷ []) false refl refl)))
      (shares (end_read copies_all refl refl))

OpenSteps-Run_example :
    LooseRun (InRange 4 3) 2 (file at_rest) told (file (ended again 1 read_late))
    × Steady grants_all defaults (ended again 1 read_late)
OpenSteps-Run_example = OpenSteps-Run grants_all defaults at_rest-Steady late-OpenSteps

-- The device holds one byte, and the read gets three.
read_past_end :
    (read_late.result ≡ ok 3) × (read_late.delivered ≡ 5 ∷ 0 ∷ 0 ∷ []) × (again.dev.size ≡ 1)
unfolding scull_open scull_trim free_nodes free_slots scull_free read_locked scull_write
    scull_follow ensure_head walk new_qset ensure_slots ensure_quantum scull_alloc memset_zero fill
    write_count can_divide locate read_count deliver
read_past_end = (refl, refl, refl)

one_write :
    OpenSteps grants_all defaults 1 at_rest
      ((0, call (did_write (7 ∷ 8 ∷ 9 ∷ []) wrote_three.result)) ∷ [])
      written
one_write = later 0 (omega arith) start (shares (write copies_all (7 ∷ 8 ∷ 9 ∷ []) false refl refl))

written-Steady : Steady grants_all defaults written
written-Steady = (OpenSteps-Run grants_all defaults at_rest-Steady one_write).1

abbrev root : Caller
root = record { capable = true; access_ok = true; get_fails = false; got = 0; put_fails = false }

zero_quantum_crashes_example :
    let told = scull_ioctl root defaults (number tquantum) (2 ^ 32) in
    let g' = told.globals in
    let o =
      scull_open g' 1 (record { count = 0; owner = 0; dev = written.dev; mem = written.mem }) in
    (told.result ≡ ok 0)
    × (o.result ≡ ok 0)
    × ((scull_write copies_all grants_all g' o.shared.dev 3 (5 ∷ []) false o.shared.mem).result
        ≡ fault)
zero_quantum_crashes_example =
    zero_quantum_crashes copies_all grants_all root defaults written.dev written.mem (2 ^ 32) 3
      (5 ∷ []) refl refl refl written-Steady.core.valid written-Steady.owns
