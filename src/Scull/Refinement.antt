-- ===== src/Scull/Refinement.antt =====
-- The processes that share a memory device cannot tell it from one file of bytes.
use mydrivers.Prelude.{ℕ, ◌+◌, ◌≤◌, refl, subst, true, false, List, [], arith}
use mydrivers.Kernel.{erestartsys, err, Allocator}
use mydrivers.Scull.Device.{Globals}
use mydrivers.Scull.Write.{scull_write}
use mydrivers.Scull.Read.{left_at, read_locked}
use mydrivers.Scull.Places.{InRange}
use mydrivers.Scull.WriteKeeps.{write-Kept}
use mydrivers.Scull.WriteEnds.{write-Reports}
use mydrivers.Scull.Reads.{locked-Copies, locked_keeps}
use mydrivers.Scull.File.{
  Event, silent, did_read, did_write, internal, read_fails, write_fails, Run,
}
use mydrivers.Scull.Sharing.{
  idle, reading, System, ended, Move, begin_read, end_read, stop_read, write, Steps, start, later,
}
use mydrivers.Scull.OneWrite.{file, range_of_small, moved}
use mydrivers.Scull.Turns.{ahead, Inv, Sound, Does, ended-Inv, read-Does, write-Does, silent-Does}

module _ (k : Allocator) (g : Globals) (quantum qset : ℕ) where
  Move-Does :
      {s : System} {i : ℕ} {e : Event} {s' : System}
      → Move k g s i e s'
      → Sound k g quantum qset s
      → Does k g quantum qset s i e s'
  unfolding scull_write
  Move-Does {s} {i = i} (begin_read count at) inv =
      silent-Does k g quantum qset s i (reading count (left_at s.dev.size (s.pos i))) inv
        (ground (arith, inv.in_size i)) silent (internal refl)
  Move-Does {s} {i = i} (end_read u {count = count} {left = left} {o = o} at e) inv =
      let fits : s.pos i + left ≤ s.dev.size =
        subst (λ c. s.pos i + ahead c ≤ s.dev.size) at (inv.in_size i) in
      subst (λ o. Does k g quantum qset s i (did_read count o.result o.delivered) (ended s i o)) e
        (read-Does k g quantum qset s i inv count left
          (read_locked u k s.dev (s.pos i) count left s.mem) fits
          (locked-Copies u k g s.dev (s.pos i) count left s.mem inv.core.valid
            (range_of_small k g quantum qset s i inv.core))
          (locked_keeps u k g s.dev (s.pos i) count left s.mem inv.core.valid))
  Move-Does {s} {i = i} (stop_read {count = count} at) inv =
      silent-Does k g quantum qset s i idle inv (omega (arith, inv.in_size i))
        (did_read count (err erestartsys) []) (read_fails count erestartsys refl)
  Move-Does {s} {i = i} (write u src true at e) inv =
      subst (λ o. Does k g quantum qset s i (did_write src o.result) (ended s i o)) e
        (
          write_fails src erestartsys refl (λ p h out. refl) refl
              (λ j. moved s i 0 (s.pos i) j (omega arith)),
          ended-Inv k g quantum qset s i inv _
              (write-Kept u k g s.dev (s.pos i) src s.mem inv.core.valid true) (omega arith)
              (inv.core.in_limit i) (omega (arith, inv.in_size i)),
        )
  Move-Does {s} {i = i} (write u src false at e) inv =
      subst (λ o. Does k g quantum qset s i (did_write src o.result) (ended s i o)) e
        (write-Does k g quantum qset s i inv u src
          (write-Reports u k g s.dev (s.pos i) src s.mem inv.core.valid))

  -- From a well-formed device on which no position is past the size or past the last one that has
  -- a place, and no read was promised more than there is: whatever the processes read and write,
  -- in whatever order they move, are interrupted, run out of memory or fail to copy, each call on
  -- its own, everything
  -- that they are told, in that order, is what one file with a position for each of them may
  -- tell, and the device stays well formed.
  pub Steps-Run :
      {n : ℕ} {s s' : System} {told : List (ℕ × Event)}
      → Inv k g quantum qset s
      → Steps k g n s told s'
      → Run (InRange quantum qset) n (file s) told (file s') × Inv k g quantum qset s'
  Steps-Run inv start = (Run.start, inv)
  Steps-Run inv (later i lt r m) =
      let (run, inv') = Steps-Run inv r in
      let (can, inv'') = Move-Does m inv' in (Run.later i lt run can, inv'')
