-- ===== src/Scull/WriteEnds.antt =====
-- How a `scull_write` on a well-formed device ends.
use mydrivers.Prelude.{ℕ, ◌+◌, ◌≤◌, ◌≡◌, refl, false, List, length, inl, inr, ◌⊎◌}
use mydrivers.Kernel.{ok, err, enomem, efault, Uaccess, Allocator, Mem}
use mydrivers.Scull.Device.{Block, Dev, Globals, Place, locate}
use mydrivers.Scull.Write.{Outcome, write_count, fill, scull_write}
use mydrivers.Scull.Invariant.{IsValid}
use mydrivers.Scull.Places.{q_pos-lt}
use mydrivers.Scull.WriteShape.{after_copy, Shape, refused, copied, write_locked-Shape}
use mydrivers.Scull.Blocks.{Filled, fill-Filled}

-- How many bytes a write of `src` at `pos` takes when nothing fails.
abbrev pub taken : Dev → ℕ → List ℕ → ℕ
taken d pos src = write_count d.quantum (locate d.quantum d.qset pos).q_pos (length src)

-- What a write tells the caller, with the position and the size that go with it.
pub data Reports (d : Dev) (pos : ℕ) (src : List ℕ) (o : Outcome) : Type 0 where
  wrote :
      o.result ≡ ok (taken d pos src)
      → o.pos ≡ pos + taken d pos src
      → o.dev.size ≡ d.size + taken d pos src
      → Reports d pos src o
  failed :
      (o.result ≡ err enomem) ⊎ (o.result ≡ err efault)
      → o.pos ≡ pos
      → o.dev.size ≡ d.size
      → Reports d pos src o

module _ (u : Uaccess) (k : Allocator) (g : Globals) (d : Dev) (pos : ℕ) (src : List ℕ) (m : Mem)
    (v : IsValid k g d) where
  abbrev final : Outcome
  final = scull_write u k g d pos src false m

  abbrev spot : Place
  spot = locate d.quantum d.qset pos

  pub final-Shape : Shape u k g d pos src m final
  unfolding scull_write
  final-Shape = write_locked-Shape u k g d pos src m v

  module _ (b : Block) (enough : d.quantum ≤ length b) where
    pub filled :
        Filled u d.quantum b spot.q_pos src
          (fill u d.quantum b spot.q_pos src).0
          (fill u d.quantum b spot.q_pos src).1
    filled =
        fill-Filled u d.quantum b spot.q_pos src enough
          (q_pos-lt d.quantum d.qset v.quantum_pos v.qset_pos pos)

  -- On a well-formed device, a write that gets the semaphore either takes the caller's bytes, up
  -- to the end of the quantum at the position, and moves the position and the size by their
  -- number, or reports ENOMEM or EFAULT and leaves the position and the size alone. It never runs
  -- out of bounds.
  pub write-Reports : Reports d pos src final
  write-Reports = report final final-Shape
    where
      report : (o : Outcome) → Shape u k g d pos src m o → Reports d pos src o
      report o (refused nodes m' grown e) = rw e (failed (inl refl) refl refl)
      report o (copied nodes slots b m' small within slot_in enough grown e) =
          rw e (go (filled b enough).outcome)
        where
          go :
              ((fill u d.quantum b spot.q_pos src).0 ≡ ok (taken d pos src))
                ⊎ ((fill u d.quantum b spot.q_pos src).0 ≡ err efault)
              → Reports d pos src (after_copy u k g d pos src m nodes slots b m')
          go (inl h) = rw h (wrote refl refl refl)
          go (inr h) = rw h (failed (inr refl) refl refl)
