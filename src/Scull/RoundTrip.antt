-- ===== src/Scull/RoundTrip.antt =====
-- What `scull_write` stored, `scull_read` delivers.
use mydrivers.Prelude.{
  ℕ, suc, ◌+◌, ◌≤◌, ◌<◌, ◌≡◌, refl, sym, ◌∙◌, ap, false, some, List, [], ◌∷◌, arith, length, get_or,
  take, get_or-take, length-take, inl, inr,
}
use mathlib.Core.Path.{ap₂}
use mydrivers.Kernel.{Result, ok, err, fault, Uaccess, Allocator, Mem}
use mydrivers.Scull.Device.{Block, Qset, Dev, Globals, Place, block_at, locate}
use mydrivers.Scull.Write.{Outcome, written, scull_write, fill}
use mydrivers.Scull.Read.{scull_read}
use mydrivers.Scull.Invariant.{IsValid}
use mydrivers.Scull.Places.{InRange, q_pos-lt}
use mydrivers.Scull.WriteShape.{with_block, Shape, refused, copied, write_locked-Shape}
use mydrivers.Scull.Blocks.{load, fill-Filled, write_count-le, block_at-with_self}
use mydrivers.Scull.WriteKeeps.{Kept, write-Kept}
use mydrivers.Scull.WriteEnds.{taken, Reports, wrote, failed, write-Reports}
use mydrivers.Scull.Writes.{write_inside}
use mydrivers.Scull.FullRead.{read_full}
use mydrivers.Scull.Reads.{got, Delivers, read-Delivers}

-- Two lists of bytes are equal if they have the same bytes.
pub list_ext :
    (xs ys : List ℕ)
    → length xs ≡ length ys
    → ((i : ℕ) → i < length xs → get_or xs i 0 ≡ get_or ys i 0)
    → xs ≡ ys
list_ext [] [] e h = refl
list_ext [] (y ∷ ys) e h = absurd (omega arith)
list_ext (x ∷ xs) [] e h = absurd (omega arith)
list_ext (x ∷ xs) (y ∷ ys) e h =
    ap₂ ◌∷◌ (h 0 (omega arith)) (list_ext xs ys (omega arith) (λ i lt. h (suc i) (omega arith)))

nodes-written :
    (u : Uaccess) (k : Allocator) (g : Globals) (d : Dev) (pos : ℕ) (src : List ℕ) (r : Result ℕ)
    (nodes : List Qset) (m : Mem)
    → (written u k g d pos src r nodes m).dev.nodes ≡ nodes
nodes-written u k g d pos src (ok n) nodes m = refl
nodes-written u k g d pos src (err e) nodes m = refl
nodes-written u k g d pos src fault nodes m = refl

module _ (u : Uaccess) (k : Allocator) (g : Globals) (d : Dev) (pos : ℕ) (src : List ℕ) (m : Mem)
    (v : IsValid k g d) where
  abbrev write : Outcome
  write = scull_write u k g d pos src false m

  abbrev spot : Place
  spot = locate d.quantum d.qset pos

  -- After a write that stored something, its quantum is there.
  write_there :
      (n : ℕ)
      → write.result ≡ ok n
      → (b : Block) × (block_at write.dev.nodes spot.item spot.s_pos ≡ some b)
        × (d.quantum ≤ length b)
  unfolding scull_write
  write_there n done = go write (write_locked-Shape u k g d pos src m v) done
    where
      go :
          (o : Outcome)
          → Shape u k g d pos src m o
          → o.result ≡ ok n
          → (b : Block) × (block_at o.dev.nodes spot.item spot.s_pos ≡ some b)
            × (d.quantum ≤ length b)
      go o (refused nodes m' grown e) h = absurd (ground arith)
      go o (copied nodes slots b m' small within slot_in enough grown e) h =
          let r = fill u d.quantum b spot.q_pos src in
          let filled =
            fill-Filled u d.quantum b spot.q_pos src enough
              (q_pos-lt d.quantum d.qset v.quantum_pos v.qset_pos pos) in
          let after = with_block nodes spot.item slots spot.s_pos r.1 in
          rw e (
            r.1,
            ap (λ l. block_at l spot.item spot.s_pos) (nodes-written u k g d pos src r.0 after m')
                ∙ block_at-with_self nodes spot.item slots spot.s_pos within slot_in r.1,
            omega (arith, filled.sized),
          )

  -- On a well-formed device, where a write at a position within the size returns `n`, more than
  -- 0, a read of `n` bytes at that position returns `n` and delivers the first `n` bytes that the
  -- writer gave, provided that no copy to the caller fails and the position's quantum set has a
  -- number that is a non-negative `int`.
  pub read-write :
      (n : ℕ)
      → InRange d.quantum d.qset pos
      → pos ≤ d.size
      → 0 < n
      → write.result ≡ ok n
      → ((l : List ℕ) → u.copy_to_user l ≡ 0)
      → let r = scull_read u k write.dev pos n false write.mem in
        (r.result ≡ ok n) × (r.delivered ≡ take n src)
  read-write n hp le pos_n done clean = (full, delivered_all)
    where
      kept : Kept k g d m write
      kept = write-Kept u k g d pos src m v false

      read : Outcome
      read = scull_read u k write.dev pos n false write.mem

      count_taken : Reports d pos src write → (n ≡ taken d pos src) × (write.dev.size ≡ d.size + n)
      count_taken (wrote e _ s) = (ground arith, ground arith)
      count_taken (failed (inl e) _ _) = absurd (ground arith)
      count_taken (failed (inr e) _ _) = absurd (ground arith)

      counted : (n ≡ taken d pos src) × (write.dev.size ≡ d.size + n)
      counted = count_taken (write-Reports u k g d pos src m v)

      same_place : locate write.dev.quantum write.dev.qset pos ≡ spot
      same_place = rw (kept.quantum_kept, kept.qset_kept)

      fits : (n ≤ length src) × (spot.q_pos + n ≤ d.quantum)
      fits = omega (
        arith,
        counted.0,
        write_count-le d.quantum spot.q_pos (length src)
            (q_pos-lt d.quantum d.qset v.quantum_pos v.qset_pos pos),
      )

      in_range : InRange write.dev.quantum write.dev.qset pos
      in_range = rw (kept.quantum_kept, kept.qset_kept) hp

      full : read.result ≡ ok n
      full =
          let (b, at, enough) = write_there n done in
          read_full u k g write.dev pos n write.mem kept.valid in_range b (omega (arith, counted.1))
            (rw same_place at) (rw kept.quantum_kept enough) clean (omega (arith, counted.1))
            (rw (same_place, kept.quantum_kept) fits.1)

      bytes_same : (i : ℕ) → i < n → load write.dev (pos + i) ≡ get_or src i 0
      bytes_same i lt =
          write_inside u k g d pos src m v (pos + i) hp (done ∙ ap ok counted.0) (omega arith)
            (omega (arith, counted.0))
          ∙ ap (λ j. get_or src j 0) (omega arith)

      delivered_all : read.delivered ≡ take n src
      delivered_all = go (read-Delivers u k g write.dev pos n write.mem kept.valid in_range)
        where
          go : Delivers write.dev pos n read → read.delivered ≡ take n src
          go (Delivers.failed e _ _) = absurd (ground (arith, full))
          go (got n' e _ len _ _ read_bytes) =
              let same : n' ≡ n = ground (arith, full) in
              list_ext read.delivered (take n src)
                (omega (arith, len, same, length-take n src, fits.0))
                (λ i lt.
                  read_bytes i (omega (arith, len))
                  ∙ bytes_same i (omega (arith, len, same))
                  ∙ sym (get_or-take n src i 0 (omega (arith, len, same))))
