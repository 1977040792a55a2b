-- ===== src/Scull/OneWrite.antt =====
-- What one write of a process that shares a memory device is to the file that the processes see.
use mydrivers.Prelude.{
  ℕ, ◌+◌, ◌*◌, ◌≤◌, ◌<◌, ◌≡◌, refl, sym, ◌∙◌, ap, false, List, arith, length, inl, inr, ◌⊎◌,
}
use mydrivers.Prelude.Family.{update}
use mydrivers.Kernel.{Errno, enomem, efault, err, Uaccess, Allocator}
use mydrivers.Scull.Device.{Dev, Globals, int_max, locate}
use mydrivers.Scull.Write.{Outcome, write_count, scull_write}
use mydrivers.Scull.Invariant.{IsValid}
use mydrivers.Scull.Places.{InRange, q_pos-lt, small-InRange, quantum_end}
use mydrivers.Scull.Blocks.{load, write_count-le}
use mydrivers.Scull.WriteKeeps.{Kept}
use mydrivers.Scull.WriteEnds.{taken, Reports, wrote, failed}
use mydrivers.Scull.Writes.{write_bytes, write_outside_of, write_small}
use mydrivers.Scull.File.{File, did_write, within, Allowed, writes, write_fails}
use mydrivers.Scull.Sharing.{System, ended}

-- The file that the processes see.
abbrev pub file : System → File
file s = record { content = load s.dev; size = s.dev.size; pos = s.pos }

-- A well-formed device of the geometry `quantum` and `qset`, and no position past the last one that
-- has a place.
pub record Core (k : Allocator) (g : Globals) (quantum qset : ℕ) (s : System) : Type 0 where
  pub valid : IsValid k g s.dev
  pub quantum_is : s.dev.quantum ≡ quantum
  pub qset_is : s.dev.qset ≡ qset
  pub in_limit : (j : ℕ) → s.pos j ≤ int_max * (quantum * qset)

pub moved :
    (s : System) (i n x j : ℕ)
    → x ≡ s.pos i + n
    → update s.pos i x j ≡ update s.pos i (s.pos i + n) j
moved s i n x j e = ap (λ y. update s.pos i y j) e

write_count-pos : (quantum q count : ℕ) → q < quantum → 0 < count → 0 < write_count quantum q count
unfolding write_count
write_count-pos quantum q count lt h = ground arith

module _ (k : Allocator) (g : Globals) (quantum qset : ℕ) where
  module _ (s : System) (i : ℕ) (core : Core k g quantum qset s) where
    abbrev d : Dev
    d = s.dev

    pub range_of_small :
        (locate d.quantum d.qset (s.pos i)).item < int_max → InRange d.quantum d.qset (s.pos i)
    range_of_small =
        small-InRange d.quantum d.qset core.valid.quantum_pos core.valid.qset_pos (s.pos i)
          (rw (core.quantum_is, core.qset_is) (core.in_limit i))

    same_range : (p : ℕ) → InRange quantum qset p → InRange d.quantum d.qset p
    same_range p h = rw (core.quantum_is, core.qset_is) h

    -- A call that ended at a position that has a place.
    pub ended-Core :
        (o : Outcome)
        → Kept k g d s.mem o
        → o.pos ≤ int_max * (quantum * qset)
        → Core k g quantum qset (ended s i o)
    ended-Core o kept in_limit = record {
      valid = kept.valid;
      quantum_is = kept.quantum_kept ∙ core.quantum_is;
      qset_is = kept.qset_kept ∙ core.qset_is;
      in_limit = λ j. ground (arith, core.in_limit j);
    }

    module _ (u : Uaccess) where
      abbrev pub wrote_o : List ℕ → Outcome
      wrote_o src = scull_write u k g d (s.pos i) src false s.mem

      -- Where a write ends, and what it is to the file.
      pub record Written (src : List ℕ) : Type 0 where
        pub can :
            Allowed
              (InRange quantum qset)
              i
              (file s)
              (file (ended s i (wrote_o src)))
              (did_write src (wrote_o src).result)
        pub grows : d.size ≤ (wrote_o src).dev.size
        pub moves : (wrote_o src).pos + d.size ≡ s.pos i + (wrote_o src).dev.size
        pub limit : (wrote_o src).pos ≤ int_max * (quantum * qset)

      pub write-Written : (src : List ℕ) → Reports d (s.pos i) src (wrote_o src) → Written src
      write-Written src (wrote r x z) =
          let n = taken d (s.pos i) src in
          let hp = range_of_small (write_small u k g d (s.pos i) src s.mem core.valid n r) in
          let q_lt =
            q_pos-lt d.quantum d.qset core.valid.quantum_pos core.valid.qset_pos (s.pos i) in
          let le =
            write_count-le d.quantum (locate d.quantum d.qset (s.pos i)).q_pos (length src) q_lt in
          let end : s.pos i + n ≤ int_max * (quantum * qset) =
            rw (sym core.quantum_is, sym core.qset_is)
              (quantum_end d.quantum d.qset core.valid.quantum_pos core.valid.qset_pos (s.pos i) n
                hp (omega (arith, le))) in
          record {
            can =
                writes src n (rw r refl) le.0 (progress src q_lt)
                  (λ p h.
                    write_bytes u k g d (s.pos i) src s.mem core.valid n p hp (same_range p h) r)
                  z (λ j. moved s i n (wrote_o src).pos j x);
            grows = omega (arith, z);
            moves = omega (arith, x, z);
            limit = omega (arith, x, end);
          }
        where
          progress :
              (src : List ℕ)
              → (locate d.quantum d.qset (s.pos i)).q_pos < d.quantum
              → 0 < length src
              → 0 < taken d (s.pos i) src
          progress src lt h = write_count-pos d.quantum _ (length src) lt h
      write-Written src (failed why x z) = record {
        can =
            write_fails src (errno why) (named why)
              (λ p h out.
                write_outside_of u k g d (s.pos i) src s.mem core.valid p range_of_small
                  (same_range p h) (narrower p out))
              z (λ j. moved s i 0 (wrote_o src).pos j (omega (arith, x)));
        grows = omega (arith, z);
        moves = omega (arith, x, z);
        limit = omega (arith, x, core.in_limit i);
      }
        where
          errno : ((wrote_o src).result ≡ err enomem) ⊎ ((wrote_o src).result ≡ err efault) → Errno
          errno (inl _) = enomem
          errno (inr _) = efault

          named :
              (w : ((wrote_o src).result ≡ err enomem) ⊎ ((wrote_o src).result ≡ err efault))
              → did_write src (wrote_o src).result ≡ did_write src (err (errno w))
          named (inl e) = ap (did_write src) e
          named (inr e) = ap (did_write src) e

          narrower :
              (p : ℕ)
              → within (s.pos i) (length src) p ≡ false
              → within (s.pos i) (taken d (s.pos i) src) p ≡ false
          narrower p out = ground (
            arith,
            write_count-le d.quantum (locate d.quantum d.qset (s.pos i)).q_pos (length src)
                (q_pos-lt d.quantum d.qset core.valid.quantum_pos core.valid.qset_pos (s.pos i)),
          )
