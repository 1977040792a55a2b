-- ===== src/Scull/Turns.antt =====
-- What one call of a process that shares a memory device is to the file that the processes see.
use mydrivers.Prelude.{
  ℕ, ◌+◌, ◌*◌, ◌≤◌, ◌<◌, ◌≡◌, refl, sym, false, List, arith, ◌==◌, Bool-cases, inl, inr, ◌⊎◌,
}
use mydrivers.Prelude.Family.{update}
use mydrivers.Kernel.{efault, Uaccess, Allocator}
use mydrivers.Scull.Device.{Globals, int_max}
use mydrivers.Scull.Write.{Outcome}
use mydrivers.Scull.Places.{InRange}
use mydrivers.Scull.Blocks.{load}
use mydrivers.Scull.WriteKeeps.{Kept, write-Kept}
use mydrivers.Scull.WriteEnds.{Reports}
use mydrivers.Scull.Reads.{Copies}
use mydrivers.Scull.File.{Event, did_read, did_write, Moved, SameBytes, Allowed, reads, read_fails}
use mydrivers.Scull.Sharing.{Pc, idle, reading, System, ended}
use mydrivers.Scull.OneWrite.{file, Core, moved, ended-Core, wrote_o, write-Written}

-- How far a read that has begun may go.
abbrev pub ahead : Pc → ℕ
ahead idle = 0
ahead (reading count left) = left

-- Also, no position past its size, and no read that was promised more than there is.
pub record Inv (k : Allocator) (g : Globals) (quantum qset : ℕ) (s : System) : Type 0 where
  pub core : Core k g quantum qset s
  pub in_size : (j : ℕ) → s.pos j + ahead (s.pc j) ≤ s.dev.size

unmoved : (s : System) (i j : ℕ) → s.pos j ≡ update s.pos i (s.pos i + 0) j
unmoved s i j = ground arith

module _ (k : Allocator) (g : Globals) (quantum qset : ℕ) where
  abbrev pub Sound : System → Type 0
  Sound = Inv k g quantum qset

  abbrev pub Does : System → ℕ → Event → System → Type 0
  Does s i e s' = Allowed (InRange quantum qset) i (file s) (file s') e × Sound s'

  module _ (s : System) (i : ℕ) (inv : Sound s) where
    -- One process between calls, the others as they were.
    resting :
        (pc : Pc) (x size j : ℕ)
        → s.dev.size ≤ size
        → x + ahead pc ≤ size
        → update s.pos i x j + ahead (update s.pc i pc j) ≤ size
    resting pc x size j grows le = elim (Bool-cases (i == j)) [
      | inl e ↦ rw e le
      | inr e ↦ rw e (omega (arith, inv.in_size j, grows))
    ]

    -- A call that ended at a position within both limits keeps the invariant.
    pub ended-Inv :
        (o : Outcome)
        → Kept k g s.dev s.mem o
        → s.dev.size ≤ o.dev.size
        → o.pos ≤ int_max * (quantum * qset)
        → o.pos ≤ o.dev.size
        → Sound (ended s i o)
    ended-Inv o kept grows in_limit in_size = record {
      core = ended-Core k g quantum qset s i inv.core o kept in_limit;
      in_size = λ j. resting idle o.pos o.dev.size j grows (omega (arith, in_size));
    }

    pub read-Does :
        (count left : ℕ) (o : Outcome)
        → s.pos i + left ≤ s.dev.size
        → Copies s.dev (s.pos i) count left o
        → ((p : ℕ)
            → (load o.dev p ≡ load s.dev p) × (o.dev.size ≡ s.dev.size) × Kept k g s.dev s.mem o)
        → Does s i (did_read count o.result o.delivered) (ended s i o)
    read-Does count left o fits (Copies.failed r x b) keeps = (
      read_fails count efault (rw (r, b) refl) (λ p h. (keeps p).0, (keeps 0).1)
          (λ j. moved s i 0 o.pos j (omega (arith, x))),
      ended-Inv o (keeps 0).2 (omega (arith, (keeps 0).1)) (omega (arith, x, inv.core.in_limit i))
          (omega (arith, x, (keeps 0).1, fits)),
    )
    read-Does count left o fits (Copies.got n r x len le lim same) keeps =
        let end : (s.pos i + n ≤ s.dev.size) × (s.pos i + n ≤ int_max * (quantum * qset)) =
          ends lim in
        (
          reads count n o.delivered (rw r refl) le (inr end.0) len same
              (λ p h. (keeps p).0, (keeps 0).1) (λ j. moved s i n o.pos j x),
          ended-Inv o (keeps 0).2 (omega (arith, (keeps 0).1)) (omega (arith, x, end.1))
              (omega (arith, x, (keeps 0).1, end.0)),
        )
      where
        ends :
            (n ≡ 0)
              ⊎ ((s.pos i < s.dev.size)
                  × (n ≤ left)
                  × (s.pos i + n ≤ int_max * (s.dev.quantum * s.dev.qset)))
            → (s.pos i + n ≤ s.dev.size) × (s.pos i + n ≤ int_max * (quantum * qset))
        ends (inl z) = (omega (arith, z, fits), omega (arith, z, inv.core.in_limit i))
        ends (inr (_, l, e)) =
            (omega (arith, l, fits), rw (sym inv.core.quantum_is, sym inv.core.qset_is) e)

    pub write-Does :
        (u : Uaccess) (src : List ℕ)
        → Reports s.dev (s.pos i) src (wrote_o k g quantum qset s i inv.core u src)
        → Does s i
            (did_write src (wrote_o k g quantum qset s i inv.core u src).result)
            (ended s i (wrote_o k g quantum qset s i inv.core u src))
    write-Does u src reports =
        let w = write-Written k g quantum qset s i inv.core u src reports in
        (
          w.can,
          ended-Inv (wrote_o k g quantum qset s i inv.core u src)
              (write-Kept u k g s.dev (s.pos i) src s.mem inv.core.valid false) w.grows w.limit
              (omega (arith, w.moves, inv.in_size i)),
        )

  pub silent-Does :
      (s : System) (i : ℕ) (pc : Pc)
      → Sound s
      → s.pos i + ahead pc ≤ s.dev.size
      → (e : Event)
      → (SameBytes (InRange quantum qset) (file s) (file s)
          → Moved (file s) (file s) i 0
          → Allowed (InRange quantum qset) i (file s) (file s) e)
      → Does s i e (record s { pc = update s.pc i pc })
  silent-Does s i pc inv le e rule = (
    rule (λ p h. refl, refl) (λ j. unmoved s i j),
    record {
      core = record {
        valid = inv.core.valid;
        quantum_is = inv.core.quantum_is;
        qset_is = inv.core.qset_is;
        in_limit = inv.core.in_limit;
      };
      in_size = λ j. ground (arith, inv.in_size j, le);
    },
  )
