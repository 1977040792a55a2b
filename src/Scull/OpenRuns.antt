-- ===== src/Scull/OpenRuns.antt =====
-- Opens for writing only between the calls of others do no harm to the driver.
use mydrivers.Prelude.{
  ℕ, ◌+◌, ◌-◌, ◌*◌, ◌≤◌, ◌<◌, ◌≡◌, refl, sym, subst, true, false, Bool-cases, leb, leb→le, List,
  arith, inl, inr, ◌⊎◌,
}
use mydrivers.Prelude.Family.{update}
use mydrivers.Kernel.{erestartsys, efault, Allocator}
use mydrivers.Access.Users.{write_only, emptied, scull_open}
use mydrivers.Scull.Device.{Globals, int_max}
use mydrivers.Scull.Trim.{scull_trim}
use mydrivers.Scull.Write.{Outcome, scull_write}
use mydrivers.Scull.Read.{read_locked}
use mydrivers.Scull.Invariant.{AllocFits, IsValid, owned}
use mydrivers.Scull.Places.{InRange}
use mydrivers.Scull.Blocks.{load}
use mydrivers.Scull.Trims.{trimmed, scull_trim_lem, trimmed-IsValid}
use mydrivers.Scull.WriteKeeps.{Kept, write-Kept}
use mydrivers.Scull.WriteEnds.{write-Reports}
use mydrivers.Scull.Reads.{Copies, locked-Copies, locked_keeps}
use mydrivers.Scull.File.{Event, did_read, did_write, internal, reads, read_fails, write_fails}
use mydrivers.Scull.Sharing.{Pc, System, ended, Move, begin_read, end_read, stop_read, write}
use mydrivers.Scull.OneWrite.{file, Core, range_of_small, ended-Core, moved, write-Written}
use mydrivers.Scull.Openings.{
  Told, call, did_open, shared, opened, OpenMove, shares, OpenSteps, start, later,
}
use mydrivers.Scull.LooseFile.{Loosely, strictly, reads_late, opens, empties, LooseRun}

module _ (k : Allocator) (g : Globals) where
  -- A well-formed device of the default geometry, whose blocks are among those that the driver holds,
  -- and no position past the last one that has a place.
  pub record Steady (s : System) : Type 0 where
    pub core : Core k g g.quantum g.qset_n s
    pub owns : owned s.dev.nodes ≤ s.mem.live

  abbrev Does : System → ℕ → Told → System → Type 0
  Does s i e s' = Loosely (InRange g.quantum g.qset_n) i (file s) (file s') e × Steady s'

  waiting : (s : System) → Steady s → (pc : ℕ → Pc) → Steady (record s { pc = pc })
  waiting s inv pc = record {
    core = record {
      valid = inv.core.valid;
      quantum_is = inv.core.quantum_is;
      qset_is = inv.core.qset_is;
      in_limit = inv.core.in_limit;
    };
    owns = inv.owns;
  }

  unmoved : (s : System) (i j : ℕ) → s.pos j ≡ update s.pos i (s.pos i + 0) j
  unmoved s i j = ground arith

  module _ (s : System) (i : ℕ) (inv : Steady s) where
    abbrev limit : ℕ
    limit = int_max * (g.quantum * g.qset_n)

    ended-Steady : (o : Outcome) → Kept k g s.dev s.mem o → o.pos ≤ limit → Steady (ended s i o)
    ended-Steady o kept le = record {
      core = ended-Core k g g.quantum g.qset_n s i inv.core o kept le;
      owns = omega (arith, kept.balance, inv.owns);
    }

    read_Does :
        (count left : ℕ) (o : Outcome)
        → Copies s.dev (s.pos i) count left o
        → ((p : ℕ)
            → (load o.dev p ≡ load s.dev p) × (o.dev.size ≡ s.dev.size) × Kept k g s.dev s.mem o)
        → Does s i (call (did_read count o.result o.delivered)) (ended s i o)
    read_Does count left o (Copies.failed r x b) keeps = (
      strictly (
          read_fails count efault (rw (r, b) refl) (λ p h. (keeps p).0, (keeps 0).1)
            (λ j. moved s i 0 o.pos j (omega (arith, x)))),
      ended-Steady o (keeps 0).2 (omega (arith, x, inv.core.in_limit i)),
    )
    read_Does count left o (Copies.got n r x len le lim same) keeps = (
      told lim (Bool-cases (leb (s.pos i + n) s.dev.size)),
      ended-Steady o (keeps 0).2 (ends lim),
    )
      where
        in_size :
            (n ≡ 0) ⊎ (s.pos i + n ≤ s.dev.size)
            → Loosely
                (InRange g.quantum g.qset_n)
                i
                (file s)
                (file (ended s i o))
                (call (did_read count o.result o.delivered))
        in_size fits = strictly (
            reads count n o.delivered (rw r refl) le fits len same (λ p h. (keeps p).0, (keeps 0).1)
              (λ j. moved s i n o.pos j x))

        told :
            (n ≡ 0)
              ⊎ ((s.pos i < s.dev.size)
                  × (n ≤ left)
                  × (s.pos i + n ≤ int_max * (s.dev.quantum * s.dev.qset)))
            → (leb (s.pos i + n) s.dev.size ≡ true) ⊎ (leb (s.pos i + n) s.dev.size ≡ false)
            → Loosely
                (InRange g.quantum g.qset_n)
                i
                (file s)
                (file (ended s i o))
                (call (did_read count o.result o.delivered))
        told (inl z) cmp = in_size (inl z)
        told (inr within) (inl e) = in_size (inr (leb→le (s.pos i + n) s.dev.size e))
        told (inr within) (inr e) =
            reads_late count n o.delivered (rw r refl) le within.0 (ground (arith, e)) len same
              (λ p h. (keeps p).0, (keeps 0).1) (λ j. moved s i n o.pos j x)

        ends :
            (n ≡ 0)
              ⊎ ((s.pos i < s.dev.size)
                  × (n ≤ left)
                  × (s.pos i + n ≤ int_max * (s.dev.quantum * s.dev.qset)))
            → o.pos ≤ limit
        ends (inl z) = omega (arith, z, x, inv.core.in_limit i)
        ends (inr (_, _, e)) =
            let e' : s.pos i + n ≤ limit = rw (sym inv.core.quantum_is, sym inv.core.qset_is) e in
            omega (arith, e', x)

    trimmed_lem : IsValid k g (trimmed g s.dev)
    trimmed_lem =
        let v = inv.core.valid in
        let e = inv.core.quantum_is in
        let f = inv.core.qset_is in
        trimmed-IsValid k g s.dev (omega (arith, v.quantum_pos, e)) (omega (arith, v.qset_pos, f))
          (rw (sym e, sym f) v.product_int)
          (subst (λ q. AllocFits k g q s.dev.order s.dev.type_) e v.alloc_fits)

    trim_Does :
        (f_flags : ℕ)
        → write_only f_flags ≡ true
        → let o = emptied (shared s) (scull_trim g s.dev s.mem) in
          Does s i (did_open f_flags o.result) (opened s i o.shared)
    trim_Does f_flags w =
        let rest = s.mem.live - owned s.dev.nodes in
        let trims = scull_trim_lem k g s.dev s.mem rest inv.core.valid (omega (arith, inv.owns)) in
        rw trims.0 (
          empties w refl trims.1 (λ j. refl),
          record {
            core = record {
              valid = trimmed_lem;
              quantum_is = refl;
              qset_is = refl;
              in_limit = λ j. ground (arith, inv.core.in_limit j);
            };
            owns = omega arith;
          },
        )

    open_Does :
        (f_flags : ℕ)
        → let o = scull_open g f_flags (shared s) in
          Does s i (did_open f_flags o.result) (opened s i o.shared)
    unfolding scull_open
    open_Does f_flags = elim (Bool-cases (write_only f_flags)) [
      | inl w ↦ rw w (trim_Does f_flags w)
      | inr w ↦ rw w (
        opens w (λ p h. refl, refl) (λ j. refl),
        record {
          core = record {
            valid = inv.core.valid;
            quantum_is = inv.core.quantum_is;
            qset_is = inv.core.qset_is;
            in_limit = λ j. ground (arith, inv.core.in_limit j);
          };
          owns = inv.owns;
        },
      )
    ]

  Move-Does :
      {s : System} {i : ℕ} {e : Event} {s' : System}
      → Move k g s i e s'
      → Steady s
      → Does s i (call e) s'
  unfolding scull_write
  Move-Does {s} {i = i} (begin_read count at) inv =
      (strictly (internal refl (λ p h. refl, refl) (λ j. unmoved s i j)), waiting s inv _)
  Move-Does {s} {i = i} (end_read u {count = count} {left = left} {o = o} at e) inv =
      subst (λ o. Does s i (call (did_read count o.result o.delivered)) (ended s i o)) e
        (read_Does s i inv count left (read_locked u k s.dev (s.pos i) count left s.mem)
          (locked-Copies u k g s.dev (s.pos i) count left s.mem inv.core.valid
            (range_of_small k g g.quantum g.qset_n s i inv.core))
          (locked_keeps u k g s.dev (s.pos i) count left s.mem inv.core.valid))
  Move-Does {s} {i = i} (stop_read {count = count} at) inv = (
    strictly (read_fails count erestartsys refl (λ p h. refl, refl) (λ j. unmoved s i j)),
    waiting s inv _,
  )
  Move-Does {s} {i = i} (write u src true at e) inv =
      subst (λ o. Does s i (call (did_write src o.result)) (ended s i o)) e
        (
          strictly (
              write_fails src erestartsys refl (λ p h out. refl) refl
                (λ j. moved s i 0 (s.pos i) j (omega arith))),
          ended-Steady s i inv _ (write-Kept u k g s.dev (s.pos i) src s.mem inv.core.valid true)
              (inv.core.in_limit i),
        )
  Move-Does {s} {i = i} (write u src false at e) inv =
      let w =
        write-Written k g g.quantum g.qset_n s i inv.core u src
          (write-Reports u k g s.dev (s.pos i) src s.mem inv.core.valid) in
      subst (λ o. Does s i (call (did_write src o.result)) (ended s i o)) e
        (
          strictly w.can,
          ended-Steady s i inv _ (write-Kept u k g s.dev (s.pos i) src s.mem inv.core.valid false)
              w.limit,
        )

  OpenMove-Does :
      {s : System} {i : ℕ} {e : Told} {s' : System}
      → OpenMove k g s i e s'
      → Steady s
      → Does s i e s'
  OpenMove-Does (shares m) inv = Move-Does m inv
  OpenMove-Does {s} {i = i} (OpenMove.opens f_flags at e) inv =
      subst (λ o. Does s i (did_open f_flags o.result) (opened s i o.shared)) e
        (open_Does s i inv f_flags)

  -- From a well-formed device of the default geometry, whose blocks are among those that the driver
  -- holds, and on which no position is past the last one that has a place, while the defaults
  -- stay: whatever the processes read and write, whichever of these calls fails to copy or runs out of
  -- memory, and however they open the device anew between
  -- those calls, for writing only or not, in whatever order, what they are told is what one
  -- file with a position for each of them may tell, where an open for writing only empties the
  -- file and a read that began before its end may go past it. No call crashes, and the device
  -- stays well formed with its blocks accounted for.
  pub OpenSteps-Run :
      {n : ℕ} {s s' : System} {told : List (ℕ × Told)}
      → Steady s
      → OpenSteps k g n s told s'
      → LooseRun (InRange g.quantum g.qset_n) n (file s) told (file s') × Steady s'
  OpenSteps-Run inv start = (LooseRun.start, inv)
  OpenSteps-Run inv (later i lt r m) =
      let (run, inv') = OpenSteps-Run inv r in
      let (can, inv'') = OpenMove-Does m inv' in (LooseRun.later i lt run can, inv'')
