-- ===== src/Scull/WriteKeeps.antt =====
-- `scull_write` keeps a device well formed and accounts for every block that it allocates.
use mydrivers.Prelude.{ℕ, ◌+◌, ◌≡◌, refl, sym, ap, subst, Bool, true, false, List, arith}
use mydrivers.Kernel.{Result, ok, err, fault, Uaccess, Allocator, Mem}
use mydrivers.Scull.Device.{Qset, Dev, Globals, Place, locate}
use mydrivers.Scull.Write.{Outcome, fill, written, scull_write}
use mydrivers.Scull.Invariant.{NodesAreFit, IsValid, Balanced}
use mydrivers.Scull.Places.{q_pos-lt}
use mydrivers.Scull.WriteShape.{with_block, Shape, refused, copied, write_locked-Shape}
use mydrivers.Scull.Blocks.{fill-Filled, owned-with, fit-with}

-- What stays the same in a device when only its list and its size change.
pub record Kept (k : Allocator) (g : Globals) (d : Dev) (m : Mem) (o : Outcome) : Type 0 where
  pub valid : IsValid k g o.dev
  pub balance : Balanced d.nodes m o.dev.nodes o.mem
  pub quantum_kept : o.dev.quantum ≡ d.quantum
  pub qset_kept : o.dev.qset ≡ d.qset

module _ (k : Allocator) (g : Globals) (d : Dev) (m : Mem) (v : IsValid k g d) where
  -- A device with another list that is well formed, and another size.
  pub regrown-Kept :
      (size : ℕ) (nodes : List Qset) (o : Outcome)
      → o.dev ≡ record d { nodes = nodes; size = size }
      → NodesAreFit d.quantum d.qset nodes
      → Balanced d.nodes m nodes o.mem
      → Kept k g d m o
  regrown-Kept size nodes o e f b = record {
    valid = subst (IsValid k g) (sym e) (record {
      quantum_pos = v.quantum_pos;
      qset_pos = v.qset_pos;
      product_int = v.product_int;
      alloc_fits = v.alloc_fits;
      nodes_fit = f;
    });
    balance = subst (λ (d' : Dev). Balanced d.nodes m d'.nodes o.mem) (sym e) b;
    quantum_kept = ap (λ (d' : Dev). d'.quantum) e;
    qset_kept = ap (λ (d' : Dev). d'.qset) e;
  }

module _ (u : Uaccess) (k : Allocator) (g : Globals) (d : Dev) (pos : ℕ) (src : List ℕ) (m : Mem)
    (v : IsValid k g d) where
  abbrev spot : Place
  spot = locate d.quantum d.qset pos

  written-Kept :
      (r : Result ℕ) (nodes : List Qset) (m' : Mem)
      → NodesAreFit d.quantum d.qset nodes
      → Balanced d.nodes m nodes m'
      → Kept k g d m (written u k g d pos src r nodes m')
  written-Kept (ok n) nodes m' f b = regrown-Kept k g d m v (d.size + n) nodes _ refl f b
  written-Kept (err e) nodes m' f b = regrown-Kept k g d m v d.size nodes _ refl f b
  written-Kept fault nodes m' f b = regrown-Kept k g d m v d.size nodes _ refl f b

  shape-Kept : (o : Outcome) → Shape u k g d pos src m o → Kept k g d m o
  shape-Kept o (refused nodes m' grown e) =
      subst (Kept k g d m) (sym e)
        (regrown-Kept k g d m v d.size nodes _ refl (grown.fit v.nodes_fit) grown.balance)
  shape-Kept o (copied nodes slots b m' small within slot_in enough grown e) =
      let r = fill u d.quantum b spot.q_pos src in
      let filled =
        fill-Filled u d.quantum b spot.q_pos src enough
          (q_pos-lt d.quantum d.qset v.quantum_pos v.qset_pos pos) in
      subst (Kept k g d m) (sym e) (
        written-Kept r.0 (with_block nodes spot.item slots spot.s_pos r.1) m'
          (fit-with nodes spot.item slots spot.s_pos within slot_in d.quantum d.qset b r.1
            filled.sized (grown.fit v.nodes_fit))
          (omega (
            arith,
            grown.balance,
            owned-with nodes spot.item slots spot.s_pos within slot_in b r.1,
          )))

  -- A write to a well-formed device, interrupted, refused, failed or done, leaves the device well
  -- formed with the same quantum and number of slots, and the blocks that the driver holds grow
  -- by exactly those that the device got: none is leaked on an error path.
  pub write-Kept : (interrupted : Bool) → Kept k g d m (scull_write u k g d pos src interrupted m)
  unfolding scull_write
  write-Kept true = regrown-Kept k g d m v d.size d.nodes _ refl v.nodes_fit refl
  write-Kept false = shape-Kept _ (write_locked-Shape u k g d pos src m v)
