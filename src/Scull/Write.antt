-- ===== src/Scull/Write.antt =====
-- `scull_write`: at most the rest of one quantum is written.
use mydrivers.Prelude.{
  ℕ, ◌+◌, ◌-◌, ◌*◌, Bool, Option, none, some, List, [], ltb, leb, ◌==◌, if◌then◌else◌, length,
  get_elem?, get_or, set, take, replicate, slice, splice,
}
use mydrivers.Kernel.{
  erestartsys, efault, enomem, Result, ok, err, fault, Uaccess, Allocator, Mem, granted,
}
use mydrivers.Scull.Device.{Block, Qset, Dev, Globals, Place, empty_qset, can_divide, locate}
use mydrivers.Scull.Alloc.{Grant, block, null, crash, scull_alloc, memset_zero}
use mydrivers.Scull.Follow.{scull_follow}

-- The return value of a handler, the file position and the device after it, and what went into
-- the caller's buffer.
pub record Outcome : Type 0 where
  pub result : Result ℕ
  pub pos : ℕ
  pub dev : Dev
  pub mem : Mem
  pub delivered : List ℕ

abbrev pub pointer_bytes : ℕ
pointer_bytes = 8

abbrev pub zeroed_slots : ℕ → Option (List ℕ) → Option (List (Option Block))
zeroed_slots qset none = none
zeroed_slots qset (some _) = some (replicate qset none)

-- `if (dptr->data == NULL)`: the array of a node, allocated and cleared if it is missing.
unfoldable pub ensure_slots :
    Allocator → ℕ → Option (List (Option Block)) → Mem → Option (List (Option Block)) × Mem
ensure_slots k qset (some slots) m = (some slots, m)
ensure_slots k qset none m =
    let r = k.kmalloc m.asked (pointer_bytes * qset) in (zeroed_slots qset r, granted r m)

abbrev pub zeroed_block : ℕ → Grant → Grant
zeroed_block n (block b) = elim (memset_zero b n) [ none ↦ crash | some b' ↦ block b' ]
zeroed_block n r = r

-- `if (dptr->data[s_pos] == NULL)`: the quantum of a slot, allocated and cleared if it is missing;
-- a slot past the end of the array is no pointer.
abbrev pub quantum_or_new : Allocator → Globals → Dev → Option (Option Block) → Mem → Grant × Mem
quantum_or_new k g d none m = (crash, m)
quantum_or_new k g d (some none) m =
    let (r, m') = scull_alloc k g d m in (zeroed_block d.quantum r, m')
quantum_or_new k g d (some (some b)) m = (block b, m)

unfoldable pub ensure_quantum :
    Allocator → Globals → Dev → List (Option Block) → ℕ → Mem → Grant × Mem
ensure_quantum k g d slots s m = quantum_or_new k g d (get_elem? slots s) m

-- `count`, cut to the rest of the quantum
unfoldable pub write_count : ℕ → ℕ → ℕ → ℕ
write_count quantum q_pos count = if ltb (quantum - q_pos) count then quantum - q_pos else count

-- `copy_from_user` into the quantum: the result, and the quantum after it.
unfoldable pub fill : Uaccess → ℕ → Block → ℕ → List ℕ → Result ℕ × Block
fill u quantum b q_pos src =
    let count = write_count quantum q_pos (length src) in
    let (missed, bytes) = u.copy_from_user (slice b q_pos count) (take count src) in
    if leb (q_pos + count) (length b)
    then (if missed == 0 then ok count else err efault, splice b q_pos bytes)
    else (fault, b)

abbrev pub put_slots : List Qset → ℕ → List (Option Block) → List Qset
put_slots nodes i slots = set nodes i (record { data_ = some slots })

module _ (u : Uaccess) (k : Allocator) (g : Globals) (d : Dev) (pos : ℕ) (src : List ℕ) where
  abbrev pub stopped : Result ℕ → List Qset → Mem → Outcome
  stopped r nodes m = record {
    result = r;
    pos = pos;
    dev = record d { nodes = nodes };
    mem = m;
    delivered = [];
  }

  -- `*f_pos += count; dev->size += count; retval = count;` where the copy succeeded.
  abbrev pub written : Result ℕ → List Qset → Mem → Outcome
  written (ok n) nodes m = record {
    result = ok n;
    pos = pos + n;
    dev = record d { nodes = nodes; size = d.size + n };
    mem = m;
    delivered = [];
  }
  written r nodes m = stopped r nodes m

  abbrev pub write_block : Place → List Qset → List (Option Block) → Grant × Mem → Outcome
  write_block pl nodes slots (null, m) = stopped (err enomem) (put_slots nodes pl.item slots) m
  write_block pl nodes slots (crash, m) = stopped fault nodes m
  write_block pl nodes slots (block b, m) =
      let (r, b') = fill u d.quantum b pl.q_pos src in
      written r (put_slots nodes pl.item (set slots pl.s_pos (some b'))) m

  abbrev pub write_slots : Place → List Qset → Option (List (Option Block)) × Mem → Outcome
  write_slots pl nodes (none, m) = stopped (err enomem) nodes m
  write_slots pl nodes (some slots, m) =
      write_block pl nodes slots (ensure_quantum k g d slots pl.s_pos m)

  abbrev pub write_node : Place → Option ℕ × List Qset × Mem → Outcome
  write_node pl (none, nodes, m) = stopped (err enomem) nodes m
  write_node pl (some i, nodes, m) =
      write_slots pl nodes (ensure_slots k d.qset (get_or nodes i empty_qset).data_ m)

  -- With the semaphore held.
  unfoldable pub write_locked : Mem → Outcome
  write_locked m =
      let pl = locate d.quantum d.qset pos in
      if can_divide d.quantum d.qset
      then write_node pl (scull_follow k d.nodes pl.item m)
      else stopped fault d.nodes m

  -- `interrupted` is whether `down_interruptible` was.
  unfoldable pub scull_write : Bool → Mem → Outcome
  unfolding write_locked
  scull_write interrupted m =
      if interrupted then stopped (err erestartsys) d.nodes m else write_locked m
