-- ===== src/Scull/Read.antt =====
-- `scull_read`: at most the rest of one quantum is read.
use mydrivers.Prelude.{
  ℕ, ◌+◌, ◌-◌, ◌^◌, Bool, Option, none, some, List, [], ltb, leb, ◌==◌, if◌then◌else◌, length,
  get_elem?, get_or, slice,
}
use mydrivers.Kernel.{erestartsys, efault, Result, ok, err, fault, Uaccess, Allocator, Mem}
use mydrivers.Scull.Device.{Block, Qset, Dev, Place, empty_qset, can_divide, locate}
use mydrivers.Scull.Follow.{scull_follow}
use mydrivers.Scull.Write.{Outcome}

-- `count`, cut to what is left of the device and then to the rest of the quantum
unfoldable pub read_count : ℕ → ℕ → ℕ → ℕ → ℕ
read_count left quantum q_pos count =
    let count' = if ltb left count then left else count in
    if ltb (quantum - q_pos) count' then quantum - q_pos else count'

-- `left_quatity`, a `loff_t`: negative, so a large `size_t`, where the position is past the size.
abbrev pub left_at : (size pos : ℕ) → ℕ
left_at size pos = if leb pos size then size - pos else 2 ^ 64 - (pos - size)

module _ (u : Uaccess) (k : Allocator) (d : Dev) (pos count left : ℕ) where
  abbrev pub unread : Result ℕ → List Qset → Mem → Outcome
  unread r nodes m = record {
    result = r;
    pos = pos;
    dev = record d { nodes = nodes };
    mem = m;
    delivered = [];
  }

  -- `copy_to_user` from the quantum, `*f_pos += count; retval = count;`
  unfoldable pub deliver : Block → ℕ → List Qset → Mem → Outcome
  deliver b q_pos nodes m =
      let n = read_count left d.quantum q_pos count in
      let bytes = slice b q_pos n in
      if leb (q_pos + n) (length b)
      then if u.copy_to_user bytes == 0
        then record {
          result = ok n;
          pos = pos + n;
          dev = record d { nodes = nodes };
          mem = m;
          delivered = bytes;
        }
        else unread (err efault) nodes m
      else unread fault nodes m

  -- `dptr->data[s_pos] == NULL`, where a slot past the end of the array is no pointer
  abbrev pub read_slot : Place → List Qset → Option (Option Block) → Mem → Outcome
  read_slot pl nodes none m = unread fault nodes m
  read_slot pl nodes (some none) m = unread (ok 0) nodes m
  read_slot pl nodes (some (some b)) m = deliver b pl.q_pos nodes m

  -- `dptr->data == NULL`
  abbrev pub read_slots : Place → List Qset → Option (List (Option Block)) → Mem → Outcome
  read_slots pl nodes none m = unread (ok 0) nodes m
  read_slots pl nodes (some slots) m = read_slot pl nodes (get_elem? slots pl.s_pos) m

  abbrev pub read_node : Place → Option ℕ × List Qset × Mem → Outcome
  read_node pl (none, nodes, m) = unread (ok 0) nodes m
  read_node pl (some i, nodes, m) = read_slots pl nodes (get_or nodes i empty_qset).data_ m

  -- With the semaphore held. A read past the end returns before anything is divided. `left` was
  -- computed before the semaphore was asked for.
  unfoldable pub read_locked : Mem → Outcome
  unfolding deliver
  read_locked m =
      let pl = locate d.quantum d.qset pos in
      if leb d.size pos
      then unread (ok 0) d.nodes m
      else if can_divide d.quantum d.qset
      then read_node pl (scull_follow k d.nodes pl.item m)
      else unread fault d.nodes m

-- A read during which nobody else uses the device.
unfoldable pub scull_read : Uaccess → Allocator → Dev → (pos count : ℕ) → Bool → Mem → Outcome
unfolding read_locked
scull_read u k d pos count interrupted m =
    let left = left_at d.size pos in
    if interrupted
    then unread u k d pos count left (err erestartsys) d.nodes m
    else read_locked u k d pos count left m
