-- ===== src/Scull/Tests.antt =====
-- Runs of the memory device on small inputs, and its theorems at concrete devices.
use mydrivers.Prelude.{
  ℕ, zero, suc, ◌+◌, ◌-◌, ◌≡◌, ◌≢◌, ◌⊎◌, refl, true, false, none, some, List, [], ◌∷◌, arith, leb,
  ltb, ◌&&◌, if◌then◌else◌, get_or,
}
use mydrivers.Kernel.{efault, enotty, ok, err, Mem}
use mydrivers.Examples.{copies_all, copies_none, grants_all, no_blocks}
use mydrivers.Scull.Device.{basic, Dev, Globals, can_divide, locate}
use mydrivers.Scull.Alloc.{scull_alloc, scull_free, memset_zero}
use mydrivers.Scull.Follow.{new_qset, walk, ensure_head, scull_follow}
use mydrivers.Scull.Trim.{free_slots, free_nodes, scull_trim}
use mydrivers.Scull.Write.{ensure_slots, ensure_quantum, write_count, fill, scull_write}
use mydrivers.Scull.Read.{scull_read}
use mydrivers.Scull.Invariant.{SlotsAreFit, NodesAreFit, IsValid}
use mydrivers.Scull.Blocks.{load}
use mydrivers.Scull.WriteEnds.{taken, Reports, write-Reports}
use mydrivers.Scull.Writes.{write_outside, write_bytes}
use mydrivers.Scull.WriteKeeps.{Kept, write-Kept}
use mydrivers.Scull.Reads.{Delivers, read-Delivers, read_keeps}
use mydrivers.Scull.RoundTrip.{read-write}
use mydrivers.Scull.Ioctl.{
  Cmd, reset, tquantum, tqset, qquantum, qqset, xquantum, xqset, hquantum, io, number, Caller,
  with_quantum, with_qset, scull_ioctl,
}
use mydrivers.Scull.Controls.{ioctl_unprivileged, ioctl_unknown, query-tell, ioctl_exchange}
use mydrivers.Scull.Trims.{trimmed, scull_trim_lem, scull_trim-IsValid}

abbrev defaults : Globals
defaults = record { quantum = 4; qset_n = 3; object_size = none }

-- Slots of four bytes, three to a set; nothing written yet.
abbrev blank : Dev
blank = record { nodes = []; quantum = 4; qset = 3; size = 0; order = 0; type_ = basic }

-- Five bytes at position 1: the quantum takes three of them.
write_stops_at_quantum :
    (scull_write copies_all grants_all defaults blank 1
      (7 ∷ 8 ∷ 9 ∷ 10 ∷ 11 ∷ [])
      false
      no_blocks).result
    ≡ ok 3
unfolding scull_write scull_follow ensure_head walk new_qset ensure_slots ensure_quantum scull_alloc
    memset_zero fill write_count can_divide locate
write_stops_at_quantum = refl

-- The same device after that write: one node, its array and one quantum.
abbrev one_quantum : Dev
one_quantum = record blank {
  nodes = record { data_ = some (some (0 ∷ 7 ∷ 8 ∷ 9 ∷ []) ∷ none ∷ none ∷ []) } ∷ [];
  size = 3;
}

one_quantum-slots : SlotsAreFit 4 (some (0 ∷ 7 ∷ 8 ∷ 9 ∷ []) ∷ none ∷ none ∷ [])
one_quantum-slots zero = omega arith
one_quantum-slots (suc zero) = tt
one_quantum-slots (suc (suc zero)) = tt
one_quantum-slots (suc (suc (suc s))) = tt

one_quantum-nodes : NodesAreFit 4 3 one_quantum.nodes
one_quantum-nodes zero = (refl, one_quantum-slots)
one_quantum-nodes (suc i) = tt

one_quantum-IsValid : IsValid grants_all defaults one_quantum
one_quantum-IsValid = record {
  quantum_pos = omega arith;
  qset_pos = omega arith;
  product_int = omega arith;
  alloc_fits = tt;
  nodes_fit = one_quantum-nodes;
}

blank-IsValid : IsValid grants_all defaults blank
blank-IsValid = record {
  quantum_pos = omega arith;
  qset_pos = omega arith;
  product_int = omega arith;
  alloc_fits = tt;
  nodes_fit = λ i. tt;
}

-- The second write, at position 3, ends the quantum; its last byte does not fit.
abbrev two_bytes : List ℕ
two_bytes = 20 ∷ 21 ∷ []

abbrev three_blocks : Mem
three_blocks = record { asked = 3; live = 3 }

write-Reports_example :
    Reports one_quantum 3 two_bytes
      (scull_write copies_all grants_all defaults one_quantum 3 two_bytes false three_blocks)
write-Reports_example =
    write-Reports copies_all grants_all defaults one_quantum 3 two_bytes three_blocks
      one_quantum-IsValid

write_outside_test :
    load
      (scull_write copies_none grants_all defaults one_quantum 3 two_bytes false three_blocks).dev
      2
    ≡ load one_quantum 2
write_outside_test =
    write_outside copies_none grants_all defaults one_quantum 3 two_bytes three_blocks
      one_quantum-IsValid 2 (omega arith) (omega arith) write_two_misses
  where
    write_two_misses : (leb 3 2 && ltb 2 (3 + taken one_quantum 3 two_bytes)) ≡ false
    write_two_misses = refl

write_three :
    (scull_write copies_all grants_all defaults one_quantum 3 two_bytes false three_blocks).result
    ≡ ok 1
unfolding scull_write scull_follow ensure_head walk new_qset ensure_slots ensure_quantum scull_alloc
    memset_zero fill write_count can_divide locate
write_three = refl

write_bytes_example :
    load
      (scull_write copies_all grants_all defaults one_quantum 3 two_bytes false three_blocks).dev
      3
    ≡ (if leb 3 3 && ltb 3 (3 + 1) then get_or two_bytes (3 - 3) 0 else load one_quantum 3)
write_bytes_example =
    write_bytes copies_all grants_all defaults one_quantum 3 two_bytes three_blocks
      one_quantum-IsValid 1 3 (omega arith) (omega arith) write_three

write-Kept_example :
    Kept grants_all defaults one_quantum three_blocks
      (scull_write copies_all grants_all defaults one_quantum 3 two_bytes false three_blocks)
write-Kept_example =
    write-Kept copies_all grants_all defaults one_quantum 3 two_bytes three_blocks
      one_quantum-IsValid false

read-Delivers_example :
    Delivers one_quantum 1 10 (scull_read copies_all grants_all one_quantum 1 10 false three_blocks)
read-Delivers_example =
    read-Delivers copies_all grants_all defaults one_quantum 1 10 three_blocks one_quantum-IsValid
      (omega arith)

read_keeps_test :
    let o = scull_read copies_all grants_all one_quantum 1 10 false three_blocks in
    (load o.dev 2 ≡ load one_quantum 2)
    × (o.dev.size ≡ 3)
    × Kept grants_all defaults one_quantum three_blocks o
read_keeps_test =
    read_keeps copies_all grants_all defaults one_quantum 1 10 three_blocks one_quantum-IsValid 2

read-write_example :
    let w = scull_write copies_all grants_all defaults one_quantum 3 two_bytes false three_blocks in
    let r = scull_read copies_all grants_all w.dev 3 1 false w.mem in
    (r.result ≡ ok 1) × (r.delivered ≡ 20 ∷ [])
read-write_example =
    read-write copies_all grants_all defaults one_quantum 3 two_bytes three_blocks
      one_quantum-IsValid 1 (omega arith) (omega arith) (omega arith) write_three (λ l. refl)

-- Four blocks are live, three of them the device's.
scull_trim_lem_example :
    (scull_trim defaults one_quantum (record { asked = 4; live = 4 })
      ≡ some (trimmed defaults one_quantum, record { asked = 4; live = 1 }))
    × ((p : ℕ) → load (trimmed defaults one_quantum) p ≡ 0)
scull_trim_lem_example =
    scull_trim_lem grants_all defaults one_quantum (record { asked = 4; live = 4 }) 1
      one_quantum-IsValid refl

one_quantum_trims :
    scull_trim defaults one_quantum (record { asked = 4; live = 4 })
    ≡ some (trimmed defaults one_quantum, record { asked = 4; live = 1 })
unfolding scull_trim free_nodes free_slots scull_free
one_quantum_trims = refl

scull_trim-IsValid_test : IsValid grants_all defaults (trimmed defaults one_quantum)
scull_trim-IsValid_test =
    scull_trim-IsValid grants_all defaults one_quantum (trimmed defaults one_quantum)
      (record { asked = 4; live = 4 }) (record { asked = 4; live = 1 }) one_quantum-IsValid
      (omega arith) (omega arith) (omega arith) (omega arith) tt one_quantum_trims

-- A write at position 0 of a device that holds three bytes makes it six bytes long.
rewrite_grows :
    (scull_write copies_all grants_all defaults one_quantum 0
      (1 ∷ 2 ∷ 3 ∷ [])
      false
      three_blocks).dev.size
    ≡ 6
unfolding scull_write scull_follow ensure_head walk new_qset ensure_slots ensure_quantum scull_alloc
    memset_zero fill write_count can_divide locate
rewrite_grows = refl

-- A privileged caller whose `int` is 64 and can be written.
abbrev root : Caller
root = record { capable = true; access_ok = true; get_fails = false; got = 64; put_fails = false }

abbrev user : Caller
user = record { capable = false; access_ok = true; get_fails = false; got = 64; put_fails = false }

ioctl_unprivileged_example :
    ((scull_ioctl user defaults (number hquantum) 9).globals ≡ defaults)
    ⊎ (number hquantum ≡ number reset)
ioctl_unprivileged_example = ioctl_unprivileged user defaults (number hquantum) 9 refl

pipe_size-unknown : (cmd : Cmd) → io 13 ≢ number cmd
pipe_size-unknown cmd e = absurd (ground arith)

ioctl_unknown_test :
    let r = scull_ioctl root defaults (io 13) 0 in
    ((r.result ≡ err enotty) ⊎ (r.result ≡ err efault)) × (r.globals ≡ defaults) × (r.put ≡ none)
ioctl_unknown_test = ioctl_unknown root defaults (io 13) 0 pipe_size-unknown

query-tell_example :
    let gq = (scull_ioctl root defaults (number tquantum) 77).globals in
    let gs = (scull_ioctl root defaults (number tqset) 77).globals in
    ((scull_ioctl user gq (number qquantum) 0).result ≡ ok 77)
    × ((scull_ioctl user gs (number qqset) 0).result ≡ ok 77)
    × ((scull_ioctl user gq (number qqset) 0).result ≡ ok defaults.qset_n)
    × ((scull_ioctl user gs (number qquantum) 0).result ≡ ok defaults.quantum)
query-tell_example = query-tell root user defaults 77 0 refl refl refl

ioctl_exchange_test :
    let q = scull_ioctl root defaults (number xquantum) 0 in
    let s = scull_ioctl root defaults (number xqset) 0 in
    (q.globals ≡ with_quantum defaults 64)
    × (q.put ≡ some defaults.quantum)
    × (s.globals ≡ with_qset defaults 64)
    × (s.put ≡ some 64)
ioctl_exchange_test = ioctl_exchange root defaults 0 refl refl refl refl
