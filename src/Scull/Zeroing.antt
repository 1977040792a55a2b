-- ===== src/Scull/Zeroing.antt =====
-- What becomes of a device whose default quantum was set to zero: ioctl, open and write together.
use mydrivers.Prelude.{ℕ, ◌≤◌, ◌≡◌, ◌-◌, refl, false, true, List, arith}
use mydrivers.Kernel.{fault, ok, Uaccess, Allocator, Mem}
use mydrivers.Access.Users.{scull_open}
use mydrivers.Scull.Device.{ScullType, basic, cache, pages, Dev, Globals, to_int, can_divide}
use mydrivers.Scull.Write.{write_locked, scull_write}
use mydrivers.Scull.Ioctl.{Caller, tquantum, number, with_quantum, run, scull_ioctl}
use mydrivers.Scull.Controls.{scull_ioctl-number}
use mydrivers.Scull.Invariant.{AllocFits, IsValid, owned}
use mydrivers.Scull.Trims.{scull_trim_lem}

AllocFits-same :
    (k : Allocator) (g : Globals) (n quantum order : ℕ) (t : ScullType)
    → AllocFits k g quantum order t
    → AllocFits k (with_quantum g n) quantum order t
AllocFits-same k g n quantum order basic h = h
AllocFits-same k g n quantum order cache h = h
AllocFits-same k g n quantum order pages h = h

IsValid-same :
    (k : Allocator) (g : Globals) (n : ℕ) (d : Dev) → IsValid k g d → IsValid k (with_quantum g n) d
IsValid-same k g n d v = record {
  quantum_pos = v.quantum_pos;
  qset_pos = v.qset_pos;
  product_int = v.product_int;
  alloc_fits = AllocFits-same k g n d.quantum d.order d.type_ v.alloc_fits;
  nodes_fit = v.nodes_fit;
}

module _ (u : Uaccess) (k : Allocator) (c : Caller) (g : Globals) (d : Dev) (m : Mem) where
  -- A privileged caller whose address is accepted may set the default quantum to a number whose low
  -- 32 bits are zero, and is told that it succeeded; after the next open for writing only of a
  -- well-formed device, whose blocks are among those that the driver holds, every write to it
  -- that gets the semaphore, at any position and of any bytes, divides by zero.
  pub zero_quantum_crashes :
      (arg pos : ℕ) (src : List ℕ)
      → c.capable ≡ true
      → c.access_ok ≡ true
      → to_int arg ≡ 0
      → IsValid k g d
      → owned d.nodes ≤ m.live
      → let told = scull_ioctl c g (number tquantum) arg in
        let g' = told.globals in
        let o = scull_open g' 1 (record { count = 0; owner = 0; dev = d; mem = m }) in
        (told.result ≡ ok 0)
        × (o.result ≡ ok 0)
        × ((scull_write u k g' o.shared.dev pos src false o.shared.mem).result ≡ fault)
  unfolding run scull_open scull_write write_locked can_divide
  zero_quantum_crashes arg pos src cap allowed zero v owns =
      let rest = m.live - owned d.nodes in
      let trims =
        scull_trim_lem k (with_quantum g 0) d m rest (IsValid-same k g 0 d v)
          (omega (arith, owns)) in
      rw (scull_ioctl-number c g tquantum arg allowed, cap, zero, trims.0) (refl, refl, refl)
