-- ===== src/Scull/Ioctl.antt =====
-- `scull_ioctl`, and the commands of common_scull/scull.h.
use mydrivers.Prelude.{
  ℕ, ◌+◌, ◌*◌, ◌/◌, ◌%◌, ◌^◌, Bool, not, Option, none, some, ltb, ◌==◌, if◌then◌else◌,
}
use mydrivers.Kernel.{enotty, efault, eperm, Result, ok, err}
use mydrivers.Scull.Device.{Globals, to_int}

pub data Cmd : Type 0 where
  reset squantum sqset tquantum tqset gquantum gqset qquantum qqset : Cmd
  xquantum xqset hquantum hqset : Cmd

-- What the caller's arguments are to the kernel: `capable(CAP_SYS_ADMIN)`, `access_ok` of the
-- address, whether `__get_user` fails and what it leaves in the variable, and whether `__put_user`
-- fails.
pub record Caller : Type 0 where
  pub capable : Bool
  pub access_ok : Bool
  pub get_fails : Bool
  pub got : ℕ
  pub put_fails : Bool

-- What the call returns, the globals after it, and the `int` that it put at the caller's address.
-- A returned `int` is its bit pattern.
pub record Reply : Type 0 where
  pub result : Result ℕ
  pub globals : Globals
  pub put : Option ℕ

-- `_IO`, and the others with an `int`: the direction stands above bit 30, the size above bit 16,
-- the type above bit 8.
abbrev pub scull_ioc_magic : ℕ
scull_ioc_magic = 107

abbrev pub scull_ioc_maxnr : ℕ
scull_ioc_maxnr = 14

abbrev pub io : ℕ → ℕ
io nr = scull_ioc_magic * 2 ^ 8 + nr

abbrev iow : ℕ → ℕ
iow nr = 1 * 2 ^ 30 + 4 * 2 ^ 16 + io nr

abbrev ior : ℕ → ℕ
ior nr = 2 * 2 ^ 30 + 4 * 2 ^ 16 + io nr

abbrev iowr : ℕ → ℕ
iowr nr = 3 * 2 ^ 30 + 4 * 2 ^ 16 + io nr

abbrev pub number : Cmd → ℕ
number reset = io 0
number squantum = iow 1
number sqset = iow 2
number tquantum = io 3
number tqset = io 4
number gquantum = ior 5
number gqset = ior 6
number qquantum = io 7
number qqset = io 8
number xquantum = iowr 9
number xqset = iowr 10
number hquantum = io 11
number hqset = io 12

-- The labels of the `switch`
unfoldable pub decode : ℕ → Option Cmd
decode cmd =
    if cmd == number reset
    then some reset
    else if cmd == number squantum
    then some squantum
    else if cmd == number tquantum
    then some tquantum
    else if cmd == number gquantum
    then some gquantum
    else if cmd == number qquantum
    then some qquantum
    else if cmd == number xquantum
    then some xquantum
    else if cmd == number hquantum
    then some hquantum
    else if cmd == number sqset
    then some sqset
    else if cmd == number tqset
    then some tqset
    else if cmd == number gqset
    then some gqset
    else if cmd == number qqset
    then some qqset
    else if cmd == number xqset
    then some xqset
    else if cmd == number hqset
    then some hqset
    else none

abbrev pub with_quantum : Globals → ℕ → Globals
with_quantum g n = record g { quantum = n }

abbrev pub with_qset : Globals → ℕ → Globals
with_qset g n = record g { qset_n = n }

module _ (c : Caller) where
  -- `if (!capable(CAP_SYS_ADMIN)) return -EPERM;`
  abbrev pub privileged : Globals → Reply → Reply
  privileged g r = if c.capable then r else record { result = err eperm; globals = g; put = none }

  -- `retval = __get_user(...)`, with the globals that it leaves
  abbrev get_user : Globals → Reply
  get_user g' = record {
    result = if c.get_fails then err efault else ok 0;
    globals = g';
    put = none;
  }

  -- `retval = __put_user(value, ...)`
  abbrev put_user : Globals → ℕ → Reply
  put_user g value =
      if c.put_fails
      then record { result = err efault; globals = g; put = none }
      else record { result = ok 0; globals = g; put = some value }

  -- `__get_user`, and `__put_user` of `value` if that was done
  abbrev pub exchange : Globals → ℕ → Reply
  exchange g' value = if c.get_fails then get_user g' else put_user g' value

  abbrev pub returns : Globals → ℕ → Reply
  returns g n = record { result = ok n; globals = g; put = none }

  unfoldable pub run : Cmd → Globals → ℕ → Reply
  run reset g arg = returns (record g { quantum = 1024; qset_n = 1000 }) 0
  run squantum g arg = privileged g (get_user (with_quantum g c.got))
  run tquantum g arg = privileged g (returns (with_quantum g (to_int arg)) 0)
  run gquantum g arg = put_user g g.quantum
  run qquantum g arg = returns g g.quantum
  run xquantum g arg = privileged g (exchange (with_quantum g c.got) g.quantum)
  run hquantum g arg = privileged g (returns (with_quantum g (to_int arg)) g.quantum)
  run sqset g arg = privileged g (get_user (with_qset g c.got))
  run tqset g arg = privileged g (returns (with_qset g (to_int arg)) 0)
  run gqset g arg = put_user g g.qset_n
  run qqset g arg = returns g g.qset_n
  run xqset g arg = privileged g (exchange (with_qset g c.got) (with_qset g c.got).qset_n)
  run hqset g arg = privileged g (returns (with_qset g (to_int arg)) g.qset_n)

  abbrev pub switch : Option Cmd → Globals → ℕ → Reply
  switch none g arg = record { result = err enotty; globals = g; put = none }
  switch (some cmd) g arg = run cmd g arg

  unfoldable pub scull_ioctl : Globals → ℕ → ℕ → Reply
  scull_ioctl g cmd arg =
      if not (cmd / 2 ^ 8 % 2 ^ 8 == scull_ioc_magic)
      then record { result = err enotty; globals = g; put = none }
      else if ltb scull_ioc_maxnr (cmd % 2 ^ 8)
      then record { result = err enotty; globals = g; put = none }
      else if not c.access_ok
      then record { result = err efault; globals = g; put = none }
      else switch (decode cmd) g arg
