-- ===== src/Access/Users.antt =====
-- Opening and releasing the devices of scull/access.c and the bare device of scull/main.c.
use mydrivers.Prelude.{
  ℕ, ◌+◌, ◌-◌, ◌%◌, ◌/◌, Bool, not, ◌&&◌, ◌||◌, Option, none, some, ltb, ◌==◌, if◌then◌else◌,
}
use mydrivers.Kernel.{ebusy, Result, ok, err, fault, Mem}
use mydrivers.Scull.Device.{Dev, Globals}
use mydrivers.Scull.Trim.{scull_trim}

-- `current_uid`, `current_euid` and `capable(CAP_DAC_OVERRIDE)` of the caller
pub record Task : Type 0 where
  pub uid : ℕ
  pub euid : ℕ
  pub override : Bool

-- The count and the owner of `scull_u` or of `scull_w`, and its device.
pub record Shared : Type 0 where
  pub count : ℕ
  pub owner : ℕ
  pub dev : Dev
  pub mem : Mem

-- What an open returns, and the device after it.
pub record Opened : Type 0 where
  pub result : Result ℕ
  pub shared : Shared

-- `(f_flags & O_ACCMODE) == O_WRONLY`
abbrev pub write_only : ℕ → Bool
write_only f_flags = f_flags % 4 == 1

abbrev pub has_nonblock : ℕ → Bool
has_nonblock f_flags = f_flags / 2048 % 2 == 1

abbrev pub emptied : Shared → Option (Dev × Mem) → Opened
emptied s none = record { result = fault; shared = s }
emptied s (some (d, m)) = record { result = ok 0; shared = record s { dev = d; mem = m } }

-- `scull_open` of scull/main.c. The device has no users to count.
unfoldable pub scull_open : Globals → ℕ → Shared → Opened
scull_open g f_flags s =
    if write_only f_flags
    then emptied s (scull_trim g s.dev s.mem)
    else record { result = ok 0; shared = s }

-- The same code stands in scull/access.c, scullc/main.c and scullp/main.c.
abbrev scull_s_open : Globals → ℕ → Shared → Opened
scull_s_open = scull_open

abbrev scullc_open : Globals → ℕ → Shared → Opened
scullc_open = scull_open

abbrev scullp_open : Globals → ℕ → Shared → Opened
scullp_open = scull_open

-- The test of `scull_u_open`
abbrev pub is_busy : Task → Shared → Bool
is_busy t s = ltb 0 s.count && not (s.owner == t.uid) && not (s.owner == t.euid) && not t.override

-- The first user becomes the owner, and every user is counted.
abbrev pub counted : Task → Shared → Shared
counted t s = record s { count = s.count + 1; owner = if s.count == 0 then t.uid else s.owner }

-- What both opens do once the caller is let in.
unfoldable pub enter : Globals → ℕ → Task → Shared → Opened
enter g f_flags t s = scull_open g f_flags (counted t s)

unfoldable pub scull_u_open : Globals → ℕ → Task → Shared → Opened
scull_u_open g f_flags t s =
    if is_busy t s then record { result = err ebusy; shared = s } else enter g f_flags t s

unfoldable pub scull_w_available : Task → Shared → Bool
scull_w_available t s = s.count == 0 || s.owner == t.uid || s.owner == t.euid || t.override

-- `scull_u_release` and `scull_w_release`, which differ in a wake-up only. The device is open, so its
-- count is positive; root's uid is 0.
unfoldable pub release : Shared → Shared
release s = record s { count = s.count - 1; owner = if s.count - 1 == 0 then 0 else s.owner }
