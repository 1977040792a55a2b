-- ===== src/Access/Sessions.antt =====
-- Any number of processes that open and release one device of scull/access.c, in any interleaving.
-- The spin lock makes the code between `spin_lock` and `spin_unlock` one move.
use mydrivers.Prelude.{ℕ, ◌<◌, ◌≡◌, true, false}
use mydrivers.Prelude.Family.{update}
use mydrivers.Kernel.{Errno, eagain, erestartsys, Result, ok, err, fault}
use mydrivers.Scull.Device.{Globals}
use mydrivers.Access.Users.{
  Task, Shared, Opened, has_nonblock, enter, scull_u_open, scull_w_available, release,
}

-- Where a process stands. One that crashed while it opened the device stays counted.
pub data Pc : Type 0 where
  outside : Pc
  entering : Task → ℕ → Pc  -- at the test of the loop in `scull_w_open`, with its flags
  waiting : Task → ℕ → Pc  -- in `wait_event_interruptible`
  inside : Task → Pc
  crashed : Task → Pc
  refused : Errno → Pc

abbrev pub landed : Task → Result ℕ → Pc
landed t (ok n) = inside t
landed t (err e) = refused e
landed t fault = crashed t

pub data Move (g : Globals) (s : Shared) : Pc → Shared → Pc → Type 0 where
  u_open :
      (t : Task) (f_flags : ℕ) {r : Opened}
      → scull_u_open g f_flags t s ≡ r
      → Move g s outside r.shared (landed t r.result)
  w_open : (t : Task) (f_flags : ℕ) → Move g s outside s (entering t f_flags)
  w_enter :
      {t : Task} {f_flags : ℕ} {r : Opened}
      → scull_w_available t s ≡ true
      → enter g f_flags t s ≡ r
      → Move g s (entering t f_flags) r.shared (landed t r.result)
  w_again :
      {t : Task} {f_flags : ℕ}
      → scull_w_available t s ≡ false
      → has_nonblock f_flags ≡ true
      → Move g s (entering t f_flags) s (refused eagain)
  w_wait :
      {t : Task} {f_flags : ℕ}
      → scull_w_available t s ≡ false
      → has_nonblock f_flags ≡ false
      → Move g s (entering t f_flags) s (waiting t f_flags)
  w_wake :
      {t : Task} {f_flags : ℕ}
      → scull_w_available t s ≡ true
      → Move g s (waiting t f_flags) s (entering t f_flags)
  w_signal : {t : Task} {f_flags : ℕ} → Move g s (waiting t f_flags) s (refused erestartsys)
  leave : {t : Task} → Move g s (inside t) (release s) outside
  give_up : {e : Errno} → Move g s (refused e) s outside

pub record System : Type 0 where
  pub shared : Shared
  pub pc : ℕ → Pc

-- A move of one of `n` processes.
pub data Turn (g : Globals) (n : ℕ) (s : System) : System → Type 0 where
  turn :
      (i : ℕ) {s' : Shared} {c : Pc}
      → i < n
      → Move g s.shared (s.pc i) s' c
      → Turn g n s (record { shared = s'; pc = update s.pc i c })

pub data Reach (g : Globals) (n : ℕ) (s : System) : System → Type 0 where
  start : Reach g n s s
  later : {t t' : System} → Reach g n s t → Turn g n t t' → Reach g n s t'
