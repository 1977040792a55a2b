-- ===== src/Sleepy/Device.antt =====
-- The device of sleepy.c, used by any number of processes at once, and its init and exit function.
use mydrivers.Prelude.{ℕ, ◌≡◌, Bool, true, false, Option, none, some, List, [], ◌∷◌}
use mydrivers.Prelude.Family.{update}
use mydrivers.Kernel.{Errno, Result, ok, err}

-- Where a process stands: outside, in the `wait_event_interruptible` of `sleepy_read`, or behind it,
-- before `flag = 0`.
pub data Pc : Type 0 where
  idle waiting passed : Pc

-- `flag` says whether the C variable is not 0.
pub record System : Type 0 where
  pub flag : Bool
  pub pc : ℕ → Pc

-- `flag = 0`, and the return of `sleepy_read`
abbrev pub cleared : System → ℕ → System
cleared s i = record { flag = false; pc = update s.pc i idle }

-- `flag = 1; wake_up_interruptible(&wq)`: who waits looks at the flag again.
abbrev pub sleepy_write : System → System
sleepy_write s = record s { flag = true }

-- What a process is told.
pub data Event : Type 0 where
  silent : Event
  signalled : Event
  did_read : Result ℕ → Event
  did_write : Result ℕ → Event

-- `interrupted` is the way out of the wait that a signal opens.
pub data Move (s : System) (i : ℕ) : Event → System → Type 0 where
  begin_read : s.pc i ≡ idle → Move s i silent (record s { pc = update s.pc i waiting })
  sees_flag :
      s.pc i ≡ waiting → s.flag ≡ true → Move s i silent (record s { pc = update s.pc i passed })
  interrupted : s.pc i ≡ waiting → Move s i signalled (record s { pc = update s.pc i passed })
  end_read : s.pc i ≡ passed → Move s i (did_read (ok 0)) (cleared s i)
  write : (size : ℕ) → s.pc i ≡ idle → Move s i (did_write (ok size)) (sleepy_write s)

abbrev pub asleep : System
asleep = record { flag = false; pc = λ i. idle }

-- A run from the loaded module on, with what was told to whom, the last first.
pub data Run : List (ℕ × Event) → System → Type 0 where
  loaded : Run [] asleep
  then_move :
      {told : List (ℕ × Event)} {s : System} (i : ℕ) {e : Event} {s' : System}
      → Run told s
      → Move s i e s'
      → Run ((i, e) ∷ told) s'

-- What the module holds: the region and the cdev.
pub record Held : Type 0 where
  pub region : Bool
  pub cdev : Bool

abbrev pub none_held : Held
none_held = record { region = false; cdev = false }

-- By the error of the region, if it is refused, and whether `cdev_add` succeeds. A cdev that is not
-- added is only reported.
unfoldable sleepy_init : Option Errno → Bool → Result ℕ × Held
sleepy_init (some e) added = (err e, none_held)
sleepy_init none added = (ok 0, record { region = true; cdev = added })

unfoldable sleepy_exit : Held → Held
sleepy_exit h = record { region = false; cdev = false }
