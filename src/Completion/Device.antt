-- ===== src/Completion/Device.antt =====
-- The device of completion.c, used by any number of processes at once, and its init and exit function.
use mydrivers.Prelude.{
  ℕ, ◌+◌, ◌^◌, ◌<◌, ◌≡◌, Bool, true, false, not, Option, none, some, List, [], ◌∷◌, if◌then◌else◌,
}
use mydrivers.Prelude.Family.{update}
use mydrivers.Kernel.{Errno, enomem, Result, ok, err}

-- The kernel's completion. `wait_for_completion` answers with the completion after it, or with
-- nothing while it blocks. `complete` lets one waiter pass, which is counted up to the largest
-- `unsigned`.
pub record Completions : Type 1 where
  pub Completion : Type 0
  pub done : Completion → ℕ
  pub declared : Completion
  pub complete : Completion → Completion
  pub wait_for_completion : Completion → Option Completion
  pub done-declared : done declared ≡ 0
  pub done-complete : (c : Completion) → done c + 1 < 2 ^ 32 → done (complete c) ≡ done c + 1
  pub blocks : (c : Completion) → done c ≡ 0 → wait_for_completion c ≡ none
  pub passes :
      (c : Completion)
      → 0 < done c
      → done c + 1 < 2 ^ 32
      → (c' : Completion) × (wait_for_completion c ≡ some c') × (done c' + 1 ≡ done c)

-- Where a process stands: outside, or in the `wait_for_completion` of `completion_read`.
pub data Pc : Type 0 where
  idle waiting : Pc

pub data Event : Type 0 where
  silent : Event
  did_read : Result ℕ → Event
  did_write : Result ℕ → Event

module _ (k : Completions) where
  pub record System : Type 0 where
    pub my_comp : k.Completion
    pub pc : ℕ → Pc

  -- The end of a read whose wait left the completion `c`.
  abbrev pub completion_read : System → ℕ → k.Completion → System
  completion_read s i c = record { my_comp = c; pc = update s.pc i idle }

  abbrev completion_write : System → System
  completion_write s = record s { my_comp = k.complete s.my_comp }

  pub data Move (s : System) (i : ℕ) : Event → System → Type 0 where
    begin_read : s.pc i ≡ idle → Move s i silent (record s { pc = update s.pc i waiting })
    end_read :
        (c : k.Completion)
        → s.pc i ≡ waiting
        → k.wait_for_completion s.my_comp ≡ some c
        → Move s i (did_read (ok 0)) (completion_read s i c)
    write : (size : ℕ) → s.pc i ≡ idle → Move s i (did_write (ok size)) (completion_write s)

  abbrev untouched : System
  untouched = record { my_comp = k.declared; pc = λ i. idle }

  -- A run from the loaded module on, with what was told to whom, the last first.
  pub data Run : List (ℕ × Event) → System → Type 0 where
    loaded : Run [] untouched
    then_move :
        {told : List (ℕ × Event)} {s : System} (i : ℕ) {e : Event} {s' : System}
        → Run told s
        → Move s i e s'
        → Run ((i, e) ∷ told) s'

-- What the module holds: the region, the device, and its cdev.
pub record Held : Type 0 where
  pub region : Bool
  pub device : Bool
  pub cdev : Bool

abbrev pub none_held : Held
none_held = record { region = false; device = false; cdev = false }

-- `completion_setup_cdev`: a cdev that is not added is only reported.
unfoldable pub completion_setup_cdev : (added : Bool) → Held → Held
completion_setup_cdev added h = record h { cdev = added }

-- By the error of the region, if it is refused, and whether `kzalloc` and `cdev_add` succeed.
unfoldable pub completion_init : Option Errno → (granted added : Bool) → Result ℕ × Held
unfolding completion_setup_cdev
completion_init (some e) granted added = (err e, none_held)
completion_init none granted added =
    if not granted
    then (err enomem, none_held)
    else (ok 0, completion_setup_cdev added (record none_held { region = true; device = true }))

-- `none` where it follows a pointer to no device.
unfoldable pub completion_exit : Held → Option Held
completion_exit h = if h.device then some none_held else none
