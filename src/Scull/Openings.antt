-- ===== src/Scull/Openings.antt =====
-- The processes of Scull/Sharing, which now also open the device anew, some of them for writing only:
-- `scull_open` of scull/main.c then trims it. It does so without the semaphore; here an open is one
-- move, so it comes between the moves of the others and not within a read or a write.
use mydrivers.Prelude.{ℕ, ◌<◌, ◌≡◌, List, [], ◌∷◌}
use mydrivers.Prelude.Family.{update}
use mydrivers.Kernel.{Result, Allocator}
use mydrivers.Access.Users.{Shared, Opened, scull_open}
use mydrivers.Scull.Device.{Globals}
use mydrivers.Scull.File.{Event}
use mydrivers.Scull.Sharing.{idle, System, Move}

-- What a process is told: the event of a read or a write, or what an open with these flags returned.
pub data Told : Type 0 where
  call : Event → Told
  did_open : (f_flags : ℕ) → Result ℕ → Told

-- The device as `scull_open` finds it, which counts no users.
abbrev pub shared : System → Shared
shared s = record { count = 0; owner = 0; dev = s.dev; mem = s.mem }

-- The system after an open of process `i`, whose file stands at the start.
abbrev pub opened : System → ℕ → Shared → System
opened s i d = record s { dev = d.dev; mem = d.mem; pos = update s.pos i 0 }

module _ (k : Allocator) (g : Globals) where
  pub data OpenMove (s : System) (i : ℕ) : Told → System → Type 0 where
    shares : {e : Event} {s' : System} → Move k g s i e s' → OpenMove s i (call e) s'
    opens :
        (f_flags : ℕ) {o : Opened}
        → s.pc i ≡ idle
        → scull_open g f_flags (shared s) ≡ o
        → OpenMove s i (did_open f_flags o.result) (opened s i o.shared)

  -- A run of `n` processes, with what was told to whom, the last first.
  pub data OpenSteps (n : ℕ) (s : System) : List (ℕ × Told) → System → Type 0 where
    start : OpenSteps n s [] s
    later :
        {t t' : System} {told : List (ℕ × Told)} (i : ℕ) {e : Told}
        → i < n
        → OpenSteps n s told t
        → OpenMove t i e t'
        → OpenSteps n s ((i, e) ∷ told) t'
