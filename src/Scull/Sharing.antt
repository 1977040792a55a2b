-- ===== src/Scull/Sharing.antt =====
-- Any number of processes that read and write one memory device, in any interleaving. While they
-- do nobody opens it for writing only, so its geometry stays, and a write is one move; a read
-- computes `left_quatity` before it asks for the semaphore, and others may write in between.
use mydrivers.Prelude.{ℕ, ◌<◌, ◌≡◌, Bool, List, [], ◌∷◌}
use mydrivers.Prelude.Family.{update}
use mydrivers.Kernel.{erestartsys, err, Uaccess, Allocator, Mem}
use mydrivers.Scull.Device.{Dev, Globals}
use mydrivers.Scull.Write.{Outcome, scull_write}
use mydrivers.Scull.Read.{left_at, read_locked}
use mydrivers.Scull.File.{Event, silent, did_read, did_write}

-- Where a process stands: outside, or in a read with its count and its `left_quatity`, before
-- `down_interruptible`.
pub data Pc : Type 0 where
  idle : Pc
  reading : (count left : ℕ) → Pc

pub record System : Type 0 where
  pub dev : Dev
  pub mem : Mem
  pub pos : ℕ → ℕ
  pub pc : ℕ → Pc

-- The system after a call of process `i` ended.
abbrev pub ended : System → ℕ → Outcome → System
ended s i o = record {
  dev = o.dev;
  mem = o.mem;
  pos = update s.pos i o.pos;
  pc = update s.pc i idle;
}

-- Each copy to or from a process may go its own way: what a read or a write finds of user memory is
-- its own, so a call may fail to copy what another call copied.
module _ (k : Allocator) (g : Globals) where
  pub data Move (s : System) (i : ℕ) : Event → System → Type 0 where
    begin_read :
        (count : ℕ)
        → s.pc i ≡ idle
        → Move s i silent
            (record s { pc = update s.pc i (reading count (left_at s.dev.size (s.pos i))) })
    end_read :
        (u : Uaccess) {count left : ℕ} {o : Outcome}
        → s.pc i ≡ reading count left
        → read_locked u k s.dev (s.pos i) count left s.mem ≡ o
        → Move s i (did_read count o.result o.delivered) (ended s i o)
    stop_read :
        {count left : ℕ}
        → s.pc i ≡ reading count left
        → Move s i (did_read count (err erestartsys) []) (record s { pc = update s.pc i idle })
    write :
        (u : Uaccess) (src : List ℕ) (interrupted : Bool) {o : Outcome}
        → s.pc i ≡ idle
        → scull_write u k g s.dev (s.pos i) src interrupted s.mem ≡ o
        → Move s i (did_write src o.result) (ended s i o)

  -- A run of `n` processes, with what was told to whom, the last first.
  pub data Steps (n : ℕ) (s : System) : List (ℕ × Event) → System → Type 0 where
    start : Steps n s [] s
    later :
        {t t' : System} {told : List (ℕ × Event)} (i : ℕ) {e : Event}
        → i < n
        → Steps n s told t
        → Move t i e t'
        → Steps n s ((i, e) ∷ told) t'
