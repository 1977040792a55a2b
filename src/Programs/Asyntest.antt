-- ===== src/Programs/Asyntest.antt =====
-- misc_progs/asyntest.c: a program that reads the pipe when SIGIO told it to. The pipe is the bounded
-- queue that its users see (Pipe/Queue), and its writers may move at any time.
use mydrivers.Prelude.{ℕ, ◌+◌, ◌-◌, ◌<◌, ◌≡◌, ◌≢◌, Bool, true, false, List, [], ◌++◌, take}
use mydrivers.Kernel.{Result, ok}
use mydrivers.Pipe.System.{Reading, Writing}
use mydrivers.Pipe.Queue.{nothing, to_read, to_write, read_ends, write_ends, Allowed}

-- Where `main` stands in its loop.
pub data Pc : Type 0 where
  sleeping : Pc  -- in `sleep(20)`
  testing : Pc  -- at `if (!gotdata)`
  reading : Pc  -- in `read`
  showing : List ℕ → Pc  -- in `write`, with the bytes that the read gave
  clearing : Pc  -- at `gotdata = 0`

-- `read(fd, buffer, 4096)` of a file opened by O_RDWR, with FASYNC set
abbrev pub request : Reading
request = record { f_flags = 2 + 8192; count = 4096 }

-- The program, its signals, and the pipe. `owed` counts the writers behind `up` that have not come
-- to `kill_fasync` yet; a SIGIO that is pending is not counted twice. `accepted`, `taken` and
-- `shown` are all bytes that writers put in, that the program read, and that it wrote; `handled`
-- and `rounds` count the runs of `input_handler` and of the loop's end.
pub record System : Type 0 where
  pub pc : Pc
  pub gotdata : ℕ
  pub pending : Bool
  pub owed : ℕ
  pub queue : List ℕ
  pub accepted : List ℕ
  pub taken : List ℕ
  pub shown : List ℕ
  pub handled : ℕ
  pub rounds : ℕ

-- A move of the program or of the kernel on its behalf.
pub data Move (cap : ℕ) (s : System) : System → Type 0 where
  notify : 0 < s.owed → Move cap s (record s { owed = s.owed - 1; pending = true })
  input_handler :
      s.pending ≡ true
      → Move cap s (record s { pending = false; gotdata = s.gotdata + 1; handled = s.handled + 1 })
  wakes : s.pc ≡ sleeping → Move cap s (record s { pc = testing })
  sleeps : s.pc ≡ testing → s.gotdata ≡ 0 → Move cap s (record s { pc = sleeping })
  goes_on : s.pc ≡ testing → s.gotdata ≢ 0 → Move cap s (record s { pc = reading })
  reads :
      {q : List ℕ} {r : Result ℕ} {out : List ℕ}
      → s.pc ≡ reading
      → Allowed cap s.queue (to_read request) q nothing (read_ends r out)
      → Move cap s (record s { pc = showing out; queue = q; taken = s.taken ++ out })
  shows :
      {out : List ℕ} (k : ℕ)
      → s.pc ≡ showing out
      → Move cap s (record s { pc = clearing; shown = s.shown ++ take k out })
  clears :
      s.pc ≡ clearing → Move cap s (record s { pc = sleeping; gotdata = 0; rounds = s.rounds + 1 })

-- A move of a writer of the pipe, up to `up`.
pub data Arrival (cap : ℕ) (s : System) : System → Type 0 where
  arrives :
      {w : Writing} {q : List ℕ} {n : ℕ}
      → Allowed cap s.queue (to_write w) q nothing (write_ends (ok n))
      → Arrival cap s
          (record s { queue = q; accepted = s.accepted ++ take n w.src; owed = s.owed + 1 })

-- Runs of both, and of the program alone.
pub data Reach (cap : ℕ) (s : System) : System → Type 0 where
  start : Reach cap s s
  moves : {t t' : System} → Reach cap s t → Move cap t t' → Reach cap s t'
  receives : {t t' : System} → Reach cap s t → Arrival cap t t' → Reach cap s t'

pub data Quiet (cap : ℕ) (s : System) : System → Type 0 where
  still : Quiet cap s s
  next : {t t' : System} → Quiet cap s t → Move cap t t' → Quiet cap s t'

-- Behind the setup, with nothing in the pipe.
abbrev pub begun : System
begun = record {
  pc = sleeping;
  gotdata = 0;
  pending = false;
  owed = 0;
  queue = [];
  accepted = [];
  taken = [];
  shown = [];
  handled = 0;
  rounds = 0;
}
