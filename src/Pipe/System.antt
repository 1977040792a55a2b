-- ===== src/Pipe/System.antt =====
-- Any number of processes that use one open pipe, in any interleaving: they read, write, poll, open it
-- anew, release all but its last file, and ask for signals. A process moves from one point of
-- `scull_p_read` or `scull_p_write` to the next where the code takes or releases the semaphore,
-- sleeps, wakes the others, or returns. Each copy to or from a process may go its own way.
use mydrivers.Prelude.{ℕ, ◌+◌, ◌<◌, ◌≡◌, ◌≢◌, Bool, true, false, List, [], ◌++◌, take}
use mydrivers.Prelude.Family.{update}
use mydrivers.Kernel.{erestartsys, eagain, Result, ok, err, fault, Uaccess, Allocator}
use mydrivers.Pipe.State.{Pipe, spacefree, up, down, is_nonblock, has_nonblock}
use mydrivers.Pipe.Transfer.{Step, read_body, write_body}
use mydrivers.Pipe.Open.{scull_p_open, count_out, scull_p_release, scull_p_poll}
use mydrivers.Pipe.Notify.{scull_p_fasync}

-- What a process asks for: the flags of its file, with the count or the bytes.
pub record Reading : Type 0 where
  pub f_flags : ℕ
  pub count : ℕ

pub record Writing : Type 0 where
  pub f_flags : ℕ
  pub src : List ℕ

-- Where a process stands.
pub data Pc : Type 0 where
  idle : Pc
  r_enter : Reading → Pc  -- before `down_interruptible`, at the start and at the end of the loop
  r_loop : Reading → Pc  -- semaphore held, at the test `rp == wp`
  r_sleep : Reading → Pc  -- in `wait_event_interruptible`, at its test
  r_asleep : Reading → Pc  -- in the queue `inq`, until it is woken
  r_body : Reading → Pc  -- semaphore held, behind the loop
  r_done : ℕ → Pc  -- semaphore given back, before `wake_up_interruptible(&dev->outq)`
  w_enter : Writing → Pc  -- before `down_interruptible`, at the start and at the end of the loop
  w_loop : Writing → Pc  -- semaphore held, at the test of `scull_getwritespace`
  w_sleep : Writing → Pc  -- behind `prepare_to_wait`, at the test before `schedule`
  w_asleep : Writing → Pc  -- in the queue `outq`, until it is woken
  w_body : Writing → Pc  -- semaphore held, behind the loop
  w_done : ℕ → Pc  -- semaphore given back, before `wake_up_interruptible(&dev->inq)`
  p_enter : Pc  -- in `scull_p_poll`, before `down_interruptible`
  returned : Result ℕ → Pc

abbrev pub holds : Pc → ℕ
holds (r_loop _) = 1
holds (r_body _) = 1
holds (w_loop _) = 1
holds (w_body _) = 1
holds _ = 0

-- The pipe, the points of the processes, and the bytes accepted from writers and delivered to
-- readers since the pipe was opened.
pub record System : Type 0 where
  pub pipe : Pipe
  pub pc : ℕ → Pc
  pub accepted : List ℕ
  pub delivered : List ℕ

abbrev pub accept : Result ℕ → List ℕ → List ℕ
accept (ok n) src = take n src
accept (err e) src = []
accept fault src = []

-- Behind the copying part: a number is returned after the wake-up, an error at once.
abbrev pub after_read : Result ℕ → Pc
after_read (ok n) = r_done n
after_read (err e) = returned (err e)
after_read fault = returned fault

abbrev pub after_write : Result ℕ → Pc
after_write (ok n) = w_done n
after_write (err e) = returned (err e)
after_write fault = returned fault

-- `wake_up_interruptible`: a woken reader looks at its condition again, a woken writer goes on.
abbrev pub wake_reader : Pc → Pc
wake_reader (r_asleep r) = r_sleep r
wake_reader c = c

abbrev pub wake_writer : Pc → Pc
wake_writer (w_asleep w) = w_enter w
wake_writer c = c

-- What the move of a process that stands at the first point does to one at the second: who is done
-- wakes the other side.
abbrev pub wakes : Pc → Pc → Pc
wakes (r_done n) c = wake_writer c
wakes (w_done n) c = wake_reader c
wakes _ c = c

-- Whether processes poll, and whether a signal may interrupt a poll.
pub record Polling : Type 0 where
  pub calls : Bool
  pub interrupted : Bool

abbrev pub nobody_polls : Polling
nobody_polls = record { calls = false; interrupted = false }

abbrev pub undisturbed_polls : Polling
undisturbed_polls = record { calls = true; interrupted = false }

-- One move of one process: the pipe and the point before and after it, and the bytes that it
-- accepted and delivered. The release of the last file, which frees the buffer, is not among them.
pub data Move (h : Polling) (p : Pipe) : Pc → Pipe → Pc → List ℕ → List ℕ → Type 0 where
  call_read : (r : Reading) → Move h p idle p (r_enter r) [] []
  call_write : (w : Writing) → Move h p idle p (w_enter w) [] []
  r_down : {r : Reading} → 0 < p.sem → Move h p (r_enter r) (down p) (r_loop r) [] []
  r_interrupted : {r : Reading} → Move h p (r_enter r) p (returned (err erestartsys)) [] []
  r_ready : {r : Reading} → p.rp ≢ p.wp → Move h p (r_loop r) p (r_body r) [] []
  r_again :
      {r : Reading}
      → p.rp ≡ p.wp
      → is_nonblock r.f_flags ≡ true
      → Move h p (r_loop r) (up p) (returned (err eagain)) [] []
  r_wait :
      {r : Reading}
      → p.rp ≡ p.wp
      → is_nonblock r.f_flags ≡ false
      → Move h p (r_loop r) (up p) (r_sleep r) [] []
  r_wake : {r : Reading} → p.rp ≢ p.wp → Move h p (r_sleep r) p (r_enter r) [] []
  r_schedule : {r : Reading} → p.rp ≡ p.wp → Move h p (r_sleep r) p (r_asleep r) [] []
  r_signal : {r : Reading} → p.rp ≡ p.wp → Move h p (r_sleep r) p (returned (err erestartsys)) [] []
  r_roused : {r : Reading} → Move h p (r_asleep r) p (r_sleep r) [] []  -- by a signal
  r_copy :
      {r : Reading} (u : Uaccess) {s : Step}
      → read_body u p r.count ≡ s
      → Move h p (r_body r) s.pipe (after_read s.result) [] s.delivered
  r_wakes : {n : ℕ} → Move h p (r_done n) p (returned (ok n)) [] []
  w_down : {w : Writing} → 0 < p.sem → Move h p (w_enter w) (down p) (w_loop w) [] []
  w_interrupted : {w : Writing} → Move h p (w_enter w) p (returned (err erestartsys)) [] []
  w_ready : {w : Writing} → spacefree p ≢ 0 → Move h p (w_loop w) p (w_body w) [] []
  w_again :
      {w : Writing}
      → spacefree p ≡ 0
      → has_nonblock w.f_flags ≡ true
      → Move h p (w_loop w) (up p) (returned (err eagain)) [] []
  w_wait :
      {w : Writing}
      → spacefree p ≡ 0
      → has_nonblock w.f_flags ≡ false
      → Move h p (w_loop w) (up p) (w_sleep w) [] []
  -- There is room, or it was woken before `schedule`
  w_wake : {w : Writing} → Move h p (w_sleep w) p (w_enter w) [] []
  w_schedule : {w : Writing} → spacefree p ≡ 0 → Move h p (w_sleep w) p (w_asleep w) [] []
  w_signal : {w : Writing} → Move h p (w_sleep w) p (returned (err erestartsys)) [] []
  w_roused : {w : Writing} → Move h p (w_asleep w) p (returned (err erestartsys)) [] []  -- by a signal
  w_copy :
      {w : Writing} (u : Uaccess) {s : Step}
      → write_body u p w.src ≡ s
      → Move h p (w_body w) s.pipe (after_write s.result) (accept s.result w.src) []
  w_wakes : {n : ℕ} → Move h p (w_done n) p (returned (ok n)) [] []
  call_poll : h.calls ≡ true → Move h p idle p p_enter [] []
  poll_got :
      0 < p.sem
      → Move h p p_enter (scull_p_poll false p).1 (returned (ok (scull_p_poll false p).0)) [] []
  poll_interrupted :
      h.interrupted ≡ true
      → Move h p p_enter (scull_p_poll true p).1 (returned (ok (scull_p_poll true p).0)) [] []
  opens :
      (k : Allocator) (nth : ℕ) (interrupted : Bool) (f_mode : ℕ)
      → (interrupted ≡ false → 0 < p.sem)
      → Move h p idle
          (scull_p_open k nth interrupted f_mode p).1
          (returned (scull_p_open k nth interrupted f_mode p).0)
          []
          []
  releases :
      (left interrupted : Bool) (f_mode : ℕ)
      → (interrupted ≡ false → 0 < p.sem)
      → 0 < (count_out p f_mode).nreaders + (count_out p f_mode).nwriters
      → Move h p idle
          (scull_p_release left interrupted f_mode p).1
          (returned (scull_p_release left interrupted f_mode p).0)
          []
          []
  asks_signals :
      (fasync_helper : Bool → Bool → Result ℕ × Bool) (mode : Bool)
      → Move h p idle
          (scull_p_fasync fasync_helper mode p).1
          (returned (scull_p_fasync fasync_helper mode p).0)
          []
          []
  next_call : {r : Result ℕ} → Move h p (returned r) p idle [] []

-- A move of one of `n` processes.
pub data Turn (h : Polling) (n : ℕ) (s : System) : System → Type 0 where
  turn :
      (i : ℕ) {p : Pipe} {c : Pc} {took gave : List ℕ}
      → i < n
      → Move h s.pipe (s.pc i) p c took gave
      → Turn h n s (record {
        pipe = p;
        pc = update (λ j. wakes (s.pc i) (s.pc j)) i c;
        accepted = s.accepted ++ took;
        delivered = s.delivered ++ gave;
      })

pub data Reach (h : Polling) (n : ℕ) (s : System) : System → Type 0 where
  start : Reach h n s s
  later : {t t' : System} → Reach h n s t → Turn h n t t' → Reach h n s t'
