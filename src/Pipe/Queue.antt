-- ===== src/Pipe/Queue.antt =====
-- What the users of a pipe may rely on: one queue of at most `cap` bytes, and for each of them the
-- call that it waits for. It says nothing of pointers, wrapping, the semaphore or the sleeping.
use mydrivers.Prelude.{ℕ, ◌≤◌, ◌<◌, ◌≡◌, ◌≢◌, true, List, [], ◌∷◌, ◌++◌, length, take}
use mydrivers.Prelude.Family.{update}
use mydrivers.Kernel.{erestartsys, eagain, efault, Result, ok, err}
use mydrivers.Pipe.State.{has_nonblock}
use mydrivers.Pipe.System.{Reading, Writing}

pub data Ask : Type 0 where
  nothing : Ask
  to_read : Reading → Ask
  to_write : Writing → Ask

pub record Queue : Type 0 where
  pub bytes : List ℕ
  pub asks : ℕ → Ask

-- What a user sees: nothing, the begin of a call, or its end with the result and, for a read, the
-- bytes that it delivered.
pub data Event : Type 0 where
  silent : Event
  calls : Ask → Event
  read_ends : Result ℕ → List ℕ → Event
  write_ends : Result ℕ → Event

-- What one user's call may do to the bytes and to what the user asks for. There is no rule for a
-- call that crashes.
pub data Allowed (cap : ℕ) (q : List ℕ) : Ask → List ℕ → Ask → Event → Type 0 where
  internal : {a : Ask} → Allowed cap q a q a silent
  begins : (a : Ask) → Allowed cap q nothing q a (calls a)
  reads :
      {r : Reading} {q' : List ℕ} (n : ℕ) (out : List ℕ)
      → 0 < length q
      → n ≤ r.count
      → (0 < r.count → 0 < n)
      → length out ≡ n
      → q ≡ out ++ q'
      → Allowed cap q (to_read r) q' nothing (read_ends (ok n) out)
  read_empty :
      {r : Reading}
      → length q ≡ 0
      → has_nonblock r.f_flags ≡ true
      → Allowed cap q (to_read r) q nothing (read_ends (err eagain) [])
  read_unread :
      {r : Reading} → 0 < length q → Allowed cap q (to_read r) q nothing (read_ends (err efault) [])
  read_interrupted :
      {r : Reading} → Allowed cap q (to_read r) q nothing (read_ends (err erestartsys) [])
  writes :
      {w : Writing} (n : ℕ)
      → length q < cap
      → n ≤ length w.src
      → (w.src ≢ [] → 0 < n)
      → length (q ++ take n w.src) ≤ cap
      → Allowed cap q (to_write w) (q ++ take n w.src) nothing (write_ends (ok n))
  write_full :
      {w : Writing}
      → length q ≡ cap
      → has_nonblock w.f_flags ≡ true
      → Allowed cap q (to_write w) q nothing (write_ends (err eagain))
  write_unwritten :
      {w : Writing}
      → length q < cap
      → Allowed cap q (to_write w) q nothing (write_ends (err efault))
  write_interrupted :
      {w : Writing} → Allowed cap q (to_write w) q nothing (write_ends (err erestartsys))

-- A run of `n` users, with what was told to whom, the last first.
pub data Run (cap n : ℕ) (q : Queue) : List (ℕ × Event) → Queue → Type 0 where
  start : Run cap n q [] q
  later :
      {q' q'' : Queue} {told : List (ℕ × Event)} (i : ℕ) {a : Ask} {e : Event}
      → i < n
      → Run cap n q told q'
      → Allowed cap q'.bytes (q'.asks i) q''.bytes a e
      → ((j : ℕ) → q''.asks j ≡ update q'.asks i a j)
      → Run cap n q ((i, e) ∷ told) q''
