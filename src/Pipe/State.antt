-- ===== src/Pipe/State.antt =====
-- `struct scull_pipe`. The pointers `end`, `rp` and `wp` are offsets from `buffer`.
use mydrivers.Prelude.{ℕ, ◌+◌, ◌-◌, ◌%◌, ◌/◌, Bool, Option, List, ◌==◌, if◌then◌else◌}

-- Without the wait queues and the `cdev`; `sem` is the count of the semaphore, and `async_queue`
-- whether that list has an entry.
pub record Pipe : Type 0 where
  pub buffer : Option (List ℕ)
  pub end_ : ℕ
  pub buffersize : ℕ
  pub rp : ℕ
  pub wp : ℕ
  pub nreaders : ℕ
  pub nwriters : ℕ
  pub async_queue : Bool
  pub sem : ℕ

-- Free bytes: one is always kept free, to tell a full pipe from an empty one.
unfoldable pub spacefree : Pipe → ℕ
spacefree p =
    if p.wp == p.rp then p.buffersize - 1 else (p.rp + p.buffersize - p.wp) % p.buffersize - 1

abbrev pub up : Pipe → Pipe
up p = record p { sem = p.sem + 1 }

-- `down` where the semaphore is free.
abbrev pub down : Pipe → Pipe
down p = record p { sem = p.sem - 1 }

abbrev pub o_nonblock : ℕ
o_nonblock = 2048

-- `f_flags == O_NONBLOCK`, as `scull_p_read` asks
abbrev pub is_nonblock : ℕ → Bool
is_nonblock f_flags = f_flags == o_nonblock

-- `f_flags & O_NONBLOCK`, as `scull_getwritespace` asks
abbrev pub has_nonblock : ℕ → Bool
has_nonblock f_flags = f_flags / o_nonblock % 2 == 1
