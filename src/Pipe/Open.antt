-- ===== src/Pipe/Open.antt =====
-- `scull_p_open`, `scull_p_release` and `scull_p_poll`.
use Prim.Native.Nat.{bit_or}
use mydrivers.Prelude.{
  ℕ, ◌+◌, ◌-◌, ◌/◌, ◌%◌, Bool, not, Option, none, some, List, ◌==◌, if◌then◌else◌,
}
use mydrivers.Kernel.{erestartsys, enomem, Result, ok, err, Allocator}
use mydrivers.Pipe.State.{Pipe, spacefree, up, down}

-- `SCULL_P_BUFFER`
abbrev pub scull_p_buffer : ℕ
scull_p_buffer = 1000

-- `FMODE_READ` is 1 and `FMODE_WRITE` is 2.
abbrev pub reads : ℕ → Bool
reads f_mode = f_mode % 2 == 1

abbrev pub writes : ℕ → Bool
writes f_mode = f_mode / 2 % 2 == 1

abbrev bump : Bool → ℕ → ℕ
bump b n = if b then n + 1 else n

-- The counts are positive where they are counted down: the file was opened in this mode.
abbrev unbump : Bool → ℕ → ℕ
unbump b n = if b then n - 1 else n

abbrev pub count_in : Pipe → ℕ → Pipe
count_in p f_mode = record p {
  nreaders = bump (reads f_mode) p.nreaders;
  nwriters = bump (writes f_mode) p.nwriters;
}

abbrev pub with_buffer : Pipe → List ℕ → Pipe
with_buffer p b = record p { buffer = some b; end_ = scull_p_buffer; rp = 0; wp = 0 }

-- `if (!dev->buffer)`, with the answer of `kmalloc`
abbrev pub ensure_buffer : Option (List ℕ) → Option (List ℕ) → Pipe → Option Pipe
ensure_buffer (some b) answer p = some p
ensure_buffer none (some b) p = some (with_buffer p b)
ensure_buffer none none p = none

abbrev pub counted : ℕ → Pipe → Option Pipe → Result ℕ × Pipe
counted f_mode p none = (err enomem, p)
counted f_mode p (some q) = (ok 0, count_in q f_mode)

-- The semaphore is taken and given back in between, so its count is unchanged.
-- `nonseekable_open` returns 0.
unfoldable pub scull_p_open : Allocator → ℕ → Bool → ℕ → Pipe → Result ℕ × Pipe
scull_p_open k nth interrupted f_mode p =
    if interrupted
    then (err erestartsys, p)
    else counted f_mode p (ensure_buffer p.buffer (k.kmalloc nth scull_p_buffer) p)

abbrev pub count_out : Pipe → ℕ → Pipe
count_out p f_mode = record p {
  nreaders = unbump (reads f_mode) p.nreaders;
  nwriters = unbump (writes f_mode) p.nwriters;
}

abbrev pub free_unused : Pipe → Pipe
free_unused p = if p.nreaders + p.nwriters == 0 then record p { buffer = none } else p

-- `left_queue` is whether `fasync_helper` leaves an entry in the queue.
unfoldable pub scull_p_release : Bool → Bool → ℕ → Pipe → Result ℕ × Pipe
scull_p_release left_queue interrupted f_mode p =
    let p' = record p { async_queue = left_queue } in
    if interrupted then (err erestartsys, p') else (ok 0, free_unused (count_out p' f_mode))

-- `POLLOUT | POLLWRNORM` and `POLLIN | POLLRDNORM`
abbrev poll_out : ℕ
poll_out = 0x104

abbrev poll_in : ℕ
poll_in = 0x041

abbrev poll_mask : Pipe → ℕ
poll_mask p =
    let out = if spacefree p == 0 then 0 else bit_or 0 poll_out in
    if p.rp == p.wp then out else bit_or out poll_in

-- The test is the code's: it returns at once where `down_interruptible` got the semaphore, and goes
-- on where it was interrupted.
unfoldable pub scull_p_poll : Bool → Pipe → ℕ × Pipe
scull_p_poll interrupted p = if not interrupted then (0, down p) else (poll_mask p, up p)
