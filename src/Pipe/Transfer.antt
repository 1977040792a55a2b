-- ===== src/Pipe/Transfer.antt =====
-- The copying parts of `scull_p_read` and `scull_p_write`, with the semaphore held; they release it.
use mydrivers.Prelude.{
  ℕ, ◌+◌, ◌-◌, Option, none, some, List, [], ltb, leb, ◌==◌, if◌then◌else◌, length, take, slice,
  splice,
}
use mydrivers.Kernel.{efault, Result, ok, err, fault, Uaccess}
use mydrivers.Pipe.State.{Pipe, spacefree, up}

-- What a handler returns, the bytes that it delivered, and the pipe after it.
pub record Step : Type 0 where
  pub result : Result ℕ
  pub delivered : List ℕ
  pub pipe : Pipe

abbrev pub cut : ℕ → ℕ → ℕ
cut limit count = if ltb limit count then limit else count

-- `count` of a read: up to the write pointer, or up to the end of the buffer
unfoldable pub read_count : Pipe → ℕ → ℕ
read_count p count = if ltb p.rp p.wp then cut (p.wp - p.rp) count else cut (p.end_ - p.rp) count

unfoldable pub advance_rp : Pipe → ℕ → Pipe
advance_rp p n = record p { rp = if p.rp + n == p.end_ then 0 else p.rp + n }

module _ (u : Uaccess) where
  abbrev pub read_from : Pipe → ℕ → Option (List ℕ) → Step
  read_from p n none = record { result = fault; delivered = []; pipe = p }
  read_from p n (some b) =
      let bytes = slice b p.rp n in
      if leb (p.rp + n) (length b)
      then if u.copy_to_user bytes == 0
        then record { result = ok n; delivered = bytes; pipe = up (advance_rp p n) }
        else record { result = err efault; delivered = []; pipe = up p }
      else record { result = fault; delivered = []; pipe = p }

  unfoldable pub read_body : Pipe → ℕ → Step
  read_body p count = read_from p (read_count p count) p.buffer

-- `count` of a write: up to the read pointer or the end of the buffer, and within the free space
unfoldable pub write_count : Pipe → ℕ → ℕ
write_count p count =
    cut (spacefree p) (if ltb p.wp p.rp then cut (p.rp - p.wp) count else cut (p.end_ - p.wp) count)

unfoldable pub advance_wp : Pipe → ℕ → List ℕ → Pipe
advance_wp p n b = record p { buffer = some b; wp = if p.wp + n == p.end_ then 0 else p.wp + n }

module _ (u : Uaccess) where
  abbrev pub write_to : Pipe → ℕ → List ℕ → Option (List ℕ) → Step
  write_to p n src none = record { result = fault; delivered = []; pipe = p }
  write_to p n src (some b) =
      let (missed, bytes) = u.copy_from_user (slice b p.wp n) (take n src) in
      if leb (p.wp + n) (length b)
      then if missed == 0
        then record {
          result = ok n;
          delivered = [];
          pipe = up (advance_wp p n (splice b p.wp bytes));
        }
        else record {
          result = err efault;
          delivered = [];
          pipe = up (record p { buffer = some (splice b p.wp bytes) });
        }
      else record { result = fault; delivered = []; pipe = p }

  unfoldable pub write_body : Pipe → List ℕ → Step
  write_body p src = write_to p (write_count p (length src)) src p.buffer
