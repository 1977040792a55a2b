-- ===== src/Pipe/Users.antt =====
-- The buffer of a pipe exists as long as somebody has the pipe open.
use mydrivers.Prelude.{
  ℕ, ◌+◌, ◌<◌, ◌≡◌, refl, Bool, true, false, Option, none, some, List, arith, inl, inr, length,
  ◌==◌, ◌||◌, Bool-cases, ==_iff,
}
use mydrivers.Kernel.{ok, Allocator}
use mydrivers.Pipe.State.{Pipe}
use mydrivers.Pipe.Contents.{IsValid}
use mydrivers.Pipe.Open.{
  scull_p_buffer, reads, writes, count_in, with_buffer, ensure_buffer, counted, scull_p_open,
  count_out, free_unused, scull_p_release,
}

-- Closed, with no buffer and no users; or open, with sound pointers and some.
pub data IsHeld (p : Pipe) : Type 0 where
  closed : p.buffer ≡ none → p.nreaders + p.nwriters ≡ 0 → p.buffersize ≡ scull_p_buffer → IsHeld p
  opened :
      (b : List ℕ)
      → IsValid p b
      → 0 < p.nreaders + p.nwriters
      → p.buffersize ≡ scull_p_buffer
      → IsHeld p

-- The file is open for reading or for writing.
abbrev HasMode : ℕ → Type 0
HasMode f_mode = (reads f_mode || writes f_mode) ≡ true

module _ (k : Allocator) (nth f_mode : ℕ) (mode : HasMode f_mode) where
  opened_some :
      (p : Pipe) (b : List ℕ)
      → IsValid p b
      → p.buffersize ≡ scull_p_buffer
      → IsHeld (count_in p f_mode)
  opened_some p b v size = opened b (ground (arith, v)) (ground (arith, mode)) size

  opened_fresh :
      (p : Pipe) (b : List ℕ)
      → length b ≡ scull_p_buffer
      → p.buffersize ≡ scull_p_buffer
      → IsHeld (count_in (with_buffer p b) f_mode)
  opened_fresh p b e size = opened b (ground arith) (ground (arith, mode)) size

  ensured-IsHeld :
      (p : Pipe) (o a : Option (List ℕ))
      → p.buffer ≡ o
      → ((b : List ℕ) → a ≡ some b → length b ≡ scull_p_buffer)
      → IsHeld p
      → IsHeld (counted f_mode p (ensure_buffer o a p)).1
  ensured-IsHeld p (some c) a e len (closed none_ users size) = absurd (ground arith)
  ensured-IsHeld p (some c) a e len (opened b v users size) = opened_some p b v size
  ensured-IsHeld p none (some b) e len (closed none_ users size) =
      opened_fresh p b (len b refl) size
  ensured-IsHeld p none (some b) e len (opened c v users size) = opened_fresh p b (len b refl) size
  ensured-IsHeld p none none e len h = h

  -- A pipe that has a sound buffer exactly where it has users keeps that when a file is opened
  -- for reading, writing or both, whether the open is interrupted, refused by the allocator or
  -- done.
  pub open-IsHeld :
      (interrupted : Bool) (p : Pipe)
      → IsHeld p
      → IsHeld (scull_p_open k nth interrupted f_mode p).1
  unfolding scull_p_open
  open-IsHeld true p h = h
  open-IsHeld false p h =
      ensured-IsHeld p p.buffer (k.kmalloc nth scull_p_buffer) refl
        (k.kmalloc_size nth scull_p_buffer) h

-- The mode in which the file was opened is counted.
abbrev IsCounted : ℕ → Pipe → Type 0
IsCounted f_mode p =
    (reads f_mode ≡ true → 0 < p.nreaders) × (writes f_mode ≡ true → 0 < p.nwriters)

unused-IsHeld :
    (p : Pipe) (b : List ℕ) → IsValid p b → p.buffersize ≡ scull_p_buffer → IsHeld (free_unused p)
unused-IsHeld p b v size = elim (Bool-cases (p.nreaders + p.nwriters == 0)) [
  | inl e ↦ rw e (closed refl ((==_iff _ _).0 e) size)
  | inr e ↦ rw e (opened b (ground (arith, v)) (ground arith) size)
]

-- A pipe that has a sound buffer exactly where it has users keeps that when a file that is
-- counted in its mode is released, interrupted or not.
pub release-IsHeld :
    (left_queue interrupted : Bool) (f_mode : ℕ) (p : Pipe)
    → IsHeld p
    → IsCounted f_mode p
    → HasMode f_mode
    → IsHeld (scull_p_release left_queue interrupted f_mode p).1
unfolding scull_p_release
release-IsHeld left_queue true f_mode p (closed e users size) c mode = closed e users size
release-IsHeld left_queue true f_mode p (opened b v users size) c mode =
    opened b (ground (arith, v)) users size
release-IsHeld left_queue false f_mode p (closed e users size) c mode =
    absurd (ground (arith, c, mode))
release-IsHeld left_queue false f_mode p (opened b v users size) c mode =
    unused-IsHeld (count_out (record p { async_queue = left_queue }) f_mode) b (ground (arith, v))
      size

-- On a pipe that is closed, an open that succeeds and an uninterrupted release of the same file
-- leave the counts as they were, and the pipe closed, its buffer freed.
pub release-open :
    (k : Allocator) (nth f_mode : ℕ) (left_queue : Bool) (p : Pipe)
    → p.buffer ≡ none
    → p.nreaders + p.nwriters ≡ 0
    → (scull_p_open k nth false f_mode p).0 ≡ ok 0
    → let q = (scull_p_release left_queue false f_mode (scull_p_open k nth false f_mode p).1).1 in
      (q.buffer ≡ none) × (q.nreaders ≡ p.nreaders) × (q.nwriters ≡ p.nwriters)
unfolding scull_p_open scull_p_release
release-open k nth f_mode left_queue p closed_ users done = ground arith
