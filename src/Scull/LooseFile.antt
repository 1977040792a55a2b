-- ===== src/Scull/LooseFile.antt =====
-- The file of bytes of Scull/File for users who also open it anew: an open for writing only empties
-- it, and a read that waits meanwhile may go past the end.
use mydrivers.Prelude.{ℕ, ◌+◌, ◌≤◌, ◌<◌, ◌≡◌, true, false, List, [], ◌∷◌, get_or, length}
use mydrivers.Prelude.Family.{update}
use mydrivers.Kernel.{ok}
use mydrivers.Access.Users.{write_only}
use mydrivers.Scull.File.{File, Event, did_read, Moved, SameBytes, Allowed}
use mydrivers.Scull.Openings.{Told, call, did_open}

-- The position of user `i` is the start, no other moves.
abbrev Rewound : File → File → ℕ → Type 0
Rewound f f' i = (j : ℕ) → f'.pos j ≡ update f.pos i 0 j

module _ (InFile : ℕ → Type 0) where
  -- What a call of user `i` may do to the file. There is no rule for a call that crashes.
  pub data Loosely (i : ℕ) (f f' : File) : Told → Type 0 where
    strictly : {e : Event} → Allowed InFile i f f' e → Loosely i f f' (call e)
    reads_late :
        (count n : ℕ) (bytes : List ℕ) {e : Event}
        → e ≡ did_read count (ok n) bytes
        → n ≤ count
        → f.pos i < f.size
        → f.size < f.pos i + n
        → length bytes ≡ n
        → ((j : ℕ) → j < n → get_or bytes j 0 ≡ f.content (f.pos i + j))
        → SameBytes InFile f f'
        → Moved f f' i n
        → Loosely i f f' (call e)
    opens :
        {f_flags : ℕ}
        → write_only f_flags ≡ false
        → SameBytes InFile f f'
        → Rewound f f' i
        → Loosely i f f' (did_open f_flags (ok 0))
    empties :
        {f_flags : ℕ}
        → write_only f_flags ≡ true
        → f'.size ≡ 0
        → ((p : ℕ) → f'.content p ≡ 0)
        → Rewound f f' i
        → Loosely i f f' (did_open f_flags (ok 0))

  -- A run of `n` users, with what was told to whom, the last first.
  pub data LooseRun (n : ℕ) (f : File) : List (ℕ × Told) → File → Type 0 where
    start : LooseRun n f [] f
    later :
        {f' f'' : File} {told : List (ℕ × Told)} (i : ℕ) {e : Told}
        → i < n
        → LooseRun n f told f'
        → Loosely i f' f'' e
        → LooseRun n f ((i, e) ∷ told) f''
