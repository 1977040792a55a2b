-- ===== src/Scull/File.antt =====
-- What the users of a memory device may rely on: one file of bytes that all of them read and write,
-- each at a position of its own. It says nothing of quanta, lists, allocation or the semaphore.
use mydrivers.Prelude.{
  ℕ, ◌+◌, ◌-◌, ◌≤◌, ◌<◌, ◌≡◌, ◌⊎◌, Bool, false, List, [], ◌∷◌, get_or, length, ltb, leb, ◌&&◌,
  if◌then◌else◌,
}
use mydrivers.Prelude.Family.{update}
use mydrivers.Kernel.{Errno, Result, ok, err}

pub record File : Type 0 where
  pub content : ℕ → ℕ
  pub size : ℕ
  pub pos : ℕ → ℕ

-- What a call tells its caller: its result, and the bytes that it delivered or was given.
pub data Event : Type 0 where
  silent : Event
  did_read : (count : ℕ) → Result ℕ → List ℕ → Event
  did_write : (src : List ℕ) → Result ℕ → Event

-- The position of user `i` moves by `n`, no other does.
abbrev pub Moved : File → File → ℕ → ℕ → Type 0
Moved f f' i n = (j : ℕ) → f'.pos j ≡ update f.pos i (f.pos i + n) j

-- A position in the `n` bytes from `pos` on
abbrev pub within : (pos n p : ℕ) → Bool
within pos n p = leb pos p && ltb p (pos + n)

-- The bytes that are the file's, by position.
module _ (InFile : ℕ → Type 0) where
  abbrev pub SameBytes : File → File → Type 0
  SameBytes f f' = ((p : ℕ) → InFile p → f'.content p ≡ f.content p) × (f'.size ≡ f.size)

  -- What a call of user `i` may do to the file. There is no rule for a call that crashes.
  pub data Allowed (i : ℕ) (f f' : File) (e : Event) : Type 0 where
    internal : e ≡ silent → SameBytes f f' → Moved f f' i 0 → Allowed i f f' e
    reads :
        (count n : ℕ) (bytes : List ℕ)
        → e ≡ did_read count (ok n) bytes
        → n ≤ count
        → (n ≡ 0) ⊎ (f.pos i + n ≤ f.size)
        → length bytes ≡ n
        → ((j : ℕ) → j < n → get_or bytes j 0 ≡ f.content (f.pos i + j))
        → SameBytes f f'
        → Moved f f' i n
        → Allowed i f f' e
    read_fails :
        (count : ℕ) (x : Errno)
        → e ≡ did_read count (err x) []
        → SameBytes f f'
        → Moved f f' i 0
        → Allowed i f f' e
    writes :
        (src : List ℕ) (n : ℕ)
        → e ≡ did_write src (ok n)
        → n ≤ length src
        → (0 < length src → 0 < n)
        → ((p : ℕ)
            → InFile p
            → f'.content p
              ≡ (if within (f.pos i) n p then get_or src (p - f.pos i) 0 else f.content p))
        → f'.size ≡ f.size + n
        → Moved f f' i n
        → Allowed i f f' e
    write_fails :
        (src : List ℕ) (x : Errno)
        → e ≡ did_write src (err x)
        → ((p : ℕ)
            → InFile p
            → within (f.pos i) (length src) p ≡ false
            → f'.content p ≡ f.content p)
        → f'.size ≡ f.size
        → Moved f f' i 0
        → Allowed i f f' e

  -- A run of `n` users, with what was told to whom, the last first.
  pub data Run (n : ℕ) (f : File) : List (ℕ × Event) → File → Type 0 where
    start : Run n f [] f
    later :
        {f' f'' : File} {told : List (ℕ × Event)} (i : ℕ) {e : Event}
        → i < n
        → Run n f told f'
        → Allowed i f' f'' e
        → Run n f ((i, e) ∷ told) f''
