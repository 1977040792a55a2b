-- ===== src/Pipe/Contents.antt =====
-- The bytes that a pipe holds, oldest first, and when its pointers are sound.
use mydrivers.Prelude.{
  ℕ, ◌+◌, ◌-◌, ◌≤◌, ◌<◌, ◌≡◌, Option, none, some, List, [], ◌++◌, arith, leb, if◌then◌else◌, length,
  slice, length-slice, length-append,
}
use mydrivers.Pipe.State.{Pipe, spacefree}

abbrev pub bytes_between : List ℕ → ℕ → ℕ → ℕ → List ℕ
bytes_between b end_ rp wp =
    if leb rp wp then slice b rp (wp - rp) else slice b rp (end_ - rp) ++ slice b 0 wp

abbrev pub bytes_in : Pipe → Option (List ℕ) → List ℕ
bytes_in p none = []
bytes_in p (some b) = bytes_between b p.end_ p.rp p.wp

unfoldable pub contents : Pipe → List ℕ
contents p = bytes_in p p.buffer

-- An open pipe whose pointers stand in its buffer.
pub record IsValid (p : Pipe) (b : List ℕ) : Type 0 where
  pub opened : p.buffer ≡ some b
  pub sized : length b ≡ p.end_
  pub whole : p.end_ ≡ p.buffersize
  pub rp_in : p.rp < p.end_
  pub wp_in : p.wp < p.end_

pub spacefree_cases :
    {p : Pipe} {b : List ℕ}
    → IsValid p b
    → (p.rp ≤ p.wp → spacefree p ≡ p.end_ - (p.wp - p.rp) - 1)
      × (p.wp < p.rp → spacefree p ≡ p.rp - p.wp - 1)
unfolding spacefree
spacefree_cases v = (λ h. grind (arith, v), λ h. grind (arith, v))

-- In a sound pipe, free space and contents make up the buffer, but for the one byte kept free.
pub spacefree-add-length :
    {p : Pipe} {b : List ℕ} → IsValid p b → spacefree p + length (contents p) + 1 ≡ p.buffersize
unfolding spacefree contents
spacefree-add-length {p} {b} v = rw v.opened (
    grind (
      arith,
      length-slice b p.rp (p.wp - p.rp),
      length-slice b p.rp (p.end_ - p.rp),
      length-slice b 0 p.wp,
      length-append (slice b p.rp (p.end_ - p.rp)) (slice b 0 p.wp),
      v.sized,
    ))
