-- ===== src/Pipe/Ranges.antt =====
-- The circular buffer when a pointer moves on: what leaves at the front and what joins at the back.
use mydrivers.Prelude.{
  ℕ, ◌+◌, ◌-◌, ◌≤◌, ◌<◌, ◌≡◌, refl, sym, ◌∙◌, ap, some, List, ◌++◌, arith, leb, ◌==◌, if◌then◌else◌,
  length, slice, splice, Bool-cases, inl, inr, ◌≢◌, slice-append, slice-splice, slice-splice_apart,
  leb→le, append_assoc, append-nil,
}
use mathlib.Core.Path.{ap₂}
use mydrivers.Pipe.State.{Pipe}
use mydrivers.Pipe.Contents.{bytes_between, bytes_in, contents}

-- A range loses its front.
consume :
    (b : List ℕ) (i n m len : ℕ) → n + m ≡ len → slice b i len ≡ slice b i n ++ slice b (i + n) m
consume b i n m len h = ap (λ l. slice b i l) (sym h) ∙ slice-append b i n m

pub contents_lem :
    (p : Pipe) (b : List ℕ) → p.buffer ≡ some b → contents p ≡ bytes_between b p.end_ p.rp p.wp
unfolding contents
contents_lem p b e = ap (bytes_in p) e

-- The read pointer moves on by `n`, round the end of the buffer.
pub take_front :
    (b : List ℕ) (end_ rp wp n : ℕ)
    → wp < end_
    → rp ≢ wp
    → (rp < wp → n ≤ wp - rp)
    → rp + n ≤ end_
    → bytes_between b end_ rp wp
      ≡ slice b rp n ++ bytes_between b end_ (if rp + n == end_ then 0 else rp + n) wp
take_front b end_ rp wp n hw ne short h = ground (
  arith,
  consume b rp n (wp - (rp + n)) (wp - rp),
  consume b rp n (end_ - (rp + n)) (end_ - rp),
  append_assoc (slice b rp n) (slice b (rp + n) (end_ - (rp + n))) (slice b 0 wp),
  append-nil (slice b rp n),
)

-- Bytes are put at the write pointer, which moves on by their number, round the end of the buffer.
pub put_back :
    (b : List ℕ) (end_ rp wp : ℕ) (ys : List ℕ)
    → length b ≡ end_
    → rp < end_
    → wp + length ys ≤ end_
    → (wp < rp → wp + length ys < rp)
    → (rp ≤ wp → wp + length ys ≡ end_ → 0 < rp)
    → bytes_between (splice b wp ys) end_ rp (if wp + length ys == end_ then 0 else wp + length ys)
      ≡ bytes_between b end_ rp wp ++ ys
put_back b end_ rp wp ys hb hr h room gap = elim (Bool-cases (leb rp wp)) [
  | inl e ↦
      let le : rp ≤ wp = leb→le rp wp e in
      let b' = splice b wp ys in
      ground (
        arith,
        consume b' rp (wp - rp) (length ys) (wp + length ys - rp) (omega arith),
        slice-splice b wp ys (omega arith),
        slice-splice_apart b wp ys rp (wp - rp) (inl (omega arith)),
        append-nil (slice b' rp (end_ - rp)),
      )
  | inr e ↦
      let lt : wp < rp = ground arith in
      let b' = splice b wp ys in
      ground (
        arith,
        room lt,
        consume b' 0 wp (length ys) (wp + length ys) refl,
        slice-splice b wp ys (omega arith),
        slice-splice_apart b wp ys rp (end_ - rp) (inr (omega (arith, room lt))),
        slice-splice_apart b wp ys 0 wp (inl (omega arith)),
        append_assoc (slice b rp (end_ - rp)) (slice b 0 wp) ys,
      )
]

-- Bytes put behind the write pointer, which stays, do not show.
pub put_aside :
    (b : List ℕ) (end_ rp wp : ℕ) (ys : List ℕ)
    → (wp < rp → wp + length ys ≤ rp)
    → bytes_between (splice b wp ys) end_ rp wp ≡ bytes_between b end_ rp wp
put_aside b end_ rp wp ys room = elim (Bool-cases (leb rp wp)) [
  | inl e ↦
      let le : rp ≤ wp = leb→le rp wp e in
      rw e (slice-splice_apart b wp ys rp (wp - rp) (inl (omega arith)))
  | inr e ↦
      let lt : wp < rp = ground arith in
      rw e (
        ap₂ ◌++◌ (slice-splice_apart b wp ys rp (end_ - rp) (inr (room lt)))
          (slice-splice_apart b wp ys 0 wp (inl (omega arith))))
]
