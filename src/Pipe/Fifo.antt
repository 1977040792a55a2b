-- ===== src/Pipe/Fifo.antt =====
-- The copying part of a read takes the oldest bytes of a sound pipe.
use mydrivers.Prelude.{
  ℕ, ◌+◌, ◌-◌, ◌≤◌, ◌<◌, ◌≡◌, refl, sym, ◌∙◌, ap, true, List, [], ◌++◌, arith, leb, ◌==◌,
  if◌then◌else◌, length, slice, length-slice, Bool-cases, inl, inr, ◌≢◌, le→leb,
}
use mydrivers.Kernel.{efault, ok, err, Uaccess}
use mydrivers.Pipe.State.{Pipe, up}
use mydrivers.Pipe.Transfer.{Step, read_count, advance_rp, read_from, read_body}
use mydrivers.Pipe.Ranges.{contents_lem, take_front}
use mydrivers.Pipe.Contents.{contents, IsValid}

-- A step that gives the semaphore back and leaves the pointers sound and the users counted.
pub record Handed (p : Pipe) (s : Step) : Type 0 where
  pub bytes : List ℕ
  pub valid : IsValid s.pipe bytes
  pub given_back : s.pipe.sem ≡ p.sem + 1
  pub same_size : s.pipe.buffersize ≡ p.buffersize
  pub same_readers : s.pipe.nreaders ≡ p.nreaders
  pub same_writers : s.pipe.nwriters ≡ p.nwriters

-- How the copying part of a read ends: with the oldest bytes, or with the pipe as it was.
pub data ReadEnd (p : Pipe) (count : ℕ) (s : Step) : Type 0 where
  got :
      (n : ℕ)
      → s.result ≡ ok n
      → n ≤ count
      → (0 < count → 0 < n)
      → length s.delivered ≡ n
      → contents p ≡ s.delivered ++ contents s.pipe
      → ReadEnd p count s
  failed :
      s.result ≡ err efault → s.delivered ≡ [] → contents s.pipe ≡ contents p → ReadEnd p count s

contents-up : (p : Pipe) → contents p ≡ contents (up p)
unfolding contents
contents-up p = refl

module _ (p : Pipe) (b : List ℕ) (v : IsValid p b) (count : ℕ) (nonempty : p.rp ≢ p.wp) where
  abbrev n : ℕ
  n = read_count p count

  read_count_lem : (p.rp + n ≤ p.end_) × (n ≤ count) × (0 < count → 0 < n)
  unfolding read_count
  read_count_lem = (ground (arith, v.rp_in), ground arith, λ h. ground (arith, v.rp_in))

  read_count_short : p.rp < p.wp → n ≤ p.wp - p.rp
  unfolding read_count
  read_count_short h = ground arith

  read_split : contents p ≡ slice b p.rp n ++ contents (advance_rp p n)
  unfolding advance_rp
  read_split =
      contents_lem p b v.opened
      ∙ take_front b p.end_ p.rp p.wp n v.wp_in nonempty read_count_short read_count_lem.0
      ∙ ap (λ l. slice b p.rp n ++ l) (sym (contents_lem (advance_rp p n) b v.opened))

  advance_rp-IsValid : IsValid (advance_rp p n) b
  unfolding advance_rp
  advance_rp-IsValid = ground (arith, v, read_count_lem)

  read_count_in : leb (p.rp + n) (length b) ≡ true
  read_count_in = le→leb _ _ (omega (arith, v.sized, read_count_lem.0))

  module _ (u : Uaccess) where
    abbrev front : List ℕ
    front = slice b p.rp n

    read_body_branches : read_body u p count ≡ (
        if u.copy_to_user front == 0
        then record { result = ok n; delivered = front; pipe = up (advance_rp p n) }
        else record { result = err efault; delivered = []; pipe = up p })
    unfolding read_body
    read_body_branches = ap (read_from u p n) v.opened ∙ (rw read_count_in)

    read_done : Handed p (record { result = ok n; delivered = front; pipe = up (advance_rp p n) })
    unfolding advance_rp
    read_done = record {
      bytes = b;
      valid = ground (arith, v, read_count_lem);
      given_back = refl;
      same_size = refl;
      same_readers = refl;
      same_writers = refl;
    }

    -- The copying part of a read of a sound pipe that holds bytes takes the oldest of them, at
    -- least one if any is asked for and at most `count`, and leaves the rest in order; or it
    -- reports EFAULT and leaves them all. Either way it gives the semaphore back and leaves the
    -- pointers sound.
    pub read_body_lem : ReadEnd p count (read_body u p count) × Handed p (read_body u p count)
    read_body_lem = elim (Bool-cases (u.copy_to_user front == 0)) [
      | inl e ↦
          rw (read_body_branches, e)
            (
              got n refl (read_count_lem.1) (read_count_lem.2)
                  (length-slice b p.rp n (omega (arith, v.sized, read_count_lem.0)))
                  (read_split ∙ ap (λ l. front ++ l) (contents-up (advance_rp p n))),
              read_done,
            )
      | inr e ↦
          rw (read_body_branches, e)
            (
              failed refl refl (sym (contents-up p)),
              record {
                bytes = b;
                valid = ground (arith, v);
                given_back = refl;
                same_size = refl;
                same_readers = refl;
                same_writers = refl;
              },
            )
    ]
