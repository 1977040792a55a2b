-- ===== src/Programs/Nbtest.antt =====
-- misc_progs/nbtest.c: bytes from standard input to standard output, both non-blocking.
use mydrivers.Prelude.{
  ℕ, zero, suc, Bool, true, false, not, ◌&&◌, ◌||◌, Option, none, some, List, [], ◌++◌, length,
  take, ◌==◌, if◌then◌else◌,
}

-- What a system call answers, or -1 with `errno`.
pub data Answer (A : Type 0) : Type 0 where
  gives : A → Answer A
  fails : (errno : ℕ) → Answer A

-- EAGAIN
abbrev pub again : ℕ
again = 11

-- The variables, where `none` is -1; the bytes of `buf` that the last `read` filled; and what went to
-- standard output.
pub record Vars : Type 0 where
  pub n : Option ℕ
  pub m : Option ℕ
  pub errno : ℕ
  pub buf : List ℕ
  pub output : List ℕ

pub data Subject : Type 0 where
  stdin stdout : Subject

-- Where the loop stands: it goes on, or `perror` was called and the status is 1.
pub data End : Type 0 where
  goes_on : Vars → End
  exits : Subject → Vars → End

abbrev pub failed : Option ℕ → Bool
failed none = true
failed (some _) = false

abbrev after_read : Answer (List ℕ) → Vars → Vars
after_read (gives b) v = record v { n = some (length b); buf = b }
after_read (fails e) v = record v { n = none; errno = e }

abbrev after_write : Answer ℕ → Vars → Vars
after_write (gives k) v = record v { m = some k; output = v.output ++ take k v.buf }
after_write (fails e) v = record v { m = none; errno = e }

-- The test that ends the loop
abbrev pub breaks : Vars → Bool
breaks v = (failed v.n || failed v.m) && not (v.errno == again)

abbrev pub subject : Vars → Subject
subject v = if failed v.n then stdin else stdout

abbrev pub begun : Vars
begun = record { n = none; m = some 0; errno = 0; buf = []; output = [] }

-- What the system answers in each round of the loop
module _ (reads : ℕ → Answer (List ℕ)) (writes : ℕ → List ℕ → Answer ℕ) where
  -- `if (n >= 0) m = write(1, buf, n);`
  abbrev write_out : ℕ → Option ℕ → Vars → Vars
  write_out i none v = v
  write_out i (some n) v = after_write (writes i v.buf) v

  abbrev pub round : ℕ → Vars → Vars
  round i v = let v' = after_read (reads i) v in write_out i v'.n v'

  -- The loop, on the rounds left, from round `i` on
  unfoldable pub loop_from : ℕ → ℕ → Vars → End
  loop_from zero i v = goes_on v
  loop_from (suc k) i v =
      let v' = round i v in
      let rest = loop_from k (suc i) v' in if breaks v' then exits (subject v') v' else rest

  abbrev pub nbtest : ℕ → End
  nbtest k = loop_from k 0 begun
