-- ===== src/Globalmem/Transfers.antt =====
-- What reads and writes of globalmem transfer.
use mydrivers.Prelude.{
  ℕ, ◌+◌, ◌-◌, ◌^◌, ◌≤◌, ◌<◌, ◌≡◌, refl, sym, ◌∙◌, ap, true, false, List, [], arith, leb, ◌==◌,
  if◌then◌else◌, length, take, slice, splice, length-take, slice-splice, length-splice, min, le→leb,
  Bool-cases, inl, inr,
}
use mydrivers.Kernel.{einval, efault, ok, err, Uaccess}
use mydrivers.Globalmem.Device.{
  globalmem_size, Reply, clamp, refused, globalmem_read, globalmem_write,
}

-- The kernel refuses a request of 2 ^ 63 bytes or more before it calls the driver.
abbrev max_request : ℕ
max_request = 2 ^ 63

clamp_lem :
    (pos size : ℕ)
    → pos < globalmem_size
    → size < max_request
    → clamp pos size ≡ min size (globalmem_size - pos)
unfolding clamp
clamp_lem pos size h s = ground arith

-- How a transfer of `n` bytes at `pos` ends for a reader.
pub data ReadEnd (mem : List ℕ) (pos size : ℕ) (r : Reply) : Type 0 where
  past_end :
      globalmem_size ≤ pos
      → r.result ≡ err einval
      → r.pos ≡ pos
      → r.delivered ≡ []
      → ReadEnd mem pos size r
  got :
      pos < globalmem_size
      → r.result ≡ ok (min size (globalmem_size - pos))
      → r.pos ≡ pos + min size (globalmem_size - pos)
      → r.delivered ≡ slice mem pos (min size (globalmem_size - pos))
      → ReadEnd mem pos size r
  failed : r.result ≡ err efault → r.pos ≡ pos → r.delivered ≡ [] → ReadEnd mem pos size r

module _ (u : Uaccess) (mem : List ℕ) (pos : ℕ) (sized : length mem ≡ globalmem_size) where
  abbrev amount : ℕ → ℕ
  amount size = min size (globalmem_size - pos)

  in_memory : (size : ℕ) → pos < globalmem_size → leb (pos + amount size) (length mem) ≡ true
  in_memory size h = le→leb _ _ (omega (arith, sized))

  read_branches :
      (size : ℕ)
      → size < max_request
      → pos < globalmem_size
      → globalmem_read u mem pos size ≡ (
          if u.copy_to_user (slice mem pos (amount size)) == 0
          then record {
            result = ok (amount size);
            pos = pos + amount size;
            mem = mem;
            delivered = slice mem pos (amount size);
          }
          else refused u mem pos (err efault))
  unfolding globalmem_read
  read_branches size small h =
      let before : leb globalmem_size pos ≡ false = ground arith in
      rw (before, clamp_lem pos size h small) (rw (in_memory size h))

  past_read :
      (size : ℕ)
      → leb globalmem_size pos ≡ true
      → globalmem_read u mem pos size ≡ refused u mem pos (err einval)
  unfolding globalmem_read
  past_read size e = rw e

  -- A read of fewer than 2 ^ 63 bytes at a position within the memory returns and delivers the
  -- bytes from there on, as many as were asked for and are left, and moves the position by that
  -- number; past the end it reports EINVAL; a failed copy reports EFAULT. The memory stays as it
  -- was.
  pub globalmem_read_lem :
      (size : ℕ)
      → size < max_request
      → ReadEnd mem pos size (globalmem_read u mem pos size)
        × ((globalmem_read u mem pos size).mem ≡ mem)
  globalmem_read_lem size small = elim (Bool-cases (leb globalmem_size pos)) [
    | inl e ↦ rw (past_read size e) (past_end (ground arith) refl refl refl, refl)
    | inr e ↦ elim (Bool-cases (u.copy_to_user (slice mem pos (amount size)) == 0)) [
      | inl c ↦
          rw (read_branches size small (ground arith), c) (got (ground arith) refl refl refl, refl)
      | inr c ↦ rw (read_branches size small (ground arith), c) (failed refl refl refl, refl)
    ]
  ]

  write_branches :
      (src : List ℕ)
      → length src < max_request
      → pos < globalmem_size
      → let c =
          u.copy_from_user (slice mem pos (amount (length src))) (take (amount (length src)) src) in
        globalmem_write u mem pos src ≡ (
          if c.0 == 0
          then record {
            result = ok 0;
            pos = pos + amount (length src);
            mem = splice mem pos c.1;
            delivered = [];
          }
          else record { result = err efault; pos = pos; mem = splice mem pos c.1; delivered = [] })
  unfolding globalmem_write
  write_branches src small h =
      let before : leb globalmem_size pos ≡ false = ground arith in
      rw (before, clamp_lem pos (length src) h small) (rw (in_memory (length src) h))

  -- A write of fewer than 2 ^ 63 bytes within the memory, whose copy succeeds, stores the front
  -- of the caller's bytes, as many as are left, at the position, changes no other byte, and moves
  -- the position by their number; and it returns 0, not that number, however many bytes it
  -- stored.
  pub globalmem_write_lem :
      (src : List ℕ)
      → length src < max_request
      → pos < globalmem_size
      → ((old new : List ℕ) → (u.copy_from_user old new).0 ≡ 0)
      → let n = min (length src) (globalmem_size - pos) in
        globalmem_write u mem pos src
        ≡ record { result = ok 0; pos = pos + n; mem = splice mem pos (take n src); delivered = [] }
  globalmem_write_lem src small h clean =
      let n = amount (length src) in
      let z = clean (slice mem pos n) (take n src) in
      let same = u.copied (slice mem pos n) (take n src) z in
      rw (write_branches src small h, z) (rw same)

-- Where no copy fails, a write of fewer than 2 ^ 63 bytes within the memory, and a read of as
-- many bytes at the same position, deliver the bytes written, as many as were left.
pub read-globalmem_write :
    (u : Uaccess) (mem : List ℕ) (pos : ℕ) (src : List ℕ)
    → length mem ≡ globalmem_size
    → length src < max_request
    → pos < globalmem_size
    → ((old new : List ℕ) → (u.copy_from_user old new).0 ≡ 0)
    → ((l : List ℕ) → u.copy_to_user l ≡ 0)
    → (globalmem_read u (globalmem_write u mem pos src).mem pos (length src)).delivered
      ≡ take (min (length src) (globalmem_size - pos)) src
read-globalmem_write u mem pos src sized small h clean out =
    rw (globalmem_write_lem u mem pos sized src small h clean) (
      rw (read_branches u stored pos (length-splice mem pos front ∙ sized) (length src) small h)
        (rw (out (slice stored pos n)) back))
  where
    n : ℕ
    n = min (length src) (globalmem_size - pos)

    front : List ℕ
    front = take n src

    stored : List ℕ
    stored = splice mem pos front

    front-length : length front ≡ n
    front-length = omega (arith, length-take n src)

    back : slice stored pos n ≡ front
    back =
        ap (λ k. slice stored pos k) (sym front-length)
        ∙ slice-splice mem pos front (omega (arith, front-length, sized))
