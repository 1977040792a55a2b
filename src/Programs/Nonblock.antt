-- ===== src/Programs/Nonblock.antt =====
-- misc_progs/nbtest.c on a pipe: what becomes of O_NONBLOCK.
use mydrivers.Prelude.{ℕ, ◌+◌, ◌≡◌, ◌≢◌, refl, true, false, List, if◌then◌else◌, arith}
use mydrivers.Kernel.{eagain, err}
use mydrivers.Pipe.State.{Pipe, spacefree, up, o_nonblock, is_nonblock, has_nonblock}
use mydrivers.Pipe.System.{
  Reading, Writing, Pc, r_loop, r_sleep, w_loop, returned, Polling, Move, r_ready, r_again, r_wait,
  w_ready, w_again, w_wait,
}

-- `fcntl(fd, F_SETFL, fcntl(fd, F_GETFL) | O_NONBLOCK)`
unfoldable pub with_nonblock : ℕ → ℕ
with_nonblock flags = if has_nonblock flags then flags else flags + o_nonblock

-- Whatever flags a file has, nbtest's `fcntl` sets the bit.
with_nonblock-set : (flags : ℕ) → has_nonblock (with_nonblock flags) ≡ true
unfolding with_nonblock
with_nonblock-set flags = ground arith

with_nonblock-other :
    (flags : ℕ) → flags ≢ 0 → flags ≢ o_nonblock → is_nonblock (with_nonblock flags) ≡ false
unfolding with_nonblock
with_nonblock-other flags some_bit other = ground arith

-- When nbtest reads an empty pipe through a file with any other flag bit than O_NONBLOCK, the one
-- move from the test of the loop is to go to sleep: no EAGAIN comes back, although the bit is set.
pub nbtest_sleeps :
    {h : Polling} {p p' : Pipe} {c' : Pc} {took gave : List ℕ} (flags : ℕ) (r : Reading)
    → flags ≢ 0
    → flags ≢ o_nonblock
    → r.f_flags ≡ with_nonblock flags
    → p.rp ≡ p.wp
    → Move h p (r_loop r) p' c' took gave
    → (c' ≡ r_sleep r) × (p' ≡ up p)
nbtest_sleeps flags r some_bit other e empty (r_ready ne) = absurd (ne empty)
nbtest_sleeps flags r some_bit other e empty (r_again _ set) =
    absurd (ground (arith, with_nonblock-other flags some_bit other, e, set))
nbtest_sleeps flags r some_bit other e empty (r_wait _ _) = (refl, refl)

-- When nbtest writes to a full pipe, whatever the flags of the file, EAGAIN comes back.
nbtest_never_sleeps :
    {h : Polling} {p p' : Pipe} {c' : Pc} {took gave : List ℕ} (flags : ℕ) (w : Writing)
    → w.f_flags ≡ with_nonblock flags
    → spacefree p ≡ 0
    → Move h p (w_loop w) p' c' took gave
    → (c' ≡ returned (err eagain)) × (p' ≡ up p)
nbtest_never_sleeps flags w e full (w_ready ne) = absurd (ne full)
nbtest_never_sleeps flags w e full (w_again _ _) = (refl, refl)
nbtest_never_sleeps flags w e full (w_wait _ clear) =
    absurd (ground (arith, with_nonblock-set flags, e, clear))
