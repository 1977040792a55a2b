-- ===== src/Jit/Delay.antt =====
-- `jit_current` and `jit_delay`: one line that is shown once, and four ways to wait for a second.
use mydrivers.Prelude.{
  ℕ, zero, suc, ◌+◌, ◌-◌, ◌%◌, ◌^◌, ◌≤◌, ◌<◌, Bool, Option, none, some, List, [], ltb, leb,
  if◌then◌else◌, length,
}
use mydrivers.Kernel.{ok, Uaccess, Allocator, Mem, granted, ◌>>=◌}
use mydrivers.Rounds.{word}
use mydrivers.Print.{sprintf, Reply, gives_up, hands_over}

-- What the kernel prints: the line of `jit_current`, and that of `jit_delay`. `%li` of a `long` that
-- is not negative has at most `k` digits below 10 ^ k, and more from there on.
pub record Format : Type 0 where
  pub current_lines : (j1 : ℕ) → List ℕ
  pub current_fits : (j1 : ℕ) → length (current_lines j1) < 240
  pub delay_line : (j0 j1 : ℕ) → List ℕ
  pub delay_short :
      (j0 j1 k : ℕ)
      → 0 < k
      → j0 < 10 ^ k
      → j1 < 10 ^ k
      → j0 < 2 ^ 63
      → j1 < 2 ^ 63
      → length (delay_line j0 j1) ≤ k + k + 2
  pub delay_long :
      (j0 j1 k : ℕ)
      → 10 ^ k ≤ j0
      → 10 ^ k ≤ j1
      → j0 < 2 ^ 63
      → j1 < 2 ^ 63
      → k + k + 4 ≤ length (delay_line j0 j1)

-- `jiffies` is an `unsigned long`; `time_before(a, b)` is `(long)(a - b) < 0`.
unfoldable pub time_before : ℕ → ℕ → Bool
time_before a b = leb (2 ^ 63) ((a + word - b) % word)

-- The `while` loops of JIT_BUSY and JIT_SCHED: `clock i` is `jiffies` at the i-th look, and the
-- result is the number of the look that ended the loop. Out of fuel it is `none`.
unfoldable pub wait_until : (clock : ℕ → ℕ) (j1 fuel i : ℕ) → Option ℕ
wait_until clock j1 zero i = none
wait_until clock j1 (suc fuel) i =
    let rest = wait_until clock j1 fuel (suc i) in if time_before (clock i) j1 then rest else some i

-- The loop of JIT_SCHEDTO: `schedule_timeout i d` is what is left of `d` jiffies at the i-th return.
-- The result is the number of the return that ended the loop.
unfoldable pub sleep_out : (schedule_timeout : ℕ → ℕ → ℕ) (fuel i delay : ℕ) → Option ℕ
sleep_out schedule_timeout zero i delay = none
sleep_out schedule_timeout (suc fuel) i delay =
    let rest = sleep_out schedule_timeout fuel (suc i) (schedule_timeout i delay) in
    if ltb 0 delay then rest else some i

-- `enum jit_files`
pub data JitFile : Type 0 where
  current busy sched queue sched_to timer tasklet tasklet_hi : JitFile

module _ (u : Uaccess) (k : Allocator) (f : Format) where
  abbrev current_with : (clock pos : ℕ) → Mem → Option (List ℕ) → Reply
  current_with clock pos m none = record { result = ok 0; pos = pos; mem = m; delivered = [] }
  current_with clock pos m (some b) =
      if ltb 0 pos
      then gives_up (ok 0) pos m
      else hands_over u pos m (sprintf 240 [] (f.current_lines clock))

  -- `clock` stands for all clocks that the function reads.
  unfoldable pub jit_current : (clock pos : ℕ) → Mem → Reply
  unfolding sprintf
  jit_current clock pos m =
      let answer = k.kmalloc m.asked 240 in current_with clock pos (granted answer m) answer

-- The clock and the scheduler while `jit_delay` runs: the ticks there have been at the i-th look,
-- and in `schedule_timeout i d` what is left of `d` jiffies at the i-th return.
pub record Time : Type 0 where
  pub hz : ℕ
  pub ticks : ℕ → ℕ
  pub schedule_timeout : ℕ → ℕ → ℕ

abbrev pub jiffies : Time → ℕ → ℕ
jiffies t i = t.ticks i % word

-- The `switch` of `jit_delay`, from the second look at the clock on: the next look behind it.
-- `wait_event_interruptible_timeout` returns at its time, or with a signal.
unfoldable pub waits : Time → (fuel j1 : ℕ) → JitFile → Option ℕ
waits t fuel j1 busy = do i ← wait_until (jiffies t) j1 fuel 1; some (suc i)
waits t fuel j1 sched = do i ← wait_until (jiffies t) j1 fuel 1; some (suc i)
waits t fuel j1 sched_to = do i ← sleep_out t.schedule_timeout fuel 0 t.hz; some 1
waits t fuel j1 _ = some 1

module _ (u : Uaccess) (k : Allocator) (f : Format) (t : Time) (fuel : ℕ) (data_ : JitFile) where
  abbrev delay_line_at : ℕ → Mem → Option ℕ → Option Reply
  delay_line_at pos m none = none
  delay_line_at pos m (some i) =
      some (hands_over u pos m (sprintf 24 [] (f.delay_line (jiffies t 0) (jiffies t i))))

  abbrev delay_with : (pos count : ℕ) → Mem → Option (List ℕ) → Option Reply
  delay_with pos count m none = some (record { result = ok 0; pos = pos; mem = m; delivered = [] })
  delay_with pos count m (some b) =
      if leb count pos
      then some (gives_up (ok 0) pos m)
      else delay_line_at pos m (waits t fuel ((jiffies t 0 + t.hz) % word) data_)

  -- `none` where the wait runs out of fuel.
  unfoldable pub jit_delay : (pos count : ℕ) → Mem → Option Reply
  unfolding sprintf waits
  jit_delay pos count m =
      let answer = k.kmalloc m.asked 24 in delay_with pos count (granted answer m) answer
