-- ===== src/Jit/Readers.antt =====
-- What a read of the timer's file and of the tasklets' files makes of the ten rounds.
use mydrivers.Prelude.{
  ℕ, ◌+◌, ◌%◌, ◌≤◌, ◌<◌, ◌≡◌, ◌≢◌, inl, inr, refl, ap, ◌∙◌, Bool, true, false, some, List, [], ◌++◌,
  arith, ==_ne, if◌then◌else◌, length, length-append,
}
use mydrivers.Kernel.{ok, err, efault, Uaccess, Allocator, Mem, granted}
use mydrivers.Scull.Alloc.{release_block}
use mydrivers.Print.{sprintf_fits, joined}
use mydrivers.Rounds.{Lines, history, Progress, Waiting, runs-Round, word, sbuf_size}
use mydrivers.Jit.Timers.{
  interval, add_timer, tasklet_schedule, tasklet_hi_schedule, JitData, printer, jit_timer_fn,
  jit_tlet_fn, ends_with, jit_timer, jit_tasklet,
}
use mydrivers.Jit.Rounds.{
  jit_timer_fn-Round, jit_tlet_fn-Round, Late, seen, timetable, length-seen, history-seen,
}

-- The end of a read, by whether the copy succeeds.
ends_copied :
    (u : Uaccess) (k : Allocator) (p : Lines) (m : Mem) (d : JitData) (text : List ℕ)
    → d.text ≡ text
    → u.copy_to_user text ≡ 0
    → ends_with u k p m (some d) ≡ record {
      result = ok (length text);
      mem = m;
      delivered = text;
      freed = false;
      data_ = some d;
    }
ends_copied u k p m d text e c = rw e (rw c refl)

ends_missed :
    (u : Uaccess) (k : Allocator) (p : Lines) (m : Mem) (d : JitData) (text : List ℕ)
    → d.text ≡ text
    → u.copy_to_user text ≢ 0
    → ends_with u k p m (some d) ≡ record {
      result = err efault;
      mem = release_block m;
      delivered = [];
      freed = true;
      data_ = some d;
    }
ends_missed u k p m d text e c = rw e (rw (==_ne (u.copy_to_user text) 0 c) refl)

module _ (u : Uaccess) (k : Allocator) (p : Lines) (m : Mem) (b : List ℕ) where
  -- Where the buffer is granted, and the timer runs at the times `ts`, ten at most, each at least
  -- `interval` and less than 2 ^ 64 behind the one before: the read ends with the headline and a
  -- line for each run, which gives the true time that passed. After ten runs it is woken and no
  -- timer is pending; when a signal ends the wait before that, the timer is.
  pub jit_timer_rounds :
      (t : ℕ) (ts : List ℕ)
      → k.kmalloc m.asked sbuf_size ≡ some b
      → Late t ts
      → length ts ≤ 10
      → (d : JitData) × (jit_timer u k p (t % word) (seen ts) m
          ≡ ends_with u k p (granted (some b) m) (some d))
        × (d.text ≡ p.headline ++ joined (timetable p t ts))
        × Progress printer 10 (length ts) d
  unfolding jit_timer
  jit_timer_rounds t ts got late few =
      let armed = add_timer ((t % word + interval) % word) in
      let start : JitData = record {
        left_loops = 10;
        prevjiffies = t % word;
        pending = some armed;
        hi = false;
        woken = false;
        text = p.headline;
      } in
      let fits = sprintf_fits sbuf_size [] p.headline (omega (arith, p.headline_short)) in
      let n = length-seen ts in
      let (d, ran, text, (left, end)) =
        runs-Round printer p (jit_timer_fn p) (seen ts) start (jit_timer_fn-Round p)
          (omega arith, refl) (omega arith) (omega (arith, n)) (omega (arith, p.headline_short)) in
      (
        d,
        rw got (rw fits (ap (ends_with u k p (granted (some b) m)) ran)),
        text ∙ ap (λ ls. p.headline ++ joined ls) (history-seen p t ts late),
        (omega (arith, n), end),
      )

  -- Where the buffer is granted, and the tasklet runs at `jiffies` `js`, ten times at most: the read
  -- ends with the headline, a line of its own, and a line for each run. After ten runs it is woken and
  -- no tasklet is pending; when a signal ends the wait before that, the tasklet is.
  jit_tasklet_rounds :
      (hi : Bool) (j : ℕ) (js : List ℕ)
      → k.kmalloc m.asked sbuf_size ≡ some b
      → length js ≤ 10
      → (d : JitData) × (jit_tasklet u k p hi j js m
          ≡ ends_with u k p (granted (some b) m) (some d))
        × (d.text ≡ (p.headline ++ p.line j 0) ++ joined (history p j js))
        × Progress printer 10 (length js) d
  unfolding jit_tasklet
  jit_tasklet_rounds hi j js got few =
      let asked = if hi then tasklet_hi_schedule else tasklet_schedule in
      let start : JitData = record {
        left_loops = 10;
        prevjiffies = j;
        pending = some asked;
        hi = hi;
        woken = false;
        text = p.headline ++ p.line j 0;
      } in
      let fits = sprintf_fits sbuf_size [] p.headline (omega (arith, p.headline_short)) in
      let fits' =
        sprintf_fits sbuf_size p.headline (p.line j 0)
          (omega (arith, p.headline_short, p.line_short j 0)) in
      let size = length-append p.headline (p.line j 0) in
      let (d, ran, text, (left, end)) =
        runs-Round printer p (jit_tlet_fn p) js start (jit_tlet_fn-Round p) (omega arith, refl)
          (omega arith) (omega arith) (omega (arith, p.headline_short, p.line_short j 0, size)) in
      (
        d,
        rw got (rw fits (rw fits' (ap (ends_with u k p (granted (some b) m)) ran))),
        text,
        (omega arith, end),
      )

  -- Where the buffer is granted and the text is copied, a read of the timer's file during which the
  -- timer runs ten times at most keeps the buffer: the driver holds one block more than before.
  jit_timer_leaks :
      (t : ℕ) (ts : List ℕ)
      → k.kmalloc m.asked sbuf_size ≡ some b
      → Late t ts
      → length ts ≤ 10
      → u.copy_to_user (p.headline ++ joined (timetable p t ts)) ≡ 0
      → let r = jit_timer u k p (t % word) (seen ts) m in
        let text = p.headline ++ joined (timetable p t ts) in
        (r.result ≡ ok (length text)) × (r.delivered ≡ text) × (r.mem.live ≡ m.live + 1)
  jit_timer_leaks t ts got late few copied =
      let (d, ran, text, progress) = jit_timer_rounds t ts got late few in
      let e =
        ran
        ∙ ends_copied u k p (granted (some b) m) d (p.headline ++ joined (timetable p t ts)) text
            copied in
      (ap (λ r. r.result) e, ap (λ r. r.delivered) e, ap (λ r. r.mem.live) e)

  -- Where the buffer is granted, the timer ran on time fewer than ten times before a signal ended
  -- the wait, and the copy fails, a read of the timer's file reports EFAULT and frees the buffer,
  -- into which the timer that is still pending prints next.
  pub jit_timer_dangles :
      (t : ℕ) (ts : List ℕ)
      → k.kmalloc m.asked sbuf_size ≡ some b
      → Late t ts
      → length ts < 10
      → u.copy_to_user (p.headline ++ joined (timetable p t ts)) ≢ 0
      → let r = jit_timer u k p (t % word) (seen ts) m in
        (r.result ≡ err efault)
        × (r.freed ≡ true)
        × ((d : JitData) × (r.data_ ≡ some d) × Waiting printer d)
  jit_timer_dangles t ts got late few missed =
      let (d, ran, text, (left, state)) = jit_timer_rounds t ts got late (omega arith) in
      let e =
        ran
        ∙ ends_missed u k p (granted (some b) m) d (p.headline ++ joined (timetable p t ts)) text
            missed in
      let pending : Waiting printer d = elim state [
        | inl settled ↦ absurd (omega (arith, settled.0))
        | inr waiting ↦ waiting
      ] in
      (ap (λ r. r.result) e, ap (λ r. r.freed) e, (d, ap (λ r. r.data_) e, pending))
