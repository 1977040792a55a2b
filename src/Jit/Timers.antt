-- ===== src/Jit/Timers.antt =====
-- `jit_timer` and `jit_tasklet`: ten lines printed by a timer, or by a tasklet.
use mydrivers.Prelude.{
  ℕ, ◌+◌, ◌%◌, Bool, true, false, Option, none, some, List, [], ltb, ◌==◌, if◌then◌else◌, length,
}
use mydrivers.Kernel.{efault, Result, ok, err, fault, ◌>>=◌, Uaccess, Allocator, Mem, granted}
use mydrivers.Scull.Alloc.{release_block}
use mydrivers.Print.{sprintf}
use mydrivers.Rounds.{Lines, Printer, word, sbuf_size, elapsed, one_less, runs}

-- `interval`
abbrev pub interval : ℕ
interval = 100

-- What starts the function again: the timer when it expires, or the scheduled tasklet.
pub data Pending : Type 0 where
  add_timer : (expires : ℕ) → Pending
  tasklet_schedule : Pending
  tasklet_hi_schedule : Pending

-- `struct jit_data`: `text` is what stands in the buffer below `buf`, and `woken` whether the wait
-- queue was woken.
pub record JitData : Type 0 where
  pub left_loops : ℕ
  pub prevjiffies : ℕ
  pub pending : Option Pending
  pub hi : Bool
  pub woken : Bool
  pub text : List ℕ

-- How the rounds read the data.
abbrev is_some : Option Pending → Bool
is_some none = false
is_some (some q) = true

abbrev pub printer : Printer JitData
printer = record {
  left_loops = λ d. d.left_loops;
  prevjiffies = λ d. d.prevjiffies;
  text = λ d. d.text;
  pending = λ d. is_some d.pending;
  woken = λ d. d.woken;
}

module _ (p : Lines) where
  -- The timer's function at the time `j`. `none` where the print runs past the buffer.
  unfoldable pub jit_timer_fn : (j : ℕ) → JitData → Option JitData
  unfolding sprintf
  jit_timer_fn j d =
      let left = one_less d.left_loops in
      do
        text ← sprintf sbuf_size d.text (p.line j (elapsed j d.prevjiffies))
        some (
            if ltb 0 left
            then record d {
              left_loops = left;
              prevjiffies = j;
              pending = some (add_timer ((j + interval) % word));
              text = text;
            }
            else record d { left_loops = left; pending = none; woken = true; text = text })

  unfoldable pub jit_tlet_fn : (j : ℕ) → JitData → Option JitData
  unfolding sprintf
  jit_tlet_fn j d =
      let left = one_less d.left_loops in
      do
        text ← sprintf sbuf_size d.text (p.line j (elapsed j d.prevjiffies))
        some (
            if left == 0
            then record d { left_loops = left; pending = none; woken = true; text = text }
            else record d {
              left_loops = left;
              prevjiffies = j;
              pending = some (if d.hi then tasklet_hi_schedule else tasklet_schedule);
              text = text;
            })

-- What a read returns and delivers, the blocks after it, and the data of the timer or the tasklet.
-- `freed` says whether the buffer that the data refer to is freed.
pub record Outcome : Type 0 where
  pub result : Result ℕ
  pub mem : Mem
  pub delivered : List ℕ
  pub freed : Bool
  pub data_ : Option JitData

module _ (u : Uaccess) (k : Allocator) (p : Lines) where
  -- From the wake-up on. `strlen` is taken of the text; `none` where the print ran past the buffer.
  abbrev pub ends_with : Mem → Option JitData → Outcome
  ends_with m none = record { result = fault; mem = m; delivered = []; freed = false; data_ = none }
  ends_with m (some d) =
      if u.copy_to_user d.text == 0
      then record {
        result = ok (length d.text);
        mem = m;
        delivered = d.text;
        freed = false;
        data_ = some d;
      }
      else record {
        result = err efault;
        mem = release_block m;
        delivered = [];
        freed = true;
        data_ = some d;
      }

  abbrev no_buffer : Mem → Outcome
  no_buffer m = record { result = ok 0; mem = m; delivered = []; freed = false; data_ = none }

  -- `js` are the times at which the function runs, as far as the wait lasts: it ends when
  -- `left_loops` is 0, or with a signal.
  abbrev timer_with : (j : ℕ) (js : List ℕ) → Mem → Option (List ℕ) → Outcome
  timer_with j js m none = no_buffer m
  timer_with j js m (some b) = ends_with m (do
    text ← sprintf sbuf_size [] p.headline
    runs printer (jit_timer_fn p) js (record {
      left_loops = 10;
      prevjiffies = j;
      pending = some (add_timer ((j + interval) % word));
      hi = false;
      woken = false;
      text = text;
    }))

  unfoldable pub jit_timer : (j : ℕ) (js : List ℕ) → Mem → Outcome
  unfolding sprintf jit_timer_fn runs
  jit_timer j js m =
      let answer = k.kmalloc m.asked sbuf_size in timer_with j js (granted answer m) answer

  abbrev tasklet_with : (hi : Bool) (j : ℕ) (js : List ℕ) → Mem → Option (List ℕ) → Outcome
  tasklet_with hi j js m none = no_buffer m
  tasklet_with hi j js m (some b) = ends_with m (do
    text ← sprintf sbuf_size [] p.headline
    text' ← sprintf sbuf_size text (p.line j 0)
    runs printer (jit_tlet_fn p) js (record {
      left_loops = 10;
      prevjiffies = j;
      pending = some (if hi then tasklet_hi_schedule else tasklet_schedule);
      hi = hi;
      woken = false;
      text = text';
    }))

  unfoldable pub jit_tasklet : (hi : Bool) (j : ℕ) (js : List ℕ) → Mem → Outcome
  unfolding sprintf jit_tlet_fn runs
  jit_tasklet hi j js m =
      let answer = k.kmalloc m.asked sbuf_size in tasklet_with hi j js (granted answer m) answer
