-- ===== src/Jiq/Work.antt =====
-- The work items of jiq.c, and `jiq_wq`, which waits for them.
use mydrivers.Prelude.{
  ℕ, ◌+◌, Bool, true, false, Option, none, some, List, [], ltb, ◌==◌, if◌then◌else◌, length,
}
use mydrivers.Kernel.{efault, Result, ok, err, fault, ◌>>=◌, Uaccess, Allocator, Mem, granted}
use mydrivers.Scull.Alloc.{release_block}
use mydrivers.Rounds.{Lines, Printer, sbuf_size, elapsed, one_less, runs}
use mydrivers.Print.{sprintf}

-- `enum jiq_files`
abbrev pub jit_wq : ℕ
jit_wq = 0

abbrev pub jit_wq_delay : ℕ
jit_wq_delay = 1

-- What is queued.
pub data Work : Type 0 where
  schedule_work : Work
  schedule_delayed_work : (delay : ℕ) → Work

-- `struct client_data`: `left_loops` is an `int`, by its 32 bits; `text` is what stands in the buffer
-- below `buf`; `woken` says whether the wait queue was woken.
pub record ClientData : Type 0 where
  pub left_loops : ℕ
  pub prevjiffies : ℕ
  pub delay : ℕ
  pub queued : Option Work
  pub woken : Bool
  pub text : List ℕ

abbrev is_some : Option Work → Bool
is_some none = false
is_some (some q) = true

-- How the rounds read the data.
abbrev pub printer : Printer ClientData
printer = record {
  left_loops = λ d. d.left_loops;
  prevjiffies = λ d. d.prevjiffies;
  text = λ d. d.text;
  pending = λ d. is_some d.queued;
  woken = λ d. d.woken;
}

module _ (p : Lines) where
  -- The data behind it, whose `left_loops` is the result. `none` where the print runs past the buffer.
  unfoldable pub jiq_print : (j : ℕ) → ClientData → Option ClientData
  unfolding sprintf
  jiq_print j d = do
    text ← sprintf sbuf_size d.text (p.line j (elapsed j d.prevjiffies))
    some (record d { left_loops = one_less d.left_loops; prevjiffies = j; text = text })

  -- Either function takes the work from the queue, and puts it back while a loop is left.
  abbrev pub wakes_or : Work → ClientData → ClientData
  wakes_or again d =
      if d.left_loops == 0
      then record d { queued = none; woken = true }
      else record d { queued = some again }

  unfoldable pub jiq_print_wq : (j : ℕ) → ClientData → Option ClientData
  unfolding jiq_print
  jiq_print_wq j d = do d' ← jiq_print j d; some (wakes_or schedule_work d')

  unfoldable pub jiq_print_delayed_wq : (j : ℕ) → ClientData → Option ClientData
  unfolding jiq_print
  jiq_print_delayed_wq j d = do
    d' ← jiq_print j d
    some (wakes_or (schedule_delayed_work d'.delay) d')

unfoldable pub schedule_wq : ClientData → (param : ℕ) → ClientData
schedule_wq d param =
    if param == jit_wq
    then record d { queued = some schedule_work }
    else record d { queued = some (schedule_delayed_work d.delay) }

-- The function of the work that `schedule_wq` queues.
abbrev pub function_of : Lines → (param : ℕ) → ℕ → ClientData → Option ClientData
function_of p param = if param == jit_wq then jiq_print_wq p else jiq_print_delayed_wq p

-- What a read returns and delivers, the position and the blocks after it, and the data of the work.
-- `freed` says whether the buffer that the data refer to is freed.
pub record Outcome : Type 0 where
  pub result : Result ℕ
  pub pos : ℕ
  pub mem : Mem
  pub delivered : List ℕ
  pub freed : Bool
  pub data_ : Option ClientData

module _ (u : Uaccess) (k : Allocator) (p : Lines) (param : ℕ) (pos : ℕ) where
  -- The data before the work is queued.
  abbrev pub prepared : (j : ℕ) → List ℕ → ClientData
  prepared j text = record {
    left_loops = 5;
    prevjiffies = j;
    delay = if param == jit_wq then 0 else 1;
    queued = none;
    woken = false;
    text = text;
  }

  -- From the return of `schedule()` on.
  abbrev pub ends_with : Mem → Option ClientData → Outcome
  ends_with m none = record {
    result = fault;
    pos = pos;
    mem = m;
    delivered = [];
    freed = false;
    data_ = none;
  }
  ends_with m (some d) =
      if u.copy_to_user d.text == 0
      then record {
        result = ok (length d.text);
        pos = pos + length d.text;
        mem = release_block m;
        delivered = d.text;
        freed = true;
        data_ = some d;
      }
      else record {
        result = err efault;
        pos = pos;
        mem = release_block m;
        delivered = [];
        freed = true;
        data_ = some d;
      }

  abbrev shows_nothing : Bool → Mem → Outcome
  shows_nothing freed m = record {
    result = ok 0;
    pos = pos;
    mem = m;
    delivered = [];
    freed = freed;
    data_ = none;
  }

  abbrev wq_with : (j : ℕ) (js : List ℕ) → Mem → Option (List ℕ) → Outcome
  wq_with j js m none = shows_nothing false m
  wq_with j js m (some b) =
      if ltb 0 pos
      then shows_nothing true (release_block m)
      else ends_with m (do
        text ← sprintf sbuf_size [] p.headline
        runs printer (function_of p param) js (schedule_wq (prepared j text) param))

  -- `j` is `jiffies` at the start, and `js` are the times at which the work runs before `schedule()`
  -- returns: when it is woken, or with a signal.
  unfoldable pub jiq_wq : (j : ℕ) (js : List ℕ) → Mem → Outcome
  unfolding sprintf jiq_print_wq jiq_print_delayed_wq schedule_wq runs
  jiq_wq j js m = let answer = k.kmalloc m.asked sbuf_size in wq_with j js (granted answer m) answer
