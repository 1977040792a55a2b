-- ===== src/Jit/Files.antt =====
-- The table `jd` of jit.c, `proc_read`, and the module's init and exit function.
use Prim.Native.String.{String}
use mydrivers.Prelude.{ℕ, ◌≤◌, ◌≡◌, refl, none, some, List, [], ◌∷◌, arith, ◌==◌, if◌then◌else◌}
use mydrivers.Kernel.{Result, ok}
use mydrivers.ProcFs.{
  ProcFs, create_all, remove_all, Listed, Distinct, NoneRefused, remove_all-create_all, foreign,
  entry-create_all-Listed, distinct-Distinct,
}
use mydrivers.Jit.Delay.{JitFile, current, busy, sched, queue, sched_to, timer, tasklet, tasklet_hi}

-- The numbers of `enum jit_files`
abbrev pub number : JitFile → ℕ
number current = 0
number busy = 1
number sched = 2
number queue = 3
number sched_to = 4
number timer = 5
number tasklet = 6
number tasklet_hi = 7

-- The functions of the table `jd`
pub data JitFn : Type 0 where
  jit_current jit_delay jit_timer jit_tasklet : JitFn

abbrev pub jd : List (JitFile × JitFn)
jd =
    (current, jit_current)
    ∷ (busy, jit_delay)
    ∷ (queue, jit_delay)
    ∷ (sched, jit_delay)
    ∷ (sched_to, jit_delay)
    ∷ (timer, jit_timer)
    ∷ (tasklet, jit_tasklet)
    ∷ (tasklet_hi, jit_tasklet)
    ∷ []

-- The loop of `proc_read`: the function that is called.
unfoldable pub proc_read_in : List (JitFile × JitFn) → (data_ : ℕ) → JitFn
proc_read_in [] data_ = jit_current
proc_read_in ((file, fn) ∷ table) data_ =
    if number file == data_ then fn else proc_read_in table data_

unfoldable pub proc_read : (data_ : ℕ) → JitFn
unfolding proc_read_in
proc_read data_ = proc_read_in jd data_

-- The entries of `jit_init`, which `jit_cleanup` removes in the same order.
abbrev pub files : List (String × ℕ)
files =
    ("jitcurrent", number current)
    ∷ ("jitbusy", number busy)
    ∷ ("jitsched", number sched)
    ∷ ("jitqueue", number queue)
    ∷ ("jitschedto", number sched_to)
    ∷ ("jitimer", number timer)
    ∷ ("jitasklet", number tasklet)
    ∷ ("jitasklethi", number tasklet_hi)
    ∷ []

unfoldable pub jit_init : (fs : ProcFs) → fs.Dir → Result ℕ × fs.Dir
unfolding create_all
jit_init fs d = (ok 0, create_all fs files d)

unfoldable pub jit_cleanup : (fs : ProcFs) → fs.Dir → fs.Dir
unfolding remove_all
jit_cleanup fs d = remove_all fs files d

-- The function that a file's name stands for.
abbrev purpose : JitFile → JitFn
purpose current = jit_current
purpose busy = jit_delay
purpose sched = jit_delay
purpose queue = jit_delay
purpose sched_to = jit_delay
purpose timer = jit_timer
purpose tasklet = jit_tasklet
purpose tasklet_hi = jit_tasklet

proc_read-number : (file : JitFile) → proc_read (number file) ≡ purpose file
unfolding proc_read
proc_read-number current = refl
proc_read-number busy = refl
proc_read-number sched = refl
proc_read-number queue = refl
proc_read-number sched_to = refl
proc_read-number timer = refl
proc_read-number tasklet = refl
proc_read-number tasklet_hi = refl

-- Another number than those of the table leads to `jit_current`.
proc_read_other : (data_ : ℕ) → 8 ≤ data_ → proc_read data_ ≡ jit_current
unfolding proc_read
proc_read_other data_ h = ground arith

files-Distinct : (fs : ProcFs) → Distinct fs files
files-Distinct fs = distinct-Distinct fs files refl

-- Where no creation is refused, each file's name leads, through its number and the table, to the
-- function that the name stands for.
jit_init-proc_read :
    (fs : ProcFs) (d : fs.Dir) (file : JitFile) (name : String)
    → NoneRefused fs
    → Listed fs name (number file) files
    → (fs.entry name (jit_init fs d).1 ≡ some (number file))
      × (proc_read (number file) ≡ purpose file)
unfolding jit_init
jit_init-proc_read fs d file name granted listed = (
  entry-create_all-Listed fs name (number file) files d granted (files-Distinct fs) listed,
  proc_read-number file,
)

-- Whatever creations are refused, the module loads, and a load followed by an unload leaves no entry
-- of its names, and the entries of all other names as they were.
pub jit_cleanup-jit_init :
    (fs : ProcFs) (d : fs.Dir) (name : String)
    → ((jit_init fs d).0 ≡ ok 0)
      × (fs.entry name (jit_cleanup fs (jit_init fs d).1)
          ≡ (if foreign fs name files then fs.entry name d else none))
unfolding jit_init jit_cleanup
jit_cleanup-jit_init fs d name = (refl, remove_all-create_all fs name files d)
