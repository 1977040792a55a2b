-- ===== src/Jiq/Files.antt =====
-- The table `jd` of jiq.c, `proc_read`, and the module's init and exit function.
use Prim.Native.String.{String}
use mydrivers.Prelude.{ℕ, ◌≡◌, refl, none, some, List, [], ◌∷◌, ◌==◌, if◌then◌else◌}
use mydrivers.Kernel.{Result, ok, Uaccess, Allocator, Mem}
use mydrivers.Rounds.{Lines}
use mydrivers.Jiq.Work.{jit_wq, jit_wq_delay, Outcome, jiq_wq}
use mydrivers.ProcFs.{
  ProcFs, create_all, remove_all, Listed, NoneRefused, remove_all-create_all, foreign,
  entry-create_all-Listed, distinct-Distinct,
}

-- A function of the table, called with the number of the file.
abbrev JiqFn : Type 0
JiqFn = (data_ pos j : ℕ) (js : List ℕ) → Mem → Outcome

module _ (u : Uaccess) (k : Allocator) (p : Lines) where
  abbrev pub jd : List (ℕ × JiqFn)
  jd = (jit_wq, jiq_wq u k p) ∷ (jit_wq_delay, jiq_wq u k p) ∷ []

  -- The loop of `proc_read`, which calls `jiq_wq` also where no file has the number.
  unfoldable pub proc_read_in : List (ℕ × JiqFn) → JiqFn
  proc_read_in [] data_ = jiq_wq u k p data_
  proc_read_in ((file, fn) ∷ table) data_ =
      if file == data_ then fn data_ else proc_read_in table data_

  unfoldable pub proc_read : JiqFn
  unfolding proc_read_in
  proc_read data_ = proc_read_in jd data_

-- The entries of `jiq_init`, which `jiq_cleanup` removes in the same order.
abbrev pub files : List (String × ℕ)
files = ("jiqwq", jit_wq) ∷ ("jiqwqdelay", jit_wq_delay) ∷ []

unfoldable jiq_init : (fs : ProcFs) → fs.Dir → Result ℕ × fs.Dir
unfolding create_all
jiq_init fs d = (ok 0, create_all fs files d)

unfoldable jiq_cleanup : (fs : ProcFs) → fs.Dir → fs.Dir
unfolding remove_all
jiq_cleanup fs d = remove_all fs files d

-- Where no creation is refused, each file's name leads to its number.
jiq_init-entry :
    (fs : ProcFs) (d : fs.Dir) (name : String) (n : ℕ)
    → NoneRefused fs
    → Listed fs name n files
    → fs.entry name (jiq_init fs d).1 ≡ some n
unfolding jiq_init
jiq_init-entry fs d name n granted listed =
    entry-create_all-Listed fs name n files d granted (distinct-Distinct fs files refl) listed

-- Whatever creations are refused, the module loads, and a load followed by an unload leaves no entry
-- of its names, and the entries of all other names as they were.
jiq_cleanup-jiq_init :
    (fs : ProcFs) (d : fs.Dir) (name : String)
    → ((jiq_init fs d).0 ≡ ok 0)
      × (fs.entry name (jiq_cleanup fs (jiq_init fs d).1)
          ≡ (if foreign fs name files then fs.entry name d else none))
unfolding jiq_init jiq_cleanup
jiq_cleanup-jiq_init fs d name = (refl, remove_all-create_all fs name files d)
