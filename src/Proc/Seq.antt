-- ===== src/Proc/Seq.antt =====
-- The iterator of /proc/scullseq, and the entries that `scull_create_proc` makes.
use Prim.Native.String.{String}
use mydrivers.Prelude.{
  ℕ, zero, suc, ◌+◌, ◌-◌, ◌<◌, ◌≡◌, refl, ap, arith, Bool, Option, none, some, List, [], ◌∷◌,
  if◌then◌else◌, leb, le→leb, gt→leb, get_elem?,
}
use mydrivers.Kernel.{erestartsys, Result, ok, err, fault, ◌>>=◌}
use mydrivers.Scull.Device.{Block, Qset, Dev}
use mydrivers.Print.{joined}
use mydrivers.ProcFs.{ProcFs, create_all, remove_all, foreign, remove_all-create_all}
use mydrivers.Proc.Mem.{above, rounds_of}

-- The device at a position, by its index in `scull_devices`; `none` is the null pointer that ends the
-- walk. `scull_seq_next` gives the new position too.
unfoldable pub scull_seq_start : (scull_nr_devs pos : ℕ) → Option ℕ
scull_seq_start scull_nr_devs pos = if leb scull_nr_devs pos then none else some pos

unfoldable scull_seq_next : (scull_nr_devs pos : ℕ) → Option ℕ × ℕ
scull_seq_next scull_nr_devs pos =
    (if leb scull_nr_devs (pos + 1) then none else some (pos + 1), pos + 1)

-- What the kernel prints for a device, a node, and a slot that holds a quantum.
pub record SeqLines : Type 0 where
  pub device_line : (i : ℕ) → Dev → List ℕ
  pub node_line : Qset → List ℕ
  pub slot_line : (j : ℕ) → Block → List ℕ

module _ (l : SeqLines) where
  abbrev slot_text : (j : ℕ) → Option Block → List (List ℕ) → List (List ℕ)
  slot_text j none lines = lines
  slot_text j (some b) lines = l.slot_line j b ∷ lines

  -- The inner loop, on the rounds left, from slot `j` on; `none` past the end of the array.
  unfoldable pub slot_lines : (rounds j : ℕ) → List (Option Block) → Option (List (List ℕ))
  slot_lines zero j slots = some []
  slot_lines (suc rounds) j slots = do
    b ← get_elem? slots j
    lines ← slot_lines rounds (suc j) slots
    some (slot_text j b lines)

  abbrev pub last_lines : (qset : ℕ) → Option (List (Option Block)) → Option (List (List ℕ))
  last_lines qset none = some []
  last_lines qset (some slots) = slot_lines (rounds_of qset) 0 slots

  unfoldable pub node_lines : (qset : ℕ) → List Qset → Option (List (List ℕ))
  unfolding slot_lines
  node_lines qset [] = some []
  node_lines qset (q ∷ []) = above (l.node_line q) (last_lines qset q.data_)
  node_lines qset (q ∷ q' ∷ qs) = above (l.node_line q) (node_lines qset (q' ∷ qs))

  abbrev pub shows : Option (List (List ℕ)) → Result ℕ × List ℕ
  shows none = (fault, [])
  shows (some lines) = (ok 0, joined lines)

  -- The `i`-th device, and what `seq_printf` gets.
  unfoldable scull_seq_show : (interrupted : Bool) (i : ℕ) → Dev → Result ℕ × List ℕ
  unfolding node_lines
  scull_seq_show interrupted i d =
      if interrupted
      then (err erestartsys, [])
      else shows (above (l.device_line i d) (node_lines d.qset d.nodes))

-- `start`, and `next` until the null pointer, as the interface of seq_file has them called: the
-- devices that are shown. Out of fuel it is `none`.
abbrev visited : ℕ → Option (List ℕ) → Option (List ℕ)
visited i none = none
visited i (some is) = some (i ∷ is)

unfoldable pub walk : (scull_nr_devs fuel : ℕ) → Option ℕ → (pos : ℕ) → Option (List ℕ)
unfolding scull_seq_next
walk n zero at pos = none
walk n (suc fuel) none pos = some []
walk n (suc fuel) (some i) pos =
    let (at, pos') = scull_seq_next n pos in visited i (walk n fuel at pos')

-- The numbers from `i` on, `k` of them.
abbrev pub numbers : (i k : ℕ) → List ℕ
numbers i zero = []
numbers i (suc k) = i ∷ numbers (suc i) k

walk_from :
    (n k fuel pos : ℕ)
    → n - pos ≡ k
    → k < fuel
    → walk n fuel (scull_seq_start n pos) pos ≡ some (numbers pos k)
unfolding walk scull_seq_start scull_seq_next
walk_from n k zero pos e h = absurd (omega arith)
walk_from n zero (suc fuel) pos e h = rw (le→leb n pos (omega arith)) refl
walk_from n (suc k) (suc fuel) pos e h =
    let one : pos + 1 ≡ suc pos = omega arith in
    let rest = walk_from n k fuel (suc pos) (omega arith) (omega arith) in
    rw (gt→leb n pos (omega arith)) (rw one (ap (visited pos) rest))

-- From every position the walk of /proc/scullseq ends, and shows each device from there on, once and
-- in order, and none where the position is past the end: as many steps as there are devices, and
-- one more, are enough.
pub walk_lem :
    (n fuel pos : ℕ)
    → n < fuel
    → walk n fuel (scull_seq_start n pos) pos ≡ some (numbers pos (n - pos))
walk_lem n fuel pos h = walk_from n (n - pos) fuel pos refl (omega arith)

-- The entries by name; the number stands for the operations behind the name.
abbrev pub files : List (String × ℕ)
files = ("scullmem", 0) ∷ ("scullseq", 1) ∷ []

-- An entry that is not made is only reported.
unfoldable pub scull_create_proc : (fs : ProcFs) → fs.Dir → fs.Dir
unfolding create_all
scull_create_proc fs d = create_all fs files d

unfoldable pub scull_remove_proc : (fs : ProcFs) → fs.Dir → fs.Dir
unfolding remove_all
scull_remove_proc fs d = remove_all fs files d

-- Whatever creations are refused, making the entries and removing them leaves none of their names, and
-- the entries of all other names as they were.
scull_remove_proc-scull_create_proc :
    (fs : ProcFs) (d : fs.Dir) (name : String)
    → fs.entry name (scull_remove_proc fs (scull_create_proc fs d))
      ≡ (if foreign fs name files then fs.entry name d else none)
unfolding scull_create_proc scull_remove_proc
scull_remove_proc-scull_create_proc fs d name = remove_all-create_all fs name files d
