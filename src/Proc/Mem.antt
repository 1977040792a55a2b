-- ===== src/Proc/Mem.antt =====
-- `proc_read` of scull/proc.c: all devices printed into one buffer, and a part of it copied.
use mydrivers.Prelude.{
  ℕ, zero, suc, ◌+◌, ◌-◌, ◌*◌, ◌%◌, ◌^◌, ◌≤◌, Bool, Option, none, some, List, [], ◌∷◌, ltb, leb,
  ◌==◌, if◌then◌else◌, length, get_elem?, slice,
}
use mydrivers.Kernel.{erestartsys, efault, ok, err, fault, ◌>>=◌, Uaccess, Allocator, Mem, granted}
use mydrivers.Scull.Alloc.{release_block}
use mydrivers.Scull.Device.{Block, Qset, Dev, is_negative}
use mydrivers.Print.{sprintf_all, Reply, gives_up}

-- What the kernel prints: the line of the `i`-th device, that of a node, and that of a slot, in which
-- an address has 16 digits.
pub record MemLines : Type 0 where
  pub device_line : (i : ℕ) → Dev → List ℕ
  pub node_line : Qset → List ℕ
  pub slot_line : (j : ℕ) → Option Block → List ℕ
  pub slot_long : (j : ℕ) (b : Option Block) → 27 ≤ length (slot_line j b)

abbrev pub page_size : ℕ
page_size = 4096

abbrev pub max_pages : ℕ
max_pages = 20

-- A list of lines, once the rest is known; `none` where the code reads past an array.
abbrev pub above : List ℕ → Option (List (List ℕ)) → Option (List (List ℕ))
above line none = none
above line (some lines) = some (line ∷ lines)

-- The inner loop's bound is an `int`.
abbrev pub rounds_of : (qset : ℕ) → ℕ
rounds_of qset = if is_negative qset then 0 else qset

module _ (l : MemLines) where
  -- The inner loop, on the rounds left, from slot `j` on.
  unfoldable pub slot_lines : (rounds j : ℕ) → List (Option Block) → Option (List (List ℕ))
  slot_lines zero j slots = some []
  slot_lines (suc rounds) j slots = do
    b ← get_elem? slots j
    above (l.slot_line j b) (slot_lines rounds (suc j) slots)

  -- `if (qs->data && !qs->next)`
  abbrev pub last_lines : (qset : ℕ) → Option (List (Option Block)) → Option (List (List ℕ))
  last_lines qset none = some []
  last_lines qset (some slots) = slot_lines (rounds_of qset) 0 slots

  unfoldable pub node_lines : (qset : ℕ) → List Qset → Option (List (List ℕ))
  unfolding slot_lines
  node_lines qset [] = some []
  node_lines qset (q ∷ []) = above (l.node_line q) (last_lines qset q.data_)
  node_lines qset (q ∷ q' ∷ qs) = above (l.node_line q) (node_lines qset (q' ∷ qs))

  unfoldable pub device_lines : (i : ℕ) → Dev → Option (List (List ℕ))
  unfolding node_lines
  device_lines i d = above (l.device_line i d) (node_lines d.qset d.nodes)

-- How the loop over the devices ends: with the text, with a signal, or past the buffer or an array.
pub data Printed : Type 0 where
  text : List ℕ → Printed
  stopped : Printed
  overrun : Printed

abbrev pub goes_on : Option (List ℕ) → (List ℕ → Printed) → Printed
goes_on none f = overrun
goes_on (some t) f = f t

-- `down_interruptible` of the `i`-th device returns with a signal where `interrupted i` says so.
unfoldable pub print_devices :
    MemLines → (interrupted : ℕ → Bool) (i : ℕ) (t : List ℕ) → List Dev → Printed
unfolding sprintf_all device_lines
print_devices l interrupted i t [] = text t
print_devices l interrupted i t (d ∷ ds) =
    if interrupted i
    then stopped
    else goes_on (do lines ← device_lines l i d; sprintf_all (max_pages * page_size) t lines)
        (λ t'. print_devices l interrupted (suc i) t' ds)

module _ (u : Uaccess) (k : Allocator) (l : MemLines) (interrupted : ℕ → Bool) where
  -- The part of the text that `*ppos` and `count` ask for.
  unfoldable pub shown : List ℕ → (pos count : ℕ) → Mem → Reply
  shown t pos count m =
      let n = if ltb (length t) ((pos + count) % 2 ^ 64) then length t - pos else count in
      let bytes = slice t pos n in
      if leb (length t) pos
      then gives_up (ok 0) pos m
      else if leb (pos + n) (length t)
      then if u.copy_to_user bytes == 0
        then record { result = ok n; pos = pos + n; mem = release_block m; delivered = bytes }
        else gives_up (err efault) pos m
      else record { result = fault; pos = pos; mem = m; delivered = [] }

  abbrev after_printing : Printed → (pos count : ℕ) → Mem → Reply
  after_printing (text t) pos count m = shown t pos count m
  after_printing stopped pos count m = gives_up (err erestartsys) pos m
  after_printing overrun pos count m = record { result = fault; pos = pos; mem = m; delivered = [] }

  abbrev pub with_buffer : List Dev → (pos count : ℕ) → Mem → Option (List ℕ) → Reply
  with_buffer devs pos count m none = record { result = ok 0; pos = pos; mem = m; delivered = [] }
  with_buffer devs pos count m (some b) =
      after_printing (print_devices l interrupted 0 [] devs) pos count m

  unfoldable pub proc_read : List Dev → (pos count : ℕ) → Mem → Reply
  unfolding print_devices shown
  proc_read devs pos count m =
      let answer = k.kmalloc m.asked (max_pages * page_size) in
      with_buffer devs pos count (granted answer m) answer
