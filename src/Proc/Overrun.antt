-- ===== src/Proc/Overrun.antt =====
-- When the text of /proc/scullmem does not fit the buffer.
use mydrivers.Prelude.{
  ℕ, zero, suc, ◌+◌, ◌*◌, ◌≤◌, ◌<◌, ◌≡◌, inl, inr, refl, arith, Bool, false, Option, none, some,
  List, [], ◌∷◌, ◌++◌, Bool-cases, length, get_elem?, length-append, ltb, ltb→lt, ltb→le,
}
use mydrivers.Kernel.{fault, ◌>>=◌, Uaccess, Allocator, Mem}
use mydrivers.Scull.Device.{Block, Qset, Dev}
use mydrivers.Print.{sprintf_all, sprintf_all_lem, sprintf_all_overflow, joined}
use mydrivers.Proc.Mem.{
  MemLines, max_pages, page_size, above, slot_lines, rounds_of, last_lines, node_lines,
  device_lines, Printed, overrun, goes_on, print_devices, proc_read,
}

-- The slots that the file shows: those of each device's last array.
abbrev slots_of : (qset : ℕ) → List Qset → ℕ
slots_of qset [] = 0
slots_of qset (q ∷ []) = elim q.data_ [ none ↦ 0 | some _ ↦ qset ]
slots_of qset (q ∷ q' ∷ qs) = slots_of qset (q' ∷ qs)

abbrev slots_shown : List Dev → ℕ
slots_shown [] = 0
slots_shown (d ∷ ds) = slots_of (rounds_of d.qset) d.nodes + slots_shown ds

-- What is printed has at least `n` bytes.
AtLeast : (n : ℕ) → Option (List (List ℕ)) → Type 0
AtLeast n none = Unit
AtLeast n (some lines) = n ≤ length (joined lines)

above-AtLeast :
    (n : ℕ) (line : List ℕ) (o : Option (List (List ℕ)))
    → AtLeast n o
    → AtLeast (length line + n) (above line o)
unfolding AtLeast
above-AtLeast n line none h = tt
above-AtLeast n line (some lines) h = omega (arith, length-append line (joined lines))

weaker : (n k : ℕ) (o : Option (List (List ℕ))) → k ≤ n → AtLeast n o → AtLeast k o
unfolding AtLeast
weaker n k none le h = tt
weaker n k (some lines) le h = omega arith

module _ (l : MemLines) where
  slot_above :
      (n j : ℕ) (b : Option (Option Block)) (rest : Option (List (List ℕ)))
      → AtLeast n rest
      → AtLeast (27 + n) (b >>= (λ x. above (l.slot_line j x) rest))
  unfolding AtLeast
  slot_above n j none rest h = tt
  slot_above n j (some x) rest h =
      weaker (length (l.slot_line j x) + n) (27 + n) (above (l.slot_line j x) rest)
        (omega (arith, l.slot_long j x)) (above-AtLeast n (l.slot_line j x) rest h)

  slot_lines-AtLeast :
      (rounds j : ℕ) (slots : List (Option Block))
      → AtLeast (27 * rounds) (slot_lines l rounds j slots)
  unfolding slot_lines AtLeast
  slot_lines-AtLeast zero j slots = omega arith
  slot_lines-AtLeast (suc rounds) j slots =
      let rest = slot_lines-AtLeast rounds (suc j) slots in
      let both =
        slot_above (27 * rounds) j (get_elem? slots j) (slot_lines l rounds (suc j) slots) rest in
      weaker (27 + 27 * rounds) (27 * suc rounds) (slot_lines l (suc rounds) j slots) (omega arith)
        both

  node_lines-AtLeast :
      (qset : ℕ) (qs : List Qset)
      → AtLeast (27 * slots_of (rounds_of qset) qs) (node_lines l qset qs)
  unfolding node_lines AtLeast
  node_lines-AtLeast qset [] = omega arith
  node_lines-AtLeast qset (q ∷ []) = last (l.node_line q) q.data_
    where
      last :
          (line : List ℕ) (o : Option (List (Option Block)))
          → AtLeast
              (27 * elim o [ none ↦ 0 | some _ ↦ rounds_of qset ])
              (above line (last_lines l qset o))
      last line none = omega arith
      last line (some slots) =
          weaker (length line + 27 * rounds_of qset) (27 * rounds_of qset)
            (above line (slot_lines l (rounds_of qset) 0 slots)) (omega arith)
            (above-AtLeast (27 * rounds_of qset) line (slot_lines l (rounds_of qset) 0 slots)
              (slot_lines-AtLeast (rounds_of qset) 0 slots))
  node_lines-AtLeast qset (q ∷ q' ∷ qs) =
      let n = 27 * slots_of (rounds_of qset) (q' ∷ qs) in
      let o = node_lines l qset (q' ∷ qs) in
      weaker (length (l.node_line q) + n) n (above (l.node_line q) o) (omega arith)
        (above-AtLeast n (l.node_line q) o (node_lines-AtLeast qset (q' ∷ qs)))

  -- A device's lines either run past the buffer, or leave a text that is longer by them.
  device_overruns :
      (n : ℕ) (line t : List ℕ) (o : Option (List (List ℕ))) (f : List ℕ → Printed)
      → AtLeast n o
      → ((t' : List ℕ)
          → length t' < max_pages * page_size
          → length t + n ≤ length t'
          → f t' ≡ overrun)
      → goes_on (do lines ← above line o; sprintf_all (max_pages * page_size) t lines) f ≡ overrun
  unfolding AtLeast
  device_overruns n line t none f h next = refl
  device_overruns n line t (some lines) f h next =
      let size = max_pages * page_size in
      let long = length-append line (joined lines) in
      let grown = length-append t (joined (line ∷ lines)) in
      elim (Bool-cases (ltb (length t + length (joined (line ∷ lines))) size)) [
        | inl e ↦
            let fits = ltb→lt (length t + length (joined (line ∷ lines))) size e in
            rw (sprintf_all_lem size t (line ∷ lines) (omega arith))
              (next (t ++ joined (line ∷ lines)) (omega arith) (omega arith))
        | inr e ↦
            let past = ltb→le (length t + length (joined (line ∷ lines))) size e in
            rw (sprintf_all_overflow size t line lines (omega arith)) refl
      ]

  print_devices-overrun :
      (interrupted : ℕ → Bool) (i : ℕ) (t : List ℕ) (devs : List Dev)
      → ((j : ℕ) → interrupted j ≡ false)
      → length t < max_pages * page_size
      → max_pages * page_size ≤ length t + 27 * slots_shown devs
      → print_devices l interrupted i t devs ≡ overrun
  unfolding print_devices device_lines
  print_devices-overrun interrupted i t [] never below above_ = absurd (omega arith)
  print_devices-overrun interrupted i t (d ∷ ds) never below total =
      let n = slots_of (rounds_of d.qset) d.nodes in
      rw (never i) (
        device_overruns (27 * n) (l.device_line i d) t (node_lines l d.qset d.nodes)
          (λ t'. print_devices l interrupted (suc i) t' ds) (node_lines-AtLeast d.qset d.nodes)
          (λ t' below' longer.
            print_devices-overrun interrupted (suc i) t' ds never below' (omega arith)))

-- Where the buffer is granted, no signal comes, and the devices' last arrays have 3035 slots
-- altogether, or more, a read of /proc/scullmem runs past the end of the buffer (or of an array
-- that has fewer slots than the device says).
pub proc_read-overrun :
    (u : Uaccess) (k : Allocator) (l : MemLines) (interrupted : ℕ → Bool) (devs : List Dev)
    (pos count : ℕ) (m : Mem) (b : List ℕ)
    → k.kmalloc m.asked (max_pages * page_size) ≡ some b
    → ((j : ℕ) → interrupted j ≡ false)
    → 3035 ≤ slots_shown devs
    → (proc_read u k l interrupted devs pos count m).result ≡ fault
unfolding proc_read
proc_read-overrun u k l interrupted devs pos count m b got never many =
    rw got
      (rw (print_devices-overrun l interrupted 0 [] devs never (omega arith) (omega arith)) refl)
