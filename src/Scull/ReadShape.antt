-- ===== src/Scull/ReadShape.antt =====
-- How a read of a well-formed device ends: with nothing, or in a copy from a quantum.
use mydrivers.Prelude.{
  ℕ, ◌+◌, ◌-◌, ◌≤◌, ◌<◌, ◌≡◌, refl, sym, ◌∙◌, ap, subst, Option, none, some, List, arith, length,
  get_or, drop, length-slice, get_or-take, get_or-drop, Bool-cases, inl, inr, leb, ◌==◌,
  if◌then◌else◌, slice, le→leb,
}
use mydrivers.Kernel.{ok, err, efault, Uaccess, Allocator, Mem}
use mydrivers.Scull.Device.{
  Block, Qset, Dev, Globals, Place, empty_qset, int_max, quantum_of, block_at, byte_of, locate,
}
use mydrivers.Scull.Follow.{scull_follow}
use mydrivers.Scull.Write.{Outcome}
use mydrivers.Scull.Read.{
  read_count, unread, deliver, read_slot, read_slots, read_node, read_locked,
}
use mydrivers.Scull.Invariant.{can_divide-valid, BlockIsFit, DataIsFit, IsValid, Grown, Grown-refl}
use mydrivers.Scull.Places.{InRange, s_pos-lt, q_pos-lt, locate_inside}
use mydrivers.Scull.Growth.{follow-Grown, follow_found}
use mydrivers.Scull.Quanta.{get_elem?-cases}
use mydrivers.Scull.Blocks.{load}

read_count-le :
    (left quantum q count : ℕ)
    → q < quantum
    → (q + read_count left quantum q count ≤ quantum)
      × (read_count left quantum q count ≤ count)
      × (read_count left quantum q count ≤ left)
unfolding read_count
read_count-le left quantum q count h = ground arith

module _ (u : Uaccess) (k : Allocator) (g : Globals) (d : Dev) (pos count left : ℕ) (m : Mem) where
  abbrev pub spot : Place
  spot = locate d.quantum d.qset pos

  -- How a read with the semaphore held ends: with nothing, or in a copy from a quantum.
  pub data ReadShape (o : Outcome) : Type 0 where
    nothing :
        (nodes : List Qset) (m' : Mem)
        → Grown d.quantum d.qset d.nodes m nodes m'
        → o ≡ unread u k d pos count left (ok 0) nodes m'
        → ReadShape o
    copied :
        (nodes : List Qset) (b : Block) (m' : Mem)
        → pos < d.size
        → spot.item < int_max
        → d.quantum ≤ length b
        → block_at nodes spot.item spot.s_pos ≡ some b
        → Grown d.quantum d.qset d.nodes m nodes m'
        → o ≡ deliver u k d pos count left b spot.q_pos nodes m'
        → ReadShape o

module _ (u : Uaccess) (k : Allocator) (g : Globals) (d : Dev) (pos count left : ℕ) (m : Mem)
    (v : IsValid k g d) where
  abbrev pub here : Place
  here = locate d.quantum d.qset pos

  slot_Shape :
      (nodes : List Qset) (m' : Mem) (slots : List (Option Block)) (o : Option Block)
      → pos < d.size
      → here.item < int_max
      → Grown d.quantum d.qset d.nodes m nodes m'
      → (get_or nodes here.item empty_qset).data_ ≡ some slots
      → get_or slots here.s_pos none ≡ o
      → ReadShape u k g d pos count left m (read_slot u k d pos count left here nodes (some o) m')
  slot_Shape nodes m' slots none lt small grown e at = nothing nodes m' grown refl
  slot_Shape nodes m' slots (some b) lt small grown e at =
      let fit : DataIsFit d.quantum d.qset (some slots) =
        subst (DataIsFit d.quantum d.qset) e (grown.fit v.nodes_fit here.item) in
      copied nodes b m' lt small (subst (BlockIsFit d.quantum) at (fit.1 here.s_pos))
        (subst (λ o. quantum_of (record { data_ = o }) here.s_pos ≡ some b) (sym e) at) grown refl

  slots_Shape :
      (nodes : List Qset) (m' : Mem) (o : Option (List (Option Block)))
      → pos < d.size
      → here.item < int_max
      → Grown d.quantum d.qset d.nodes m nodes m'
      → (get_or nodes here.item empty_qset).data_ ≡ o
      → ReadShape u k g d pos count left m (read_slots u k d pos count left here nodes o m')
  slots_Shape nodes m' none lt small grown e = nothing nodes m' grown refl
  slots_Shape nodes m' (some slots) lt small grown e = elim (get_elem?-cases slots here.s_pos) [
    | inl (_, le) ↦
        let fit : DataIsFit d.quantum d.qset (some slots) =
          subst (DataIsFit d.quantum d.qset) e (grown.fit v.nodes_fit here.item) in
        absurd (omega (arith, fit.0, s_pos-lt d.quantum d.qset v.quantum_pos v.qset_pos pos))
    | inr (at, _) ↦
        rw at (slot_Shape nodes m' slots (get_or slots here.s_pos none) lt small grown e refl)
  ]

  node_Shape :
      (o : Option ℕ) (nodes : List Qset) (m' : Mem)
      → pos < d.size
      → Grown d.quantum d.qset d.nodes m nodes m'
      → ((i : ℕ) → o ≡ some i → (i ≡ here.item) × (here.item < int_max))
      → ReadShape u k g d pos count left m (read_node u k d pos count left here (o, nodes, m'))
  node_Shape none nodes m' lt grown found = nothing nodes m' grown refl
  node_Shape (some i) nodes m' lt grown found =
      let (same, small) = found i refl in rw same (slots_Shape nodes m' _ lt small grown refl)

  pub read_locked-Shape : ReadShape u k g d pos count left m (read_locked u k d pos count left m)
  unfolding read_locked
  read_locked-Shape = elim (Bool-cases (leb d.size pos)) [
    | inl end ↦ rw end (nothing d.nodes m (Grown-refl d.nodes m) refl)
    | inr more ↦
        let f = scull_follow k d.nodes here.item m in
        rw (more, can_divide-valid v)
          (node_Shape f.0 f.1 f.2 (ground arith) (follow-Grown k d.nodes here.item m)
            (λ i e. let f = follow_found k d.nodes here.item m e in (f.0, f.1)))
  ]

  -- What the copy from a quantum tells and delivers.
  module _ (nodes : List Qset) (b : Block) (m' : Mem) (lt : pos < d.size)
      (enough : d.quantum ≤ length b) (at : block_at nodes here.item here.s_pos ≡ some b)
      (grown : Grown d.quantum d.qset d.nodes m nodes m') where
    abbrev pub amount : ℕ
    amount = read_count left d.quantum here.q_pos count

    abbrev pub bytes : List ℕ
    bytes = slice b here.q_pos amount

    pub bounds : (here.q_pos + amount ≤ d.quantum) × (amount ≤ count) × (amount ≤ left)
    bounds =
        read_count-le left d.quantum here.q_pos count
          (q_pos-lt d.quantum d.qset v.quantum_pos v.qset_pos pos)

    pub bytes-length : length bytes ≡ amount
    bytes-length = length-slice b here.q_pos amount (omega (arith, bounds))

    pub bytes-load :
        (i : ℕ) → InRange d.quantum d.qset pos → i < amount → get_or bytes i 0 ≡ load d (pos + i)
    bytes-load i hp hi =
        let inside =
          locate_inside d.quantum d.qset v.quantum_pos v.qset_pos pos (pos + i) hp (omega arith)
            (omega (arith, bounds)) in
        rw inside (
          get_or-take amount (drop here.q_pos b) i 0 hi
          ∙ get_or-drop here.q_pos b i 0
          ∙ ap (λ j. get_or b j 0) (omega arith)
          ∙ sym (ap (λ c. byte_of c (here.q_pos + (pos + i - pos))) at)
          ∙ grown.same here.item here.s_pos (here.q_pos + (pos + i - pos)) (omega (arith, bounds)))

    pub deliver_lem : deliver u k d pos count left b here.q_pos nodes m' ≡ (
        if u.copy_to_user bytes == 0
        then record {
          result = ok amount;
          pos = pos + amount;
          dev = record d { nodes = nodes };
          mem = m';
          delivered = bytes;
        }
        else unread u k d pos count left (err efault) nodes m')
    unfolding deliver
    deliver_lem = rw (le→leb (here.q_pos + amount) (length b) (omega (arith, bounds)))
