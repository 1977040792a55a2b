-- ===== src/Scull/FullRead.antt =====
-- A read of a place that has a quantum delivers what is asked of it, up to the quantum's end.
use mydrivers.Prelude.{
  ℕ, zero, suc, ◌+◌, ◌-◌, ◌≤◌, ◌<◌, ◌≡◌, refl, ◌∙◌, ap, subst, true, false, Option, none, some,
  List, [], ◌∷◌, arith, length, get_or, get_elem?, get_or_past, leb, ltb, Bool-cases, Option-cases,
  inl, inr,
}
use mydrivers.Kernel.{ok, Uaccess, Allocator, Mem}
use mydrivers.Scull.Device.{
  Block, Qset, Dev, Globals, Place, empty_qset, int_max, is_negative, block_at, quantum_of, locate,
}
use mydrivers.Scull.Follow.{walk, ensure_head, scull_follow}
use mydrivers.Scull.Read.{left_at, read_count, deliver, read_locked, scull_read}
use mydrivers.Scull.Invariant.{can_divide-valid, IsValid, Grown-refl}
use mydrivers.Scull.Places.{InRange, item-lt}
use mydrivers.Scull.Quanta.{get_elem?-cases}
use mydrivers.Scull.ReadShape.{bytes, deliver_lem}

module _ (k : Allocator) where
  -- A walk within the list asks for nothing.
  walk_within : (n : ℕ) (qs : List Qset) (m : Mem) → n ≤ length qs → walk k n qs m ≡ (true, qs, m)
  unfolding walk
  walk_within zero qs m h = refl
  walk_within (suc n) [] m h = absurd (omega arith)
  walk_within (suc n) (q ∷ qs) m h = rw (walk_within n qs m (omega arith))

  ensure_head_within :
      (qs : List Qset) (m : Mem) → 0 < length qs → ensure_head k qs m ≡ (true, qs, m)
  unfolding ensure_head
  ensure_head_within [] m h = absurd (omega arith)
  ensure_head_within (q ∷ qs) m h = refl

  follow_within :
      (qs : List Qset) (item : ℕ) (m : Mem)
      → item < int_max
      → item < length qs
      → scull_follow k qs item m ≡ (some item, qs, m)
  unfolding scull_follow
  follow_within qs item m small h =
      let nonneg : is_negative item ≡ false = ground arith in
      rw (ensure_head_within qs m (omega arith), nonneg)
        (rw (walk_within (item + 1) qs m (omega arith)))

node_within :
    (nodes : List Qset) (i s : ℕ) (b : Block) → block_at nodes i s ≡ some b → i < length nodes
node_within nodes i s b h = elim (Bool-cases (ltb i (length nodes))) [
  | inl e ↦ ground arith
  | inr e ↦ absurd (ground (arith, get_or_past nodes i empty_qset))
]

read_count-full :
    (left quantum q count : ℕ)
    → count ≤ left
    → q + count ≤ quantum
    → read_count left quantum q count ≡ count
unfolding read_count
read_count-full left quantum q count h h' = ground arith

-- A slot that holds a quantum is found by `get_elem?`.
pub slot_found :
    (nodes : List Qset) (i s : ℕ) (b : Block)
    → block_at nodes i s ≡ some b
    → (slots : List (Option Block)) × ((get_or nodes i empty_qset).data_ ≡ some slots)
      × (get_elem? slots s ≡ some (some b))
slot_found nodes i s b h = elim (Option-cases (get_or nodes i empty_qset).data_) [
  | inl e ↦ absurd (ground arith)
  | inr (slots, e) ↦
      (slots, e, found slots (subst (λ o. quantum_of (record { data_ = o }) s ≡ some b) e h))
]
  where
    found :
        (slots : List (Option Block))
        → get_or slots s none ≡ some b
        → get_elem? slots s ≡ some (some b)
    found slots g = elim (get_elem?-cases slots s) [
      | inl (_, le) ↦ absurd (ground (arith, get_or_past slots s none))
      | inr (e, _) ↦ e ∙ ap some g
    ]

module _ (u : Uaccess) (k : Allocator) (g : Globals) (d : Dev) (pos count : ℕ) (m : Mem)
    (v : IsValid k g d) (in_range : InRange d.quantum d.qset pos) (b : Block) where
  abbrev here : Place
  here = locate d.quantum d.qset pos

  -- A read of a quantum that is there asks the allocator for nothing.
  pub read_block :
      pos < d.size
      → block_at d.nodes here.item here.s_pos ≡ some b
      → scull_read u k d pos count false m
        ≡ deliver u k d pos count (left_at d.size pos) b here.q_pos d.nodes m
  unfolding scull_read read_locked
  read_block lt at =
      let (slots, data_at, slot_at) = slot_found d.nodes here.item here.s_pos b at in
      let more : leb d.size pos ≡ false = ground arith in
      rw (more, can_divide-valid v)
        (rw
          (follow_within k d.nodes here.item m
            (item-lt d.quantum d.qset v.quantum_pos v.qset_pos pos in_range)
            (node_within d.nodes here.item here.s_pos b at))
          (rw data_at (rw slot_at)))

  -- Where no copy fails, it returns the whole count that the size and the quantum allow.
  pub read_full :
      pos < d.size
      → block_at d.nodes here.item here.s_pos ≡ some b
      → d.quantum ≤ length b
      → ((l : List ℕ) → u.copy_to_user l ≡ 0)
      → count ≤ d.size - pos
      → here.q_pos + count ≤ d.quantum
      → (scull_read u k d pos count false m).result ≡ ok count
  read_full lt at enough clean size_left quantum_left =
      let grown = Grown-refl {quantum = d.quantum} {qset = d.qset} d.nodes m in
      let l = bytes u k g d pos count (left_at d.size pos) m v d.nodes b m lt enough at grown in
      let full : read_count (left_at d.size pos) d.quantum here.q_pos count ≡ count =
        read_count-full (left_at d.size pos) d.quantum here.q_pos count (ground arith)
          quantum_left in
      rw (read_block lt at) (
        rw (deliver_lem u k g d pos count (left_at d.size pos) m v d.nodes b m lt enough at grown)
          (ground (arith, clean l, full)))
