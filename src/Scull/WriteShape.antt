-- ===== src/Scull/WriteShape.antt =====
-- How a write to a well-formed device ends: refused by an allocator, or with a copy into a quantum.
use mydrivers.Prelude.{
  ℕ, ◌≤◌, ◌<◌, ◌≡◌, refl, sym, ◌∙◌, subst, Option, none, some, List, arith, length, get_or, set,
  get_or-set_self, get_or-set_ne, length-set, ◌≢◌,
}
use native.Mathlib.Decide.{ℕ_discrete}
use mydrivers.Kernel.{err, enomem, Uaccess, Allocator, Mem}
use mydrivers.Scull.Device.{
  Block, Qset, Dev, Globals, Place, empty_qset, int_max, quantum_of, byte_of, locate,
}
use mydrivers.Scull.Alloc.{Grant, block, null, crash}
use mydrivers.Scull.Follow.{scull_follow}
use mydrivers.Scull.Write.{
  Outcome, ensure_slots, ensure_quantum, fill, put_slots, stopped, written, write_block,
  write_slots, write_node, write_locked,
}
use mydrivers.Scull.Invariant.{
  can_divide-valid, NodesAreFit, BlockIsFit, IsValid, Grown, Grown-trans, put-Grown,
}
use mydrivers.Scull.Places.{s_pos-lt}
use mydrivers.Scull.Growth.{follow-Grown, follow_found}
use mydrivers.Scull.Arrays.{Prepared, ensure_slots-Prepared, ensure_slots-none}
use mydrivers.Scull.Quanta.{
  Ready, ensure_quantum-Ready, ensure_quantum-ne-crash, ensure_quantum-null,
}

-- `data[s]` becomes `b` in the array of node `i`.
abbrev pub with_block : List Qset → ℕ → List (Option Block) → ℕ → Block → List Qset
with_block nodes i slots s b = put_slots nodes i (set slots s (some b))

module _ (u : Uaccess) (k : Allocator) (g : Globals) (d : Dev) (pos : ℕ) (src : List ℕ)
    (m : Mem) where
  abbrev place : Place
  place = locate d.quantum d.qset pos

  -- The copy into block `b`, and what follows it.
  abbrev pub after_copy : List Qset → List (Option Block) → Block → Mem → Outcome
  after_copy nodes slots b m' =
      let r = fill u d.quantum b place.q_pos src in
      written u k g d pos src r.0 (with_block nodes place.item slots place.s_pos r.1) m'

  pub data Shape (o : Outcome) : Type 0 where
    refused :
        (nodes : List Qset) (m' : Mem)
        → Grown d.quantum d.qset d.nodes m nodes m'
        → o ≡ stopped u k g d pos src (err enomem) nodes m'
        → Shape o
    copied :
        (nodes : List Qset) (slots : List (Option Block)) (b : Block) (m' : Mem)
        → place.item < int_max
        → place.item < length nodes
        → place.s_pos < length slots
        → d.quantum ≤ length b
        → Grown d.quantum d.qset d.nodes m (with_block nodes place.item slots place.s_pos b) m'
        → o ≡ after_copy nodes slots b m'
        → Shape o

-- A property of every slot carries over to the array with a new quantum.
set_all :
    (slots : List (Option Block)) (s : ℕ) (b : Block)
    → s < length slots
    → (P : ℕ → Option Block → Type 0) → P s (some b)
    → ((j : ℕ) → P j (get_or slots j none))
    → (j : ℕ) → P j (get_or (set slots s (some b)) j none)
set_all slots s b lt P new old j = elim (ℕ_discrete s j) [
  | yes e ↦
      subst (λ k. P k (get_or (set slots s (some b)) k none)) e
        (subst (P s) (sym (get_or-set_self slots s (some b) none lt)) new)
  | no ne ↦ subst (P j) (sym (get_or-set_ne slots s j (some b) none ne)) (old j)
]

module _ (k : Allocator) (g : Globals) (d : Dev) (nodes : List Qset) (i : ℕ)
    (within : i < length nodes) where
  abbrev node_data : Option (List (Option Block))
  node_data = (get_or nodes i empty_qset).data_

  -- The node's array is there, and no quantum was got.
  slots-Grown :
      {m₁ m₂ m₃ : Mem} (slots : List (Option Block))
      → Prepared d.quantum d.qset node_data m₁ slots m₂
      → m₃.live ≡ m₂.live
      → Grown d.quantum d.qset nodes m₁ (put_slots nodes i slots) m₃
  slots-Grown {m₁} {m₂} {m₃} slots p e =
      put-Grown nodes i slots within d.quantum d.qset m₁ m₃ p.reads (λ f. p.fits (f i))
        (omega (arith, p.costs))

  -- The array and the quantum are there.
  block-Grown :
      {m₁ m₂ m₃ : Mem} (slots : List (Option Block)) (s : ℕ) (b : Block)
      → NodesAreFit d.quantum d.qset nodes
      → Prepared d.quantum d.qset node_data m₁ slots m₂
      → Ready k g d slots s m₂ b m₃
      → Grown d.quantum d.qset nodes m₁ (with_block nodes i slots s b) m₃
  block-Grown {m₁} {m₂} {m₃} slots s b ok_nodes p r =
      put-Grown nodes i (set slots s (some b)) within d.quantum d.qset m₁ m₃
        (λ s' q lt.
          set_all slots s b r.within
            (λ j c. byte_of c q ≡ byte_of (quantum_of (get_or nodes i empty_qset) j) q)
            (r.bytes q lt ∙ p.reads s q lt) (λ j. p.reads j q lt) s')
        (λ _. (
          length-set slots s (some b) ∙ (p.fits (ok_nodes i)).0,
          set_all slots s b r.within (λ j c. BlockIsFit d.quantum c)
              (r.enough (p.fits (ok_nodes i)).1) (p.fits (ok_nodes i)).1,
        ))
        (omega (arith, p.costs, r.costs))

module _ (u : Uaccess) (k : Allocator) (g : Globals) (d : Dev) (pos : ℕ) (src : List ℕ) (m : Mem)
    (v : IsValid k g d) where
  abbrev spot : Place
  spot = locate d.quantum d.qset pos

  module _ (nodes : List Qset) (m₁ : Mem) (grown : Grown d.quantum d.qset d.nodes m nodes m₁)
      (small : spot.item < int_max) (within : spot.item < length nodes) where
    block_Shape :
        (slots : List (Option Block)) (m₂ : Mem)
        → Prepared d.quantum d.qset (get_or nodes spot.item empty_qset).data_ m₁ slots m₂
        → (r : Grant) (m₃ : Mem) → (r ≡ null → m₃.live ≡ m₂.live)
        → r ≢ crash
        → ((b : Block) → r ≡ block b → Ready k g d slots spot.s_pos m₂ b m₃)
        → Shape u k g d pos src m (write_block u k g d pos src spot nodes slots (r, m₃))
    block_Shape slots m₂ p null m₃ cost safe got =
        refused (put_slots nodes spot.item slots) m₃
          (Grown-trans grown (slots-Grown k g d nodes spot.item within slots p (cost refl))) refl
    block_Shape slots m₂ p crash m₃ cost safe got = absurd (safe refl)
    block_Shape slots m₂ p (block b) m₃ cost safe got =
        let r = got b refl in
        let fit = grown.fit v.nodes_fit in
        copied nodes slots b m₃ small within r.within (r.enough (p.fits (fit spot.item)).1)
          (Grown-trans grown (block-Grown k g d nodes spot.item within slots spot.s_pos b fit p r))
          refl

    slots_Shape :
        (o : Option (List (Option Block))) (m₂ : Mem)
        → (o ≡ none → m₂.live ≡ m₁.live)
        → ((slots : List (Option Block))
            → o ≡ some slots
            → Prepared d.quantum d.qset (get_or nodes spot.item empty_qset).data_ m₁ slots m₂)
        → Shape u k g d pos src m (write_slots u k g d pos src spot nodes (o, m₂))
    slots_Shape none m₂ cost got =
        refused nodes m₂
          (Grown-trans grown
            (record { same = λ i s q lt. refl; fit = λ f. f; balance = omega (arith, cost refl) }))
          refl
    slots_Shape (some slots) m₂ cost got =
        let p = got slots refl in
        let len : length slots ≡ d.qset = (p.fits (grown.fit v.nodes_fit spot.item)).0 in
        let r = ensure_quantum k g d slots spot.s_pos m₂ in
        block_Shape slots m₂ p r.0 r.1 (ensure_quantum-null k g d slots spot.s_pos m₂)
          (ensure_quantum-ne-crash k g d slots spot.s_pos m₂ v.alloc_fits
            (omega (arith, s_pos-lt d.quantum d.qset v.quantum_pos v.qset_pos pos)))
          (ensure_quantum-Ready k g d slots spot.s_pos m₂)

  node_Shape :
      (o : Option ℕ) (nodes : List Qset) (m₁ : Mem)
      → Grown d.quantum d.qset d.nodes m nodes m₁
      → ((i : ℕ)
          → o ≡ some i
          → (i ≡ spot.item) × (spot.item < int_max) × (spot.item < length nodes))
      → Shape u k g d pos src m (write_node u k g d pos src spot (o, nodes, m₁))
  node_Shape none nodes m₁ grown found = refused nodes m₁ grown refl
  node_Shape (some i) nodes m₁ grown found =
      let (e, small, within) = found i refl in
      let o = (get_or nodes spot.item empty_qset).data_ in
      let r = ensure_slots k d.qset o m₁ in
      rw e (
        slots_Shape nodes m₁ grown small within r.0 r.1 (ensure_slots-none k d.qset o m₁)
          (ensure_slots-Prepared k d.quantum d.qset o m₁))

  -- Every write with the semaphore held ends in one of the two ways.
  pub write_locked-Shape : Shape u k g d pos src m (write_locked u k g d pos src m)
  unfolding write_locked
  write_locked-Shape =
      let f = scull_follow k d.nodes spot.item m in
      rw (can_divide-valid v) (
        node_Shape f.0 f.1 f.2 (follow-Grown k d.nodes spot.item m)
          (λ i. follow_found k d.nodes spot.item m))
