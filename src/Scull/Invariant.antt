-- ===== src/Scull/Invariant.antt =====
-- What a well-formed device looks like, the blocks that it owns, and what it means that a list of
-- quantum sets grew without changing a byte.
use mydrivers.Prelude.{
  ℕ, zero, suc, ◌+◌, ◌*◌, ◌^◌, ◌≤◌, ◌<◌, ◌≡◌, refl, sym, ◌∙◌, true, subst, Option, none, some, List,
  [], ◌∷◌, arith, length, get_or, set, get_or-set_self, get_or-set_ne, ◌≢◌,
}
use native.Mathlib.Decide.{ℕ_discrete}
use mydrivers.Kernel.{Allocator, Mem}
use mydrivers.Scull.Device.{
  can_divide, ScullType, basic, cache, pages, Block, Qset, Dev, Globals, empty_qset, int_max,
  quantum_of, block_at, byte_of,
}
use mydrivers.Scull.Write.{put_slots}

module _ (quantum : ℕ) where
  abbrev pub BlockIsFit : Option Block → Type 0
  BlockIsFit none = Unit {0}
  BlockIsFit (some b) = quantum ≤ length b

  abbrev pub SlotsAreFit : List (Option Block) → Type 0
  SlotsAreFit slots = (s : ℕ) → BlockIsFit (get_or slots s none)

module _ (quantum qset : ℕ) where
  abbrev pub DataIsFit : Option (List (Option Block)) → Type 0
  DataIsFit none = Unit {0}
  DataIsFit (some slots) = (length slots ≡ qset) × SlotsAreFit quantum slots

  -- Each array has `qset` slots, and each quantum holds at least `quantum` bytes.
  abbrev pub NodesAreFit : List Qset → Type 0
  NodesAreFit nodes = (i : ℕ) → DataIsFit (get_or nodes i empty_qset).data_

-- What the allocator of the device's type gives is large enough for a quantum.
abbrev pub AllocFits : Allocator → Globals → ℕ → ℕ → ScullType → Type 0
AllocFits k g quantum order basic = Unit {0}
AllocFits k g quantum order cache = (size : ℕ) × (g.object_size ≡ some size) × (quantum ≤ size)
AllocFits k g quantum order pages = quantum ≤ k.page_size * 2 ^ order

pub record IsValid (k : Allocator) (g : Globals) (d : Dev) : Type 0 where
  pub quantum_pos : 0 < d.quantum
  pub qset_pos : 0 < d.qset
  pub product_int : d.quantum * d.qset < int_max
  pub alloc_fits : AllocFits k g d.quantum d.order d.type_
  pub nodes_fit : NodesAreFit d.quantum d.qset d.nodes

pub can_divide-valid :
    {k : Allocator} {g : Globals} {d : Dev} → IsValid k g d → can_divide d.quantum d.qset ≡ true
unfolding can_divide
can_divide-valid v = ground arith

-- The number of blocks that a device holds.
abbrev pub owned_slots : List (Option Block) → ℕ
owned_slots [] = 0
owned_slots (none ∷ slots) = owned_slots slots
owned_slots (some b ∷ slots) = suc (owned_slots slots)

abbrev pub owned_data : Option (List (Option Block)) → ℕ
owned_data none = 0
owned_data (some slots) = suc (owned_slots slots)

abbrev pub owned : List Qset → ℕ
owned [] = 0
owned (q ∷ qs) = suc (owned_data q.data_ + owned qs)

-- No block was lost or made up on the way from one state to the other.
abbrev pub Balanced : List Qset → Mem → List Qset → Mem → Type 0
Balanced nodes m nodes' m' = m'.live + owned nodes ≡ m.live + owned nodes'

-- The same bytes, still well formed, and every new block accounted for.
pub record Grown (quantum qset : ℕ) (nodes : List Qset) (m : Mem) (nodes' : List Qset) (m' : Mem)
    : Type 0 where
  pub same :
      (i s q : ℕ) → q < quantum → byte_of (block_at nodes' i s) q ≡ byte_of (block_at nodes i s) q
  pub fit : NodesAreFit quantum qset nodes → NodesAreFit quantum qset nodes'
  pub balance : Balanced nodes m nodes' m'

module _ {quantum qset : ℕ} where
  pub Grown-refl : (nodes : List Qset) (m : Mem) → Grown quantum qset nodes m nodes m
  Grown-refl nodes m = record { same = λ i s q h. refl; fit = λ h. h; balance = refl }

  pub Grown-trans :
      {n₁ n₂ n₃ : List Qset} {m₁ m₂ m₃ : Mem}
      → Grown quantum qset n₁ m₁ n₂ m₂
      → Grown quantum qset n₂ m₂ n₃ m₃
      → Grown quantum qset n₁ m₁ n₃ m₃
  Grown-trans g h = record {
    same = λ i s q lt. h.same i s q lt ∙ g.same i s q lt;
    fit = λ f. h.fit (g.fit f);
    balance = omega (arith, g.balance, h.balance);
  }

pub owned-set :
    (nodes : List Qset) (i : ℕ) (q : Qset)
    → i < length nodes
    → owned (set nodes i q) + owned_data (get_or nodes i empty_qset).data_
      ≡ owned nodes + owned_data q.data_
owned-set [] i q h = absurd (omega arith)
owned-set (x ∷ xs) zero q h = omega arith
owned-set (x ∷ xs) (suc i) q h = omega (arith, owned-set xs i q (omega arith))

pub owned_slots-set :
    (slots : List (Option Block)) (s : ℕ) (b : Option Block)
    → s < length slots
    → owned_slots (set slots s b) + owned_slots (get_or slots s none ∷ [])
      ≡ owned_slots slots + owned_slots (b ∷ [])
owned_slots-set [] s b h = absurd (omega arith)
owned_slots-set (none ∷ xs) zero none h = omega arith
owned_slots-set (none ∷ xs) zero (some c) h = omega arith
owned_slots-set (some a ∷ xs) zero none h = omega arith
owned_slots-set (some a ∷ xs) zero (some c) h = omega arith
owned_slots-set (none ∷ xs) (suc s) b h = omega (arith, owned_slots-set xs s b (omega arith))
owned_slots-set (some a ∷ xs) (suc s) b h = omega (arith, owned_slots-set xs s b (omega arith))

-- Reading the list after one node's array was put.
module _ (nodes : List Qset) (i : ℕ) (slots : List (Option Block)) (within : i < length nodes) where
  pub get_or-put_self :
      get_or (put_slots nodes i slots) i empty_qset ≡ record { data_ = some slots }
  get_or-put_self = get_or-set_self nodes i _ empty_qset within

  pub get_or-put_ne :
      (j : ℕ) → i ≢ j → get_or (put_slots nodes i slots) j empty_qset ≡ get_or nodes j empty_qset
  get_or-put_ne j ne = get_or-set_ne nodes i j _ empty_qset ne

  -- A property of every node carries over, if the new array has it.
  put_all :
      (P : ℕ → Qset → Type 0)
      → P i (record { data_ = some slots })
      → ((j : ℕ) → P j (get_or nodes j empty_qset))
      → (j : ℕ) → P j (get_or (put_slots nodes i slots) j empty_qset)
  put_all P new old j = elim (ℕ_discrete i j) [
    | yes e ↦
        subst (λ k. P k (get_or (put_slots nodes i slots) k empty_qset)) e
          (subst (P i) (sym get_or-put_self) new)
    | no ne ↦ subst (P j) (sym (get_or-put_ne j ne)) (old j)
  ]

  pub put-Grown :
      (quantum qset : ℕ) (m m' : Mem)
      → ((s q : ℕ)
          → q < quantum
          → byte_of (get_or slots s none) q ≡ byte_of (quantum_of (get_or nodes i empty_qset) s) q)
      → (NodesAreFit quantum qset nodes → DataIsFit quantum qset (some slots))
      → m'.live + owned_data (get_or nodes i empty_qset).data_ ≡ m.live + suc (owned_slots slots)
      → Grown quantum qset nodes m (put_slots nodes i slots) m'
  put-Grown quantum qset m m' same fit bal = record {
    same = λ j s q lt.
        put_all (λ k n. byte_of (quantum_of n s) q ≡ byte_of (block_at nodes k s) q) (same s q lt)
          (λ k. refl) j;
    fit = λ f. put_all (λ k n. DataIsFit quantum qset n.data_) (fit f) f;
    balance = omega (arith, owned-set nodes i (record { data_ = some slots }) within, bal);
  }
