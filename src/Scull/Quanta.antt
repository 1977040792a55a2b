-- ===== src/Scull/Quanta.antt =====
-- The quantum of a slot, allocated by `scull_write` where it is missing: every byte stays.
use mydrivers.Prelude.{
  ℕ, zero, suc, ◌+◌, ◌≤◌, ◌<◌, ◌≡◌, refl, Option, none, some, List, [], ◌∷◌, ◌++◌, arith, length,
  get_or, get_elem?, set, replicate, drop, length-replicate, length-append, inl, inr, ◌≢◌, ◌⊎◌,
}
use mydrivers.Kernel.{Allocator, Mem}
use mydrivers.Scull.Device.{ScullType, basic, cache, pages, Block, Dev, Globals, byte_of}
use mydrivers.Scull.Alloc.{alloc_by, account, Grant, block, null, crash, scull_alloc, memset_zero}
use mydrivers.Scull.Write.{zeroed_block, quantum_or_new, ensure_quantum}
use mydrivers.Scull.Invariant.{SlotsAreFit, AllocFits, owned_slots, owned_slots-set}

-- What `get_elem?` answers, in range and out of range.
pub get_elem?-cases :
    (slots : List (Option Block)) (s : ℕ)
    → ((get_elem? slots s ≡ none) × (length slots ≤ s))
      ⊎ ((get_elem? slots s ≡ some (get_or slots s none)) × (s < length slots))
get_elem?-cases [] s = inl (refl, omega arith)
get_elem?-cases (b ∷ slots) zero = inr (refl, omega arith)
get_elem?-cases (b ∷ slots) (suc s) = ground (arith, get_elem?-cases slots s)

alloc_by-block :
    (k : Allocator) (g : Globals) (d : Dev) (m : Mem) (t : ScullType) (b : Block)
    → alloc_by k g d m t ≡ block b
    → AllocFits k g d.quantum d.order t
    → d.quantum ≤ length b
alloc_by-block k g d m basic b h fits = ground (arith, k.kmalloc_size m.asked d.quantum b)
alloc_by-block k g d m cache b h (size, e, le) = ground (arith, k.cache_size m.asked size b)
alloc_by-block k g d m pages b h fits = ground (arith, k.pages_size m.asked d.order b)

alloc_by-ne-crash :
    (k : Allocator) (g : Globals) (d : Dev) (m : Mem) (t : ScullType)
    → AllocFits k g d.quantum d.order t
    → alloc_by k g d m t ≢ crash
alloc_by-ne-crash k g d m basic fits h = ground arith
alloc_by-ne-crash k g d m cache fits h = ground arith
alloc_by-ne-crash k g d m pages fits h = ground arith

replicate-append : (n : ℕ) (rest : List ℕ) (q : ℕ) → q < n → get_or (replicate n 0 ++ rest) q 0 ≡ 0
replicate-append zero rest q h = absurd (omega arith)
replicate-append (suc n) rest zero h = refl
replicate-append (suc n) rest (suc q) h = replicate-append n rest q (omega arith)

zeroed_length : (b : Block) (n : ℕ) → n ≤ length (replicate n 0 ++ drop n b)
zeroed_length b n =
    omega (arith, length-append (replicate n 0) (drop n b), length-replicate {A = ℕ} n 0)

-- A slot before and after its quantum was made sure of.
pub record Ready (k : Allocator) (g : Globals) (d : Dev) (slots : List (Option Block)) (s : ℕ)
    (m : Mem) (b : Block) (m' : Mem) : Type 0 where
  pub within : s < length slots
  pub bytes : (q : ℕ) → q < d.quantum → get_or b q 0 ≡ byte_of (get_or slots s none) q
  pub enough : SlotsAreFit d.quantum slots → d.quantum ≤ length b
  pub costs : m'.live + owned_slots slots ≡ m.live + owned_slots (set slots s (some b))

zeroed-Ready :
    (k : Allocator) (g : Globals) (d : Dev) (slots : List (Option Block)) (s : ℕ) (m : Mem)
    (r : Grant) (b : Block)
    → s < length slots
    → get_or slots s none ≡ none
    → zeroed_block d.quantum r ≡ block b
    → Ready k g d slots s m b (account r m)
unfolding memset_zero
zeroed-Ready k g d slots s m null b lt e h = cc
zeroed-Ready k g d slots s m crash b lt e h = cc
zeroed-Ready k g d slots s m (block a) b lt e h = record {
  within = lt;
  bytes = λ q hq.
      let z : get_or b q 0 ≡ 0 =
        ground (arith, replicate-append d.quantum (drop d.quantum a) q hq) in
      ground (arith, z);
  enough = λ _. ground (arith, zeroed_length a d.quantum);
  costs = ground (arith, owned_slots-set slots s (some b) lt);
}

module _ (k : Allocator) (g : Globals) (d : Dev) (slots : List (Option Block)) (s : ℕ)
    (m : Mem) where
  found-Ready :
      (o : Option Block) (b : Block)
      → s < length slots
      → get_or slots s none ≡ o
      → (quantum_or_new k g d (some o) m).0 ≡ block b
      → Ready k g d slots s m b (quantum_or_new k g d (some o) m).1
  unfolding scull_alloc
  found-Ready none b lt e h = zeroed-Ready k g d slots s m (alloc_by k g d m d.type_) b lt e h
  found-Ready (some c) b lt e h = record {
    within = lt;
    bytes = λ q hq. ground arith;
    enough = λ f. ground (arith, f s);
    costs = ground (arith, owned_slots-set slots s (some b) lt);
  }

  pub ensure_quantum-Ready :
      (b : Block)
      → (ensure_quantum k g d slots s m).0 ≡ block b
      → Ready k g d slots s m b (ensure_quantum k g d slots s m).1
  unfolding ensure_quantum
  ensure_quantum-Ready b h = elim (get_elem?-cases slots s) [
    | inl (e, le) ↦ absurd (ground arith)
    | inr (e, lt) ↦ rw e (found-Ready (get_or slots s none) b lt refl (rw e at h))
  ]

  -- With a well-formed device the quantum is there, or the allocator refused it.
  zeroed-ne-crash :
      (r : Grant)
      → r ≢ crash
      → ((b : Block) → r ≡ block b → d.quantum ≤ length b)
      → zeroed_block d.quantum r ≢ crash
  unfolding memset_zero
  zeroed-ne-crash null ne fits h = cc
  zeroed-ne-crash crash ne fits h = ne refl
  zeroed-ne-crash (block b) ne fits h = ground (arith, fits b refl)

  found-ne-crash :
      (o : Option Block)
      → AllocFits k g d.quantum d.order d.type_
      → (quantum_or_new k g d (some o) m).0 ≢ crash
  unfolding scull_alloc
  found-ne-crash none fits h =
      zeroed-ne-crash (alloc_by k g d m d.type_) (alloc_by-ne-crash k g d m d.type_ fits)
        (λ b e. alloc_by-block k g d m d.type_ b e fits) h
  found-ne-crash (some c) fits h = cc

  pub ensure_quantum-ne-crash :
      AllocFits k g d.quantum d.order d.type_
      → s < length slots
      → (ensure_quantum k g d slots s m).0 ≢ crash
  unfolding ensure_quantum
  ensure_quantum-ne-crash fits lt = elim (get_elem?-cases slots s) [
    | inl (e, le) ↦ absurd (omega arith)
    | inr (e, _) ↦ rw e (found-ne-crash (get_or slots s none) fits)
  ]

  zeroed-null : (r : Grant) → zeroed_block d.quantum r ≡ null → (account r m).live ≡ m.live
  unfolding memset_zero
  zeroed-null null h = refl
  zeroed-null crash h = refl
  zeroed-null (block b) h = ground arith

  quantum_or_new-null :
      (o : Option (Option Block))
      → (quantum_or_new k g d o m).0 ≡ null
      → (quantum_or_new k g d o m).1.live ≡ m.live
  unfolding scull_alloc
  quantum_or_new-null none h = refl
  quantum_or_new-null (some none) h = zeroed-null (alloc_by k g d m d.type_) h
  quantum_or_new-null (some (some b)) h = refl

  -- A refused quantum costs nothing.
  pub ensure_quantum-null :
      (ensure_quantum k g d slots s m).0 ≡ null → (ensure_quantum k g d slots s m).1.live ≡ m.live
  unfolding ensure_quantum
  ensure_quantum-null h = quantum_or_new-null (get_elem? slots s) h
