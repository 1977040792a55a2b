-- ===== src/Scull/Growth.antt =====
-- `scull_follow` leaves every byte as it was, and finds the node that it is asked for.
use mydrivers.Prelude.{
  ℕ, zero, suc, ◌+◌, ◌≤◌, ◌<◌, ◌≡◌, refl, sym, ap, subst, true, some, List, [], ◌∷◌, arith, length,
  get_or, Bool-cases, inl, inr, if◌then◌else◌,
}
use mydrivers.Kernel.{Allocator, Mem}
use mydrivers.Scull.Device.{Qset, empty_qset, int_max, quantum_of, byte_of}
use mydrivers.Scull.Follow.{new_qset, walk, ensure_head, rounds, scull_follow}
use mydrivers.Scull.Invariant.{DataIsFit, Balanced, Grown, Grown-trans}

-- A list that only got empty nodes at its end.
record Padded (nodes : List Qset) (m : Mem) (nodes' : List Qset) (m' : Mem) : Type 0 where
  alike : (i : ℕ) → get_or nodes' i empty_qset ≡ get_or nodes i empty_qset
  paid : Balanced nodes m nodes' m'

Padded-Grown :
    {quantum qset : ℕ} {nodes nodes' : List Qset} {m m' : Mem}
    → Padded nodes m nodes' m'
    → Grown quantum qset nodes m nodes' m'
Padded-Grown {quantum} {qset} p = record {
  same = λ i s q lt. ap (λ n. byte_of (quantum_of n s) q) (p.alike i);
  fit = λ f i. subst (λ n. DataIsFit quantum qset n.data_) (sym (p.alike i)) (f i);
  balance = p.paid;
}

module _ (k : Allocator) where
  new_qset-live :
      (m : Mem) → (new_qset k m).1.live ≡ (if (new_qset k m).0 then m.live + 1 else m.live)
  unfolding new_qset
  new_qset-live m = ground arith

  walk-alike :
      (n : ℕ) (qs : List Qset) (m : Mem) (i : ℕ)
      → get_or (walk k n qs m).1 i empty_qset ≡ get_or qs i empty_qset
  unfolding walk
  walk-alike zero qs m i = refl
  walk-alike (suc n) [] m zero = ground arith
  walk-alike (suc n) [] m (suc i) = ground (arith, walk-alike n [] (new_qset k m).1 i)
  walk-alike (suc n) (q ∷ qs) m zero = refl
  walk-alike (suc n) (q ∷ qs) m (suc i) = walk-alike n qs m i

  walk-paid : (n : ℕ) (qs : List Qset) (m : Mem) → Balanced qs m (walk k n qs m).1 (walk k n qs m).2
  unfolding walk
  walk-paid zero qs m = refl
  walk-paid (suc n) [] m = ground (arith, walk-paid n [] (new_qset k m).1, new_qset-live m)
  walk-paid (suc n) (q ∷ qs) m = omega (arith, walk-paid n qs m)

  walk-Padded : (n : ℕ) (qs : List Qset) (m : Mem) → Padded qs m (walk k n qs m).1 (walk k n qs m).2
  walk-Padded n qs m = record { alike = walk-alike n qs m; paid = walk-paid n qs m }

  -- A walk that is not stopped by the allocator passes `n` nodes.
  walk-length :
      (n : ℕ) (qs : List Qset) (m : Mem) → (walk k n qs m).0 ≡ true → n ≤ length (walk k n qs m).1
  unfolding walk
  walk-length zero qs m h = omega arith
  walk-length (suc n) [] m h = ground (arith, walk-length n [] (new_qset k m).1)
  walk-length (suc n) (q ∷ qs) m h = ground (arith, walk-length n qs m h)

  ensure_head-Padded :
      (qs : List Qset) (m : Mem) → Padded qs m (ensure_head k qs m).1 (ensure_head k qs m).2
  unfolding ensure_head
  ensure_head-Padded [] m = record { alike = alike_empty; paid = ground (arith, new_qset-live m) }
    where
      alike_empty :
          (i : ℕ)
          → get_or (if (new_qset k m).0 then empty_qset ∷ [] else []) i empty_qset ≡ empty_qset
      alike_empty zero = ground arith
      alike_empty (suc i) = ground arith
  ensure_head-Padded (q ∷ qs) m = record { alike = λ i. refl; paid = refl }

  -- What `scull_follow` answers, and the list that it leaves.
  pub follow-Grown :
      {quantum qset : ℕ} (qs : List Qset) (item : ℕ) (m : Mem)
      → Grown quantum qset qs m (scull_follow k qs item m).1 (scull_follow k qs item m).2
  unfolding scull_follow
  follow-Grown qs item m = elim (Bool-cases (ensure_head k qs m).0) [
    | inl e ↦ rw e (
        Grown-trans (Padded-Grown (ensure_head-Padded qs m))
          (Padded-Grown (walk-Padded (rounds item) (ensure_head k qs m).1 (ensure_head k qs m).2)))
    | inr e ↦ rw e (Padded-Grown (ensure_head-Padded qs m))
  ]

  -- A node is found at the index asked for, and within the list.
  pub follow_found :
      (qs : List Qset) (item : ℕ) (m : Mem) {i : ℕ}
      → (scull_follow k qs item m).0 ≡ some i
      → (i ≡ item) × (item < int_max) × (item < length (scull_follow k qs item m).1)
  unfolding scull_follow
  follow_found qs item m h =
      ground (arith, walk-length (rounds item) (ensure_head k qs m).1 (ensure_head k qs m).2)
