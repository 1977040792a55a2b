-- ===== src/Scull/Arrays.antt =====
-- The array of a node, allocated by `scull_write` where it is missing: every byte stays.
use mydrivers.Prelude.{
  ℕ, zero, suc, ◌+◌, ◌*◌, ◌<◌, ◌≡◌, refl, sym, ap, subst, Option, none, some, List, arith, get_or,
  replicate, length-replicate, get_or-replicate,
}
use mathlib.Core.Option.{some-injective}
use mydrivers.Kernel.{Allocator, Mem, granted}
use mydrivers.Scull.Device.{Block, quantum_of, byte_of}
use mydrivers.Scull.Write.{zeroed_slots, pointer_bytes, ensure_slots}
use mydrivers.Scull.Invariant.{BlockIsFit, DataIsFit, owned_slots, owned_data}

-- A node's array before and after a step that may allocate: the same bytes, one array at least.
pub record Prepared (quantum qset : ℕ) (o : Option (List (Option Block))) (m : Mem)
    (slots : List (Option Block)) (m' : Mem) : Type 0 where
  pub reads :
      (s q : ℕ)
      → q < quantum
      → byte_of (get_or slots s none) q ≡ byte_of (quantum_of (record { data_ = o }) s) q
  pub fits : DataIsFit quantum qset o → DataIsFit quantum qset (some slots)
  pub costs : m'.live + owned_data o ≡ m.live + suc (owned_slots slots)

owned_slots-replicate : (n : ℕ) → owned_slots (replicate n none) ≡ 0
owned_slots-replicate zero = refl
owned_slots-replicate (suc n) = owned_slots-replicate n

zeroed-fit : (quantum qset : ℕ) → DataIsFit quantum qset (some (replicate qset none))
zeroed-fit quantum qset = (
  length-replicate qset none,
  λ s. subst (BlockIsFit quantum) (sym (get_or-replicate qset none s)) tt,
)

module _ (k : Allocator) (quantum qset : ℕ) where
  zeroed-Prepared :
      (r : Option (List ℕ)) (m : Mem) (slots : List (Option Block))
      → zeroed_slots qset r ≡ some slots
      → Prepared quantum qset none m slots (granted r m)
  zeroed-Prepared none m slots h = cc
  zeroed-Prepared (some b) m slots h =
      subst (λ l. Prepared quantum qset none m l (granted (some b) m)) (some-injective _ _ h)
        (record {
          reads = λ s q lt. ap (λ c. byte_of c q) (get_or-replicate qset none s);
          fits = λ _. zeroed-fit quantum qset;
          costs = omega (arith, owned_slots-replicate qset);
        })

  pub ensure_slots-Prepared :
      (o : Option (List (Option Block))) (m : Mem) (slots : List (Option Block))
      → (ensure_slots k qset o m).0 ≡ some slots
      → Prepared quantum qset o m slots (ensure_slots k qset o m).1
  unfolding ensure_slots
  ensure_slots-Prepared (some l) m slots h =
      subst (λ l'. Prepared quantum qset (some l) m l' m) (some-injective _ _ h)
        (record { reads = λ s q lt. refl; fits = λ f. f; costs = omega arith })
  ensure_slots-Prepared none m slots h =
      zeroed-Prepared (k.kmalloc m.asked (pointer_bytes * qset)) m slots h

pub ensure_slots-none :
    (k : Allocator) (qset : ℕ) (o : Option (List (Option Block))) (m : Mem)
    → (ensure_slots k qset o m).0 ≡ none
    → (ensure_slots k qset o m).1.live ≡ m.live
unfolding ensure_slots
ensure_slots-none k qset (some l) m h = cc
ensure_slots-none k qset none m h = ground arith
