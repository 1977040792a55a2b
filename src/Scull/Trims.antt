-- ===== src/Scull/Trims.antt =====
-- `scull_trim` on a well-formed device frees exactly the blocks that the device holds.
use mathlib.Core.Option.{some-injective}
use mydrivers.Prelude.{
  ◌-◌, ◌≤◌, sym, ◌∙◌, subst, ap, ℕ, zero, suc, ◌+◌, ◌*◌, ◌<◌, ◌≡◌, refl, Option, none, some, List,
  [], ◌∷◌, arith, length,
}
use mydrivers.Kernel.{Allocator, Mem}
use mydrivers.Scull.Device.{ScullType, basic, cache, pages, Block, Qset, Dev, Globals, int_max}
use mydrivers.Scull.Alloc.{scull_free, release_block, free_by}
use mydrivers.Scull.Trim.{free_slots, free_data, free_nodes, scull_trim}
use mydrivers.Scull.Invariant.{
  AllocFits, IsValid, DataIsFit, NodesAreFit, owned_slots, owned_data, owned,
}
use mydrivers.Scull.Blocks.{load}

abbrev holding : Mem → ℕ → Mem
holding m rest = record m { live = rest }

module _ (k : Allocator) (g : Globals) (d : Dev)
    (fits : AllocFits k g d.quantum d.order d.type_) where
  free_by_lem :
      (t : ScullType) (quantum order : ℕ) (m : Mem)
      → AllocFits k g quantum order t
      → free_by g m t ≡ some (release_block m)
  free_by_lem basic quantum order m f = refl
  free_by_lem cache quantum order m f = rw (f.1)
  free_by_lem pages quantum order m f = refl

  scull_free_lem : (m : Mem) → scull_free g d m ≡ some (release_block m)
  unfolding scull_free
  scull_free_lem m = free_by_lem d.type_ d.quantum d.order m fits

  free_slots_lem :
      (n : ℕ) (slots : List (Option Block)) (m : Mem) (rest : ℕ)
      → length slots ≡ n
      → m.live ≡ owned_slots slots + rest
      → free_slots g d n slots m ≡ some (holding m rest)
  unfolding free_slots
  free_slots_lem zero [] m rest e h = ground arith
  free_slots_lem zero (b ∷ slots) m rest e h = absurd (omega arith)
  free_slots_lem (suc n) [] m rest e h = absurd (omega arith)
  free_slots_lem (suc n) (none ∷ slots) m rest e h = free_slots_lem n slots m rest (omega arith) h
  free_slots_lem (suc n) (some b ∷ slots) m rest e h =
      rw (scull_free_lem m)
        (free_slots_lem n slots (release_block m) rest (omega arith) (omega arith))

  free_data_lem :
      (o : Option (List (Option Block))) (m : Mem) (rest : ℕ)
      → DataIsFit d.quantum d.qset o
      → m.live ≡ owned_data o + rest
      → free_data g d o m ≡ some (holding m rest)
  free_data_lem none m rest f h = ground arith
  free_data_lem (some slots) m rest f h =
      rw (free_slots_lem d.qset slots m (suc rest) f.0 (omega arith)) (ground arith)

  free_nodes_lem :
      (nodes : List Qset) (m : Mem) (rest : ℕ)
      → NodesAreFit d.quantum d.qset nodes
      → m.live ≡ owned nodes + rest
      → free_nodes g d nodes m ≡ some (holding m rest)
  unfolding free_nodes
  free_nodes_lem [] m rest f h = ground arith
  free_nodes_lem (q ∷ qs) m rest f h =
      rw (free_data_lem q.data_ m (suc (owned qs + rest)) (f 0) (omega arith)) (
        free_nodes_lem qs (release_block (holding m (suc (owned qs + rest)))) rest (λ i. f (suc i))
          (omega arith))

-- The device that a trim leaves.
abbrev pub trimmed : Globals → Dev → Dev
trimmed g d = record d { nodes = []; size = 0; quantum = g.quantum; qset = g.qset_n }

-- A trim of a well-formed device, whose blocks are among those that the driver holds, reads and
-- frees nothing out of bounds, gives back every block of the device and no other, and leaves an
-- empty device of the current default geometry, in which every position reads as zero.
pub scull_trim_lem :
    (k : Allocator) (g : Globals) (d : Dev) (m : Mem) (rest : ℕ)
    → IsValid k g d
    → m.live ≡ owned d.nodes + rest
    → (scull_trim g d m ≡ some (trimmed g d, holding m rest)) × ((p : ℕ) → load (trimmed g d) p ≡ 0)
unfolding scull_trim
scull_trim_lem k g d m rest v h =
    (rw (free_nodes_lem k g d v.alloc_fits d.nodes m rest v.nodes_fit h), λ p. refl)

pub trimmed-IsValid :
    (k : Allocator) (g : Globals) (d : Dev)
    → 0 < g.quantum
    → 0 < g.qset_n
    → g.quantum * g.qset_n < int_max
    → AllocFits k g g.quantum d.order d.type_
    → IsValid k g (trimmed g d)
trimmed-IsValid k g d q s p f = record {
  quantum_pos = q;
  qset_pos = s;
  product_int = p;
  alloc_fits = f;
  nodes_fit = λ i. tt;
}

-- What a trim of a well-formed device, whose blocks are among those that the driver holds, leaves
-- is well formed, provided that the defaults are positive, do not overflow and fit what the
-- allocator of its type gives.
pub scull_trim-IsValid :
    (k : Allocator) (g : Globals) (d d' : Dev) (m m' : Mem)
    → IsValid k g d
    → owned d.nodes ≤ m.live
    → 0 < g.quantum
    → 0 < g.qset_n
    → g.quantum * g.qset_n < int_max
    → AllocFits k g g.quantum d.order d.type_
    → scull_trim g d m ≡ some (d', m')
    → IsValid k g d'
scull_trim-IsValid k g d d' m m' v h q s p f e =
    let trims = scull_trim_lem k g d m (m.live - owned d.nodes) v (omega (arith, h)) in
    subst (IsValid k g) (ap (λ (r : Dev × Mem). r.0) (some-injective _ _ (sym trims.0 ∙ e)))
      (trimmed-IsValid k g d q s p f)
