-- ===== src/Scull/Trim.antt =====
-- `scull_trim`: every quantum, array and node of the device is freed, and the sizes start anew.
use mydrivers.Prelude.{ℕ, zero, suc, Option, none, some, List, [], ◌∷◌}
use mydrivers.Kernel.{Mem, ◌>>=◌}
use mydrivers.Scull.Device.{Block, Qset, Dev, Globals}
use mydrivers.Scull.Alloc.{scull_free, release_block}

module _ (g : Globals) (d : Dev) where
  -- `if (data[i]) scull_free(dev, data[i]);`
  abbrev free_slot : Option Block → Mem → Option Mem
  free_slot none m = some m
  free_slot (some b) m = scull_free g d m

  -- The `for` loop over an array, on the rounds left; `none` where it reads past the array's end.
  unfoldable pub free_slots : ℕ → List (Option Block) → Mem → Option Mem
  free_slots zero slots m = some m
  free_slots (suc n) [] m = none
  free_slots (suc n) (b ∷ slots) m = do m' ← free_slot b m; free_slots n slots m'

  -- The array of a node, if it has one, and what it points to.
  abbrev pub free_data : Option (List (Option Block)) → Mem → Option Mem
  free_data none m = some m
  free_data (some slots) m = do m' ← free_slots d.qset slots m; some (release_block m')

  -- The `while` loop over the nodes.
  unfoldable pub free_nodes : List Qset → Mem → Option Mem
  free_nodes [] m = some m
  free_nodes (q ∷ qs) m = do m' ← free_data q.data_ m; free_nodes qs (release_block m')

-- `none` where the C code crashes.
unfoldable pub scull_trim : Globals → Dev → Mem → Option (Dev × Mem)
scull_trim g d m = do
  m' ← free_nodes g d d.nodes m
  some (record d { nodes = []; size = 0; quantum = g.quantum; qset = g.qset_n }, m')
