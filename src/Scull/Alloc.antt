-- ===== src/Scull/Alloc.antt =====
-- `scull_alloc` and `scull_free`: how a quantum is allocated and freed, by the type of the device.
use mydrivers.Prelude.{
  ℕ, ◌+◌, ◌-◌, Option, none, some, ◌++◌, leb, if◌then◌else◌, length, drop, replicate,
}
use mydrivers.Kernel.{Allocator, Mem}
use mydrivers.Scull.Device.{ScullType, basic, cache, pages, Block, Dev, Globals}

-- The outcome of a request inside a driver: a block, a null pointer, or a crash.
pub data Grant : Type 0 where
  block : Block → Grant
  null : Grant
  crash : Grant

abbrev of_option : Option Block → Grant
of_option none = null
of_option (some b) = block b

-- One more request, whatever its answer.
abbrev pub account : Grant → Mem → Mem
account (block b) m = record { asked = m.asked + 1; live = m.live + 1 }
account _ m = record m { asked = m.asked + 1 }

abbrev from_cache : Allocator → Mem → Option ℕ → Grant
from_cache k m none = crash
from_cache k m (some size) = of_option (k.kmem_cache_alloc m.asked size)

-- The `switch` of `scull_alloc`. `kmem_cache_alloc` on a null cache crashes.
abbrev pub alloc_by : Allocator → Globals → Dev → Mem → ScullType → Grant
alloc_by k g d m basic = of_option (k.kmalloc m.asked d.quantum)
alloc_by k g d m cache = from_cache k m g.object_size
alloc_by k g d m pages = of_option (k.get_free_pages m.asked d.order)

unfoldable pub scull_alloc : Allocator → Globals → Dev → Mem → Grant × Mem
scull_alloc k g d m = let r = alloc_by k g d m d.type_ in (r, account r m)

abbrev pub release_block : Mem → Mem
release_block m = record m { live = m.live - 1 }

abbrev pub free_by : Globals → Mem → ScullType → Option Mem
free_by g m basic = some (release_block m)
free_by g m cache = elim g.object_size [ none ↦ none | some _ ↦ some (release_block m) ]
free_by g m pages = some (release_block m)

-- `none` where `kmem_cache_free` is given a null cache.
unfoldable pub scull_free : Globals → Dev → Mem → Option Mem
scull_free g d m = free_by g m d.type_

-- `memset(b, 0, n)`; `none` where it would write past the end.
unfoldable pub memset_zero : Block → ℕ → Option Block
memset_zero b n = if leb n (length b) then some (replicate n 0 ++ drop n b) else none
