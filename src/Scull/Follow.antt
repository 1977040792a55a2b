-- ===== src/Scull/Follow.antt =====
-- `scull_follow`: the quantum set number `item`, with the list grown as far as it takes.
use mydrivers.Prelude.{
  ℕ, zero, suc, ◌+◌, Bool, true, false, Option, none, some, List, [], ◌∷◌, if◌then◌else◌,
}
use mydrivers.Kernel.{Allocator, Mem, granted}
use mydrivers.Scull.Device.{Qset, empty_qset, is_negative}

-- `sizeof(struct scull_qset)`: two pointers
abbrev qset_bytes : ℕ
qset_bytes = 16

-- The rounds of the loop. A negative item makes none, and `prev` is still null.
abbrev pub rounds : ℕ → ℕ
rounds item = if is_negative item then 0 else item + 1

module _ (k : Allocator) where
  -- The request of a zeroed node; whether it was granted.
  unfoldable pub new_qset : Mem → Bool × Mem
  new_qset m =
      let r = k.kmalloc m.asked qset_bytes in (elim r [ none ↦ false | some _ ↦ true ], granted r m)

  -- The `while` loop, on the rounds left: it passes a node, or links a new one at the end.
  unfoldable pub walk : ℕ → List Qset → Mem → Bool × List Qset × Mem
  walk zero qs m = (true, qs, m)
  walk (suc n) [] m =
      let (got, m') = new_qset m in
      let (done, rest, m'') = walk n [] m' in
      if got then (done, empty_qset ∷ rest, m'') else (false, [], m')
  walk (suc n) (q ∷ qs) m = let (done, rest, m') = walk n qs m in (done, q ∷ rest, m')

  -- The first `if`: an empty list gets its head.
  unfoldable pub ensure_head : List Qset → Mem → Bool × List Qset × Mem
  ensure_head [] m = let (got, m') = new_qset m in (got, if got then empty_qset ∷ [] else [], m')
  ensure_head (q ∷ qs) m = (true, q ∷ qs, m)

  -- The pointer returned is the index of the node, or `none` for null.
  unfoldable pub scull_follow : List Qset → ℕ → Mem → Option ℕ × List Qset × Mem
  scull_follow qs item m =
      let (headed, qs', m') = ensure_head qs m in
      let (done, qs'', m'') = walk (rounds item) qs' m' in
      if headed
      then (if is_negative item then none else if done then some item else none, qs'', m'')
      else (none, qs', m')
