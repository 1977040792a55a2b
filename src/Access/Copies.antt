-- ===== src/Access/Copies.antt =====
-- `scull_c` of scull/access.c: one private device for each terminal, kept in a list.
use mydrivers.Prelude.{
  ℕ, zero, suc, Bool, Option, none, some, List, [], ◌∷◌, ◌==◌, if◌then◌else◌, get_elem?,
}
use mathlib.Core.Option.{map}
use mydrivers.Kernel.{enomem, einval, Result, ok, err, fault, Allocator, Mem, granted}
use mydrivers.Scull.Device.{Dev, Globals, basic}
use mydrivers.Scull.Trim.{scull_trim}
use mydrivers.Access.Users.{write_only}

-- `struct scull_listitem`
pub record Item : Type 0 where
  pub key : ℕ
  pub dev : Dev

-- `list_for_each_entry` up to the item with the key: its place in the list.
unfoldable pub find : ℕ → List Item → Option ℕ
find key [] = none
find key (x ∷ xs) = if x.key == key then some 0 else map suc (find key xs)

-- `memset` with zeros
abbrev pub zero_dev : Dev
zero_dev = record { nodes = []; quantum = 0; qset = 0; size = 0; order = 0; type_ = basic }

-- The list, the blocks held, and where the device is, if there is one.
pub record Lookup : Type 0 where
  pub place : Option ℕ
  pub items : List Item
  pub mem : Mem

-- A new item, once the allocator gave it and `scull_trim` set its sizes.
abbrev pub with_item : ℕ → List Item → Mem → Option (Dev × Mem) → Lookup
with_item key items m none = record { place = none; items = items; mem = m }
with_item key items m (some (d, m')) = record {
  place = some 0;
  items = record { key = key; dev = d } ∷ items;
  mem = m';
}

module _ (k : Allocator) (item_size : ℕ) (g : Globals) where
  abbrev pub allocated : ℕ → List Item → Mem → Option (List ℕ) → Lookup
  allocated key items m none = record { place = none; items = items; mem = m }
  allocated key items m (some b) = with_item key items m (scull_trim g zero_dev m)

  abbrev pub found : ℕ → List Item → Mem → Option ℕ → Lookup
  found key items m (some i) = record { place = some i; items = items; mem = m }
  found key items m none =
      let answer = k.kmalloc m.asked item_size in allocated key items (granted answer m) answer

  -- `item_size` is `sizeof(struct scull_listitem)`.
  unfoldable pub scull_c_lookfor_device : ℕ → List Item → Mem → Lookup
  scull_c_lookfor_device key items m = found key items m (find key items)

abbrev pub set_dev : List Item → ℕ → Dev → List Item
set_dev [] i d = []
set_dev (x ∷ xs) zero d = record x { dev = d } ∷ xs
set_dev (x ∷ xs) (suc i) d = x ∷ set_dev xs i d

-- What an open returns, with the place of the device in `private_data`.
pub record Chosen : Type 0 where
  pub result : Result ℕ
  pub private_data : Option ℕ
  pub items : List Item
  pub mem : Mem

abbrev pub with_trim : ℕ → Lookup → Option (Dev × Mem) → Chosen
with_trim i l none = record { result = fault; private_data = none; items = l.items; mem = l.mem }
with_trim i l (some (d, m)) = record {
  result = ok 0;
  private_data = some i;
  items = set_dev l.items i d;
  mem = m;
}

abbrev pub trim_at : Globals → ℕ → Lookup → Option Item → Chosen
trim_at g i l none = record { result = fault; private_data = none; items = l.items; mem = l.mem }
trim_at g i l (some x) = with_trim i l (scull_trim g x.dev l.mem)

abbrev pub choose : Globals → Bool → Lookup → Option ℕ → Chosen
choose g trims l none = record {
  result = err enomem;
  private_data = none;
  items = l.items;
  mem = l.mem;
}
choose g trims l (some i) =
    if trims
    then trim_at g i l (get_elem? l.items i)
    else record { result = ok 0; private_data = some i; items = l.items; mem = l.mem }

-- `tty` is the device number of the caller's terminal, if it has one.
unfoldable pub scull_c_open : Allocator → ℕ → Globals → ℕ → Option ℕ → List Item → Mem → Chosen
scull_c_open k item_size g f_flags none items m = record {
  result = err einval;
  private_data = none;
  items = items;
  mem = m;
}
scull_c_open k item_size g f_flags (some key) items m =
    let l = scull_c_lookfor_device k item_size g key items m in
    choose g (write_only f_flags) l l.place
