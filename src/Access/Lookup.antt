-- ===== src/Access/Lookup.antt =====
-- The terminals of `scull_c` do not see each other's devices, and find their own again.
use mydrivers.Prelude.{
  ℕ, zero, suc, ◌≡◌, ◌≢◌, refl, sym, ◌∙◌, ap, Bool, true, false, Option, none, some, List, [], ◌∷◌,
  ◌==◌, if◌then◌else◌, get_elem?, Bool-cases, arith, inl, inr,
}
use mathlib.Core.Option.{map, some-injective}
use mydrivers.Kernel.{Result, ok, fault, Allocator, Mem, granted}
use mydrivers.Scull.Device.{Dev, Globals}
use mydrivers.Scull.Trim.{scull_trim}
use mydrivers.Access.Users.{write_only}
use mydrivers.Access.Copies.{
  Item, find, zero_dev, Lookup, with_item, allocated, found, scull_c_lookfor_device, set_dev,
  Chosen, with_trim, trim_at, choose, scull_c_open,
}

-- The device that a key stands for.
abbrev dev_of : ℕ → List Item → Option Dev
dev_of key [] = none
dev_of key (x ∷ xs) = if x.key == key then some x.dev else dev_of key xs

-- The key at a place of the list.
abbrev key_at : List Item → ℕ → Option ℕ
key_at [] i = none
key_at (x ∷ xs) zero = some x.key
key_at (x ∷ xs) (suc i) = key_at xs i

map-suc : (o : Option ℕ) (i : ℕ) → map suc o ≡ some i → (j : ℕ) × (o ≡ some j) × (i ≡ suc j)
map-suc none i e = absurd (ground arith)
map-suc (some j) i e = (j, refl, sym (some-injective _ _ e))

find_key : (key : ℕ) (xs : List Item) (i : ℕ) → find key xs ≡ some i → key_at xs i ≡ some key
unfolding find
find_key key [] i e = absurd (ground arith)
find_key key (x ∷ xs) i e = elim (Bool-cases (x.key == key)) [
  | inl same ↦ ground (arith)
  | inr other ↦
      let (j, f, s) = map-suc (find key xs) i (rw other at e) in rw s (find_key key xs j f)
]

-- Changing the device at a key's place leaves the other keys' devices.
dev_of-set_dev :
    (key : ℕ) (xs : List Item) (i own : ℕ) (d : Dev)
    → key_at xs i ≡ some own
    → own ≢ key
    → dev_of key (set_dev xs i d) ≡ dev_of key xs
dev_of-set_dev key [] i own d e ne = refl
dev_of-set_dev key (x ∷ xs) zero own d e ne =
    let f : x.key ≡ own = some-injective _ _ e in ground (arith, f)
dev_of-set_dev key (x ∷ xs) (suc i) own d e ne =
    let rest = dev_of-set_dev key xs i own d e ne in ground (arith, rest)

-- A lookup that answers, answers with the place of the key.
data Located (key : ℕ) (items : List Item) (l : Lookup) : Option ℕ → Type 0 where
  nowhere :
      ((other : ℕ) → other ≢ key → dev_of other l.items ≡ dev_of other items)
      → Located key items l none
  somewhere :
      (i : ℕ)
      → key_at l.items i ≡ some key
      → find key l.items ≡ some i
      → ((other : ℕ) → other ≢ key → dev_of other l.items ≡ dev_of other items)
      → Located key items l (some i)

with_item-Located :
    (key : ℕ) (items : List Item) (m : Mem) (o : Option (Dev × Mem))
    → let l = with_item key items m o in Located key items l l.place
unfolding find
with_item-Located key items m none = nowhere (λ other ne. refl)
with_item-Located key items m (some (d, m')) =
    somewhere 0 refl (ground arith) (λ other ne. ground (arith, ne))

module _ (k : Allocator) (item_size : ℕ) (g : Globals) (key : ℕ) (items : List Item) (m : Mem) where
  allocated-Located :
      (m' : Mem) (o : Option (List ℕ))
      → let l = allocated k item_size g key items m' o in Located key items l l.place
  allocated-Located m' none = nowhere (λ other ne. refl)
  allocated-Located m' (some b) = with_item-Located key items m' (scull_trim g zero_dev m')

  found-Located :
      (o : Option ℕ)
      → find key items ≡ o
      → let l = found k item_size g key items m o in Located key items l l.place
  found-Located (some i) e = somewhere i (find_key key items i e) e (λ other ne. refl)
  found-Located none e =
      let answer = k.kmalloc m.asked item_size in allocated-Located (granted answer m) answer

  lookup-Located :
      let l = scull_c_lookfor_device k item_size g key items m in Located key items l l.place
  unfolding scull_c_lookfor_device
  lookup-Located = found-Located (find key items) refl

key_at-set_dev : (xs : List Item) (i j : ℕ) (d : Dev) → key_at (set_dev xs i d) j ≡ key_at xs j
key_at-set_dev [] i j d = refl
key_at-set_dev (x ∷ xs) zero zero d = refl
key_at-set_dev (x ∷ xs) zero (suc j) d = refl
key_at-set_dev (x ∷ xs) (suc i) zero d = refl
key_at-set_dev (x ∷ xs) (suc i) (suc j) d = key_at-set_dev xs i j d

find-set_dev :
    (key : ℕ) (xs : List Item) (i : ℕ) (d : Dev) → find key (set_dev xs i d) ≡ find key xs
unfolding find
find-set_dev key [] i d = refl
find-set_dev key (x ∷ xs) zero d = refl
find-set_dev key (x ∷ xs) (suc i) d = rw (find-set_dev key xs i d) refl

-- What an open by the terminal `key` leaves: the other terminals' devices as they were, and, where
-- it is done, its own device where a lookup finds it.
pub record Separate (key : ℕ) (items : List Item) (c : Chosen) : Type 0 where
  pub others : (other : ℕ) → other ≢ key → dev_of other c.items ≡ dev_of other items
  pub own : (i : ℕ) → c.private_data ≡ some i → key_at c.items i ≡ some key
  pub again : (i : ℕ) → c.private_data ≡ some i → find key c.items ≡ some i
  pub done : c.result ≡ ok 0 → (i : ℕ) × (c.private_data ≡ some i)

module _ (g : Globals) (key : ℕ) (items : List Item) (l : Lookup) (i : ℕ)
    (at_i : key_at l.items i ≡ some key) (finds : find key l.items ≡ some i)
    (rest : (other : ℕ) → other ≢ key → dev_of other l.items ≡ dev_of other items) where
  left_alone :
      (r : Result ℕ) (m : Mem)
      → r ≢ ok 0
      → Separate key items (record { result = r; private_data = none; items = l.items; mem = m })
  left_alone r m ne = record {
    others = rest;
    own = λ j e. absurd (ground arith);
    again = λ j e. absurd (ground arith);
    done = λ e. absurd (ne e);
  }

  with_trim-Separate : (o : Option (Dev × Mem)) → Separate key items (with_trim i l o)
  with_trim-Separate none = left_alone fault l.mem (λ e. absurd (ground arith))
  with_trim-Separate (some (d, m)) = record {
    others =
        λ other ne. dev_of-set_dev other l.items i key d at_i (λ e. ne (sym e)) ∙ rest other ne;
    own = λ j e. rw (sym (some-injective _ _ e)) (key_at-set_dev l.items i i d ∙ at_i);
    again = λ j e. rw (sym (some-injective _ _ e)) (find-set_dev key l.items i d ∙ finds);
    done = λ e. (i, refl);
  }

  trim_at-Separate : (o : Option Item) → Separate key items (trim_at g i l o)
  trim_at-Separate none = left_alone fault l.mem (λ e. absurd (ground arith))
  trim_at-Separate (some x) = with_trim-Separate (scull_trim g x.dev l.mem)

  choose-some-Separate : (trims : Bool) → Separate key items (choose g trims l (some i))
  choose-some-Separate true = trim_at-Separate (get_elem? l.items i)
  choose-some-Separate false = record {
    others = rest;
    own = λ j e. rw (sym (some-injective _ _ e)) at_i;
    again = λ j e. rw (sym (some-injective _ _ e)) finds;
    done = λ e. (i, refl);
  }

choose-Separate :
    (g : Globals) (trims : Bool) (key : ℕ) (items : List Item) (l : Lookup) (o : Option ℕ)
    → Located key items l o
    → Separate key items (choose g trims l o)
choose-Separate g trims key items l none (nowhere rest) = record {
  others = rest;
  own = λ j e. absurd (ground arith);
  again = λ j e. absurd (ground arith);
  done = λ e. absurd (ground arith);
}
choose-Separate g trims key items l (some i) (somewhere i' at_i finds rest) =
    choose-some-Separate g key items l i at_i finds rest trims

-- An open by a terminal, whatever its mode and whether it succeeds, crashes or gets no memory,
-- leaves the devices of all other terminals as they were; one that succeeds answers with an item of
-- the caller's own terminal, which is the one that a lookup finds.
pub scull_c_open-Separate :
    (k : Allocator) (item_size : ℕ) (g : Globals) (f_flags key : ℕ) (items : List Item) (m : Mem)
    → Separate key items (scull_c_open k item_size g f_flags (some key) items m)
unfolding scull_c_open
scull_c_open-Separate k item_size g f_flags key items m =
    let l = scull_c_lookfor_device k item_size g key items m in
    choose-Separate g (write_only f_flags) key items l l.place
      (lookup-Located k item_size g key items m)

reopened :
    (k : Allocator) (item_size : ℕ) (g : Globals) (f_flags key i : ℕ) (items : List Item) (m : Mem)
    → find key items ≡ some i
    → write_only f_flags ≡ false
    → scull_c_open k item_size g f_flags (some key) items m
      ≡ record { result = ok 0; private_data = some i; items = items; mem = m }
unfolding scull_c_open scull_c_lookfor_device
reopened k item_size g f_flags key i items m e w = rw (e, w) refl

-- A terminal that opened its device, and opens it again in a mode that does not empty it, gets
-- the same device at the same place, with its data, whatever the allocator would answer; list and
-- blocks stay as they were.
pub scull_c_open_again :
    (k : Allocator) (item_size : ℕ) (g : Globals) (f_flags f_flags' key : ℕ) (items : List Item)
    (m : Mem)
    → let c = scull_c_open k item_size g f_flags (some key) items m in
      c.result ≡ ok 0
      → write_only f_flags' ≡ false
      → scull_c_open k item_size g f_flags' (some key) c.items c.mem
        ≡ record { result = ok 0; private_data = c.private_data; items = c.items; mem = c.mem }
scull_c_open_again k item_size g f_flags f_flags' key items m e w =
    let s = scull_c_open-Separate k item_size g f_flags key items m in
    let c = scull_c_open k item_size g f_flags (some key) items m in
    let (i, f) = s.done e in
    reopened k item_size g f_flags' key i c.items c.mem (s.again i f) w
    ∙ ap (λ o. record { result = ok 0; private_data = o; items = c.items; mem = c.mem }) (sym f)
