-- ===== src/Load/Modules.antt =====
-- The init and exit functions of scull/main.c, scullc/main.c and scullp/main.c.
use mydrivers.Prelude.{
  ℕ, zero, suc, ◌*◌, ◌^◌, Bool, true, false, Option, none, some, List, [], ◌∷◌, if◌then◌else◌,
  replicate, ◌==◌,
}
use mydrivers.Kernel.{Errno, Result, ok, err, Mem, ◌>>=◌}
use mydrivers.Scull.Device.{basic, cache, pages, Dev, Globals, to_int}
use mydrivers.Scull.Trim.{scull_trim}

-- What the kernel answers: the error of the region, if it is refused; whether `kmalloc` gives the
-- array of devices; whether `cdev_add` fails for a device; whether there is a cache.
pub record Answers : Type 0 where
  pub region : Option Errno
  pub array : Bool
  pub cdev_fails : ℕ → Bool
  pub cache : Bool

-- What a module holds: the region, the array of devices, the cdevs that the kernel knows by their
-- index, and the object size of the cache. A pointer to an array that was freed holds nothing.
pub record Taken : Type 0 where
  pub region : Bool
  pub devices : Option (List Dev)
  pub cdevs : List ℕ
  pub object_size : Option ℕ

pub record Loaded : Type 0 where
  pub result : Result ℕ
  pub taken : Taken

abbrev pub nothing : Taken
nothing = record { region = false; devices = none; cdevs = []; object_size = none }

-- A device as the loop sets it.
abbrev pub scull_dev : Globals → Dev
scull_dev g = record {
  nodes = [];
  quantum = g.quantum;
  qset = g.qset_n;
  size = 0;
  order = 0;
  type_ = basic;
}

abbrev pub scullc_dev : Globals → Dev
scullc_dev g = record (scull_dev g) { type_ = cache }

-- `PAGE_SIZE << scull_order`
abbrev pub scullp_dev : Globals → ℕ → ℕ → Dev
scullp_dev g page_size scull_order = record (scull_dev g) {
  quantum = to_int (page_size * 2 ^ scull_order);
  order = scull_order;
  type_ = pages;
}

-- The `for` loop on the rounds left, from index `i` on: whether `scull_setup_cdev` succeeded each
-- time, and the cdevs that it added.
unfoldable pub setup_cdevs : (ℕ → Bool) → ℕ → ℕ → Bool × List ℕ
setup_cdevs cdev_fails zero i = (true, [])
setup_cdevs cdev_fails (suc n) i =
    let (all, rest) = setup_cdevs cdev_fails n (suc i) in
    if cdev_fails i then (false, []) else (all, i ∷ rest)

-- At the label `fail_cdev`: the array is freed and the region returned, and `res` is still 0.
abbrev undone : List ℕ → Loaded
undone added = record { result = ok 0; taken = record nothing { cdevs = added } }

abbrev pub holding : List Dev → List ℕ → Option ℕ → Loaded
holding ds added object_size = record {
  result = ok 0;
  taken = record { region = true; devices = some ds; cdevs = added; object_size = object_size };
}

abbrev pub after_cdevs : Loaded → Bool × List ℕ → Loaded
after_cdevs done (all, added) = if all then done else undone added

-- What the three init functions share, up to the end of the loop; `done` is what comes behind it.
abbrev pub acquire : Option Errno → Bool → Bool × List ℕ → Loaded → Loaded
acquire (some e) array cdevs done = record { result = err e; taken = nothing }
acquire none false cdevs done = undone []
acquire none true cdevs done = after_cdevs done cdevs

-- `kmem_cache_create`, at the end of scullc's and scullp's
abbrev pub with_cache : Bool → Globals → List Dev → List ℕ → Loaded
with_cache granted g ds added = if granted then holding ds added (some g.quantum) else undone added

module _ (a : Answers) (nr_devs : ℕ) (g : Globals) where
  -- Without what comes behind the memory devices in scull (Load/Whole).
  unfoldable pub scull_init : Loaded
  scull_init =
      let cdevs = setup_cdevs a.cdev_fails nr_devs 0 in
      acquire a.region a.array cdevs (holding (replicate nr_devs (scull_dev g)) cdevs.1 none)

  unfoldable pub scullc_init : Loaded
  scullc_init =
      let cdevs = setup_cdevs a.cdev_fails nr_devs 0 in
      acquire a.region a.array cdevs
        (with_cache a.cache g (replicate nr_devs (scullc_dev g)) cdevs.1)

  unfoldable pub scullp_init : (page_size scull_order : ℕ) → Loaded
  scullp_init page_size scull_order =
      let cdevs = setup_cdevs a.cdev_fails nr_devs 0 in
      acquire a.region a.array cdevs
        (with_cache a.cache g (replicate nr_devs (scullp_dev g page_size scull_order)) cdevs.1)

-- Every device of a list is emptied, as `scull_access_cleanup` does (Load/Access).
unfoldable pub trim_all : Globals → List Dev → Mem → Option Mem
trim_all g [] m = some m
trim_all g (d ∷ ds) m = do (d', m') ← scull_trim g d m; trim_all g ds m'

-- `cdev_del`: the kernel no longer knows that cdev.
abbrev pub cdev_del : ℕ → List ℕ → List ℕ
cdev_del i [] = []
cdev_del i (j ∷ js) = let rest = cdev_del i js in if i == j then js else j ∷ rest

-- What `scull_devices` points to: a null pointer points to no device.
abbrev pub devices_at : Option (List Dev) → List Dev
devices_at none = []
devices_at (some ds) = ds

-- The `for` loop of `scull_exit` on the rounds left, from index `i` on, with the devices from there
-- on: each is emptied and its cdev deleted; `none` past the array, or if there is no array.
unfoldable pub exit_devices : Globals → ℕ → ℕ → List Dev → List ℕ → Mem → Option (List ℕ × Mem)
exit_devices g zero i ds cdevs m = some (cdevs, m)
exit_devices g (suc n) i [] cdevs m = none
exit_devices g (suc n) i (d ∷ ds) cdevs m = do
  (d', m') ← scull_trim g d m
  exit_devices g n (suc i) ds (cdev_del i cdevs) m'

-- Behind the loop: the region is returned, the array freed and the cache, if there is one, destroyed.
abbrev pub given_back : List ℕ → Taken
given_back cdevs = record { region = false; devices = none; cdevs = cdevs; object_size = none }

module _ (g : Globals) (nr_devs : ℕ) where
  -- What the module holds afterwards; `none` where it follows a pointer that holds nothing.
  unfoldable pub scull_exit : Taken → Mem → Option (Taken × Mem)
  scull_exit t m = do
    (cdevs, m') ←
        exit_devices (record g { object_size = t.object_size }) nr_devs 0 (devices_at t.devices)
          t.cdevs m
    some (given_back cdevs, m')

  -- The same code stands in scullc/main.c and scullp/main.c, which destroy their cache behind it.
  abbrev scullc_exit : Taken → Mem → Option (Taken × Mem)
  scullc_exit = scull_exit

  abbrev scullp_exit : Taken → Mem → Option (Taken × Mem)
  scullp_exit = scull_exit
