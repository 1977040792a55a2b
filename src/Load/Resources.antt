-- ===== src/Load/Resources.antt =====
-- What loading a module takes, and that unloading it gives everything back.
use mydrivers.Prelude.{
  ℕ, zero, suc, ◌+◌, ◌≤◌, ◌≡◌, inl, inr, refl, ◌∙◌, ap, Bool, true, false, Option, none, some, List,
  [], ◌∷◌, arith, length, replicate, Bool-cases,
}
use mydrivers.Kernel.{Errno, ok, err, Allocator, Mem, ◌>>=◌}
use mydrivers.Scull.Device.{Dev, Globals}
use mydrivers.Scull.Invariant.{IsValid, owned}
use mydrivers.Scull.Trims.{scull_trim_lem}
use mydrivers.Load.Modules.{
  Answers, Taken, Loaded, nothing, scull_dev, scullc_dev, scullp_dev, setup_cdevs, holding,
  after_cdevs, acquire, with_cache, scull_init, scullc_init, scullp_init, trim_all, cdev_del,
  devices_at, exit_devices, given_back, scull_exit,
}

-- The indices `i`, `i + 1`, ... of `n` devices.
abbrev pub indices : ℕ → ℕ → List ℕ
indices zero i = []
indices (suc n) i = i ∷ indices n (suc i)

-- How an init function ends: with the error of the region and nothing taken; with the region,
-- `n` empty devices and their cdevs; or, reporting success, with neither region nor devices.
pub data InitEnd (n : ℕ) (l : Loaded) : Type 0 where
  refused : (e : Errno) → l.result ≡ err e → l.taken ≡ nothing → InitEnd n l
  loaded :
      (d : Dev)
      → l.result ≡ ok 0
      → l.taken.region ≡ true
      → l.taken.devices ≡ some (replicate n d)
      → l.taken.cdevs ≡ indices n 0
      → d.nodes ≡ []
      → InitEnd n l
  lost :
      l.result ≡ ok 0
      → l.taken.region ≡ false
      → l.taken.devices ≡ none
      → length l.taken.cdevs ≤ n
      → InitEnd n l

setup_short : (f : ℕ → Bool) (n i : ℕ) → length (setup_cdevs f n i).1 ≤ n
unfolding setup_cdevs
setup_short f zero i = omega arith
setup_short f (suc n) i = let rest = setup_short f n (suc i) in ground (arith, rest)

setup_all :
    (f : ℕ → Bool) (n i : ℕ) → (setup_cdevs f n i).0 ≡ true → (setup_cdevs f n i).1 ≡ indices n i
unfolding setup_cdevs
setup_all f zero i e = refl
setup_all f (suc n) i e = let rest = setup_all f n (suc i) in ground (arith, rest)

module _ (n : ℕ) (cdevs : Bool × List ℕ) (short : length cdevs.1 ≤ n) where
  after_cdevs-InitEnd :
      (done : Loaded) → (cdevs.0 ≡ true → InitEnd n done) → InitEnd n (after_cdevs done cdevs)
  after_cdevs-InitEnd done good = elim (Bool-cases cdevs.0) [
    | inl e ↦ rw e (good e)
    | inr e ↦ rw e (lost refl refl refl short)
  ]

  acquire-InitEnd :
      (region : Option Errno) (array : Bool) (done : Loaded)
      → (cdevs.0 ≡ true → InitEnd n done)
      → InitEnd n (acquire region array cdevs done)
  acquire-InitEnd (some e) array done good = refused e refl refl
  acquire-InitEnd none false done good = lost refl refl refl (omega arith)
  acquire-InitEnd none true done good = after_cdevs-InitEnd done good

  with_cache-InitEnd :
      (granted : Bool) (g : Globals) (d : Dev)
      → d.nodes ≡ []
      → cdevs.1 ≡ indices n 0
      → InitEnd n (with_cache granted g (replicate n d) cdevs.1)
  with_cache-InitEnd true g d e all = loaded d refl refl refl all e
  with_cache-InitEnd false g d e all = lost refl refl refl short

-- Whatever the kernel answers, each of the three modules is refused with the region's error and
-- takes nothing, or is loaded with all its devices, empty and alike, and all their cdevs, or
-- reports success although it has given back both region and devices; then cdevs may be left
-- over.
pub init_ends :
    (a : Answers) (n : ℕ) (g : Globals) (page_size scull_order : ℕ)
    → InitEnd n (scull_init a n g)
      × InitEnd n (scullc_init a n g)
      × InitEnd n (scullp_init a n g page_size scull_order)
unfolding scull_init scullc_init scullp_init
init_ends a n g page_size scull_order =
    let cdevs = setup_cdevs a.cdev_fails n 0 in
    let short = setup_short a.cdev_fails n 0 in
    let all = setup_all a.cdev_fails n 0 in
    (
      acquire-InitEnd n cdevs short a.region a.array
          (holding (replicate n (scull_dev g)) cdevs.1 none)
          (λ e. loaded (scull_dev g) refl refl refl (all e) refl),
      acquire-InitEnd n cdevs short a.region a.array
          (with_cache a.cache g (replicate n (scullc_dev g)) cdevs.1)
          (λ e. with_cache-InitEnd n cdevs short a.cache g (scullc_dev g) refl (all e)),
      acquire-InitEnd n cdevs short a.region a.array
          (with_cache a.cache g (replicate n (scullp_dev g page_size scull_order)) cdevs.1)
          (λ e.
            with_cache-InitEnd n cdevs short a.cache g (scullp_dev g page_size scull_order) refl
              (all e)),
    )

-- The blocks that a list of devices holds.
unfoldable pub owned_all : List Dev → ℕ
owned_all [] = 0
owned_all (d ∷ ds) = owned d.nodes + owned_all ds

-- Every device of a list is well formed.
abbrev pub AllAreValid : Allocator → Globals → List Dev → Type 0
AllAreValid k g [] = Unit
AllAreValid k g (d ∷ ds) = IsValid k g d × AllAreValid k g ds

pub trim_all_lem :
    (k : Allocator) (g : Globals) (ds : List Dev) (m : Mem) (rest : ℕ)
    → AllAreValid k g ds
    → m.live ≡ owned_all ds + rest
    → trim_all g ds m ≡ some (record m { live = rest })
unfolding trim_all owned_all
trim_all_lem k g [] m rest v e = ground arith
trim_all_lem k g (d ∷ ds) m rest v e =
    rw (scull_trim_lem k g d m (owned_all ds + rest) v.0 (omega (arith, e))).0
      (trim_all_lem k g ds (record m { live = owned_all ds + rest }) rest v.1 refl)

cdev_del_first : (i : ℕ) (js : List ℕ) → cdev_del i (i ∷ js) ≡ js
cdev_del_first i js = ground arith

-- The loop of the exit functions deletes the cdevs that the loop of the init functions added.
exit_devices_lem :
    (k : Allocator) (g : Globals) (ds : List Dev) (i : ℕ) (m : Mem) (rest : ℕ)
    → AllAreValid k g ds
    → m.live ≡ owned_all ds + rest
    → exit_devices g (length ds) i ds (indices (length ds) i) m
      ≡ some ([], record m { live = rest })
unfolding exit_devices owned_all
exit_devices_lem k g [] i m rest v e = ground arith
exit_devices_lem k g (d ∷ ds) i m rest v e =
    rw
      (
        (scull_trim_lem k g d m (owned_all ds + rest) v.0 (omega (arith, e))).0,
        cdev_del_first i (indices (length ds) (suc i)),
      )
      (exit_devices_lem k g ds (suc i) (record m { live = owned_all ds + rest }) rest v.1 refl)

-- Unloading a module whose devices are well formed, whatever was written to them, each with its
-- cdev, and whose blocks are among those that the driver holds, frees every block of the devices
-- and no other, deletes every cdev, and leaves the module with nothing.
pub exit_frees :
    (k : Allocator) (g : Globals) (t : Taken) (ds : List Dev) (m : Mem) (rest : ℕ)
    → t.devices ≡ some ds
    → t.cdevs ≡ indices (length ds) 0
    → AllAreValid k (record g { object_size = t.object_size }) ds
    → m.live ≡ owned_all ds + rest
    → scull_exit g (length ds) t m ≡ some (nothing, record m { live = rest })
unfolding scull_exit
exit_frees k g t ds m rest e c v l =
    let g' = record g { object_size = t.object_size } in
    ap
      (λ o.
        exit_devices g' (length ds) 0 (devices_at o) t.cdevs m >>= λ x. some (given_back x.0, x.1))
      e
    ∙ ap (λ o. exit_devices g' (length ds) 0 ds o m >>= λ x. some (given_back x.0, x.1)) c
    ∙ (rw (exit_devices_lem k g' ds 0 m rest v l) refl)
