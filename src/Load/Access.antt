-- ===== src/Load/Access.antt =====
-- `scull_access_init` and `scull_access_cleanup` of scull/access.c.
use mydrivers.Prelude.{
  ℕ, zero, suc, ◌+◌, ◌≤◌, ◌<◌, ◌≡◌, refl, ap, ◌∙◌, Bool, Option, none, some, List, [], ◌∷◌,
  if◌then◌else◌, length, arith,
}
use native.Mathlib.Decide.{ℕ_discrete}
use mydrivers.Kernel.{Errno, Result, ok, err, Allocator, Mem, ◌>>=◌}
use mydrivers.Scull.Device.{Dev, Globals}
use mydrivers.Access.Copies.{Item}
use mydrivers.Load.Modules.{scull_dev, trim_all}
use mydrivers.Load.Resources.{owned_all, AllAreValid, trim_all_lem}

-- The regions taken and the cdevs added, by the index of the device, and the devices set so far.
pub record Claimed : Type 0 where
  pub regions : List ℕ
  pub devices : List Dev
  pub cdevs : List ℕ

abbrev pub unclaimed : Claimed
unclaimed = record { regions = []; devices = []; cdevs = [] }

-- One round, before the rounds behind it. A cdev that is not added is only reported.
abbrev claim : Globals → ℕ → Bool → Result ℕ × Claimed → Result ℕ × Claimed
claim g i fails (r, c) = (
  r,
  record {
    regions = i ∷ c.regions;
    devices = scull_dev g ∷ c.devices;
    cdevs = if fails then c.cdevs else i ∷ c.cdevs;
  },
)

abbrev claim_if : Globals → ℕ → Option Errno → Bool → Result ℕ × Claimed → Result ℕ × Claimed
claim_if g i (some e) fails rest = (err e, unclaimed)
claim_if g i none fails rest = claim g i fails rest

-- The `for` loop on the rounds left, from index `i` on, by the error of each region, if it is
-- refused, and whether each `cdev_add` fails. On an error the regions taken before are kept.
unfoldable pub scull_access_init :
    (region : ℕ → Option Errno) (cdev_fails : ℕ → Bool) → Globals → (n i : ℕ) → Result ℕ × Claimed
scull_access_init region cdev_fails g zero i = (ok 0, unclaimed)
scull_access_init region cdev_fails g (suc n) i =
    let rest = scull_access_init region cdev_fails g n (suc i) in
    claim_if g i (region i) (cdev_fails i) rest

abbrev pub devices_of : List Item → List Dev
devices_of [] = []
devices_of (x ∷ xs) = x.dev ∷ devices_of xs

-- Every device is emptied, its cdev deleted and its region returned; then the devices of the list of
-- `scull_c` are emptied. The items of that list are not freed.
unfoldable pub scull_access_cleanup : Globals → List Dev → List Item → Mem → Option (Claimed × Mem)
scull_access_cleanup g ds items m = do
  m' ← trim_all g ds m
  m'' ← trim_all g (devices_of items) m'
  some (unclaimed, m'')

refusal :
    (region : ℕ → Option Errno) (cdev_fails : ℕ → Bool) (g : Globals) (n i : ℕ) (e : Errno) (j : ℕ)
    → i ≤ j
    → j < i + n
    → region j ≡ some e
    → ((h : ℕ) → i ≤ h → h < j → region h ≡ none)
    → let r = scull_access_init region cdev_fails g n i in
      (r.0 ≡ err e) × (i + length r.1.regions ≡ j)
unfolding scull_access_init
refusal region cdev_fails g zero i e j le lt x before = absurd (omega arith)
refusal region cdev_fails g (suc n) i e j le lt x before = elim (ℕ_discrete i j) [
  | yes here ↦ rw (ap region here ∙ x) (refl, omega (arith, here))
  | no later ↦
      let (r, count) =
        refusal region cdev_fails g n (suc i) e j (omega (arith, later)) (omega arith) x
          (λ h above below. before h (omega arith) below) in
      rw (before i (omega arith) (omega (arith, later))) (r, omega (arith, count))
]

-- When a region is refused after `j` others were granted, `scull_access_init` reports that error and
-- keeps the `j` regions.
pub scull_access_init_refused :
    (region : ℕ → Option Errno) (cdev_fails : ℕ → Bool) (g : Globals) (n : ℕ) (e : Errno) (j : ℕ)
    → j < n
    → region j ≡ some e
    → ((h : ℕ) → h < j → region h ≡ none)
    → let r = scull_access_init region cdev_fails g n 0 in (r.0 ≡ err e) × (length r.1.regions ≡ j)
scull_access_init_refused region cdev_fails g n e j lt x before =
    let (r, count) =
      refusal region cdev_fails g n 0 e j (omega arith) (omega arith) x
        (λ h above below. before h below) in
    (r, omega (arith, count))

-- A cleanup of well-formed devices, whose blocks are among those that the driver holds, frees all
-- blocks of the four devices and of the terminals' devices, and nothing else: the items of the
-- terminals' list stay allocated.
pub scull_access_cleanup_lem :
    (k : Allocator) (g : Globals) (ds : List Dev) (items : List Item) (m : Mem) (rest : ℕ)
    → AllAreValid k g ds
    → AllAreValid k g (devices_of items)
    → m.live ≡ owned_all ds + (owned_all (devices_of items) + (length items + rest))
    → scull_access_cleanup g ds items m ≡ some (unclaimed, record m { live = length items + rest })
unfolding scull_access_cleanup
scull_access_cleanup_lem k g ds items m rest v w e =
    let r = length items + rest in
    rw
      (
        trim_all_lem k g ds m (owned_all (devices_of items) + r) v e,
        trim_all_lem k g (devices_of items) (record m { live = owned_all (devices_of items) + r }) r
            w refl,
      )
      refl
