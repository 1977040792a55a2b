-- ===== src/Load/Numbers.antt =====
-- The device numbers under which the modules add their cdevs: `scull_setup_cdev` of scull/main.c,
-- scullc/main.c and scullp/main.c, `scull_p_setup_cdev` of scull/pipe.c, `scull_access_setup_cdev` of
-- scull/access.c and `globalmem_setup_cdev` of globalmem/globalmem.c.
use mydrivers.Prelude.{
  ℕ, zero, suc, ◌+◌, ◌≤◌, ◌<◌, ◌≡◌, refl, ◌∙◌, ap, subst, Bool, true, false, List, [], ◌∷◌, ◌++◌,
  arith, if◌then◌else◌, ◌==◌, Bool-cases, inl, inr,
}
use mydrivers.Load.Modules.{setup_cdevs}

-- The kernel's numbers: `MKDEV`, `MAJOR` and `MINOR`. The next minor number is the next number.
pub record DevNumbers : Type 0 where
  pub mkdev : ℕ → ℕ → ℕ
  pub major_of : ℕ → ℕ
  pub minor_of : ℕ → ℕ
  pub minors : ℕ
  pub split : (dev : ℕ) → mkdev (major_of dev) (minor_of dev) ≡ dev
  pub next : (ma mi i : ℕ) → mi + i < minors → mkdev ma (mi + i) ≡ mkdev ma mi + i

-- `scull_major` and `scull_minor`
pub record Numbers : Type 0 where
  pub scull_major : ℕ
  pub scull_minor : ℕ

-- By the number, whether `cdev_add` fails; whether the cdev was added, and the number that was.
abbrev pub add_cdev : (ℕ → Bool) → ℕ → Bool × List ℕ
add_cdev cdev_add_fails devno = if cdev_add_fails devno then (false, []) else (true, devno ∷ [])

abbrev pub scull_p_setup_cdev : (ℕ → Bool) → (scull_p_devno : ℕ) → ℕ → Bool × List ℕ
scull_p_setup_cdev cdev_add_fails scull_p_devno index =
    add_cdev cdev_add_fails (scull_p_devno + index)

abbrev pub scull_access_setup_cdev : (ℕ → Bool) → (devno : ℕ) → Bool × List ℕ
scull_access_setup_cdev cdev_add_fails devno = add_cdev cdev_add_fails devno

module _ (k : DevNumbers) where
  -- The first number of the region, which is registered where the module has a major number and else
  -- `dev`, which the kernel allocates.
  abbrev pub region_start : Numbers → ℕ → ℕ
  region_start v dev = if v.scull_major == 0 then dev else k.mkdev v.scull_major 0

  -- The numbers after that
  abbrev pub region_numbers : Numbers → ℕ → Numbers
  region_numbers v dev =
      if v.scull_major == 0
      then record { scull_major = k.major_of dev; scull_minor = k.minor_of dev }
      else v

  module _ (cdev_add_fails : ℕ → Bool) where
    abbrev pub scull_setup_cdev : Numbers → ℕ → Bool × List ℕ
    scull_setup_cdev v index =
        add_cdev cdev_add_fails (k.mkdev v.scull_major (v.scull_minor + index))

    -- those of scullc/main.c and scullp/main.c
    abbrev pub scullc_setup_cdev : Numbers → ℕ → Bool × List ℕ
    scullc_setup_cdev v index =
        add_cdev cdev_add_fails (k.mkdev v.scull_major (v.scull_minor + index))

    abbrev pub scullp_setup_cdev : Numbers → ℕ → Bool × List ℕ
    scullp_setup_cdev v index =
        add_cdev cdev_add_fails (k.mkdev v.scull_major (v.scull_minor + index))

    -- A failure is reported only.
    abbrev pub globalmem_setup_cdev : (globalmem_major index : ℕ) → List ℕ
    globalmem_setup_cdev globalmem_major index =
        (add_cdev cdev_add_fails (k.mkdev globalmem_major index)).1

-- The loop of an init function on the rounds left, from index `i` on, and the numbers added.
unfoldable pub setup_all : (ℕ → Bool × List ℕ) → ℕ → ℕ → Bool × List ℕ
setup_all setup zero i = (true, [])
setup_all setup (suc n) i =
    let (all, rest) = setup_all setup n (suc i) in
    let (done, added) = setup i in if done then (all, added ++ rest) else (false, [])

-- `n` numbers in a row
abbrev pub row : ℕ → ℕ → List ℕ
row start zero = []
row start (suc n) = start ∷ row (suc start) n

-- What a loop leaves: all numbers of the row, or those before the first that failed.
pub data Added (fails : ℕ → Bool) (start n : ℕ) : Bool × List ℕ → Type 0 where
  all_added : Added fails start n (true, row start n)
  stopped : (j : ℕ) → j < n → fails (start + j) ≡ true → Added fails start n (false, row start j)

-- One more number in front of a row
Added-suc :
    {fails : ℕ → Bool} {start n : ℕ} {r : Bool × List ℕ}
    → fails start ≡ false
    → Added fails (suc start) n r
    → Added fails start (suc n) (r.0, start ∷ r.1)
Added-suc e all_added = all_added
Added-suc {fails} e (stopped j lt f) =
    stopped (suc j) (omega arith) (subst (λ m. fails m ≡ true) (omega arith) f)

setup_all-Added :
    (fails : ℕ → Bool) (setup : ℕ → Bool × List ℕ) (start n i : ℕ)
    → ((j : ℕ) → j < n → setup (i + j) ≡ add_cdev fails (start + j))
    → Added fails start n (setup_all setup n i)
unfolding setup_all
setup_all-Added fails setup start zero i h = all_added
setup_all-Added fails setup start (suc n) i h =
    let here : setup i ≡ add_cdev fails start =
      subst (λ m. setup m ≡ add_cdev fails start) (omega arith)
        (h 0 (omega arith) ∙ ap (add_cdev fails) (omega arith)) in
    elim (Bool-cases (fails start)) [
      | inl e ↦ rw (here, e) (stopped 0 (omega arith) (subst (λ m. fails m ≡ true) (omega arith) e))
      | inr e ↦
          let rest = setup_all-Added fails setup (suc start) n (suc i) (λ j lt.
            ap setup (omega arith) ∙ h (suc j) (omega arith) ∙ ap (add_cdev fails) (omega arith)) in
          rw (here, e) (Added-suc e rest)
    ]

module _ (k : DevNumbers) (fails : ℕ → Bool) where
  -- Where the region's minor numbers are numbers of the kernel: the loops of the three init functions
  -- that set up memory devices add cdevs under the numbers of the region, one after the other
  -- from its first on, one for each device; or they stop at the first that the kernel refuses,
  -- with those before it added.
  pub setup-Added :
      (v : Numbers) (dev n : ℕ)
      → v.scull_minor ≡ 0
      → n ≤ k.minors
      → k.minor_of dev + n ≤ k.minors
      → let w = region_numbers k v dev in
        let start = region_start k v dev in
        Added fails start n (setup_all (scull_setup_cdev k fails w) n 0)
        × Added fails start n (setup_all (scullc_setup_cdev k fails w) n 0)
        × Added fails start n (setup_all (scullp_setup_cdev k fails w) n 0)
  setup-Added v dev n z fit fits = (run, run, run)
    where
      w : Numbers
      w = region_numbers k v dev

      number :
          (j : ℕ)
          → j < n
          → k.mkdev w.scull_major (w.scull_minor + (0 + j)) ≡ region_start k v dev + j
      number j lt = elim (Bool-cases (v.scull_major == 0)) [
        | inl e ↦ rw e (
            ap (λ i. k.mkdev (k.major_of dev) (k.minor_of dev + i)) (omega arith)
            ∙ k.next (k.major_of dev) (k.minor_of dev) j (omega (arith, lt, fits))
            ∙ ap (λ d. d + j) (k.split dev))
        | inr e ↦ rw e (
            ap (k.mkdev v.scull_major) (omega (arith, z))
            ∙ k.next v.scull_major 0 j (omega (arith, lt, fit)))
      ]

      run : Added fails (region_start k v dev) n (setup_all (scull_setup_cdev k fails w) n 0)
      run =
          setup_all-Added fails (scull_setup_cdev k fails w) (region_start k v dev) n 0
            (λ j lt. ap (add_cdev fails) (number j lt))

-- The same for the pipe, whose numbers start at the one that the kernel allocates.
pub pipes-Added :
    (fails : ℕ → Bool) (dev n : ℕ)
    → Added fails dev n (setup_all (scull_p_setup_cdev fails dev) n 0)
pipes-Added fails dev n =
    setup_all-Added fails (scull_p_setup_cdev fails dev) dev n 0
      (λ j lt. ap (add_cdev fails) (omega arith))

-- The cdevs of Load/Modules are those of these numbers, by the index of the device.
abbrev pub shifted : ℕ → List ℕ → List ℕ
shifted start [] = []
shifted start (i ∷ is) = (start + i) ∷ shifted start is

pub setup_all-setup_cdevs :
    (fails : ℕ → Bool) (start n i : ℕ)
    → let (all, indices) = setup_cdevs (λ j. fails (start + j)) n i in
      setup_all (λ j. add_cdev fails (start + j)) n i ≡ (all, shifted start indices)
unfolding setup_all setup_cdevs
setup_all-setup_cdevs fails start zero i = refl
setup_all-setup_cdevs fails start (suc n) i = elim (Bool-cases (fails (start + i))) [
  | inl e ↦ rw e refl
  | inr e ↦ rw (e, setup_all-setup_cdevs fails start n (suc i)) refl
]
