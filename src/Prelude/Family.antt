-- ===== src/Prelude/Family.antt =====
-- Processes numbered from 0 on: what each of them is at, and how many of the first few count.
use Prim.Native.Nat.{ℕ, zero, suc, ◌+◌, ◌≤◌, ◌<◌}
use mathlib.Core.Path.{◌≡◌, refl, sym, ap, subst}
use mathlib.Core.Logic.{◌≢◌, ◌⊎◌, inl, inr}
use native.Mathlib.Omega.{arith}
use native.Mathlib.Decide.{ℕ_discrete}
use mydrivers.Prelude.Tests.{◌==◌, if◌then◌else◌}

-- The family with another value at one place.
abbrev pub update : {A : Type 0} → (ℕ → A) → ℕ → A → ℕ → A
update old at new = λ j. if at == j then new else old j

-- Sums of a sequence of numbers, the last term first.
unfoldable pub sum_to : (ℕ → ℕ) → ℕ → ℕ
sum_to g zero = 0
sum_to g (suc k) = g k + sum_to g k

-- Sequences that agree on the terms summed have one sum.
sum_to-agree : (g h : ℕ → ℕ) (k : ℕ) → ((j : ℕ) → j < k → h j ≡ g j) → sum_to h k ≡ sum_to g k
unfolding sum_to
sum_to-agree g h zero same = refl
sum_to-agree g h (suc k) same =
    let below = sum_to-agree g h k (λ j lt. same j (omega arith)) in
    omega (arith, below, same k (omega arith))

-- Where only one term changes, the sum changes with it.
sum_to-change :
    (g h : ℕ → ℕ) (i k : ℕ)
    → ((j : ℕ) → i ≢ j → h j ≡ g j)
    → i < k
    → sum_to h k + g i ≡ sum_to g k + h i
unfolding sum_to
sum_to-change g h i zero same lt = absurd (omega arith)
sum_to-change g h i (suc k) same lt = elim (ℕ_discrete i k) [
  | yes e ↦
      let before = sum_to-agree g h k (λ j below. same j (λ f. omega (arith, e, f, below))) in
      omega (arith, before, ap g e, ap h e)
  | no ne ↦
      let before = sum_to-change g h i k same (omega (arith, ne, lt)) in
      omega (arith, before, same k ne)
]

term-le-sum_to : (g : ℕ → ℕ) (k i : ℕ) → i < k → g i ≤ sum_to g k
unfolding sum_to
term-le-sum_to g zero i lt = absurd (omega arith)
term-le-sum_to g (suc k) i lt = let inner = term-le-sum_to g k i in ground (arith, inner)

terms-le-sum_to : (g : ℕ → ℕ) (k i j : ℕ) → i ≢ j → i < k → j < k → g i + g j ≤ sum_to g k
unfolding sum_to
terms-le-sum_to g zero i j ne lt lt' = absurd (omega arith)
terms-le-sum_to g (suc k) i j ne lt lt' =
    let both = terms-le-sum_to g k i j ne in
    let one = term-le-sum_to g k in ground (arith, both, one i, one j)

sum_to_zeros : (g : ℕ → ℕ) (k : ℕ) → ((i : ℕ) → g i ≡ 0) → sum_to g k ≡ 0
unfolding sum_to
sum_to_zeros g zero zeros = refl
sum_to_zeros g (suc k) zeros = omega (arith, zeros k, sum_to_zeros g k zeros)

-- The weight of the first `n` members of a family.
module _ {A : Type 0} (w : A → ℕ) where
  abbrev pub total : ℕ → (ℕ → A) → ℕ
  total n f = sum_to (λ i. w (f i)) n

  pub total-update :
      (n : ℕ) (f : ℕ → A) (i : ℕ) (new : A)
      → i < n
      → total n (update f i new) + w (f i) ≡ total n f + w new
  total-update n f i new lt =
      let g = λ (j : ℕ). w (f j) in
      let h = λ (j : ℕ). w (update f i new j) in
      let there : h i ≡ w new = ground arith in
      omega (arith, sum_to-change g h i n (λ j ne. ground (arith, ne)) lt, there)

  pub total-agree : (n : ℕ) (f g : ℕ → A) → ((i : ℕ) → w (g i) ≡ w (f i)) → total n g ≡ total n f
  total-agree n f g same = sum_to-agree (λ i. w (f i)) (λ i. w (g i)) n (λ i lt. same i)

  pub total-ge : (n : ℕ) (f : ℕ → A) (i : ℕ) → i < n → w (f i) ≤ total n f
  total-ge n f i = term-le-sum_to (λ j. w (f j)) n i

  pub total_pair :
      (n : ℕ) (f : ℕ → A) (i j : ℕ) → i < n → j < n → i ≢ j → w (f i) + w (f j) ≤ total n f
  total_pair n f i j lt lt' ne = terms-le-sum_to (λ j. w (f j)) n i j ne lt lt'

  pub total-eq-zero : (n : ℕ) (f : ℕ → A) → ((i : ℕ) → w (f i) ≡ 0) → total n f ≡ 0
  total-eq-zero n f = sum_to_zeros (λ j. w (f j)) n

  -- Where the sum is positive some member counts.
  pub total_member : (n : ℕ) (f : ℕ → A) → 0 < total n f → (i : ℕ) × (i < n) × (0 < w (f i))
  unfolding sum_to
  total_member zero f h = absurd (omega arith)
  total_member (suc n) f h = elim (ℕ_discrete (w (f n)) 0) [
    | yes e ↦ let (i, lt, pos) = total_member n f (omega (arith, e, h)) in (i, omega arith, pos)
    | no ne ↦ (n, omega arith, omega (arith, ne))
  ]

-- Where each of the first few members shows that one thing holds or has a property of its own, the
-- thing holds or all of them have the property.
pub one_or_all_below :
    {P : Type 0} {Q : ℕ → Type 0} (n : ℕ)
    → ((i : ℕ) → i < n → P ⊎ Q i)
    → P ⊎ ((i : ℕ) → i < n → Q i)
one_or_all_below {P} {Q} zero each = inr (λ i lt. absurd (omega arith))
one_or_all_below {P} {Q} (suc n) each =
    go (each n (omega arith)) (one_or_all_below n (λ i lt. each i (omega arith)))
  where
    go : P ⊎ Q n → P ⊎ ((i : ℕ) → i < n → Q i) → P ⊎ ((i : ℕ) → i < suc n → Q i)
    go (inl p) rest = inl p
    go (inr q) (inl p) = inl p
    go (inr q) (inr all) = inr (λ i lt. elim (ℕ_discrete i n) [
      | yes e ↦ subst Q (sym e) q
      | no ne ↦ all i (omega (arith, lt, ne))
    ])
