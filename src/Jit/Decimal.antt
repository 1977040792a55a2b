-- ===== src/Jit/Decimal.antt =====
-- A concrete print of decimal numbers, with the lengths that `Format` asks for.
use Prim.Native.Nat.pow
use mydrivers.Prelude.{
  ℕ, zero, suc, ◌+◌, ◌-◌, ◌*◌, ◌/◌, ◌%◌, ◌^◌, ◌≤◌, ◌<◌, ◌≡◌, arith, List, [], ◌∷◌, ◌++◌, ltb,
  ltb→lt, ltb→le, Bool-cases, inl, inr, if◌then◌else◌, length, length-append, replicate,
}
use mydrivers.Jit.Delay.{Format}

-- The digits of a number, on as many divisions by ten as the fuel says.
unfoldable pub decimal : (fuel n : ℕ) → List ℕ
decimal zero n = (48 + n) ∷ []
decimal (suc fuel) n =
    let front = decimal fuel (n / 10) in
    if ltb n 10 then (48 + n) ∷ [] else front ++ ((48 + n % 10) ∷ [])

decimal-short : (fuel n k : ℕ) → n < 10 ^ suc k → length (decimal fuel n) ≤ suc k
unfolding decimal
decimal-short zero n k h = omega arith
decimal-short (suc fuel) n zero h =
    let below : n < 10 = omega (arith, h, pow.suc 10 0, pow.zero 10) in ground (arith, below)
decimal-short (suc fuel) n (suc k) h =
    let power : 10 ^ suc (suc k) ≡ 10 ^ suc k * 10 = pow.suc 10 (suc k) in
    let rest = decimal-short fuel (n / 10) k (omega (arith, power)) in
    elim (Bool-cases (ltb n 10)) [
      | inl e ↦ rw e (omega arith)
      | inr e ↦
          rw e (omega (arith, rest, length-append (decimal fuel (n / 10)) ((48 + n % 10) ∷ [])))
    ]

one-le-pow : (k : ℕ) → 1 ≤ 10 ^ k
one-le-pow zero = omega (arith, pow.zero 10)
one-le-pow (suc k) = omega (arith, pow.suc 10 k, one-le-pow k)

twenty : (r : ℕ) → 10 ^ 20 ≤ 10 ^ (r + 20)
twenty zero = omega arith
twenty (suc r) =
    let e : suc r + 20 ≡ suc (r + 20) = omega arith in
    rw e (omega (arith, pow.suc 10 (r + 20), twenty r))

decimal-long : (fuel n k : ℕ) → k ≤ fuel → 10 ^ k ≤ n → suc k ≤ length (decimal fuel n)
unfolding decimal
decimal-long zero n k h l = omega arith
decimal-long (suc fuel) n zero h l =
    ground (arith, length-append (decimal fuel (n / 10)) ((48 + n % 10) ∷ []))
decimal-long (suc fuel) n (suc k) h l =
    let power : 10 ^ suc k ≡ 10 ^ k * 10 = pow.suc 10 k in
    let rest = decimal-long fuel (n / 10) k (omega arith) (omega (arith, power)) in
    elim (Bool-cases (ltb n 10)) [
      | inl e ↦ absurd (omega (arith, power, one-le-pow k, ltb→lt n 10 e, l))
      | inr e ↦
          rw e (omega (arith, rest, length-append (decimal fuel (n / 10)) ((48 + n % 10) ∷ [])))
    ]

-- A number of a `long` has fewer than twenty-one digits.
few_digits : (k n : ℕ) → 10 ^ k ≤ n → n < 2 ^ 63 → k ≤ 20
few_digits k n h h' = elim (Bool-cases (ltb k 20)) [
  | inl e ↦ omega (arith, ltb→lt k 20 e)
  | inr e ↦
      let back : k - 20 + 20 ≡ k = omega (arith, ltb→le k 20 e) in
      absurd (omega (arith, rw back at (twenty (k - 20))))
]

-- `"%li %li\n"`
abbrev pub delay_text : (j0 j1 : ℕ) → List ℕ
delay_text j0 j1 = decimal 20 j0 ++ (32 ∷ (decimal 20 j1 ++ (10 ∷ [])))

length-delay_text :
    (j0 j1 : ℕ) → length (delay_text j0 j1) ≡ length (decimal 20 j0) + length (decimal 20 j1) + 2
length-delay_text j0 j1 = omega (
  arith,
  length-append (decimal 20 j0) (32 ∷ (decimal 20 j1 ++ (10 ∷ []))),
  length-append (decimal 20 j1) (10 ∷ []),
)

pub short_text :
    (j0 j1 k : ℕ) → 0 < k → j0 < 10 ^ k → j1 < 10 ^ k → length (delay_text j0 j1) ≤ k + k + 2
short_text j0 j1 zero h h0 h1 = absurd (omega arith)
short_text j0 j1 (suc k) h h0 h1 =
    omega (arith, length-delay_text j0 j1, decimal-short 20 j0 k h0, decimal-short 20 j1 k h1)

pub long_text :
    (j0 j1 k : ℕ) → 10 ^ k ≤ j0 → 10 ^ k ≤ j1 → j0 < 2 ^ 63 → k + k + 4 ≤ length (delay_text j0 j1)
long_text j0 j1 k h0 h1 small =
    let few = few_digits k j0 h0 small in
    omega (arith, length-delay_text j0 j1, decimal-long 20 j0 k few h0, decimal-long 20 j1 k few h1)

abbrev pub decimal_format : Format
decimal_format = record {
  current_lines = λ j. replicate 102 48;
  current_fits = λ j. omega arith;
  delay_line = delay_text;
  delay_short = λ j0 j1 k h h0 h1 p p'. short_text j0 j1 k h h0 h1;
  delay_long = λ j0 j1 k h0 h1 p p'. long_text j0 j1 k h0 h1 p;
}
