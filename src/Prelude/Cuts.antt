-- ===== src/Prelude/Cuts.antt =====
-- Ranges of a list cut at its end.
use Prim.Native.Nat.{ℕ, zero, suc, ◌+◌, ◌-◌, ◌≤◌, min}
use mathlib.Core.Path.{◌≡◌, refl, sym, ◌∙◌, ap}
use mathlib.Core.Logic.{inl, inr}
use mathlib.Core.List.{List, [], ◌∷◌, ◌++◌}
use native.Mathlib.Omega.{arith}
use mydrivers.Prelude.Tests.{leb, leb→le, Bool-cases}
use mydrivers.Prelude.Lists.{length, take, drop, length-drop, take-append-drop}
use mydrivers.Prelude.Slices.{slice}

take_beyond :
    {A : Type 0} (n k : ℕ) (xs : List A) → length xs ≤ n → length xs ≤ k → take n xs ≡ take k xs
take_beyond zero zero xs h h' = refl
take_beyond zero (suc k) [] h h' = refl
take_beyond zero (suc k) (x ∷ xs) h h' = absurd (omega arith)
take_beyond (suc n) zero [] h h' = refl
take_beyond (suc n) zero (x ∷ xs) h h' = absurd (omega arith)
take_beyond (suc n) (suc k) [] h h' = refl
take_beyond (suc n) (suc k) (x ∷ xs) h h' =
    ap (λ ys. x ∷ ys) (take_beyond n k xs (omega arith) (omega arith))

-- A range cut at the end of the list is the same range.
pub slice_cut :
    (t : List ℕ) (pos count : ℕ) → slice t pos (min count (length t - pos)) ≡ slice t pos count
slice_cut t pos count =
    let rest = length-drop pos t in
    elim (Bool-cases (leb count (length t - pos))) [
      | inl e ↦ ap (λ n. take n (drop pos t)) (omega (arith, leb→le count (length t - pos) e))
      | inr e ↦
          take_beyond (min count (length t - pos)) count (drop pos t) (ground (arith, rest, e))
            (ground (arith, rest, e))
    ]

pub drop_past : {A : Type 0} (n : ℕ) (xs : List A) → length xs ≤ n → drop n xs ≡ []
drop_past zero [] h = refl
drop_past zero (x ∷ xs) h = absurd (omega arith)
drop_past (suc n) [] h = refl
drop_past (suc n) (x ∷ xs) h = drop_past n xs (omega arith)

drop-drop : {A : Type 0} (n k : ℕ) (xs : List A) → drop k (drop n xs) ≡ drop (n + k) xs
drop-drop zero k xs = let e : k ≡ 0 + k = omega arith in ap (λ i. drop i xs) e
drop-drop (suc n) k [] = drop_past k [] (omega arith) ∙ sym (drop_past (suc n + k) [] (omega arith))
drop-drop (suc n) k (x ∷ xs) =
    let e : suc (n + k) ≡ suc n + k = omega arith in drop-drop n k xs ∙ ap (λ i. drop i (x ∷ xs)) e

-- A range and what is behind it.
pub slice-drop :
    (t : List ℕ) (pos count : ℕ)
    → slice t pos count ++ drop (pos + min count (length t - pos)) t ≡ drop pos t
slice-drop t pos count =
    let n = min count (length t - pos) in
    rw⁻¹ (slice_cut t pos count) (rw⁻¹ (drop-drop pos n t) (take-append-drop n (drop pos t)))
