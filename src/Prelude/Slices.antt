-- ===== src/Prelude/Slices.antt =====
-- Ranges of a byte array: reading `n` bytes from an offset, and overwriting them.
use Prim.Native.Nat.{ℕ, zero, suc, ◌+◌, ◌-◌, ◌<◌, ◌≤◌}
use mathlib.Core.Path.{◌≡◌, refl, sym, ◌∙◌, ap}
use mathlib.Core.Logic.{◌⊎◌, inl, inr}
use Prim.Native.Nat.add
use mathlib.Core.Bool.{◌&&◌}
use mathlib.Core.List.{List, [], ◌∷◌, ◌++◌}
use native.Mathlib.Omega.{arith}
use mydrivers.Prelude.Tests.{ltb, leb, if◌then◌else◌}
use mydrivers.Prelude.Lists.{length, get_or, take, drop, length-take, length-drop}

module _ {A : Type 0} where
  -- `n` elements from index `i` on, as far as the list goes.
  abbrev pub slice : List A → ℕ → ℕ → List A
  slice xs i n = take n (drop i xs)

  -- The elements of `ys` written over those of `xs` from index `i` on. What would fall past the
  -- end is dropped.
  abbrev pub splice : List A → ℕ → List A → List A
  splice [] i ys = []
  splice (x ∷ xs) zero [] = x ∷ xs
  splice (x ∷ xs) zero (y ∷ ys) = y ∷ splice xs zero ys
  splice (x ∷ xs) (suc i) ys = x ∷ splice xs i ys

  pub take_nil : (m : ℕ) → take {A = A} m [] ≡ []
  take_nil zero = refl
  take_nil (suc m) = refl

  drop_nil : (m : ℕ) → drop {A = A} m [] ≡ []
  drop_nil zero = refl
  drop_nil (suc m) = refl

  pub length-splice : (xs : List A) (i : ℕ) (ys : List A) → length (splice xs i ys) ≡ length xs
  length-splice [] i ys = refl
  length-splice (x ∷ xs) zero [] = refl
  length-splice (x ∷ xs) zero (y ∷ ys) = ap suc (length-splice xs zero ys)
  length-splice (x ∷ xs) (suc i) ys = ap suc (length-splice xs i ys)

  pub length-slice : (xs : List A) (i n : ℕ) → i + n ≤ length xs → length (slice xs i n) ≡ n
  length-slice xs i n h = omega (arith, length-take n (drop i xs), length-drop i xs)

  pub get_or-take :
      (n : ℕ) (xs : List A) (i : ℕ) (d : A) → i < n → get_or (take n xs) i d ≡ get_or xs i d
  get_or-take zero xs i d h = absurd (omega arith)
  get_or-take (suc n) [] i d h = refl
  get_or-take (suc n) (x ∷ xs) zero d h = refl
  get_or-take (suc n) (x ∷ xs) (suc i) d h = get_or-take n xs i d (omega arith)

  pub get_or-drop :
      (n : ℕ) (xs : List A) (i : ℕ) (d : A) → get_or (drop n xs) i d ≡ get_or xs (n + i) d
  get_or-drop zero xs i d = ap (λ k. get_or xs k d) (omega arith)
  get_or-drop (suc n) [] i d = refl
  get_or-drop (suc n) (x ∷ xs) i d = ground (arith, get_or-drop n xs i d, shift)
    where
      shift : suc n + i ≡ suc (n + i)
      shift = omega arith

  -- What an overwritten list holds at an index of the list.
  pub get_or-splice :
      (xs : List A) (i : ℕ) (ys : List A) (j : ℕ) (d : A)
      → j < length xs
      → get_or (splice xs i ys) j d
        ≡ (if leb i j && ltb j (i + length ys) then get_or ys (j - i) d else get_or xs j d)
  get_or-splice [] i ys j d h = absurd (omega arith)
  get_or-splice (x ∷ xs) zero [] j d h = ground arith
  get_or-splice (x ∷ xs) zero (y ∷ ys) zero d h = ground arith
  get_or-splice (x ∷ xs) zero (y ∷ ys) (suc j) d h = ground (arith, get_or-splice xs zero ys j d)
  get_or-splice (x ∷ xs) (suc i) ys zero d h = ground arith
  get_or-splice (x ∷ xs) (suc i) ys (suc j) d h = ground (arith, get_or-splice xs i ys j d)

  -- What was written is read back.
  pub slice-splice :
      (xs : List A) (i : ℕ) (ys : List A)
      → i + length ys ≤ length xs
      → slice (splice xs i ys) i (length ys) ≡ ys
  slice-splice [] zero [] h = refl
  slice-splice [] zero (y ∷ ys) h = absurd (omega arith)
  slice-splice [] (suc i) [] h = refl
  slice-splice [] (suc i) (y ∷ ys) h = absurd (omega arith)
  slice-splice (x ∷ xs) zero [] h = refl
  slice-splice (x ∷ xs) zero (y ∷ ys) h = ap (λ zs. y ∷ zs) (slice-splice xs zero ys (omega arith))
  slice-splice (x ∷ xs) (suc i) ys h = slice-splice xs i ys (omega arith)

  take-add : (n m : ℕ) (xs : List A) → take (n + m) xs ≡ take n xs ++ take m (drop n xs)
  take-add zero m xs = ap (λ k. take k xs) (omega arith)
  take-add (suc n) m [] = rw add.suc (sym (take_nil m))
  take-add (suc n) m (x ∷ xs) = rw add.suc (ap (λ ys. x ∷ ys) (take-add n m xs))

  drop-add : (n m : ℕ) (xs : List A) → drop (n + m) xs ≡ drop m (drop n xs)
  drop-add zero m xs = ap (λ k. drop k xs) (omega arith)
  drop-add (suc n) m [] = rw add.suc (sym (drop_nil m))
  drop-add (suc n) m (x ∷ xs) = rw add.suc (drop-add n m xs)

  -- Ranges of a list next to one another.
  pub slice-append : (b : List A) (i n m : ℕ) → slice b i (n + m) ≡ slice b i n ++ slice b (i + n) m
  slice-append b i n m =
      take-add n m (drop i b) ∙ sym (ap (λ l. slice b i n ++ take m l) (drop-add i n b))

  -- A range that an overwriting does not meet.
  pub slice-splice_apart :
      (b : List A) (i : ℕ) (ys : List A) (j n : ℕ)
      → (j + n ≤ i) ⊎ (i + length ys ≤ j)
      → slice (splice b i ys) j n ≡ slice b j n
  slice-splice_apart [] i ys j n h = refl
  slice-splice_apart (x ∷ xs) zero [] j n h = refl
  slice-splice_apart (x ∷ xs) zero (y ∷ ys) zero zero h = refl
  slice-splice_apart (x ∷ xs) zero (y ∷ ys) zero (suc n) h = absurd (omega arith)
  slice-splice_apart (x ∷ xs) zero (y ∷ ys) (suc j) n h = elim h [
    | inl e ↦ absurd (omega arith)
    | inr e ↦ slice-splice_apart xs zero ys j n (inr (omega arith))
  ]
  slice-splice_apart (x ∷ xs) (suc i) ys zero zero h = refl
  slice-splice_apart (x ∷ xs) (suc i) ys zero (suc n) h = elim h [
    | inl e ↦ ap (λ zs. x ∷ zs) (slice-splice_apart xs i ys zero n (inl (omega arith)))
    | inr e ↦ absurd (omega arith)
  ]
  slice-splice_apart (x ∷ xs) (suc i) ys (suc j) n h = slice-splice_apart xs i ys j n (omega arith)
