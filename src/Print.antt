-- ===== src/Print.antt =====
-- What the files under /proc share: lines printed into a buffer of fixed size by `sprintf`, and the
-- text handed over to the caller.
use mydrivers.Prelude.{
  ℕ, ◌+◌, ◌≤◌, ◌<◌, ◌≡◌, ◌∙◌, refl, sym, ap, Option, none, some, List, [], ◌∷◌, ◌++◌, append_assoc,
  append-nil, arith, length, length-append, leb, le→leb, gt→leb, ◌==◌, if◌then◌else◌, Bool-cases,
  inl, inr,
}
use mydrivers.Kernel.{efault, Result, ok, err, fault, ◌>>=◌, Uaccess, Mem}
use mydrivers.Scull.Alloc.{release_block}

-- `sprintf` behind the text in a buffer of `size` bytes, its last byte the zero; `none` past the end.
unfoldable pub sprintf : (size : ℕ) (text line : List ℕ) → Option (List ℕ)
sprintf size text line =
    if leb (length text + length line + 1) size then some (text ++ line) else none

pub sprintf_fits :
    (size : ℕ) (text line : List ℕ)
    → length text + length line + 1 ≤ size
    → sprintf size text line ≡ some (text ++ line)
unfolding sprintf
sprintf_fits size text line h = rw (le→leb (length text + length line + 1) size h) refl

pub sprintf_past :
    (size : ℕ) (text line : List ℕ)
    → size < length text + length line + 1
    → sprintf size text line ≡ none
unfolding sprintf
sprintf_past size text line h = rw (gt→leb (length text + length line + 1) size h) refl

unfoldable pub sprintf_all : (size : ℕ) (text : List ℕ) → List (List ℕ) → Option (List ℕ)
sprintf_all size text [] = some text
sprintf_all size text (line ∷ lines) = do
  text' ← sprintf size text line
  sprintf_all size text' lines

abbrev pub joined : List (List ℕ) → List ℕ
joined [] = []
joined (line ∷ lines) = line ++ joined lines

-- Lines that fit the buffer together are printed one behind the other.
pub sprintf_all_lem :
    (size : ℕ) (text : List ℕ) (lines : List (List ℕ))
    → length text + length (joined lines) + 1 ≤ size
    → sprintf_all size text lines ≡ some (text ++ joined lines)
unfolding sprintf_all sprintf
sprintf_all_lem size text [] h = ap some (sym (append-nil text))
sprintf_all_lem size text (line ∷ lines) h =
    let l = length-append line (joined lines) in
    let l' = length-append text line in
    rw (le→leb (length text + length line + 1) size (omega (arith, h, l))) (
      sprintf_all_lem size (text ++ line) lines (omega (arith, h, l, l'))
      ∙ ap some (append_assoc text line (joined lines)))

-- Lines that do not fit together, with at least one of them, run past the end.
pub sprintf_all_overflow :
    (size : ℕ) (text line : List ℕ) (lines : List (List ℕ))
    → size < length text + length (joined (line ∷ lines)) + 1
    → sprintf_all size text (line ∷ lines) ≡ none
unfolding sprintf_all sprintf
sprintf_all_overflow size text line [] h =
    rw (gt→leb (length text + length line + 1) size (omega (arith, h, length-append line []))) refl
sprintf_all_overflow size text line (l ∷ ls) h =
    let l1 = length-append line (l ++ joined ls) in
    let l2 = length-append text line in
    let rest = sprintf_all_overflow size (text ++ line) l ls (omega (arith, h, l1, l2)) in
    elim (Bool-cases (leb (length text + length line + 1) size)) [
      | inl e ↦ rw e rest
      | inr e ↦ rw e refl
    ]

-- What a read returns, and the position and the blocks after it, and the bytes delivered.
pub record Reply : Type 0 where
  pub result : Result ℕ
  pub pos : ℕ
  pub mem : Mem
  pub delivered : List ℕ

-- A read that frees its buffer and delivers nothing.
abbrev pub gives_up : Result ℕ → ℕ → Mem → Reply
gives_up r pos m = record { result = r; pos = pos; mem = release_block m; delivered = [] }

-- `copy_to_user`, `*ppos += len`, `kfree`, with the text printed; `none` where it overflowed.
abbrev pub hands_over : Uaccess → ℕ → Mem → Option (List ℕ) → Reply
hands_over u pos m none = record { result = fault; pos = pos; mem = m; delivered = [] }
hands_over u pos m (some text) =
    if u.copy_to_user text == 0
    then record {
      result = ok (length text);
      pos = pos + length text;
      mem = release_block m;
      delivered = text;
    }
    else gives_up (err efault) pos m
