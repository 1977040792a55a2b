-- ===== src/Scull/Blocks.antt =====
-- The bytes of a device by file position, and one quantum of it filled by a copy.
use mydrivers.Prelude.{
  ℕ, zero, suc, ◌+◌, ◌-◌, ◌≤◌, ◌<◌, ◌≡◌, refl, sym, ◌∙◌, ap, subst, true, false, Option, none, some,
  List, [], ◌∷◌, arith, length, get_or, set, take, get_or-set_self, get_or-set_ne, length-set,
  length-take, Bool-cases, inl, inr, ◌≢◌, ◌&&◌, ltb, leb, ◌==◌, if◌then◌else◌, ◌⊎◌, slice, splice,
  length-splice, length-slice, get_or-splice, get_or-take, le→leb, ==_iff,
}
use native.Mathlib.Decide.{ℕ_discrete}
use mydrivers.Kernel.{Result, ok, err, efault, Uaccess}
use mydrivers.Scull.Device.{Block, Qset, Dev, empty_qset, quantum_of, block_at, byte_of, locate}
use mydrivers.Scull.Write.{write_count, fill}
use mydrivers.Scull.Invariant.{
  DataIsFit, NodesAreFit, SlotsAreFit, BlockIsFit, owned, owned-set, owned_slots-set,
  get_or-put_self, get_or-put_ne,
}
use mydrivers.Scull.WriteShape.{with_block}

-- The byte at a file position, where a hole holds zeros.
abbrev pub load : Dev → ℕ → ℕ
load d p = let l = locate d.quantum d.qset p in byte_of (block_at d.nodes l.item l.s_pos) l.q_pos

-- Which bytes a copy into a block may change.
pub record Filled (u : Uaccess) (quantum : ℕ) (b : Block) (q : ℕ) (src : List ℕ) (r : Result ℕ)
    (b' : Block) : Type 0 where
  pub sized : length b' ≡ length b
  pub outcome : (r ≡ ok (write_count quantum q (length src))) ⊎ (r ≡ err efault)
  pub outside :
      (j : ℕ)
      → (leb q j && ltb j (q + write_count quantum q (length src))) ≡ false
      → get_or b' j 0 ≡ get_or b j 0
  pub inside :
      (j : ℕ)
      → r ≡ ok (write_count quantum q (length src))
      → q ≤ j
      → j < q + write_count quantum q (length src)
      → get_or b' j 0 ≡ get_or src (j - q) 0

pub write_count-le :
    (quantum q count : ℕ)
    → q < quantum
    → (write_count quantum q count ≤ count) × (q + write_count quantum q count ≤ quantum)
unfolding write_count
write_count-le quantum q count h = ground arith

get_or-splice_any :
    (xs : List ℕ) (i : ℕ) (ys : List ℕ) (j : ℕ)
    → (leb i j && ltb j (i + length ys)) ≡ false
    → get_or (splice xs i ys) j 0 ≡ get_or xs j 0
get_or-splice_any [] i ys j h = refl
get_or-splice_any (x ∷ xs) zero [] j h = refl
get_or-splice_any (x ∷ xs) zero (y ∷ ys) zero h = ground arith
get_or-splice_any (x ∷ xs) zero (y ∷ ys) (suc j) h = get_or-splice_any xs zero ys j (ground arith)
get_or-splice_any (x ∷ xs) (suc i) ys zero h = refl
get_or-splice_any (x ∷ xs) (suc i) ys (suc j) h = get_or-splice_any xs i ys j (ground arith)

module _ (u : Uaccess) (quantum : ℕ) (b : Block) (q : ℕ) (src : List ℕ)
    (enough : quantum ≤ length b) (lt : q < quantum) where
  abbrev n : ℕ
  n = write_count quantum q (length src)

  bytes-length : length (u.copy_from_user (slice b q n) (take n src)).1 ≡ n
  bytes-length =
      let old = length-slice b q n (omega (arith, write_count-le quantum q (length src) lt)) in
      omega (
        arith,
        u.in_place (slice b q n) (take n src)
            (omega (arith, old, length-take n src, write_count-le quantum q (length src) lt)),
        old,
      )

  in_block : leb (q + n) (length b) ≡ true
  in_block = le→leb _ _ (omega (arith, write_count-le quantum q (length src) lt))

  abbrev copy : ℕ × List ℕ
  copy = u.copy_from_user (slice b q n) (take n src)

  fill_lem : fill u quantum b q src ≡ (if copy.0 == 0 then ok n else err efault, splice b q copy.1)
  unfolding fill
  fill_lem = rw in_block

  copied_byte :
      (j : ℕ)
      → copy.0 ≡ 0
      → q ≤ j
      → j < q + n
      → get_or (splice b q copy.1) j 0 ≡ get_or src (j - q) 0
  copied_byte j e le hlt =
      let at =
        get_or-splice b q copy.1 j 0 (omega (arith, write_count-le quantum q (length src) lt)) in
      let same : get_or copy.1 (j - q) 0 ≡ get_or (take n src) (j - q) 0 =
        ap (λ l. get_or l (j - q) 0) (u.copied (slice b q n) (take n src) e) in
      ground (arith, at, bytes-length, same, get_or-take n src (j - q) 0)

  filled :
      (r : Result ℕ)
      → (r ≡ ok n → copy.0 ≡ 0)
      → (r ≡ ok n) ⊎ (r ≡ err efault)
      → Filled u quantum b q src r (splice b q copy.1)
  filled r clean end = record {
    sized = length-splice b q copy.1;
    outcome = end;
    outside = λ j h. get_or-splice_any b q copy.1 j (rw bytes-length h);
    inside = λ j e le hlt. copied_byte j (clean e) le hlt;
  }

  pub fill-Filled : Filled u quantum b q src (fill u quantum b q src).0 (fill u quantum b q src).1
  fill-Filled = elim (Bool-cases (copy.0 == 0)) [
    | inl e ↦ rw (fill_lem, e) (filled (ok n) (λ _. (==_iff _ _).0 e) (inl refl))
    | inr e ↦ rw (fill_lem, e) (filled (err efault) (λ h. cc) (inr refl))
  ]

-- A block put twice into one slot: the other slots and nodes are alike, and the number of blocks.
module _ (nodes : List Qset) (i : ℕ) (slots : List (Option Block)) (s : ℕ)
    (within : i < length nodes) (slot_in : s < length slots) where
  pub block_at-with_self : (b : Block) → block_at (with_block nodes i slots s b) i s ≡ some b
  block_at-with_self b =
      rw (get_or-put_self nodes i (set slots s (some b)) within)
        (get_or-set_self slots s (some b) none slot_in)

  other_slot :
      (b b' : Block) (t : ℕ)
      → s ≢ t
      → get_or (set slots s (some b)) t none ≡ get_or (set slots s (some b')) t none
  other_slot b b' t ne =
      get_or-set_ne slots s t (some b) none ne ∙ sym (get_or-set_ne slots s t (some b') none ne)

  other_node :
      (b b' : Block) (j : ℕ)
      → i ≢ j
      → get_or (with_block nodes i slots s b) j empty_qset
        ≡ get_or (with_block nodes i slots s b') j empty_qset
  other_node b b' j ne =
      get_or-put_ne nodes i (set slots s (some b)) within j ne
      ∙ sym (get_or-put_ne nodes i (set slots s (some b')) within j ne)

  pub block_at-with_ne :
      (b b' : Block) (j t : ℕ)
      → (i ≢ j) ⊎ (s ≢ t)
      → block_at (with_block nodes i slots s b) j t ≡ block_at (with_block nodes i slots s b') j t
  block_at-with_ne b b' j t ne = elim (ℕ_discrete i j) [
    | no other ↦ ap (λ q. quantum_of q t) (other_node b b' j other)
    | yes e ↦
        subst
          (λ j'.
            block_at (with_block nodes i slots s b) j' t
            ≡ block_at (with_block nodes i slots s b') j' t)
          e
          (rw (get_or-put_self nodes i (set slots s (some b)) within) (
            rw (get_or-put_self nodes i (set slots s (some b')) within)
              (other_slot b b' t (slot_ne e ne))))
  ]
    where
      slot_ne : i ≡ j → (i ≢ j) ⊎ (s ≢ t) → s ≢ t
      slot_ne e (inl h) = absurd (h e)
      slot_ne e (inr h) = h

  pub owned-with :
      (b b' : Block) → owned (with_block nodes i slots s b) ≡ owned (with_block nodes i slots s b')
  owned-with b b' = omega (
    arith,
    owned-set nodes i (record { data_ = some (set slots s (some b)) }) within,
    owned-set nodes i (record { data_ = some (set slots s (some b')) }) within,
    owned_slots-set slots s (some b) slot_in,
    owned_slots-set slots s (some b') slot_in,
  )

  pub fit-with :
      (quantum qset : ℕ) (b b' : Block)
      → length b' ≡ length b
      → NodesAreFit quantum qset (with_block nodes i slots s b)
      → NodesAreFit quantum qset (with_block nodes i slots s b')
  fit-with quantum qset b b' e f j = elim (ℕ_discrete i j) [
    | no other ↦ subst (λ q. DataIsFit quantum qset q.data_) (other_node b b' j other) (f j)
    | yes same ↦
        subst
          (λ j'.
            DataIsFit quantum qset (get_or (with_block nodes i slots s b') j' empty_qset).data_)
          same
          (subst (λ q. DataIsFit quantum qset q.data_)
            (sym (get_or-put_self nodes i (set slots s (some b')) within)) new_data)
  ]
    where
      data_fit : DataIsFit quantum qset (some (set slots s (some b)))
      data_fit =
          subst (λ q. DataIsFit quantum qset q.data_)
            (get_or-put_self nodes i (set slots s (some b)) within) (f i)

      slots_fit : SlotsAreFit quantum (set slots s (some b'))
      slots_fit t = elim (ℕ_discrete s t) [
        | no ne ↦ subst (BlockIsFit quantum) (other_slot b b' t ne) (data_fit.1 t)
        | yes eq ↦
            subst (λ t'. BlockIsFit quantum (get_or (set slots s (some b')) t' none)) eq
              (subst (BlockIsFit quantum) (sym (get_or-set_self slots s (some b') none slot_in)) (
                omega (
                  arith,
                  e,
                  subst (BlockIsFit quantum) (get_or-set_self slots s (some b) none slot_in)
                      (data_fit.1 s),
                )))
      ]

      new_data : DataIsFit quantum qset (some (set slots s (some b')))
      new_data =
          (length-set slots s (some b') ∙ sym (length-set slots s (some b)) ∙ data_fit.0, slots_fit)
