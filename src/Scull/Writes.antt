-- ===== src/Scull/Writes.antt =====
-- `scull_write` on a well-formed device: what it returns, and what it does to the bytes.
use mydrivers.Prelude.{
  ℕ, ◌+◌, ◌-◌, ◌≤◌, ◌<◌, ◌≡◌, refl, sym, ◌∙◌, ap, Bool, true, false, Option, List, arith, length,
  get_or, Bool-cases, inl, inr, ◌≢◌, ◌&&◌, ltb, leb, if◌then◌else◌, ◌⊎◌,
}
use native.Mathlib.Decide.{ℕ_discrete}
use mydrivers.Kernel.{Result, ok, err, fault, Uaccess, Allocator, Mem}
use mydrivers.Scull.Device.{Block, Qset, Dev, Globals, Place, int_max, block_at, byte_of, locate}
use mydrivers.Scull.Write.{Outcome, fill, written, scull_write}
use mydrivers.Scull.Invariant.{IsValid, Grown}
use mydrivers.Scull.Places.{InRange, q_pos-lt, locate_same, locate_inside}
use mydrivers.Scull.WriteShape.{with_block, Shape, refused, copied}
use mydrivers.Scull.Blocks.{load, write_count-le, block_at-with_self, block_at-with_ne}
use mydrivers.Scull.WriteEnds.{taken, Reports, wrote, failed, final-Shape, filled, write-Reports}

module _ (u : Uaccess) (k : Allocator) (g : Globals) (d : Dev) (pos : ℕ) (src : List ℕ) (m : Mem)
    (v : IsValid k g d) where
  abbrev final : Outcome
  final = scull_write u k g d pos src false m

  abbrev spot : Place
  spot = locate d.quantum d.qset pos

  -- The block at the place of the write after the copy, and the others.
  module _ (nodes : List Qset) (slots : List (Option Block)) (b : Block) (m' : Mem)
      (within : spot.item < length nodes) (slot_in : spot.s_pos < length slots)
      (enough : d.quantum ≤ length b)
      (grown : Grown d.quantum d.qset d.nodes m
        (with_block nodes spot.item slots spot.s_pos b)
        m') where
    abbrev filling : Result ℕ × Block
    filling = fill u d.quantum b spot.q_pos src

    abbrev nodes_after : List Qset
    nodes_after = with_block nodes spot.item slots spot.s_pos filling.1

    abbrev byte_after : ℕ → ℕ
    byte_after p =
        let l = locate d.quantum d.qset p in byte_of (block_at nodes_after l.item l.s_pos) l.q_pos

    elsewhere :
        (p : ℕ)
        → (spot.item ≢ (locate d.quantum d.qset p).item)
          ⊎ (spot.s_pos ≢ (locate d.quantum d.qset p).s_pos)
        → byte_after p ≡ load d p
    elsewhere p ne =
        let l = locate d.quantum d.qset p in
        ap (λ c. byte_of c l.q_pos)
          (block_at-with_ne nodes spot.item slots spot.s_pos within slot_in filling.1 b l.item
            l.s_pos ne)
        ∙ grown.same l.item l.s_pos l.q_pos (q_pos-lt d.quantum d.qset v.quantum_pos v.qset_pos p)

    block_before :
        (q : ℕ) → q < d.quantum → get_or b q 0 ≡ byte_of (block_at d.nodes spot.item spot.s_pos) q
    block_before q lt =
        sym (
          ap (λ c. byte_of c q)
            (block_at-with_self nodes spot.item slots spot.s_pos within slot_in b))
        ∙ grown.same spot.item spot.s_pos q lt

    block_after :
        (q : ℕ) → byte_of (block_at nodes_after spot.item spot.s_pos) q ≡ get_or filling.1 q 0
    block_after q =
        ap (λ c. byte_of c q)
          (block_at-with_self nodes spot.item slots spot.s_pos within slot_in filling.1)

    here_outside :
        (p : ℕ)
        → InRange d.quantum d.qset pos
        → InRange d.quantum d.qset p
        → spot.item ≡ (locate d.quantum d.qset p).item
        → spot.s_pos ≡ (locate d.quantum d.qset p).s_pos
        → (leb pos p && ltb p (pos + taken d pos src)) ≡ false
        → byte_after p ≡ load d p
    here_outside p hp hq ei es out =
        let l = locate d.quantum d.qset p in
        let apart =
          locate_same d.quantum d.qset v.quantum_pos v.qset_pos pos p hp hq (sym ei) (sym es) in
        rw (← ei, ← es)
          (block_after l.q_pos
            ∙ (filled u k g d pos src m v b enough).outside l.q_pos (ground (arith, apart))
            ∙ block_before l.q_pos (q_pos-lt d.quantum d.qset v.quantum_pos v.qset_pos p))

    outside :
        (p : ℕ)
        → InRange d.quantum d.qset pos
        → InRange d.quantum d.qset p
        → (leb pos p && ltb p (pos + taken d pos src)) ≡ false
        → byte_after p ≡ load d p
    outside p hp hq out = elim (ℕ_discrete spot.item (locate d.quantum d.qset p).item) [
      | no ne ↦ elsewhere p (inl ne)
      | yes ei ↦ elim (ℕ_discrete spot.s_pos (locate d.quantum d.qset p).s_pos) [
        | no ne ↦ elsewhere p (inr ne)
        | yes es ↦ here_outside p hp hq ei es out
      ]
    ]

    inside :
        (p : ℕ)
        → InRange d.quantum d.qset pos
        → filling.0 ≡ ok (taken d pos src)
        → pos ≤ p
        → p < pos + taken d pos src
        → byte_after p ≡ get_or src (p - pos) 0
    inside p hp done le lt =
        let q0 = q_pos-lt d.quantum d.qset v.quantum_pos v.qset_pos pos in
        let bound = write_count-le d.quantum spot.q_pos (length src) q0 in
        let at =
          locate_inside d.quantum d.qset v.quantum_pos v.qset_pos pos p hp le
            (omega (arith, bound)) in
        rw at (
          block_after (spot.q_pos + (p - pos))
          ∙ (filled u k g d pos src m v b enough).inside (spot.q_pos + (p - pos)) done (omega arith)
              (omega arith)
          ∙ ap (λ j. get_or src j 0) (omega arith))

  load-written :
      (r : Result ℕ) (nodes : List Qset) (m' : Mem) (p : ℕ)
      → load (written u k g d pos src r nodes m').dev p ≡ load (record d { nodes = nodes }) p
  load-written (ok n) nodes m' p = refl
  load-written (err e) nodes m' p = refl
  load-written fault nodes m' p = refl

  -- At a position where a copy is made only within range, no byte outside the write changes.
  pub write_outside_of :
      (p : ℕ)
      → (spot.item < int_max → InRange d.quantum d.qset pos)
      → InRange d.quantum d.qset p
      → (leb pos p && ltb p (pos + taken d pos src)) ≡ false
      → load final.dev p ≡ load d p
  write_outside_of p hp hq out = go final (final-Shape u k g d pos src m v)
    where
      go : (o : Outcome) → Shape u k g d pos src m o → load o.dev p ≡ load d p
      go o (refused nodes m' grown e) =
          let l = locate d.quantum d.qset p in
          rw e (
            grown.same l.item l.s_pos l.q_pos
              (q_pos-lt d.quantum d.qset v.quantum_pos v.qset_pos p))
      go o (copied nodes slots b m' small within slot_in enough grown e) = rw e (
          load-written (fill u d.quantum b spot.q_pos src).0
            (with_block nodes spot.item slots spot.s_pos (fill u d.quantum b spot.q_pos src).1) m' p
          ∙ outside nodes slots b m' within slot_in enough grown p (hp small) hq out)

  -- On a well-formed device, whatever a write that gets the semaphore reports, it changes no byte
  -- outside the range that it was to fill; for positions whose quantum set has a number that is a
  -- non-negative `int`.
  pub write_outside :
      (p : ℕ)
      → InRange d.quantum d.qset pos
      → InRange d.quantum d.qset p
      → (leb pos p && ltb p (pos + taken d pos src)) ≡ false
      → load final.dev p ≡ load d p
  write_outside p hp = write_outside_of p (λ _. hp)

  -- A write that stored something did so in a quantum set whose number is a non-negative `int`.
  pub write_small : (n : ℕ) → final.result ≡ ok n → spot.item < int_max
  write_small n done = go final (final-Shape u k g d pos src m v) done
    where
      go : (o : Outcome) → Shape u k g d pos src m o → o.result ≡ ok n → spot.item < int_max
      go o (refused nodes m' grown e) h = absurd (ground arith)
      go o (copied nodes slots b m' small within slot_in enough grown e) h = small

  result-written :
      (r : Result ℕ) (nodes : List Qset) (m' : Mem)
      → (written u k g d pos src r nodes m').result ≡ r
  result-written (ok n) nodes m' = refl
  result-written (err e) nodes m' = refl
  result-written fault nodes m' = refl

  pub write_inside :
      (p : ℕ)
      → InRange d.quantum d.qset pos
      → final.result ≡ ok (taken d pos src)
      → pos ≤ p
      → p < pos + taken d pos src
      → load final.dev p ≡ get_or src (p - pos) 0
  write_inside p hp done le lt = go final (final-Shape u k g d pos src m v) done
    where
      go :
          (o : Outcome)
          → Shape u k g d pos src m o
          → o.result ≡ ok (taken d pos src)
          → load o.dev p ≡ get_or src (p - pos) 0
      go o (refused nodes m' grown e) done' = absurd (ground arith)
      go o (copied nodes slots b m' small within slot_in enough grown e) done' =
          let r = fill u d.quantum b spot.q_pos src in
          let after = with_block nodes spot.item slots spot.s_pos r.1 in
          let r_ok : r.0 ≡ ok (taken d pos src) =
            sym (result-written r.0 after m') ∙ sym (ap (λ (x : Outcome). x.result) e) ∙ done' in
          rw e (
            load-written r.0 after m' p
            ∙ inside nodes slots b m' within slot_in enough grown p hp r_ok le lt)

  -- On a well-formed device, a write that gets the semaphore and returns `n` stores the first `n`
  -- bytes of the caller's buffer at the position, and every other byte stays as it was; for
  -- positions whose quantum set has a number that is a non-negative `int`.
  pub write_bytes :
      (n p : ℕ)
      → InRange d.quantum d.qset pos
      → InRange d.quantum d.qset p
      → final.result ≡ ok n
      → load final.dev p
        ≡ (if leb pos p && ltb p (pos + n) then get_or src (p - pos) 0 else load d p)
  write_bytes n p hp hq done =
      rw (count_taken (write-Reports u k g d pos src m v))
        (split (Bool-cases (leb pos p && ltb p (pos + taken d pos src))))
    where
      count_taken : Reports d pos src final → n ≡ taken d pos src
      count_taken (wrote e _ _) = cc
      count_taken (failed (inl e) _ _) = cc
      count_taken (failed (inr e) _ _) = cc

      window : Bool
      window = leb pos p && ltb p (pos + taken d pos src)

      split :
          (window ≡ true) ⊎ (window ≡ false)
          → load final.dev p ≡ (if window then get_or src (p - pos) 0 else load d p)
      split (inl e) = rw e (
          write_inside p hp (done ∙ ap ok (count_taken (write-Reports u k g d pos src m v)))
            (ground arith) (ground arith))
      split (inr e) = rw e (write_outside p hp hq e)
