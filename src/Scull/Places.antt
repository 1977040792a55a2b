-- ===== src/Scull/Places.antt =====
-- File positions and the places that they name: item, slot and offset.
use mydrivers.Prelude.{ℕ, ◌∙◌, ◌+◌, ◌-◌, ◌*◌, ◌/◌, ◌%◌, ◌^◌, subst, ◌≤◌, ◌<◌, ◌≡◌, ap, arith}
use native.Mathlib.Decide.{ℕ_discrete}
use native.Mathlib.Nat.{mod-lt, mod-eq_of_lt, div-add-mod}
use mydrivers.Scull.Device.{int_max, to_int, locate}

div_mod_unique : (a b r : ℕ) → r < b → ((a * b + r) / b ≡ a) × ((a * b + r) % b ≡ r)
div_mod_unique a b r h = (grind arith, grind arith)

div-lt : (n q s : ℕ) → 0 < q → n < q * s → n / q < s
div-lt n q s pos h = grind arith

mul_step : (q b s : ℕ) → b < s → q * b + q ≤ q * s
mul_step q b s h = grind arith

-- The item number of such a position fits an `int`.
abbrev pub InRange : ℕ → ℕ → ℕ → Type 0
InRange quantum qset pos = pos / (quantum * qset) < int_max

module _ (quantum qset : ℕ) (quantum_pos : 0 < quantum) (qset_pos : 0 < qset) where
  product_pos : 0 < quantum * qset
  product_pos = grind arith

  pub s_pos-lt : (pos : ℕ) → (locate quantum qset pos).s_pos < qset
  unfolding locate
  s_pos-lt pos = div-lt (pos % (quantum * qset)) quantum qset quantum_pos (mod-lt pos product_pos)

  pub q_pos-lt : (pos : ℕ) → (locate quantum qset pos).q_pos < quantum
  unfolding locate
  q_pos-lt pos = mod-lt (pos % (quantum * qset)) quantum_pos

  pub item-lt : (pos : ℕ) → InRange quantum qset pos → (locate quantum qset pos).item < int_max
  unfolding locate
  item-lt pos h =
      omega (arith, mod-eq_of_lt {n = pos / (quantum * qset)} {m = 2 ^ 32} (omega arith))

  -- A position is made up of its place.
  pub position :
      (pos : ℕ)
      → InRange quantum qset pos
      → pos
        ≡ (locate quantum qset pos).item * (quantum * qset)
          + ((locate quantum qset pos).s_pos * quantum + (locate quantum qset pos).q_pos)
  unfolding locate
  position pos h =
      let e : to_int (pos / (quantum * qset)) ≡ pos / (quantum * qset) =
        mod-eq_of_lt {n = pos / (quantum * qset)} {m = 2 ^ 32} (omega arith) in
      rw e (
        omega
          (arith, div-add-mod pos (quantum * qset), div-add-mod (pos % (quantum * qset)) quantum))

  -- Positions of one quantum stand as far apart as their offsets.
  pub locate_same :
      (pos p : ℕ)
      → InRange quantum qset pos
      → InRange quantum qset p
      → (locate quantum qset p).item ≡ (locate quantum qset pos).item
      → (locate quantum qset p).s_pos ≡ (locate quantum qset pos).s_pos
      → p + (locate quantum qset pos).q_pos ≡ pos + (locate quantum qset p).q_pos
  locate_same pos p hp hq ei es = omega (
    arith,
    position pos hp,
    position p hq,
    ap (λ (t : ℕ). t * (quantum * qset)) ei,
    ap (λ (t : ℕ). t * quantum) es,
  )

  place_of :
      (i s q : ℕ)
      → i < int_max
      → s < qset
      → q < quantum
      → locate quantum qset (i * (quantum * qset) + (s * quantum + q))
        ≡ record { item = i; s_pos = s; q_pos = q }
  unfolding locate
  place_of i s q hi hs hq =
      let r : ℕ = s * quantum + q in
      let small : r < quantum * qset = grind arith in
      let (outer, inner) = div_mod_unique i (quantum * qset) r small in
      let (slot, offset) = div_mod_unique s quantum q hq in
      rw (outer, inner, slot, offset)
        (ground (arith, mod-eq_of_lt {n = i} {m = 2 ^ 32} (omega arith)))

  -- The positions that follow within the quantum have its item and its slot.
  pub locate_inside :
      (pos p : ℕ)
      → InRange quantum qset pos
      → pos ≤ p
      → (locate quantum qset pos).q_pos + (p - pos) < quantum
      → locate quantum qset p ≡ record {
        item = (locate quantum qset pos).item;
        s_pos = (locate quantum qset pos).s_pos;
        q_pos = (locate quantum qset pos).q_pos + (p - pos);
      }
  locate_inside pos p hp le lt =
      let l = locate quantum qset pos in
      let e : l.item * (quantum * qset) + (l.s_pos * quantum + (l.q_pos + (p - pos))) ≡ p =
        omega (arith, position pos hp) in
      subst
        (λ t.
          locate quantum qset t
          ≡ record { item = l.item; s_pos = l.s_pos; q_pos = l.q_pos + (p - pos) })
        e (place_of l.item l.s_pos (l.q_pos + (p - pos)) (item-lt pos hp) (s_pos-lt pos) lt)

  -- The first position past the last one in range is the only other one up to it, and names a
  -- negative item.
  pub small-InRange :
      (pos : ℕ)
      → pos ≤ int_max * (quantum * qset)
      → (locate quantum qset pos).item < int_max
      → InRange quantum qset pos
  unfolding locate
  small-InRange pos le small = elim (ℕ_discrete pos (int_max * (quantum * qset))) [
    | yes e ↦
        let exact = div_mod_unique int_max (quantum * qset) 0 product_pos in
        let at : pos / (quantum * qset) ≡ int_max =
          ap (λ (p : ℕ). p / (quantum * qset)) (omega (arith, e)) ∙ exact.0 in
        absurd (omega (arith, small, at))
    | no ne ↦
        let lt : pos < int_max * (quantum * qset) = omega (arith, le, ne) in
        div-lt pos (quantum * qset) int_max product_pos (grind arith)
  ]

  -- A quantum ends within range if it starts there.
  pub quantum_end :
      (pos n : ℕ)
      → InRange quantum qset pos
      → (locate quantum qset pos).q_pos + n ≤ quantum
      → pos + n ≤ int_max * (quantum * qset)
  unfolding locate
  quantum_end pos n h fits = omega (
    arith,
    div-add-mod pos (quantum * qset),
    div-add-mod (pos % (quantum * qset)) quantum,
    mul_step quantum (pos % (quantum * qset) / quantum) qset (s_pos-lt pos),
    mul_step (quantum * qset) (pos / (quantum * qset)) int_max h,
    fits,
  )
