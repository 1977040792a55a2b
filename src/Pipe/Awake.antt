-- ===== src/Pipe/Awake.antt =====
-- Nobody sleeps on while what it waits for is there, but for who is about to be woken.
use mydrivers.Prelude.{ℕ, ◌<◌, ◌≡◌, ◌⊎◌, refl, sym, subst, List, [], arith, inl, inr}
use native.Mathlib.Decide.{ℕ_discrete}
use mydrivers.Prelude.Family.{update}
use mydrivers.Pipe.State.{Pipe}
use mydrivers.Pipe.Contents.{contents, IsValid}
use mydrivers.Pipe.System.{Pc, System, wakes, nobody_polls, turn, Reach, start, later}
use mydrivers.Pipe.Stream.{Inv, fresh, fresh-Inv, Turn-Inv, update_at}
use mydrivers.Pipe.Wakes.{
  IsEmpty, IsFull, ReaderSleeps, WriterSleeps, WakesWriters, WakesReaders, readers_left,
  writers_left, still_wakes, Move-Leaves,
}

-- One of the first `n` processes is at such a point.
abbrev pub Some : ℕ → (Pc → Type 0) → System → Type 0
Some n P s = (j : ℕ) × (j < n) × P (s.pc j)

-- Whoever sleeps waits for what is not there, or is about to be woken.
pub record Awake (n : ℕ) (s : System) : Type 0 where
  pub readers : (i : ℕ) → ReaderSleeps (s.pc i) → IsEmpty s.pipe ⊎ Some n WakesReaders s
  pub writers : (i : ℕ) → WriterSleeps (s.pc i) → IsFull s.pipe ⊎ Some n WakesWriters s

-- One side's half of the invariant after a move: `Sleeps` and `Wakes` are points, and `Lacks` is what
-- the sleepers lack.
one_side :
    (Sleeps Wakes : Pc → Type 0) (Lacks : Pipe → Type 0)
    → ((a c : Pc) → Sleeps (wakes a c) → Sleeps c × (Wakes a → ⊥))
    → ((a c : Pc) → Wakes c → Wakes (wakes a c))
    → (n : ℕ) (pc : ℕ → Pc) (p p' : Pipe) (i : ℕ) (c : Pc) → i < n
    → (Lacks p → Lacks p' ⊎ Wakes c)
    → (Sleeps c → Lacks p')
    → ((j : ℕ) → Sleeps (pc j) → Lacks p ⊎ ((k : ℕ) × (k < n) × Wakes (pc k)))
    → let pc' = update (λ j. wakes (pc i) (pc j)) i c in
      (j : ℕ) → Sleeps (pc' j) → Lacks p' ⊎ ((k : ℕ) × (k < n) × Wakes (pc' k))
one_side Sleeps Wakes Lacks left still n pc p p' i c lt keeps new before j =
    update_at (λ j. wakes (pc i) (pc j)) i c
      (λ x. Sleeps x → Lacks p' ⊎ ((k : ℕ) × (k < n) × Wakes (pc' k))) j (λ h. inl (new h))
      (λ ne h. other (left (pc i) (pc j) h))
  where
    pc' : ℕ → Pc
    pc' = update (λ j. wakes (pc i) (pc j)) i c

    here : Wakes c → Wakes (pc' i)
    here h = update_at (λ j. wakes (pc i) (pc j)) i c Wakes i h (λ ne. absurd (ne refl))

    there : (k : ℕ) → (Wakes (pc i) → ⊥) → Wakes (pc k) → Wakes (pc' k)
    there k unwoken h = elim (ℕ_discrete i k) [
      | yes e ↦ absurd (unwoken (subst (λ m. Wakes (pc m)) (sym e) h))
      | no ne ↦ ground (arith, ne, still (pc i) (pc k) h)
    ]

    other : Sleeps (pc j) × (Wakes (pc i) → ⊥) → Lacks p' ⊎ ((k : ℕ) × (k < n) × Wakes (pc' k))
    other (h, unwoken) = elim (before j h) [
      | inl lacks ↦ elim (keeps lacks) [ inl lacks' ↦ inl lacks' | inr w ↦ inr (i, lt, here w) ]
      | inr found ↦ inr (found.0, found.1, there found.0 unwoken found.2)
    ]

module _ {n : ℕ} (p : Pipe) (b : List ℕ) (v : IsValid p b) (empty : contents p ≡ [])
    (free : p.sem ≡ 1) where
  -- Of every state that is reached: the invariant, and that nobody sleeps on.
  pub Reach-Awake : {s : System} → Reach nobody_polls n (fresh p) s → Inv n s × Awake n s
  Reach-Awake start = (
    fresh-Inv n p b v empty free,
    record { readers = λ i h. absurd h; writers = λ i h. absurd h },
  )
  Reach-Awake (later {t = s} r (turn i {p = p'} {c = c} lt m)) =
      let (inv, awake) = Reach-Awake r in
      let leaves = Move-Leaves m inv.valid (inv.ready i lt) in
      (
        Turn-Inv (turn i lt m) inv,
        record {
          readers =
              one_side ReaderSleeps WakesReaders IsEmpty readers_left (λ a c. (still_wakes a c).0) n
                s.pc s.pipe p' i c lt leaves.empty leaves.reader awake.readers;
          writers =
              one_side WriterSleeps WakesWriters IsFull writers_left (λ a c. (still_wakes a c).1) n
                s.pc s.pipe p' i c lt leaves.full leaves.writer awake.writers;
        },
      )
