-- ===== src/Programs/Copying.antt =====
-- What misc_progs/nbtest.c brings from its input to its output, and when it ends.
use mydrivers.Prelude.{
  ℕ, zero, suc, ◌+◌, ◌<◌, ◌≡◌, ◌⊎◌, refl, sym, ◌∙◌, ap, subst, Bool, true, false, not, List, [],
  ◌++◌, append_assoc, append-nil, arith, length, take, take_all, ◌==◌, inl, inr,
}
use mydrivers.Programs.Nbtest.{
  Answer, gives, fails, again, Vars, Subject, stdin, stdout, End, goes_on, exits, begun, breaks,
  subject, round, loop_from, nbtest,
}

Answer-cases : {A : Type 0} (a : Answer A) → ((x : A) × (a ≡ gives x)) ⊎ ((e : ℕ) × (a ≡ fails e))
Answer-cases (gives x) = inl (x, refl)
Answer-cases (fails e) = inr (e, refl)

-- How far the loop came: it goes on with `out`, or it ended with `out` and the name `who`.
abbrev pub GoesOn : End → List ℕ → Type 0
GoesOn e out = (v : Vars) × (e ≡ goes_on v) × (v.output ≡ out)

abbrev pub Exits : End → Subject → List ℕ → Type 0
Exits e who out = (v : Vars) × (e ≡ exits who v) × (v.output ≡ out)

module _ (reads : ℕ → Answer (List ℕ)) (writes : ℕ → List ℕ → Answer ℕ) where
  -- The bytes that come through in a round
  abbrev part_of : Answer ℕ → List ℕ → List ℕ
  part_of (gives k) b = take k b
  part_of (fails e) b = []

  abbrev part_at : ℕ → Answer (List ℕ) → List ℕ
  part_at i (gives b) = part_of (writes i b) b
  part_at i (fails e) = []

  -- and in `k` rounds
  unfoldable pub parts : ℕ → ℕ → List ℕ
  parts zero i = []
  parts (suc k) i = part_at i (reads i) ++ parts k (suc i)

  -- What was read in `k` rounds
  abbrev read_at : Answer (List ℕ) → List ℕ
  read_at (gives b) = b
  read_at (fails e) = []

  unfoldable pub input : ℕ → ℕ → List ℕ
  input zero i = []
  input (suc k) i = read_at (reads i) ++ input k (suc i)

  -- Which of the two calls of a round fails with another error than EAGAIN
  abbrev stops_writing : Answer ℕ → Bool
  stops_writing (gives k) = false
  stops_writing (fails e) = not (e == again)

  abbrev stops_at : ℕ → Answer (List ℕ) → Bool
  stops_at i (gives b) = stops_writing (writes i b)
  stops_at i (fails e) = not (e == again)

  abbrev pub stops : ℕ → Bool
  stops i = stops_at i (reads i)

  abbrev subject_at : Answer (List ℕ) → Subject
  subject_at (gives b) = stdout
  subject_at (fails e) = stdin

  -- One round: what comes out, whether the loop ends, and with which of the two names.
  record Does (v v' : Vars) (part : List ℕ) (stop : Bool) (who : Subject) : Type 0 where
    brings : v'.output ≡ v.output ++ part
    pub ends : breaks v' ≡ stop
    blames : stop ≡ true → subject v' ≡ who
    pub stopped : stop ≡ true → part ≡ []

  round-Does :
      (i : ℕ) (v : Vars)
      → Does v (round reads writes i v) (part_at i (reads i)) (stops i) (subject_at (reads i))
  round-Does i v = elim (Answer-cases (reads i)) [
    | inl (b, e) ↦ elim (Answer-cases (writes i b)) [
      | inl (k, f) ↦
          rw (e, f)
            (record {
              brings = refl;
              ends = refl;
              blames = λ h. absurd (ground (arith, h));
              stopped = λ h. absurd (ground (arith, h));
            })
      | inr (x, f) ↦
          rw (e, f)
            (record {
              brings = sym (append-nil v.output);
              ends = refl;
              blames = λ h. refl;
              stopped = λ h. refl;
            })
    ]
    | inr (x, e) ↦ rw e (record {
      brings = sym (append-nil v.output);
      ends = refl;
      blames = λ h. refl;
      stopped = λ h. refl;
    })
  ]

  joined :
      (i : ℕ) (v : Vars) (rest : List ℕ)
      → (round reads writes i v).output ++ rest ≡ v.output ++ (part_at i (reads i) ++ rest)
  joined i v rest =
      ap (λ l. l ++ rest) (round-Does i v).brings ∙ append_assoc v.output (part_at i (reads i)) rest

  loop_lem :
      (k i : ℕ) (v : Vars)
      → ((j : ℕ) → j < k → stops (i + j) ≡ false)
      → GoesOn (loop_from reads writes k i v) (v.output ++ parts k i)
  unfolding loop_from parts
  loop_lem zero i v h = (v, refl, sym (append-nil v.output))
  loop_lem (suc k) i v h =
      let v' = round reads writes i v in
      let does = round-Does i v in
      let here : stops i ≡ false = subst (λ n. stops n ≡ false) (omega arith) (h 0 (omega arith)) in
      let (last, e, out) =
        loop_lem k (suc i) v'
          (λ j lt. subst (λ n. stops n ≡ false) (omega arith) (h (suc j) (omega arith))) in
      (last, rw (does.ends, here) e, out ∙ joined i v (parts k (suc i)))

  loop-Exits :
      (k rounds i at : ℕ) (v : Vars)
      → k < rounds
      → at ≡ i + k
      → ((j : ℕ) → j < k → stops (i + j) ≡ false)
      → stops at ≡ true
      → Exits (loop_from reads writes rounds i v) (subject_at (reads at)) (v.output ++ parts k i)
  unfolding loop_from parts
  loop-Exits k zero i at v lt e h stop = absurd (omega arith)
  loop-Exits zero (suc r) i at v lt e h stop =
      let here : at ≡ i = omega (arith, e) in
      let does = round-Does i v in
      let ends : stops i ≡ true = subst (λ n. stops n ≡ true) here stop in
      (
        round reads writes i v,
        rw (does.ends, ends, does.blames ends, here) refl,
        does.brings ∙ ap (λ l. v.output ++ l) (does.stopped ends),
      )
  loop-Exits (suc k) (suc r) i at v lt e h stop =
      let does = round-Does i v in
      let here : stops i ≡ false = subst (λ n. stops n ≡ false) (omega arith) (h 0 (omega arith)) in
      let (last, ends, out) =
        loop-Exits k r (suc i) at (round reads writes i v) (omega arith) (omega (arith, e))
          (λ j lt. subst (λ n. stops n ≡ false) (omega arith) (h (suc j) (omega arith))) stop in
      (last, rw (does.ends, here) ends, out ∙ joined i v (parts k (suc i)))

  before : (k : ℕ) → ((j : ℕ) → j < k → stops j ≡ false) → (j : ℕ) → j < k → stops (0 + j) ≡ false
  before k h j lt = subst (λ n. stops n ≡ false) (omega arith) (h j lt)

  -- While no call fails with another error than EAGAIN, the program copies on, and has put out what
  -- the writes took, round by round: a round whose write fails, or takes a part, loses the rest.
  pub nbtest_output :
      (k : ℕ) → ((j : ℕ) → j < k → stops j ≡ false) → GoesOn (nbtest reads writes k) (parts k 0)
  nbtest_output k h = loop_lem k 0 begun (before k h)

  -- Where round `k` is the first in which a call fails with another error than EAGAIN, the program
  -- has ended after any larger number of rounds. It has put out the bytes that came through in the
  -- rounds before, and names its input exactly where the read was what failed.
  pub nbtest_ends :
      (k rounds : ℕ)
      → ((j : ℕ) → j < k → stops j ≡ false)
      → stops k ≡ true
      → k < rounds
      → Exits (nbtest reads writes rounds) (subject_at (reads k)) (parts k 0)
  nbtest_ends k rounds h stop lt = loop-Exits k rounds 0 k begun lt (omega arith) (before k h) stop

  -- Where every write takes all that was read, and no call fails with another error than EAGAIN,
  -- what was put out is what was read.
  parts-eq-input :
      (k i : ℕ)
      → ((j : ℕ) (b : List ℕ) → reads j ≡ gives b → writes j b ≡ gives (length b))
      → parts k i ≡ input k i
  unfolding parts input
  parts-eq-input zero i all = refl
  parts-eq-input (suc k) i all = elim (Answer-cases (reads i)) [
    | inl (b, e) ↦
        rw (e, all i b e, take_all (length b) b (omega arith))
          (ap (λ l. b ++ l) (parts-eq-input k (suc i) all))
    | inr (x, e) ↦ rw e (parts-eq-input k (suc i) all)
  ]
