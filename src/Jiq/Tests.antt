-- ===== src/Jiq/Tests.antt =====
-- A read of /proc/jiqwq, and the theorem at it.
use mydrivers.Prelude.{◌+◌, ◌%◌, ◌≡◌, refl, arith, some, [], ◌∷◌, ◌++◌, replicate}
use mydrivers.Examples.{copies_all, grants_all, no_blocks}
use mydrivers.Rounds.{Lines, Progress}
use mydrivers.Jiq.Work.{ClientData, printer, jiq_wq, ends_with}
use mydrivers.Jiq.Readers.{jiq_wq_rounds}

abbrev lines : Lines
lines = record {
  headline = replicate 47 45;
  line = λ j d. (48 + j % 10) ∷ (48 + d % 10) ∷ 10 ∷ [];
  headline_short = omega arith;
  line_short = λ j d. omega arith;
}

-- The work runs twice, then a signal comes.
jiq_wq_rounds_example :
    (d : ClientData) × (jiq_wq copies_all grants_all lines 1 0 5 (6 ∷ 8 ∷ []) no_blocks
      ≡ ends_with copies_all grants_all lines 1 0 (record { asked = 1; live = 1 }) (some d))
    × (d.text ≡ replicate 47 45 ++ (54 ∷ 49 ∷ 10 ∷ 56 ∷ 50 ∷ 10 ∷ []))
    × Progress printer 5 2 d
jiq_wq_rounds_example =
    jiq_wq_rounds copies_all grants_all lines 1 no_blocks (replicate 2400 170) 5 (6 ∷ 8 ∷ []) refl
      (omega arith)
