-- ===== src/Jit/Rounds.antt =====
-- The ten rounds of the timer and of the tasklet, and what the reads make of them.
use mydrivers.Prelude.{
  ℕ, suc, ◌+◌, ◌-◌, ◌%◌, ◌≤◌, ◌<◌, ◌≡◌, inl, inr, refl, ap, true, none, some, List, [], ◌∷◌, ◌++◌,
  arith, ltb, ltb→lt, ltb→le, ==_iff, ◌==◌, if◌then◌else◌, length, Bool-cases,
}
use mydrivers.Print.{sprintf_fits}
use mydrivers.Rounds.{Lines, Round, history, word, sbuf_size, elapsed, one_less}
use mydrivers.Jit.Timers.{
  interval, Pending, add_timer, tasklet_schedule, tasklet_hi_schedule, JitData, printer,
  jit_timer_fn, jit_tlet_fn,
}

pub jit_timer_fn-Round : (p : Lines) → Round printer p (jit_timer_fn p)
unfolding jit_timer_fn
jit_timer_fn-Round p j d some_left small room =
    let l = p.line j (elapsed j d.prevjiffies) in
    let fits =
      sprintf_fits sbuf_size d.text l (omega (arith, p.line_short j (elapsed j d.prevjiffies))) in
    let left : one_less d.left_loops ≡ d.left_loops - 1 = omega arith in
    let more : JitData = record d {
      left_loops = one_less d.left_loops;
      prevjiffies = j;
      pending = some (add_timer ((j + interval) % word));
      text = d.text ++ l;
    } in
    let last : JitData = record d {
      left_loops = one_less d.left_loops;
      pending = none;
      woken = true;
      text = d.text ++ l;
    } in
    elim (Bool-cases (ltb 0 (one_less d.left_loops))) [
      | inl e ↦ (
        more,
        rw fits (rw e refl),
        left,
        refl,
        inr ((ltb→lt 0 (one_less d.left_loops) e, refl), refl),
      )
      | inr e ↦ (
        last,
        rw fits (rw e refl),
        left,
        refl,
        inl (omega (arith, ltb→le 0 (one_less d.left_loops) e), refl, refl),
      )
    ]

pub jit_tlet_fn-Round : (p : Lines) → Round printer p (jit_tlet_fn p)
unfolding jit_tlet_fn
jit_tlet_fn-Round p j d some_left small room =
    let l = p.line j (elapsed j d.prevjiffies) in
    let fits =
      sprintf_fits sbuf_size d.text l (omega (arith, p.line_short j (elapsed j d.prevjiffies))) in
    let left : one_less d.left_loops ≡ d.left_loops - 1 = omega arith in
    let asked : Pending = if d.hi then tasklet_hi_schedule else tasklet_schedule in
    let more : JitData = record d {
      left_loops = one_less d.left_loops;
      prevjiffies = j;
      pending = some asked;
      text = d.text ++ l;
    } in
    let last : JitData = record d {
      left_loops = one_less d.left_loops;
      pending = none;
      woken = true;
      text = d.text ++ l;
    } in
    elim (Bool-cases (one_less d.left_loops == 0)) [
      | inl e ↦ (
        last,
        rw fits (rw e refl),
        left,
        refl,
        inl ((==_iff (one_less d.left_loops) 0).0 e, refl, refl),
      )
      | inr e ↦ (more, rw fits (rw e refl), left, refl, inr ((ground arith, refl), refl))
    ]

-- Each time at least `interval` behind the one before, and less than 2 ^ 64.
abbrev pub Late : (prev : ℕ) → List ℕ → Type 0
Late prev [] = Unit
Late prev (t ∷ ts) = (prev + interval ≤ t) × (t < prev + word) × Late t ts

-- `jiffies` at these times.
abbrev pub seen : List ℕ → List ℕ
seen [] = []
seen (t ∷ ts) = t % word ∷ seen ts

-- The lines with the true durations.
abbrev pub timetable : Lines → (prev : ℕ) → List ℕ → List (List ℕ)
timetable p prev [] = []
timetable p prev (t ∷ ts) = p.line (t % word) (t - prev) ∷ timetable p t ts

pub length-seen : (ts : List ℕ) → length (seen ts) ≡ length ts
length-seen [] = refl
length-seen (t ∷ ts) = ap suc (length-seen ts)

elapsed_lem :
    (t prev : ℕ) → prev ≤ t → t < prev + word → elapsed (t % word) (prev % word) ≡ t - prev
elapsed_lem t prev h h' = omega arith

pub history-seen :
    (p : Lines) (prev : ℕ) (ts : List ℕ)
    → Late prev ts
    → history p (prev % word) (seen ts) ≡ timetable p prev ts
history-seen p prev [] h = refl
history-seen p prev (t ∷ ts) (later, near, h) =
    rw (elapsed_lem t prev (omega arith) near)
      (ap (λ ls. p.line (t % word) (t - prev) ∷ ls) (history-seen p t ts h))
