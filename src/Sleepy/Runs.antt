-- ===== src/Sleepy/Runs.antt =====
-- Who wakes whom in sleepy.c.
use mydrivers.Prelude.{
  ℕ, zero, suc, ◌<◌, ◌≤◌, ◌≡◌, ◌≢◌, refl, sym, ap, subst, arith, Bool, true, false, if◌then◌else◌,
  ◌==◌, List, [], ◌∷◌,
}
use mydrivers.Prelude.Family.{update}
use mydrivers.Kernel.{ok}
use mydrivers.Sleepy.Device.{
  idle, waiting, passed, System, cleared, sleepy_write, Event, silent, signalled, did_read,
  did_write, Move, begin_read, sees_flag, interrupted, end_read, write, asleep, Run, loaded,
  then_move,
}

-- How many writes, signals and ended reads were told.
abbrev pub writes : List (ℕ × Event) → ℕ
writes [] = 0
writes ((i, did_write r) ∷ told) = suc (writes told)
writes ((i, _) ∷ told) = writes told

abbrev pub signals : List (ℕ × Event) → ℕ
signals [] = 0
signals ((i, signalled) ∷ told) = suc (signals told)
signals ((i, _) ∷ told) = signals told

abbrev pub reads : List (ℕ × Event) → ℕ
reads [] = 0
reads ((i, did_read r) ∷ told) = suc (reads told)
reads ((i, _) ∷ told) = reads told

-- Whether a write, or a signal to process `i`, came after the last read of `i` that ended.
abbrev caused : ℕ → List (ℕ × Event) → Bool
caused i [] = false
caused i ((j, silent) ∷ told) = caused i told
caused i ((j, signalled) ∷ told) = let before = caused i told in if i == j then true else before
caused i ((j, did_read r) ∷ told) = let before = caused i told in if i == j then false else before
caused i ((j, did_write r) ∷ told) = true

-- Before each end of a read of `i`, and after the one before it, came a write or a signal to `i`.
abbrev pub ReadsAreCaused : ℕ → List (ℕ × Event) → Type 0
ReadsAreCaused i [] = Unit
ReadsAreCaused i ((j, did_read r) ∷ told) = (i ≡ j → caused i told ≡ true) × ReadsAreCaused i told
ReadsAreCaused i ((j, _) ∷ told) = ReadsAreCaused i told

-- Without a write or a signal since its last read the flag is not set and `i` is not behind the wait.
record Caused (i : ℕ) (told : List (ℕ × Event)) (s : System) : Type 0 where
  pub flagged : s.flag ≡ true → caused i told ≡ true
  pub past : s.pc i ≡ passed → caused i told ≡ true
  pub before : ReadsAreCaused i told

idle≢passed : idle ≢ passed
idle≢passed e = ground arith

waiting≢passed : waiting ≢ passed
waiting≢passed e = ground arith

module _ (i : ℕ) where
  move-Caused :
      (told : List (ℕ × Event)) {s : System} {j : ℕ} {e : Event} {s' : System}
      → Caused i told s
      → Move s j e s'
      → Caused i ((j, e) ∷ told) s'
  move-Caused told {j = j} c (begin_read at) = record {
    flagged = c.flagged;
    past = λ e. ground (arith, e, c.past, waiting≢passed);
    before = c.before;
  }
  move-Caused told {j = j} c (sees_flag at set) = record {
    flagged = c.flagged;
    past = λ e. c.flagged set;
    before = c.before;
  }
  move-Caused told {j = j} c (interrupted at) = record {
    flagged = λ e. ground (arith, e, c.flagged);
    past = λ e. ground (arith, e, c.past);
    before = c.before;
  }
  move-Caused told {s} {j = j} c (end_read at) = record {
    flagged = λ e. absurd (ground (arith, e));
    past = λ e. ground (arith, e, c.past, idle≢passed);
    before = (λ same. c.past (subst (λ k. s.pc k ≡ passed) (sym same) at), c.before);
  }
  move-Caused told {j = j} c (write size at) = record {
    flagged = λ e. refl;
    past = λ e. refl;
    before = c.before;
  }

  run-Caused : {told : List (ℕ × Event)} {s : System} → Run told s → Caused i told s
  run-Caused loaded = record {
    flagged = λ e. absurd (ground (arith, e));
    past = λ e. absurd (idle≢passed e);
    before = tt;
  }
  run-Caused (then_move {told} j run move) = move-Caused told (run-Caused run) move

-- In every run of any number of processes, before each end of a read of a process comes a write, by
-- whom ever, or a signal to that process, and this after the end of the read of that process
-- before: no write and no signal lets one process return twice.
pub sleeps_until_caused :
    (i : ℕ) (told : List (ℕ × Event)) (s : System) → Run told s → ReadsAreCaused i told
sleeps_until_caused i told s run = (run-Caused i run).before

-- Runs in which the first `n` processes read: `k` of them began; then somebody wrote; `k` of them saw
-- the flag; `k` of them returned.
Counted : (w r : ℕ) → List (ℕ × Event) → Type 0
Counted w r told = (writes told ≡ w) × (reads told ≡ r) × (signals told ≡ 0)

begun :
    (k : ℕ)
    → (told : List (ℕ × Event)) × (s : System) × Run told s
      × Counted 0 0 told
      × ((i : ℕ) → i < k → s.pc i ≡ waiting)
      × ((i : ℕ) → k ≤ i → s.pc i ≡ idle)
unfolding Counted
begun zero = ([], asleep, loaded, (refl, refl, refl), λ i h. absurd (omega arith), λ i h. refl)
begun (suc k) =
    let (told, s, run, counted, in_wait, outside) = begun k in
    (
      (k, silent) ∷ told,
      record s { pc = update s.pc k waiting },
      then_move k run (begin_read (outside k (omega arith))),
      counted,
      λ i h. ground (arith, in_wait i),
      λ i h. ground (arith, outside i),
    )

seen :
    (n k : ℕ)
    → k ≤ n
    → (told : List (ℕ × Event)) × (s : System) × Run told s
      × Counted 1 0 told
      × (s.flag ≡ true)
      × ((i : ℕ) → i < k → s.pc i ≡ passed)
      × ((i : ℕ) → k ≤ i → i < n → s.pc i ≡ waiting)
unfolding Counted
seen n zero h =
    let (told, s, run, (w, r, g), in_wait, outside) = begun n in
    (
      (n, did_write (ok 1)) ∷ told,
      sleepy_write s,
      then_move n run (write 1 (outside n (omega arith))),
      (ap suc w, r, g),
      refl,
      λ i h. absurd (omega arith),
      λ i h l. in_wait i l,
    )
seen n (suc k) h =
    let (told, s, run, counted, set, behind, in_wait) = seen n k (omega arith) in
    (
      (k, silent) ∷ told,
      record s { pc = update s.pc k passed },
      then_move k run (sees_flag (in_wait k (omega arith) (omega arith)) set),
      counted,
      set,
      λ i h. ground (arith, behind i),
      λ i h l. ground (arith, in_wait i),
    )

returned :
    (n k : ℕ)
    → k ≤ n
    → (told : List (ℕ × Event)) × (s : System) × Run told s
      × Counted 1 k told
      × ((i : ℕ) → k ≤ i → i < n → s.pc i ≡ passed)
unfolding Counted
returned n zero h =
    let (told, s, run, counted, _, behind, _) = seen n n (omega arith) in
    (told, s, run, counted, λ i h l. behind i l)
returned n (suc k) h =
    let (told, s, run, (w, r, g), behind) = returned n k (omega arith) in
    (
      (k, did_read (ok 0)) ∷ told,
      cleared s k,
      then_move k run (end_read (behind k (omega arith) (omega arith))),
      (w, ap suc r, g),
      λ i h l. ground (arith, behind i),
    )

-- One write can let any number of readers return: there is a run with one write and no signal in which
-- `n` reads end.
pub one_write_wakes_all :
    (n : ℕ)
    → (told : List (ℕ × Event)) × (s : System) × Run told s
      × (writes told ≡ 1)
      × (signals told ≡ 0)
      × (reads told ≡ n)
unfolding Counted
one_write_wakes_all n =
    let (told, s, run, (w, r, g), _) = returned n n (omega arith) in (told, s, run, w, g, r)
