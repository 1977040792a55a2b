-- ===== src/Pipe/Progress.antt =====
-- The pipe, while nobody polls: it does not stand still while one of its processes could go on.
use mydrivers.Prelude.{
  ℕ, ◌+◌, ◌-◌, ◌<◌, ◌≡◌, ◌⊎◌, refl, sym, subst, Bool, true, false, not, List, [], ◌∷◌, length,
  arith, inl, inr, ◌==◌, Bool-cases,
}
use native.Mathlib.Decide.{ℕ_discrete}
use mydrivers.Prelude.Family.{total_member, one_or_all_below}
use mydrivers.Examples.{copies_all}
use mydrivers.Kernel.{Result}
use mydrivers.Pipe.State.{Pipe, spacefree, is_nonblock, has_nonblock}
use mydrivers.Pipe.Contents.{contents, IsValid}
use mydrivers.Pipe.System.{
  Reading, Writing, Pc, idle, r_enter, r_loop, r_sleep, r_asleep, r_body, r_done, w_enter, w_loop,
  w_sleep, w_asleep, w_body, w_done, p_enter, returned, holds, System, Polling, nobody_polls, Move,
  call_read, call_write, r_down, r_interrupted, r_ready, r_again, r_wait, r_wake, r_schedule,
  r_signal, r_roused, r_copy, r_wakes, w_down, w_interrupted, w_ready, w_again, w_wait, w_wake,
  w_schedule, w_signal, w_roused, w_copy, w_wakes, call_poll, poll_interrupted, opens, releases,
  asks_signals, next_call, Reach,
}
use mydrivers.Pipe.Effects.{IsReady}
use mydrivers.Pipe.Stream.{Inv, fresh}
use mydrivers.Pipe.Refinement.{held_empty, is_full}
use mydrivers.Pipe.Wakes.{ReaderSleeps, WriterSleeps, WakesWriters, WakesReaders}
use mydrivers.Pipe.Awake.{Awake, Reach-Awake}

-- A move that brings a call on: it is not the begin of one, no signal, and no wake-up for nothing.
abbrev useful :
    {h : Polling} {p p' : Pipe} {c c' : Pc} {took gave : List ℕ} → Move h p c p' c' took gave → Bool
useful (call_read r) = false
useful (call_write w) = false
useful r_interrupted = false
useful (r_signal e) = false
useful r_roused = false
useful w_interrupted = false
useful {p = p} w_wake = not (spacefree p == 0)
useful w_signal = false
useful w_roused = false
useful (call_poll e) = false
useful (poll_interrupted e) = false
useful (opens k nth interrupted f_mode free) = false
useful (releases left interrupted f_mode free users) = false
useful (asks_signals fasync_helper mode) = false
useful next_call = false
useful _ = true

pub record CanWork (p : Pipe) (c : Pc) : Type 0 where
  pub pipe : Pipe
  pub pc : Pc
  pub took : List ℕ
  pub gave : List ℕ
  pub move : Move nobody_polls p c pipe pc took gave
  pub brings_on : useful move ≡ true

-- Outside a call, or asleep for what is not there.
pub data Rests (p : Pipe) : Pc → Type 0 where
  outside : Rests p idle
  ended : {r : Result ℕ} → Rests p (returned r)
  starved : {r : Reading} → contents p ≡ [] → Rests p (r_asleep r)
  stuffed : {w : Writing} → length (contents p) ≡ p.buffersize - 1 → Rests p (w_asleep w)

nil_of_length : (xs : List ℕ) → length xs ≡ 0 → xs ≡ []
nil_of_length [] h = refl
nil_of_length (x ∷ xs) h = absurd (omega arith)

-- In the queue, until somebody wakes it.
data Asleep : Pc → Type 0 where
  reader : {r : Reading} → Asleep (r_asleep r)
  writer : {w : Writing} → Asleep (w_asleep w)

Rests-free : {p : Pipe} {c : Pc} → Rests p c → holds c ≡ 0
Rests-free outside = refl
Rests-free ended = refl
Rests-free (starved e) = refl
Rests-free (stuffed e) = refl

Asleep-free : {c : Pc} → Asleep c → holds c ≡ 0
Asleep-free reader = refl
Asleep-free writer = refl

module _ (p : Pipe) where
  works :
      {c : Pc} (p' : Pipe) (c' : Pc) {took gave : List ℕ}
      (m : Move nobody_polls p c p' c' took gave)
      → useful m ≡ true
      → CanWork p c
  works p' c' m e = record { pipe = p'; pc = c'; took = _; gave = _; move = m; brings_on = e }

  -- Where the process holds the semaphore or it is free, the process can go on, or is outside a
  -- call, or sleeps.
  works_or_waits :
      (c : Pc) → IsReady p c → 0 < holds c + p.sem → CanWork p c ⊎ (Rests p c ⊎ Asleep c)
  works_or_waits idle v h = inr (inl outside)
  works_or_waits (r_enter r) v h = inl (works _ _ (r_down (omega arith)) refl)
  works_or_waits (r_loop r) v h = elim (ℕ_discrete p.rp p.wp) [
    | yes e ↦ elim (Bool-cases (is_nonblock r.f_flags)) [
      | inl b ↦ inl (works _ _ (r_again e b) refl)
      | inr b ↦ inl (works _ _ (r_wait e b) refl)
    ]
    | no ne ↦ inl (works _ _ (r_ready ne) refl)
  ]
  works_or_waits (r_sleep r) v h = elim (ℕ_discrete p.rp p.wp) [
    | yes e ↦ inl (works _ _ (r_schedule e) refl)
    | no ne ↦ inl (works _ _ (r_wake ne) refl)
  ]
  works_or_waits (r_asleep r) v h = inr (inr reader)
  works_or_waits (r_body r) v h = inl (works _ _ (r_copy copies_all refl) refl)
  works_or_waits (r_done n) v h = inl (works _ _ r_wakes refl)
  works_or_waits (w_enter w) v h = inl (works _ _ (w_down (omega arith)) refl)
  works_or_waits (w_loop w) v h = elim (ℕ_discrete (spacefree p) 0) [
    | yes e ↦ elim (Bool-cases (has_nonblock w.f_flags)) [
      | inl b ↦ inl (works _ _ (w_again e b) refl)
      | inr b ↦ inl (works _ _ (w_wait e b) refl)
    ]
    | no ne ↦ inl (works _ _ (w_ready ne) refl)
  ]
  works_or_waits (w_sleep w) v h = elim (ℕ_discrete (spacefree p) 0) [
    | yes e ↦ inl (works _ _ (w_schedule e) refl)
    | no ne ↦ inl (works _ _ w_wake (ground (arith, ne)))
  ]
  works_or_waits (w_asleep w) v h = inr (inr writer)
  works_or_waits (w_body w) v h = inl (works _ _ (w_copy copies_all refl) refl)
  works_or_waits (w_done n) v h = inl (works _ _ w_wakes refl)
  works_or_waits p_enter v h = absurd v
  works_or_waits (returned r) v h = inr (inl ended)

  -- A process that holds the semaphore can go on.
  holder_works : (c : Pc) → IsReady p c → 0 < holds c → CanWork p c
  holder_works c v h = go (works_or_waits c v (omega (arith, h)))
    where
      go : CanWork p c ⊎ (Rests p c ⊎ Asleep c) → CanWork p c
      go (inl work) = work
      go (inr (inl rests)) = absurd (omega (arith, Rests-free rests))
      go (inr (inr sleeps)) = absurd (omega (arith, Asleep-free sleeps))

  wakes_readers : (c : Pc) → WakesReaders c → CanWork p c
  wakes_readers (w_done n) h = works _ _ w_wakes refl
  wakes_readers c h = absurd h

  wakes_writers : (c : Pc) → WakesWriters c → CanWork p c
  wakes_writers (r_done n) h = works _ _ r_wakes refl
  wakes_writers c h = absurd h

reader_sleeps : {c : Pc} {r : Reading} → c ≡ r_asleep r → ReaderSleeps c
reader_sleeps e = subst ReaderSleeps (sym e) tt

writer_sleeps : {c : Pc} {w : Writing} → c ≡ w_asleep w → WriterSleeps c
writer_sleeps e = subst WriterSleeps (sym e) tt

module _ (n : ℕ) (s : System) (inv : Inv n s) (awake : Awake n s) where
  abbrev SomeWorks : Type 0
  SomeWorks = (i : ℕ) × (i < n) × CanWork s.pipe (s.pc i)

  -- Who sleeps lacks what it waits for, or somebody is about to wake it.
  sleeper : (i : ℕ) (c : Pc) → Asleep c → s.pc i ≡ c → SomeWorks ⊎ Rests s.pipe c
  sleeper i c reader at = elim (awake.readers i (reader_sleeps at)) [
    | inl e ↦ inr (starved (nil_of_length (contents s.pipe) (held_empty s.pipe inv.valid e)))
    | inr (j, lt, w) ↦ inl (j, lt, wakes_readers s.pipe (s.pc j) w)
  ]
  sleeper i c writer at = elim (awake.writers i (writer_sleeps at)) [
    | inl e ↦ inr (stuffed (is_full s.pipe inv.valid e))
    | inr (j, lt, w) ↦ inl (j, lt, wakes_writers s.pipe (s.pc j) w)
  ]

  each : 0 < s.pipe.sem → (i : ℕ) → i < n → SomeWorks ⊎ Rests s.pipe (s.pc i)
  each free i lt = go (works_or_waits s.pipe (s.pc i) (inv.ready i lt) (omega (arith, free)))
    where
      go :
          CanWork s.pipe (s.pc i) ⊎ (Rests s.pipe (s.pc i) ⊎ Asleep (s.pc i))
          → SomeWorks ⊎ Rests s.pipe (s.pc i)
      go (inl work) = inl (i, lt, work)
      go (inr (inl rests)) = inr rests
      go (inr (inr sleeps)) = sleeper i (s.pc i) sleeps refl

-- From a sound and empty pipe whose semaphore is free, while nobody polls and the pipe keeps a user:
-- however processes moved, one of them can bring its call on, without a signal and without being
-- woken for nothing; or each of them is outside a call, or a reader that sleeps while the pipe
-- is empty, or a writer that sleeps while it is full.
pub pipe_progress :
    {n : ℕ} (p : Pipe) (b : List ℕ) {s : System}
    → IsValid p b
    → contents p ≡ []
    → p.sem ≡ 1
    → Reach nobody_polls n (fresh p) s
    → ((i : ℕ) × (i < n) × CanWork s.pipe (s.pc i)) ⊎ ((i : ℕ) → i < n → Rests s.pipe (s.pc i))
pipe_progress {n} p b {s} v none_in free r =
    let (inv, awake) = Reach-Awake p b v none_in free r in
    elim (ℕ_discrete s.pipe.sem 0) [
      | yes taken ↦
          let (i, lt, held) = total_member holds n s.pc (omega (arith, inv.mutex, taken)) in
          inl (i, lt, holder_works s.pipe (s.pc i) (inv.ready i lt) held)
      | no ne ↦ one_or_all_below n (each n s inv awake (omega (arith, ne)))
    ]
