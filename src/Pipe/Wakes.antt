-- ===== src/Pipe/Wakes.antt =====
-- Who sleeps in the queues of a pipe, whom a move wakes, and what it leaves of an empty or a full
-- pipe.
use mydrivers.Prelude.{ℕ, ◌≡◌, ◌≢◌, ◌⊎◌, refl, sym, ap, subst, List, arith, inl, inr, length}
use native.Mathlib.Decide.{ℕ_discrete}
use mydrivers.Kernel.{Uaccess, Result, ok, err, fault}
use mydrivers.Pipe.State.{Pipe, spacefree}
use mydrivers.Pipe.Notify.{scull_p_fasync}
use mydrivers.Pipe.Transfer.{Step, read_body, write_body}
use mydrivers.Pipe.Contents.{spacefree-add-length}
use mydrivers.Pipe.Fifo.{Handed, ReadEnd, got, read_body_lem}
use mydrivers.Pipe.Append.{WriteEnd, put, write_body_lem}
use mydrivers.Pipe.System.{
  Reading, Writing, Pc, r_asleep, r_done, w_asleep, w_done, after_read, after_write, wake_reader,
  wake_writer, wakes, nobody_polls, Move, call_read, call_write, r_down, r_interrupted, r_ready,
  r_again, r_wait, r_wake, r_schedule, r_signal, r_roused, r_copy, r_wakes, w_down, w_interrupted,
  w_ready, w_again, w_wait, w_wake, w_schedule, w_signal, w_roused, w_copy, w_wakes, call_poll,
  poll_got, poll_interrupted, opens, releases, asks_signals, next_call,
}
use mydrivers.Pipe.Effects.{IsReady, SameRing, Valid, open_same, release_same}
use mydrivers.Pipe.Refinement.{held_empty, held_some}

abbrev pub IsEmpty : Pipe → Type 0
IsEmpty p = p.rp ≡ p.wp

abbrev pub IsFull : Pipe → Type 0
IsFull p = spacefree p ≡ 0

abbrev pub ReaderSleeps : Pc → Type 0
ReaderSleeps (r_asleep r) = Unit {0}
ReaderSleeps c = ⊥

abbrev pub WriterSleeps : Pc → Type 0
WriterSleeps (w_asleep w) = Unit {0}
WriterSleeps c = ⊥

-- About to wake the writers, or the readers.
abbrev pub WakesWriters : Pc → Type 0
WakesWriters (r_done n) = Unit {0}
WakesWriters c = ⊥

abbrev pub WakesReaders : Pc → Type 0
WakesReaders (w_done n) = Unit {0}
WakesReaders c = ⊥

no_reader_left : (c : Pc) → ReaderSleeps (wake_reader c) → ⊥
no_reader_left (r_asleep r) h = h
no_reader_left c h = h

no_writer_left : (c : Pc) → WriterSleeps (wake_writer c) → ⊥
no_writer_left (w_asleep w) h = h
no_writer_left c h = h

reader_slept : (c : Pc) → ReaderSleeps (wake_writer c) → ReaderSleeps c
reader_slept (w_asleep w) h = h
reader_slept c h = h

writer_slept : (c : Pc) → WriterSleeps (wake_reader c) → WriterSleeps c
writer_slept (r_asleep r) h = h
writer_slept c h = h

-- Who still sleeps slept before, and was not woken.
pub readers_left : (a c : Pc) → ReaderSleeps (wakes a c) → ReaderSleeps c × (WakesReaders a → ⊥)
readers_left (r_done n) c h = (reader_slept c h, λ x. x)
readers_left (w_done n) c h = absurd (no_reader_left c h)
readers_left a c h = (h, λ x. x)

pub writers_left : (a c : Pc) → WriterSleeps (wakes a c) → WriterSleeps c × (WakesWriters a → ⊥)
writers_left (r_done n) c h = absurd (no_writer_left c h)
writers_left (w_done n) c h = (writer_slept c h, λ x. x)
writers_left a c h = (h, λ x. x)

-- Who is about to wake others is not itself moved by a wake-up.
pub still_wakes :
    (a c : Pc)
    → (WakesReaders c → WakesReaders (wakes a c)) × (WakesWriters c → WakesWriters (wakes a c))
still_wakes (r_done n) (w_asleep w) = (λ h. absurd h, λ h. absurd h)
still_wakes (r_done n) c = (λ h. h, λ h. h)
still_wakes (w_done n) (r_asleep r) = (λ h. absurd h, λ h. absurd h)
still_wakes (w_done n) c = (λ h. h, λ h. h)
still_wakes a c = (λ h. h, λ h. h)

same-IsEmpty : (p p' : Pipe) → SameRing p p' → IsEmpty p → IsEmpty p'
same-IsEmpty p p' same e = subst IsEmpty (sym same) e

same-IsFull : (p p' : Pipe) → SameRing p p' → IsFull p → IsFull p'
unfolding spacefree
same-IsFull p p' same e = subst IsFull (sym same) e

-- A write that copied is about to wake the readers; one that failed left the pipe empty.
write-IsEmpty :
    (u : Uaccess) (p : Pipe) (w : Writing) (s : Step)
    → Valid p
    → spacefree p ≢ 0
    → write_body u p w.src ≡ s
    → IsEmpty p
    → IsEmpty s.pipe ⊎ WakesReaders (after_write s.result)
write-IsEmpty u p w s v ne e empty =
    let done = write_body_lem p v.0 v.1 w.src ne u in
    subst (λ t. IsEmpty t.pipe ⊎ WakesReaders (after_write t.result)) e (go done.0 done.1)
  where
    go :
        WriteEnd p w.src (write_body u p w.src)
        → Handed p (write_body u p w.src)
        → IsEmpty (write_body u p w.src).pipe
          ⊎ WakesReaders (after_write (write_body u p w.src).result)
    go (put n r _ _ _) done = inr (rw r tt)
    go (WriteEnd.failed r same) done = inl (elim (ℕ_discrete _ _) [
      | yes eq ↦ eq
      | no ne ↦ absurd (
          omega (
            arith,
            held_some (write_body u p w.src).pipe (done.bytes, done.valid) ne,
            ap length same,
            held_empty p v empty,
          ))
    ])

-- A read that copied is about to wake the writers; one that failed left the pipe full.
read-IsFull :
    (u : Uaccess) (p : Pipe) (r : Reading) (s : Step)
    → Valid p
    → p.rp ≢ p.wp
    → read_body u p r.count ≡ s
    → IsFull p
    → IsFull s.pipe ⊎ WakesWriters (after_read s.result)
read-IsFull u p r s v ne e full =
    let done = read_body_lem p v.0 v.1 r.count ne u in
    subst (λ t. IsFull t.pipe ⊎ WakesWriters (after_read t.result)) e (go done.0 done.1)
  where
    go :
        ReadEnd p r.count (read_body u p r.count)
        → Handed p (read_body u p r.count)
        → IsFull (read_body u p r.count).pipe
          ⊎ WakesWriters (after_read (read_body u p r.count).result)
    go (got n r _ _ _ _) done = inr (rw r tt)
    go (ReadEnd.failed r d same) done = inl (
        omega (
          arith,
          spacefree-add-length v.1,
          spacefree-add-length done.valid,
          ap length same,
          done.same_size,
          full,
        ))

-- What a move leaves of an empty and of a full pipe, and who begins to sleep.
pub record Leaves (p : Pipe) (p' : Pipe) (c' : Pc) : Type 0 where
  pub empty : IsEmpty p → IsEmpty p' ⊎ WakesReaders c'
  pub full : IsFull p → IsFull p' ⊎ WakesWriters c'
  pub reader : ReaderSleeps c' → IsEmpty p'
  pub writer : WriterSleeps c' → IsFull p'

-- A move that changes neither pointer, after which nobody new sleeps.
quiet :
    (p p' : Pipe) (c' : Pc)
    → SameRing p p'
    → (ReaderSleeps c' → ⊥)
    → (WriterSleeps c' → ⊥)
    → Leaves p p' c'
quiet p p' c' same no_r no_w = record {
  empty = λ e. inl (same-IsEmpty p p' same e);
  full = λ e. inl (same-IsFull p p' same e);
  reader = λ h. absurd (no_r h);
  writer = λ h. absurd (no_w h);
}

reads_on : (r : Result ℕ) → (ReaderSleeps (after_read r) → ⊥) × (WriterSleeps (after_read r) → ⊥)
reads_on (ok n) = (λ h. h, λ h. h)
reads_on (err e) = (λ h. h, λ h. h)
reads_on fault = (λ h. h, λ h. h)

writes_on : (r : Result ℕ) → (ReaderSleeps (after_write r) → ⊥) × (WriterSleeps (after_write r) → ⊥)
writes_on (ok n) = (λ h. h, λ h. h)
writes_on (err e) = (λ h. h, λ h. h)
writes_on fault = (λ h. h, λ h. h)

pub Move-Leaves :
    {p p' : Pipe} {c c' : Pc} {took gave : List ℕ}
    → Move nobody_polls p c p' c' took gave
    → Valid p
    → IsReady p c
    → Leaves p p' c'
unfolding scull_p_fasync
Move-Leaves {p} (call_read r) v h = quiet p p _ refl (λ x. x) (λ x. x)
Move-Leaves {p} (call_write w) v h = quiet p p _ refl (λ x. x) (λ x. x)
Move-Leaves {p} (r_down lt) v h = quiet p _ _ refl (λ x. x) (λ x. x)
Move-Leaves {p} r_interrupted v h = quiet p p _ refl (λ x. x) (λ x. x)
Move-Leaves {p} (r_ready ne) v h = quiet p p _ refl (λ x. x) (λ x. x)
Move-Leaves {p} (r_again e f) v h = quiet p _ _ refl (λ x. x) (λ x. x)
Move-Leaves {p} (r_wait e f) v h = quiet p _ _ refl (λ x. x) (λ x. x)
Move-Leaves {p} (r_wake ne) v h = quiet p p _ refl (λ x. x) (λ x. x)
Move-Leaves {p} (r_schedule e) v h = record {
  empty = λ x. inl x;
  full = λ x. inl x;
  reader = λ x. e;
  writer = λ x. absurd x;
}
Move-Leaves {p} (r_signal e) v h = quiet p p _ refl (λ x. x) (λ x. x)
Move-Leaves {p} r_roused v h = quiet p p _ refl (λ x. x) (λ x. x)
Move-Leaves {p} (r_copy {r = r} u {s = s} e) v h = record {
  empty = λ x. absurd (h x);
  full = read-IsFull u p r s v h e;
  reader = λ x. absurd ((reads_on s.result).0 x);
  writer = λ x. absurd ((reads_on s.result).1 x);
}
Move-Leaves {p} r_wakes v h = quiet p p _ refl (λ x. x) (λ x. x)
Move-Leaves {p} (w_down lt) v h = quiet p _ _ refl (λ x. x) (λ x. x)
Move-Leaves {p} w_interrupted v h = quiet p p _ refl (λ x. x) (λ x. x)
Move-Leaves {p} (w_ready ne) v h = quiet p p _ refl (λ x. x) (λ x. x)
Move-Leaves {p} (w_again e f) v h = quiet p _ _ refl (λ x. x) (λ x. x)
Move-Leaves {p} (w_wait e f) v h = quiet p _ _ refl (λ x. x) (λ x. x)
Move-Leaves {p} w_wake v h = quiet p p _ refl (λ x. x) (λ x. x)
Move-Leaves {p} (w_schedule e) v h = record {
  empty = λ x. inl x;
  full = λ x. inl x;
  reader = λ x. absurd x;
  writer = λ x. e;
}
Move-Leaves {p} w_signal v h = quiet p p _ refl (λ x. x) (λ x. x)
Move-Leaves {p} w_roused v h = quiet p p _ refl (λ x. x) (λ x. x)
Move-Leaves {p} (w_copy {w = w} u {s = s} e) v h = record {
  empty = write-IsEmpty u p w s v h e;
  full = λ x. absurd (h x);
  reader = λ x. absurd ((writes_on s.result).0 x);
  writer = λ x. absurd ((writes_on s.result).1 x);
}
Move-Leaves {p} w_wakes v h = quiet p p _ refl (λ x. x) (λ x. x)
Move-Leaves {p} (call_poll e) v h = absurd (ground (arith, e))
Move-Leaves {p} (poll_got lt) v h = absurd h
Move-Leaves {p} (poll_interrupted e) v h = absurd h
Move-Leaves {p} (opens k nth interrupted f_mode free) v h =
    quiet p _ _ (open_same k nth interrupted f_mode p v).0 (λ x. x) (λ x. x)
Move-Leaves {p} (releases left interrupted f_mode free users) v h =
    quiet p _ _ (release_same left interrupted f_mode p users).0 (λ x. x) (λ x. x)
Move-Leaves {p} (asks_signals fasync_helper mode) v h = quiet p _ _ refl (λ x. x) (λ x. x)
Move-Leaves {p} next_call v h = quiet p p _ refl (λ x. x) (λ x. x)
