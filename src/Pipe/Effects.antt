-- ===== src/Pipe/Effects.antt =====
-- What each move of a reader or a writer does to the pipe, the semaphore and the stream of bytes.
use mydrivers.Prelude.{
  ℕ, ◌+◌, ◌<◌, ◌≡◌, refl, sym, ◌∙◌, ap, subst, Bool, true, false, List, [], ◌++◌, arith, ◌≢◌, ◌⊎◌,
  inl, inr, append-nil, ◌==◌, Bool-cases,
}
use mydrivers.Kernel.{Result, ok, err, fault, Uaccess, Allocator}
use mydrivers.Pipe.State.{Pipe, spacefree, up, down}
use mydrivers.Pipe.Open.{
  scull_p_buffer, ensure_buffer, counted, scull_p_open, count_out, scull_p_release,
}
use mydrivers.Pipe.Notify.{scull_p_fasync}
use mydrivers.Pipe.Transfer.{Step, read_body, write_body}
use mydrivers.Pipe.Contents.{contents, IsValid}
use mydrivers.Pipe.Fifo.{Handed, ReadEnd, got, read_body_lem}
use mydrivers.Pipe.Append.{WriteEnd, put, write_body_lem}
use mydrivers.Pipe.System.{
  Reading, Writing, Pc, r_body, w_body, p_enter, holds, accept, after_read, after_write,
  nobody_polls, Move, call_read, call_write, r_down, r_interrupted, r_ready, r_again, r_wait,
  r_wake, r_schedule, r_signal, r_roused, r_copy, r_wakes, w_down, w_interrupted, w_ready, w_again,
  w_wait, w_wake, w_schedule, w_signal, w_roused, w_copy, w_wakes, call_poll, poll_got,
  poll_interrupted, opens, releases, asks_signals, next_call,
}

-- What a process behind the loop has found, and still relies on; and that nobody polls.
abbrev pub IsReady : Pipe → Pc → Type 0
IsReady p (r_body r) = p.rp ≢ p.wp
IsReady p (w_body w) = spacefree p ≢ 0
IsReady p p_enter = ⊥
IsReady p c = Unit {0}

-- A pipe that differs in the semaphore and the counts of its users at most.
abbrev pub SameRing : Pipe → Pipe → Type 0
SameRing p p' = p' ≡ record p {
  sem = p'.sem;
  nreaders = p'.nreaders;
  nwriters = p'.nwriters;
  async_queue = p'.async_queue;
}

abbrev pub Valid : Pipe → Type 0
Valid p = (b : List ℕ) × IsValid p b

holds-after_read : (r : Result ℕ) → holds (after_read r) ≡ 0
holds-after_read (ok n) = refl
holds-after_read (err e) = refl
holds-after_read fault = refl

holds-after_write : (r : Result ℕ) → holds (after_write r) ≡ 0
holds-after_write (ok n) = refl
holds-after_write (err e) = refl
holds-after_write fault = refl

after_read-IsReady : (p : Pipe) (r : Result ℕ) → IsReady p (after_read r)
after_read-IsReady p (ok n) = tt
after_read-IsReady p (err e) = tt
after_read-IsReady p fault = tt

after_write-IsReady : (p : Pipe) (r : Result ℕ) → IsReady p (after_write r)
after_write-IsReady p (ok n) = tt
after_write-IsReady p (err e) = tt
after_write-IsReady p fault = tt

-- Opening an open pipe counts a user in; a release that is not the last counts one out.
pub open_same :
    (k : Allocator) (nth : ℕ) (interrupted : Bool) (f_mode : ℕ) (p : Pipe)
    → Valid p
    → let q = (scull_p_open k nth interrupted f_mode p).1 in SameRing p q × (q.sem ≡ p.sem)
unfolding scull_p_open
open_same k nth true f_mode p v = (refl, refl)
open_same k nth false f_mode p v =
    subst
      (λ o.
        let q = (counted f_mode p (ensure_buffer o (k.kmalloc nth scull_p_buffer) p)).1 in
        SameRing p q × (q.sem ≡ p.sem))
      (sym v.1.opened) (refl, refl)

pub release_same :
    (left interrupted : Bool) (f_mode : ℕ) (p : Pipe)
    → 0 < (count_out p f_mode).nreaders + (count_out p f_mode).nwriters
    → let q = (scull_p_release left interrupted f_mode p).1 in SameRing p q × (q.sem ≡ p.sem)
unfolding scull_p_release
release_same left true f_mode p users = (refl, refl)
release_same left false f_mode p users =
    elim (Bool-cases ((count_out p f_mode).nreaders + (count_out p f_mode).nwriters == 0)) [
      | inl e ↦ absurd (ground (arith, e, users))
      | inr e ↦ rw e (refl, refl)
    ]

-- What one move does to the pipe.
pub record Effect (p : Pipe) (c : Pc) (p' : Pipe) (c' : Pc) (took gave : List ℕ) : Type 0 where
  pub valid : Valid p'
  pub balance : p'.sem + holds c' ≡ p.sem + holds c
  pub alone : (holds c ≡ 1) ⊎ SameRing p p'
  pub ready : IsReady p' c'
  pub stream : contents p ++ took ≡ gave ++ contents p'

module _ (p : Pipe) (v : Valid p) where
  -- Moves that touch the semaphore at most.
  quiet :
      (p' : Pipe) (c c' : Pc)
      → SameRing p p'
      → p'.sem + holds c' ≡ p.sem + holds c
      → IsReady p' c'
      → Effect p c p' c' [] []
  unfolding contents
  quiet p' c c' same bal ready = record {
    valid = (v.0, subst (λ q. IsValid q v.0) (sym same) (ground (arith, v.1)));
    balance = bal;
    alone = inr same;
    ready = ready;
    stream = append-nil (contents p) ∙ sym (ap contents same);
  }

  read_Effect :
      (u : Uaccess) (r : Reading) (s : Step)
      → p.rp ≢ p.wp
      → read_body u p r.count ≡ s
      → Effect p (r_body r) s.pipe (after_read s.result) [] s.delivered
  read_Effect u r s ne e =
      subst (λ t. Effect p (r_body r) t.pipe (after_read t.result) [] t.delivered) e (go lem.0)
    where
      lem : ReadEnd p r.count (read_body u p r.count) × Handed p (read_body u p r.count)
      lem = read_body_lem p v.0 v.1 r.count ne u

      stream :
          ReadEnd p r.count (read_body u p r.count)
          → contents p ≡ (read_body u p r.count).delivered ++ contents (read_body u p r.count).pipe
      stream (got n _ _ _ _ h) = h
      stream (ReadEnd.failed _ d h) = rw d (sym h)

      go :
          ReadEnd p r.count (read_body u p r.count)
          → Effect p
              (r_body r)
              (read_body u p r.count).pipe
              (after_read (read_body u p r.count).result)
              []
              (read_body u p r.count).delivered
      go end = record {
        valid = (lem.1.bytes, lem.1.valid);
        balance = omega (arith, lem.1.given_back, holds-after_read (read_body u p r.count).result);
        alone = inl refl;
        ready = after_read-IsReady (read_body u p r.count).pipe (read_body u p r.count).result;
        stream = append-nil (contents p) ∙ stream end;
      }

  write_Effect :
      (u : Uaccess) (w : Writing) (s : Step)
      → spacefree p ≢ 0
      → write_body u p w.src ≡ s
      → Effect p (w_body w) s.pipe (after_write s.result) (accept s.result w.src) []
  write_Effect u w s ne e =
      subst (λ t. Effect p (w_body w) t.pipe (after_write t.result) (accept t.result w.src) []) e
        (go lem.0)
    where
      lem : WriteEnd p w.src (write_body u p w.src) × Handed p (write_body u p w.src)
      lem = write_body_lem p v.0 v.1 w.src ne u

      stream :
          WriteEnd p w.src (write_body u p w.src)
          → contents p ++ accept (write_body u p w.src).result w.src
            ≡ contents (write_body u p w.src).pipe
      stream (put n r _ _ h) = rw r (sym h)
      stream (WriteEnd.failed r h) = rw r (append-nil (contents p) ∙ sym h)

      go :
          WriteEnd p w.src (write_body u p w.src)
          → Effect p
              (w_body w)
              (write_body u p w.src).pipe
              (after_write (write_body u p w.src).result)
              (accept (write_body u p w.src).result w.src)
              []
      go end = record {
        valid = (lem.1.bytes, lem.1.valid);
        balance = omega (arith, lem.1.given_back, holds-after_write (write_body u p w.src).result);
        alone = inl refl;
        ready = after_write-IsReady (write_body u p w.src).pipe (write_body u p w.src).result;
        stream = stream end;
      }

pub Move-Effect :
    {p p' : Pipe} {c c' : Pc} {took gave : List ℕ}
    → Move nobody_polls p c p' c' took gave
    → Valid p
    → IsReady p c
    → Effect p c p' c' took gave
unfolding scull_p_fasync
Move-Effect {p} (call_read r) v h = quiet p v p _ _ refl refl tt
Move-Effect {p} (call_write w) v h = quiet p v p _ _ refl refl tt
Move-Effect {p} (r_down lt) v h = quiet p v (down p) _ _ refl (omega arith) tt
Move-Effect {p} r_interrupted v h = quiet p v p _ _ refl refl tt
Move-Effect {p} (r_ready ne) v h = quiet p v p _ _ refl refl ne
Move-Effect {p} (r_again e f) v h = quiet p v (up p) _ _ refl (omega arith) tt
Move-Effect {p} (r_wait e f) v h = quiet p v (up p) _ _ refl (omega arith) tt
Move-Effect {p} (r_wake ne) v h = quiet p v p _ _ refl refl tt
Move-Effect {p} (r_schedule e) v h = quiet p v p _ _ refl refl tt
Move-Effect {p} (r_signal e) v h = quiet p v p _ _ refl refl tt
Move-Effect {p} r_roused v h = quiet p v p _ _ refl refl tt
Move-Effect {p} (r_copy {r = r} u {s = s} e) v h = read_Effect p v u r s h e
Move-Effect {p} (w_down lt) v h = quiet p v (down p) _ _ refl (omega arith) tt
Move-Effect {p} w_interrupted v h = quiet p v p _ _ refl refl tt
Move-Effect {p} (w_ready ne) v h = quiet p v p _ _ refl refl ne
Move-Effect {p} (w_again e f) v h = quiet p v (up p) _ _ refl (omega arith) tt
Move-Effect {p} (w_wait e f) v h = quiet p v (up p) _ _ refl (omega arith) tt
Move-Effect {p} w_wake v h = quiet p v p _ _ refl refl tt
Move-Effect {p} (w_schedule e) v h = quiet p v p _ _ refl refl tt
Move-Effect {p} w_signal v h = quiet p v p _ _ refl refl tt
Move-Effect {p} w_roused v h = quiet p v p _ _ refl refl tt
Move-Effect {p} (w_copy {w = w} u {s = s} e) v h = write_Effect p v u w s h e
Move-Effect {p} r_wakes v h = quiet p v p _ _ refl refl tt
Move-Effect {p} w_wakes v h = quiet p v p _ _ refl refl tt
Move-Effect {p} (call_poll e) v h = absurd (ground (arith, e))
Move-Effect {p} (poll_got lt) v h = absurd h
Move-Effect {p} (poll_interrupted e) v h = absurd h
Move-Effect {p} (opens k nth interrupted f_mode free) v h =
    let same = open_same k nth interrupted f_mode p v in
    quiet p v _ _ _ same.0 (omega (arith, same.1)) tt
Move-Effect {p} (releases left interrupted f_mode free users) v h =
    let same = release_same left interrupted f_mode p users in
    quiet p v _ _ _ same.0 (omega (arith, same.1)) tt
Move-Effect {p} (asks_signals fasync_helper mode) v h = quiet p v _ _ _ refl refl tt
Move-Effect {p} next_call v h = quiet p v p _ _ refl refl tt
