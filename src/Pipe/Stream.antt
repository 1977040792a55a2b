-- ===== src/Pipe/Stream.antt =====
-- Every interleaving, while nobody polls, keeps the pipe sound, lets one process at a time into
-- the buffer, and delivers the bytes in the order in which they were accepted.
use mydrivers.Prelude.{
  ℕ, ◌+◌, ◌≤◌, ◌<◌, ◌≡◌, refl, sym, ◌∙◌, ap, subst, List, [], ◌++◌, arith, ◌≢◌, inl, inr,
  append_assoc, ==_iff,
}
use native.Mathlib.Decide.{ℕ_discrete}
use mydrivers.Prelude.Family.{update, total, total-update, total-agree, total_pair, total-eq-zero}
use mydrivers.Pipe.State.{Pipe, spacefree}
use mydrivers.Pipe.Contents.{contents, IsValid}
use mydrivers.Pipe.System.{
  Pc, idle, r_asleep, r_body, r_done, w_asleep, w_body, w_done, p_enter, holds, System, wake_reader,
  wake_writer, wakes, nobody_polls, Turn, turn, Reach, start, later,
}
use mydrivers.Pipe.Effects.{IsReady, SameRing, Valid, Effect, Move-Effect}

-- The invariant of a pipe with `n` processes.
pub record Inv (n : ℕ) (s : System) : Type 0 where
  pub valid : Valid s.pipe
  pub mutex : s.pipe.sem + total holds n s.pc ≡ 1
  pub ready : (i : ℕ) → i < n → IsReady s.pipe (s.pc i)
  pub stream : s.accepted ≡ s.delivered ++ contents s.pipe

-- Only a holder of the semaphore relies on the buffer.
IsReady-free : (p p' : Pipe) (c : Pc) → holds c ≡ 0 → IsReady p c → IsReady p' c
IsReady-free p p' (r_body r) h ready = absurd (omega arith)
IsReady-free p p' (w_body w) h ready = absurd (omega arith)
IsReady-free p p' p_enter h ready = ready
IsReady-free p p' c h ready = tt

-- A pipe that differs in the semaphore only leaves what a process relies on.
IsReady-same : (p p' : Pipe) (c : Pc) → SameRing p p' → IsReady p c → IsReady p' c
unfolding spacefree
IsReady-same p p' (r_body r) e h = subst (λ (q : Pipe). q.rp ≢ q.wp) (sym e) h
IsReady-same p p' (w_body w) e h = subst (λ q. spacefree q ≢ 0) (sym e) h
IsReady-same p p' p_enter e h = h
IsReady-same p p' c e h = tt

-- A process that another one wakes holds nothing and relies on nothing.
wake_reader_lem :
    (p : Pipe) (c : Pc)
    → (holds (wake_reader c) ≡ holds c) × (IsReady p c → IsReady p (wake_reader c))
wake_reader_lem p (r_asleep r) = (refl, λ h. tt)
wake_reader_lem p c = (refl, λ h. h)

wake_writer_lem :
    (p : Pipe) (c : Pc)
    → (holds (wake_writer c) ≡ holds c) × (IsReady p c → IsReady p (wake_writer c))
wake_writer_lem p (w_asleep w) = (refl, λ h. tt)
wake_writer_lem p c = (refl, λ h. h)

pub wakes_lem :
    (p : Pipe) (a c : Pc) → (holds (wakes a c) ≡ holds c) × (IsReady p c → IsReady p (wakes a c))
wakes_lem p (r_done n) c = wake_writer_lem p c
wakes_lem p (w_done n) c = wake_reader_lem p c
wakes_lem p a c = (refl, λ h. h)

pub update_at :
    (f : ℕ → Pc) (i : ℕ) (c : Pc) (P : Pc → Type 0) (j : ℕ)
    → P c
    → (i ≢ j → P (f j))
    → P (update f i c j)
update_at f i c P j here there = elim (ℕ_discrete i j) [
  | yes e ↦ rw ((==_iff i j).1 e) here
  | no ne ↦ ground (arith, there ne)
]

stream_step :
    (acc del held held' took gave : List ℕ)
    → acc ≡ del ++ held
    → held ++ took ≡ gave ++ held'
    → acc ++ took ≡ (del ++ gave) ++ held'
stream_step acc del held held' took gave e f =
    ap (λ l. l ++ took) e
    ∙ append_assoc del held took
    ∙ ap (λ l. del ++ l) f
    ∙ sym (append_assoc del gave held')

pub Turn-Inv : {n : ℕ} {s t : System} → Turn nobody_polls n s t → Inv n s → Inv n t
Turn-Inv {n = n} {s = s} (turn i {p = p} {c = c} {took = took} {gave = gave} lt move) inv = record {
  valid = e.valid;
  mutex = omega (
    arith,
    total-update holds n others_at i c lt,
    total-agree holds n s.pc others_at (λ j. (wakes_lem p (s.pc i) (s.pc j)).0),
    (wakes_lem p (s.pc i) (s.pc i)).0,
    e.balance,
    inv.mutex,
  );
  ready = λ j ltj. update_at others_at i c (IsReady p) j e.ready (λ ne. others j ltj ne);
  stream =
      stream_step s.accepted s.delivered (contents s.pipe) (contents p) took gave inv.stream
        e.stream;
}
  where
    e : Effect s.pipe (s.pc i) p c took gave
    e = Move-Effect move inv.valid (inv.ready i lt)

    others_at : ℕ → Pc
    others_at = λ j. wakes (s.pc i) (s.pc j)

    others : (j : ℕ) → j < n → i ≢ j → IsReady p (wakes (s.pc i) (s.pc j))
    others j ltj ne = (wakes_lem p (s.pc i) (s.pc j)).1 (elim e.alone [
      | inl held ↦
          IsReady-free s.pipe p (s.pc j)
            (omega (arith, total_pair holds n s.pc i j lt ltj ne, inv.mutex, held))
            (inv.ready j ltj)
      | inr same ↦ IsReady-same s.pipe p (s.pc j) same (inv.ready j ltj)
    ])

-- A pipe that was just opened, with nobody in it.
abbrev pub fresh : Pipe → System
fresh p = record { pipe = p; pc = λ _. idle; accepted = []; delivered = [] }

pub fresh-Inv :
    (n : ℕ) (p : Pipe) (b : List ℕ) → IsValid p b → contents p ≡ [] → p.sem ≡ 1 → Inv n (fresh p)
fresh-Inv n p b v empty free = record {
  valid = (b, v);
  mutex = omega (arith, free, total-eq-zero holds n (λ _. idle) (λ i. refl));
  ready = λ i lt. tt;
  stream = sym empty;
}

-- From a sound and empty pipe whose semaphore is free, while nobody polls and the pipe keeps a user:
-- however many processes read, write, open the pipe anew, release their files and ask for
-- signals, in whatever order they move, sleep, are woken or interrupted, whichever copies fail:
-- the pointers stay in the buffer, the semaphore is free or has one holder, who finds what it
-- waited for, and the bytes accepted so far are those delivered followed by those in the pipe,
-- in order.
pub Reach-Inv :
    {n : ℕ} (p : Pipe) (b : List ℕ) {s : System}
    → IsValid p b
    → contents p ≡ []
    → p.sem ≡ 1
    → Reach nobody_polls n (fresh p) s
    → Inv n s
Reach-Inv {n = n} p b v empty free start = fresh-Inv n p b v empty free
Reach-Inv p b v empty free (later r t) = Turn-Inv t (Reach-Inv p b v empty free r)

-- However processes move from a sound and empty pipe whose semaphore is free, at no time do two
-- of them stand between `down` and `up`.
pub Reach-mutex :
    {n : ℕ} (p : Pipe) (b : List ℕ) {s : System} (i j : ℕ)
    → IsValid p b
    → contents p ≡ []
    → p.sem ≡ 1
    → Reach nobody_polls n (fresh p) s
    → i < n
    → j < n
    → i ≢ j
    → holds (s.pc i) + holds (s.pc j) ≤ 1
Reach-mutex {n = n} p b {s = s} i j v empty free r hi hj ne =
    let inv = Reach-Inv p b v empty free r in
    omega (arith, inv.mutex, total_pair holds n s.pc i j hi hj ne)
