-- ===== src/Programs/Signals.antt =====
-- What misc_progs/asyntest.c makes of the bytes and the signals that it gets.
use mydrivers.Prelude.{
  ℕ, ◌+◌, ◌≤◌, ◌≡◌, refl, sym, ◌∙◌, ap, Bool, true, false, List, ◌++◌, append_assoc, arith, take,
}
use mydrivers.Kernel.{Result}
use mydrivers.Pipe.Queue.{nothing, to_read, read_ends, Allowed}
use mydrivers.Programs.Asyntest.{
  Pc, sleeping, testing, reading, showing, clearing, request, System, Move, notify, input_handler,
  wakes, sleeps, goes_on, reads, shows, clears, Arrival, arrives, Reach, start, moves, receives,
  Quiet, still, next, begun,
}

-- In a round that found `gotdata` set
abbrev busy : Pc → ℕ
busy sleeping = 0
busy testing = 0
busy reading = 1
busy (showing out) = 1
busy clearing = 1

abbrev waiting : Bool → ℕ
waiting true = 1
waiting false = 0

pub record Inv (s : System) : Type 0 where
  pub stream : s.accepted ≡ s.taken ++ s.queue
  pub used : s.rounds + s.gotdata ≤ s.handled
  pub found : busy s.pc ≤ s.gotdata

-- What a read or a write of the queue does to the stream.
read_stream :
    {cap : ℕ} {q q' : List ℕ} {r : Result ℕ} {out : List ℕ}
    → Allowed cap q (to_read request) q' nothing (read_ends r out)
    → q ≡ out ++ q'
read_stream (Allowed.reads n out some le pos len split) = split
read_stream (Allowed.read_empty e f) = refl
read_stream (Allowed.read_unread h) = refl
read_stream Allowed.read_interrupted = refl

Move-Inv : {cap : ℕ} {s t : System} → Move cap s t → Inv s → Inv t
Move-Inv (notify h) i = record { stream = i.stream; used = i.used; found = i.found }
Move-Inv (input_handler h) i = record {
  stream = i.stream;
  used = omega (arith, i.used);
  found = omega (arith, i.found);
}
Move-Inv (wakes e) i = record { stream = i.stream; used = i.used; found = omega arith }
Move-Inv (sleeps e h) i = record { stream = i.stream; used = i.used; found = omega arith }
Move-Inv (goes_on e h) i = record { stream = i.stream; used = i.used; found = omega (arith, h) }
Move-Inv {s = s} (reads {q = q} {out = out} e can) i = record {
  stream = i.stream ∙ ap (λ l. s.taken ++ l) (read_stream can) ∙ sym (append_assoc s.taken out q);
  used = i.used;
  found = omega (arith, i.found, ap busy e);
}
Move-Inv (shows k e) i = record {
  stream = i.stream;
  used = i.used;
  found = omega (arith, i.found, ap busy e);
}
Move-Inv (clears e) i = record {
  stream = i.stream;
  used = omega (arith, i.used, i.found, ap busy e);
  found = omega arith;
}

Arrival-Inv : {cap : ℕ} {s t : System} → Arrival cap s t → Inv s → Inv t
Arrival-Inv {s = s} (arrives {w = w} (Allowed.writes n room le some fits)) i = record {
  stream = ap (λ l. l ++ take n w.src) i.stream ∙ append_assoc s.taken s.queue (take n w.src);
  used = i.used;
  found = i.found;
}

-- Whatever writers of the pipe and the kernel do meanwhile: what asyntest read, followed by what is
-- in the pipe, is what the writers put in, in order; and it finished at most as many rounds as
-- its handler ran.
pub asyntest-Inv : {cap : ℕ} {s : System} → Reach cap begun s → Inv s
asyntest-Inv start = record { stream = refl; used = omega arith; found = omega arith }
asyntest-Inv (moves r m) = Move-Inv m (asyntest-Inv r)
asyntest-Inv (receives r a) = Arrival-Inv a (asyntest-Inv r)

-- Bytes may lie in the pipe, but no signal is under way and the program knows of none.
pub record IsStalled (s : System) : Type 0 where
  pub outside : busy s.pc ≡ 0
  pub unaware : s.gotdata ≡ 0
  pub quiet : s.pending ≡ false
  pub none_owed : s.owed ≡ 0

record Frozen (s t : System) : Type 0 where
  pub stalled : IsStalled t
  pub same_queue : t.queue ≡ s.queue
  pub same_taken : t.taken ≡ s.taken
  pub same_shown : t.shown ≡ s.shown

unchanged : {s : System} (pc : Pc) → IsStalled s → busy pc ≡ 0 → Frozen s (record s { pc = pc })
unchanged pc h out = record {
  stalled = record { outside = out; unaware = h.unaware; quiet = h.quiet; none_owed = h.none_owed };
  same_queue = refl;
  same_taken = refl;
  same_shown = refl;
}

Move-Frozen : {cap : ℕ} {s t : System} → Move cap s t → IsStalled s → Frozen s t
Move-Frozen (notify lt) h = absurd (omega (arith, lt, h.none_owed))
Move-Frozen (input_handler e) h = absurd (ground (arith, e, h.quiet))
Move-Frozen (wakes e) h = unchanged testing h refl
Move-Frozen (sleeps e z) h = unchanged sleeping h refl
Move-Frozen (goes_on e ne) h = absurd (ne h.unaware)
Move-Frozen (reads e can) h = absurd (omega (arith, ap busy e, h.outside))
Move-Frozen (shows k e) h = absurd (omega (arith, ap busy e, h.outside))
Move-Frozen (clears e) h = absurd (omega (arith, ap busy e, h.outside))

Quiet-Frozen : {cap : ℕ} {s t : System} → IsStalled s → Quiet cap s t → Frozen s t
Quiet-Frozen {s = s} h still = unchanged s.pc h h.outside
Quiet-Frozen h (next q m) =
    let before = Quiet-Frozen h q in
    let now = Move-Frozen m before.stalled in
    record {
      stalled = now.stalled;
      same_queue = now.same_queue ∙ before.same_queue;
      same_taken = now.same_taken ∙ before.same_taken;
      same_shown = now.same_shown ∙ before.same_shown;
    }

-- While no signal is under way and the program knows of none, it reads nothing, even if bytes lie in
-- the pipe: until another write comes, however long it goes on, the pipe and what was read and
-- shown stay as they are.
pub asyntest_stalls :
    {cap : ℕ} {s t : System}
    → IsStalled s
    → Quiet cap s t
    → (t.queue ≡ s.queue) × (t.taken ≡ s.taken) × (t.shown ≡ s.shown)
asyntest_stalls h q =
    let frozen = Quiet-Frozen h q in (frozen.same_queue, frozen.same_taken, frozen.same_shown)
