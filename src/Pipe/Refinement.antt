-- ===== src/Pipe/Refinement.antt =====
-- The readers and writers of a pipe, while nobody polls, cannot tell it from one bounded queue of
-- bytes.
use mydrivers.Prelude.{
  ℕ, ◌-◌, ◌<◌, ◌≡◌, ◌≢◌, refl, sym, ◌∙◌, ap, subst, List, [], ◌∷◌, arith, inl, inr, length, ◌==◌,
  Bool-cases,
}
use mydrivers.Prelude.Family.{update}
use mydrivers.Kernel.{erestartsys, eagain, ok, err, Result, Uaccess}
use mydrivers.Pipe.State.{Pipe, spacefree}
use mydrivers.Pipe.Notify.{scull_p_fasync}
use mydrivers.Pipe.Transfer.{Step, read_body, write_body}
use mydrivers.Pipe.Contents.{contents, IsValid, spacefree_cases, spacefree-add-length}
use mydrivers.Pipe.Fifo.{Handed, ReadEnd, got, read_body_lem}
use mydrivers.Pipe.Append.{WriteEnd, put, write_body_lem}
use mydrivers.Pipe.System.{
  Reading, Writing, Pc, idle, r_enter, r_loop, r_sleep, r_asleep, r_body, r_done, w_enter, w_loop,
  w_sleep, w_asleep, w_body, w_done, returned, System, after_read, after_write, wake_reader,
  wake_writer, wakes, Polling, nobody_polls, turn, Reach, start, later, Move, call_read, call_write,
  r_down, r_interrupted, r_ready, r_again, r_wait, r_wake, r_schedule, r_signal, r_roused, r_copy,
  r_wakes, w_down, w_interrupted, w_ready, w_again, w_wait, w_wake, w_schedule, w_signal, w_roused,
  w_copy, w_wakes, call_poll, poll_got, poll_interrupted, opens, releases, asks_signals, next_call,
}
use mydrivers.Pipe.Effects.{IsReady, SameRing, Valid, open_same, release_same}
use mydrivers.Pipe.Stream.{Inv, fresh, fresh-Inv, Turn-Inv}
use mydrivers.Pipe.Queue.{
  Ask, nothing, to_read, to_write, Queue, Event, silent, calls, read_ends, write_ends, Allowed,
  internal, begins, reads, writes, Run,
}

abbrev pub asked : Pc → Ask
asked (r_enter r) = to_read r
asked (r_loop r) = to_read r
asked (r_sleep r) = to_read r
asked (r_asleep r) = to_read r
asked (r_body r) = to_read r
asked (w_enter w) = to_write w
asked (w_loop w) = to_write w
asked (w_sleep w) = to_write w
asked (w_asleep w) = to_write w
asked (w_body w) = to_write w
asked c = nothing

-- The queue that the processes see.
abbrev pub queue : System → Queue
queue s = record { bytes = contents s.pipe; asks = λ j. asked (s.pc j) }

-- What a move shows to its process. The end of a read or a write stands where its bytes move.
abbrev pub shown :
    {h : Polling} {p p' : Pipe} {c c' : Pc} {took gave : List ℕ}
    → Move h p c p' c' took gave
    → Event
shown (call_read r) = calls (to_read r)
shown (call_write w) = calls (to_write w)
shown r_interrupted = read_ends (err erestartsys) []
shown (r_again e f) = read_ends (err eagain) []
shown (r_signal e) = read_ends (err erestartsys) []
shown (r_copy u {s = s} e) = read_ends s.result s.delivered
shown w_interrupted = write_ends (err erestartsys)
shown (w_again e f) = write_ends (err eagain)
shown w_signal = write_ends (err erestartsys)
shown w_roused = write_ends (err erestartsys)
shown (w_copy u {s = s} e) = write_ends s.result
shown _ = silent

-- What the processes were shown in a run, the last first.
unfoldable pub told : {h : Polling} {n : ℕ} {s t : System} → Reach h n s t → List (ℕ × Event)
told start = []
told (later r (turn i lt m)) = (i, shown m) ∷ told r

module _ (p : Pipe) (v : Valid p) where
  pub held_empty : p.rp ≡ p.wp → length (contents p) ≡ 0
  unfolding spacefree
  held_empty e = ground (arith, v.1, spacefree-add-length v.1)

  pub held_some : p.rp ≢ p.wp → 0 < length (contents p)
  held_some ne = ground (arith, v.1, spacefree_cases v.1, spacefree-add-length v.1)

  has_room : spacefree p ≢ 0 → length (contents p) < p.buffersize - 1
  has_room ne = omega (arith, ne, spacefree-add-length v.1)

  pub is_full : spacefree p ≡ 0 → length (contents p) ≡ p.buffersize - 1
  is_full e = omega (arith, e, spacefree-add-length v.1)

  -- What a move is to the queue; the buffer keeps its size.
  abbrev Does : (p' : Pipe) (c c' : Pc) → Event → Type 0
  Does p' c c' e =
      Allowed (p.buffersize - 1) (contents p) (asked c) (contents p') (asked c') e
      × (p'.buffersize ≡ p.buffersize)

  -- A call that opens or releases the pipe shows nothing.
  same_Does : (p' : Pipe) (r : Result ℕ) → SameRing p p' → Does p' idle (returned r) silent
  unfolding contents
  same_Does p' r same = subst (λ q. Does q idle (returned r) silent) (sym same) (internal, refl)

  read_Does :
      (u : Uaccess) (r : Reading)
      → p.rp ≢ p.wp
      → (s : Step) → ReadEnd p r.count s
      → Handed p s
      → Does s.pipe (r_body r) (after_read s.result) (read_ends s.result s.delivered)
  read_Does u r ne s (got n e le some_of len split) done =
      (rw e (reads n s.delivered (held_some ne) le some_of len split), done.same_size)
  read_Does u r ne s (ReadEnd.failed e d same) done =
      (rw (e, d, same) (Allowed.read_unread (held_some ne)), done.same_size)

  write_Does :
      (u : Uaccess) (w : Writing)
      → spacefree p ≢ 0
      → (s : Step) → WriteEnd p w.src s
      → Handed p s
      → Does s.pipe (w_body w) (after_write s.result) (write_ends s.result)
  write_Does u w ne s (put n e le some_of held) done =
      let fits = spacefree-add-length done.valid in
      (
        rw (e, held)
            (writes n (has_room ne) le some_of
              (omega (arith, fits, done.same_size, ap length held))),
        done.same_size,
      )
  write_Does u w ne s (WriteEnd.failed e same) done =
      (rw (e, same) (Allowed.write_unwritten (has_room ne)), done.same_size)

asked-wake_reader : (c : Pc) → asked (wake_reader c) ≡ asked c
asked-wake_reader (r_asleep r) = refl
asked-wake_reader c = refl

asked-wake_writer : (c : Pc) → asked (wake_writer c) ≡ asked c
asked-wake_writer (w_asleep w) = refl
asked-wake_writer c = refl

-- Who is woken still asks for what it asked for.
asked-wakes : (a c : Pc) → asked (wakes a c) ≡ asked c
asked-wakes (r_done n) c = asked-wake_writer c
asked-wakes (w_done n) c = asked-wake_reader c
asked-wakes a c = refl

Move-Does :
    {p p' : Pipe} {c c' : Pc} {took gave : List ℕ}
    → (m : Move nobody_polls p c p' c' took gave) → (v : Valid p) → IsReady p c
    → Does p v p' c c' (shown m)
unfolding contents scull_p_fasync
Move-Does (call_read r) v h = (begins (to_read r), refl)
Move-Does (call_write w) v h = (begins (to_write w), refl)
Move-Does (r_down lt) v h = (internal, refl)
Move-Does r_interrupted v h = (Allowed.read_interrupted, refl)
Move-Does (r_ready ne) v h = (internal, refl)
Move-Does {p = p} (r_again {r = r} e f) v h =
    (Allowed.read_empty (held_empty p v e) (ground (arith, f)), refl)
Move-Does (r_wait e f) v h = (internal, refl)
Move-Does (r_wake ne) v h = (internal, refl)
Move-Does (r_schedule e) v h = (internal, refl)
Move-Does r_roused v h = (internal, refl)
Move-Does r_wakes v h = (internal, refl)
Move-Does (r_signal e) v h = (Allowed.read_interrupted, refl)
Move-Does {p} (r_copy {r = r} u {s = s} e) v h =
    let done = read_body_lem p v.0 v.1 r.count h u in
    subst (λ t. Does p v t.pipe (r_body r) (after_read t.result) (read_ends t.result t.delivered)) e
      (read_Does p v u r h (read_body u p r.count) done.0 done.1)
Move-Does (w_down lt) v h = (internal, refl)
Move-Does w_interrupted v h = (Allowed.write_interrupted, refl)
Move-Does (w_ready ne) v h = (internal, refl)
Move-Does {p = p} (w_again e f) v h = (Allowed.write_full (is_full p v e) f, refl)
Move-Does (w_wait e f) v h = (internal, refl)
Move-Does w_wake v h = (internal, refl)
Move-Does (w_schedule e) v h = (internal, refl)
Move-Does w_wakes v h = (internal, refl)
Move-Does w_roused v h = (Allowed.write_interrupted, refl)
Move-Does w_signal v h = (Allowed.write_interrupted, refl)
Move-Does {p} (w_copy {w = w} u {s = s} e) v h =
    let done = write_body_lem p v.0 v.1 w.src h u in
    subst (λ t. Does p v t.pipe (w_body w) (after_write t.result) (write_ends t.result)) e
      (write_Does p v u w h (write_body u p w.src) done.0 done.1)
Move-Does (call_poll e) v h = absurd (ground (arith, e))
Move-Does (poll_got lt) v h = absurd h
Move-Does (poll_interrupted e) v h = absurd h
Move-Does {p = p} (opens k nth interrupted f_mode free) v h =
    same_Does p v _ (ok 0) (open_same k nth interrupted f_mode p v).0
Move-Does {p = p} (releases left interrupted f_mode free users) v h =
    same_Does p v _ (ok 0) (release_same left interrupted f_mode p users).0
Move-Does (asks_signals fasync_helper mode) v h = (internal, refl)
Move-Does next_call v h = (internal, refl)

asked-update :
    (pc : ℕ → Pc) (i : ℕ) (c : Pc) (j : ℕ)
    → asked (update (λ k. wakes (pc i) (pc k)) i c j) ≡ update (λ k. asked (pc k)) i (asked c) j
asked-update pc i c j = elim (Bool-cases (i == j)) [
  | inl e ↦ rw e refl
  | inr e ↦ rw e (asked-wakes (pc i) (pc j))
]

module _ {n : ℕ} (p : Pipe) (b : List ℕ) where
  run_lem :
      {s : System}
      → IsValid p b
      → contents p ≡ []
      → p.sem ≡ 1
      → (r : Reach nobody_polls n (fresh p) s)
      → Run (p.buffersize - 1) n (queue (fresh p)) (told r) (queue s)
        × Inv n s
        × (s.pipe.buffersize ≡ p.buffersize)
  unfolding told
  run_lem v empty free start = (Run.start, fresh-Inv n p b v empty free, refl)
  run_lem v empty free (later {t = s} r (turn i {p = p'} {c = c} lt m)) =
      let (run, inv, size) = run_lem v empty free r in
      let (can, same) = Move-Does m inv.valid (inv.ready i lt) in
      (
        Run.later i lt run
            (subst
              (λ k.
                Allowed (k - 1) (contents s.pipe) (asked (s.pc i)) (contents p') (asked c)
                  (shown m))
              size can)
            (asked-update s.pc i c),
        Turn-Inv (turn i lt m) inv,
        same ∙ size,
      )

  -- From a sound and empty pipe whose semaphore is free, while nobody polls and the pipe keeps a
  -- user: however many processes read, write, open the pipe anew, release their files and ask for
  -- signals, in whatever order they move, sleep, are woken or interrupted or fail to copy, each
  -- call on its own: what the readers and writers are shown, in that order, is what one queue of
  -- at most `buffersize - 1` bytes may show. A read takes the oldest bytes, a write appends a
  -- front part of the caller's that fits, EAGAIN is for non-blocking files and an empty or a
  -- full queue only, and a call that fails moves nothing.
  pub Reach-Run :
      {s : System}
      → IsValid p b
      → contents p ≡ []
      → p.sem ≡ 1
      → (r : Reach nobody_polls n (fresh p) s)
      → Run (p.buffersize - 1) n (queue (fresh p)) (told r) (queue s)
  Reach-Run v empty free r = (run_lem v empty free r).0
