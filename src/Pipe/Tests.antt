-- ===== src/Pipe/Tests.antt =====
-- Runs of the pipe, and its theorems at concrete pipes.
use mydrivers.Prelude.{
  ℕ, zero, suc, ◌+◌, ◌≤◌, ◌<◌, ◌≡◌, refl, true, false, none, some, List, [], ◌∷◌, ◌++◌, arith, ◌≢◌,
  length, replicate, length-replicate,
}
use mydrivers.Prelude.Family.{update}
use mydrivers.Kernel.{ok}
use mydrivers.Examples.{copies_all, grants_all}
use mydrivers.Pipe.State.{Pipe, spacefree, down}
use mydrivers.Pipe.Transfer.{read_body, write_body, read_count, write_count}
use mydrivers.Pipe.Contents.{IsValid, contents, spacefree-add-length}
use mydrivers.Pipe.Fifo.{Handed, ReadEnd, read_body_lem}
use mydrivers.Pipe.Append.{WriteEnd, write_body_lem}
use mydrivers.Pipe.System.{
  Writing, Pc, idle, w_enter, w_loop, w_body, p_enter, returned, holds, System, after_write, wakes,
  nobody_polls, undisturbed_polls, Reach, start, later, turn, call_write, w_down, w_ready, w_copy,
  call_poll,
}
use mydrivers.Pipe.Open.{scull_p_open, scull_p_release, scull_p_poll}
use mydrivers.Pipe.Users.{IsHeld, closed, opened, open-IsHeld, release-IsHeld, release-open}
use mydrivers.Pipe.Stream.{Inv, fresh, Reach-Inv, Reach-mutex}
use mydrivers.Pipe.Poll.{poll_deadlock}

-- Wrapped around: the bytes 4 and 1 in a buffer of four.
abbrev wrapped : Pipe
wrapped = record {
  buffer = some (1 ∷ 2 ∷ 3 ∷ 4 ∷ []);
  end_ = 4;
  buffersize = 4;
  rp = 3;
  wp = 1;
  nreaders = 1;
  nwriters = 1;
  async_queue = false;
  sem = 0;
}

wrapped-IsValid : IsValid wrapped (1 ∷ 2 ∷ 3 ∷ 4 ∷ [])
wrapped-IsValid = record {
  opened = refl;
  sized = refl;
  whole = refl;
  rp_in = omega arith;
  wp_in = omega arith;
}

wrapped-contents : contents wrapped ≡ 4 ∷ 1 ∷ []
unfolding contents
wrapped-contents = refl

wrapped-spacefree : spacefree wrapped ≡ 1
unfolding spacefree
wrapped-spacefree = refl

spacefree-add-length_test : spacefree wrapped + length (contents wrapped) + 1 ≡ 4
spacefree-add-length_test = spacefree-add-length wrapped-IsValid

read_body_lem_example :
    ReadEnd wrapped 2 (read_body copies_all wrapped 2)
    × Handed wrapped (read_body copies_all wrapped 2)
read_body_lem_example =
    read_body_lem wrapped (1 ∷ 2 ∷ 3 ∷ 4 ∷ []) wrapped-IsValid 2 (λ e. omega (arith, e)) copies_all

write_body_lem_example :
    WriteEnd wrapped (7 ∷ 8 ∷ []) (write_body copies_all wrapped (7 ∷ 8 ∷ []))
    × Handed wrapped (write_body copies_all wrapped (7 ∷ 8 ∷ []))
write_body_lem_example =
    write_body_lem wrapped (1 ∷ 2 ∷ 3 ∷ 4 ∷ []) wrapped-IsValid (7 ∷ 8 ∷ [])
      (λ e. omega (arith, e, wrapped-spacefree)) copies_all

-- A read stops at the end of the buffer, a write at the free space.
read_to_end : (read_body copies_all wrapped 2).result ≡ ok 1
unfolding read_body read_count
read_to_end = refl

write_to_room : (write_body copies_all wrapped (7 ∷ 8 ∷ [])).result ≡ ok 1
unfolding write_body write_count spacefree
write_to_room = refl

-- Newly opened, with nobody in it.
abbrev pub empty : Pipe
empty = record {
  buffer = some (0 ∷ 0 ∷ 0 ∷ []);
  end_ = 3;
  buffersize = 3;
  rp = 0;
  wp = 0;
  nreaders = 1;
  nwriters = 1;
  async_queue = false;
  sem = 1;
}

pub empty-IsValid : IsValid empty (0 ∷ 0 ∷ 0 ∷ [])
empty-IsValid = record {
  opened = refl;
  sized = refl;
  whole = refl;
  rp_in = omega arith;
  wp_in = omega arith;
}

pub empty-contents : contents empty ≡ []
unfolding contents
empty-contents = refl

pub empty_room : spacefree (down empty) ≢ 0
unfolding spacefree
empty_room = λ e. omega (arith, e)

abbrev pub request : Writing
request = record { f_flags = 0; src = 5 ∷ 6 ∷ 7 ∷ [] }

-- Process 1 writes; at the end two of its three bytes are in.
abbrev pub moved : System → Pipe → Pc → List ℕ → System
moved s p c took = record {
  pipe = p;
  pc = update (λ j. wakes (s.pc 1) (s.pc j)) 1 c;
  accepted = s.accepted ++ took;
  delivered = s.delivered ++ [];
}

abbrev pub inside : System
inside = moved (moved (fresh empty) empty (w_enter request) []) (down empty) (w_loop request) []

unfoldable pub inside-Reach : Reach nobody_polls 2 (fresh empty) inside
inside-Reach =
    later (later start (turn 1 (omega arith) (call_write request)))
      (turn 1 (omega arith) (w_down (omega arith)))

abbrev pub wrote : System
wrote =
    let s = write_body copies_all (down empty) request.src in
    moved (moved inside (down empty) (w_body request) []) s.pipe (after_write s.result) (5 ∷ 6 ∷ [])

unfoldable pub wrote-Reach : Reach nobody_polls 2 (fresh empty) wrote
unfolding write_body write_count spacefree
wrote-Reach =
    later (later inside-Reach (turn 1 (omega arith) (w_ready empty_room)))
      (turn 1 (omega arith) (w_copy copies_all refl))

Reach-Inv_example : Inv 2 wrote
Reach-Inv_example = Reach-Inv empty (0 ∷ 0 ∷ 0 ∷ []) empty-IsValid empty-contents refl wrote-Reach

Reach-mutex_test : holds (inside.pc 0) + holds (inside.pc 1) ≤ 1
Reach-mutex_test =
    Reach-mutex empty (0 ∷ 0 ∷ 0 ∷ []) 0 1 empty-IsValid empty-contents refl inside-Reach
      (omega arith) (omega arith) (λ e. omega (arith, e))

-- Not opened yet.
abbrev unused : Pipe
unused = record {
  buffer = none;
  end_ = 0;
  buffersize = 1000;
  rp = 0;
  wp = 0;
  nreaders = 0;
  nwriters = 0;
  async_queue = false;
  sem = 1;
}

unused-IsHeld : IsHeld unused
unused-IsHeld = closed refl refl refl

open-IsHeld_example : IsHeld (scull_p_open grants_all 0 false 3 unused).1
open-IsHeld_example = open-IsHeld grants_all 0 3 refl false unused unused-IsHeld

-- Two users: one reads, one writes.
abbrev shared : Pipe
shared = record {
  buffer = some (replicate 1000 0);
  end_ = 1000;
  buffersize = 1000;
  rp = 0;
  wp = 10;
  nreaders = 1;
  nwriters = 1;
  async_queue = true;
  sem = 1;
}

shared-IsHeld : IsHeld shared
shared-IsHeld =
    opened (replicate 1000 0)
      (record {
        opened = refl;
        sized = length-replicate {A = ℕ} 1000 0;
        whole = refl;
        rp_in = omega arith;
        wp_in = omega arith;
      })
      (omega arith) refl

release-IsHeld_example : IsHeld (scull_p_release false false 1 shared).1
release-IsHeld_example =
    release-IsHeld false false 1 shared shared-IsHeld (λ e. omega arith, λ e. omega arith) refl

granted_open : (scull_p_open grants_all 0 false 3 unused).0 ≡ ok 0
unfolding scull_p_open
granted_open = refl

release-open_test :
    let q = (scull_p_release false false 3 (scull_p_open grants_all 0 false 3 unused).1).1 in
    (q.buffer ≡ none) × (q.nreaders ≡ 0) × (q.nwriters ≡ 0)
release-open_test = release-open grants_all 0 3 false unused refl refl granted_open

-- With bytes to read in the pipe, and process 1 about to poll; process 0 polls after it.
abbrev waiting : System
waiting = record (fresh (record empty { wp = 2 })) { pc = update (λ _. idle) 1 p_enter }

waiting-free : (j : ℕ) → j < 2 → holds (waiting.pc j) ≡ 0
waiting-free zero lt = refl
waiting-free (suc zero) lt = refl
waiting-free (suc (suc j)) lt = absurd (omega arith)

abbrev polled : System
polled =
    let told = scull_p_poll false waiting.pipe in
    record waiting { pipe = told.1; pc = update waiting.pc 1 (returned (ok told.0)) }

abbrev polls_too : System
polls_too = record {
  pipe = polled.pipe;
  pc = update (λ j. wakes (polled.pc 0) (polled.pc j)) 0 p_enter;
  accepted = [];
  delivered = [];
}

polled-Reach : Reach undisturbed_polls 2 polled polls_too
polled-Reach = later start (turn 0 (omega arith) (call_poll refl))

poll_deadlock_example :
    ((scull_p_poll false waiting.pipe).0 ≡ 0)
    × (polls_too.pipe ≡ record (down waiting.pipe) { async_queue = polls_too.pipe.async_queue })
    × ([] ≡ waiting.accepted)
    × ([] ≡ waiting.delivered)
poll_deadlock_example = poll_deadlock waiting 1 refl waiting-free refl polled-Reach
