-- ===== src/Pipe/Poll.antt =====
-- `scull_p_poll` asks the wrong way round whether it got the semaphore.
use mydrivers.Prelude.{ℕ, ◌<◌, ◌≡◌, refl, ◌∙◌, ap, true, false, List, [], ◌++◌, arith, append-nil}
use mydrivers.Prelude.Family.{update}
use mydrivers.Kernel.{ok}
use mydrivers.Pipe.State.{Pipe, down}
use mydrivers.Pipe.Open.{scull_p_open, scull_p_release, scull_p_poll}
use mydrivers.Pipe.Notify.{scull_p_fasync}
use mydrivers.Pipe.System.{
  Pc, p_enter, returned, holds, System, wakes, undisturbed_polls, Move, call_read, call_write,
  r_down, r_interrupted, r_ready, r_again, r_wait, r_wake, r_schedule, r_signal, r_roused, r_copy,
  r_wakes, w_down, w_interrupted, w_ready, w_again, w_wait, w_wake, w_schedule, w_signal, w_roused,
  w_copy, w_wakes, call_poll, poll_got, poll_interrupted, opens, releases, asks_signals, next_call,
  turn, Reach, start, later,
}
use mydrivers.Pipe.Stream.{wakes_lem}

-- Nobody holds the semaphore, and it is not free.
record IsStuck (n : ℕ) (s : System) : Type 0 where
  pub taken : s.pipe.sem ≡ 0
  pub nobody : (i : ℕ) → i < n → holds (s.pc i) ≡ 0

-- All of the pipe but whether its list of `async_queue` has an entry.
abbrev SameButQueue : Pipe → Pipe → Type 0
SameButQueue p p' = p' ≡ record p { async_queue = p'.async_queue }

-- What a process does that does not hold a semaphore that is not free.
record Idles (p p' : Pipe) (c' : Pc) (took gave : List ℕ) : Type 0 where
  pub same : SameButQueue p p'
  pub free : holds c' ≡ 0
  pub took_none : took ≡ []
  pub gave_none : gave ≡ []

rests : (p : Pipe) (c' : Pc) → holds c' ≡ 0 → Idles p p c' [] []
rests p c' z = record { same = refl; free = z; took_none = refl; gave_none = refl }

Move-Idles :
    {p p' : Pipe} {c c' : Pc} {took gave : List ℕ}
    → Move undisturbed_polls p c p' c' took gave
    → p.sem ≡ 0
    → holds c ≡ 0
    → Idles p p' c' took gave
unfolding scull_p_open scull_p_release scull_p_fasync
Move-Idles {p} (call_read r) h z = rests p _ refl
Move-Idles {p} (call_write w) h z = rests p _ refl
Move-Idles (r_down lt) h z = absurd (omega arith)
Move-Idles {p} r_interrupted h z = rests p _ refl
Move-Idles (r_ready ne) h z = absurd (omega arith)
Move-Idles (r_again e f) h z = absurd (omega arith)
Move-Idles (r_wait e f) h z = absurd (omega arith)
Move-Idles {p} (r_wake ne) h z = rests p _ refl
Move-Idles {p} (r_schedule e) h z = rests p _ refl
Move-Idles {p} (r_signal e) h z = rests p _ refl
Move-Idles {p} r_roused h z = rests p _ refl
Move-Idles (r_copy u e) h z = absurd (omega arith)
Move-Idles {p} r_wakes h z = rests p _ refl
Move-Idles (w_down lt) h z = absurd (omega arith)
Move-Idles {p} w_interrupted h z = rests p _ refl
Move-Idles (w_ready ne) h z = absurd (omega arith)
Move-Idles (w_again e f) h z = absurd (omega arith)
Move-Idles (w_wait e f) h z = absurd (omega arith)
Move-Idles {p} w_wake h z = rests p _ refl
Move-Idles {p} (w_schedule e) h z = rests p _ refl
Move-Idles {p} w_signal h z = rests p _ refl
Move-Idles {p} w_roused h z = rests p _ refl
Move-Idles (w_copy u e) h z = absurd (omega arith)
Move-Idles {p} w_wakes h z = rests p _ refl
Move-Idles {p} (call_poll e) h z = rests p _ refl
Move-Idles (poll_got lt) h z = absurd (omega arith)
Move-Idles (poll_interrupted e) h z = absurd (ground (arith, e))
Move-Idles {p} (opens k nth true f_mode free) h z = rests p _ refl
Move-Idles (opens k nth false f_mode free) h z = absurd (omega (arith, free refl, h))
Move-Idles {p} (releases left true f_mode free users) h z = record {
  same = refl;
  free = refl;
  took_none = refl;
  gave_none = refl;
}
Move-Idles (releases left false f_mode free users) h z = absurd (omega (arith, free refl, h))
Move-Idles {p} (asks_signals fasync_helper mode) h z = record {
  same = refl;
  free = refl;
  took_none = refl;
  gave_none = refl;
}
Move-Idles {p} next_call h z = rests p _ refl

-- What never changes from a stuck state on.
record Frozen (n : ℕ) (s t : System) : Type 0 where
  pub stuck : IsStuck n t
  pub same_pipe : SameButQueue s.pipe t.pipe
  pub same_accepted : t.accepted ≡ s.accepted
  pub same_delivered : t.delivered ≡ s.delivered

holds-update :
    (f : ℕ → Pc) (i j : ℕ) (c : Pc) → holds c ≡ 0 → holds (f j) ≡ 0 → holds (update f i c j) ≡ 0
holds-update f i j c h g = ground arith

same_trans : (p q r : Pipe) → SameButQueue p q → SameButQueue q r → SameButQueue p r
same_trans p q r e f = f ∙ ap (λ (x : Pipe). record x { async_queue = r.async_queue }) e

Reach-Frozen : {n : ℕ} {s t : System} → IsStuck n s → Reach undisturbed_polls n s t → Frozen n s t
Reach-Frozen h start = record {
  stuck = h;
  same_pipe = refl;
  same_accepted = refl;
  same_delivered = refl;
}
Reach-Frozen {n = n} {s = s} h
      (later {t = t} r (turn i {p = p} {c = c} {took = took} {gave = gave} lt move)) =
    let f = Reach-Frozen h r in
    let m = Move-Idles move f.stuck.taken (f.stuck.nobody i lt) in
    record {
      stuck = record {
        taken = ap (λ (q : Pipe). q.sem) m.same ∙ f.stuck.taken;
        nobody = λ j ltj.
            holds-update (λ k. wakes (t.pc i) (t.pc k)) i j c m.free
              ((wakes_lem p (t.pc i) (t.pc j)).0 ∙ f.stuck.nobody j ltj);
      };
      same_pipe = same_trans s.pipe t.pipe p f.same_pipe m.same;
      same_accepted =
          ap (λ l. t.accepted ++ l) m.took_none ∙ append-nil t.accepted ∙ f.same_accepted;
      same_delivered =
          ap (λ l. t.delivered ++ l) m.gave_none ∙ append-nil t.delivered ∙ f.same_delivered;
    }

-- When the semaphore is free and no process is in the buffer, a `poll` that gets the semaphore
-- reports that nothing is ready whatever the pipe holds; and as long as no poll is interrupted
-- and the pipe keeps a user, whatever moves of any processes follow, further polls, opens and
-- releases among them: no process gets a byte in or out, and the pipe stays as it was, but for
-- who asked for signals.
pub poll_deadlock :
    {n : ℕ} (s : System) (i : ℕ) {t : System}
    → s.pipe.sem ≡ 1
    → ((j : ℕ) → j < n → holds (s.pc j) ≡ 0)
    → s.pc i ≡ p_enter
    → let told = scull_p_poll false s.pipe in
      Reach undisturbed_polls n
        (record s { pipe = told.1; pc = update s.pc i (returned (ok told.0)) })
        t
      → ((scull_p_poll false s.pipe).0 ≡ 0)
        × (t.pipe ≡ record (down s.pipe) { async_queue = t.pipe.async_queue })
        × (t.accepted ≡ s.accepted)
        × (t.delivered ≡ s.delivered)
unfolding scull_p_poll
poll_deadlock {n = n} s i free nobody at r =
    let f =
      Reach-Frozen {n = n}
        (record {
          taken = omega arith;
          nobody = λ j lt. holds-update s.pc i j (returned (ok 0)) refl (nobody j lt);
        })
        r in
    (refl, f.same_pipe, f.same_accepted, f.same_delivered)
