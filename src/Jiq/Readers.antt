-- ===== src/Jiq/Readers.antt =====
-- What a read of jiq's files makes of the five rounds of the work.
use mydrivers.Prelude.{
  ℕ, zero, suc, ◌-◌, ◌≤◌, ◌<◌, ◌≡◌, inl, inr, refl, ap, ◌∙◌, true, Option, none, some, List, [],
  ◌++◌, arith, lt→ltb, ◌==◌, ==_iff, length, Bool-cases,
}
use mydrivers.Kernel.{Uaccess, Allocator, Mem, granted}
use mydrivers.Scull.Alloc.{release_block}
use mydrivers.Print.{sprintf_fits, joined}
use mydrivers.Rounds.{
  Lines, Round, history, elapsed, one_less, Progress, Waiting, runs-Round, sbuf_size,
}
use mydrivers.Jiq.Work.{
  Work, schedule_work, schedule_delayed_work, ClientData, jit_wq, printer, jiq_print, wakes_or,
  jiq_print_wq, jiq_print_delayed_wq, schedule_wq, function_of, ends_with, prepared, jiq_wq,
}

-- Both functions make a round of what `jiq_print` leaves.
wakes_or-Round :
    (p : Lines) (fn : ℕ → ClientData → Option ClientData) (again : ClientData → Work)
    → ((j : ℕ) (d d' : ClientData)
        → jiq_print p j d ≡ some d'
        → fn j d ≡ some (wakes_or p (again d') d'))
    → Round printer p fn
unfolding jiq_print
wakes_or-Round p fn again shape j d some_left small room =
    let l = p.line j (elapsed j d.prevjiffies) in
    let fits =
      sprintf_fits sbuf_size d.text l (omega (arith, p.line_short j (elapsed j d.prevjiffies))) in
    let printed : ClientData = record d {
      left_loops = one_less d.left_loops;
      prevjiffies = j;
      text = d.text ++ l;
    } in
    let last : ClientData = record printed { queued = none; woken = true } in
    let more : ClientData = record printed { queued = some (again printed) } in
    let left : one_less d.left_loops ≡ d.left_loops - 1 = omega arith in
    let ran = shape j d printed (rw fits refl) in
    elim (Bool-cases (one_less d.left_loops == 0)) [
      | inl e ↦ (
        last,
        ran ∙ rw e refl,
        left,
        refl,
        inl ((==_iff (one_less d.left_loops) 0).0 e, refl, refl),
      )
      | inr e ↦ (more, ran ∙ rw e refl, left, refl, inr ((ground arith, refl), refl))
    ]

jiq_print_wq-Round : (p : Lines) → Round printer p (jiq_print_wq p)
unfolding jiq_print_wq
jiq_print_wq-Round p =
    wakes_or-Round p (jiq_print_wq p) (λ d. schedule_work) (λ j d d' e. rw e refl)

jiq_print_delayed_wq-Round : (p : Lines) → Round printer p (jiq_print_delayed_wq p)
unfolding jiq_print_delayed_wq
jiq_print_delayed_wq-Round p =
    wakes_or-Round p (jiq_print_delayed_wq p) (λ d. schedule_delayed_work d.delay)
      (λ j d d' e. rw e refl)

function_of-Round : (p : Lines) (param : ℕ) → Round printer p (function_of p param)
function_of-Round p param = elim (Bool-cases (param == jit_wq)) [
  | inl e ↦ rw e (jiq_print_wq-Round p)
  | inr e ↦ rw e (jiq_print_delayed_wq-Round p)
]

-- `schedule_wq` queues one of the two works, and changes nothing else.
schedule_wq_lem :
    (d : ClientData) (param : ℕ) → (q : Work) × (schedule_wq d param ≡ record d { queued = some q })
unfolding schedule_wq
schedule_wq_lem d param = elim (Bool-cases (param == jit_wq)) [
  | inl e ↦ (schedule_work, rw e refl)
  | inr e ↦ (schedule_delayed_work d.delay, rw e refl)
]

-- Whether the copy succeeds or not, the buffer is freed.
ends_freed :
    (u : Uaccess) (k : Allocator) (p : Lines) (param pos : ℕ) (m : Mem) (d : ClientData)
    → let r = ends_with u k p param pos m (some d) in
      (r.mem ≡ release_block m) × (r.freed ≡ true) × (r.data_ ≡ some d)
ends_freed u k p param pos m d = elim (Bool-cases (u.copy_to_user d.text == 0)) [
  | inl e ↦ rw e (refl, refl, refl)
  | inr e ↦ rw e (refl, refl, refl)
]

module _ (u : Uaccess) (k : Allocator) (p : Lines) (param : ℕ) (m : Mem) (b : List ℕ) where
  -- Where the buffer is granted, and the work runs at the times `js`, five at most, before `schedule()`
  -- returns: the first read ends with the headline and a line for each run. After five runs it was
  -- woken and nothing is queued; when a signal came before that, the work is.
  pub jiq_wq_rounds :
      (j : ℕ) (js : List ℕ)
      → k.kmalloc m.asked sbuf_size ≡ some b
      → length js ≤ 5
      → (d : ClientData) × (jiq_wq u k p param 0 j js m
          ≡ ends_with u k p param 0 (granted (some b) m) (some d))
        × (d.text ≡ p.headline ++ joined (history p j js))
        × Progress printer 5 (length js) d
  unfolding jiq_wq
  jiq_wq_rounds j js got few =
      let fits = sprintf_fits sbuf_size [] p.headline (omega (arith, p.headline_short)) in
      let (q, queued) = schedule_wq_lem (prepared u k p param 0 j p.headline) param in
      let start : ClientData = record (prepared u k p param 0 j p.headline) { queued = some q } in
      let (d, ran, text, progress) =
        runs-Round printer p (function_of p param) js start (function_of-Round p param)
          (omega arith, refl) (omega arith) few (omega (arith, p.headline_short)) in
      (
        d,
        rw got (rw fits (rw queued (ap (ends_with u k p param 0 (granted (some b) m)) ran))),
        text,
        progress,
      )

  -- Where the buffer is granted, every read, whatever its position and whether the copy succeeds,
  -- leaves as many blocks as there were, after five runs of the work at most.
  jiq_wq_frees :
      (pos j : ℕ) (js : List ℕ)
      → k.kmalloc m.asked sbuf_size ≡ some b
      → length js ≤ 5
      → let r = jiq_wq u k p param pos j js m in r.mem.live ≡ m.live
  unfolding jiq_wq
  jiq_wq_frees zero j js got few =
      let (d, ran, _, _) = jiq_wq_rounds j js got few in
      let (mem, _, _) = ends_freed u k p param 0 (granted (some b) m) d in
      ap (λ r. r.mem.live) ran ∙ ap (λ x. x.live) mem ∙ omega arith
  jiq_wq_frees (suc n) j js got few =
      let past = lt→ltb 0 (suc n) (omega arith) in rw got (rw past (omega arith))

  -- Where the buffer is granted and a signal ends the wait before the fifth run, the first read frees
  -- the buffer, into which the work that is still queued prints next.
  jiq_wq_dangles :
      (j : ℕ) (js : List ℕ)
      → k.kmalloc m.asked sbuf_size ≡ some b
      → length js < 5
      → let r = jiq_wq u k p param 0 j js m in
        (r.freed ≡ true) × ((d : ClientData) × (r.data_ ≡ some d) × Waiting printer d)
  jiq_wq_dangles j js got few =
      let (d, ran, _, (left, state)) = jiq_wq_rounds j js got (omega arith) in
      let (_, freed, kept) = ends_freed u k p param 0 (granted (some b) m) d in
      let waiting : Waiting printer d = elim state [
        | inl settled ↦ absurd (omega (arith, settled.0))
        | inr waiting ↦ waiting
      ] in
      (ap (λ r. r.freed) ran ∙ freed, (d, ap (λ r. r.data_) ran ∙ kept, waiting))
