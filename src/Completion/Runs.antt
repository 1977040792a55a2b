-- ===== src/Completion/Runs.antt =====
-- How many readers the writers let pass.
use mydrivers.Prelude.{
  ℕ, suc, ◌+◌, ◌^◌, ◌<◌, ◌≡◌, ◌⊎◌, inl, inr, refl, sym, ap, ◌∙◌, arith, ltb, ltb→lt, ltb→le,
  Bool-cases, Bool, true, false, Option, none, some, List, [], ◌∷◌,
}
use mathlib.Core.Option.{some-injective, none-ne-some}
use mydrivers.Kernel.{Errno, enomem, ok, err}
use mydrivers.Completion.Device.{
  Completions, waiting, Event, silent, did_read, did_write, System, completion_read, Move,
  begin_read, end_read, write, Run, loaded, then_move, none_held, completion_setup_cdev,
  completion_init, completion_exit,
}

abbrev pub writes : List (ℕ × Event) → ℕ
writes [] = 0
writes ((i, did_write r) ∷ told) = suc (writes told)
writes ((i, _) ∷ told) = writes told

abbrev pub reads : List (ℕ × Event) → ℕ
reads [] = 0
reads ((i, did_read r) ∷ told) = suc (reads told)
reads ((i, _) ∷ told) = reads told

-- Fewer writes than would fill the counter.
abbrev Few : List (ℕ × Event) → Type 0
Few told = writes told + 1 < 2 ^ 32

module _ (k : Completions) where
  -- A wait that does not block takes one from the counter.
  took_one :
      (c c' : k.Completion)
      → k.done c + 1 < 2 ^ 32
      → k.wait_for_completion c ≡ some c'
      → k.done c' + 1 ≡ k.done c
  took_one c c' small got = elim (Bool-cases (ltb 0 (k.done c))) [
    | inl e ↦
        let (x, passed, one) = k.passes c (ltb→lt 0 (k.done c) e) small in
        ap (λ y. k.done y + 1) (some-injective _ _ (sym got ∙ passed)) ∙ one
    | inr e ↦
        absurd (none-ne-some c' (sym (k.blocks c (omega (arith, ltb→le 0 (k.done c) e))) ∙ got))
  ]

  move_balance :
      (told : List (ℕ × Event)) {s : System k} {i : ℕ} {e : Event} {s' : System k}
      → Few ((i, e) ∷ told)
      → reads told + k.done s.my_comp ≡ writes told
      → Move k s i e s'
      → reads ((i, e) ∷ told) + k.done s'.my_comp ≡ writes ((i, e) ∷ told)
  move_balance told few e (begin_read at) = e
  move_balance told {s} few e (end_read c at got) =
      omega (arith, took_one s.my_comp c (omega arith) got)
  move_balance told {s} few e (write size at) =
      omega (arith, k.done-complete s.my_comp (omega arith))

  fewer : (told : List (ℕ × Event)) (i : ℕ) (e : Event) → Few ((i, e) ∷ told) → Few told
  fewer told i silent few = few
  fewer told i (did_read r) few = few
  fewer told i (did_write r) few = omega arith

  -- In every run with fewer than 2 ^ 32 - 1 writes, the reads that ended and those that may still pass
  -- are together as many as the writes: no write is lost, and none lets two readers pass.
  pub completion_balance :
      (told : List (ℕ × Event)) (s : System k)
      → Run k told s
      → Few told
      → reads told + k.done s.my_comp ≡ writes told
  completion_balance told s loaded few = omega (arith, k.done-declared)
  completion_balance told s (then_move {told = told'} {s = t} i {e = e} run move) few =
      move_balance told' few (completion_balance told' t run (fewer told' i e few)) move

  -- In every run with fewer than 2 ^ 32 - 1 writes, while fewer reads ended than writes, each process
  -- that waits can return, and its read gives 0.
  pub completion_passes :
      (told : List (ℕ × Event)) (s : System k) (i : ℕ)
      → Run k told s
      → Few told
      → reads told < writes told
      → s.pc i ≡ waiting
      → (s' : System k) × Move k s i (did_read (ok 0)) s'
  completion_passes told s i run few unused at =
      let balance = completion_balance told s run few in
      let (c, passed, _) = k.passes s.my_comp (omega arith) (omega arith) in
      (completion_read k s i c, end_read c at passed)

-- A load that reports an error holds nothing; one that succeeds holds the region and the device, and
-- its unload gives back all that it held.
exit-completion_init :
    (region : Option Errno) (granted added : Bool)
    → let (r, h) = completion_init region granted added in
      ((e : Errno) × (r ≡ err e) × (h ≡ none_held))
      ⊎ ((r ≡ ok 0)
          × (h.region ≡ true)
          × (h.device ≡ true)
          × (h.cdev ≡ added)
          × (completion_exit h ≡ some none_held))
unfolding completion_init completion_setup_cdev completion_exit
exit-completion_init (some e) granted added = inl (e, refl, refl)
exit-completion_init none false added = inl (enomem, refl, refl)
exit-completion_init none true added = inr (refl, refl, refl, refl, refl)
