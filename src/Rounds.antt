-- ===== src/Rounds.antt =====
-- Rounds that print a line each into one buffer, as the timers, tasklets and work items of jit.c and
-- jiq.c do, until none is left.
use mydrivers.Prelude.{
  ℕ, ◌+◌, ◌-◌, ◌*◌, ◌%◌, ◌^◌, ◌≤◌, ◌<◌, ◌≡◌, ◌⊎◌, inl, inr, refl, sym, ap, ◌∙◌, Bool, true, false,
  Option, some, List, [], ◌∷◌, ◌++◌, append_assoc, append-nil, arith, length, length-append,
  if◌then◌else◌,
}
use mydrivers.Kernel.{◌>>=◌}
use mydrivers.Print.{joined}

-- What the kernel prints: the headline, and a line for the clock and the difference. A line has two
-- numbers of 64 bits, three of 32 bits, and a process's name of 15 letters at most.
pub record Lines : Type 0 where
  pub headline : List ℕ
  pub line : (j duration : ℕ) → List ℕ
  pub headline_short : length headline ≤ 100
  pub line_short : (j duration : ℕ) → length (line j duration) ≤ 100

-- The size of the buffers.
abbrev pub sbuf_size : ℕ
sbuf_size = 2400

abbrev pub word : ℕ
word = 2 ^ 64

-- The difference of two `unsigned long`.
abbrev pub elapsed : (j prev : ℕ) → ℕ
elapsed j prev = (j + word - prev) % word

-- A decrement of 32 bits.
abbrev pub one_less : ℕ → ℕ
one_less n = (n + 2 ^ 32 - 1) % 2 ^ 32

-- What the rounds keep in a state: the rounds left, the last time printed, the text in the buffer,
-- whether the next round is asked for, and whether the reader was woken.
pub record Printer (S : Type 0) : Type 0 where
  pub left_loops : S → ℕ
  pub prevjiffies : S → ℕ
  pub text : S → List ℕ
  pub pending : S → Bool
  pub woken : S → Bool

module _ {S : Type 0} (v : Printer S) (fn : ℕ → S → Option S) where
  -- The function that is pending, run at one time after the other until none is pending.
  unfoldable pub runs : List ℕ → S → Option S
  runs [] d = some d
  runs (j ∷ js) d = if v.pending d then (do d' ← fn j d; runs js d') else some d

-- The lines that are printed at the times `js`, the last one before them being `prev`.
abbrev pub history : Lines → (prev : ℕ) → List ℕ → List (List ℕ)
history p prev [] = []
history p prev (j ∷ js) = p.line j (elapsed j prev) ∷ history p j js

module _ {S : Type 0} (v : Printer S) where
  -- No round is left, and the reader is awake.
  abbrev Settled : S → Type 0
  Settled d = (v.left_loops d ≡ 0) × (v.pending d ≡ false) × (v.woken d ≡ true)

  abbrev pub Waiting : S → Type 0
  Waiting d = (0 < v.left_loops d) × (v.pending d ≡ true)

  -- Some of `n` rounds are over: all of them, or the next one is pending.
  abbrev pub Progress : (n over : ℕ) → S → Type 0
  Progress n over d = (v.left_loops d ≡ n - over) × (Settled d ⊎ Waiting d)

  -- One round: the line is printed, and the next round asked for while one is left.
  abbrev pub Round : Lines → (ℕ → S → Option S) → Type 0
  Round p fn =
      (j : ℕ) (d : S)
      → 0 < v.left_loops d
      → v.left_loops d < 2 ^ 32
      → length (v.text d) + 101 ≤ sbuf_size
      → (d' : S) × (fn j d ≡ some d')
        × (v.left_loops d' ≡ v.left_loops d - 1)
        × (v.text d' ≡ v.text d ++ p.line j (elapsed j (v.prevjiffies d)))
        × (Settled d' ⊎ (Waiting d' × (v.prevjiffies d' ≡ j)))

  runs_step :
      (fn : ℕ → S → Option S) (j : ℕ) (js : List ℕ) (d d' : S)
      → Waiting d
      → fn j d ≡ some d'
      → runs v fn (j ∷ js) d ≡ runs v fn js d'
  unfolding runs
  runs_step fn j js d d' (left, e) ran = rw e (ap (λ o. o >>= (λ x. runs v fn js x)) ran)

  runs_none :
      (p : Lines) (fn : ℕ → S → Option S) (js : List ℕ) (j : ℕ) (d : S)
      → length js ≤ 0
      → (runs v fn js d ≡ some d) × (joined (history p j js) ≡ [])
  unfolding runs
  runs_none p fn [] j d h = (refl, refl)
  runs_none p fn (x ∷ js) j d h = absurd (omega arith)

  -- Rounds at the times `js`, as many as are left at most, while there is room for their lines.
  pub runs-Round :
      (p : Lines) (fn : ℕ → S → Option S) (js : List ℕ) (d : S)
      → Round p fn
      → Waiting d
      → v.left_loops d < 2 ^ 32
      → length js ≤ v.left_loops d
      → length (v.text d) + v.left_loops d * 100 + 1 ≤ sbuf_size
      → (d' : S) × (runs v fn js d ≡ some d')
        × (v.text d' ≡ v.text d ++ joined (history p (v.prevjiffies d) js))
        × Progress (v.left_loops d) (length js) d'
  unfolding runs
  runs-Round p fn [] d round waits small few room =
      (d, refl, sym (append-nil (v.text d)), (omega arith, inr waits))
  runs-Round p fn (j ∷ js) d round waits small few room =
      let some_left = waits.0 in
      let (d', ran, left, text, next) = round j d waits.0 small (omega arith) in
      let l = p.line j (elapsed j (v.prevjiffies d)) in
      elim next [
        | inl settled ↦
            let (same, no_lines) = runs_none p fn js j d' (omega arith) in
            (
              d',
              runs_step fn j js d d' waits ran ∙ same,
              text ∙ ap (λ t. v.text d ++ t) (sym (append-nil l) ∙ ap (λ t. l ++ t) (sym no_lines)),
              (omega arith, inl settled),
            )
        | inr (waiting, now) ↦
            let size : length (v.text d') ≡ length (v.text d) + length l =
              ap length text ∙ length-append (v.text d) l in
            let short = p.line_short j (elapsed j (v.prevjiffies d)) in
            let (d'', ran', text', (left', end)) =
              runs-Round p fn js d' round waiting (omega arith) (omega arith) (omega arith) in
            (
              d'',
              runs_step fn j js d d' waits ran ∙ ran',
              text'
                  ∙ ap (λ t. t ++ joined (history p (v.prevjiffies d') js)) text
                  ∙ append_assoc (v.text d) l (joined (history p (v.prevjiffies d') js))
                  ∙ ap (λ x. v.text d ++ (l ++ joined (history p x js))) now,
              (omega arith, end),
            )
      ]
