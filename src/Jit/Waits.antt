-- ===== src/Jit/Waits.antt =====
-- What the waits of `jit_delay` come to: they end, and not before a second has passed.
use mydrivers.Prelude.{
  ℕ, zero, suc, ◌+◌, ◌-◌, ◌%◌, ◌^◌, ◌≤◌, ◌<◌, ◌≡◌, ◌⊎◌, inl, inr, refl, subst, ◌∙◌, false, none,
  some, List, [], arith, ltb, ltb→lt, ltb→le, le→ltb, gt→leb, ◌==◌, if◌then◌else◌, length,
  Bool-cases,
}
use mydrivers.Kernel.{ok, err, efault, fault, Uaccess, Allocator, Mem, granted}
use mydrivers.Rounds.{word}
use mydrivers.Print.{sprintf, sprintf_fits, sprintf_past, Reply, hands_over}
use mydrivers.Jit.Delay.{
  Format, time_before, wait_until, sleep_out, JitFile, busy, sched, Time, jiffies, waits, jit_delay,
}

-- The clock may have run over: the comparison is right for times less than 2 ^ 63 apart.
time_before_lem :
    (a b : ℕ) → a < b + 2 ^ 63 → b ≤ a + 2 ^ 63 → time_before (a % word) (b % word) ≡ ltb a b
unfolding time_before
time_before_lem a b h h' = ground arith

-- How far apart the clock and `j1` may be, up to look `n`.
abbrev Near : (c : ℕ → ℕ) (j1 n : ℕ) → Type 0
Near c j1 n = (x : ℕ) → x ≤ n → (c x < j1 + 2 ^ 63) × (j1 ≤ c x + 2 ^ 63)

-- The first look, from `i` on, that finds `j1` reached.
abbrev pub FirstPast : (c : ℕ → ℕ) (j1 i m : ℕ) → Type 0
FirstPast c j1 i m = (i ≤ m) × (j1 ≤ c m) × ((x : ℕ) → i ≤ x → x < m → c x < j1)

below_of : (c : ℕ → ℕ) (j1 i n : ℕ) → i ≤ n → c i < j1 → j1 ≤ c n → i < n
below_of c j1 i n le h h' = elim (Bool-cases (ltb i n)) [
  | inl e ↦ ltb→lt i n e
  | inr e ↦ absurd (omega (arith, ltb→le i n e, subst (λ x. j1 ≤ c x) (n≡ e) h'))
]
  where
    n≡ : ltb i n ≡ false → n ≡ i
    n≡ e = omega (arith, ltb→le i n e)

-- A look more at the front.
earlier :
    (c : ℕ → ℕ) (j1 i m : ℕ)
    → c i < j1
    → ((x : ℕ) → suc i ≤ x → x < m → c x < j1)
    → (x : ℕ) → i ≤ x
    → x < m
    → c x < j1
earlier c j1 i m below before x i≤x x<m = elim (Bool-cases (ltb i x)) [
  | inl e ↦ before x (ltb→lt i x e) x<m
  | inr e ↦ subst (λ y. c y < j1) (omega (arith, ltb→le i x e)) below
]

-- The loop from look `i` on, when the clock has reached `j1` at look `n`, ends at the first look
-- that finds it reached.
wait_until_ends :
    (c : ℕ → ℕ) (j1 n fuel i : ℕ)
    → Near c j1 n
    → i ≤ n
    → j1 ≤ c n
    → n - i < fuel
    → (m : ℕ) × (m ≤ n)
      × (wait_until (λ x. c x % word) (j1 % word) fuel i ≡ some m)
      × FirstPast c j1 i m
unfolding wait_until
wait_until_ends c j1 n zero i near le h l = absurd (omega arith)
wait_until_ends c j1 n (suc fuel) i near le h l =
    let test = time_before_lem (c i) j1 (near i le).0 (near i le).1 in
    elim (Bool-cases (ltb (c i) j1)) [
      | inl e ↦
          let below = ltb→lt (c i) j1 e in
          let i<n = below_of c j1 i n le below h in
          let (m, m≤n, runs, (i<m, past, before)) =
            wait_until_ends c j1 n fuel (suc i) near i<n h (omega arith) in
          (m, m≤n, rw (test ∙ e) runs, (omega arith, past, earlier c j1 i m below before))
      | inr e ↦ (
        i,
        le,
        rw (test ∙ e) refl,
        (omega arith, ltb→le (c i) j1 e, λ x h1 h2. absurd (omega arith)),
      )
    ]

-- The jiffies that pass at `n` returns from the i-th on.
abbrev pub passed : (elapsed : ℕ → ℕ) → ℕ → ℕ → ℕ
passed elapsed i zero = 0
passed elapsed i (suc n) = elapsed i + passed elapsed (suc i) n

-- Where `schedule_timeout` lets at least `elapsed i` jiffies pass at its i-th return, and `n` returns
-- from the i-th on let the whole delay pass, the loop of JIT_SCHEDTO ends, with fuel for one look more
-- than `n`, after `n` returns at the latest.
pub sleep_out_ends :
    (s : ℕ → ℕ → ℕ) (elapsed : ℕ → ℕ) (n fuel i delay : ℕ)
    → ((i d : ℕ) → s i d ≤ d - elapsed i)
    → delay ≤ passed elapsed i n
    → n < fuel
    → (j : ℕ) × (sleep_out s fuel i delay ≡ some j) × (j ≤ i + n)
unfolding sleep_out
sleep_out_ends s elapsed n zero i delay sleeps h l = absurd (omega arith)
sleep_out_ends s elapsed zero (suc fuel) i delay sleeps h l =
    (i, rw (le→ltb 0 delay (omega arith)) refl, omega arith)
sleep_out_ends s elapsed (suc n) (suc fuel) i delay sleeps h l =
    let d = s i delay in
    let (j, runs, j≤) =
      sleep_out_ends s elapsed n fuel (suc i) d sleeps (omega (arith, sleeps i delay))
        (omega arith) in
    elim (Bool-cases (ltb 0 delay)) [
      | inl e ↦ (j, rw e runs, omega arith)
      | inr e ↦ (i, rw e refl, omega arith)
    ]

-- The two files that wait on the clock.
waits_on_clock :
    (t : Time) (fuel j1 i : ℕ) (data_ : JitFile)
    → (data_ ≡ busy) ⊎ (data_ ≡ sched)
    → wait_until (jiffies t) j1 fuel 1 ≡ some i
    → waits t fuel j1 data_ ≡ some (suc i)
unfolding waits
waits_on_clock t fuel j1 i data_ (inl e) runs = rw e (rw runs refl)
waits_on_clock t fuel j1 i data_ (inr e) runs = rw e (rw runs refl)

module _ (u : Uaccess) (k : Allocator) (f : Format) (t : Time) where
  -- Where the buffer is granted, the position is below the count, and the clock, which may run
  -- over, reaches `hz` jiffies past the start at look `n` and up to then is less than 2 ^ 63
  -- jiffies away from that: a read of the two files that wait on the clock ends, with fuel for
  -- `n` looks, and prints the clock's value behind the first look that found the second over.
  pub jit_delay_ends :
      (data_ : JitFile) (fuel n pos count : ℕ) (m : Mem) (b : List ℕ)
      → (data_ ≡ busy) ⊎ (data_ ≡ sched)
      → k.kmalloc m.asked 24 ≡ some b
      → pos < count
      → Near t.ticks (t.ticks 0 + t.hz) n
      → 1 ≤ n
      → t.ticks 0 + t.hz ≤ t.ticks n
      → n ≤ fuel
      → (i : ℕ) × (i ≤ n)
        × FirstPast t.ticks (t.ticks 0 + t.hz) 1 i
        × (jit_delay u k f t fuel data_ pos count m
            ≡ some (
                hands_over u pos
                  (granted (some b) m)
                  (sprintf 24 [] (f.delay_line (jiffies t 0) (jiffies t (suc i))))))
  unfolding jit_delay
  jit_delay_ends data_ fuel n pos count m b which got room near looks reached enough =
      let (i, i≤n, runs, first) =
        wait_until_ends t.ticks (t.ticks 0 + t.hz) n fuel 1 near looks reached (omega arith) in
      let wrapped : (jiffies t 0 + t.hz) % word ≡ (t.ticks 0 + t.hz) % word = omega arith in
      let waited = waits_on_clock t fuel ((t.ticks 0 + t.hz) % word) i data_ which runs in
      (i, i≤n, first, rw got (rw (gt→leb count pos room) (rw wrapped (rw waited refl))))

  -- Where the buffer is granted, the position is below the count, the wait ends, and the clock
  -- has ten digits at most before and after it: the line is delivered and the buffer freed, or,
  -- where the copy fails, EFAULT is reported and the buffer freed all the same.
  jit_delay_fits :
      (data_ : JitFile) (fuel i pos count : ℕ) (m : Mem) (b : List ℕ)
      → k.kmalloc m.asked 24 ≡ some b
      → pos < count
      → waits t fuel ((jiffies t 0 + t.hz) % word) data_ ≡ some i
      → jiffies t 0 < 10 ^ 10
      → jiffies t i < 10 ^ 10
      → let line = f.delay_line (jiffies t 0) (jiffies t i) in
        let after : Mem = record { asked = m.asked + 1; live = m.live } in
        jit_delay u k f t fuel data_ pos count m
        ≡ some (
            if u.copy_to_user line == 0
            then record {
              result = ok (length line);
              pos = pos + length line;
              mem = after;
              delivered = line;
            }
            else record { result = err efault; pos = pos; mem = after; delivered = [] })
  unfolding jit_delay
  jit_delay_fits data_ fuel i pos count m b got room waited h h' =
      let j0 = jiffies t 0 in
      let j1 = jiffies t i in
      let fits =
        sprintf_fits 24 [] (f.delay_line j0 j1)
          (omega (arith, f.delay_short j0 j1 10 (omega arith) h h' (omega arith) (omega arith))) in
      let freed : m.live + 1 - 1 ≡ m.live = omega arith in
      rw got (rw (gt→leb count pos room) (rw waited (rw fits (rw freed refl))))

  -- Where the buffer is granted, the position is below the count, the wait ends, and the clock
  -- has eleven digits or more before and after it, and is no negative `long`, the print runs past
  -- the end of the buffer.
  pub jit_delay_overflows :
      (data_ : JitFile) (fuel i pos count : ℕ) (m : Mem) (b : List ℕ)
      → k.kmalloc m.asked 24 ≡ some b
      → pos < count
      → waits t fuel ((jiffies t 0 + t.hz) % word) data_ ≡ some i
      → 10 ^ 10 ≤ jiffies t 0
      → 10 ^ 10 ≤ jiffies t i
      → jiffies t 0 < 2 ^ 63
      → jiffies t i < 2 ^ 63
      → (r : Reply) × (jit_delay u k f t fuel data_ pos count m ≡ some r) × (r.result ≡ fault)
  unfolding jit_delay
  jit_delay_overflows data_ fuel i pos count m b got room waited h h' p p' =
      let j0 = jiffies t 0 in
      let j1 = jiffies t i in
      let past =
        sprintf_past 24 [] (f.delay_line j0 j1) (omega (arith, f.delay_long j0 j1 10 h h' p p')) in
      (
        hands_over u pos (granted (some b) m) none,
        rw got (rw (gt→leb count pos room) (rw waited (rw past refl))),
        refl,
      )
