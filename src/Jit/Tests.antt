-- ===== src/Jit/Tests.antt =====
-- Runs of jit.c on a concrete clock, and the theorems at them.
use mydrivers.Prelude.{
  ℕ, suc, ◌+◌, ◌-◌, ◌*◌, ◌%◌, ◌^◌, ◌≤◌, ◌≡◌, inl, refl, arith, true, none, some, [], ◌∷◌, ◌++◌,
  replicate,
}
use mydrivers.Kernel.{ok, fault, efault, err}
use mydrivers.Examples.{copies_all, copies_none, grants_all, no_blocks}
use mydrivers.Rounds.{Lines, Waiting, Progress}
use mydrivers.Print.{sprintf, Reply, hands_over}
use mydrivers.ProcFs.Table.{table, no_entries}
use mydrivers.Jit.Files.{jit_init, jit_cleanup, jit_cleanup-jit_init}
use mydrivers.Jit.Delay.{busy, Time, jiffies, waits, wait_until, sleep_out, time_before, jit_delay}
use mydrivers.Jit.Waits.{FirstPast, jit_delay_ends, sleep_out_ends, jit_delay_overflows}
use mydrivers.Jit.Decimal.{decimal_format, delay_text}
use mydrivers.Jit.Timers.{JitData, printer, jit_timer, ends_with}
use mydrivers.Jit.Readers.{jit_timer_rounds, jit_timer_dangles}

-- A clock that is looked at every 100 ticks, from `start` on.
abbrev clock : ℕ → Time
clock start = record { hz = 250; ticks = λ i. start + 100 * i; schedule_timeout = λ i d. d - 100 }

-- Just before `jiffies` runs over.
abbrev near_end : ℕ
near_end = 2 ^ 64 - 150

jit_delay_ends_example :
    (i : ℕ) × (i ≤ 3)
    × FirstPast (clock near_end).ticks (near_end + 250) 1 i
    × (jit_delay copies_all grants_all decimal_format (clock near_end) 3 busy 0 1 no_blocks
        ≡ some (
            hands_over copies_all 0
              (record { asked = 1; live = 1 })
              (sprintf 24 []
                (delay_text (jiffies (clock near_end) 0) (jiffies (clock near_end) (suc i))))))
jit_delay_ends_example =
    jit_delay_ends copies_all grants_all decimal_format (clock near_end) busy 3 3 0 1 no_blocks
      (replicate 24 170) (inl refl) refl (omega arith) (λ x h. (omega arith, omega arith))
      (omega arith) (omega arith) (omega arith)

sleep_out_ends_test : (j : ℕ) × (sleep_out (λ i d. d - 100) 4 0 250 ≡ some j) × (j ≤ 0 + 3)
sleep_out_ends_test =
    sleep_out_ends (λ i d. d - 100) (λ i. 100) 3 4 0 250 (λ i d. omega arith) (omega arith)
      (omega arith)

-- `jiffies` at eleven digits
waited : waits (clock 10000000000) 4 10000000250 busy ≡ some 4
unfolding waits wait_until time_before
waited = refl

jit_delay_overflows_example :
    (r : Reply) × (jit_delay copies_all grants_all decimal_format
        (clock 10000000000)
        4
        busy
        0
        1
        no_blocks
      ≡ some r)
    × (r.result ≡ fault)
jit_delay_overflows_example =
    jit_delay_overflows copies_all grants_all decimal_format (clock 10000000000) busy 4 4 0 1
      no_blocks (replicate 24 170) refl (omega arith) waited (omega arith) (omega arith)
      (omega arith) (omega arith)

abbrev lines : Lines
lines = record {
  headline = replicate 58 45;
  line = λ j d. (48 + j % 10) ∷ (48 + d % 10) ∷ 10 ∷ [];
  headline_short = omega arith;
  line_short = λ j d. omega arith;
}

-- Two runs of the timer, the second one late, before a signal comes.
jit_timer_rounds_example :
    (d : JitData) × (jit_timer copies_all grants_all lines 5 (105 ∷ 209 ∷ []) no_blocks
      ≡ ends_with copies_all grants_all lines (record { asked = 1; live = 1 }) (some d))
    × (d.text ≡ replicate 58 45 ++ (53 ∷ 48 ∷ 10 ∷ 57 ∷ 52 ∷ 10 ∷ []))
    × Progress printer 10 2 d
jit_timer_rounds_example =
    jit_timer_rounds copies_all grants_all lines no_blocks (replicate 2400 170) 5 (105 ∷ 209 ∷ [])
      refl (omega arith, omega arith, (omega arith, omega arith, tt)) (omega arith)

jit_timer_dangles_test :
    let r = jit_timer copies_none grants_all lines 5 (105 ∷ []) no_blocks in
    (r.result ≡ err efault)
    × (r.freed ≡ true)
    × ((d : JitData) × (r.data_ ≡ some d) × Waiting printer d)
jit_timer_dangles_test =
    jit_timer_dangles copies_none grants_all lines no_blocks (replicate 2400 170) 5 (105 ∷ []) refl
      (omega arith, omega arith, tt) (omega arith) (λ e. absurd (omega (arith, e)))

jit_cleanup-jit_init_test :
    ((jit_init table no_entries).0 ≡ ok 0)
    × (table.entry "jitbusy" (jit_cleanup table (jit_init table no_entries).1) ≡ none)
jit_cleanup-jit_init_test = jit_cleanup-jit_init table no_entries "jitbusy"
