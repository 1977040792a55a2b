-- ===== src/Sleepy/Tests.antt =====
-- Runs of sleepy.c, and the theorems at them.
use mydrivers.Prelude.{ℕ, ◌≡◌, refl, false, List, [], ◌∷◌}
use mydrivers.Kernel.{ok}
use mydrivers.Sleepy.Device.{
  waiting, System, Event, silent, did_read, did_write, begin_read, sees_flag, end_read, write,
  asleep, Run, loaded, then_move,
}
use mydrivers.Sleepy.Runs.{
  writes, signals, reads, ReadsAreCaused, sleeps_until_caused, one_write_wakes_all,
}

one_write_wakes_all_test :
    (told : List (ℕ × Event)) × (s : System) × Run told s
    × (writes told ≡ 1)
    × (signals told ≡ 0)
    × (reads told ≡ 2)
one_write_wakes_all_test = one_write_wakes_all 2

-- Process 0 waits, process 1 writes, process 0 returns.
abbrev told : List (ℕ × Event)
told = (0, did_read (ok 0)) ∷ (0, silent) ∷ (1, did_write (ok 3)) ∷ (0, silent) ∷ []

abbrev after : System
after = record asleep { flag = false }

woken : (s : System) × Run told s
woken = (
  _,
  then_move 0
      (then_move 0 (then_move 1 (then_move 0 loaded (begin_read refl)) (write 3 refl))
        (sees_flag refl refl))
      (end_read refl),
)

sleeps_until_caused_example : ReadsAreCaused 0 told
sleeps_until_caused_example = sleeps_until_caused 0 told woken.0 woken.1

-- A second write is lost: it comes while process 0 returns, process 2 waits, and the flag is not set.
lost :
    (s : System) × Run
      ((0, did_read (ok 0))
        ∷ (1, did_write (ok 3))
        ∷ (0, silent)
        ∷ (1, did_write (ok 3))
        ∷ (2, silent)
        ∷ (0, silent)
        ∷ [])
      s
    × (s.flag ≡ false)
    × (s.pc 2 ≡ waiting)
lost = (
  _,
  then_move 0
      (then_move 1
        (then_move 0
          (then_move 1 (then_move 2 (then_move 0 loaded (begin_read refl)) (begin_read refl))
            (write 3 refl))
          (sees_flag refl refl))
        (write 3 refl))
      (end_read refl),
  refl,
  refl,
)
