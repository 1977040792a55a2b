-- ===== src/Programs/Console.antt =====
-- misc_progs/setlevel.c and setconsole.c: one system call with the number of the argument.
use mydrivers.Prelude.{ℕ, ◌%◌, Bool, Option, none, some, not, ◌==◌, if◌then◌else◌}

-- Whether the program complained of its arguments, what it passed to the system, and its status.
pub record Ended : Type 0 where
  pub usage : Bool
  pub passed : Option ℕ
  pub status : ℕ

-- Whether the call fails, by what it is passed; `value` is `atoi(argv[1])`
module _ (call_fails : ℕ → Bool) (argc value : ℕ) where
  abbrev called : Bool → ℕ → Ended
  called usage n = record { usage = usage; passed = some n; status = if call_fails n then 1 else 0 }

  -- `klogctl(8, NULL, level)`
  abbrev pub setlevel : Ended
  setlevel = called (not (argc == 2)) (if argc == 2 then value else 8)

  -- `ioctl(STDIN_FILENO, TIOCLINUX, bytes)`, with `value` as a `char`
  abbrev pub setconsole : Ended
  setconsole =
      if argc == 2
      then called (not (argc == 2)) (value % 256)
      else record { usage = not (argc == 2); passed = none; status = 1 }
