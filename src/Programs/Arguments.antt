-- ===== src/Programs/Arguments.antt =====
-- What misc_progs/setlevel.c and setconsole.c make of a wrong number of arguments.
use mydrivers.Prelude.{ℕ, ◌≡◌, ◌≢◌, Bool, true, none, some, arith, if◌then◌else◌}
use mydrivers.Programs.Console.{setlevel, setconsole}

-- Without exactly one argument both programs complain; setconsole then makes no call and fails, and
-- setlevel goes on, passes level 8, and succeeds where that call does.
pub usage_lem :
    (call_fails : ℕ → Bool) (argc value : ℕ)
    → argc ≢ 2
    → (setconsole call_fails argc value ≡ record { usage = true; passed = none; status = 1 })
      × (setlevel call_fails argc value
          ≡ record { usage = true; passed = some 8; status = if call_fails 8 then 1 else 0 })
usage_lem call_fails argc value ne = (ground (arith, ne), ground (arith, ne))
