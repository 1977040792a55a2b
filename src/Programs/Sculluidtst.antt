-- ===== src/Programs/Sculluidtst.antt =====
-- misc_progs/sculluidtst.c: a program that opens /dev/scull_uid and shows it piece by piece.
use mydrivers.Prelude.{ℕ, zero, suc, false, List, ◌++◌, take}
use mydrivers.Kernel.{Result, ok, err, fault, Uaccess, Allocator, Mem}
use mydrivers.Scull.Device.{Dev}
use mydrivers.Scull.Write.{Outcome}
use mydrivers.Scull.Read.{scull_read}

-- The device, the position of the file, and what of the device went to the terminal, without the
-- fixed line that each round begins with.
pub data Progress : Type 0 where
  runs : (dev : Dev) (mem : Mem) (pos : ℕ) (shown : List ℕ) → Progress
  crashed : Progress

-- `write(0, buffer, count)`, which puts out the first `puts` of the bytes that were read, none if it
-- fails: the program does not look. An error of the read, which makes `count` a huge number, shows
-- nothing.
abbrev pub shows : (List ℕ → ℕ) → Outcome → List ℕ → Result ℕ → Progress
shows puts o shown (ok n) = runs o.dev o.mem o.pos (shown ++ take (puts o.delivered) o.delivered)
shows puts o shown (err e) = runs o.dev o.mem o.pos shown
shows puts o shown fault = crashed

-- `puts` says how many of the bytes given to it a `write` puts out, by the rounds left after it.
module _ (u : Uaccess) (k : Allocator) (puts : ℕ → List ℕ → ℕ) where
  -- `read(fd, buffer, 4096)` and `write`; nobody else uses the device and no signal comes
  abbrev piece : ℕ → Progress → Progress
  piece round (runs d m pos shown) =
      let o = scull_read u k d pos 4096 false m in shows (puts round) o shown o.result
  piece round crashed = crashed

  -- The loop, on the rounds left
  unfoldable pub sculluidtst : ℕ → Progress → Progress
  sculluidtst zero p = p
  sculluidtst (suc n) p = sculluidtst n (piece n p)
