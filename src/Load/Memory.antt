-- ===== src/Load/Memory.antt =====
-- `globalmem_init` and `globalmem_exit` of globalmem/globalmem.c.
use mydrivers.Prelude.{
  ℕ, ◌≡◌, ◌⊎◌, inl, inr, refl, Bool, true, false, not, Option, none, some, List, replicate,
  if◌then◌else◌,
}
use mydrivers.Kernel.{Errno, enomem, Result, ok, err}
use mydrivers.Globalmem.Device.{globalmem_size}

-- What the module holds: the region, the memory, and the cdev.
pub record Held : Type 0 where
  pub region : Bool
  pub memory : Option (List ℕ)
  pub cdev : Bool

abbrev pub none_held : Held
none_held = record { region = false; memory = none; cdev = false }

-- By the error of the region, if it is refused, and whether `kzalloc` and `cdev_add` succeed. A cdev
-- that is not added is only reported.
unfoldable pub globalmem_init : Option Errno → Bool → Bool → Result ℕ × Held
globalmem_init (some e) granted added = (err e, none_held)
globalmem_init none granted added =
    if not granted
    then (err enomem, none_held)
    else (ok 0, record { region = true; memory = some (replicate globalmem_size 0); cdev = added })

abbrev without_memory : Held → Option (List ℕ) → Option Held
without_memory h none = none
without_memory h (some b) = some (record h { region = false; memory = none; cdev = false })

-- `none` where it follows a pointer that holds nothing.
unfoldable pub globalmem_exit : Held → Option Held
globalmem_exit h = without_memory h h.memory

-- A load of globalmem that reports an error holds nothing; one that succeeds holds the region and
-- zeroed memory, and its unload gives back all that it held.
pub exit-globalmem_init :
    (region : Option Errno) (granted added : Bool)
    → let (r, h) = globalmem_init region granted added in
      ((e : Errno) × (r ≡ err e) × (h ≡ none_held))
      ⊎ ((r ≡ ok 0)
          × (h.region ≡ true)
          × (h.memory ≡ some (replicate globalmem_size 0))
          × (globalmem_exit h ≡ some none_held))
unfolding globalmem_init globalmem_exit
exit-globalmem_init (some e) granted added = inl (e, refl, refl)
exit-globalmem_init none false added = inl (enomem, refl, refl)
exit-globalmem_init none true added = inr (refl, refl, refl, refl)
