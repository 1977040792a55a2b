-- ===== src/Load/Pipes.antt =====
-- `scull_p_init` and `scull_p_cleanup` of scull/pipe.c.
use mydrivers.Prelude.{
  ℕ, zero, suc, ◌+◌, ◌≡◌, refl, ap, subst, ◌∙◌, Bool, true, false, Option, none, some, List, [],
  ◌∷◌, if◌then◌else◌, replicate, arith, Bool-cases, inl, inr,
}
use mathlib.Core.Option.{some-injective}
use mydrivers.Kernel.{Errno, Result, ok, err, Mem}
use mydrivers.Scull.Alloc.{release_block}
use mydrivers.Pipe.State.{Pipe}
use mydrivers.Pipe.Open.{scull_p_buffer}
use mydrivers.Pipe.Users.{IsHeld, closed}
use mydrivers.Load.Modules.{Answers, setup_cdevs}

-- What the pipe's part of the module holds.
pub record Pipes : Type 0 where
  pub region : Bool
  pub devices : Option (List Pipe)
  pub cdevs : List ℕ

abbrev pub no_pipes : Pipes
no_pipes = record { region = false; devices = none; cdevs = [] }

-- A pipe as the loop sets it.
abbrev pub new_pipe : Pipe
new_pipe = record {
  buffer = none;
  end_ = 0;
  buffersize = scull_p_buffer;
  rp = 0;
  wp = 0;
  nreaders = 0;
  nwriters = 0;
  async_queue = false;
  sem = 1;
}

abbrev after_loop : ℕ → Bool × List ℕ → Result ℕ × Pipes
after_loop n (all, added) =
    if all
    then (ok 0, record { region = true; devices = some (replicate n new_pipe); cdevs = added })
    else (ok 0, record no_pipes { cdevs = added })

abbrev p_acquire : ℕ → Option Errno → Bool → Bool × List ℕ → Result ℕ × Pipes
p_acquire n (some e) array cdevs = (err e, no_pipes)
p_acquire n none false cdevs = (ok 0, no_pipes)
p_acquire n none true cdevs = after_loop n cdevs

unfoldable pub scull_p_init : Answers → ℕ → Result ℕ × Pipes
scull_p_init a n = p_acquire n a.region a.array (setup_cdevs a.cdev_fails n 0)

-- `if (dev->buffer) kfree(dev->buffer);`
abbrev free_buffer : Option (List ℕ) → Mem → Mem
free_buffer none m = m
free_buffer (some b) m = release_block m

unfoldable pub free_buffers : List Pipe → Mem → Mem
free_buffers [] m = m
free_buffers (p ∷ ps) m = free_buffers ps (free_buffer p.buffer m)

abbrev cleanup_devices : Option (List Pipe) → Mem → Option (Pipes × Mem)
cleanup_devices none m = none
cleanup_devices (some ps) m = some (no_pipes, free_buffers ps m)

-- `none` where it follows a pointer that holds nothing.
unfoldable pub scull_p_cleanup : Pipes → Mem → Option (Pipes × Mem)
scull_p_cleanup t m = cleanup_devices t.devices m

-- A refused region leaves no pipes, and a cleanup without pipes follows a null pointer.
pub scull_p_init_refused :
    (a : Answers) (n : ℕ) (e : Errno) → a.region ≡ some e → (scull_p_init a n).1.devices ≡ none
unfolding scull_p_init
scull_p_init_refused a n e refused =
    ap (λ o. (p_acquire n o a.array (setup_cdevs a.cdev_fails n 0)).1.devices) refused

pub scull_p_cleanup-none : (t : Pipes) (m : Mem) → t.devices ≡ none → scull_p_cleanup t m ≡ none
unfolding scull_p_cleanup
scull_p_cleanup-none t m e = ap (λ o. cleanup_devices o m) e

-- Every pipe of a list is closed or soundly open.
abbrev pub AllAreHeld : List Pipe → Type 0
AllAreHeld [] = Unit
AllAreHeld (p ∷ ps) = IsHeld p × AllAreHeld ps

replicate-AllAreHeld : (n : ℕ) → AllAreHeld (replicate n new_pipe)
replicate-AllAreHeld zero = tt
replicate-AllAreHeld (suc n) = (closed refl refl refl, replicate-AllAreHeld n)

-- Where the devices are kept at all, each of them is in step with its users.
after_loop-AllAreHeld :
    (n : ℕ) (cdevs : Bool × List ℕ) (ps : List Pipe)
    → (after_loop n cdevs).1.devices ≡ some ps
    → AllAreHeld ps
after_loop-AllAreHeld n cdevs ps e = elim (Bool-cases cdevs.0) [
  | inl t ↦ subst AllAreHeld (some-injective _ _ (rw t at e)) (replicate-AllAreHeld n)
  | inr f ↦ absurd (let g = (rw f at e) in ground arith)
]

acquired-AllAreHeld :
    (n : ℕ) (region : Option Errno) (array : Bool) (cdevs : Bool × List ℕ) (ps : List Pipe)
    → (p_acquire n region array cdevs).1.devices ≡ some ps
    → AllAreHeld ps
acquired-AllAreHeld n (some x) array cdevs ps e = absurd (ground arith)
acquired-AllAreHeld n none false cdevs ps e = absurd (ground arith)
acquired-AllAreHeld n none true cdevs ps e = after_loop-AllAreHeld n cdevs ps e

-- Every pipe that `scull_p_init` leaves, whatever the kernel answers, has a sound buffer exactly
-- where it has users, as `scull_p_open` and `scull_p_release` keep it.
pub scull_p_init-AllAreHeld :
    (a : Answers) (n : ℕ) (ps : List Pipe) → (scull_p_init a n).1.devices ≡ some ps → AllAreHeld ps
unfolding scull_p_init
scull_p_init-AllAreHeld a n ps e =
    acquired-AllAreHeld n a.region a.array (setup_cdevs a.cdev_fails n 0) ps e

-- The buffers that the pipes of a list hold.
unfoldable pub buffers : List Pipe → ℕ
buffers [] = 0
buffers (p ∷ ps) = (elim p.buffer [ none ↦ 0 | some b ↦ 1 ]) + buffers ps

free_buffer_lem :
    (o : Option (List ℕ)) (m : Mem) (rest : ℕ)
    → m.live ≡ (elim o [ none ↦ 0 | some b ↦ 1 ]) + rest
    → free_buffer o m ≡ record m { live = rest }
free_buffer_lem none m rest e = ground arith
free_buffer_lem (some b) m rest e = ground arith

free_buffers_lem :
    (ps : List Pipe) (m : Mem) (rest : ℕ)
    → m.live ≡ buffers ps + rest
    → free_buffers ps m ≡ record m { live = rest }
unfolding free_buffers buffers
free_buffers_lem [] m rest e = ground arith
free_buffers_lem (p ∷ ps) m rest e =
    rw (free_buffer_lem p.buffer m (buffers ps + rest) (omega arith))
      (free_buffers_lem ps (record m { live = buffers ps + rest }) rest refl)

-- A cleanup of pipes whose buffers are among the blocks that the driver holds frees these buffers
-- and no other block, and leaves the pipe's part of the module with nothing.
pub scull_p_cleanup_lem :
    (t : Pipes) (ps : List Pipe) (m : Mem) (rest : ℕ)
    → t.devices ≡ some ps
    → m.live ≡ buffers ps + rest
    → scull_p_cleanup t m ≡ some (no_pipes, record m { live = rest })
unfolding scull_p_cleanup
scull_p_cleanup_lem t ps m rest e l =
    ap (λ o. cleanup_devices o m) e ∙ (rw (free_buffers_lem ps m rest l) refl)
