-- ===== src/Load/Tests.antt =====
-- Runs of loading and unloading, and the theorems at concrete answers.
use mydrivers.Prelude.{
  Option, ◌<◌, ℕ, List, ◌⊎◌, if◌then◌else◌, length, zero, suc, ◌≡◌, refl, true, false, none, some,
  [], ◌∷◌, arith, replicate, ◌==◌,
}
use mydrivers.Kernel.{Errno, ebusy, ok, err}
use mydrivers.Globalmem.Device.{globalmem_size}
use mydrivers.Access.Copies.{Item}
use mydrivers.ProcFs.Table.{table, no_entries}
use mydrivers.Proc.Seq.{scull_remove_proc}
use mydrivers.Load.Whole.{Rest, Module, load, unload, unload_frees, unload-load_without_pipes}
use mydrivers.Load.Memory.{none_held, globalmem_init, globalmem_exit, exit-globalmem_init}
use mydrivers.Load.Access.{
  unclaimed, scull_access_init, scull_access_cleanup, scull_access_init_refused,
  scull_access_cleanup_lem,
}
use mydrivers.Examples.{grants_all, no_blocks}
use mydrivers.Scull.Device.{Dev, Globals, basic}
use mydrivers.Scull.Invariant.{SlotsAreFit, NodesAreFit, IsValid}
use mydrivers.Pipe.State.{Pipe}
use mydrivers.Load.Modules.{
  Answers, Taken, nothing, scull_dev, setup_cdevs, scull_init, scullc_init, scullp_init,
  exit_devices, scull_exit,
}
use mydrivers.Load.Pipes.{
  Pipes, no_pipes, new_pipe, scull_p_init, scull_p_cleanup, AllAreHeld, scull_p_init-AllAreHeld,
  buffers, scull_p_cleanup_lem,
}
use mydrivers.Load.Resources.{InitEnd, init_ends, owned_all, exit_frees}

abbrev defaults : Globals
defaults = record { quantum = 1024; qset_n = 1000; object_size = none }

-- `cdev_add` fails for the third device.
abbrev third_fails : Answers
third_fails = record { region = none; array = true; cdev_fails = λ i. i == 2; cache = true }

-- Two cdevs stay behind, and the module reports success.
two_left :
    ((scull_init third_fails 4 defaults).result ≡ ok 0)
    × ((scull_init third_fails 4 defaults).taken.cdevs ≡ 0 ∷ 1 ∷ [])
unfolding scull_init setup_cdevs
two_left = (refl, refl)

init_ends_example :
    InitEnd 4 (scull_init third_fails 4 defaults)
    × InitEnd 4 (scullc_init third_fails 4 defaults)
    × InitEnd 4 (scullp_init third_fails 4 defaults 4096 0)
init_ends_example = init_ends third_fails 4 defaults 4096 0

abbrev no_memory : Answers
no_memory = record { region = none; array = false; cdev_fails = λ i. false; cache = true }

-- The init functions report success without the array, and unloading the module then crashes, unless
-- there are no devices.
exit_without_array :
    ((scull_init no_memory 4 defaults).result ≡ ok 0)
    × (scull_exit defaults 4 (scull_init no_memory 4 defaults).taken no_blocks ≡ none)
    × ((scullc_init no_memory 4 defaults).result ≡ ok 0)
    × (scull_exit defaults 4 (scullc_init no_memory 4 defaults).taken no_blocks ≡ none)
    × ((scullp_init no_memory 4 defaults 4096 0).result ≡ ok 0)
    × (scull_exit defaults 4 (scullp_init no_memory 4 defaults 4096 0).taken no_blocks ≡ none)
    × (scull_exit defaults 0 (scull_init no_memory 0 defaults).taken no_blocks
        ≡ some (nothing, no_blocks))
unfolding scull_init scullc_init scullp_init setup_cdevs scull_exit exit_devices
exit_without_array = (refl, refl, refl, refl, refl, refl, refl)

-- A device of quanta of two bytes, with one quantum: three blocks with its array and its node.
abbrev written_dev : Dev
written_dev = record {
  nodes = record { data_ = some (some (7 ∷ 8 ∷ []) ∷ none ∷ []) } ∷ [];
  quantum = 2;
  qset = 2;
  size = 2;
  order = 0;
  type_ = basic;
}

written_dev-slots : SlotsAreFit 2 (some (7 ∷ 8 ∷ []) ∷ none ∷ [])
written_dev-slots zero = omega arith
written_dev-slots (suc zero) = tt
written_dev-slots (suc (suc s)) = tt

written_dev-nodes : NodesAreFit 2 2 written_dev.nodes
written_dev-nodes zero = (refl, written_dev-slots)
written_dev-nodes (suc i) = tt

written_dev-IsValid : IsValid grants_all defaults written_dev
written_dev-IsValid = record {
  quantum_pos = omega arith;
  qset_pos = omega arith;
  product_int = omega arith;
  alloc_fits = tt;
  nodes_fit = written_dev-nodes;
}

abbrev in_use : Taken
in_use = record {
  region = true;
  devices = some (written_dev ∷ []);
  cdevs = 0 ∷ [];
  object_size = none;
}

owned_three : owned_all (written_dev ∷ []) ≡ 3
unfolding owned_all
owned_three = refl

exit_frees_example :
    scull_exit defaults 1 in_use (record { asked = 9; live = 5 })
    ≡ some (nothing, record { asked = 9; live = 2 })
exit_frees_example =
    exit_frees grants_all defaults in_use (written_dev ∷ []) (record { asked = 9; live = 5 }) 2 refl
      refl (written_dev-IsValid, tt) (omega (arith, owned_three))

abbrev all_granted : Answers
all_granted = record { region = none; array = true; cdev_fails = λ i. false; cache = true }

four_pipes : (scull_p_init all_granted 4).1.devices ≡ some (replicate 4 new_pipe)
unfolding scull_p_init setup_cdevs
four_pipes = refl

scull_p_init-AllAreHeld_test : AllAreHeld (replicate 4 new_pipe)
scull_p_init-AllAreHeld_test =
    scull_p_init-AllAreHeld all_granted 4 (replicate 4 new_pipe) four_pipes

abbrev opened_pipe : Pipe
opened_pipe = record new_pipe { buffer = some (replicate 1000 0); end_ = 1000; nreaders = 1 }

abbrev two_pipes : Pipes
two_pipes = record {
  region = true;
  devices = some (new_pipe ∷ opened_pipe ∷ []);
  cdevs = 0 ∷ 1 ∷ [];
}

one_buffer : buffers (new_pipe ∷ opened_pipe ∷ []) ≡ 1
unfolding buffers
one_buffer = refl

scull_p_cleanup_lem_test :
    scull_p_cleanup two_pipes (record { asked = 3; live = 3 })
    ≡ some (no_pipes, record { asked = 3; live = 2 })
scull_p_cleanup_lem_test =
    scull_p_cleanup_lem two_pipes (new_pipe ∷ opened_pipe ∷ []) (record { asked = 3; live = 3 }) 2
      refl (omega (arith, one_buffer))

-- The third region is refused.
abbrev third_refused : ℕ → Option Errno
third_refused i = if i == 2 then some ebusy else none

below_two : (h : ℕ) → h < 2 → third_refused h ≡ none
below_two h lt = ground arith

scull_access_init_refused_test :
    let r = scull_access_init third_refused (λ i. false) defaults 4 0 in
    (r.0 ≡ err ebusy) × (length r.1.regions ≡ 2)
scull_access_init_refused_test =
    scull_access_init_refused third_refused (λ i. false) defaults 4 ebusy 2 (omega arith) refl
      below_two

-- One device in use, and the written device of one terminal.
abbrev terminals : List Item
terminals = record { key = 1025; dev = written_dev } ∷ []

scull_access_cleanup_lem_test :
    scull_access_cleanup defaults (written_dev ∷ []) terminals (record { asked = 9; live = 9 })
    ≡ some (unclaimed, record { asked = 9; live = 3 })
scull_access_cleanup_lem_test =
    scull_access_cleanup_lem grants_all defaults (written_dev ∷ []) terminals
      (record { asked = 9; live = 9 }) 2 (written_dev-IsValid, tt) (written_dev-IsValid, tt)
      (omega (arith, owned_three))

exit-globalmem_init_test :
    let (r, h) = globalmem_init none true false in
    ((e : Errno) × (r ≡ err e) × (h ≡ none_held))
    ⊎ ((r ≡ ok 0)
        × (h.region ≡ true)
        × (h.memory ≡ some (replicate globalmem_size 0))
        × (globalmem_exit h ≡ some none_held))
exit-globalmem_init_test = exit-globalmem_init none true false

abbrev module_in_use : Module table true
module_in_use = record {
  main = in_use;
  entries = no_entries;
  pipes = two_pipes;
  access = unclaimed;
}

-- Three blocks of the device, one buffer, three and three of the access devices, and one list item.
unload_frees_example :
    unload table true defaults 1 module_in_use
      (written_dev ∷ [])
      terminals
      (record { asked = 20; live = 13 })
    ≡ some (
      record {
        main = nothing;
        entries = scull_remove_proc table no_entries;
        pipes = no_pipes;
        access = unclaimed;
      },
      record { asked = 20; live = 3 },
    )
unload_frees_example =
    unload_frees table true grants_all defaults module_in_use (written_dev ∷ []) (written_dev ∷ [])
      (new_pipe ∷ opened_pipe ∷ []) terminals (record { asked = 20; live = 13 }) 2 refl refl refl
      (written_dev-IsValid, tt) (written_dev-IsValid, tt) (written_dev-IsValid, tt)
      (omega (arith, owned_three, one_buffer))

abbrev pipes_refused : Rest
pipes_refused = record {
  pipes = record all_granted { region = some ebusy };
  regions = λ i. none;
  cdev_fails = λ i. false;
}

four_devices :
    ((scull_init all_granted 4 defaults).taken.devices ≡ some (replicate 4 (scull_dev defaults)))
    × ((scull_init all_granted 4 defaults).result ≡ ok 0)
unfolding scull_init setup_cdevs
four_devices = (refl, refl)

unload-load_without_pipes_test :
    let t = load table true all_granted 4 defaults pipes_refused no_entries in
    (t.0 ≡ ok 0) × (unload table true defaults 4 t.1 [] [] (record { asked = 0; live = 0 }) ≡ none)
unload-load_without_pipes_test =
    unload-load_without_pipes table true all_granted 4 defaults defaults pipes_refused no_entries
      (replicate 4 (scull_dev defaults)) [] [] (record { asked = 0; live = 0 }) ebusy four_devices.0
      four_devices.1 refl
