-- ===== src/Access/Tests.antt =====
-- Runs of the access devices, and their theorems at concrete callers.
use mydrivers.Prelude.{◌≡◌, refl, false, none, some, List, [], ◌∷◌, arith}
use mydrivers.Prelude.Family.{update}
use mydrivers.Kernel.{ok, ebusy}
use mydrivers.Examples.{grants_all, no_blocks}
use mydrivers.Scull.Device.{Globals}
use mydrivers.Scull.Trim.{scull_trim, free_nodes}
use mydrivers.Access.Users.{Task, Shared, enter, scull_open, scull_u_open}
use mydrivers.Access.Sessions.{outside, inside, refused, System, Reach, start, later, turn, u_open}
use mydrivers.Access.Exclusion.{Inv, unopened, sessions-Inv}
use mydrivers.Access.Copies.{Item, zero_dev, find, scull_c_lookfor_device, scull_c_open}
use mydrivers.Access.Lookup.{Separate, scull_c_open-Separate, scull_c_open_again}

abbrev globals : Globals
globals = record { quantum = 1024; qset_n = 1000; object_size = none }

abbrev idle_device : Shared
idle_device = record { count = 0; owner = 0; dev = zero_dev; mem = no_blocks }

abbrev alice : Task
alice = record { uid = 1000; euid = 1000; override = false }

abbrev bob : Task
bob = record { uid = 1001; euid = 1001; override = false }

-- Alice is in, and Bob is refused.
abbrev after_alice : Shared
after_alice = record { count = 1; owner = 1000; dev = zero_dev; mem = no_blocks }

abbrev one_inside : System
one_inside = record { shared = after_alice; pc = update (λ _. outside) 0 (inside alice) }

abbrev one_refused : System
one_refused = record { shared = after_alice; pc = update one_inside.pc 1 (refused ebusy) }

turns-Reach : Reach globals 2 (unopened idle_device) one_refused
unfolding scull_u_open enter scull_open
turns-Reach =
    later (later start (turn 0 (omega arith) (u_open alice 0 refl)))
      (turn 1 (omega arith) (u_open bob 0 refl))

sessions-Inv_example : Inv 2 one_refused
sessions-Inv_example = sessions-Inv idle_device refl turns-Reach

-- Two terminals, of which the second opens its device for writing only.
abbrev items : List Item
items = record { key = 1025; dev = zero_dev } ∷ record { key = 1026; dev = zero_dev } ∷ []

scull_c_open-Separate_example :
    Separate 1026 items (scull_c_open grants_all 200 globals 1 (some 1026) items no_blocks)
scull_c_open-Separate_example = scull_c_open-Separate grants_all 200 globals 1 1026 items no_blocks

first_open : (scull_c_open grants_all 200 globals 1 (some 7) items no_blocks).result ≡ ok 0
unfolding scull_c_open scull_c_lookfor_device find scull_trim free_nodes
first_open = refl

scull_c_open_again_test :
    let c = scull_c_open grants_all 200 globals 1 (some 7) items no_blocks in
    scull_c_open grants_all 200 globals 2 (some 7) c.items c.mem
    ≡ record { result = ok 0; private_data = c.private_data; items = c.items; mem = c.mem }
scull_c_open_again_test =
    scull_c_open_again grants_all 200 globals 1 2 7 items no_blocks first_open refl
