-- ===== src/Load/NumberTests.antt =====
-- Device numbers as the kernel makes them, and the loops at four devices.
use mydrivers.Prelude.{ℕ, ◌+◌, ◌*◌, ◌/◌, ◌%◌, ◌^◌, ◌≡◌, refl, Bool, true, [], ◌∷◌, arith, ◌==◌}
use mydrivers.Load.Numbers.{
  DevNumbers, Numbers, region_numbers, scull_setup_cdev, scullc_setup_cdev, scullp_setup_cdev,
  setup_all, Added, setup-Added,
}

abbrev numbers : DevNumbers
numbers = record {
  mkdev = λ ma mi. ma * 2 ^ 20 + mi;
  major_of = λ dev. dev / 2 ^ 20;
  minor_of = λ dev. dev % 2 ^ 20;
  minors = 2 ^ 20;
  split = λ dev. omega arith;
  next = λ ma mi i h. omega arith;
}

abbrev unset : Numbers
unset = record { scull_major = 0; scull_minor = 0 }

-- The kernel gives major number 240, and refuses the third device.
abbrev refuses : ℕ → Bool
refuses dev = dev == 240 * 2 ^ 20 + 2

setup-Added_test :
    let w = region_numbers numbers unset (240 * 2 ^ 20) in
    Added refuses (240 * 2 ^ 20) 4 (setup_all (scull_setup_cdev numbers refuses w) 4 0)
    × Added refuses (240 * 2 ^ 20) 4 (setup_all (scullc_setup_cdev numbers refuses w) 4 0)
    × Added refuses (240 * 2 ^ 20) 4 (setup_all (scullp_setup_cdev numbers refuses w) 4 0)
setup-Added_test =
    setup-Added numbers refuses unset (240 * 2 ^ 20) 4 refl (omega arith) (omega arith)

third_refused :
    setup_all (scull_setup_cdev numbers refuses (region_numbers numbers unset (240 * 2 ^ 20))) 2 0
    ≡ (true, (240 * 2 ^ 20) ∷ (240 * 2 ^ 20 + 1) ∷ [])
unfolding setup_all
third_refused = refl
