-- ===== src/Globalmem/Tests.antt =====
-- Runs of globalmem, and its theorems at concrete calls.
use mydrivers.Prelude.{
  ℕ, ◌+◌, ◌-◌, ◌^◌, ◌<◌, ◌≡◌, refl, List, [], ◌∷◌, arith, ◌⊎◌, length, replicate, splice,
  length-replicate,
}
use mydrivers.Kernel.{einval, ok, err}
use mydrivers.Examples.{copies_all}
use mydrivers.Globalmem.Device.{
  globalmem_size, globalmem_ioctl, globalmem_read, globalmem_write, globalmem_llseek,
}
use mydrivers.Globalmem.Transfers.{
  ReadEnd, globalmem_read_lem, globalmem_write_lem, read-globalmem_write,
}
use mydrivers.Globalmem.Seek.{llseek_stays, llseek_relative, llseek_truncates}

abbrev cleared : List ℕ
cleared = replicate 4096 0

cleared-length : length cleared ≡ globalmem_size
cleared-length = length-replicate {A = ℕ} 4096 0

-- Ten bytes are asked for and four are left.
globalmem_read_lem_test :
    ReadEnd cleared 4092 10 (globalmem_read copies_all cleared 4092 10)
    × ((globalmem_read copies_all cleared 4092 10).mem ≡ cleared)
globalmem_read_lem_test = globalmem_read_lem copies_all cleared 4092 cleared-length 10 (omega arith)

globalmem_write_lem_example :
    globalmem_write copies_all cleared 4094 (1 ∷ 2 ∷ 3 ∷ [])
    ≡ record { result = ok 0; pos = 4096; mem = splice cleared 4094 (1 ∷ 2 ∷ []); delivered = [] }
globalmem_write_lem_example =
    globalmem_write_lem copies_all cleared 4094 cleared-length (1 ∷ 2 ∷ 3 ∷ []) (omega arith)
      (omega arith) (λ old new. refl)

read-globalmem_write_test :
    (globalmem_read copies_all
      (globalmem_write copies_all cleared 7 (1 ∷ 2 ∷ [])).mem
      7
      2).delivered
    ≡ 1 ∷ 2 ∷ []
read-globalmem_write_test =
    read-globalmem_write copies_all cleared 7 (1 ∷ 2 ∷ []) cleared-length (omega arith)
      (omega arith) (λ old new. refl) (λ l. refl)

llseek_stays_example :
    let r = globalmem_llseek 10 (2 ^ 64 - 20) 1 in
    (r.1 < globalmem_size) × ((r.0 ≡ ok r.1) ⊎ ((r.0 ≡ err einval) × (r.1 ≡ 10)))
llseek_stays_example = llseek_stays 10 (2 ^ 64 - 20) 1 (omega arith)

llseek_relative_test :
    (globalmem_llseek 10 5 1 ≡ (ok 15, 15)) × (globalmem_llseek 10 (2 ^ 64 - 4) 1 ≡ (ok 6, 6))
llseek_relative_test = llseek_relative 10 5 4 (omega arith) (omega arith) (omega arith)

-- Four gigabytes and seven.
llseek_truncates_test : globalmem_llseek 10 (2 ^ 32 + 7) 0 ≡ (ok 7, 7)
llseek_truncates_test = llseek_truncates 10 (2 ^ 32 + 7) (omega arith) (omega arith)

clear_clears : globalmem_ioctl 1 (9 ∷ []) ≡ (ok 0, replicate 4096 0)
unfolding globalmem_ioctl
clear_clears = refl
