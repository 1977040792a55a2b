-- ===== src/Globalmem/Seek.antt =====
-- Where `llseek` goes.
use mydrivers.Prelude.{ℕ, ◌+◌, ◌-◌, ◌%◌, ◌^◌, ◌≤◌, ◌<◌, ◌≡◌, arith, ◌⊎◌}
use mydrivers.Kernel.{einval, ok, err}
use mydrivers.Globalmem.Device.{globalmem_size, globalmem_llseek}

-- From a position within the memory every seek, whatever its arguments, ends within the memory:
-- either it returns the new position, or it reports EINVAL and the position is the old one.
pub llseek_stays :
    (f_pos offset orig : ℕ)
    → f_pos < globalmem_size
    → let r = globalmem_llseek f_pos offset orig in
      (r.1 < globalmem_size) × ((r.0 ≡ ok r.1) ⊎ ((r.0 ≡ err einval) × (r.1 ≡ f_pos)))
unfolding globalmem_llseek
llseek_stays f_pos offset orig h = ground arith

-- A relative seek forwards or backwards that stays within the memory goes where it says: `back`
-- bytes back, at least one, is the offset 2 ^ 64 - back.
pub llseek_relative :
    (f_pos ahead back : ℕ)
    → f_pos + ahead < globalmem_size
    → back ≤ f_pos
    → 0 < back
    → (globalmem_llseek f_pos ahead 1 ≡ (ok (f_pos + ahead), f_pos + ahead))
      × (globalmem_llseek f_pos (2 ^ 64 - back) 1 ≡ (ok (f_pos - back), f_pos - back))
unfolding globalmem_llseek
llseek_relative f_pos ahead back h le pos = (ground arith, ground arith)

-- An absolute seek looks at the low 32 bits of the offset only: every offset that is not negative
-- and whose low half lies within the memory is accepted, and leads to that low half, however far
-- past the end the offset is.
pub llseek_truncates :
    (f_pos offset : ℕ)
    → offset < 2 ^ 63
    → offset % 2 ^ 32 < globalmem_size
    → globalmem_llseek f_pos offset 0 ≡ (ok (offset % 2 ^ 32), offset % 2 ^ 32)
unfolding globalmem_llseek
llseek_truncates f_pos offset h low = ground arith
