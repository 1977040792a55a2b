-- ===== src/Globalmem/Device.antt =====
-- The file operations of globalmem. `unsigned long` and `loff_t` are 64-bit patterns; a `loff_t`
-- from 2 ^ 63 on is negative.
use mydrivers.Prelude.{
  ℕ, ◌+◌, ◌-◌, ◌%◌, ◌^◌, Bool, List, [], leb, ◌==◌, if◌then◌else◌, length, take, replicate, slice,
  splice,
}
use mydrivers.Kernel.{einval, efault, Result, ok, err, fault, Uaccess}

-- `GLOBALMEM_SIZE`
abbrev pub globalmem_size : ℕ
globalmem_size = 0x1000

-- `MEM_CLEAR`
abbrev mem_clear : ℕ
mem_clear = 1

-- What a handler returns, the position and the memory after it, and what it delivered.
pub record Reply : Type 0 where
  pub result : Result ℕ
  pub pos : ℕ
  pub mem : List ℕ
  pub delivered : List ℕ

unfoldable pub globalmem_ioctl : ℕ → List ℕ → Result ℕ × List ℕ
globalmem_ioctl cmd mem =
    if cmd == mem_clear then (ok 0, replicate globalmem_size 0) else (err einval, mem)

-- `count`: an `unsigned int`, cut where `pos + size` reaches the end
unfoldable pub clamp : ℕ → ℕ → ℕ
clamp pos size =
    if leb globalmem_size ((pos + size) % 2 ^ 64) then globalmem_size - pos else size % 2 ^ 32

module _ (u : Uaccess) (mem : List ℕ) (pos : ℕ) where
  abbrev pub refused : Result ℕ → Reply
  refused r = record { result = r; pos = pos; mem = mem; delivered = [] }

  unfoldable pub globalmem_read : ℕ → Reply
  globalmem_read size =
      let count = clamp pos size in
      let bytes = slice mem pos count in
      if leb globalmem_size pos
      then refused (err einval)
      else if leb (pos + count) (length mem)
      then if u.copy_to_user bytes == 0
        then record { result = ok count; pos = pos + count; mem = mem; delivered = bytes }
        else refused (err efault)
      else refused fault

  -- The bytes at `buf`, as many as `size`. The code computes `ret` and returns 0.
  unfoldable pub globalmem_write : List ℕ → Reply
  globalmem_write src =
      let count = clamp pos (length src) in
      let (missed, bytes) = u.copy_from_user (slice mem pos count) (take count src) in
      if leb globalmem_size pos
      then refused (err einval)
      else if leb (pos + count) (length mem)
      then if missed == 0
        then record { result = ok 0; pos = pos + count; mem = splice mem pos bytes; delivered = [] }
        else record { result = err efault; pos = pos; mem = splice mem pos bytes; delivered = [] }
      else refused fault

abbrev pub is_negative : ℕ → Bool
is_negative n = leb (2 ^ 63) n

-- The position that `llseek` returns, which is also the new `f_pos`.
abbrev seek_set : ℕ → Result ℕ
seek_set offset =
    if is_negative offset
    then err einval
    else if leb globalmem_size (offset % 2 ^ 32)
    then err einval
    else ok (offset % 2 ^ 32)

abbrev seek_cur : ℕ → ℕ → Result ℕ
seek_cur f_pos offset =
    let target = (f_pos + offset) % 2 ^ 64 in
    if is_negative target
    then err einval
    else if leb globalmem_size target
    then err einval
    else ok target

abbrev pub moved : ℕ → Result ℕ → Result ℕ × ℕ
moved f_pos (ok n) = (ok n, n)
moved f_pos r = (r, f_pos)

unfoldable pub globalmem_llseek : ℕ → ℕ → ℕ → Result ℕ × ℕ
globalmem_llseek f_pos offset orig =
    moved f_pos (
      if orig == 0
      then seek_set offset
      else if orig == 1
      then seek_cur f_pos offset
      else err einval)
