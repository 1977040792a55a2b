-- ===== src/Kernel.antt =====
-- The kernel services that the drivers call, as parameters: their documented behaviour stands in
-- the laws of the records. Error codes and results are the drivers' own.
use Prim.Native.Nat.{ℕ, ◌+◌, ◌*◌, ◌^◌}
use mathlib.Core.Path.{◌≡◌}
use mathlib.Core.Option.{Option, none, some}
use mathlib.Core.List.{List}
use mydrivers.Prelude.{length}

pub data Errno : Type 0 where
  erestartsys eagain efault enomem enotty eperm ebusy einval enodev : Errno

-- What a handler returns: a number, a negative error code, or no return at all (`fault`), where
-- the C code reads or writes out of range, divides by zero or follows a null pointer.
pub data Result (A : Type 0) : Type 0 where
  ok : A → Result A
  err : Errno → Result A
  fault : Result A

infixl 5 ◌>>=◌
abbrev pub ◌>>=◌ {ℓ κ} : {A : Type ℓ} {B : Type κ} → Option A → (A → Option B) → Option B
none >>= f = none
some a >>= f = f a

-- `copy_to_user` and `copy_from_user` return the number of bytes that they did not copy.
-- `copy_from_user old src` also gives what the destination, which held `old`, holds then.
pub record Uaccess : Type 0 where
  pub copy_to_user : List ℕ → ℕ
  pub copy_from_user : List ℕ → List ℕ → ℕ × List ℕ
  pub copied :
      (old src : List ℕ) → (copy_from_user old src).0 ≡ 0 → (copy_from_user old src).1 ≡ src
  pub in_place :
      (old src : List ℕ) → length src ≡ length old → length (copy_from_user old src).1 ≡ length old

-- The allocators, at the n-th request since the module was loaded. They answer with the bytes that
-- the block held before, or with nothing.
pub record Allocator : Type 0 where
  pub page_size : ℕ
  pub kmalloc : (nth size : ℕ) → Option (List ℕ)
  pub kmem_cache_alloc : (nth size : ℕ) → Option (List ℕ)
  pub get_free_pages : (nth order : ℕ) → Option (List ℕ)
  pub kmalloc_size : (nth size : ℕ) (b : List ℕ) → kmalloc nth size ≡ some b → length b ≡ size
  pub cache_size :
      (nth size : ℕ) (b : List ℕ) → kmem_cache_alloc nth size ≡ some b → length b ≡ size
  pub pages_size :
      (nth order : ℕ) (b : List ℕ)
      → get_free_pages nth order ≡ some b
      → length b ≡ page_size * 2 ^ order

-- How many blocks the driver has asked for, and how many it holds.
pub record Mem : Type 0 where
  pub asked : ℕ
  pub live : ℕ

abbrev pub granted : {A : Type 0} → Option A → Mem → Mem
granted none m = record m { asked = m.asked + 1 }
granted (some _) m = record { asked = m.asked + 1; live = m.live + 1 }
