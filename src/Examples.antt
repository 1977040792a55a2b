-- ===== src/Examples.antt =====
-- Concrete kernel services for the tests: every copy succeeds, and every request is granted.
use mydrivers.Prelude.{
  ℕ, suc, ◌*◌, ◌^◌, ◌≡◌, refl, sym, ◌∙◌, ap, arith, some, List, length, replicate, length-replicate,
}
use mathlib.Core.Option.{some-injective}
use mydrivers.Kernel.{Uaccess, Allocator, Mem}

abbrev pub copies_all : Uaccess
copies_all = record {
  copy_to_user = λ bytes. 0;
  copy_from_user = λ old src. (0, src);
  copied = λ old src e. refl;
  in_place = λ old src e. e;
}

-- A copy from the caller that stops at once.
abbrev pub copies_none : Uaccess
copies_none = record {
  copy_to_user = λ bytes. length bytes;
  copy_from_user = λ old src. (suc (length src), old);
  copied = λ old src e. absurd (omega arith);
  in_place = λ old src e. refl;
}

pub granted-length : (n a : ℕ) (b : List ℕ) → some (replicate n a) ≡ some b → length b ≡ n
granted-length n a b e = ap length (sym (some-injective _ _ e)) ∙ length-replicate n a

abbrev pub grants_all : Allocator
grants_all = record {
  page_size = 4096;
  kmalloc = λ nth size. some (replicate size 170);
  kmem_cache_alloc = λ nth size. some (replicate size 170);
  get_free_pages = λ nth order. some (replicate (4096 * 2 ^ order) 170);
  kmalloc_size = λ nth size b e. granted-length size 170 b e;
  cache_size = λ nth size b e. granted-length size 170 b e;
  pages_size = λ nth order b e. granted-length (4096 * 2 ^ order) 170 b e;
}

abbrev pub no_blocks : Mem
no_blocks = record { asked = 0; live = 0 }
