-- ===== src/ProcFs/Table.antt =====
-- A concrete directory: what each name leads to.
use Prim.Native.String.{String}
use text.Mathlib.Text.{◌==◌}
use text.Mathlib.TextPositions.{eq_refl}
use mathlib.Core.Option.{some-injective}
use mydrivers.Prelude.{ℕ, ◌≡◌, ◌≢◌, refl, sym, ap, ◌∙◌, Option, none, some, if◌then◌else◌}
use mydrivers.ProcFs.{ProcFs, unequal}

abbrev pub Table : Type 0
Table = String → Option ℕ

abbrev with_entry : String → Option ℕ → Table → Table
with_entry s o d t = if t == s then o else d t

pub with_entry_self : (s : String) (o : Option ℕ) (d : Table) → with_entry s o d s ≡ o
with_entry_self s o d = rw (eq_refl s) refl

pub with_entry_other : (s t : String) (o : Option ℕ) (d : Table) → t ≢ s → with_entry s o d t ≡ d t
with_entry_other s t o d ne = rw (unequal t s ne) refl

pub self_of :
    (s : String) (n : ℕ) (d d' : Table) → some (with_entry s (some n) d) ≡ some d' → d' s ≡ some n
self_of s n d d' e = ap (λ f. f s) (sym (some-injective _ _ e)) ∙ with_entry_self s (some n) d

pub other_of :
    (s t : String) (n : ℕ) (d d' : Table)
    → t ≢ s
    → some (with_entry s (some n) d) ≡ some d'
    → d' t ≡ d t
other_of s t n d d' ne e =
    ap (λ f. f t) (sym (some-injective _ _ e)) ∙ with_entry_other s t (some n) d ne

-- Every creation succeeds.
abbrev pub table : ProcFs
table = record {
  Dir = Table;
  entry = λ s d. d s;
  proc_create_data = λ s n d. some (with_entry s (some n) d);
  remove_proc_entry = λ s d. with_entry s none d;
  entry-create_self = λ s n d d' e. self_of s n d d' e;
  entry-create_other = λ s t n d d' ne e. other_of s t n d d' ne e;
  entry-remove_self = λ s d. with_entry_self s none d;
  entry-remove_other = λ s t d ne. with_entry_other s t none d ne;
}

abbrev pub no_entries : Table
no_entries s = none
