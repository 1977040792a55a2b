-- ===== src/ProcFs.antt =====
-- Entries under /proc as the modules make and remove them: `create_various_proc_files` of
-- misc_modules/jit.c and misc_modules/jiq.c.
pub mod Table
use Prim.Native.String.{String}
use text.Mathlib.Text.{◌==◌}
use text.Mathlib.TextEquality.{eq_iff}
use mathlib.Core.Bool.{true≢false}
use mydrivers.Prelude.{
  ℕ, suc, ◌≡◌, ◌≢◌, ◌⊎◌, inl, inr, refl, sym, ap, ◌∙◌, Bool-cases, Option, none, some, List, [],
  ◌∷◌, Bool, true, false, if◌then◌else◌,
}
use mydrivers.Kernel.{efault, Result, ok, err}

-- Two texts are equal, or they are not.
string_cases : (s t : String) → (s ≡ t) ⊎ (s ≢ t)
string_cases s t = elim (Bool-cases (s == t)) [
  | inl e ↦ inl ((eq_iff s t).0 e)
  | inr e ↦ inr (λ same. true≢false (sym ((eq_iff s t).1 same) ∙ e))
]

pub unequal : (s t : String) → s ≢ t → (s == t) ≡ false
unequal s t ne = elim (Bool-cases (s == t)) [ inl e ↦ absurd (ne ((eq_iff s t).0 e)) | inr e ↦ e ]

-- The kernel's directory. `proc_create_data` answers with the directory that has the entry, or with
-- nothing; `remove_proc_entry` of a name without entry changes nothing.
pub record ProcFs : Type 1 where
  pub Dir : Type 0
  pub entry : String → Dir → Option ℕ
  pub proc_create_data : String → ℕ → Dir → Option Dir
  pub remove_proc_entry : String → Dir → Dir
  pub entry-create_self :
      (s : String) (n : ℕ) (d d' : Dir) → proc_create_data s n d ≡ some d' → entry s d' ≡ some n
  pub entry-create_other :
      (s t : String) (n : ℕ) (d d' : Dir)
      → t ≢ s
      → proc_create_data s n d ≡ some d'
      → entry t d' ≡ entry t d
  pub entry-remove_self : (s : String) (d : Dir) → entry s (remove_proc_entry s d) ≡ none
  pub entry-remove_other :
      (s t : String) (d : Dir) → t ≢ s → entry t (remove_proc_entry s d) ≡ entry t d

module _ (fs : ProcFs) where
  abbrev created : fs.Dir → Option fs.Dir → Result ℕ × fs.Dir
  created d none = (err efault, d)
  created d (some d') = (ok 0, d')

  unfoldable pub create_various_proc_files : String → ℕ → fs.Dir → Result ℕ × fs.Dir
  create_various_proc_files s n d = created d (fs.proc_create_data s n d)

  -- Calls one behind the other, whatever each returns.
  unfoldable pub create_all : List (String × ℕ) → fs.Dir → fs.Dir
  create_all [] d = d
  create_all ((s, n) ∷ files) d = create_all files (create_various_proc_files s n d).1

  unfoldable pub remove_all : List (String × ℕ) → fs.Dir → fs.Dir
  remove_all [] d = d
  remove_all ((s, n) ∷ files) d = remove_all files (fs.remove_proc_entry s d)

  -- The name is none of the files'.
  abbrev Foreign : String → List (String × ℕ) → Type 0
  Foreign t [] = Unit
  Foreign t ((s, n) ∷ files) = (t ≢ s) × Foreign t files

  entry-created :
      (s t : String) (n : ℕ) (d : fs.Dir) (o : Option fs.Dir)
      → t ≢ s
      → fs.proc_create_data s n d ≡ o
      → fs.entry t (created d o).1 ≡ fs.entry t d
  entry-created s t n d none ne e = refl
  entry-created s t n d (some d') ne e = fs.entry-create_other s t n d d' ne e

  entry-create_all :
      (t : String) (files : List (String × ℕ)) (d : fs.Dir)
      → Foreign t files
      → fs.entry t (create_all files d) ≡ fs.entry t d
  unfolding create_all create_various_proc_files
  entry-create_all t [] d f = refl
  entry-create_all t ((s, n) ∷ files) d (ne, f) =
      entry-create_all t files (create_various_proc_files s n d).1 f
      ∙ entry-created s t n d (fs.proc_create_data s n d) ne refl

  entry-remove_all :
      (t : String) (files : List (String × ℕ)) (d : fs.Dir)
      → Foreign t files
      → fs.entry t (remove_all files d) ≡ fs.entry t d
  unfolding remove_all
  entry-remove_all t [] d f = refl
  entry-remove_all t ((s, n) ∷ files) d (ne, f) =
      entry-remove_all t files (fs.remove_proc_entry s d) f ∙ fs.entry-remove_other s t d ne

  -- The name is one of the files', with its number.
  abbrev pub Listed : String → ℕ → List (String × ℕ) → Type 0
  Listed t m [] = ⊥
  Listed t m ((s, n) ∷ files) = ((t ≡ s) × (m ≡ n)) ⊎ Listed t m files

  abbrev pub Distinct : List (String × ℕ) → Type 0
  Distinct [] = Unit
  Distinct ((s, n) ∷ files) = Foreign s files × Distinct files

  -- An entry removed with others is gone, since no name is made anew.
  gone :
      (t : String) (files : List (String × ℕ)) (d : fs.Dir)
      → fs.entry t d ≡ none
      → fs.entry t (remove_all files d) ≡ none
  unfolding remove_all
  gone t [] d e = e
  gone t ((s, n) ∷ files) d e = elim (string_cases t s) [
    | inl same ↦ gone t files (fs.remove_proc_entry s d) (rw same (fs.entry-remove_self s d))
    | inr ne ↦ gone t files (fs.remove_proc_entry s d) (fs.entry-remove_other s t d ne ∙ e)
  ]

  -- Where no creation is refused, each file's name leads to its number.
  abbrev pub NoneRefused : Type 0
  NoneRefused = (s : String) (n : ℕ) (d : fs.Dir) → fs.proc_create_data s n d ≢ none

  created_self :
      (s : String) (n : ℕ) (d : fs.Dir) (o : Option fs.Dir)
      → o ≢ none
      → fs.proc_create_data s n d ≡ o
      → fs.entry s (created d o).1 ≡ some n
  created_self s n d none h e = absurd (h refl)
  created_self s n d (some d') h e = fs.entry-create_self s n d d' e

  pub entry-create_all-Listed :
      (t : String) (m : ℕ) (files : List (String × ℕ)) (d : fs.Dir)
      → NoneRefused
      → Distinct files
      → Listed t m files
      → fs.entry t (create_all files d) ≡ some m
  unfolding create_all create_various_proc_files
  entry-create_all-Listed t m [] d h distinct l = absurd l
  entry-create_all-Listed t m ((s, n) ∷ files) d h (foreign, distinct) (inl (same, number)) =
      rw same (
        rw number (
          entry-create_all s files (create_various_proc_files s n d).1 foreign
          ∙ created_self s n d (fs.proc_create_data s n d) (h s n d) refl))
  entry-create_all-Listed t m ((s, n) ∷ files) d h (foreign, distinct) (inr l) =
      entry-create_all-Listed t m files (create_various_proc_files s n d).1 h distinct l

  -- The same two as tests.
  abbrev pub foreign : String → List (String × ℕ) → Bool
  foreign t [] = true
  foreign t ((s, n) ∷ files) = if t == s then false else foreign t files

  abbrev distinct : List (String × ℕ) → Bool
  distinct [] = true
  distinct ((s, n) ∷ files) = if foreign s files then distinct files else false

  foreign-Foreign :
      (t : String) (files : List (String × ℕ)) → foreign t files ≡ true → Foreign t files
  foreign-Foreign t [] e = tt
  foreign-Foreign t ((s, n) ∷ files) e = elim (Bool-cases (t == s)) [
    | inl same ↦ absurd (true≢false (sym (rw same at e)))
    | inr differ ↦ (
      λ same. true≢false (sym ((eq_iff t s).1 same) ∙ differ),
      foreign-Foreign t files (rw differ at e),
    )
  ]

  pub distinct-Distinct : (files : List (String × ℕ)) → distinct files ≡ true → Distinct files
  distinct-Distinct [] e = tt
  distinct-Distinct ((s, n) ∷ files) e = elim (Bool-cases (foreign s files)) [
    | inl f ↦ (foreign-Foreign s files f, distinct-Distinct files (rw f at e))
    | inr f ↦ absurd (true≢false (sym (rw f at e)))
  ]

  removed :
      (t : String) (files : List (String × ℕ)) (d : fs.Dir)
      → foreign t files ≡ false
      → fs.entry t (remove_all files d) ≡ none
  unfolding remove_all
  removed t [] d e = absurd (true≢false e)
  removed t ((s, n) ∷ files) d e = elim (string_cases t s) [
    | inl same ↦ gone t files (fs.remove_proc_entry s d) (rw same (fs.entry-remove_self s d))
    | inr ne ↦ removed t files (fs.remove_proc_entry s d) (rw (unequal t s ne) at e)
  ]

  -- What is left of an entry by a name when files are made, and removed, by `files`' names.
  pub remove_all-create_all :
      (t : String) (files : List (String × ℕ)) (d : fs.Dir)
      → fs.entry t (remove_all files (create_all files d))
        ≡ (if foreign t files then fs.entry t d else none)
  remove_all-create_all t files d = elim (Bool-cases (foreign t files)) [
    | inl e ↦
        let other = foreign-Foreign t files e in
        rw e
          (entry-remove_all t files (create_all files d) other ∙ entry-create_all t files d other)
    | inr e ↦ rw e (removed t files (create_all files d) e)
  ]
