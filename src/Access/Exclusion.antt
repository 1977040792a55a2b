-- ===== src/Access/Exclusion.antt =====
-- Who may have a device of scull/access.c open at the same time.
use mydrivers.Prelude.{
  ℕ, ◌+◌, ◌<◌, ◌≤◌, ◌≡◌, ◌≢◌, refl, sym, subst, Bool, true, ◌||◌, Option, none, some, ◌==◌, arith,
  Bool-cases, ==_iff, inl, inr, ◌⊎◌,
}
use native.Mathlib.Decide.{ℕ_discrete}
use mydrivers.Prelude.Family.{update, total, total-update, total-ge, total_pair, total-eq-zero}
use mydrivers.Kernel.{eagain, ebusy, erestartsys, Mem}
use mydrivers.Scull.Device.{Dev, Globals}
use mydrivers.Scull.Trim.{scull_trim}
use mydrivers.Access.Users.{
  Task, Shared, Opened, emptied, scull_open, write_only, is_busy, counted, enter, scull_u_open,
  scull_w_available, release,
}
use mydrivers.Access.Sessions.{
  Pc, outside, entering, waiting, inside, crashed, refused, landed, Move, u_open, w_open, w_enter,
  w_again, w_wait, w_wake, w_signal, leave, give_up, System, Turn, turn, Reach, start, later,
}

-- The owner's process: by its user, by its effective user, or by privilege.
abbrev admits : ℕ → Task → Bool
admits owner t = owner == t.uid || owner == t.euid || t.override

abbrev pub users : Pc → ℕ
users (inside t) = 1
users (crashed t) = 1
users _ = 0

abbrev Admitted : ℕ → Pc → Type 0
Admitted owner (inside t) = admits owner t ≡ true
Admitted owner (crashed t) = admits owner t ≡ true
Admitted owner _ = Unit

-- Every process that has the device open is counted, and is one of the owner's.
pub record Inv (n : ℕ) (s : System) : Type 0 where
  pub counts : s.shared.count ≡ total users n s.pc
  pub admitted : (i : ℕ) → i < n → Admitted s.shared.owner (s.pc i)

Admitted-free : (owner : ℕ) (c : Pc) → users c ≡ 0 → Admitted owner c
Admitted-free owner (inside t) h = absurd (omega arith)
Admitted-free owner (crashed t) h = absurd (omega arith)
Admitted-free owner outside h = tt
Admitted-free owner (entering t f) h = tt
Admitted-free owner (waiting t f) h = tt
Admitted-free owner (refused e) h = tt

-- What a move does to the count and to the owner; the owner changes only where nobody stays.
record Effect (s : Shared) (c : Pc) (s' : Shared) (c' : Pc) : Type 0 where
  balance : s'.count + users c ≡ s.count + users c'
  admitted : Admitted s'.owner c'
  alone : (s'.owner ≡ s.owner) ⊎ (s.count ≡ users c)

unchanged : (s : Shared) (c c' : Pc) → users c ≡ 0 → users c' ≡ 0 → Effect s c s c'
unchanged s c c' h h' = record {
  balance = omega arith;
  admitted = Admitted-free s.owner c' h';
  alone = inl refl;
}

-- An open that gets this far counts its caller, whether it crashes or not.
data Landing (t : Task) (s : Shared) (r : Opened) : Type 0 where
  landing :
      users (landed t r.result) ≡ 1
      → ((owner : ℕ) → admits owner t ≡ true → Admitted owner (landed t r.result))
      → r.shared.count ≡ s.count
      → r.shared.owner ≡ s.owner
      → Landing t s r

emptied-Landing : (t : Task) (s : Shared) (o : Option (Dev × Mem)) → Landing t s (emptied s o)
emptied-Landing t s none = landing refl (λ owner h. h) refl refl
emptied-Landing t s (some x) = landing refl (λ owner h. h) refl refl

scull_open-Landing :
    (g : Globals) (f_flags : ℕ) (t : Task) (s : Shared) → Landing t s (scull_open g f_flags s)
unfolding scull_open
scull_open-Landing g f_flags t s = elim (Bool-cases (write_only f_flags)) [
  | inl e ↦ rw e (emptied-Landing t s (scull_trim g s.dev s.mem))
  | inr e ↦ rw e (landing refl (λ owner h. h) refl refl)
]

enter-Effect :
    (t : Task) (s : Shared) (r : Opened) (c : Pc)
    → users c ≡ 0
    → (s.count ≢ 0 → admits s.owner t ≡ true)
    → Landing t (counted t s) r
    → Effect s c r.shared (landed t r.result)
enter-Effect t s r c z may (landing one lands e f) = record {
  balance = omega (arith, e, z, one);
  admitted = lands r.shared.owner (rw f (ground (arith, may)));
  alone = ground (arith, f, z);
}

u_open-Effect :
    (g : Globals) (t : Task) (f_flags : ℕ) (s : Shared)
    → let r = scull_u_open g f_flags t s in Effect s outside r.shared (landed t r.result)
unfolding scull_u_open enter
u_open-Effect g t f_flags s = elim (Bool-cases (is_busy t s)) [
  | inl e ↦ rw e (unchanged s outside (refused ebusy) refl refl)
  | inr e ↦ rw e (
      enter-Effect t s (scull_open g f_flags (counted t s)) outside refl (λ h. ground arith)
        (scull_open-Landing g f_flags t (counted t s)))
]

Move-Effect :
    {g : Globals} {s s' : Shared} {c c' : Pc}
    → Move g s c s' c'
    → users c ≤ s.count
    → Effect s c s' c'
unfolding enter scull_w_available release
Move-Effect {g} {s} (u_open t f_flags e) h =
    subst (λ (r : Opened). Effect s outside r.shared (landed t r.result)) e
      (u_open-Effect g t f_flags s)
Move-Effect {s = s} (w_open t f) h = unchanged s outside (entering t f) refl refl
Move-Effect {g} {s} (w_enter {t = t} {f_flags = f} may e) h =
    subst (λ (r : Opened). Effect s (entering t f) r.shared (landed t r.result)) e
      (enter-Effect t s (scull_open g f (counted t s)) (entering t f) refl (λ ne. ground arith)
        (scull_open-Landing g f t (counted t s)))
Move-Effect {s = s} (w_again {t = t} {f_flags = f} shut b) h =
    unchanged s (entering t f) (refused eagain) refl refl
Move-Effect {s = s} (w_wait {t = t} {f_flags = f} shut b) h =
    unchanged s (entering t f) (waiting t f) refl refl
Move-Effect {s = s} (w_wake {t = t} {f_flags = f} may) h =
    unchanged s (waiting t f) (entering t f) refl refl
Move-Effect {s = s} (w_signal {t = t} {f_flags = f}) h =
    unchanged s (waiting t f) (refused erestartsys) refl refl
Move-Effect (leave {t = t}) h = record {
  balance = omega (arith, h);
  admitted = tt;
  alone = ground (arith, h);
}
Move-Effect {s = s} (give_up {e = e}) h = unchanged s (refused e) outside refl refl

at_index :
    (f : ℕ → Pc) (i : ℕ) (c : Pc) (P : Pc → Type 0) (j : ℕ)
    → P c
    → (i ≢ j → P (f j))
    → P (update f i c j)
at_index f i c P j here there = elim (ℕ_discrete i j) [
  | yes e ↦ rw ((==_iff i j).1 e) here
  | no ne ↦ ground (arith, there ne)
]

Turn-Inv : {g : Globals} {n : ℕ} {s t : System} → Turn g n s t → Inv n s → Inv n t
Turn-Inv {n = n} {s = s} (turn i {s' = s'} {c = c} lt move) inv = record {
  counts = omega (arith, total-update users n s.pc i c lt, e.balance, inv.counts);
  admitted = λ j ltj. at_index s.pc i c (Admitted s'.owner) j e.admitted (λ ne. others j ltj ne);
}
  where
    e : Effect s.shared (s.pc i) s' c
    e = Move-Effect move (omega (arith, inv.counts, total-ge users n s.pc i lt))

    others : (j : ℕ) → j < n → i ≢ j → Admitted s'.owner (s.pc j)
    others j ltj ne = elim e.alone [
      | inl same ↦ subst (λ owner. Admitted owner (s.pc j)) (sym same) (inv.admitted j ltj)
      | inr last ↦
          Admitted-free s'.owner (s.pc j)
            (omega (arith, total_pair users n s.pc i j lt ltj ne, inv.counts, last))
    ]

-- A device that nobody has open.
abbrev pub unopened : Shared → System
unopened s = record { shared = s; pc = λ _. outside }

-- However processes open and release a device that nobody had open, by `scull_u_open` or
-- `scull_w_open`, refused, waiting, interrupted or let in: its count is the number of those that
-- have it open, and each of these is privileged or of the owner's user or effective user.
pub sessions-Inv :
    {g : Globals} {n : ℕ} (s : Shared) {t : System}
    → s.count ≡ 0
    → Reach g n (unopened s) t
    → Inv n t
sessions-Inv {n = n} s e start = record {
  counts = omega (arith, e, total-eq-zero users n (λ _. outside) (λ i. refl));
  admitted = λ i lt. tt;
}
sessions-Inv s e (later r t) = Turn-Inv t (sessions-Inv s e r)
