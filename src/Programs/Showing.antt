-- ===== src/Programs/Showing.antt =====
-- What misc_progs/sculluidtst.c shows of a device.
use mydrivers.Prelude.{
  ℕ, zero, suc, ◌+◌, ◌-◌, ◌*◌, ◌/◌, ltb, if◌then◌else◌, ◌≤◌, ◌<◌, ◌≡◌, refl, sym, ◌∙◌, ap, false,
  List, [], ◌∷◌, ◌++◌, arith, length, get_or, length-append, take_all, Bool-cases, ltb→lt, ltb→le,
  inl, inr,
}
use mydrivers.Kernel.{Uaccess, Allocator, Mem}
use mydrivers.Scull.Device.{Dev, Globals}
use mydrivers.Scull.Write.{Outcome}
use mydrivers.Scull.Read.{scull_read}
use mydrivers.Scull.Invariant.{IsValid}
use mydrivers.Scull.Places.{InRange}
use mydrivers.Scull.Blocks.{load}
use mydrivers.Scull.Reads.{Delivers, read-Delivers, read_keeps}
use mydrivers.Programs.Sculluidtst.{Progress, runs, shows, sculluidtst}

-- The program on a device whose bytes are those of `d` at the start, all of them reachable: what it
-- showed are the bytes from the start up to its position.
pub record Sound (k : Allocator) (g : Globals) (d d' : Dev) (pos : ℕ) (shown : List ℕ)
    : Type 0 where
  pub valid : IsValid k g d'
  pub quantum_kept : d'.quantum ≡ d.quantum
  pub qset_kept : d'.qset ≡ d.qset
  pub size_kept : d'.size ≡ d.size
  pub bytes_kept : (p : ℕ) → load d' p ≡ load d p
  pub length_shown : length shown ≡ pos
  pub within : pos ≤ d.size
  pub same : (j : ℕ) → j < pos → get_or shown j 0 ≡ load d j

abbrev pub Shows : Allocator → Globals → Dev → Progress → Type 0
Shows k g d p =
    (d' : Dev) × (m : Mem) × (pos : ℕ) × (shown : List ℕ) × (p ≡ runs d' m pos shown)
    × Sound k g d d' pos shown

pub div_mono : (a b c : ℕ) → a ≤ b → a / c ≤ b / c
div_mono a b c h = grind arith

get_or-append :
    (xs ys : List ℕ) (j : ℕ)
    → get_or (xs ++ ys) j 0
      ≡ (if ltb j (length xs) then get_or xs j 0 else get_or ys (j - length xs) 0)
get_or-append [] ys j = ground arith
get_or-append (x ∷ xs) ys zero = ground arith
get_or-append (x ∷ xs) ys (suc j) = ground (arith, get_or-append xs ys j)

module _ (u : Uaccess) (k : Allocator) (g : Globals) (d : Dev) (puts : ℕ → List ℕ → ℕ)
    (all_out : (round : ℕ) (l : List ℕ) → length l ≤ puts round l)
    (reachable : InRange d.quantum d.qset d.size) where
  module _ (d' : Dev) (m : Mem) (pos : ℕ) (shown : List ℕ) (s : Sound k g d d' pos shown)
      (round : ℕ) where
    abbrev o : Outcome
    o = scull_read u k d' pos 4096 false m

    in_range : InRange d'.quantum d'.qset pos
    in_range =
        let le = div_mono pos d.size (d.quantum * d.qset) s.within in
        rw (s.quantum_kept, s.qset_kept) (omega (arith, le, reachable))

    after :
        (shown' : List ℕ)
        → length shown' ≡ o.pos
        → o.pos ≤ d.size
        → ((j : ℕ) → j < o.pos → get_or shown' j 0 ≡ load d j)
        → Sound k g d o.dev o.pos shown'
    after shown' len le same =
        let keeps = read_keeps u k g d' pos 4096 m s.valid in
        let kept = (keeps 0).2 in
        record {
          valid = kept.valid;
          quantum_kept = kept.quantum_kept ∙ s.quantum_kept;
          qset_kept = kept.qset_kept ∙ s.qset_kept;
          size_kept = (keeps 0).1 ∙ s.size_kept;
          bytes_kept = λ p. (keeps p).0 ∙ s.bytes_kept p;
          length_shown = len;
          within = le;
          same = same;
        }

    piece_Shows : Delivers d' pos 4096 o → Shows k g d (shows (puts round) o shown o.result)
    piece_Shows (Delivers.got n r p l le lim same) = (
      o.dev,
      o.mem,
      o.pos,
      shown ++ o.delivered,
      ap (shows (puts round) o shown) r
          ∙ ap (λ l. runs o.dev o.mem o.pos (shown ++ l))
              (take_all (puts round o.delivered) o.delivered (all_out round o.delivered)),
      after (shown ++ o.delivered)
          (omega (arith, length-append shown o.delivered, s.length_shown, l, p))
          (ground (arith, lim, s.within, s.size_kept, p)) joined,
    )
      where
        joined : (j : ℕ) → j < o.pos → get_or (shown ++ o.delivered) j 0 ≡ load d j
        joined j lt = elim (Bool-cases (ltb j (length shown))) [
          | inl e ↦
              rw (get_or-append shown o.delivered j, e)
                (s.same j (omega (arith, ltb→lt j (length shown) e, s.length_shown)))
          | inr e ↦
              let past = ltb→le j (length shown) e in
              let i = j - length shown in
              let at : pos + i ≡ j = omega (arith, past, s.length_shown) in
              rw (get_or-append shown o.delivered j, e)
                (same i (omega (arith, lt, p, past, s.length_shown))
                  ∙ s.bytes_kept (pos + i)
                  ∙ ap (load d) at)
        ]
    piece_Shows (Delivers.failed r p l) = (
      o.dev,
      o.mem,
      o.pos,
      shown,
      ap (shows (puts round) o shown) r,
      after shown (s.length_shown ∙ sym p) (omega (arith, p, s.within))
          (λ j lt. s.same j (omega (arith, lt, p))),
    )

  from_Shows :
      (n : ℕ) (d' : Dev) (m : Mem) (pos : ℕ) (shown : List ℕ)
      → Sound k g d d' pos shown
      → Shows k g d (sculluidtst u k puts n (runs d' m pos shown))
  unfolding sculluidtst
  from_Shows zero d' m pos shown s = (d', m, pos, shown, refl, s)
  from_Shows (suc n) d' m pos shown s =
      let (d'', m'', pos'', shown'', e, s'') =
        piece_Shows d' m pos shown s n
          (read-Delivers u k g d' pos 4096 m s.valid (in_range d' m pos shown s n)) in
      rw e (from_Shows n d'' m'' pos'' shown'' s'')

  -- On a well-formed device whose size is within its reachable places, and which nobody else uses,
  -- when each `write` puts out all that it is given,
  -- the program never crashes, however long it goes on: what it has shown are the device's
  -- bytes from the first up to the position of its file, which is within the size, and the device
  -- keeps its size and its bytes.
  pub sculluidtst_lem :
      (n : ℕ) (m : Mem) → IsValid k g d → Shows k g d (sculluidtst u k puts n (runs d m 0 []))
  sculluidtst_lem n m v = from_Shows n d m 0 [] (record {
    valid = v;
    quantum_kept = refl;
    qset_kept = refl;
    size_kept = refl;
    bytes_kept = λ p. refl;
    length_shown = refl;
    within = omega arith;
    same = λ j lt. absurd (omega arith);
  })
