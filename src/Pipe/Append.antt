-- ===== src/Pipe/Append.antt =====
-- The copying part of a write appends to the bytes of a sound pipe.
use mydrivers.Prelude.{
  ℕ, ◌+◌, ◌≤◌, ◌<◌, ◌≡◌, refl, sym, ◌∙◌, ap, true, some, List, [], ◌∷◌, ◌++◌, arith, leb, ◌==◌,
  if◌then◌else◌, length, take, slice, splice, length-slice, Bool-cases, inl, inr, ◌≢◌,
  length-splice, le→leb, ==_iff, length-take,
}
use mathlib.Core.Path.{ap₂}
use mydrivers.Kernel.{efault, ok, err, Uaccess}
use mydrivers.Pipe.State.{Pipe, spacefree, up}
use mydrivers.Pipe.Transfer.{Step, write_count, advance_wp, write_to, write_body}
use mydrivers.Pipe.Ranges.{contents_lem, put_back, put_aside}
use mydrivers.Pipe.Contents.{contents, IsValid, spacefree_cases}
use mydrivers.Pipe.Fifo.{Handed}

length-pos : (src : List ℕ) → src ≢ [] → 0 < length src
length-pos [] ne = absurd (ne refl)
length-pos (x ∷ xs) ne = omega arith

-- How the copying part of a write ends: with bytes of the caller at the back, or as it was.
pub data WriteEnd (p : Pipe) (src : List ℕ) (s : Step) : Type 0 where
  put :
      (n : ℕ)
      → s.result ≡ ok n
      → n ≤ length src
      → (src ≢ [] → 0 < n)
      → contents s.pipe ≡ contents p ++ take n src
      → WriteEnd p src s
  failed : s.result ≡ err efault → contents s.pipe ≡ contents p → WriteEnd p src s

module _ (p : Pipe) (b : List ℕ) (v : IsValid p b) (src : List ℕ) (room : spacefree p ≢ 0) where
  abbrev w : ℕ
  w = write_count p (length src)

  write_count_lem :
      (p.wp + w ≤ p.end_)
      × (w ≤ length src)
      × (p.wp < p.rp → p.wp + w < p.rp)
      × (p.rp ≤ p.wp → p.wp + w ≡ p.end_ → 0 < p.rp)
      × (0 < length src → 0 < w)
  unfolding write_count
  write_count_lem = (
    ground (arith, v, spacefree_cases v),
    ground arith,
    λ h. ground (arith, v, spacefree_cases v),
    λ h e. ground (arith, v, spacefree_cases v),
    λ h. ground (arith, v, spacefree_cases v),
  )

  write_count_in : leb (p.wp + w) (length b) ≡ true
  write_count_in = le→leb _ _ (omega (arith, v.sized, write_count_lem.0))

  module _ (u : Uaccess) where
    abbrev copy : ℕ × List ℕ
    copy = u.copy_from_user (slice b p.wp w) (take w src)

    copy-length : length copy.1 ≡ w
    copy-length =
        let old = length-slice b p.wp w (omega (arith, v.sized, write_count_lem.0)) in
        let new = length-take w src in
        omega (
          arith,
          old,
          write_count_lem.1,
          u.in_place (slice b p.wp w) (take w src) (omega (arith, old, new, write_count_lem.1)),
        )

    abbrev stored : List ℕ
    stored = splice b p.wp copy.1

    write_body_branches : write_body u p src ≡ (
        if copy.0 == 0
        then record { result = ok w; delivered = []; pipe = up (advance_wp p w stored) }
        else record {
          result = err efault;
          delivered = [];
          pipe = up (record p { buffer = some stored });
        })
    unfolding write_body
    write_body_branches = ap (write_to u p w src) v.opened ∙ (rw write_count_in)

    written_contents : copy.0 ≡ 0 → contents (up (advance_wp p w stored)) ≡ contents p ++ take w src
    unfolding advance_wp
    written_contents clean =
        let same : copy.1 ≡ take w src = u.copied (slice b p.wp w) (take w src) clean in
        let front =
          put_back b p.end_ p.rp p.wp copy.1 v.sized v.rp_in
            (omega (arith, copy-length, write_count_lem.0))
            (λ h. omega (arith, copy-length, write_count_lem.2 h))
            (λ h e. write_count_lem.3 h (omega (arith, copy-length, e))) in
        contents_lem (up (advance_wp p w stored)) stored refl
        ∙ (rw copy-length at front)
        ∙ ap₂ ◌++◌ (sym (contents_lem p b v.opened)) same

    written_done :
        Handed p (record { result = ok w; delivered = []; pipe = up (advance_wp p w stored) })
    unfolding advance_wp
    written_done = record {
      bytes = stored;
      valid = record {
        opened = refl;
        sized = length-splice b p.wp copy.1 ∙ v.sized;
        whole = v.whole;
        rp_in = v.rp_in;
        wp_in = ground (arith, v, write_count_lem.0);
      };
      given_back = refl;
      same_size = refl;
      same_readers = refl;
      same_writers = refl;
    }

    abbrev torn : Pipe
    torn = up (record p { buffer = some stored })

    torn-contents : contents torn ≡ contents p
    torn-contents =
        contents_lem torn stored refl
        ∙ put_aside b p.end_ p.rp p.wp copy.1 (λ h. omega (arith, copy-length, write_count_lem.2 h))
        ∙ sym (contents_lem p b v.opened)

    torn_done : Handed p (record { result = err efault; delivered = []; pipe = torn })
    torn_done = record {
      bytes = stored;
      valid = record {
        opened = refl;
        sized = length-splice b p.wp copy.1 ∙ v.sized;
        whole = v.whole;
        rp_in = v.rp_in;
        wp_in = v.wp_in;
      };
      given_back = refl;
      same_size = refl;
      same_readers = refl;
      same_writers = refl;
    }

    -- The copying part of a write to a sound pipe that has room puts a front part of the caller's
    -- bytes, at least one if there are any, behind the bytes that the pipe holds; or it reports
    -- EFAULT and the pipe holds what it held. Either way it gives the semaphore back and leaves
    -- the pointers sound.
    pub write_body_lem : WriteEnd p src (write_body u p src) × Handed p (write_body u p src)
    write_body_lem = elim (Bool-cases (copy.0 == 0)) [
      | inl e ↦
          rw (write_body_branches, e)
            (
              put w refl write_count_lem.1 (λ ne. write_count_lem.4 (length-pos src ne))
                  (written_contents ((==_iff _ _).0 e)),
              written_done,
            )
      | inr e ↦ rw (write_body_branches, e) (failed refl torn-contents, torn_done)
    ]
