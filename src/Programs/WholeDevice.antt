-- ===== src/Programs/WholeDevice.antt =====
-- When misc_progs/sculluidtst.c shows the whole of a device.
use mydrivers.Prelude.{
  ℕ, zero, suc, ◌+◌, ◌-◌, ◌*◌, ◌≤◌, ◌<◌, ◌≡◌, refl, sym, ◌∙◌, ap, subst, false, some, none, List,
  [], ◌∷◌, ◌++◌, arith, length, get_or, take_all, le→leb,
}
use native.Mathlib.Decide.{dec_lt}
use mydrivers.Kernel.{ok, Uaccess, Allocator, Mem}
use mydrivers.Scull.Device.{Block, Qset, Dev, Globals, quantum_of, block_at, locate}
use mydrivers.Scull.Read.{left_at, read_count, read_locked, scull_read}
use mydrivers.Scull.Invariant.{BlockIsFit, DataIsFit, NodesAreFit, IsValid, Grown-refl}
use mydrivers.Scull.Places.{InRange, q_pos-lt}
use mydrivers.Scull.Blocks.{load}
use mydrivers.Scull.ReadShape.{bytes, deliver_lem}
use mydrivers.Scull.FullRead.{slot_found, read_block}
use mydrivers.Scull.RoundTrip.{list_ext}
use mydrivers.Programs.Sculluidtst.{Progress, runs, crashed, sculluidtst}
use mydrivers.Programs.Showing.{div_mono, sculluidtst_lem}

-- The `n` bytes of a device from position `i` on
abbrev pub bytes_from : (ℕ → ℕ) → ℕ → ℕ → List ℕ
bytes_from f i zero = []
bytes_from f i (suc n) = f i ∷ bytes_from f (suc i) n

length-bytes_from : (f : ℕ → ℕ) (i n : ℕ) → length (bytes_from f i n) ≡ n
length-bytes_from f i zero = refl
length-bytes_from f i (suc n) = ap suc (length-bytes_from f (suc i) n)

get_or-bytes_from : (f : ℕ → ℕ) (i n j : ℕ) → j < n → get_or (bytes_from f i n) j 0 ≡ f (i + j)
get_or-bytes_from f i zero j lt = absurd (omega arith)
get_or-bytes_from f i (suc n) zero lt = ap f (omega arith)
get_or-bytes_from f i (suc n) (suc j) lt =
    get_or-bytes_from f (suc i) n j (omega arith) ∙ ap f (omega arith)

-- A block of a well-formed device holds a quantum.
block_enough :
    (quantum qset : ℕ) (nodes : List Qset) (i s : ℕ) (b : Block)
    → NodesAreFit quantum qset nodes
    → block_at nodes i s ≡ some b
    → quantum ≤ length b
block_enough quantum qset nodes i s b fit at =
    let (slots, e, found) = slot_found nodes i s b at in
    let fits : DataIsFit quantum qset (some slots) = subst (DataIsFit quantum qset) e (fit i) in
    let here : get_or slots s none ≡ some b =
      subst (λ o. quantum_of (record { data_ = o }) s ≡ some b) e at in
    subst (BlockIsFit quantum) here (fits.1 s)

count_lem :
    (left quantum q : ℕ)
    → q < quantum
    → 0 < left
    → (0 < read_count left quantum q 4096) × (read_count left quantum q 4096 ≤ left)
unfolding read_count
count_lem left quantum q lt some_left = (ground arith, ground arith)

left_within : (size pos : ℕ) → pos < size → left_at size pos ≡ size - pos
left_within size pos lt = ground arith

abbrev position : Progress → ℕ
position (runs d m pos shown) = pos
position crashed = 0

abbrev text : Progress → List ℕ
text (runs d m pos shown) = shown
text crashed = []

module _ (u : Uaccess) (k : Allocator) (g : Globals) (d : Dev) (m : Mem) (v : IsValid k g d)
    (puts : ℕ → List ℕ → ℕ) (all_out : (round : ℕ) (l : List ℕ) → length l ≤ puts round l)
    (reachable : InRange d.quantum d.qset d.size) (clean : (l : List ℕ) → u.copy_to_user l ≡ 0)
    (whole : (p : ℕ)
      → p < d.size
      → let l = locate d.quantum d.qset p in
        (b : Block) × (block_at d.nodes l.item l.s_pos ≡ some b)) where
  -- One round within the size moves on, and leaves the device as it is.
  step :
      (pos : ℕ)
      → pos < d.size
      → InRange d.quantum d.qset pos
      → (n : ℕ) × (l : List ℕ) × (0 < n)
        × (pos + n ≤ d.size)
        × (scull_read u k d pos 4096 false m
            ≡ record { result = ok n; pos = pos + n; dev = d; mem = m; delivered = l })
  step pos lt in_range =
      let (b, at) = whole pos lt in
      let here = locate d.quantum d.qset pos in
      let enough = block_enough d.quantum d.qset d.nodes here.item here.s_pos b v.nodes_fit at in
      let grown = Grown-refl {quantum = d.quantum} {qset = d.qset} d.nodes m in
      let l = bytes u k g d pos 4096 (left_at d.size pos) m v d.nodes b m lt enough at grown in
      let n = read_count (left_at d.size pos) d.quantum here.q_pos 4096 in
      let left = left_within d.size pos lt in
      let count =
        count_lem (left_at d.size pos) d.quantum here.q_pos
          (q_pos-lt d.quantum d.qset v.quantum_pos v.qset_pos pos) (omega (arith, left, lt)) in
      (
        n,
        l,
        count.0,
        omega (arith, count.1, left, lt),
        rw (read_block u k g d pos 4096 m v in_range b lt at) (
            rw
              (deliver_lem u k g d pos 4096 (left_at d.size pos) m v d.nodes b m lt enough at grown)
              (ground (arith, clean l))),
      )

  at_end :
      (pos : ℕ)
      → d.size ≤ pos
      → scull_read u k d pos 4096 false m
        ≡ record { result = ok 0; pos = pos; dev = d; mem = m; delivered = [] }
  unfolding scull_read read_locked
  at_end pos past = rw (le→leb d.size pos past) refl

  -- As many rounds as there are bytes are enough.
  ends :
      (rounds pos : ℕ) (shown : List ℕ)
      → pos ≤ d.size
      → d.size ≤ pos + rounds
      → (t : List ℕ) × (sculluidtst u k puts rounds (runs d m pos shown) ≡ runs d m d.size t)
  unfolding sculluidtst
  ends zero pos shown le enough = (shown, ap (λ p. runs d m p shown) (omega arith))
  ends (suc r) pos shown le enough = elim (dec_lt pos d.size) [
    | yes lt ↦
        let below = div_mono pos d.size (d.quantum * d.qset) le in
        let (n, l, some_n, within, e) = step pos lt (omega (arith, below, reachable)) in
        let (t, rest) = ends r (pos + n) (shown ++ l) within (omega (arith, enough, some_n)) in
        (t, rw (e, take_all (puts r l) l (all_out r l)) rest)
    | no past ↦
        let (t, rest) = ends r pos (shown ++ []) le (omega (arith, enough, past)) in
        (
          t,
          rw (at_end pos (omega (arith, past)), take_all {A = ℕ} (puts r []) [] (omega arith)) rest,
        )
  ]

  -- On a well-formed device whose size is within its reachable places, of which every byte within the
  -- size lies in a quantum that is there, which nobody else uses, where no copy fails and each `write` puts out all that it is given: in as
  -- many rounds as there are bytes, or more, the program has shown exactly the bytes of the
  -- device, in order, and left the device as it was.
  pub sculluidtst_shows_all :
      (rounds : ℕ)
      → d.size ≤ rounds
      → sculluidtst u k puts rounds (runs d m 0 []) ≡ runs d m d.size (bytes_from (load d) 0 d.size)
  sculluidtst_shows_all rounds enough =
      let (t, e) = ends rounds 0 [] (omega arith) (omega (arith, enough)) in
      let (d', m', pos', shown', f, s) =
        sculluidtst_lem u k g d puts all_out reachable rounds m v in
      let at : pos' ≡ d.size = ap position (sym f ∙ e) in
      let same : shown' ≡ t = ap text (sym f ∙ e) in
      let all : shown' ≡ bytes_from (load d) 0 d.size =
        list_ext shown' (bytes_from (load d) 0 d.size)
          (s.length_shown ∙ at ∙ sym (length-bytes_from (load d) 0 d.size))
          (λ j lt.
            let below : j < d.size = omega (arith, lt, s.length_shown, at) in
            s.same j (omega (arith, below, at))
            ∙ sym (get_or-bytes_from (load d) 0 d.size j below ∙ ap (load d) (omega arith))) in
      e ∙ ap (runs d m d.size) (sym same ∙ all)
