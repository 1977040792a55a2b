-- ===== src/Scull/Reads.antt =====
-- `scull_read` on a well-formed device: what it returns and delivers, and what it leaves alone.
use mydrivers.Prelude.{
  ℕ, ◌+◌, ◌*◌, ◌≤◌, ◌<◌, ◌≡◌, refl, sym, ap, subst, Bool, true, false, List, [], arith, length,
  get_or, Bool-cases, inl, inr, ◌==◌, if◌then◌else◌, ◌⊎◌,
}
use mydrivers.Kernel.{ok, err, efault, Uaccess, Allocator, Mem}
use mydrivers.Scull.Device.{Qset, Dev, Globals, int_max, locate}
use mydrivers.Scull.Write.{Outcome}
use mydrivers.Scull.Read.{left_at, unread, read_locked, scull_read}
use mydrivers.Scull.Invariant.{IsValid, Grown}
use mydrivers.Scull.Places.{InRange, q_pos-lt, quantum_end}
use mydrivers.Scull.Blocks.{load}
use mydrivers.Scull.WriteKeeps.{Kept, regrown-Kept}
use mydrivers.Scull.ReadShape.{
  ReadShape, nothing, copied, read_locked-Shape, amount, bytes, bounds, bytes-length, bytes-load,
  deliver_lem,
}

-- What a read tells the caller, and what it delivers.
pub data Delivers (d : Dev) (pos count : ℕ) (o : Outcome) : Type 0 where
  got :
      (n : ℕ)
      → o.result ≡ ok n
      → o.pos ≡ pos + n
      → length o.delivered ≡ n
      → n ≤ count
      → (n ≡ 0) ⊎ (pos + n ≤ d.size)
      → ((i : ℕ) → i < n → get_or o.delivered i 0 ≡ load d (pos + i))
      → Delivers d pos count o
  failed : o.result ≡ err efault → o.pos ≡ pos → o.delivered ≡ [] → Delivers d pos count o

-- The same for a read whose `left` may be out of date.
pub data Copies (d : Dev) (pos count left : ℕ) (o : Outcome) : Type 0 where
  got :
      (n : ℕ)
      → o.result ≡ ok n
      → o.pos ≡ pos + n
      → length o.delivered ≡ n
      → n ≤ count
      → (n ≡ 0) ⊎ ((pos < d.size) × (n ≤ left) × (pos + n ≤ int_max * (d.quantum * d.qset)))
      → ((i : ℕ) → i < n → get_or o.delivered i 0 ≡ load d (pos + i))
      → Copies d pos count left o
  failed : o.result ≡ err efault → o.pos ≡ pos → o.delivered ≡ [] → Copies d pos count left o

module _ (u : Uaccess) (k : Allocator) (g : Globals) (d : Dev) (pos count left : ℕ) (m : Mem)
    (v : IsValid k g d) where
  abbrev locked : Outcome
  locked = read_locked u k d pos count left m

  locked-Shape : ReadShape u k g d pos count left m locked
  locked-Shape = read_locked-Shape u k g d pos count left m v

  pub locked-Copies :
      ((locate d.quantum d.qset pos).item < int_max → InRange d.quantum d.qset pos)
      → Copies d pos count left locked
  locked-Copies hp = report locked locked-Shape
    where
      report : (o : Outcome) → ReadShape u k g d pos count left m o → Copies d pos count left o
      report o (nothing nodes m' grown e) = rw e (
          Copies.got 0 refl (omega arith) refl (omega arith) (inl refl)
            (λ i h. absurd (omega arith)))
      report o (copied nodes b m' lt small enough at grown e) =
          rw (e, deliver_lem u k g d pos count left m v nodes b m' lt enough at grown)
            (go (Bool-cases clean))
        where
          n : ℕ
          n = amount u k g d pos count left m v nodes b m' lt enough at grown

          l : List ℕ
          l = bytes u k g d pos count left m v nodes b m' lt enough at grown

          clean : Bool
          clean = u.copy_to_user l == 0

          limits : ((locate d.quantum d.qset pos).q_pos + n ≤ d.quantum) × (n ≤ count) × (n ≤ left)
          limits = bounds u k g d pos count left m v nodes b m' lt enough at grown

          end : pos + n ≤ int_max * (d.quantum * d.qset)
          end =
              quantum_end d.quantum d.qset v.quantum_pos v.qset_pos pos n (hp small)
                (omega (arith, limits))

          done : Outcome
          done = record {
            result = ok n;
            pos = pos + n;
            dev = record d { nodes = nodes };
            mem = m';
            delivered = l;
          }

          go :
              (clean ≡ true) ⊎ (clean ≡ false)
              → Copies d pos count left
                  (if clean then done else unread u k d pos count left (err efault) nodes m')
          go (inl c) = rw c (
              Copies.got n refl refl
                (bytes-length u k g d pos count left m v nodes b m' lt enough at grown) limits.1
                (inr (lt, limits.2, end))
                (λ i.
                  bytes-load u k g d pos count left m v nodes b m' lt enough at grown i (hp small)))
          go (inr c) = rw c (Copies.failed refl refl refl)

  Grown-dev :
      (o : Outcome)
      → ReadShape u k g d pos count left m o
      → (nodes : List Qset) × (o.dev ≡ record d { nodes = nodes })
        × Grown d.quantum d.qset d.nodes m nodes o.mem
  Grown-dev o (nothing nodes m' grown e) = rw e (nodes, refl, grown)
  Grown-dev o (copied nodes b m' lt small enough at grown e) =
      rw (e, deliver_lem u k g d pos count left m v nodes b m' lt enough at grown)
        (nodes, ground arith, ground (arith, grown))

  -- It changes no byte of the device and not its size, keeps it well formed, and accounts for the
  -- nodes that it may add to the list.
  pub locked_keeps :
      (p : ℕ) → (load locked.dev p ≡ load d p) × (locked.dev.size ≡ d.size) × Kept k g d m locked
  locked_keeps p =
      let (nodes, e, grown) = Grown-dev locked locked-Shape in
      let l = locate d.quantum d.qset p in
      (
        subst (λ d'. load d' p ≡ load d p) (sym e)
            (grown.same l.item l.s_pos l.q_pos
              (q_pos-lt d.quantum d.qset v.quantum_pos v.qset_pos p)),
        ap (λ (d' : Dev). d'.size) e,
        regrown-Kept k g d m v d.size nodes locked e (grown.fit v.nodes_fit) grown.balance,
      )

module _ (u : Uaccess) (k : Allocator) (g : Globals) (d : Dev) (pos count : ℕ) (m : Mem)
    (v : IsValid k g d) where
  abbrev final : Outcome
  final = scull_read u k d pos count false m

  -- On a well-formed device, a read that gets the semaphore, at a position whose quantum set has
  -- a number that is a non-negative `int`, returns a number `n` of bytes, at most `count` and,
  -- unless it is 0, within the size, delivers exactly the device's bytes from the position on,
  -- and moves the position by `n`; or it reports EFAULT, delivers nothing and leaves the position
  -- alone. It never runs out of bounds.
  pub read-Delivers : InRange d.quantum d.qset pos → Delivers d pos count final
  unfolding scull_read
  read-Delivers hp = fresh (locked-Copies u k g d pos count (left_at d.size pos) m v (λ _. hp))
    where
      fresh : {o : Outcome} → Copies d pos count (left_at d.size pos) o → Delivers d pos count o
      fresh (Copies.got n r p l le within same) = Delivers.got n r p l le (ground arith) same
      fresh (Copies.failed r p l) = Delivers.failed r p l

  -- A read of a well-formed device that gets the semaphore changes no byte of the device and not
  -- its size, keeps it well formed, and accounts for the nodes that it may add to the list.
  pub read_keeps :
      (p : ℕ) → (load final.dev p ≡ load d p) × (final.dev.size ≡ d.size) × Kept k g d m final
  unfolding scull_read
  read_keeps p = locked_keeps u k g d pos count (left_at d.size pos) m v p
