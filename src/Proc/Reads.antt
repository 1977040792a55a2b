-- ===== src/Proc/Reads.antt =====
-- What reads of /proc/scullmem deliver, one and many.
use mydrivers.Prelude.{
  ℕ, zero, suc, ◌+◌, ◌-◌, ◌*◌, ◌%◌, ◌^◌, ◌≤◌, ◌<◌, ◌≡◌, min, refl, sym, ap, ◌∙◌, arith, Bool,
  Option, none, some, List, [], ◌++◌, ltb, leb, le→leb, leb→le, ◌==◌, if◌then◌else◌, Bool-cases,
  inl, inr, length, take, drop, slice, slice_cut, slice-drop, take_nil, drop_past,
}
use mydrivers.Kernel.{ok, Uaccess, Allocator, Mem, granted}
use mydrivers.Scull.Device.{Dev}
use mydrivers.Print.{Reply}
use mydrivers.Proc.Mem.{MemLines, max_pages, page_size, text, print_devices, shown, proc_read}

-- The reply that hands out the bytes of `t` from `pos` on.
abbrev pub handed : List ℕ → (pos count : ℕ) → Mem → Reply
handed t pos count m =
    let n = min count (length t - pos) in
    record { result = ok n; pos = pos + n; mem = m; delivered = slice t pos count }

shown_lem :
    (u : Uaccess) (k : Allocator) (l : MemLines) (interrupted : ℕ → Bool) (t : List ℕ)
    (pos count : ℕ) (m : Mem) (b : List ℕ)
    → pos < 2 ^ 63
    → count < 2 ^ 63
    → u.copy_to_user (slice t pos count) ≡ 0
    → shown u k l interrupted t pos count (granted (some b) m)
      ≡ handed t pos count (record m { asked = m.asked + 1 })
unfolding shown
shown_lem u k l interrupted t pos count m b small small' copied =
    let asked : Mem = record m { asked = m.asked + 1 } in
    let freed : m.live + 1 - 1 ≡ m.live = omega arith in
    elim (Bool-cases (leb (length t) pos)) [
      | inl e ↦
          let past = leb→le (length t) pos e in
          let none_left : min count (length t - pos) ≡ 0 = omega (arith, past) in
          let nothing : slice t pos count ≡ [] =
            ap (take count) (drop_past pos t past) ∙ take_nil count in
          let stays : pos + 0 ≡ pos = omega arith in
          rw e (rw freed (rw none_left (rw nothing (rw stays refl))))
      | inr e ↦
          let n : (if ltb (length t) ((pos + count) % 2 ^ 64) then length t - pos else count)
              ≡ min count (length t - pos) =
            ground arith in
          let within = le→leb (pos + min count (length t - pos)) (length t) (ground arith) in
          let bytes = slice_cut t pos count in
          rw e (rw n (rw within (rw bytes (rw copied (rw freed refl)))))
    ]

-- What a program like `cat` reads: `count` bytes at a time, until a read gives 0. Out of fuel, or
-- where a read gives an error, it is `none`.
abbrev pub follow : Reply → Option (List ℕ) → Option (List ℕ)
follow r rest = elim r.result [
  | ok n ↦ (if n == 0 then some [] else joins r.delivered rest)
  | _ ↦ none
]
  where
    joins : List ℕ → Option (List ℕ) → Option (List ℕ)
    joins bytes none = none
    joins bytes (some more) = some (bytes ++ more)

module _ (u : Uaccess) (k : Allocator) (l : MemLines) (interrupted : ℕ → Bool)
    (devs : List Dev) where
  unfoldable pub read_all : (count fuel pos : ℕ) → Mem → Option (List ℕ)
  unfolding proc_read
  read_all count zero pos m = none
  read_all count (suc fuel) pos m =
      let r = proc_read u k l interrupted devs pos count m in
      let rest = read_all count fuel r.pos r.mem in follow r rest

  -- Where the buffer is granted, the devices are printed without a signal, and the copy succeeds, a
  -- read of less than 2 ^ 63 bytes delivers the text from the position on, as many bytes as were
  -- asked for and are left, none past the end, moves the position by their number, and frees the
  -- buffer.
  proc_read_lem :
      (t : List ℕ) (pos count : ℕ) (m : Mem) (b : List ℕ)
      → k.kmalloc m.asked (max_pages * page_size) ≡ some b
      → print_devices l interrupted 0 [] devs ≡ text t
      → pos < 2 ^ 63
      → count < 2 ^ 63
      → u.copy_to_user (slice t pos count) ≡ 0
      → proc_read u k l interrupted devs pos count m
        ≡ handed t pos count (record m { asked = m.asked + 1 })
  unfolding proc_read
  proc_read_lem t pos count m b got printed small small' copied =
      rw got (rw printed (shown_lem u k l interrupted t pos count m b small small' copied))

  -- Where every request and every copy succeeds and the devices are printed, without a signal, to
  -- a text of fewer than 2 ^ 63 bytes: reading a positive number of bytes below 2 ^ 63 at a time,
  -- from a position within the text on, ends, and gives the rest of the text: as many reads as
  -- there are bytes left, and one more, are enough.
  pub reads_to_end :
      (t : List ℕ) (count fuel pos : ℕ) (m : Mem)
      → ((nth size : ℕ) → (b : List ℕ) × (k.kmalloc nth size ≡ some b))
      → ((bytes : List ℕ) → u.copy_to_user bytes ≡ 0)
      → print_devices l interrupted 0 [] devs ≡ text t
      → 0 < count
      → count < 2 ^ 63
      → length t < 2 ^ 63
      → pos ≤ length t
      → length t - pos < fuel
      → read_all count fuel pos m ≡ some (drop pos t)
  unfolding read_all
  reads_to_end t count zero pos m granted copies printed some_asked small short within enough =
      absurd (omega arith)
  reads_to_end t count (suc fuel) pos m granted copies printed some_asked small short within
        enough =
      let (b, got) = granted m.asked (max_pages * page_size) in
      let once =
        proc_read_lem t pos count m b got printed (omega arith) small
          (copies (slice t pos count)) in
      let n = min count (length t - pos) in
      let after : Mem = record m { asked = m.asked + 1 } in
      rw once (elim (Bool-cases (n == 0)) [
        | inl e ↦ rw e (ap some (sym (drop_past pos t (ground (arith, e)))))
        | inr e ↦
            let rest =
              reads_to_end t count fuel (pos + n) after granted copies printed some_asked small
                short (omega arith) (ground (arith, e)) in
            rw e (rw rest (ap some (slice-drop t pos count)))
      ])
