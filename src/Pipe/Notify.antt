-- ===== src/Pipe/Notify.antt =====
-- `scull_p_fasync`, and the signal at the end of `scull_p_write`.
use mydrivers.Prelude.{
  ℕ, ◌≡◌, refl, ◌∙◌, Bool, true, false, ◌&&◌, Option, none, some, List, leb, ◌==◌, ◌+◌, inl, inr,
  Bool-cases, length, slice, take,
}
use mydrivers.Kernel.{Result, ok, err, fault, Uaccess}
use mydrivers.Pipe.State.{Pipe}
use mydrivers.Pipe.Transfer.{Step, write_to, write_count, advance_wp, write_body}

-- `fasync_helper`, by the mode and whether the queue has an entry: what it returns, and whether the
-- queue has one then.
unfoldable pub scull_p_fasync : (Bool → Bool → Result ℕ × Bool) → Bool → Pipe → Result ℕ × Pipe
scull_p_fasync fasync_helper mode p =
    let (r, left) = fasync_helper mode p.async_queue in (r, record p { async_queue = left })

abbrev pub copied : Result ℕ → Bool
copied (ok n) = true
copied (err e) = false
copied fault = false

-- Whether `kill_fasync` is called behind the copying part of a write.
abbrev kills_fasync : Step → Bool
kills_fasync s = copied s.result && s.pipe.async_queue

write_to-queue :
    (u : Uaccess) (p : Pipe) (n : ℕ) (src : List ℕ) (b : Option (List ℕ))
    → (write_to u p n src b).pipe.async_queue ≡ p.async_queue
unfolding advance_wp
write_to-queue u p n src none = refl
write_to-queue u p n src (some b) = elim (Bool-cases (leb (p.wp + n) (length b))) [
  | inl e ↦ elim (Bool-cases ((u.copy_from_user (slice b p.wp n) (take n src)).0 == 0)) [
    | inl f ↦ rw (e, f) refl
    | inr f ↦ rw (e, f) refl
  ]
  | inr e ↦ rw e refl
]

both : (a b : Bool) → b ≡ true → (a && b) ≡ a
both true b e = e
both false b e = refl

-- After a process asked for signals and `fasync_helper` gave the queue an entry, SIGIO is sent behind
-- every write that returns a number, whatever it copied, and behind no other.
fasync-kills :
    (u : Uaccess) (fasync_helper : Bool → Bool → Result ℕ × Bool) (p : Pipe) (src : List ℕ)
    → (fasync_helper true p.async_queue).1 ≡ true
    → let s = write_body u (scull_p_fasync fasync_helper true p).1 src in
      kills_fasync s ≡ copied s.result
unfolding scull_p_fasync write_body
fasync-kills u fasync_helper p src e =
    let q = (scull_p_fasync fasync_helper true p).1 in
    let queued : (write_body u q src).pipe.async_queue ≡ true =
      write_to-queue u q (write_count q (length src)) src q.buffer ∙ e in
    both (copied (write_body u q src).result) (write_body u q src).pipe.async_queue queued
