-- ===== src/Scull/Controls.antt =====
-- What `scull_ioctl` does to the defaults, over all its commands.
use mydrivers.Prelude.{
  ℕ, ◌%◌, ◌/◌, ◌^◌, ◌≡◌, ◌≢◌, refl, ◌∙◌, ap, true, false, Option, none, some, arith, ltb, inl, inr,
  ◌⊎◌,
}
use mydrivers.Kernel.{enotty, efault, ok, err}
use mydrivers.Scull.Device.{Globals, to_int}
use mydrivers.Scull.Ioctl.{
  Cmd, reset, squantum, sqset, tquantum, tqset, gquantum, gqset, qquantum, qqset, xquantum, xqset,
  hquantum, hqset, Caller, number, decode, run, switch, scull_ioctl, scull_ioc_magic,
  scull_ioc_maxnr, with_quantum, with_qset,
}

decode-number : (cmd : Cmd) → decode (number cmd) ≡ some cmd
unfolding decode
decode-number reset = refl
decode-number squantum = refl
decode-number sqset = refl
decode-number tquantum = refl
decode-number tqset = refl
decode-number gquantum = refl
decode-number gqset = refl
decode-number qquantum = refl
decode-number qqset = refl
decode-number xquantum = refl
decode-number xqset = refl
decode-number hquantum = refl
decode-number hqset = refl

-- Every command passes the checks of its type and number.
magic :
    (cmd : Cmd)
    → (number cmd / 2 ^ 8 % 2 ^ 8 ≡ scull_ioc_magic)
      × (ltb scull_ioc_maxnr (number cmd % 2 ^ 8) ≡ false)
magic reset = (refl, refl)
magic squantum = (refl, refl)
magic sqset = (refl, refl)
magic tquantum = (refl, refl)
magic tqset = (refl, refl)
magic gquantum = (refl, refl)
magic gqset = (refl, refl)
magic qquantum = (refl, refl)
magic qqset = (refl, refl)
magic xquantum = (refl, refl)
magic xqset = (refl, refl)
magic hquantum = (refl, refl)
magic hqset = (refl, refl)

pub scull_ioctl-number :
    (c : Caller) (g : Globals) (cmd : Cmd) (arg : ℕ)
    → c.access_ok ≡ true
    → scull_ioctl c g (number cmd) arg ≡ run c cmd g arg
unfolding scull_ioctl
scull_ioctl-number c g cmd arg h = rw ((magic cmd).0, (magic cmd).1, h, decode-number cmd) refl

decode_sound : (n : ℕ) (cmd : Cmd) → decode n ≡ some cmd → n ≡ number cmd
unfolding decode
decode_sound n cmd e = ground arith

run_unprivileged :
    (c : Caller) (g : Globals) (cmd : Cmd) (arg : ℕ)
    → c.capable ≡ false
    → ((run c cmd g arg).globals ≡ g) ⊎ (cmd ≡ reset)
unfolding run
run_unprivileged c g reset arg h = inr refl
run_unprivileged c g gquantum arg h = inl (ground arith)
run_unprivileged c g qquantum arg h = inl refl
run_unprivileged c g gqset arg h = inl (ground arith)
run_unprivileged c g qqset arg h = inl refl
run_unprivileged c g squantum arg h = inl (rw h refl)
run_unprivileged c g tquantum arg h = inl (rw h refl)
run_unprivileged c g xquantum arg h = inl (rw h refl)
run_unprivileged c g hquantum arg h = inl (rw h refl)
run_unprivileged c g sqset arg h = inl (rw h refl)
run_unprivileged c g tqset arg h = inl (rw h refl)
run_unprivileged c g xqset arg h = inl (rw h refl)
run_unprivileged c g hqset arg h = inl (rw h refl)

switch_unprivileged :
    (c : Caller) (g : Globals) (n arg : ℕ) (o : Option Cmd)
    → decode n ≡ o
    → c.capable ≡ false
    → ((switch c o g arg).globals ≡ g) ⊎ (n ≡ number reset)
switch_unprivileged c g n arg none e h = inl refl
switch_unprivileged c g n arg (some cmd) e h = elim (run_unprivileged c g cmd arg h) [
  | inl same ↦ inl same
  | inr is ↦ inr (decode_sound n cmd e ∙ ap number is)
]

-- Without CAP_SYS_ADMIN no call changes the defaults, whatever its number and argument, but a reset.
pub ioctl_unprivileged :
    (c : Caller) (g : Globals) (n arg : ℕ)
    → c.capable ≡ false
    → ((scull_ioctl c g n arg).globals ≡ g) ⊎ (n ≡ number reset)
unfolding scull_ioctl
ioctl_unprivileged c g n arg h =
    let s = switch_unprivileged c g n arg (decode n) refl h in ground arith

decode_unknown : (n : ℕ) (o : Option Cmd) → decode n ≡ o → ((cmd : Cmd) → n ≢ number cmd) → o ≡ none
decode_unknown n none e ne = refl
decode_unknown n (some cmd) e ne = absurd (ne cmd (decode_sound n cmd e))

-- A number that is none of the thirteen commands changes nothing, puts nothing, and is refused.
pub ioctl_unknown :
    (c : Caller) (g : Globals) (n arg : ℕ)
    → ((cmd : Cmd) → n ≢ number cmd)
    → let r = scull_ioctl c g n arg in
      ((r.result ≡ err enotty) ⊎ (r.result ≡ err efault)) × (r.globals ≡ g) × (r.put ≡ none)
unfolding scull_ioctl
ioctl_unknown c g n arg ne = rw (decode_unknown n (decode n) refl ne) (ground arith)

module _ (c c' : Caller) (g : Globals) (arg arg' : ℕ) (cap : c.capable ≡ true)
    (ok_ : c.access_ok ≡ true) (ok' : c'.access_ok ≡ true) where
  -- What a privileged caller tells is what any caller then queries, as an `int`, for either
  -- default; telling one leaves the other. The addresses that the callers pass are accepted.
  pub query-tell :
      let gq = (scull_ioctl c g (number tquantum) arg).globals in
      let gs = (scull_ioctl c g (number tqset) arg).globals in
      ((scull_ioctl c' gq (number qquantum) arg').result ≡ ok (to_int arg))
      × ((scull_ioctl c' gs (number qqset) arg').result ≡ ok (to_int arg))
      × ((scull_ioctl c' gq (number qqset) arg').result ≡ ok g.qset_n)
      × ((scull_ioctl c' gs (number qquantum) arg').result ≡ ok g.quantum)
  unfolding run
  query-tell =
      rw
        (
          scull_ioctl-number c g tquantum arg ok_,
          scull_ioctl-number c g tqset arg ok_,
          cap,
          scull_ioctl-number c' (with_quantum g (to_int arg)) qquantum arg' ok',
          scull_ioctl-number c' (with_qset g (to_int arg)) qqset arg' ok',
          scull_ioctl-number c' (with_quantum g (to_int arg)) qqset arg' ok',
          scull_ioctl-number c' (with_qset g (to_int arg)) qquantum arg' ok',
        )
        (refl, refl, refl, refl)

-- Where a privileged caller's `int` can be read and written, an exchange of the quantum sets it
-- and hands back the old one; an exchange of the array length sets it, and hands back the new
-- one.
pub ioctl_exchange :
    (c : Caller) (g : Globals) (arg : ℕ)
    → c.capable ≡ true
    → c.access_ok ≡ true
    → c.get_fails ≡ false
    → c.put_fails ≡ false
    → let q = scull_ioctl c g (number xquantum) arg in
      let s = scull_ioctl c g (number xqset) arg in
      (q.globals ≡ with_quantum g c.got)
      × (q.put ≡ some g.quantum)
      × (s.globals ≡ with_qset g c.got)
      × (s.put ≡ some c.got)
unfolding run
ioctl_exchange c g arg cap ok_ h p =
    rw (scull_ioctl-number c g xquantum arg ok_, scull_ioctl-number c g xqset arg ok_, cap, h, p)
      (refl, refl, refl, refl)
