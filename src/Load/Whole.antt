-- ===== src/Load/Whole.antt =====
-- The whole of `scull_init` and `scull_exit` of scull/main.c: the memory devices, the entries under
-- /proc, the pipes, and the access devices.
use mydrivers.Prelude.{
  ℕ, ◌+◌, ◌≡◌, refl, ◌∙◌, ap, Bool, Option, none, some, List, length, if◌then◌else◌,
}
use mydrivers.Kernel.{Errno, Result, ok, Allocator, Mem, ◌>>=◌}
use mydrivers.Scull.Device.{Dev, Globals}
use mydrivers.Pipe.State.{Pipe}
use mydrivers.Access.Copies.{Item}
use mydrivers.ProcFs.{ProcFs}
use mydrivers.Proc.Seq.{scull_create_proc, scull_remove_proc}
use mydrivers.Load.Modules.{Answers, Taken, Loaded, nothing, scull_init, scull_exit}
use mydrivers.Load.Pipes.{
  Pipes, no_pipes, scull_p_init, scull_p_cleanup, buffers, scull_p_cleanup_lem,
  scull_p_init_refused, scull_p_cleanup-none,
}
use mydrivers.Load.Access.{
  Claimed, unclaimed, scull_access_init, scull_access_cleanup, devices_of, scull_access_cleanup_lem,
}
use mydrivers.Load.Resources.{indices, owned_all, AllAreValid, exit_frees}

-- The default numbers of pipes and of access devices
abbrev pub scull_p_nr_devs : ℕ
scull_p_nr_devs = 4

abbrev pub scull_access_nr_devs : ℕ
scull_access_nr_devs = 4

-- What the kernel answers to the parts behind the memory devices.
pub record Rest : Type 0 where
  pub pipes : Answers
  pub regions : ℕ → Option Errno
  pub cdev_fails : ℕ → Bool

-- `debug` says whether the module was built with SCULL_DEBUG.
module _ (fs : ProcFs) (debug : Bool) where
  pub record Module : Type 0 where
    pub main : Taken
    pub entries : fs.Dir
    pub pipes : Pipes
    pub access : Claimed

  -- The end of `scull_init`, which the failure labels skip. The results of both calls are ignored.
  abbrev goes_on : Globals → Rest → Loaded → Option (List Dev) → fs.Dir → Result ℕ × Module
  goes_on g r l none d =
      (l.result, record { main = l.taken; entries = d; pipes = no_pipes; access = unclaimed })
  goes_on g r l (some ds) d = (
    l.result,
    record {
      main = l.taken;
      entries = if debug then scull_create_proc fs d else d;
      pipes = (scull_p_init r.pipes scull_p_nr_devs).1;
      access = (scull_access_init r.regions r.cdev_fails g scull_access_nr_devs 0).1;
    },
  )

  unfoldable pub load : Answers → (scull_nr_devs : ℕ) → Globals → Rest → fs.Dir → Result ℕ × Module
  load a scull_nr_devs g r d =
      let l = scull_init a scull_nr_devs g in goes_on g r l l.taken.devices d

  -- With the access devices, and the list of the terminals' devices, as they are at the unload;
  -- `none` where it follows a pointer that holds nothing.
  unfoldable pub unload :
      Globals → (scull_nr_devs : ℕ) → Module → List Dev → List Item → Mem → Option (Module × Mem)
  unload g scull_nr_devs t devs items m = do
    (main, m1) ← scull_exit g scull_nr_devs t.main m
    (pipes, m2) ← scull_p_cleanup t.pipes m1
    (access, m3) ← scull_access_cleanup g devs items m2
    some (
      record {
        main = main;
        entries = if debug then scull_remove_proc fs t.entries else t.entries;
        pipes = pipes;
        access = access;
      },
      m3,
    )

-- Unloading a module whose memory devices, each with its cdev, access devices and terminals' devices
-- are well formed, and whose blocks are among those that the driver holds, frees every block of the devices and every
-- buffer of the pipes, and nothing else, and leaves the module with nothing; but the items of the
-- terminals' list stay allocated.
pub unload_frees :
    (fs : ProcFs) (debug : Bool) (k : Allocator) (g : Globals) (t : Module fs debug)
    (ds devs : List Dev) (ps : List Pipe) (items : List Item) (m : Mem) (rest : ℕ)
    → t.main.devices ≡ some ds
    → t.main.cdevs ≡ indices (length ds) 0
    → t.pipes.devices ≡ some ps
    → AllAreValid k (record g { object_size = t.main.object_size }) ds
    → AllAreValid k g devs
    → AllAreValid k g (devices_of items)
    → m.live
      ≡ owned_all ds
        + (buffers ps + (owned_all devs + (owned_all (devices_of items) + (length items + rest))))
    → unload fs debug g (length ds) t devs items m
      ≡ some (
        record {
          main = nothing;
          entries = if debug then scull_remove_proc fs t.entries else t.entries;
          pipes = no_pipes;
          access = unclaimed;
        },
        record m { live = length items + rest },
      )
unfolding unload
unload_frees fs debug k g t ds devs ps items m rest e c e' v w x live =
    let last = length items + rest in
    let others = owned_all devs + (owned_all (devices_of items) + last) in
    rw (exit_frees k g t.main ds m (buffers ps + others) e c v live) (
      rw (scull_p_cleanup_lem t.pipes ps (record m { live = buffers ps + others }) others e' refl) (
        rw (scull_access_cleanup_lem k g devs items (record m { live = others }) rest w x refl)
          refl))

nothing_after :
    {A B : Type 0} (o : Option A) (f : A → Option B) → ((x : A) → f x ≡ none) → (o >>= f) ≡ none
nothing_after none f h = refl
nothing_after (some a) f h = h a

unload_without_pipes :
    (fs : ProcFs) (debug : Bool) (g : Globals) (n : ℕ) (t : Module fs debug) (devs : List Dev)
    (items : List Item) (m : Mem)
    → t.pipes.devices ≡ none
    → unload fs debug g n t devs items m ≡ none
unfolding unload
unload_without_pipes fs debug g n t devs items m e =
    nothing_after (scull_exit g n t.main m) _ (λ x. rw (scull_p_cleanup-none t.pipes x.1 e) refl)

-- A load whose memory devices succeed and whose pipes are refused reports success, and the unload
-- crashes.
pub unload-load_without_pipes :
    (fs : ProcFs) (debug : Bool) (a : Answers) (n : ℕ) (g g' : Globals) (r : Rest) (d : fs.Dir)
    (ds devs : List Dev) (items : List Item) (m : Mem) (e : Errno)
    → (scull_init a n g).taken.devices ≡ some ds
    → (scull_init a n g).result ≡ ok 0
    → r.pipes.region ≡ some e
    → let t = load fs debug a n g r d in
      (t.0 ≡ ok 0) × (unload fs debug g' n t.1 devs items m ≡ none)
unfolding load
unload-load_without_pipes fs debug a n g g' r d ds devs items m e loaded fine refused =
    let l = scull_init a n g in
    (
      ap (λ o. (goes_on fs debug g r l o d).0) loaded ∙ fine,
      unload_without_pipes fs debug g' n (load fs debug a n g r d).1 devs items m (
          ap (λ o. (goes_on fs debug g r l o d).1.pipes.devices) loaded
          ∙ scull_p_init_refused r.pipes scull_p_nr_devs e refused),
    )
