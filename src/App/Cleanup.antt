-- ===== src/App/Cleanup.antt =====
-- What the program of app/main.cpp undoes when it ends.
use sgx_secfs.Base.{
  ℕ, ◌≡◌, refl, ◌⊎◌, inl, inr, true, Option, none, some, List, [], ◌∷◌, ◌++◌, Bytes, arith,
  Option-cases, Bool-cases,
}
use sgx_secfs.Enclave.{Env, Enclave}
use sgx_secfs.Fuse.{FuseReply, Runtime}
use sgx_secfs.Fuse.Operations.{secfs_init}
use sgx_secfs.App.{Libs, Machine, Volume}
use sgx_secfs.App.Setup.{load_config, mount_volume}
use sgx_secfs.App.Session.{
  SecfsOptions, FuseLib, Event, created, signaled, mounted, daemonized, looped, unmounted,
  unsignaled, destroyed, new_session, Exit, destroy_session, exit, enter_loop, run_session,
  run_mounted, run_volume, run_options, main, serve,
}

-- The steps that were done, in the one order that there is.
pub data Done : List Event → Type 0 where
  nothing : Done []
  session : Done (created ∷ [])
  handlers : Done (created ∷ signaled ∷ [])
  mount : Done (created ∷ signaled ∷ mounted ∷ [])
  daemon : Done (created ∷ signaled ∷ mounted ∷ daemonized ∷ [])
  loop :
      (want : ℕ) (replies : List (List FuseReply))
      → Done (created ∷ signaled ∷ mounted ∷ daemonized ∷ looped want replies ∷ [])

-- The last step that has to be undone is undone first.
abbrev pub undo : List Event → List Event
undo [] = []
undo (created ∷ es) = undo es ++ destroyed ∷ []
undo (signaled ∷ es) = undo es ++ unsignaled ∷ []
undo (mounted ∷ es) = undo es ++ unmounted ∷ []
undo (_ ∷ es) = undo es

-- The steps of a run came to the end of the loop.
abbrev pub Served : List Event → Type 0
Served es =
    (want : ℕ) × (replies : List (List FuseReply)) × (es
      ≡ created ∷ signaled ∷ mounted ∷ daemonized ∷ looped want replies ∷ [])

module _ {env : Env} (l : Libs env) (x : FuseLib) (rt : Runtime) where
  abbrev pub Clean : Exit l → Type 0
  Clean r =
      (es : List Event) × Done es
      × (r.events ≡ es ++ undo es)
      × (r.code ≡ 0 → (x.show_help ≡ true) ⊎ ((x.show_version ≡ true) ⊎ Served es))

  early : (m : Machine l) (r : Exit l) → exit l x rt 1 new_session [] m ≡ some r → Clean r
  unfolding destroy_session
  early m r e = ([], nothing, ground arith, λ z. absurd (ground arith))

  enter_loop-Clean :
      (writeback : ℕ) (path : Bytes) (e : Enclave env) (m : Machine l) (r : Exit l)
      → enter_loop l x rt writeback
          (record { se = true; signaled = true; mounted = true })
          (created ∷ signaled ∷ mounted ∷ daemonized ∷ [])
          path
          e
          m
        ≡ some r
      → Clean r
  unfolding destroy_session
  enter_loop-Clean writeback path e m r q =
      elim (Option-cases
        (serve rt x.requests (record { enclave = e; called = 0; dirvecs = []; next_dirvec = 0 }))) [
          | inl f ↦ absurd (ground arith)
          | inr ((s, replies), f) ↦
              let want = secfs_init writeback x.capable x.want in
              (
                created ∷ signaled ∷ mounted ∷ daemonized ∷ looped want replies ∷ [],
                loop want replies,
                ground arith,
                λ z. inr (inr (want, replies, refl)),
              )
        ]

  run_session-Clean :
      (writeback : ℕ) (path : Bytes) (e : Enclave env) (m : Machine l) (r : Exit l)
      → run_session l x rt writeback path e m ≡ some r
      → Clean r
  unfolding destroy_session
  run_session-Clean writeback path e m r q = elim (Bool-cases x.session_new) [
    | inr off ↦ early m r (ground arith)
    | inl ok1 ↦ elim (Bool-cases x.set_signal_handlers) [
      | inr off ↦ (created ∷ [], session, ground arith, λ z. absurd (ground arith))
      | inl ok2 ↦ elim (Bool-cases x.session_mount) [
        | inr off ↦ (created ∷ signaled ∷ [], handlers, ground arith, λ z. absurd (ground arith))
        | inl ok3 ↦ elim (Bool-cases x.daemonize) [
          | inr off ↦
              (created ∷ signaled ∷ mounted ∷ [], mount, ground arith, λ z. absurd (ground arith))
          | inl ok4 ↦ enter_loop-Clean writeback path e m r (ground arith)
        ]
      ]
    ]
  ]

  run_mounted-Clean :
      (writeback : ℕ) (m : Machine l × Option (Bytes × Enclave env)) (r : Exit l)
      → run_mounted l x rt writeback m ≡ some r
      → Clean r
  run_mounted-Clean writeback (m, none) r q = early m r q
  run_mounted-Clean writeback (m, some (path, e)) r q = run_session-Clean writeback path e m r q

  run_volume-Clean :
      (writeback : ℕ) (v : Option (Volume l)) (m : Machine l) (r : Exit l)
      → run_volume l x rt writeback v m ≡ some r
      → Clean r
  run_volume-Clean writeback none m r q = early m r q
  run_volume-Clean writeback (some v) m r q = elim (Option-cases (mount_volume l v m)) [
    | inl f ↦ absurd (ground arith)
    | inr (result, f) ↦ run_mounted-Clean writeback result r (ground arith)
  ]

  run_options-Clean :
      (o : Option SecfsOptions) (m : Machine l) (r : Exit l)
      → run_options l x rt o m ≡ some r
      → Clean r
  run_options-Clean none m r q = early m r q
  run_options-Clean (some o) m r q = elim (Option-cases o.volume_config) [
    | inl f ↦ early m r (ground arith)
    | inr (file, f) ↦ run_volume-Clean o.writeback (load_config l file m) m r (ground arith)
  ]

  -- However far the program gets, the steps that it did are those of the one order there is: the
  -- session is made, the signal handlers are set, the file system is mounted, it goes to the
  -- background, and the loop is run. Before it ends it undoes each of them that has to be undone
  -- once, the last one first, and nothing else. It returns 0 only after the loop or for a help or
  -- version text.
  pub main-Clean : (m : Machine l) (r : Exit l) → main l x rt m ≡ some r → Clean r
  unfolding main destroy_session
  main-Clean m r q = elim (Bool-cases x.parse_cmdline) [
    | inr off ↦ early m r (ground arith)
    | inl ok ↦ elim (Bool-cases x.show_help) [
      | inl help ↦ ([], nothing, ground arith, λ z. inl help)
      | inr off ↦ elim (Bool-cases x.show_version) [
        | inl version ↦ ([], nothing, ground arith, λ z. inr (inl version))
        | inr off' ↦ elim (Option-cases x.mountpoint) [
          | inl f ↦ early m r (ground arith)
          | inr (point, f) ↦ run_options-Clean x.opt_parse m r (ground arith)
        ]
      ]
    ]
  ]
