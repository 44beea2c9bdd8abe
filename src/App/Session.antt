-- ===== src/App/Session.antt =====
-- app/main.cpp and app/fuse_utils.cpp: the program that mounts a volume and serves it.
use sgx_secfs.Base.{
  ℕ, Bool, true, false, Option, none, some, List, [], ◌∷◌, ◌++◌, Bytes, ◌>>=◌, if◌then◌else◌, not,
}
use sgx_secfs.Enclave.{Env, Enclave}
use sgx_secfs.Fuse.{FuseReply, Runtime}
use sgx_secfs.Fuse
use sgx_secfs.Fuse.Operations.{secfs_init}
use sgx_secfs.Fuse.Serve.{Request, secfs_oper}
use sgx_secfs.App.{Libs, Machine, Volume}
use sgx_secfs.App.Setup.{load_config, mount_volume, left_by}

-- `secfs_options`
pub record SecfsOptions : Type 0 where
  pub volume_config : Option Bytes
  pub writeback : ℕ

-- What libfuse gives: the command line as it parses it, which of its calls succeed, what the
-- connection is capable of and wants, and the requests of the kernel.
pub record FuseLib : Type 0 where
  pub parse_cmdline : Bool
  pub show_help : Bool
  pub show_version : Bool
  pub mountpoint : Option Bytes
  pub opt_parse : Option SecfsOptions
  pub session_new : Bool
  pub set_signal_handlers : Bool
  pub session_mount : Bool
  pub daemonize : Bool
  pub session_loop : Bool
  pub capable : ℕ
  pub want : ℕ
  pub requests : List Request

-- The calls of libfuse that succeed and change something, in their order. `looped` has what the
-- connection wants after `secfs_init`, and the replies to each request.
pub data Event : Type 0 where
  created signaled mounted daemonized : Event
  looped : ℕ → List (List FuseReply) → Event
  unmounted unsignaled destroyed : Event

-- The members of a `FuseSession` that its destructor looks at.
pub record FuseSession : Type 0 where
  pub se : Bool
  pub signaled : Bool
  pub mounted : Bool

abbrev pub new_session : FuseSession
new_session = record { se = false; signaled = false; mounted = false }

-- `FuseSession::~FuseSession`
unfoldable pub destroy_session : FuseSession → List Event
destroy_session f =
    (if f.mounted then unmounted ∷ [] else [])
    ++ ((if f.signaled then unsignaled ∷ [] else []) ++ (if f.se then destroyed ∷ [] else []))

-- A return of `main`: the exit code, what happened, and what the machine is left with. There is none
-- after undefined behaviour or an exception that nothing catches.
pub record Exit {env : Env} (l : Libs env) : Type 0 where
  pub code : ℕ
  pub events : List Event
  pub machine : Machine l

-- The requests of a session, one after another.
unfoldable pub serve :
    {env : Env}
    → Runtime
    → List Request
    → Fuse.Session env
    → Option (Fuse.Session env × List (List FuseReply))
unfolding secfs_oper
serve rt [] s = some (s, [])
serve rt (r ∷ rs) s =
    let rest = serve rt rs in
    do (s', replies) ← secfs_oper rt r s; (s'', more) ← rest s'; some (s'', replies ∷ more)

module _ {env : Env} (l : Libs env) (x : FuseLib) (rt : Runtime) where
  abbrev pub exit : ℕ → FuseSession → List Event → Machine l → Option (Exit l)
  exit code f events m =
      some (record { code = code; events = events ++ destroy_session f; machine = m })

  -- `enter_loop`, with the file system that was mounted.
  abbrev pub enter_loop :
      ℕ → FuseSession → List Event → Bytes → Enclave env → Machine l → Option (Exit l)
  enter_loop writeback f events path e m = do
    (s, replies) ←
        serve rt x.requests (record { enclave = e; called = 0; dirvecs = []; next_dirvec = 0 })
    exit (if x.session_loop then 0 else 1) f
        (events ++ looped (secfs_init writeback x.capable x.want) replies ∷ [])
        (left_by l m path s.enclave)

  -- `main` from the session on.
  abbrev pub run_session : ℕ → Bytes → Enclave env → Machine l → Option (Exit l)
  run_session writeback path e m =
      let f1 = record new_session { se = true } in
      let f2 = record f1 { signaled = true } in
      let f3 = record f2 { mounted = true } in
      if not x.session_new
      then exit 1 new_session [] m
      else if not x.set_signal_handlers
      then exit 1 f1 (created ∷ []) m
      else if not x.session_mount
      then exit 1 f2 (created ∷ signaled ∷ []) m
      else if not x.daemonize
      then exit 1 f3 (created ∷ signaled ∷ mounted ∷ []) m
      else enter_loop writeback f3 (created ∷ signaled ∷ mounted ∷ daemonized ∷ []) path e m

  abbrev pub run_mounted : ℕ → Machine l × Option (Bytes × Enclave env) → Option (Exit l)
  run_mounted writeback (m, none) = exit 1 new_session [] m
  run_mounted writeback (m, some (path, e)) = run_session writeback path e m

  abbrev pub run_volume : ℕ → Option (Volume l) → Machine l → Option (Exit l)
  run_volume writeback none m = exit 1 new_session [] m
  run_volume writeback (some v) m = do result ← mount_volume l v m; run_mounted writeback result

  abbrev pub run_options : Option SecfsOptions → Machine l → Option (Exit l)
  run_options none m = exit 1 new_session [] m
  run_options (some o) m = elim o.volume_config [
    | none ↦ exit 1 new_session [] m
    | some file ↦ run_volume o.writeback (load_config l file m) m
  ]

  unfoldable pub main : Machine l → Option (Exit l)
  unfolding destroy_session serve secfs_init load_config mount_volume
  main m =
      if not x.parse_cmdline
      then exit 1 new_session [] m
      else if x.show_help
      then exit 0 new_session [] m
      else if x.show_version
      then exit 0 new_session [] m
      else elim x.mountpoint [ none ↦ exit 1 new_session [] m | some _ ↦ run_options x.opt_parse m ]
