-- ===== src/App/Command.antt =====
-- app/cli.cpp: the program that creates a volume. A program gives what it leaves and its exit code;
-- `none` is an
-- uncaught exception or undefined behaviour.
use sgx_secfs.Base.{
  ℕ, Option, none, some, List, [], ◌∷◌, Bytes, ◌>>=◌, ◌==◌, nat_eq, if◌then◌else◌, ltb, length,
}
use sgx_secfs.Enclave.{Env}
use sgx_secfs.App.{Libs, Machine, Volume}
use sgx_secfs.App.Setup.{load_config, create_volume, dump_config}

-- The two arguments that the loop over `getopt_long` sets.
pub record Options : Type 0 where
  pub volume_config : Option Bytes
  pub new_volume_config : Option Bytes

-- The loop, over the options as `getopt_long` gives them: later ones win, unknown ones are skipped.
unfoldable pub read_options : List (ℕ × Bytes) → Options → Options
read_options [] o = o
read_options ((opt, optarg) ∷ opts) o = read_options opts (
    if opt == b'c'
    then record o { volume_config = some optarg }
    else if opt == b'n'
    then record o { new_volume_config = some optarg }
    else o)

abbrev pub or_same : Option Bytes → Bytes → Bytes
or_same none file = file
or_same (some other) file = other

module _ {env : Env} (l : Libs env) where
  abbrev dumped : Machine l → Option (Machine l) → Machine l × ℕ
  dumped m none = (m, 1)
  dumped m (some m') = (m', 0)

  abbrev pub created : Bytes → Machine l × Option (Volume l) → Machine l × ℕ
  created file (m, none) = (m, 1)
  created file (m, some v) = dumped m (dump_config l file v m)

  abbrev create_loaded : Bytes → Option (Volume l) → Machine l → Option (Machine l × ℕ)
  create_loaded file none m = some (m, 1)
  create_loaded file (some v) m = do r ← create_volume l v m; some (created file r)

  abbrev create_from : Options → Machine l → Option (Machine l × ℕ)
  create_from o m = elim o.volume_config [
    | none ↦ some (m, 1)
    | some file ↦ create_loaded (or_same o.new_volume_config file) (load_config l file m) m
  ]

  unfoldable pub cmd_create_volume : List (ℕ × Bytes) → Machine l → Option (Machine l × ℕ)
  unfolding read_options load_config create_volume dump_config
  cmd_create_volume opts m =
      create_from (read_options opts (record { volume_config = none; new_volume_config = none })) m

  -- `main`: `strcpy` overwrites `argv[1]` by `create` and returns it, so that the test always holds.
  -- The copy needs seven bytes.
  unfoldable pub main : Option Bytes → List (ℕ × Bytes) → Machine l → Option (Machine l × ℕ)
  unfolding cmd_create_volume
  main none opts m = none
  main (some word) opts m = if ltb (length word) 6 then none else cmd_create_volume opts m
