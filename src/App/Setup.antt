-- ===== src/App/Setup.antt =====
-- app/volume.cpp and `LocalStorage::load_config`. `none` is the result `false`; where there is an
-- `Option` around the result, its `none` is the exception that a base directory that is not a string
-- throws and nothing catches. Messages are not modelled.
use sgx_secfs.Base.{
  ℕ, ◌-◌, ◌^◌, ◌%◌, Option, none, some, [], ◌∷◌, Bytes, ◌>>=◌, ◌>>◌, guard, ◌==◌, nat_eq, bytes_eq,
  length, if◌then◌else◌, ℤ, pos, negsuc, replicate,
}
use sgx_secfs.Base.Int.{to_int32}
use sgx_secfs.Base.Dict
use sgx_secfs.Uuid.{Uuid, null_uuid}
use sgx_secfs.Metadata.Ecp.{Keypair}
use sgx_secfs.ChunkStore
use sgx_secfs.Enclave.{Env, Enclave}
use sgx_secfs.Volume.{Created, ecall_calc_volkey_size, ecall_create_volume, ecall_mount_volume}
use sgx_secfs.App.{
  Field, Libs, Machine, Volume, superinfo, uid, volume_key, key_path, public_key_path, enclave_path,
  storage, type, config, base_dir,
}

abbrev pub local_type : Bytes
local_type = b'l' ∷ b'o' ∷ b'c' ∷ b'a' ∷ b'l' ∷ []

-- A number of the configuration as an `int`.
abbrev pub as_int : ℤ → ℤ
as_int (pos n) = to_int32 n
as_int (negsuc n) = to_int32 (2 ^ 32 - 1 - n % 2 ^ 32)

-- An `int` as the `size_t` that the ECALL takes.
abbrev pub as_size : ℤ → ℕ
as_size (pos n) = n
as_size (negsuc n) = 2 ^ 64 - 1 - n

module _ {env : Env} (l : Libs env) where
  open l.json use {member, as_string, as_integer, is_object, of_string, of_integer}

  abbrev pub string_at : Field → l.json.Json → Option Bytes
  string_at f c = do v ← member f c; as_string v

  abbrev pub object_at : Field → l.json.Json → Option l.json.Json
  object_at f c = do v ← member f c; guard (is_object v) >> some v

  -- The base directory, which is converted to a string without a test.
  abbrev base_dir_of : Option l.json.Json → Option (Option Bytes)
  base_dir_of none = some none
  base_dir_of (some v) = do path ← as_string v; some (some path)

  -- `LocalStorage::load_config`: the base directory, which is not taken from that of the
  -- configuration.
  unfoldable pub load_config_local : l.json.Json → Option (Option Bytes)
  load_config_local c = if is_object c then base_dir_of (member base_dir c) else some none

  abbrev instance_of : Option Bytes → Option l.json.Json → Option (Option Bytes)
  unfolding load_config_local
  instance_of none own = some none
  instance_of (some kind) none = some none
  instance_of (some kind) (some own) =
      if kind == local_type then load_config_local own else some none

  -- `__load_api_instance` and the look at `api->init()`: the base directory of the backend.
  unfoldable pub load_api_instance : l.json.Json → Option (Option Bytes)
  unfolding load_config_local
  load_api_instance c = instance_of (string_at type c) (object_at config c)

  -- The result of `api->init()` for a backend that is there.
  abbrev initialised : l.backend.Disk → Option Bytes → Option Bytes
  initialised disk none = none
  initialised disk (some path) =
      if l.backend.init (l.backend.open_at disk path) == 0 then none else some path

  abbrev init_instance : l.backend.Disk → Option l.json.Json → Option (Option Bytes)
  unfolding load_api_instance
  init_instance disk none = some none
  init_instance disk (some c) = do r ← load_api_instance c; some (initialised disk r)

  unfoldable pub init_api_instance : Volume l → l.backend.Disk → Option (Option Bytes)
  unfolding load_api_instance
  init_api_instance v disk = init_instance disk (object_at storage v.config)

  -- What the steps before `__init_api_instance` give, with the base directory that it gives.
  abbrev with_path : {A : Type 0} → Option (Bytes → A) → Option (Option Bytes) → Option (Option A)
  with_path none path = some none
  with_path (some f) none = none
  with_path (some f) (some none) = some none
  with_path (some f) (some (some path)) = some (some (f path))

  unfoldable pub init_enclave : Volume l → Option Bytes
  init_enclave v = do
    path ← string_at enclave_path v.config
    guard (l.create_enclave (l.join v.base_dir path))
    some (l.join v.base_dir path)

  abbrev copy_key : Keypair env.ecp → Option (Keypair env.ecp)
  copy_key k = do q ← env.ecp.copy k.q; grp ← l.group_copy k.grp; some (record { grp = grp; q = q })

  unfoldable pub load_key : Volume l → Option (Keypair env.ecp)
  load_key v = do
    path ← string_at key_path v.config
    pk ← l.pk_parse_keyfile (l.join v.base_dir path)
    guard pk.is_eckey
    k ← copy_key pk.ec
    guard l.mpi_copies
    some k

  unfoldable pub load_pubkey : Volume l → Option (Keypair env.ecp)
  load_pubkey v = do
    path ← string_at public_key_path v.config
    pk ← l.pk_parse_public_keyfile (l.join v.base_dir path)
    guard pk.is_eckey
    copy_key pk.ec

  -- A new enclave, over the backend at a base directory.
  abbrev pub started : Machine l → Bytes → Enclave env
  started m path = record {
    inode_map = [];
    next_object = 0;
    superinfo = none;
    volkey = [];
    local_cache = ChunkStore.empty;
    storage = l.backend.open_at m.disk path;
    drawn = m.drawn;
  }

  -- What an enclave leaves outside of it.
  abbrev pub left_by : Machine l → Bytes → Enclave env → Machine l
  left_by m path e = record m { disk = l.backend.store m.disk path e.storage; drawn = e.drawn }

  -- What `mount_volume` has when it makes the ECALL.
  pub record MountArgs : Type 0 where
    pub uid : ℕ
    pub sp_uuid : Uuid
    pub sealed_volkey : Bytes
    pub key : Keypair env.ecp
    pub path : Bytes

  unfoldable pub mount_parts : Volume l → Option (Bytes → MountArgs)
  unfolding load_key init_enclave
  mount_parts v = do
    text ← string_at superinfo v.config
    number ← member uid v.config
    n ← as_integer number
    sp_uuid ← l.uuid_parse text
    encoded ← string_at volume_key v.config
    sealed ← l.base64_decode encoded
    key ← load_key v
    _ ← init_enclave v
    some (λ path. record {
      uid = as_size (as_int n);
      sp_uuid = sp_uuid;
      sealed_volkey = sealed;
      key = key;
      path = path;
    })

  unfoldable pub mount_args : Volume l → Machine l → Option (Option MountArgs)
  unfolding mount_parts init_api_instance
  mount_args v m = with_path (mount_parts v) (init_api_instance v m.disk)

  -- The enclave of a volume that is mounted, and the base directory of its backend.
  abbrev pub mount_result :
      Machine l → Bytes → Option (Enclave env × ℕ) → Machine l × Option (Bytes × Enclave env)
  mount_result m path none = (m, none)
  mount_result m path (some (e, err)) =
      (left_by m path e, if err == 0 then some (path, e) else none)

  abbrev mount_with : Machine l → Option MountArgs → Machine l × Option (Bytes × Enclave env)
  mount_with m none = (m, none)
  mount_with m (some a) =
      if l.carried 0
      then mount_result m a.path (
          ecall_mount_volume env a.uid a.key a.sp_uuid a.sealed_volkey (length a.sealed_volkey)
            (started m a.path))
      else (m, none)

  unfoldable pub mount_volume :
      Volume l → Machine l → Option (Machine l × Option (Bytes × Enclave env))
  unfolding mount_args
  mount_volume v m = do a ← mount_args v m; some (mount_with m a)

  pub record CreateArgs : Type 0 where
    pub pubkey : Keypair env.ecp
    pub path : Bytes

  unfoldable pub create_parts : Volume l → Option (Bytes → CreateArgs)
  unfolding load_pubkey init_enclave
  create_parts v = do
    pubkey ← load_pubkey v
    _ ← init_enclave v
    some (λ path. record { pubkey = pubkey; path = path })

  unfoldable pub create_args : Volume l → Machine l → Option (Option CreateArgs)
  unfolding create_parts init_api_instance
  create_args v m = with_path (create_parts v) (init_api_instance v m.disk)

  -- A buffer that the ECALL did not write is cleared.
  abbrev uuid_or_null : Option Uuid → Uuid
  uuid_or_null none = null_uuid
  uuid_or_null (some u) = u

  abbrev sealed_or_zeros : ℕ → Option Bytes → Bytes
  sealed_or_zeros n none = replicate n 0
  sealed_or_zeros n (some bs) = bs

  -- The members that a new volume adds to its configuration.
  unfoldable pub with_volume : Uuid → Bytes → l.json.Json → l.json.Json
  with_volume u sealed c =
      l.json.set volume_key (of_string (l.base64_encode sealed)) (
        l.json.set uid (of_integer (pos 1)) (l.json.set superinfo (of_string (l.uuid_unparse u)) c))

  abbrev pub create_result :
      Volume l → Machine l → Bytes → Option (Enclave env × Created) → Machine l × Option (Volume l)
  create_result v m path none = (m, none)
  create_result v m path (some (e, r)) = (
    left_by m path e,
    if r.err == 0
        then some (record v {
          config =
              with_volume (uuid_or_null r.sp_uuid)
                (sealed_or_zeros (ecall_calc_volkey_size env) r.sealed_volkey) v.config;
        })
        else none,
  )

  abbrev create_with : Volume l → Machine l → Option CreateArgs → Machine l × Option (Volume l)
  create_with v m none = (m, none)
  create_with v m (some a) =
      if l.carried 0
      then (if l.carried 1
          then create_result v m a.path
              (ecall_create_volume env a.pubkey (ecall_calc_volkey_size env) (started m a.path))
          else (m, none))
      else (m, none)

  unfoldable pub create_volume : Volume l → Machine l → Option (Machine l × Option (Volume l))
  unfolding create_args with_volume
  create_volume v m = do a ← create_args v m; some (create_with v m a)

  unfoldable pub load_config : Bytes → Machine l → Option (Volume l)
  unfolding Dict.lookup
  load_config file m = do
    text ← Dict.lookup file m.files
    c ← l.json.parse text
    some (record { config = c; base_dir = l.parent_path file })

  unfoldable pub dump_config : Bytes → Volume l → Machine l → Option (Machine l)
  unfolding Dict.insert
  dump_config file v m =
      if l.may_write file
      then some (record m { files = Dict.insert file (l.json.dump v.config) m.files })
      else none
