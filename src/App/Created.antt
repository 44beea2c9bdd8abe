-- ===== src/App/Created.antt =====
-- A volume that the command made, mounted by the program.
use sgx_secfs.Base.{
  pos, ℕ, ◌≡◌, ◌≢◌, ◌≤◌, ◌∙◌, ◌+◌, refl, arith, true, some, [], ◌∷◌, Bytes, length, nat_eq,
  bytes_eq, ℕ_discrete,
}
use sgx_secfs.Base.Dict
use sgx_secfs.Uuid.{Uuid, IsUuid, unparse}
use sgx_secfs.Metadata.Ecp.{Keypair}
use sgx_secfs.Metadata.Dirnode.{Dirnode}
use sgx_secfs.Enclave.{Env, Enclave}
use sgx_secfs.Enclave.Inode.{dirnode}
use sgx_secfs.Volume.{
  volkey_aad, ecall_calc_volkey_size, ecall_create_volume, ecall_mount_volume, volkeysize,
}
use sgx_secfs.Volume.Laws.{IsEnv}
use sgx_secfs.Volume.Creation.{
  drawn_uuid, drawn_key, drawn_uuid-IsUuid, ecall_create_volume-Creates,
}
use sgx_secfs.Volume.Mounted.{ecall_mount_volume-ecall_create_volume}
use sgx_secfs.App.{
  Field, Libs, Machine, Volume, superinfo, uid, volume_key, key_path, enclave_path, storage,
}
use sgx_secfs.App.Laws.{IsLibs}
use sgx_secfs.App.Setup.{
  object_at, load_api_instance, init_api_instance, init_enclave, load_key, load_pubkey, started,
  left_by, mount_parts, mount_args, mount_volume, create_parts, create_args, create_volume,
  with_volume, load_config, dump_config,
}
use sgx_secfs.App.Command.{cmd_create_volume, read_options}

module _ {env : Env} (l : Libs env) where
  -- A configuration from which a volume can be created and mounted: its keys, its enclave and its
  -- storage are there.
  pub record IsConfigured (v : Volume l) (pubkey key : Keypair env.ecp) (path : Bytes)
      : Type 0 where
    pub object : l.json.is_object v.config ≡ true
    pub public_key : load_pubkey l v ≡ some pubkey
    pub private_key : load_key l v ≡ some key
    pub enclave : Bytes
    pub opens : init_enclave l v ≡ some enclave
    pub storage_config : l.json.Json
    pub has_storage : object_at l storage v.config ≡ some storage_config
    pub base_dir : load_api_instance l storage_config ≡ some (some path)

  module _ (laws : IsLibs l) (u : Uuid) (sealed : Bytes) (c : l.json.Json)
      (object : l.json.is_object c ≡ true) where
    -- A new volume leaves the other members of the configuration.
    member-with_volume :
        (f : Field)
        → f ≢ superinfo
        → f ≢ uid
        → f ≢ volume_key
        → l.json.member f (with_volume l u sealed c) ≡ l.json.member f c
    unfolding with_volume
    member-with_volume f a b d =
        let o1 = laws.json.is_object-set superinfo (l.json.of_string (l.uuid_unparse u)) c object in
        let o2 = laws.json.is_object-set uid _ _ o1 in
        laws.json.member-set_ne f volume_key _ _ d o2
        ∙ laws.json.member-set_ne f uid _ _ b o1
        ∙ laws.json.member-set_ne f superinfo _ _ a object

    member-superinfo :
        l.json.member superinfo (with_volume l u sealed c)
        ≡ some (l.json.of_string (l.uuid_unparse u))
    unfolding with_volume
    member-superinfo =
        let o1 = laws.json.is_object-set superinfo (l.json.of_string (l.uuid_unparse u)) c object in
        let o2 = laws.json.is_object-set uid _ _ o1 in
        laws.json.member-set_ne superinfo volume_key _ _ (λ e. cc) o2
        ∙ laws.json.member-set_ne superinfo uid _ _ (λ e. cc) o1
        ∙ laws.json.member-set superinfo _ _ object

    member-uid : l.json.member uid (with_volume l u sealed c) ≡ some (l.json.of_integer (pos 1))
    unfolding with_volume
    member-uid =
        let o1 = laws.json.is_object-set superinfo (l.json.of_string (l.uuid_unparse u)) c object in
        let o2 = laws.json.is_object-set uid _ _ o1 in
        laws.json.member-set_ne uid volume_key _ _ (λ e. cc) o2 ∙ laws.json.member-set uid _ _ o1

    member-volume_key :
        l.json.member volume_key (with_volume l u sealed c)
        ≡ some (l.json.of_string (l.base64_encode sealed))
    unfolding with_volume
    member-volume_key =
        let o1 = laws.json.is_object-set superinfo (l.json.of_string (l.uuid_unparse u)) c object in
        laws.json.member-set volume_key _ _ (laws.json.is_object-set uid _ _ o1)

  -- The configuration with a new volume has all that a mount needs.
  mount_args_lem :
      (laws : IsLibs l) (u : Uuid) (sealed : Bytes) (v : Volume l) (pubkey key : Keypair env.ecp)
      (path : Bytes) (m : Machine l)
      → IsUuid u
      → IsConfigured v pubkey key path
      → l.backend.init (l.backend.open_at m.disk path) ≢ 0
      → mount_args l (record v { config = with_volume l u sealed v.config }) m
        ≡ some
            (some (record { uid = 1; sp_uuid = u; sealed_volkey = sealed; key = key; path = path }))
  unfolding mount_args mount_parts load_key init_enclave init_api_instance
  mount_args_lem laws u sealed v pubkey key path m whole k up =
      let other = member-with_volume laws u sealed v.config k.object in
      let same_key = other key_path (λ e. cc) (λ e. cc) (λ e. cc) in
      let same_enclave = other enclave_path (λ e. cc) (λ e. cc) (λ e. cc) in
      let same_storage = other storage (λ e. cc) (λ e. cc) (λ e. cc) in
      rw
        (
          member-superinfo laws u sealed v.config k.object,
          member-uid laws u sealed v.config k.object,
          member-volume_key laws u sealed v.config k.object,
          laws.json.as_string-of_string (l.uuid_unparse u),
          laws.json.as_string-of_string (l.base64_encode sealed),
          laws.json.as_integer-of_integer,
          laws.uuid u whole,
          laws.base64 sealed,
          same_key,
          same_enclave,
          same_storage,
        )
        (ground (arith, k.private_key, k.opens, k.has_storage, k.base_dir, up))

  -- The ECALL does not look at the key, nor at a size that is not too small.
  mount_any :
      (n n' size size' : ℕ) (key key' : Keypair env.ecp) (u : Uuid) (sealed : Bytes)
      (t : Enclave env)
      → volkeysize ≤ size
      → volkeysize ≤ size'
      → ecall_mount_volume env n key u sealed size t
        ≡ ecall_mount_volume env n' key' u sealed size' t
  unfolding ecall_mount_volume
  mount_any n n' size size' key key' u sealed t a b = ground arith

  created_lem :
      (v : Volume l) (pubkey key : Keypair env.ecp) (path : Bytes) (m : Machine l)
      (s' : Enclave env) (u sealed : Bytes)
      → IsConfigured v pubkey key path
      → l.carried 0 ≡ true
      → l.carried 1 ≡ true
      → l.backend.init (l.backend.open_at m.disk path) ≢ 0
      → ecall_create_volume env pubkey (ecall_calc_volkey_size env) (started l m path)
        ≡ some (s', record { err = 0; sp_uuid = some u; sealed_volkey = some sealed })
      → create_volume l v m
        ≡ some (left_by l m path s', some (record v { config = with_volume l u sealed v.config }))
  unfolding create_volume create_args create_parts init_api_instance
  created_lem v pubkey key path m s' u sealed k c0 c1 up e =
      rw (k.public_key, k.opens, k.has_storage) (ground (arith, k.base_dir, c0, c1, e))

  cmd_create_volume_lem :
      (file new : Bytes) (v v' : Volume l) (m left m1 : Machine l)
      → load_config l file m ≡ some v
      → create_volume l v m ≡ some (left, some v')
      → dump_config l new v' left ≡ some m1
      → cmd_create_volume l ((b'c', file) ∷ (b'n', new) ∷ []) m ≡ some (m1, 0)
  unfolding cmd_create_volume read_options ℕ_discrete
  cmd_create_volume_lem file new v v' m left m1 a b c = rw a (rw b (rw c refl))

  -- A configuration that is written is read back.
  load_config-dump_config :
      (laws : IsLibs l) (file : Bytes) (v : Volume l) (m : Machine l)
      → l.may_write file ≡ true
      → l.parent_path file ≡ v.base_dir
      → let m1 = record m { files = Dict.insert file (l.json.dump v.config) m.files } in
        (dump_config l file v m ≡ some m1) × (load_config l file m1 ≡ some v)
  unfolding dump_config load_config
  load_config-dump_config laws file v m may dir = (
    rw may refl,
    rw (Dict.lookup-insert_same file (l.json.dump v.config) m.files)
        (rw (laws.json.parse-dump v.config) (rw dir refl)),
  )

  -- From a configuration file with keys, an enclave and a storage, whose ECALL creates a volume for
  -- a key that mbedtls can write with three different UUIDs, the command returns 0 and writes a
  -- configuration file that is read back and from which the program mounts the volume: with
  -- libraries that do what they document, with every ECALL and OCALL carried out, with a backend
  -- that takes the three files of the volume, and with the second file in the directory of the
  -- first, the mount has the volume key of the creation and an empty root.
  pub mount_volume-cmd_create_volume :
      {Takes : env.host.api.State → Bytes → Type 0} (ok : IsEnv env Takes) (laws : IsLibs l)
      (file new : Bytes) (v : Volume l) (pubkey key : Keypair env.ecp) (path : Bytes)
      (m : Machine l) (q : env.ecp.Point) (bs : Bytes) (s' : Enclave env) (u : Uuid)
      (sealed : Bytes)
      → load_config l file m ≡ some v
      → IsConfigured v pubkey key path
      → l.parent_path new ≡ v.base_dir
      → l.may_write new ≡ true
      → l.carried 0 ≡ true
      → l.carried 1 ≡ true
      → l.backend.init (l.backend.open_at m.disk path) ≢ 0
      → l.backend.init s'.storage ≢ 0
      → env.ecp.copy pubkey.q ≡ some q
      → env.ecp.point_write_binary q ≡ some bs
      → drawn_uuid env (started l m path) 0 ≢ drawn_uuid env (started l m path) 1
      → drawn_uuid env (started l m path) 0 ≢ drawn_uuid env (started l m path) 2
      → drawn_uuid env (started l m path) 1 ≢ drawn_uuid env (started l m path) 2
      → ecall_create_volume env pubkey (ecall_calc_volkey_size env) (started l m path)
        ≡ some (s', record { err = 0; sp_uuid = some u; sealed_volkey = some sealed })
      → Takes (started l m path).storage (unparse (drawn_uuid env (started l m path) 0))
      → Takes (started l m path).storage (unparse (drawn_uuid env (started l m path) 1))
      → Takes (started l m path).storage (unparse (drawn_uuid env (started l m path) 2))
      → (m1 m2 : Machine l) × (v' : Volume l) × (t : Enclave env) × (root : Dirnode)
        × (cmd_create_volume l ((b'c', file) ∷ (b'n', new) ∷ []) m ≡ some (m1, 0))
        × (load_config l new m1 ≡ some v')
        × (mount_volume l v' m1 ≡ some (m2, some (path, t)))
        × (t.volkey ≡ s'.volkey)
        × (Dict.lookup 1 t.inode_map ≡ some (record { id = 0; inode = dirnode root }))
        × (root.dirent ≡ [])
  unfolding mount_volume ecall_calc_volkey_size ℕ_discrete
  mount_volume-cmd_create_volume ok laws file new v pubkey key path m q bs s' u sealed loaded k dir
        may c0 c1 up up' cp w ne01 ne02 ne12 e k0 k1 k2 =
      let s = started l m path in
      let size = ecall_calc_volkey_size env in
      let c = ecall_create_volume-Creates ok pubkey size s s' u sealed e in
      let whole = drawn_uuid-IsUuid s 0 ok in
      let v' = record v { config = with_volume l u sealed v.config } in
      let left = left_by l m path s' in
      let m1 : Machine l = record left {
        files = Dict.insert new (l.json.dump v'.config) m.files;
      } in
      let same : l.backend.open_at m1.disk path ≡ s'.storage =
        laws.backend.open_at-store m.disk path s'.storage in
      let t = started l m1 path in
      let (t', root, sp, mounted, volkey, found, bare, _, _) =
        ecall_mount_volume-ecall_create_volume ok pubkey size s s' u sealed 1 t q bs cp w ne01 ne02
          ne12 e k0 k1 k2 same in
      let created = created_lem v pubkey key path m s' u sealed k c0 c1 up e in
      let args =
        mount_args_lem laws u sealed v pubkey key path m1 (rw c.same whole) k (rw same up') in
      let long : volkeysize ≤ length sealed = omega (
        arith,
        laws.sealing.length-seal volkey_aad (drawn_key env s) size c.seals,
        (ok.sgx.random (s.drawn + 3) volkeysize).0,
      ) in
      let any =
        mount_any 1 1 (length sealed) size key pubkey u sealed t long
          (omega (arith, ok.sgx.size-le (length volkey_aad) volkeysize)) in
      let (dumped, reloaded) = load_config-dump_config laws new v' left may dir in
      (
        m1,
        left_by l m1 path t',
        v',
        t',
        root,
        cmd_create_volume_lem file new v v' m left m1 loaded created dumped,
        reloaded,
        rw args (rw (c0, any) (rw mounted refl)),
        volkey,
        found,
        bare,
      )
