-- ===== src/Volume/Mounted.antt =====
-- `ecall_mount_volume` after `ecall_create_volume`.
use sgx_secfs.Base.{
  ℕ, suc, ◌≡◌, refl, sym, ◌∙◌, ◌≢◌, ◌+◌, some, [], Bytes, length, arith, nat_eq, ℕ_discrete,
}
use sgx_secfs.Base.Dict
use sgx_secfs.Uuid.{Uuid, unparse}
use sgx_secfs.Metadata.Codecs.{superinfo_codec}
use sgx_secfs.Metadata.Ecp.{Keypair}
use sgx_secfs.Metadata.Superinfo.{Superinfo}
use sgx_secfs.Metadata.Dirnode.{Dirnode}
use sgx_secfs.Storage.Saved
use sgx_secfs.Storage.Saved.{Loaded}
use sgx_secfs.Enclave.{Env, Enclave, load_metadata}
use sgx_secfs.Enclave.Inode.{dirnode}
use sgx_secfs.Volume.{
  volkey_aad, volkeysize, new_superinfo, volume_superinfo, volume_root, ecall_calc_volkey_size,
  ecall_create_volume, ecall_mount_volume, mount_superinfo,
}
use sgx_secfs.Volume.Laws.{IsEnv}
use sgx_secfs.Volume.Stored.{loads_superinfo, loads_root, loads_users, set_pubkey-IsUser}
use sgx_secfs.Volume.Creation.{
  drawn_uuid, drawn_key, drawn_uuid-IsUuid, Creates, ecall_create_volume-Creates,
}

module _ {env : Env} {Takes : env.host.api.State → Bytes → Type 0} (ok : IsEnv env Takes)
    (pubkey : Keypair env.ecp) (volkey_size : ℕ) (s s' : Enclave env) (u : Uuid)
    (sealed : Bytes) where
  -- The mount unseals the key of a volume that was created, and goes on to its superinfo.
  ecall_mount_volume-Creates :
      (uid : ℕ) (t : Enclave env)
      → Creates ok pubkey volkey_size s s' u sealed
      → ecall_mount_volume env uid pubkey u sealed volkey_size t
        ≡ mount_superinfo env u
            (Saved.load_metadata env.host env.cipher
              (drawn_key env s)
              superinfo_codec
              (new_superinfo (env.host.heap 32) u)
              t.storage)
            (record t { volkey = drawn_key env s })
  unfolding ecall_mount_volume load_metadata ecall_calc_volkey_size
  ecall_mount_volume-Creates uid t c =
      let (un, mac, enc) = ok.sgx.sealed-unseal volkey_aad (drawn_key env s) volkey_size c.seals in
      let key_size = (ok.sgx.random (s.drawn + 3) volkeysize).0 in
      let size_le = ok.sgx.size-le (length volkey_aad) volkeysize in
      rw (mac, enc, key_size, un) (ground (arith, c.room, size_le))

  -- When `ecall_create_volume` succeeds for a user with a key that mbedtls can write, with three
  -- different UUIDs drawn whose files the storage takes, with a host, a cipher and an SGX SDK that
  -- do what they document and with every OCALL carried out, then `ecall_mount_volume` succeeds on
  -- the UUID and the sealed key it returned, in any enclave over the storage it left: the volume key
  -- is the same, the root directory stands in the map under 1 with no entries, and the next inode
  -- number is 2.
  pub ecall_mount_volume-ecall_create_volume :
      (uid : ℕ) (t : Enclave env) (q : env.ecp.Point) (bs : Bytes)
      → env.ecp.copy pubkey.q ≡ some q
      → env.ecp.point_write_binary q ≡ some bs
      → drawn_uuid env s 0 ≢ drawn_uuid env s 1
      → drawn_uuid env s 0 ≢ drawn_uuid env s 2
      → drawn_uuid env s 1 ≢ drawn_uuid env s 2
      → ecall_create_volume env pubkey volkey_size s
        ≡ some (s', record { err = 0; sp_uuid = some u; sealed_volkey = some sealed })
      → Takes s.storage (unparse (drawn_uuid env s 0))
      → Takes s.storage (unparse (drawn_uuid env s 1))
      → Takes s.storage (unparse (drawn_uuid env s 2))
      → t.storage ≡ s'.storage
      → (t' : Enclave env) × (root : Dirnode) × (sp : Superinfo) × (ecall_mount_volume env uid
            pubkey u sealed volkey_size t
          ≡ some (t', 0))
        × (t'.volkey ≡ s'.volkey)
        × (Dict.lookup 1 t'.inode_map ≡ some (record { id = t.next_object; inode = dirnode root }))
        × (root.dirent ≡ [])
        × (t'.superinfo ≡ some sp)
        × (sp.max_ino ≡ 2)
  unfolding load_metadata ℕ_discrete Dict.insert
  ecall_mount_volume-ecall_create_volume uid t q bs cp w ne01 ne02 ne12 e k0 k1 k2 st =
      let c = ecall_create_volume-Creates ok pubkey volkey_size s s' u sealed e in
      let sp_ok = drawn_uuid-IsUuid s 0 ok in
      let ut_ok = drawn_uuid-IsUuid s 1 ok in
      let rt_ok = drawn_uuid-IsUuid s 2 ok in
      let user = set_pubkey-IsUser env.ecp c.superuser c.owner pubkey q bs c.made c.set cp w in
      let l1 =
        loads_superinfo ok _ _ _ _ sp_ok ut_ok rt_ok ne12 (λ x. ne01 (sym x)) (λ x. ne02 (sym x))
          c.owner s.storage c.s1 c.s2 s'.storage c.saves k0 in
      let l2 =
        loads_users ok _ _ _ _ sp_ok ut_ok rt_ok ne12 (λ x. ne01 (sym x)) (λ x. ne02 (sym x))
          c.owner s.storage c.s1 c.s2 s'.storage c.saves user k1 in
      let l3 =
        loads_root ok _ _ _ _ sp_ok ut_ok rt_ok ne12 (λ x. ne01 (sym x)) (λ x. ne02 (sym x)) c.owner
          s.storage c.s1 c.s2 s'.storage c.saves k2 in
      let root = volume_root (drawn_uuid env s 2) in
      let sp =
        volume_superinfo (env.host.heap 32) (drawn_uuid env s 0) (drawn_uuid env s 1)
          (drawn_uuid env s 2) in
      let t' = record t {
        volkey = drawn_key env s;
        superinfo = some sp;
        inode_map = Dict.insert 1 (record { id = t.next_object; inode = dirnode root }) t.inode_map;
        next_object = suc t.next_object;
      } in
      (
        t',
        root,
        sp,
        ecall_mount_volume-Creates uid t c ∙ rw (c.same, st, l1) (rw l2 (rw l3)),
        sym c.key,
        Dict.lookup-insert 1 1 (record { id = t.next_object; inode = dirnode root }) t.inode_map
            ∙ ground arith,
        refl,
        refl,
        refl,
      )
