-- ===== src/Reachable/Mounts.antt =====
-- `ecall_mount_volume` keeps the state sound.
use sgx_secfs.Base.{
  ℕ, ◌≡◌, Option, none, some, [], nat_eq, length, Bool-cases, inl, inr, Bytes, ◌==◌, ltb, ◌&&◌,
}
use sgx_secfs.Uuid.{Uuid}
use sgx_secfs.ChunkStore
use sgx_secfs.ChunkStore.Refinement.History.{Reach-IsValid, start}
use sgx_secfs.Metadata.Ecp.{Keypair}
use sgx_secfs.Metadata.Superinfo.{Superinfo}
use sgx_secfs.Metadata.Dirnode.{Dirnode}
use sgx_secfs.Metadata.Usertable.{Usertable}
use sgx_secfs.Storage.Saved.{Loaded}
use sgx_secfs.Enclave.{Env, Enclave}
use sgx_secfs.Enclave.Inode.{dirnode}
use sgx_secfs.Volume.{
  volkey_aad, volkeysize, ecall_mount_volume, unsealed, mount_superinfo, mount_users, mount_root,
}
use sgx_secfs.Reachable.Objects.{insert-new}
use sgx_secfs.Reachable.Covered.{Fits, insert-AllOf}
use sgx_secfs.Reachable.Names.{IsSound, Holds-if, Keeps}

module _ {env : Env} {Q : Type 0} where
  mount_root-Keeps :
      (r : Loaded Dirnode) (s : Enclave env)
      → IsSound (Fits Q) s
      → Keeps (Fits Q) (mount_root env r s)
  mount_root-Keeps (Loaded.loaded root) s v = elim (Bool-cases (root.ino == 1)) [
    | inl e ↦ rw e (record {
      objects = insert-new s.next_object 1 (dirnode root) s.inode_map v.objects;
      caches = v.caches;
      each =
          insert-AllOf _ 1 (record { id = s.next_object; inode = dirnode root }) s.inode_map v.each
            (λ q. tt);
    })
    | inr e ↦ rw e v
  ]
  mount_root-Keeps Loaded.failed s v = v
  mount_root-Keeps Loaded.fault s v = tt

  mount_users-Keeps :
      (sp : Superinfo) (r : Loaded (Usertable env.ecp)) (s : Enclave env)
      → IsSound (Fits Q) s
      → Keeps (Fits Q) (mount_users env sp r s)
  mount_users-Keeps sp (Loaded.loaded t) s v = mount_root-Keeps _ s v
  mount_users-Keeps sp Loaded.failed s v = v
  mount_users-Keeps sp Loaded.fault s v = tt

  mount_superinfo-Keeps :
      (u : Uuid) (r : Loaded Superinfo) (s : Enclave env)
      → IsSound (Fits Q) s
      → Keeps (Fits Q) (mount_superinfo env u r s)
  mount_superinfo-Keeps u (Loaded.loaded sp) s v =
      mount_users-Keeps sp _ _ (record { objects = v.objects; caches = v.caches; each = v.each })
  mount_superinfo-Keeps u Loaded.failed s v = record {
    objects = v.objects;
    caches = v.caches;
    each = v.each;
  }
  mount_superinfo-Keeps u Loaded.fault s v = tt

  unsealed-Keeps :
      (u : Uuid) (r : Option (Bytes × Bytes)) (s : Enclave env)
      → IsSound (Fits Q) s
      → Keeps (Fits Q) (unsealed env u r s)
  unsealed-Keeps u none s v = v
  unsealed-Keeps u (some (aad, key)) s v =
      mount_superinfo-Keeps u _ _ (record { objects = v.objects; caches = v.caches; each = v.each })

  pub ecall_mount_volume-Keeps :
      (uid : ℕ) (key : Keypair env.ecp) (u : Uuid) (sealed : Bytes) (size : ℕ) (s : Enclave env)
      → IsSound (Fits Q) s
      → Keeps (Fits Q) (ecall_mount_volume env uid key u sealed size s)
  unfolding ecall_mount_volume
  ecall_mount_volume-Keeps uid key u sealed size s v =
      let mac = env.sgx.get_add_mac_txt_len sealed in
      let len = env.sgx.get_encrypt_txt_len sealed in
      Holds-if _ ((mac == length volkey_aad) && (len == volkeysize)) _ _
        (Holds-if _ (ltb size mac) _ _ v
          (Holds-if _ (ltb size len) _ _ v (unsealed-Keeps u (env.sgx.unseal_data sealed) s v)))
        v

  -- An enclave that was just made.
  pub fresh-IsSound :
      (s : Enclave env) → s.inode_map ≡ [] → s.local_cache ≡ ChunkStore.empty → IsSound (Fits Q) s
  fresh-IsSound s a b = record {
    objects = rw a tt;
    caches = rw b (Reach-IsValid start);
    each = rw a tt;
  }
