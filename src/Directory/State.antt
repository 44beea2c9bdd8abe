-- ===== src/Directory/State.antt =====
-- What the saves and the writes to the map change.
use sgx_secfs.Base.{ℕ, ◌≡◌, refl, some, ◌==◌, nat_eq, if◌then◌else◌}
use sgx_secfs.Base.Dict
use sgx_secfs.Uuid.{Uuid}
use sgx_secfs.Metadata.Codec.{Codec}
use sgx_secfs.Metadata.Dirnode.{Dirnode}
use sgx_secfs.Enclave.{Env, Enclave, save_metadata, remove_metadata, gen_rand}
use sgx_secfs.Enclave.Inode.{Inode, dirnode}
use sgx_secfs.Directory.{find_parent, put_object, directory}

module _ {env : Env} where
  -- A save changes the storage alone.
  pub inode_map-save_metadata :
      {A : Type 0} (m : Codec A) (a : A) (s : Enclave env)
      → (save_metadata env m a s).0.inode_map ≡ s.inode_map
  unfolding save_metadata
  inode_map-save_metadata m a s = refl

  pub superinfo-save_metadata :
      {A : Type 0} (m : Codec A) (a : A) (s : Enclave env)
      → (save_metadata env m a s).0.superinfo ≡ s.superinfo
  unfolding save_metadata
  superinfo-save_metadata m a s = refl

  pub next_object-save_metadata :
      {A : Type 0} (m : Codec A) (a : A) (s : Enclave env)
      → (save_metadata env m a s).0.next_object ≡ s.next_object
  unfolding save_metadata
  next_object-save_metadata m a s = refl

  pub next_object-put_object :
      (ino id : ℕ) (i : Inode) (s : Enclave env)
      → (put_object ino id i s).next_object ≡ s.next_object
  unfolding put_object
  next_object-put_object ino id i s = refl

  pub inode_map-remove_metadata :
      (u : Uuid) (s : Enclave env) → (remove_metadata env u s).0.inode_map ≡ s.inode_map
  unfolding remove_metadata
  inode_map-remove_metadata u s = refl

  pub inode_map-gen_rand : (s : Enclave env) → (gen_rand env s).1.inode_map ≡ s.inode_map
  unfolding gen_rand
  inode_map-gen_rand s = refl

  pub lookup-put_object :
      (j ino id : ℕ) (i : Inode) (s : Enclave env)
      → Dict.lookup j (put_object ino id i s).inode_map
        ≡ (if j == ino then some (record { id = id; inode = i }) else Dict.lookup j s.inode_map)
  unfolding put_object
  lookup-put_object j ino id i s =
      Dict.lookup-insert j ino (record { id = id; inode = i }) s.inode_map

  -- The parent of a handler, by the object that the map has for it.
  pub find_parent_lem :
      (parent id : ℕ) (d : Dirnode) (s : Enclave env)
      → Dict.lookup parent s.inode_map ≡ some (record { id = id; inode = dirnode d })
      → find_parent parent s ≡ directory id d
  unfolding find_parent
  find_parent_lem parent id d s h = rw h
