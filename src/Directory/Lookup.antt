-- ===== src/Directory/Lookup.antt =====
-- `ecall_fs_lookup`.
use sgx_secfs.Base.{ℕ, suc, Option, none, some, Bytes, ◌==◌, nat_eq, bytes_eq, if◌then◌else◌}
use sgx_secfs.Base.Dict
use sgx_secfs.Base.Dict.{Dict}
use sgx_secfs.Metadata.Codecs.{dirnode_codec, filenode_codec}
use sgx_secfs.Metadata.Dirnode.{Dirent, t_dt_dir, t_dt_reg}
use sgx_secfs.Storage.Saved.{Loaded}
use sgx_secfs.Enclave.{Env, Enclave, load_metadata}
use sgx_secfs.Enclave.Errno
use sgx_secfs.Enclave.Inode.{
  Inode, Object, dirnode, filenode, dump_stat, ino_of, add_ref, new_dirnode, new_filenode,
}
use sgx_secfs.Directory.{
  Reply, error, find_dirent, missing, not_directory, directory, find_parent, put_object,
}

module _ (env : Env) where
  -- The end of `ecall_fs_lookup`: `inode` is the object of the entry, under its number in the map.
  abbrev pub answer_lookup : Dirent → Object → Enclave env → Enclave env × Reply
  answer_lookup dent o s =
      if ino_of o.inode == dent.ino
      then (
        put_object dent.ino o.id (add_ref o.inode) s,
        record { err = 0; ino = dent.ino; stat = some (dump_stat o.inode) },
      )
      else (s, error Errno.enoent)

  -- A loaded inode gets into the map before its number is compared.
  abbrev pub enter_loaded :
      {A : Type 0} → Dirent → (A → Inode) → Loaded A → Enclave env → Option (Enclave env × Reply)
  enter_loaded dent wrap (Loaded.loaded a) s =
      let o : Object = record { id = s.next_object; inode = wrap a } in
      some (
        answer_lookup dent o
          (put_object dent.ino o.id o.inode (record s { next_object = suc s.next_object })))
  enter_loaded dent wrap Loaded.failed s = some (s, error Errno.enonet)
  enter_loaded dent wrap Loaded.fault s = none

  unfoldable pub lookup_new : Dirent → Enclave env → Option (Enclave env × Reply)
  lookup_new dent s =
      if dent.kind == t_dt_dir
      then enter_loaded dent dirnode (load_metadata env dirnode_codec (new_dirnode dent.uuid) s) s
      else if dent.kind == t_dt_reg
      then enter_loaded dent filenode (load_metadata env filenode_codec (new_filenode dent.uuid) s)
          s
      else some (s, error Errno.enoent)

  unfoldable pub lookup_entry : Option Dirent → Enclave env → Option (Enclave env × Reply)
  unfolding lookup_new Dict.lookup
  lookup_entry none s = some (s, error Errno.enoent)
  lookup_entry (some dent) s = elim (Dict.lookup dent.ino s.inode_map) [
    | some o ↦ some (answer_lookup dent o s)
    | none ↦ lookup_new dent s
  ]

  unfoldable pub ecall_fs_lookup : ℕ → Bytes → Enclave env → Option (Enclave env × Reply)
  unfolding lookup_entry
  ecall_fs_lookup parent name s = elim (find_parent parent s) [
    | missing ↦ some (s, error Errno.enoent)
    | not_directory ↦ some (s, error Errno.enoent)
    | directory id d ↦ lookup_entry (find_dirent name d.dirent) s
  ]
