-- ===== src/Directory/Remove.antt =====
-- `ecall_fs_unlink` and `ecall_fs_rmdir`.
use sgx_secfs.Base.{
  ℕ, Option, none, some, List, [], ◌∷◌, Bytes, length, ◌==◌, nat_eq, bytes_eq, if◌then◌else◌,
}
use sgx_secfs.Uuid.{null_uuid}
use sgx_secfs.Metadata.Codecs.{dirnode_codec, filenode_codec}
use sgx_secfs.Metadata.Dirnode.{Dirnode, Dirent, t_dt_dir}
use sgx_secfs.Metadata.Filenode.{Filenode, Chunk}
use sgx_secfs.Storage.Saved.{Loaded}
use sgx_secfs.Enclave.{Env, Enclave, load_metadata, save_metadata, remove_metadata}
use sgx_secfs.Enclave.Errno
use sgx_secfs.Enclave.Inode.{dirnode, new_dirnode, new_filenode}
use sgx_secfs.Directory.{
  find_dirent, erase_dirent, missing, not_directory, directory, find_parent, put_object,
}

module _ (env : Env) where
  -- The entry goes from the parent, which is saved.
  abbrev pub drop_entry : Bytes → ℕ → ℕ → Dirnode → Enclave env → Enclave env × ℕ
  drop_entry name parent id d s =
      let d' = record d { dirent = erase_dirent name d.dirent } in
      let (s', saved) = save_metadata env dirnode_codec d' (put_object parent id (dirnode d') s) in
      (s', if saved then 0 else Errno.eacces)

  -- Chunks that cannot be removed are skipped.
  unfoldable pub remove_chunks : List Chunk → Enclave env → Enclave env
  remove_chunks [] s = s
  remove_chunks (c ∷ cs) s =
      remove_chunks cs (if c.uuid == null_uuid then s else (remove_metadata env c.uuid s).0)

  abbrev pub remove_file :
      Bytes → ℕ → ℕ → Dirnode → Dirent → Loaded Filenode → Enclave env → Option (Enclave env × ℕ)
  remove_file name parent id d dent (Loaded.loaded f) s =
      let (s', removed) = remove_metadata env dent.uuid s in
      some (
        if removed
        then drop_entry name parent id d (remove_chunks f.chunks s')
        else (s', Errno.eacces))
  remove_file name parent id d dent Loaded.failed s = some (s, Errno.eacces)
  remove_file name parent id d dent Loaded.fault s = none

  unfoldable pub ecall_fs_unlink : ℕ → Bytes → Enclave env → Option (Enclave env × ℕ)
  ecall_fs_unlink parent name s = elim (find_parent parent s) [
    | missing ↦ some (s, Errno.enoent)
    | not_directory ↦ some (s, Errno.enotdir)
    | directory id d ↦ elim (find_dirent name d.dirent) [
      | none ↦ some (s, Errno.enoent)
      | some dent ↦
          if dent.kind == t_dt_dir
          then some (s, Errno.eisdir)
          else remove_file name parent id d dent
              (load_metadata env filenode_codec (new_filenode dent.uuid) s) s
    ]
  ]

  abbrev pub remove_directory :
      Bytes → ℕ → ℕ → Dirnode → Dirent → Loaded Dirnode → Enclave env → Option (Enclave env × ℕ)
  remove_directory name parent id d dent (Loaded.loaded child) s =
      let (s', removed) = remove_metadata env dent.uuid s in
      if length child.dirent == 0
      then some (if removed then drop_entry name parent id d s' else (s', Errno.eacces))
      else some (s, Errno.enotempty)
  remove_directory name parent id d dent Loaded.failed s = some (s, Errno.eacces)
  remove_directory name parent id d dent Loaded.fault s = none

  unfoldable pub ecall_fs_rmdir : ℕ → Bytes → Enclave env → Option (Enclave env × ℕ)
  ecall_fs_rmdir parent name s = elim (find_parent parent s) [
    | missing ↦ some (s, Errno.enoent)
    | not_directory ↦ some (s, Errno.enotdir)
    | directory id d ↦ elim (find_dirent name d.dirent) [
      | none ↦ some (s, Errno.enoent)
      | some dent ↦
          if dent.kind == t_dt_dir
          then remove_directory name parent id d dent
              (load_metadata env dirnode_codec (new_dirnode dent.uuid) s) s
          else some (s, Errno.enotdir)
    ]
  ]
