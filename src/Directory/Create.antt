-- ===== src/Directory/Create.antt =====
-- `ecall_fs_mkdir` and `ecall_fs_create`.
use sgx_secfs.Base.{ℕ, suc, ◌+◌, ◌%◌, Option, none, some, [], ◌∷◌, ◌++◌, Bytes, nat_eq, bytes_eq}
use sgx_secfs.Uuid.{Uuid}
use sgx_secfs.Metadata.Codec.{Codec}
use sgx_secfs.Metadata.Codecs.{superinfo_codec, dirnode_codec, filenode_codec}
use sgx_secfs.Metadata.Layout.{size_mod}
use sgx_secfs.Metadata.Superinfo.{Superinfo}
use sgx_secfs.Metadata.Dirnode.{Dirnode, Dirent, t_dt_dir, t_dt_reg}
use sgx_secfs.Enclave.{Env, Enclave, save_metadata, gen_rand}
use sgx_secfs.Enclave.Errno
use sgx_secfs.Enclave.Inode.{
  Inode, dirnode, filenode, dump_stat, add_ref, new_dirnode, new_filenode,
}
use sgx_secfs.Directory.{
  Reply, error, find_dirent, missing, not_directory, directory, find_parent, put_object,
}

module _ (env : Env) where
  -- The common part of `ecall_fs_mkdir` and `ecall_fs_create`: the entry is added and the parent
  -- saved, the new object enters the map, and the superinfo and the new object are saved. The
  -- results of the three saves are dropped.
  abbrev pub add_node :
      {A : Type 0}
      → Codec A
      → (A → Inode)
      → A
      → Dirent
      → ℕ
      → ℕ
      → Dirnode
      → Superinfo
      → Enclave env
      → Enclave env × Reply
  add_node m wrap node entry parent id d sp s =
      let d' = record d { dirent = d.dirent ++ entry ∷ [] } in
      let s1 = (save_metadata env dirnode_codec d' (put_object parent id (dirnode d') s)).0 in
      let sp' = record sp { max_ino = (sp.max_ino + 1) % size_mod } in
      let s2 =
        put_object sp.max_ino s1.next_object (add_ref (wrap node))
          (record s1 { next_object = suc s1.next_object; superinfo = some sp' }) in
      let s3 = (save_metadata env superinfo_codec sp' s2).0 in
      (
        (save_metadata env m node s3).0,
        record { err = 0; ino = sp.max_ino; stat = some (dump_stat (wrap node)) },
      )

  abbrev pub make_directory :
      Bytes → ℕ → ℕ → Dirnode → Option Superinfo → Uuid × Enclave env → Option (Enclave env × Reply)
  make_directory name parent id d none (u, s) = none
  make_directory name parent id d (some sp) (u, s) = some (
      add_node dirnode_codec dirnode (record (new_dirnode u) { ino = sp.max_ino; name = name })
        (record { ino = sp.max_ino; name = name; kind = t_dt_dir; uuid = u }) parent id d sp s)

  -- The mode of the new directory is not looked at.
  unfoldable pub ecall_fs_mkdir : ℕ → Bytes → ℕ → Enclave env → Option (Enclave env × Reply)
  ecall_fs_mkdir parent name mode s = elim (find_parent parent s) [
    | missing ↦ some (s, error Errno.enoent)
    | not_directory ↦ some (s, error Errno.enotdir)
    | directory id d ↦ elim (find_dirent name d.dirent) [
      | some _ ↦ some (s, error Errno.eexist)
      | none ↦ make_directory name parent id d s.superinfo (gen_rand env s)
    ]
  ]

  abbrev pub make_file :
      Bytes → ℕ → ℕ → Dirnode → Option Superinfo → Uuid × Enclave env → Option (Enclave env × Reply)
  make_file name parent id d none (u, s) = none
  make_file name parent id d (some sp) (u, s) = some (
      add_node filenode_codec filenode (record (new_filenode u) { ino = sp.max_ino })
        (record { ino = sp.max_ino; name = name; kind = t_dt_reg; uuid = u }) parent id d sp s)

  unfoldable pub ecall_fs_create : ℕ → Bytes → ℕ → Enclave env → Option (Enclave env × Reply)
  ecall_fs_create parent name mode s = elim (find_parent parent s) [
    | missing ↦ some (s, error Errno.enoent)
    | not_directory ↦ some (s, error Errno.enotdir)
    | directory id d ↦ elim (find_dirent name d.dirent) [
      | some _ ↦ some (s, error Errno.eexist)
      | none ↦ make_file name parent id d s.superinfo (gen_rand env s)
    ]
  ]
