-- ===== src/Directory/Removed.antt =====
-- The directory after `ecall_fs_unlink` and `ecall_fs_rmdir`.
use sgx_secfs.Base.{
  if◌then◌else◌, ◌==◌, bytes_eq, none, ℕ, ◌≡◌, refl, ◌∙◌, some, List, [], ◌∷◌, arith, Bytes, nat_eq,
  bytes_eq, Option-cases, inl, inr, subst,
}
use sgx_secfs.Metadata.Codecs.{dirnode_codec, filenode_codec}
use sgx_secfs.Metadata.Dirnode.{Dirnode, Dirent, t_dt_dir}
use sgx_secfs.Metadata.Filenode.{Filenode, Chunk}
use sgx_secfs.Storage.Saved.{Loaded}
use sgx_secfs.Enclave.{Env, Enclave, load_metadata, remove_metadata}
use sgx_secfs.Enclave.Errno
use sgx_secfs.Enclave.Inode.{dirnode, new_dirnode, new_filenode}
use sgx_secfs.Directory.{error, find_dirent, erase_dirent, directory, find_parent, put_object}
use sgx_secfs.Directory.Lookup.{ecall_fs_lookup, lookup_entry}
use sgx_secfs.Directory.Remove.{
  drop_entry, remove_chunks, remove_file, remove_directory, ecall_fs_unlink, ecall_fs_rmdir,
}
use sgx_secfs.Directory.Names.{DistinctNames, find_dirent-erase_dirent, erase_dirent-DistinctNames}
use sgx_secfs.Directory.State.{
  inode_map-save_metadata, inode_map-remove_metadata, lookup-put_object, find_parent_lem,
}

-- A state in which the directory is the one before without the entry.
abbrev pub IsRemoved : {env : Env} → ℕ → ℕ → Bytes → Dirnode → Enclave env → Type 0
IsRemoved {env = env} parent id name d s =
    (find_parent parent s ≡ directory id (record d { dirent = erase_dirent name d.dirent }))
    × DistinctNames (erase_dirent name d.dirent)
    × (ecall_fs_lookup env parent name s ≡ some (s, error Errno.enoent))
    × ((m : Bytes)
        → find_dirent m (erase_dirent name d.dirent)
          ≡ (if name == m then none else find_dirent m d.dirent))

module _ {env : Env} (parent id : ℕ) (name : Bytes) (d : Dirnode) where
  drop_entry-IsRemoved :
      (s : Enclave env)
      → DistinctNames d.dirent
      → IsRemoved parent id name d (drop_entry env name parent id d s).0
  unfolding ecall_fs_lookup lookup_entry
  drop_entry-IsRemoved s v =
      let s' = (drop_entry env name parent id d s).0 in
      let d' : Dirnode = record d { dirent = erase_dirent name d.dirent } in
      let found : find_parent parent s' ≡ directory id d' = find_parent_lem parent id d' s' (
        rw (inode_map-save_metadata dirnode_codec d' (put_object parent id (dirnode d') s))
          (lookup-put_object parent parent id (dirnode d') s ∙ ground arith)) in
      (
        found,
        erase_dirent-DistinctNames name d.dirent v,
        ground (arith, find_dirent-erase_dirent name name d.dirent v),
        λ m. find_dirent-erase_dirent name m d.dirent v,
      )

  inode_map-remove_chunks :
      (cs : List Chunk) (s : Enclave env) → (remove_chunks env cs s).inode_map ≡ s.inode_map
  unfolding remove_chunks
  inode_map-remove_chunks [] s = refl
  inode_map-remove_chunks (c ∷ cs) s =
      inode_map-remove_chunks cs _ ∙ ground (arith, inode_map-remove_metadata c.uuid s)

  -- The state in which a removal that succeeds drops the entry.
  remove_file-dropped :
      (dent : Dirent) (l : Loaded Filenode) (s s' : Enclave env)
      → remove_file env name parent id d dent l s ≡ some (s', 0)
      → (t : Enclave env) × ((drop_entry env name parent id d t).0 ≡ s')
  remove_file-dropped dent (Loaded.loaded f) s s' q =
      (remove_chunks env f.chunks (remove_metadata env dent.uuid s).0, ground arith)
  remove_file-dropped dent Loaded.failed s s' q = ground arith
  remove_file-dropped dent Loaded.fault s s' q = ground arith

  remove_directory-dropped :
      (dent : Dirent) (l : Loaded Dirnode) (s s' : Enclave env)
      → remove_directory env name parent id d dent l s ≡ some (s', 0)
      → (t : Enclave env) × (child : Dirnode) × ((drop_entry env name parent id d t).0 ≡ s')
        × (l ≡ Loaded.loaded child)
        × (child.dirent ≡ [])
  remove_directory-dropped dent (Loaded.loaded f) s s' q =
      ((remove_metadata env dent.uuid s).0, f, ground arith, refl, ground arith)
  remove_directory-dropped dent Loaded.failed s s' q = ground arith
  remove_directory-dropped dent Loaded.fault s s' q = ground arith

  -- When `unlink` succeeds on a directory with distinct names, the directory has lost that entry
  -- and no other, its names are still distinct, and a lookup of the name finds nothing.
  pub ecall_fs_unlink-IsRemoved :
      (s s' : Enclave env)
      → find_parent parent s ≡ directory id d
      → DistinctNames d.dirent
      → ecall_fs_unlink env parent name s ≡ some (s', 0)
      → IsRemoved parent id name d s'
  unfolding ecall_fs_unlink
  ecall_fs_unlink-IsRemoved s s' p v q = elim (Option-cases (find_dirent name d.dirent)) [
    | inl e ↦ ground arith
    | inr (dent, e) ↦
        let (t, eq) =
          remove_file-dropped dent (load_metadata env filenode_codec (new_filenode dent.uuid) s) s
            s' (ground arith) in
        subst (λ u. IsRemoved parent id name d u) eq (drop_entry-IsRemoved t v)
  ]

  -- When `rmdir` succeeds on a directory with distinct names, the entry was that of a directory, which
  -- the storage had with no entries, the directory has lost that entry and no other, its names are
  -- still distinct, and a lookup of the name finds nothing.
  pub ecall_fs_rmdir-IsRemoved :
      (s s' : Enclave env)
      → find_parent parent s ≡ directory id d
      → DistinctNames d.dirent
      → ecall_fs_rmdir env parent name s ≡ some (s', 0)
      → IsRemoved parent id name d s'
        × (dent : Dirent) × (child : Dirnode) × (find_dirent name d.dirent ≡ some dent)
        × (dent.kind ≡ t_dt_dir)
        × (load_metadata env dirnode_codec (new_dirnode dent.uuid) s ≡ Loaded.loaded child)
        × (child.dirent ≡ [])
  unfolding ecall_fs_rmdir
  ecall_fs_rmdir-IsRemoved s s' p v q = elim (Option-cases (find_dirent name d.dirent)) [
    | inl e ↦ ground arith
    | inr (dent, e) ↦
        let (t, child, eq, l, empty) =
          remove_directory-dropped dent (load_metadata env dirnode_codec (new_dirnode dent.uuid) s)
            s s' (ground arith) in
        (
          subst (λ u. IsRemoved parent id name d u) eq (drop_entry-IsRemoved t v),
          dent,
          child,
          e,
          ground arith,
          l,
          empty,
        )
  ]
