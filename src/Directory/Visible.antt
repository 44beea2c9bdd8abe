-- ===== src/Directory/Visible.antt =====
-- `ecall_fs_lookup` after `ecall_fs_mkdir` and `ecall_fs_create`.
use sgx_secfs.Base.{
  ℕ, ◌≡◌, refl, sym, ◌∙◌, ◌≢◌, none, some, [], ◌∷◌, ◌++◌, arith, Bytes, ◌==◌, nat_eq, bytes_eq,
  if◌then◌else◌,
}
use sgx_secfs.Base.Dict
use sgx_secfs.Metadata.Codec.{Codec}
use sgx_secfs.Metadata.Codecs.{dirnode_codec, filenode_codec}
use sgx_secfs.Metadata.Superinfo.{Superinfo}
use sgx_secfs.Metadata.Dirnode.{Dirnode, Dirent, t_dt_dir, t_dt_reg}
use sgx_secfs.Enclave.{Env, Enclave, gen_rand}
use sgx_secfs.Enclave.Inode.{
  Inode, Object, new_dirnode, new_filenode, dirnode, filenode, dump_stat, ino_of, add_ref,
}
use sgx_secfs.Directory.{Reply, find_dirent, directory, find_parent, put_object}
use sgx_secfs.Directory.Lookup.{ecall_fs_lookup, lookup_entry}
use sgx_secfs.Directory.Create.{add_node, ecall_fs_mkdir, ecall_fs_create}
use sgx_secfs.Directory.Names.{find_dirent-append}
use sgx_secfs.Directory.State.{
  inode_map-save_metadata, next_object-save_metadata, next_object-put_object, lookup-put_object,
  find_parent_lem,
}

module _ {env : Env} where
  -- A lookup of an entry whose object is in the map.
  pub lookup_known :
      (parent id : ℕ) (name : Bytes) (d : Dirnode) (dent : Dirent) (o : Object) (s : Enclave env)
      (r : Reply)
      → find_parent parent s ≡ directory id d
      → find_dirent name d.dirent ≡ some dent
      → Dict.lookup dent.ino s.inode_map ≡ some o
      → ino_of o.inode ≡ dent.ino
      → r ≡ record { err = 0; ino = dent.ino; stat = some (dump_stat o.inode) }
      → (t : Enclave env) × (ecall_fs_lookup env parent name s ≡ some (t, r))
  unfolding ecall_fs_lookup lookup_entry
  lookup_known parent id name d dent o s r p n l i q =
      (put_object dent.ino o.id (add_ref o.inode) s, ground arith)

module _ {env : Env} {A : Type 0} (m : Codec A) (wrap : A → Inode) (node : A) (entry : Dirent)
    (parent id : ℕ) (d : Dirnode) (sp : Superinfo) (s : Enclave env) where
  pub lookup-add_node :
      (j : ℕ)
      → Dict.lookup j (add_node env m wrap node entry parent id d sp s).0.inode_map ≡ (
          if j == sp.max_ino
          then some (record { id = s.next_object; inode = add_ref (wrap node) })
          else if j == parent
          then some
              (record { id = id; inode = dirnode (record d { dirent = d.dirent ++ entry ∷ [] }) })
          else Dict.lookup j s.inode_map)
  lookup-add_node j = simp (
    inode_map-save_metadata, next_object-save_metadata, next_object-put_object, lookup-put_object,
  )

  -- A lookup of the new name answers with the reply of the handler that made the node.
  lookup-added :
      entry.ino ≡ sp.max_ino
      → ino_of (wrap node) ≡ sp.max_ino
      → ino_of (add_ref (wrap node)) ≡ ino_of (wrap node)
      → dump_stat (add_ref (wrap node)) ≡ dump_stat (wrap node)
      → find_dirent entry.name d.dirent ≡ none
      → parent ≢ sp.max_ino
      → (t : Enclave env) × (ecall_fs_lookup env parent entry.name
            (add_node env m wrap node entry parent id d sp s).0
          ≡ some (t, (add_node env m wrap node entry parent id d sp s).1))
  lookup-added e i k st fresh ne =
      let node' : Object = record { id = s.next_object; inode = add_ref (wrap node) } in
      let d' : Dirnode = record d { dirent = d.dirent ++ entry ∷ [] } in
      lookup_known parent id entry.name d' entry node' _ _
        (find_parent_lem parent id d' _ (lookup-add_node parent ∙ ground arith))
        (find_dirent-append entry.name d.dirent entry fresh ∙ ground arith)
        (lookup-add_node entry.ino ∙ ground arith) (k ∙ i ∙ sym e) (ground arith)

add_ref_ino : (i : Inode) → ino_of (add_ref i) ≡ ino_of i
unfolding add_ref
add_ref_ino (dirnode d) = refl
add_ref_ino (filenode f) = refl

add_ref_stat : (i : Inode) → dump_stat (add_ref i) ≡ dump_stat i
unfolding add_ref dump_stat
add_ref_stat (dirnode d) = refl
add_ref_stat (filenode f) = refl

module _ {env : Env} where
  -- In a directory that the map holds and that has no entry of the name, `mkdir` succeeds whatever
  -- becomes of its saves, gives the next inode number, and a lookup of the name in that directory
  -- answers with the same number and the same attributes.
  pub ecall_fs_lookup-mkdir :
      (parent id mode : ℕ) (name : Bytes) (d : Dirnode) (sp : Superinfo) (s : Enclave env)
      → find_parent parent s ≡ directory id d
      → find_dirent name d.dirent ≡ none
      → s.superinfo ≡ some sp
      → parent ≢ sp.max_ino
      → (s' : Enclave env) × (r : Reply) × (t : Enclave env) × (ecall_fs_mkdir env parent name mode
            s
          ≡ some (s', r))
        × (r.err ≡ 0)
        × (r.ino ≡ sp.max_ino)
        × (ecall_fs_lookup env parent name s' ≡ some (t, r))
  unfolding ecall_fs_mkdir
  ecall_fs_lookup-mkdir parent id mode name d sp s p n q ne =
      let (u, s1) = gen_rand env s in
      let node = record (new_dirnode u) { ino = sp.max_ino; name = name } in
      let entry : Dirent = record { ino = sp.max_ino; name = name; kind = t_dt_dir; uuid = u } in
      let (s', r) = add_node env dirnode_codec dirnode node entry parent id d sp s1 in
      let (t, looked) =
        lookup-added dirnode_codec dirnode node entry parent id d sp s1 refl refl
          (add_ref_ino (dirnode node)) (add_ref_stat (dirnode node)) n ne in
      (s', r, t, ground arith, refl, refl, looked)

  -- In a directory that the map holds and that has no entry of the name, `create` succeeds whatever
  -- becomes of its saves, gives the next inode number, and a lookup of the name in that directory
  -- answers with the same number and the same attributes.
  pub ecall_fs_lookup-create :
      (parent id mode : ℕ) (name : Bytes) (d : Dirnode) (sp : Superinfo) (s : Enclave env)
      → find_parent parent s ≡ directory id d
      → find_dirent name d.dirent ≡ none
      → s.superinfo ≡ some sp
      → parent ≢ sp.max_ino
      → (s' : Enclave env) × (r : Reply) × (t : Enclave env) × (ecall_fs_create env parent name mode
            s
          ≡ some (s', r))
        × (r.err ≡ 0)
        × (r.ino ≡ sp.max_ino)
        × (ecall_fs_lookup env parent name s' ≡ some (t, r))
  unfolding ecall_fs_create
  ecall_fs_lookup-create parent id mode name d sp s p n q ne =
      let (u, s1) = gen_rand env s in
      let node = record (new_filenode u) { ino = sp.max_ino } in
      let entry : Dirent = record { ino = sp.max_ino; name = name; kind = t_dt_reg; uuid = u } in
      let (s', r) = add_node env filenode_codec filenode node entry parent id d sp s1 in
      let (t, looked) =
        lookup-added filenode_codec filenode node entry parent id d sp s1 refl refl
          (add_ref_ino (filenode node)) (add_ref_stat (filenode node)) n ne in
      (s', r, t, ground arith, refl, refl, looked)
