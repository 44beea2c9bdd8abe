-- ===== src/Reachable/Lookups.antt =====
-- `ecall_fs_lookup`, `ecall_fs_forget`, `ecall_fs_unlink` and `ecall_fs_rmdir` keep the state
-- sound.
use sgx_secfs.Base.{
  ℕ, zero, suc, ◌≡◌, refl, ◌∙◌, Option, none, some, List, [], ◌∷◌, arith, nat_eq, bytes_eq, length,
  Option-cases, Bool-cases, inl, inr, Bytes, ℤ, pos, negsuc, ◌==◌,
}
use sgx_secfs.Base.Dict
use sgx_secfs.Uuid.{null_uuid}
use sgx_secfs.Metadata.Codecs.{dirnode_codec, filenode_codec}
use sgx_secfs.Metadata.Dirnode.{Dirnode, Dirent, t_dt_dir, t_dt_reg}
use sgx_secfs.Metadata.Filenode.{Chunk, Filenode}
use sgx_secfs.Storage.Saved.{Loaded}
use sgx_secfs.Enclave.{Env, Enclave, load_metadata, remove_metadata}
use sgx_secfs.Enclave.Inode.{
  Inode, Object, dirnode, filenode, add_ref, with_refcount, refcount_of, new_dirnode, new_filenode,
  ino_of,
}
use sgx_secfs.Directory.{find_dirent, find_parent, put_object}
use sgx_secfs.Directory.State.{lookup-put_object, inode_map-remove_metadata}
use sgx_secfs.Directory.Lookup.{
  answer_lookup, enter_loaded, lookup_new, lookup_entry, ecall_fs_lookup,
}
use sgx_secfs.Directory.Remove.{
  drop_entry, remove_chunks, remove_file, ecall_fs_unlink, remove_directory, ecall_fs_rmdir,
}
use sgx_secfs.Directory.Attributes.{drop_refs, remaining, ecall_fs_forget}
use sgx_secfs.Reachable.Objects.{erase-Distinct}
use sgx_secfs.Storage.Saved.Loads.{Loads}
use sgx_secfs.Reachable.Covered.{
  Fits, IsCovered, lookup-AllOf, erase-AllOf, with_refcount-IsCovered, add_ref-IsCovered,
  load_metadata-IsCovered,
}
use sgx_secfs.Reachable.Names.{
  IsSound, Holds, Keeps, Found-cases, find_parent-lookup, put_object-IsSound, new_object-IsSound,
  save_metadata-IsSound, remove_metadata-IsSound,
}

any_directory : (r : Loaded Dirnode) → Loads (λ d. IsCovered (dirnode d)) r
any_directory (Loaded.loaded d) = tt
any_directory Loaded.failed = tt
any_directory Loaded.fault = tt

module _ {env : Env} where
  pub inode_map-remove_chunks :
      (cs : List Chunk) (s : Enclave env) → (remove_chunks env cs s).inode_map ≡ s.inode_map
  unfolding remove_chunks
  inode_map-remove_chunks [] s = refl
  inode_map-remove_chunks (c ∷ cs) s = elim (Bool-cases (c.uuid == null_uuid)) [
    | inl e ↦ rw (e, remove_chunks) (inode_map-remove_chunks cs s)
    | inr e ↦
        rw (e, remove_chunks) (inode_map-remove_chunks cs _ ∙ inode_map-remove_metadata c.uuid s)
  ]

module _ {env : Env} {Q : Type 0} where
  answer_lookup-IsSound :
      (dent : Dirent) (o : Object) (s : Enclave env)
      → IsSound (Fits Q) s
      → Dict.lookup dent.ino s.inode_map ≡ some o
      → IsSound (Fits Q) (answer_lookup env dent o s).0
  answer_lookup-IsSound dent o s v l = elim (Bool-cases (ino_of o.inode == dent.ino)) [
    | inl e ↦ rw e (
        put_object-IsSound dent.ino o.id (add_ref o.inode) o s v l refl
          (λ q. add_ref-IsCovered o.inode (lookup-AllOf _ dent.ino o s.inode_map v.each l q)))
    | inr e ↦ rw e v
  ]

  enter_loaded-Keeps :
      {A : Type 0} (dent : Dirent) (wrap : A → Inode) (r : Loaded A) (s : Enclave env)
      → IsSound (Fits Q) s
      → Loads (λ a. IsCovered (wrap a)) r
      → Keeps (Fits Q) (enter_loaded env dent wrap r s)
  enter_loaded-Keeps dent wrap (Loaded.loaded a) s v c =
      let o : Object = record { id = s.next_object; inode = wrap a } in
      let t = put_object dent.ino o.id o.inode (record s { next_object = suc s.next_object }) in
      answer_lookup-IsSound dent o t (new_object-IsSound dent.ino (wrap a) s.superinfo s v (λ q. c))
        (lookup-put_object dent.ino dent.ino o.id o.inode _ ∙ ground arith)
  enter_loaded-Keeps dent wrap Loaded.failed s v c = v
  enter_loaded-Keeps dent wrap Loaded.fault s v c = tt

  lookup_new-Keeps :
      (dent : Dirent) (s : Enclave env)
      → IsSound (Fits Q) s
      → Keeps (Fits Q) (lookup_new env dent s)
  unfolding lookup_new
  lookup_new-Keeps dent s v = elim (Bool-cases (dent.kind == t_dt_dir)) [
    | inl e ↦
        rw (e, Holds)
          (enter_loaded-Keeps dent dirnode
            (load_metadata env dirnode_codec (new_dirnode dent.uuid) s) s v
            (any_directory (load_metadata env dirnode_codec (new_dirnode dent.uuid) s)))
    | inr e ↦ elim (Bool-cases (dent.kind == t_dt_reg)) [
      | inl f ↦
          rw (e, Holds, f)
            (enter_loaded-Keeps dent filenode
              (load_metadata env filenode_codec (new_filenode dent.uuid) s) s v
              (load_metadata-IsCovered (new_filenode dent.uuid) s))
      | inr f ↦ rw (e, Holds, f) v
    ]
  ]

  lookup_entry-Keeps :
      (e : Option Dirent) (s : Enclave env)
      → IsSound (Fits Q) s
      → Keeps (Fits Q) (lookup_entry env e s)
  unfolding lookup_entry
  lookup_entry-Keeps none s v = v
  lookup_entry-Keeps (some dent) s v = elim (Option-cases (Dict.lookup dent.ino s.inode_map)) [
    | inl l ↦ rw (l, Holds) (lookup_new-Keeps dent s v)
    | inr (o, l) ↦ rw (l, Holds) (answer_lookup-IsSound dent o s v l)
  ]

  pub ecall_fs_lookup-Keeps :
      (parent : ℕ) (name : Bytes) (s : Enclave env)
      → IsSound (Fits Q) s
      → Keeps (Fits Q) (ecall_fs_lookup env parent name s)
  unfolding ecall_fs_lookup
  ecall_fs_lookup-Keeps parent name s v = elim (Found-cases (find_parent parent s)) [
    | inl e ↦ rw (e, Holds) v
    | inr (inl e) ↦ rw (e, Holds) v
    | inr (inr (id, d, e)) ↦ rw (e, Holds) (lookup_entry-Keeps (find_dirent name d.dirent) s v)
  ]

  drop_refs-IsSound :
      (ino : ℕ) (o : Object) (remain : ℤ) (s : Enclave env)
      → IsSound (Fits Q) s
      → Dict.lookup ino s.inode_map ≡ some o
      → IsSound (Fits Q) (drop_refs env ino o remain s)
  drop_refs-IsSound ino o (pos zero) s v l = record {
    objects = erase-Distinct s.next_object ino s.inode_map v.objects;
    caches = v.caches;
    each = erase-AllOf _ ino s.inode_map v.each;
  }
  drop_refs-IsSound ino o (pos (suc n)) s v l =
      put_object-IsSound ino o.id (with_refcount (suc n) o.inode) o s v l refl
        (λ q. with_refcount-IsCovered (suc n) o.inode (lookup-AllOf _ ino o s.inode_map v.each l q))
  drop_refs-IsSound ino o (negsuc n) s v l = record {
    objects = erase-Distinct s.next_object ino s.inode_map v.objects;
    caches = v.caches;
    each = erase-AllOf _ ino s.inode_map v.each;
  }

  pub ecall_fs_forget-IsSound :
      (ino n : ℕ) (s : Enclave env)
      → IsSound (Fits Q) s
      → IsSound (Fits Q) (ecall_fs_forget env ino n s).0
  unfolding ecall_fs_forget
  ecall_fs_forget-IsSound ino n s v = elim (Option-cases (Dict.lookup ino s.inode_map)) [
    | inl l ↦ rw (l, ecall_fs_forget) v
    | inr (o, l) ↦
        rw (l, ecall_fs_forget) (drop_refs-IsSound ino o (remaining (refcount_of o.inode) n) s v l)
  ]

  pub remove_chunks-IsSound :
      (cs : List Chunk) (s : Enclave env)
      → IsSound (Fits Q) s
      → IsSound (Fits Q) (remove_chunks env cs s)
  unfolding remove_chunks
  remove_chunks-IsSound [] s v = v
  remove_chunks-IsSound (c ∷ cs) s v = elim (Bool-cases (c.uuid == null_uuid)) [
    | inl e ↦ rw e (remove_chunks-IsSound cs s v)
    | inr e ↦ rw e (remove_chunks-IsSound cs _ (remove_metadata-IsSound c.uuid s v))
  ]

  drop_entry-IsSound :
      (name : Bytes) (parent id : ℕ) (d : Dirnode) (w : Object) (s : Enclave env)
      → IsSound (Fits Q) s
      → Dict.lookup parent s.inode_map ≡ some w
      → id ≡ w.id
      → IsSound (Fits Q) (drop_entry env name parent id d s).0
  drop_entry-IsSound name parent id d w s v l e =
      save_metadata-IsSound dirnode_codec _ _ (put_object-IsSound parent id _ w s v l e (λ q. tt))

  remove_file-Keeps :
      (name : Bytes) (parent id : ℕ) (d : Dirnode) (dent : Dirent) (r : Loaded Filenode)
      (w : Object) (s : Enclave env)
      → IsSound (Fits Q) s
      → Dict.lookup parent s.inode_map ≡ some w
      → id ≡ w.id
      → Keeps (Fits Q) (remove_file env name parent id d dent r s)
  remove_file-Keeps name parent id d dent Loaded.failed w s v l e = v
  remove_file-Keeps name parent id d dent Loaded.fault w s v l e = tt
  remove_file-Keeps name parent id d dent (Loaded.loaded f) w s v l e =
      let t = (remove_metadata env dent.uuid s).0 in
      let v' = remove_metadata-IsSound dent.uuid s v in
      let same = inode_map-remove_chunks f.chunks t ∙ inode_map-remove_metadata dent.uuid s in
      elim (Bool-cases (remove_metadata env dent.uuid s).1) [
        | inl x ↦
            rw (x, Holds)
              (drop_entry-IsSound name parent id d w (remove_chunks env f.chunks t)
                (remove_chunks-IsSound f.chunks t v') (rw same l) e)
        | inr x ↦ rw (x, Holds) v'
      ]

  pub ecall_fs_unlink-Keeps :
      (parent : ℕ) (name : Bytes) (s : Enclave env)
      → IsSound (Fits Q) s
      → Keeps (Fits Q) (ecall_fs_unlink env parent name s)
  unfolding ecall_fs_unlink
  ecall_fs_unlink-Keeps parent name s v = elim (Found-cases (find_parent parent s)) [
    | inl e ↦ rw (e, Holds) v
    | inr (inl e) ↦ rw (e, Holds) v
    | inr (inr (id, d, e)) ↦
        let (w, l, same) = find_parent-lookup parent id d s e in
        elim (Option-cases (find_dirent name d.dirent)) [
          | inl n ↦ rw (e, Holds, n) v
          | inr (dent, n) ↦ elim (Bool-cases (dent.kind == t_dt_dir)) [
            | inl k ↦ rw (e, Holds, n) (rw (k, Holds) v)
            | inr k ↦
                rw (e, Holds, n)
                  (rw (k, Holds)
                    (remove_file-Keeps name parent id d dent
                      (load_metadata env filenode_codec (new_filenode dent.uuid) s) w s v l same))
          ]
        ]
  ]

  remove_directory-Keeps :
      (name : Bytes) (parent id : ℕ) (d : Dirnode) (dent : Dirent) (r : Loaded Dirnode) (w : Object)
      (s : Enclave env)
      → IsSound (Fits Q) s
      → Dict.lookup parent s.inode_map ≡ some w
      → id ≡ w.id
      → Keeps (Fits Q) (remove_directory env name parent id d dent r s)
  remove_directory-Keeps name parent id d dent Loaded.failed w s v l e = v
  remove_directory-Keeps name parent id d dent Loaded.fault w s v l e = tt
  remove_directory-Keeps name parent id d dent (Loaded.loaded child) w s v l e =
      let t = (remove_metadata env dent.uuid s).0 in
      let v' = remove_metadata-IsSound dent.uuid s v in
      elim (Bool-cases (length child.dirent == 0)) [
        | inr y ↦ rw (y, Holds) v
        | inl y ↦ elim (Bool-cases (remove_metadata env dent.uuid s).1) [
          | inl x ↦
              rw (y, Holds, x)
                (drop_entry-IsSound name parent id d w t v'
                  (rw (inode_map-remove_metadata dent.uuid s) l) e)
          | inr x ↦ rw (y, Holds, x) v'
        ]
      ]

  pub ecall_fs_rmdir-Keeps :
      (parent : ℕ) (name : Bytes) (s : Enclave env)
      → IsSound (Fits Q) s
      → Keeps (Fits Q) (ecall_fs_rmdir env parent name s)
  unfolding ecall_fs_rmdir
  ecall_fs_rmdir-Keeps parent name s v = elim (Found-cases (find_parent parent s)) [
    | inl e ↦ rw (e, Holds) v
    | inr (inl e) ↦ rw (e, Holds) v
    | inr (inr (id, d, e)) ↦
        let (w, l, same) = find_parent-lookup parent id d s e in
        elim (Option-cases (find_dirent name d.dirent)) [
          | inl n ↦ rw (e, Holds, n) v
          | inr (dent, n) ↦ elim (Bool-cases (dent.kind == t_dt_dir)) [
            | inr k ↦ rw (e, Holds, n) (rw (k, Holds) v)
            | inl k ↦
                rw (e, Holds, n)
                  (rw (k, Holds)
                    (remove_directory-Keeps name parent id d dent
                      (load_metadata env dirnode_codec (new_dirnode dent.uuid) s) w s v l same))
          ]
        ]
  ]
