-- ===== src/Directory/Stored.antt =====
-- The storage after `ecall_fs_mkdir` and `ecall_fs_create`.
use sgx_secfs.Base.{
  ℕ, suc, ◌+◌, ◌%◌, ◌*◌, ◌<◌, ◌≡◌, ◌≢◌, refl, ◌∙◌, arith, true, some, none, List, [], ◌∷◌, ◌++◌,
  Bytes, length, All, length-append,
}
use sgx_secfs.Uuid.{Uuid, IsUuid, unparse}
use sgx_secfs.Uuid.Unparse.{unparse-injective}
use sgx_secfs.Metadata.Codec.{Codec, Reads}
use sgx_secfs.Metadata.Codecs.{
  superinfo_codec, dirnode_codec, filenode_codec, dirnode-Reads, filenode-Reads,
}
use sgx_secfs.Metadata.Layout.{size_mod, IsText}
use sgx_secfs.Metadata.Superinfo.{Superinfo}
use sgx_secfs.Metadata.Dirnode.{Dirnode, Dirent, t_dt_dir, t_dt_reg}
use sgx_secfs.Metadata.Dirnode.RoundTrip.{IsDirnode, IsDirent}
use sgx_secfs.Metadata.Filenode.{Filenode}
use sgx_secfs.Metadata.Filenode.RoundTrip.{IsFilenode}
use sgx_secfs.Storage.Saved
use sgx_secfs.Storage.Saved.{Loaded}
use sgx_secfs.Storage.Saved.Frame.{load_metadata-other, save_metadata-takes}
use sgx_secfs.Storage.Saved.Success.{load_metadata-saved}
use sgx_secfs.Enclave.{Env, Enclave, load_metadata, save_metadata, gen_rand}
use sgx_secfs.Enclave.Inode.{Inode, dirnode, filenode, new_dirnode, new_filenode}
use sgx_secfs.Directory.{Reply, find_dirent, find_parent, directory, put_object}
use sgx_secfs.Directory.Create.{add_node, ecall_fs_mkdir, ecall_fs_create}
use sgx_secfs.Volume.Laws.{IsEnv}

All-snoc :
    (ds : List Dirent) (d : Dirent) → All IsDirent ds → IsDirent d → All IsDirent (ds ++ d ∷ [])
All-snoc [] d v p = (p, tt)
All-snoc (e ∷ ds) d v p = (v.0, All-snoc ds d v.1 p)

-- A directory that has room for one more entry can be stored with it.
added-IsDirnode :
    (d : Dirnode) (e : Dirent)
    → IsDirnode d
    → IsDirent e
    → 272 + 288 * suc (length d.dirent) < size_mod
    → IsDirnode (record d { dirent = d.dirent ++ e ∷ [] })
added-IsDirnode d e v w room = record {
  name = v.name;
  ino = v.ino;
  small = omega (arith, room, length-append d.dirent (e ∷ []));
  whole = All-snoc d.dirent e v.whole w;
}

-- Of the three saves of a new node, those of the directory and of the node succeed, and the storage
-- takes their files.
pub record NodeSaves {env : Env} {Takes : env.host.api.State → Bytes → Type 0}
    (ok : IsEnv env Takes) {A : Type 0} (m : Codec A) (node : A) (entry : Dirent) (d : Dirnode)
    (sp : Superinfo) (s : Enclave env) : Type 0 where
  pub takes_directory : Takes s.storage (unparse d.uuid)
  pub takes_node : Takes s.storage (unparse (m.uuid node))
  pub saved_directory :
      (save_metadata env dirnode_codec (record d { dirent = d.dirent ++ entry ∷ [] }) s).1 ≡ true
  pub saved_node :
      (save_metadata env m node (
        (save_metadata env superinfo_codec
          (record sp { max_ino = (sp.max_ino + 1) % size_mod })
          (save_metadata env dirnode_codec
            (record d { dirent = d.dirent ++ entry ∷ [] })
            s).0).0)).1
      ≡ true

module _ {env : Env} {Takes : env.host.api.State → Bytes → Type 0} (ok : IsEnv env Takes)
    {A : Type 0} (m : Codec A) (wrap : A → Inode) (node fresh result : A) (entry : Dirent)
    (parent id : ℕ) (d : Dirnode) (sp : Superinfo) (s : Enclave env) where
  load_metadata-add_node :
      IsDirnode (record d { dirent = d.dirent ++ entry ∷ [] })
      → Reads m node fresh result
      → m.uuid fresh ≡ m.uuid node
      → unparse d.uuid ≢ unparse sp.uuid
      → unparse d.uuid ≢ unparse (m.uuid node)
      → NodeSaves ok m node entry d sp s
      → (load_metadata env dirnode_codec
            (new_dirnode d.uuid)
            (add_node env m wrap node entry parent id d sp s).0
          ≡ Loaded.loaded (record d { refcount = 0; dirent = d.dirent ++ entry ∷ [] }))
        × (load_metadata env m fresh (add_node env m wrap node entry parent id d sp s).0
            ≡ Loaded.loaded result)
  unfolding load_metadata save_metadata put_object
  load_metadata-add_node v r same ne_sp ne_node k =
      let d' : Dirnode = record d { dirent = d.dirent ++ entry ∷ [] } in
      let sp' = record sp { max_ino = (sp.max_ino + 1) % size_mod } in
      let st1 = (Saved.save_metadata env.host env.cipher s.volkey dirnode_codec d' s.storage).0 in
      let st2 = (Saved.save_metadata env.host env.cipher s.volkey superinfo_codec sp' st1).0 in
      (
        load_metadata-other env.host ok.storage env.cipher s.volkey dirnode_codec m
              (new_dirnode d.uuid) node st2 ok.up ne_node
            ∙ load_metadata-other env.host ok.storage env.cipher s.volkey dirnode_codec
                superinfo_codec (new_dirnode d.uuid) sp' st1 ok.up ne_sp
            ∙ load_metadata-saved env.host env.cipher s.volkey dirnode_codec d' (new_dirnode d.uuid)
                _ s.storage ok.gcm ok.storage ok.host ok.up
                (dirnode-Reads d' (new_dirnode d.uuid) v) refl k.takes_directory k.saved_directory,
        load_metadata-saved env.host env.cipher s.volkey m node fresh result st2 ok.gcm ok.storage
            ok.host ok.up r same
            (save_metadata-takes env.host ok.storage env.cipher s.volkey superinfo_codec
              superinfo_codec sp' st1 (unparse (m.uuid node))
              (save_metadata-takes env.host ok.storage env.cipher s.volkey dirnode_codec
                dirnode_codec d' s.storage (unparse (m.uuid node)) k.takes_node))
            k.saved_node,
      )

-- The UUID that a handler draws for a new object.
abbrev pub new_uuid : (env : Env) → Enclave env → Uuid
new_uuid env s = env.sgx.read_rand s.drawn 16

-- The objects that `mkdir` and `create` make, and their entry.
abbrev pub new_directory : (env : Env) → Bytes → Superinfo → Enclave env → Dirnode
new_directory env name sp s = record (new_dirnode (new_uuid env s)) {
  ino = sp.max_ino;
  name = name;
}

abbrev pub new_file : (env : Env) → Superinfo → Enclave env → Filenode
new_file env sp s = record (new_filenode (new_uuid env s)) { ino = sp.max_ino }

abbrev pub entry_of : (env : Env) → ℕ → Bytes → Superinfo → Enclave env → Dirent
entry_of env kind name sp s = record {
  ino = sp.max_ino;
  name = name;
  kind = kind;
  uuid = new_uuid env s;
}

-- A new entry of a directory that is and stays small enough to be stored, under a name that fits,
-- with UUIDs that differ.
pub record Creatable (env : Env) (name : Bytes) (d : Dirnode) (sp : Superinfo) (s : Enclave env)
    : Type 0 where
  pub stored : IsDirnode d
  pub room : 272 + 288 * suc (length d.dirent) < size_mod
  pub name_fits : IsText 256 name
  pub ino_fits : sp.max_ino < size_mod
  pub dir_uuid : IsUuid d.uuid
  pub sp_uuid : IsUuid sp.uuid
  pub dir_sp : d.uuid ≢ sp.uuid
  pub dir_new : d.uuid ≢ new_uuid env s

module _ {env : Env} {Takes : env.host.api.State → Bytes → Type 0} (ok : IsEnv env Takes)
    (parent id mode : ℕ) (name : Bytes) (d : Dirnode) (sp : Superinfo) (s : Enclave env) where
  new_uuid-IsUuid : IsUuid (new_uuid env s)
  new_uuid-IsUuid = record {
    long = (ok.sgx.random s.drawn 16).0;
    bytes = (ok.sgx.random s.drawn 16).1;
  }

  -- With surroundings that do what they document, saves of the directory and of the new object
  -- that succeed and a storage that takes their files, `mkdir` of a new name in a directory of the
  -- map that can be stored leaves a storage from which the directory is loaded with the new entry,
  -- and the new directory, under the UUID of the entry, with the next
  -- inode number, its name and no entries.
  pub load_metadata-ecall_fs_mkdir :
      find_parent parent s ≡ directory id d
      → find_dirent name d.dirent ≡ none
      → s.superinfo ≡ some sp
      → Creatable env name d sp s
      → NodeSaves ok dirnode_codec
          (new_directory env name sp s)
          (entry_of env t_dt_dir name sp s)
          d
          sp
          (record s { drawn = suc s.drawn })
      → (s' : Enclave env) × (r : Reply) × (ecall_fs_mkdir env parent name mode s ≡ some (s', r))
        × (load_metadata env dirnode_codec (new_dirnode d.uuid) s'
            ≡ Loaded.loaded (record d {
              refcount = 0;
              dirent =
                  d.dirent
                  ++ record {
                    ino = sp.max_ino;
                    name = name;
                    kind = t_dt_dir;
                    uuid = new_uuid env s;
                  }
                    ∷ [];
            }))
        × (load_metadata env dirnode_codec (new_dirnode (new_uuid env s)) s'
            ≡ Loaded.loaded
                (record (new_dirnode (new_uuid env s)) { ino = sp.max_ino; name = name }))
  unfolding ecall_fs_mkdir gen_rand
  load_metadata-ecall_fs_mkdir p n q c k =
      let u = new_uuid env s in
      let u_ok = new_uuid-IsUuid in
      let node = record (new_dirnode u) { ino = sp.max_ino; name = name } in
      let entry : Dirent = record { ino = sp.max_ino; name = name; kind = t_dt_dir; uuid = u } in
      let s1 = record s { drawn = suc s.drawn } in
      let (s', r) = add_node env dirnode_codec dirnode node entry parent id d sp s1 in
      let entry_ok : IsDirent entry = record {
        name = c.name_fits;
        uuid = u_ok.long;
        ino = c.ino_fits;
        kind = omega arith;
      } in
      let node_ok : IsDirnode node = record {
        name = c.name_fits;
        ino = c.ino_fits;
        small = omega arith;
        whole = tt;
      } in
      let (parent_loads, node_loads) =
        load_metadata-add_node ok dirnode_codec dirnode node (new_dirnode u) node entry parent id d
          sp s1 (added-IsDirnode d entry c.stored entry_ok c.room)
          (dirnode-Reads node (new_dirnode u) node_ok) refl
          (λ e. c.dir_sp (unparse-injective d.uuid sp.uuid c.dir_uuid c.sp_uuid e))
          (λ e. c.dir_new (unparse-injective d.uuid u c.dir_uuid u_ok e)) k in
      (s', r, ground arith, parent_loads, node_loads)

  -- With surroundings that do what they document, saves of the directory and of the new object
  -- that succeed and a storage that takes their files, `create` of a new name in a directory of the
  -- map that can be stored leaves a storage from which the directory is loaded with the new entry,
  -- and the new file, under the UUID of the entry, with the next
  -- inode number and no contents.
  pub load_metadata-ecall_fs_create :
      find_parent parent s ≡ directory id d
      → find_dirent name d.dirent ≡ none
      → s.superinfo ≡ some sp
      → Creatable env name d sp s
      → NodeSaves ok filenode_codec
          (new_file env sp s)
          (entry_of env t_dt_reg name sp s)
          d
          sp
          (record s { drawn = suc s.drawn })
      → (s' : Enclave env) × (r : Reply) × (ecall_fs_create env parent name mode s ≡ some (s', r))
        × (load_metadata env dirnode_codec (new_dirnode d.uuid) s'
            ≡ Loaded.loaded (record d {
              refcount = 0;
              dirent =
                  d.dirent
                  ++ record {
                    ino = sp.max_ino;
                    name = name;
                    kind = t_dt_reg;
                    uuid = new_uuid env s;
                  }
                    ∷ [];
            }))
        × (load_metadata env filenode_codec (new_filenode (new_uuid env s)) s'
            ≡ Loaded.loaded (record (new_filenode (new_uuid env s)) { ino = sp.max_ino }))
  unfolding ecall_fs_create gen_rand
  load_metadata-ecall_fs_create p n q c k =
      let u = new_uuid env s in
      let u_ok = new_uuid-IsUuid in
      let node = record (new_filenode u) { ino = sp.max_ino } in
      let entry : Dirent = record { ino = sp.max_ino; name = name; kind = t_dt_reg; uuid = u } in
      let s1 = record s { drawn = suc s.drawn } in
      let (s', r) = add_node env filenode_codec filenode node entry parent id d sp s1 in
      let entry_ok : IsDirent entry = record {
        name = c.name_fits;
        uuid = u_ok.long;
        ino = c.ino_fits;
        kind = omega arith;
      } in
      let node_ok : IsFilenode node = record {
        ino = c.ino_fits;
        small = omega arith;
        covered = refl;
        whole = tt;
      } in
      let (parent_loads, node_loads) =
        load_metadata-add_node ok filenode_codec filenode node (new_filenode u) node entry parent id
          d sp s1 (added-IsDirnode d entry c.stored entry_ok c.room)
          (filenode-Reads node (new_filenode u) node_ok) refl
          (λ e. c.dir_sp (unparse-injective d.uuid sp.uuid c.dir_uuid c.sp_uuid e))
          (λ e. c.dir_new (unparse-injective d.uuid u c.dir_uuid u_ok e)) k in
      (s', r, ground arith, parent_loads, node_loads)
