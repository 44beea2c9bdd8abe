-- ===== src/File/Created.antt =====
-- The file that `ecall_fs_create` makes.
use sgx_secfs.Base.{ℕ, ◌≡◌, ◌<◌, refl, none, some, arith, Bytes, nat_eq, bytes_eq}
use sgx_secfs.Metadata.Layout.{size_mod}
use sgx_secfs.Metadata.Codecs.{filenode_codec}
use sgx_secfs.Metadata.Superinfo.{Superinfo}
use sgx_secfs.Metadata.Dirnode.{Dirnode, Dirent, t_dt_reg}
use sgx_secfs.Metadata.Filenode.{Filenode}
use sgx_secfs.Metadata.Filenode.RoundTrip.{IsFilenode}
use sgx_secfs.Enclave.{Env, Enclave, gen_rand}
use sgx_secfs.Enclave.Inode.{new_filenode, filenode, add_ref}
use sgx_secfs.Directory.{Reply, find_dirent, directory, find_parent}
use sgx_secfs.Directory.Create.{add_node, ecall_fs_create}
use sgx_secfs.Directory.Visible.{lookup-add_node}
use sgx_secfs.File.{find_file}

module _ {env : Env} where
  -- The new file is found under the number that `create` answers with, it is empty, and it can be
  -- stored.
  pub find_file-ecall_fs_create :
      (parent id mode : ℕ) (name : Bytes) (d : Dirnode) (sp : Superinfo) (s : Enclave env)
      → find_parent parent s ≡ directory id d
      → find_dirent name d.dirent ≡ none
      → s.superinfo ≡ some sp
      → sp.max_ino < size_mod
      → (s' : Enclave env) × (r : Reply) × (i : ℕ) × (f : Filenode) × (ecall_fs_create env parent
            name mode s
          ≡ some (s', r))
        × (find_file sp.max_ino s' ≡ some (record { key = sp.max_ino; id = i; node = f }))
        × (f.size ≡ 0)
        × IsFilenode f
  unfolding ecall_fs_create find_file add_ref
  find_file-ecall_fs_create parent id mode name d sp s p n q b =
      let (u, s1) = gen_rand env s in
      let node = record (new_filenode u) { ino = sp.max_ino } in
      let entry : Dirent = record { ino = sp.max_ino; name = name; kind = t_dt_reg; uuid = u } in
      let (s', r) = add_node env filenode_codec filenode node entry parent id d sp s1 in
      (
        s',
        r,
        s1.next_object,
        record node { refcount = 1 },
        ground arith,
        rw (lookup-add_node filenode_codec filenode node entry parent id d sp s1 sp.max_ino)
            (ground arith),
        refl,
        record { ino = b; small = omega arith; covered = refl; whole = tt },
      )
