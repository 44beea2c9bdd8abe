-- ===== src/Tests/Requests.antt =====
-- FUSE requests at a mounted volume.
use sgx_secfs.Base.{nat_eq, ◌≡◌, refl, ◌+◌, some, [], ◌∷◌, length, true, ℕ_discrete, arith}
use sgx_secfs.Base.Dict
use sgx_secfs.Directory.Entries.{ecall_fs_get_dirent, ecall_fs_get_dirent_size}
use sgx_secfs.Directory.{find_parent}
use sgx_secfs.Enclave.Inode.{dirnode, dump_stat}
use sgx_secfs.Fuse.Operations.{secfs_getattr, secfs_setattr}
use sgx_secfs.Fuse.Attributes.{secfs_setattr-secfs_getattr}
use sgx_secfs.Fuse.{
  HostStat, zero_time, reply_attr, FileInfo, FuseReply, Runtime, Session, reply_open, reply_err,
  ecall,
}
use sgx_secfs.Fuse.Directories.{secfs_opendir}
use sgx_secfs.Fuse.Serve.{secfs_oper, opendir}
use sgx_secfs.Fuse.Once.{secfs_oper-once, surplus}
use sgx_secfs.Fuse.Pages.{Lists, secfs_readdir-opendir}
use sgx_secfs.Tests.Surroundings.{sample_env}
use sgx_secfs.Tests.Mounted.{filled, filled_root, filled_found, filled_fits}

-- A runtime that carries out every ECALL, and structures that begin with the name.
abbrev runtime : Runtime
runtime = record {
  carried = λ n. true;
  add_direntry = λ name ino mode off. ino ∷ off ∷ mode ∷ name;
  uninit = 0;
}

abbrev session : Session sample_env
session = record { enclave = filled; called = 0; dirvecs = []; next_dirvec = 0 }

abbrev no_info : FileInfo
no_info = record { flags = 0; fh = 0 }

abbrev after : Session sample_env
after = record session { called = 2 }

-- A directory that is not in the map: two error replies.
two_replies :
    secfs_oper runtime (opendir 7 no_info) session ≡ some (after, reply_err 2 ∷ reply_err 2 ∷ [])
unfolding secfs_oper secfs_opendir ecall ecall_fs_get_dirent find_parent ℕ_discrete
    ecall_fs_get_dirent_size
two_replies = refl

secfs_oper-once_example :
    length {A = FuseReply} (reply_err 2 ∷ reply_err 2 ∷ [])
    ≡ 1 + surplus runtime (opendir 7 no_info) session
secfs_oper-once_example =
    secfs_oper-once runtime (opendir 7 no_info) session after (reply_err 2 ∷ reply_err 2 ∷ [])
      two_replies

secfs_readdir-opendir_example :
    (fi' : FileInfo) × (s' : Session sample_env) × (secfs_opendir runtime 1 no_info session
      ≡ some (s', reply_open fi' ∷ []))
    × (s'.enclave ≡ filled)
    × Lists runtime 5 fi' s' 0 filled_root.dirent
secfs_readdir-opendir_example =
    secfs_readdir-opendir runtime 1 0 5 no_info filled_root session filled_found filled_fits
      (omega arith, omega arith, (omega arith, omega arith, tt)) refl refl

-- A truncation of the root to no bytes.
abbrev no_bytes : HostStat
no_bytes = record {
  st_ino = 0;
  st_mode = 0;
  st_nlink = 0;
  st_size = 0;
  st_atim = zero_time;
  st_mtim = zero_time;
}

root_object : Dict.lookup 1 filled.inode_map ≡ some (record { id = 0; inode = dirnode filled_root })
unfolding Dict.lookup ℕ_discrete
root_object = refl

secfs_setattr-secfs_getattr_example :
    (s' : Session sample_env) × (st st' : HostStat) × (secfs_getattr runtime 1 session
      ≡ some (s', reply_attr st 1 ∷ []))
    × (secfs_setattr runtime 1 no_bytes 8 session ≡ some (s', reply_attr st' 1 ∷ []))
    × (s'.enclave ≡ filled)
    × (st'.st_size ≡ st.st_size)
    × (st'.st_mode ≡ st.st_mode)
    × (st.st_size ≡ (dump_stat (dirnode filled_root)).size)
secfs_setattr-secfs_getattr_example =
    secfs_setattr-secfs_getattr runtime 1 8 no_bytes
      (record { id = 0; inode = dirnode filled_root }) session root_object refl
