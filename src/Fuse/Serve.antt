-- ===== src/Fuse/Serve.antt =====
-- app/main.cpp: the table `secfs_oper` of the handlers.
use sgx_secfs.Base.{ℕ, Option, List, Bytes}
use sgx_secfs.Enclave.{Env}
use sgx_secfs.Fuse.{HostStat, FileInfo, FuseReply, Runtime, Session}
use sgx_secfs.Fuse.Operations.{
  secfs_lookup, secfs_forget, secfs_getattr, secfs_setattr, secfs_mkdir, secfs_unlink, secfs_rmdir,
  secfs_open, secfs_read, secfs_write, secfs_flush, secfs_access, secfs_create, secfs_fallocate,
}
use sgx_secfs.Fuse.Directories.{secfs_opendir, secfs_readdir, secfs_releasedir}

-- The requests but `init`, which is not one that gets a reply.
pub data Request : Type 0 where
  lookup : ℕ → Bytes → Request
  forget : ℕ → ℕ → Request
  getattr : ℕ → Request
  setattr : ℕ → HostStat → ℕ → Request
  mkdir : ℕ → Bytes → ℕ → Request
  unlink : ℕ → Bytes → Request
  rmdir : ℕ → Bytes → Request
  open_file : ℕ → FileInfo → Request
  read : ℕ → ℕ → ℕ → Request
  write : ℕ → Bytes → ℕ → Request
  flush : ℕ → Request
  opendir : ℕ → FileInfo → Request
  readdir : ℕ → ℕ → FileInfo → Request
  releasedir : FileInfo → Request
  access : ℕ → ℕ → Request
  create : ℕ → Bytes → ℕ → FileInfo → Request
  fallocate : ℕ → ℕ → ℕ → Request

module _ {env : Env} (rt : Runtime) where
  unfoldable pub secfs_oper : Request → Session env → Option (Session env × List FuseReply)
  secfs_oper (lookup parent name) = secfs_lookup rt parent name
  secfs_oper (forget ino nlookup) = secfs_forget rt ino nlookup
  secfs_oper (getattr ino) = secfs_getattr rt ino
  secfs_oper (setattr ino attr to_set) = secfs_setattr rt ino attr to_set
  secfs_oper (mkdir parent name mode) = secfs_mkdir rt parent name mode
  secfs_oper (unlink parent name) = secfs_unlink rt parent name
  secfs_oper (rmdir parent name) = secfs_rmdir rt parent name
  secfs_oper (open_file ino fi) = secfs_open rt ino fi
  secfs_oper (read ino size off) = secfs_read rt ino size off
  secfs_oper (write ino buf off) = secfs_write rt ino buf off
  secfs_oper (flush ino) = secfs_flush rt ino
  secfs_oper (opendir ino fi) = secfs_opendir rt ino fi
  secfs_oper (readdir size offset fi) = secfs_readdir rt size offset fi
  secfs_oper (releasedir fi) = secfs_releasedir rt fi
  secfs_oper (access ino mask) = secfs_access rt ino mask
  secfs_oper (create parent name mode fi) = secfs_create rt parent name mode fi
  secfs_oper (fallocate ino offset length) = secfs_fallocate rt ino offset length
