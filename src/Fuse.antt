-- ===== src/Fuse.antt =====
-- app/fuse_operations.cpp: the requests of FUSE, each an ECALL and replies. A handler gives the new
-- state and the replies that it sends, in their order.
pub mod Operations
pub mod Directories
pub mod Serve
pub mod Once
pub mod Pages
pub mod Attributes
use sgx_secfs.Base.{
  ℕ, zero, suc, ◌+◌, ◌*◌, ◌/◌, Bool, Option, none, some, List, [], ◌∷◌, Bytes, ◌>>=◌, ◌==◌, nat_eq,
  if◌then◌else◌,
}
use sgx_secfs.Base.Dict.{Dict}
use sgx_secfs.Metadata.Dirnode.{Dirent}
use sgx_secfs.Enclave.{Env, Enclave}
use sgx_secfs.Enclave.Errno
use sgx_secfs.Enclave.Inode.{Stat}

-- `struct timespec` and the fields of `struct stat` that the code sets; the others are 0.
pub record Timespec : Type 0 where
  pub tv_sec : ℕ
  pub tv_nsec : ℕ

pub record HostStat : Type 0 where
  pub st_ino : ℕ
  pub st_mode : ℕ
  pub st_nlink : ℕ
  pub st_size : ℕ
  pub st_atim : Timespec
  pub st_mtim : Timespec

-- `struct fuse_entry_param`, but for the generation, which the code leaves open. The timeouts are
-- in seconds.
pub record EntryParam : Type 0 where
  pub ino : ℕ
  pub attr : HostStat
  pub timeout : ℕ

-- `struct fuse_file_info`: the flags, and the address that `fh` holds.
pub record FileInfo : Type 0 where
  pub flags : ℕ
  pub fh : ℕ

pub data FuseReply : Type 0 where
  reply_err : ℕ → FuseReply
  reply_none : FuseReply
  reply_entry : EntryParam → FuseReply
  reply_create : EntryParam → FileInfo → FuseReply
  reply_attr : HostStat → ℕ → FuseReply
  reply_open : FileInfo → FuseReply
  reply_buf : Bytes → FuseReply
  reply_write : ℕ → FuseReply

-- What the handlers have from libraries: whether the SGX runtime carries out an ECALL, by its
-- number, what `fuse_add_direntry` writes for a name, an inode number, a mode and an offset, and
-- the value of a variable that was not set.
pub record Runtime : Type 0 where
  pub carried : ℕ → Bool
  pub add_direntry : Bytes → ℕ → ℕ → ℕ → Bytes
  pub uninit : ℕ

-- The enclave, the number of ECALLs so far, and the vectors of entries of open directories by their
-- addresses, which are not used again.
pub record Session (env : Env) : Type 0 where
  pub enclave : Enclave env
  pub called : ℕ
  pub dirvecs : Dict ℕ (List Dirent)
  pub next_dirvec : ℕ

abbrev pub zero_time : Timespec
zero_time = record { tv_sec = 0; tv_nsec = 0 }

-- An `[out]` structure that the ECALL did not write is cleared.
abbrev pub statbuf_of : Option Stat → Stat
statbuf_of none = record { ino = 0; mode = 0; nlink = 0; size = 0 }
statbuf_of (some st) = st

-- `copy_statbuf`, where `mode | 00777` sets the nine low bits.
unfoldable pub copy_statbuf : Stat → HostStat
copy_statbuf st = record {
  st_ino = st.ino;
  st_mode = st.mode / 512 * 512 + 511;
  st_nlink = st.nlink;
  st_size = st.size;
  st_atim = zero_time;
  st_mtim = zero_time;
}

module _ {env : Env} (rt : Runtime) where
  abbrev pub returned :
      {R : Type 0} → Session env → Option (Enclave env × R) → Option (Session env × Option R)
  returned s none = none
  returned s (some (e, r)) = some (record s { enclave = e; called = suc s.called }, some r)

  -- An ECALL and its status: `some (s, none)` is a status that is not `SGX_SUCCESS`.
  unfoldable pub ecall :
      {R : Type 0}
      → (Enclave env → Option (Enclave env × R))
      → Session env
      → Option (Session env × Option R)
  ecall f s =
      if rt.carried s.called
      then returned s (f s.enclave)
      else some (record s { called = suc s.called }, none)

-- The three branches after most ECALLs.
abbrev pub reply_or : {R : Type 0} → (R → ℕ) → (R → FuseReply) → Option R → List FuseReply
reply_or err ok none = reply_err Errno.enoent ∷ []
reply_or err ok (some r) = if err r == 0 then ok r ∷ [] else reply_err (err r) ∷ []

-- After an ECALL whose error number is the whole reply.
abbrev pub reply_err_or : Option ℕ → List FuseReply
reply_err_or none = reply_err Errno.enoent ∷ []
reply_err_or (some err) = reply_err err ∷ []
