-- ===== src/Fuse/Operations.antt =====
-- app/fuse_operations.cpp: all handlers but those of open directories.
use sgx_secfs.Base.{
  ℕ, ◌+◌, ◌-◌, ◌/◌, ◌%◌, ◌^◌, Bool, Option, some, List, [], ◌∷◌, Bytes, ◌>>=◌, ◌==◌, nat_eq,
  if◌then◌else◌, ◌||◌, not, length,
}
use sgx_secfs.Enclave.{Env}
use sgx_secfs.Directory.{Reply}
use sgx_secfs.Directory.Lookup.{ecall_fs_lookup}
use sgx_secfs.Directory.Create.{ecall_fs_mkdir, ecall_fs_create}
use sgx_secfs.Directory.Remove.{ecall_fs_unlink, ecall_fs_rmdir}
use sgx_secfs.Directory.Attributes.{ecall_fs_forget, ecall_fs_getattr, ecall_fs_access}
use sgx_secfs.File.Read.{ecall_fs_read}
use sgx_secfs.File.Write.{ecall_fs_write}
use sgx_secfs.File.Handlers.{ecall_fs_open, ecall_fs_flush, ecall_fs_fallocate}
use sgx_secfs.Fuse.{
  Timespec, HostStat, EntryParam, FileInfo, FuseReply, Runtime, Session, statbuf_of, copy_statbuf,
  ecall, reply_or, reply_err_or, reply_none, reply_entry, reply_create, reply_attr, reply_open,
  reply_buf, reply_write,
}

-- `FUSE_CAP_WRITEBACK_CACHE`, and `capable & …`
abbrev pub cap_writeback_cache : ℕ
cap_writeback_cache = 2 ^ 16

abbrev pub has_bit : ℕ → ℕ → Bool
has_bit n bit = n / bit % 2 == 1

-- `secfs_init`: what the connection wants, of what it is capable of.
unfoldable pub secfs_init : ℕ → ℕ → ℕ → ℕ
secfs_init writeback capable want =
    if not (writeback == 0)
    then (if has_bit capable cap_writeback_cache
        then (if has_bit want cap_writeback_cache then want else want + cap_writeback_cache)
        else want)
    else want

abbrev pub entry_param : ℕ → Reply → EntryParam
entry_param timeout r = record {
  ino = r.ino;
  attr = copy_statbuf (statbuf_of r.stat);
  timeout = timeout;
}

-- The flags and the values of `utimensat` in `<fuse_lowlevel.h>` and `<sys/stat.h>`.
abbrev pub set_attr_atime : ℕ
set_attr_atime = 2 ^ 4

abbrev pub set_attr_mtime : ℕ
set_attr_mtime = 2 ^ 5

abbrev pub set_attr_atime_now : ℕ
set_attr_atime_now = 2 ^ 7

abbrev pub set_attr_mtime_now : ℕ
set_attr_mtime_now = 2 ^ 8

abbrev pub utime_now : ℕ
utime_now = 2 ^ 30 - 1

abbrev pub utime_omit : ℕ
utime_omit = 2 ^ 30 - 2

-- The time that `setattr` puts into its reply.
abbrev pub set_time : Bool → Bool → Timespec → Timespec
set_time now given t =
    if now
    then record { tv_sec = 0; tv_nsec = utime_now }
    else if given
    then t
    else record { tv_sec = 0; tv_nsec = utime_omit }

unfoldable pub set_times : ℕ → HostStat → HostStat → HostStat
set_times to_set attr st =
    if has_bit to_set set_attr_atime || has_bit to_set set_attr_mtime
    then record st {
      st_atim =
          set_time (has_bit to_set set_attr_atime_now) (has_bit to_set set_attr_atime) attr.st_atim;
      st_mtim =
          set_time (has_bit to_set set_attr_mtime_now) (has_bit to_set set_attr_mtime) attr.st_mtim;
    }
    else st

module _ {env : Env} (rt : Runtime) where
  unfoldable pub secfs_lookup : ℕ → Bytes → Session env → Option (Session env × List FuseReply)
  unfolding ecall copy_statbuf
  secfs_lookup parent name s = do
    (s', r) ← ecall rt (ecall_fs_lookup env parent name) s
    some (s', reply_or (λ r. r.err) (λ r. reply_entry (entry_param 10 r)) r)

  unfoldable pub secfs_forget : ℕ → ℕ → Session env → Option (Session env × List FuseReply)
  unfolding ecall
  secfs_forget ino nlookup s = do
    (s', _) ← ecall rt (λ e. some (ecall_fs_forget env ino nlookup e)) s
    some (s', reply_none ∷ [])

  unfoldable pub secfs_getattr : ℕ → Session env → Option (Session env × List FuseReply)
  unfolding ecall copy_statbuf
  secfs_getattr ino s = do
    (s', r) ← ecall rt (λ e. some (e, ecall_fs_getattr env ino e)) s
    some (s', reply_or (λ r. r.err) (λ r. reply_attr (copy_statbuf (statbuf_of r.stat)) 1) r)

  -- Nothing is set: the size, the mode and the owner of `attr` are not looked at.
  unfoldable pub secfs_setattr :
      ℕ → HostStat → ℕ → Session env → Option (Session env × List FuseReply)
  unfolding ecall copy_statbuf set_times
  secfs_setattr ino attr to_set s = do
    (s', r) ← ecall rt (λ e. some (e, ecall_fs_getattr env ino e)) s
    some (
      s',
      reply_or (λ r. r.err)
          (λ r. reply_attr (set_times to_set attr (copy_statbuf (statbuf_of r.stat))) 1) r,
    )

  unfoldable pub secfs_mkdir : ℕ → Bytes → ℕ → Session env → Option (Session env × List FuseReply)
  unfolding ecall copy_statbuf
  secfs_mkdir parent name mode s = do
    (s', r) ← ecall rt (ecall_fs_mkdir env parent name mode) s
    some (s', reply_or (λ r. r.err) (λ r. reply_entry (entry_param 1 r)) r)

  unfoldable pub secfs_unlink : ℕ → Bytes → Session env → Option (Session env × List FuseReply)
  unfolding ecall
  secfs_unlink parent name s = do
    (s', err) ← ecall rt (ecall_fs_unlink env parent name) s
    some (s', reply_err_or err)

  unfoldable pub secfs_rmdir : ℕ → Bytes → Session env → Option (Session env × List FuseReply)
  unfolding ecall
  secfs_rmdir parent name s = do
    (s', err) ← ecall rt (ecall_fs_rmdir env parent name) s
    some (s', reply_err_or err)

  unfoldable pub secfs_open : ℕ → FileInfo → Session env → Option (Session env × List FuseReply)
  unfolding ecall
  secfs_open ino fi s = do
    (s', err) ← ecall rt (λ e. some (ecall_fs_open env ino fi.flags e)) s
    some (s', reply_or (λ err. err) (λ _. reply_open fi) err)

  unfoldable pub secfs_read : ℕ → ℕ → ℕ → Session env → Option (Session env × List FuseReply)
  unfolding ecall
  secfs_read ino size off s = do
    (s', r) ← ecall rt (ecall_fs_read env ino off size) s
    some (s', reply_or (λ r. r.err) (λ r. reply_buf r.buf) r)

  unfoldable pub secfs_write : ℕ → Bytes → ℕ → Session env → Option (Session env × List FuseReply)
  unfolding ecall
  secfs_write ino buf off s = do
    (s', r) ← ecall rt (ecall_fs_write env ino buf off (length buf)) s
    some (s', reply_or (λ r. r.err) (λ r. reply_write r.size) r)

  unfoldable pub secfs_flush : ℕ → Session env → Option (Session env × List FuseReply)
  unfolding ecall
  secfs_flush ino s = do
    (s', err) ← ecall rt (ecall_fs_flush env ino) s
    some (s', reply_err_or err)

  unfoldable pub secfs_access : ℕ → ℕ → Session env → Option (Session env × List FuseReply)
  unfolding ecall
  secfs_access ino mask s = do
    (s', err) ← ecall rt (λ e. some (e, ecall_fs_access env ino mask e)) s
    some (s', reply_err_or err)

  unfoldable pub secfs_create :
      ℕ → Bytes → ℕ → FileInfo → Session env → Option (Session env × List FuseReply)
  unfolding ecall copy_statbuf
  secfs_create parent name mode fi s = do
    (s', r) ← ecall rt (ecall_fs_create env parent name mode) s
    some (s', reply_or (λ r. r.err) (λ r. reply_create (entry_param 1 r) fi) r)

  unfoldable pub secfs_fallocate : ℕ → ℕ → ℕ → Session env → Option (Session env × List FuseReply)
  unfolding ecall
  secfs_fallocate ino offset length s = do
    (s', err) ← ecall rt (λ e. some (ecall_fs_fallocate env ino offset length e)) s
    some (s', reply_err_or err)
