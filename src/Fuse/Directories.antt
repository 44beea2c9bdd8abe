-- ===== src/Fuse/Directories.antt =====
-- app/fuse_operations.cpp: `secfs_opendir`, `secfs_readdir` and `secfs_releasedir`.
use sgx_secfs.Base.{
  ℕ, suc, ◌-◌, ◌*◌, ◌%◌, ◌^◌, Option, none, some, List, [], ◌∷◌, ◌++◌, Bytes, ◌>>=◌, ◌==◌, nat_eq,
  if◌then◌else◌, length, drop, replicate, ltb,
}
use sgx_secfs.Base.Dict
use sgx_secfs.Metadata.Dirnode.{Dirent, load_entries, entry_size}
use sgx_secfs.Enclave.{Env, Enclave}
use sgx_secfs.Directory.Entries.{ecall_fs_get_dirent_size, ecall_fs_get_dirent}
use sgx_secfs.Enclave.Errno
use sgx_secfs.Fuse.{FileInfo, FuseReply, Runtime, Session, ecall, reply_err, reply_open, reply_buf}

-- The value of `count` after the first ECALL: one that was carried out clears it first.
abbrev pub count_of : ℕ → Option (ℕ × Option ℕ) → ℕ
count_of uninit none = uninit
count_of uninit (some (err, none)) = 0
count_of uninit (some (err, some n)) = n

-- The replies after the first ECALL, behind which the handler goes on in any case.
abbrev pub size_replies : Option (ℕ × Option ℕ) → List FuseReply
size_replies none = reply_err Errno.enoent ∷ []
size_replies (some (err, n)) = if err == 0 then [] else reply_err err ∷ []

-- The cleared buffer of `count` structures, with what the ECALL wrote.
abbrev pub filled : ℕ → Bytes → Bytes
filled count bytes = bytes ++ drop (length bytes) (replicate (entry_size * count) 0)

module _ (rt : Runtime) where
  -- The structure of the entry with the index `i`, as `fuse_add_direntry` writes it.
  abbrev pub direntry : ℕ → Dirent → Bytes
  direntry i d = rt.add_direntry d.name d.ino (d.kind * 2 ^ 12 % 2 ^ 32) (suc i)

  -- The loop of `secfs_readdir`: an entry that does not fit is not written.
  unfoldable pub add_entries : List Dirent → ℕ → ℕ → Bytes → Bytes
  add_entries [] i rem buf = buf
  add_entries (d ∷ ds) i rem buf =
      let entsize = length (direntry i d) in
      let rest = add_entries ds (suc i) (rem - entsize) (buf ++ direntry i d) in
      if ltb rem entsize then buf else rest

module _ {env : Env} (rt : Runtime) where
  abbrev pub got_entries :
      ℕ → FileInfo → Session env × Option (ℕ × Bytes) → Session env × List FuseReply
  got_entries count fi (s, none) = (s, reply_err Errno.enoent ∷ [])
  got_entries count fi (s, some (err, bytes)) =
      if err == 0
      then (
        record s {
          dirvecs = Dict.insert s.next_dirvec (load_entries count (filled count bytes)) s.dirvecs;
          next_dirvec = suc s.next_dirvec;
        },
        reply_open (record fi { fh = s.next_dirvec }) ∷ [],
      )
      else (s, reply_err err ∷ [])

  abbrev pub get_entries : ℕ → ℕ → Enclave env → Option (Enclave env × (ℕ × Bytes))
  get_entries ino count e = do
    r ← ecall_fs_get_dirent env ino (replicate (entry_size * count) 0) count e
    some (e, r)

  abbrev pub opened :
      ℕ → FileInfo → Session env × Option (ℕ × Option ℕ) → Option (Session env × List FuseReply)
  opened ino fi (s, n) = do
    let count = count_of rt.uninit n
    got ← ecall rt (get_entries ino count) s
    let (s', replies) = got_entries count fi got
    some (s', size_replies n ++ replies)

  unfoldable pub secfs_opendir : ℕ → FileInfo → Session env → Option (Session env × List FuseReply)
  unfolding ecall Dict.insert load_entries
  secfs_opendir ino fi s = do
    sized ← ecall rt (λ e. some (e, ecall_fs_get_dirent_size env ino e)) s
    opened ino fi sized

  unfoldable pub secfs_readdir :
      ℕ → ℕ → FileInfo → Session env → Option (Session env × List FuseReply)
  unfolding add_entries Dict.lookup
  secfs_readdir size offset fi s = do
    dirent ← Dict.lookup fi.fh s.dirvecs
    some (s, reply_buf (add_entries rt (drop offset dirent) offset size []) ∷ [])

  unfoldable pub secfs_releasedir : FileInfo → Session env → Option (Session env × List FuseReply)
  unfolding Dict.lookup Dict.erase
  secfs_releasedir fi s = do
    _ ← Dict.lookup fi.fh s.dirvecs
    some (record s { dirvecs = Dict.erase fi.fh s.dirvecs }, reply_err 0 ∷ [])
