-- ===== src/Directory/Entries.antt =====
-- `ecall_fs_get_dirent_size` and `ecall_fs_get_dirent`.
use sgx_secfs.Base.{ℕ, zero, suc, Option, none, some, List, [], ◌∷◌, Bytes, length, take}
use sgx_secfs.Metadata.Dirnode.{Dirent, dump_entries}
use sgx_secfs.Enclave.{Env, Enclave}
use sgx_secfs.Enclave.Errno
use sgx_secfs.Directory.{missing, not_directory, directory, find_parent}

-- The loop writes an entry before it looks at `count`, so that a count of 0 is a write behind the
-- buffer. What lies behind the entries is not copied here.
abbrev pub first_entries : ℕ → List Dirent → Bytes → Option Bytes
first_entries count [] buf = some []
first_entries zero (d ∷ ds) buf = none
first_entries (suc n) (d ∷ ds) buf = some (dump_entries (take (suc n) (d ∷ ds)) buf)

module _ (env : Env) where
  -- The result, and what is written to `entnum`.
  unfoldable pub ecall_fs_get_dirent_size : ℕ → Enclave env → ℕ × Option ℕ
  ecall_fs_get_dirent_size ino s = elim (find_parent ino s) [
    | missing ↦ (Errno.enoent, none)
    | not_directory ↦ (Errno.enotdir, none)
    | directory id d ↦ (0, some (length d.dirent))
  ]

  unfoldable pub ecall_fs_get_dirent : ℕ → Bytes → ℕ → Enclave env → Option (ℕ × Bytes)
  unfolding dump_entries
  ecall_fs_get_dirent ino buf count s = elim (find_parent ino s) [
    | missing ↦ some (Errno.enoent, [])
    | not_directory ↦ some (Errno.enotdir, [])
    | directory id d ↦ elim (first_entries count d.dirent buf) [
      | none ↦ none
      | some bytes ↦ some (0, bytes)
    ]
  ]
