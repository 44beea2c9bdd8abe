-- ===== src/Directory/Listing.antt =====
-- The entries that `ecall_fs_get_dirent_size` and `ecall_fs_get_dirent` give.
use mathlib.Core.List.{append-nil}
use sgx_secfs.Base.{
  ℕ, ◌*◌, ◌≤◌, ◌≡◌, refl, ap, arith, some, List, [], ◌∷◌, Bytes, length, All, take_whole,
}
use sgx_secfs.Metadata.Dirnode.{Dirnode, Dirent, load_entries, dump_entries}
use sgx_secfs.Metadata.Dirnode.RoundTrip.{IsDirent, load_entries-dump_entries}
use sgx_secfs.Enclave.{Env, Enclave}
use sgx_secfs.Directory.{find_parent, directory}
use sgx_secfs.Directory.Entries.{ecall_fs_get_dirent_size, ecall_fs_get_dirent, first_entries}

first_entries_all :
    (ds : List Dirent) (buf : Bytes) → first_entries (length ds) ds buf ≡ some (dump_entries ds buf)
unfolding dump_entries
first_entries_all [] buf = refl
first_entries_all (d ∷ ds) buf =
    ap (λ (es : List Dirent). some (dump_entries es buf))
      (take_whole (length (d ∷ ds)) (d ∷ ds) refl)

module _ {env : Env} (ino id : ℕ) (d : Dirnode) (buf : Bytes) (s : Enclave env)
    (f : find_parent ino s ≡ directory id d) where
  pub ecall_fs_get_dirent_size_lem :
      ecall_fs_get_dirent_size env ino s ≡ (0, some (length d.dirent))
  unfolding ecall_fs_get_dirent_size
  ecall_fs_get_dirent_size_lem = ground arith

  pub ecall_fs_get_dirent_lem :
      ecall_fs_get_dirent env ino buf (length d.dirent) s ≡ some (0, dump_entries d.dirent buf)
  unfolding ecall_fs_get_dirent
  ecall_fs_get_dirent_lem = rw (f, ecall_fs_get_dirent) (rw (first_entries_all d.dirent buf))

module _ {env : Env} where
  -- The size that `get_dirent_size` gives and a buffer with room for as many entries make
  -- `get_dirent` write entries that the host reads as those of the directory, in their order, as
  -- long as the fields of the entries fit the structure.
  pub load_entries-ecall_fs_get_dirent :
      (ino id : ℕ) (d : Dirnode) (buf : Bytes) (s : Enclave env)
      → find_parent ino s ≡ directory id d
      → All IsDirent d.dirent
      → 288 * length d.dirent ≤ length buf
      → (n : ℕ) × (bytes : Bytes) × (ecall_fs_get_dirent_size env ino s ≡ (0, some n))
        × (ecall_fs_get_dirent env ino buf n s ≡ some (0, bytes))
        × (load_entries n bytes ≡ d.dirent)
  load_entries-ecall_fs_get_dirent ino id d buf s f v room = (
    length d.dirent,
    dump_entries d.dirent buf,
    ecall_fs_get_dirent_size_lem ino id d buf s f,
    ecall_fs_get_dirent_lem ino id d buf s f,
    rw (append-nil (dump_entries d.dirent buf)) at
        (load_entries-dump_entries d.dirent buf [] v room),
  )
