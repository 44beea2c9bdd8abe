-- ===== src/Tests/Removals.antt =====
-- Removal and listing at a mounted volume with a filled root.
use sgx_secfs.Base.{
  ℕ, ◌≡◌, refl, Option, none, some, [], Bytes, replicate, arith, bytes_eq, nat_eq, ℕ_discrete,
  bytes_discrete,
}
use sgx_secfs.Base.Dict
use sgx_secfs.Metadata.Codecs.{dirnode_codec}
use sgx_secfs.Metadata.Dirnode.{Dirnode, Dirent, t_dt_dir, t_dt_reg}
use sgx_secfs.Metadata.Filenode.{Filenode}
use sgx_secfs.Metadata.Layout.{text_field, zeros, word, c_string}
use sgx_secfs.Base.ByteList.{le_bytes, le_value}
use sgx_secfs.Uuid.{unparse, hex, hex_digit}
use sgx_secfs.Metadata.Dirnode
use sgx_secfs.Metadata.Filenode
use sgx_secfs.Storage.Saved
use sgx_secfs.Storage.Cipher.{encrypt_buffer, decrypt_buffer}
use sgx_secfs.Storage.Host.{ocall_load_file, ocall_remove_file}
use sgx_secfs.Storage.Saved.{Loaded}
use sgx_secfs.Enclave.{Enclave, load_metadata, save_metadata, remove_metadata}
use sgx_secfs.Enclave.Inode.{new_dirnode}
use sgx_secfs.Directory.{find_dirent, erase_dirent, find_parent}
use sgx_secfs.Directory.Remove.{ecall_fs_unlink, ecall_fs_rmdir}
use sgx_secfs.Directory.Removed.{IsRemoved, ecall_fs_unlink-IsRemoved, ecall_fs_rmdir-IsRemoved}
use sgx_secfs.Directory.Listing.{load_entries-ecall_fs_get_dirent}
use sgx_secfs.Directory.Entries.{ecall_fs_get_dirent_size, ecall_fs_get_dirent}
use sgx_secfs.Metadata.Dirnode.{load_entries}
use sgx_secfs.Base.{ℕ}
use sgx_secfs.Storage.Local.{get_size, get_content, remove_file}
use sgx_secfs.Tests.Surroundings.{sample_env, new_enclave}
use sgx_secfs.Tests.Mounted.{
  name, other_name, filled_root, filled, filled_found, filled_fits, filled_names,
}

abbrev state_of : {A : Type 0} → Option (Enclave sample_env × A) → Enclave sample_env
state_of none = new_enclave
state_of (some (s, a)) = s

abbrev unlinked : Enclave sample_env
unlinked = state_of (ecall_fs_unlink sample_env 1 name filled)

unlink_run : ecall_fs_unlink sample_env 1 name filled ≡ some (unlinked, 0)
unfolding ecall_fs_unlink find_parent find_dirent load_metadata Saved.load_metadata ocall_load_file
    Dict.lookup bytes_discrete ℕ_discrete decrypt_buffer Filenode.load remove_metadata
    Saved.remove_metadata ocall_remove_file save_metadata Saved.save_metadata Dirnode.dump
    Dirnode.dump_size Dirnode.fields Dirnode.dump_entries Dirnode.dump_dirent encrypt_buffer
    le_bytes text_field zeros unparse hex hex_digit word le_value erase_dirent get_size get_content
    remove_file
unlink_run = refl

ecall_fs_unlink-IsRemoved_example : IsRemoved 1 0 name filled_root unlinked
ecall_fs_unlink-IsRemoved_example =
    ecall_fs_unlink-IsRemoved 1 0 name filled_root filled unlinked filled_found filled_names
      unlink_run

abbrev removed : Enclave sample_env
removed = state_of (ecall_fs_rmdir sample_env 1 other_name filled)

rmdir_run : ecall_fs_rmdir sample_env 1 other_name filled ≡ some (removed, 0)
unfolding ecall_fs_rmdir find_parent find_dirent load_metadata Saved.load_metadata ocall_load_file
    Dict.lookup bytes_discrete ℕ_discrete decrypt_buffer Dirnode.load Dirnode.load_entries c_string
    remove_metadata Saved.remove_metadata ocall_remove_file save_metadata Saved.save_metadata
    Dirnode.dump Dirnode.dump_size Dirnode.fields Dirnode.dump_entries Dirnode.dump_dirent
    encrypt_buffer le_bytes text_field zeros unparse hex hex_digit word le_value erase_dirent
    get_size get_content remove_file
rmdir_run = refl

ecall_fs_rmdir-IsRemoved_example :
    IsRemoved 1 0 other_name filled_root removed
    × (dent : Dirent) × (child : Dirnode) × (find_dirent other_name filled_root.dirent ≡ some dent)
    × (dent.kind ≡ t_dt_dir)
    × (load_metadata sample_env dirnode_codec (new_dirnode dent.uuid) filled ≡ Loaded.loaded child)
    × (child.dirent ≡ [])
ecall_fs_rmdir-IsRemoved_example =
    ecall_fs_rmdir-IsRemoved 1 0 other_name filled_root filled removed filled_found filled_names
      rmdir_run

load_entries-ecall_fs_get_dirent_example :
    (n : ℕ) × (bytes : Bytes) × (ecall_fs_get_dirent_size sample_env 1 filled ≡ (0, some n))
    × (ecall_fs_get_dirent sample_env 1 (replicate 600 0) n filled ≡ some (0, bytes))
    × (load_entries n bytes ≡ filled_root.dirent)
load_entries-ecall_fs_get_dirent_example =
    load_entries-ecall_fs_get_dirent 1 0 filled_root (replicate 600 0) filled filled_found
      filled_fits (omega arith)
