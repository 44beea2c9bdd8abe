-- ===== src/Tests/Persistence.antt =====
-- Creation at a mounted volume, and the storage.
use sgx_secfs.Base.{◌≡◌, refl, ◌≢◌, some, [], ◌∷◌, replicate, arith, bytes_eq, nat_eq, ℕ_discrete}
use sgx_secfs.Base.ByteList.{le_bytes}
use sgx_secfs.Metadata.Layout.{text_field, zeros}
use sgx_secfs.Metadata.Codecs.{dirnode_codec}
use sgx_secfs.Metadata.Dirnode.{t_dt_dir, t_dt_reg}
use sgx_secfs.Storage.Saved
use sgx_secfs.Storage.Saved.{Loaded}
use sgx_secfs.Storage.Cipher.{encrypt_buffer}
use sgx_secfs.Metadata.Dirnode
use sgx_secfs.Metadata.Filenode
use sgx_secfs.Metadata.Superinfo
use sgx_secfs.Enclave.{Enclave, load_metadata, save_metadata}
use sgx_secfs.Enclave.Inode.{new_dirnode}
use sgx_secfs.Directory.{Reply}
use sgx_secfs.Directory.Create.{ecall_fs_mkdir, ecall_fs_create}
use sgx_secfs.Directory.Stored.{
  new_uuid, Creatable, NodeSaves, new_directory, new_file, entry_of, load_metadata-ecall_fs_mkdir,
  load_metadata-ecall_fs_create,
}
use sgx_secfs.Metadata.Layout.{IsText}
use sgx_secfs.Metadata.Codecs.{filenode_codec}
use sgx_secfs.Enclave.Inode.{new_filenode}
use sgx_secfs.Tests.Surroundings.{sample_env-IsEnv, sample_env, disk_of-Writable}
use sgx_secfs.Tests.Mounted.{name, sp, root, mounted, root_found, no_name}

name_fits : IsText 256 name
name_fits = record { short = omega arith; chars = (omega arith, tt) }

root_new : root.uuid ≢ new_uuid sample_env mounted
root_new e = ground arith

root_sp : root.uuid ≢ sp.uuid
root_sp e = ground arith

creatable : Creatable sample_env name root sp mounted
creatable = record {
  stored = record {
    name = record { short = omega arith; chars = tt };
    ino = omega arith;
    small = omega arith;
    whole = tt;
  };
  room = omega arith;
  name_fits = name_fits;
  ino_fits = omega arith;
  dir_uuid = record { long = refl; bytes = ground arith };
  sp_uuid = record { long = refl; bytes = ground arith };
  dir_sp = root_sp;
  dir_new = root_new;
}

directory_saves :
    NodeSaves sample_env-IsEnv dirnode_codec
      (new_directory sample_env name sp mounted)
      (entry_of sample_env t_dt_dir name sp mounted)
      root
      sp
      (record mounted { drawn = 5 })
unfolding save_metadata Saved.save_metadata Dirnode.dump Dirnode.dump_size Dirnode.fields
    Dirnode.dump_entries Superinfo.dump Superinfo.dump_size Superinfo.fields Filenode.dump
    Filenode.dump_size Filenode.fields Filenode.entries encrypt_buffer le_bytes text_field zeros
    Dirnode.dump_dirent Filenode.chunk_entry ℕ_discrete
directory_saves = record {
  takes_directory = disk_of-Writable [] [];
  takes_node = disk_of-Writable [] [];
  saved_directory = refl;
  saved_node = refl;
}

file_saves :
    NodeSaves sample_env-IsEnv filenode_codec
      (new_file sample_env sp mounted)
      (entry_of sample_env t_dt_reg name sp mounted)
      root
      sp
      (record mounted { drawn = 5 })
unfolding save_metadata Saved.save_metadata Dirnode.dump Dirnode.dump_size Dirnode.fields
    Dirnode.dump_entries Superinfo.dump Superinfo.dump_size Superinfo.fields Filenode.dump
    Filenode.dump_size Filenode.fields Filenode.entries encrypt_buffer le_bytes text_field zeros
    Dirnode.dump_dirent Filenode.chunk_entry ℕ_discrete
file_saves = record {
  takes_directory = disk_of-Writable [] [];
  takes_node = disk_of-Writable [] [];
  saved_directory = refl;
  saved_node = refl;
}

load_metadata-ecall_fs_mkdir_example :
    (s' : Enclave sample_env) × (r : Reply) × (ecall_fs_mkdir sample_env 1 name 0o755 mounted
      ≡ some (s', r))
    × (load_metadata sample_env dirnode_codec (new_dirnode (replicate 16 3)) s'
        ≡ Loaded.loaded (record root {
          refcount = 0;
          dirent = record { ino = 2; name = name; kind = t_dt_dir; uuid = replicate 16 5 } ∷ [];
        }))
    × (load_metadata sample_env dirnode_codec (new_dirnode (replicate 16 5)) s'
        ≡ Loaded.loaded (record (new_dirnode (replicate 16 5)) { ino = 2; name = name }))
load_metadata-ecall_fs_mkdir_example =
    load_metadata-ecall_fs_mkdir sample_env-IsEnv 1 0 0o755 name root sp mounted root_found no_name
      refl creatable directory_saves

load_metadata-ecall_fs_create_example :
    (s' : Enclave sample_env) × (r : Reply) × (ecall_fs_create sample_env 1 name 0o644 mounted
      ≡ some (s', r))
    × (load_metadata sample_env dirnode_codec (new_dirnode (replicate 16 3)) s'
        ≡ Loaded.loaded (record root {
          refcount = 0;
          dirent = record { ino = 2; name = name; kind = t_dt_reg; uuid = replicate 16 5 } ∷ [];
        }))
    × (load_metadata sample_env filenode_codec (new_filenode (replicate 16 5)) s'
        ≡ Loaded.loaded (record (new_filenode (replicate 16 5)) { ino = 2 }))
load_metadata-ecall_fs_create_example =
    load_metadata-ecall_fs_create sample_env-IsEnv 1 0 0o644 name root sp mounted root_found no_name
      refl creatable file_saves
