-- ===== src/Directory.antt =====
-- The handlers of enclave/ecall_fs.cpp about directories and attributes. A handler gives the new
-- state, its result, and what it writes to `ino` and `statbuf`; `none` is undefined behaviour.
pub mod Lookup
pub mod Create
pub mod Remove
pub mod Attributes
pub mod Entries
pub mod Names
pub mod State
pub mod Visible
pub mod Removed
pub mod Forget
pub mod Failures
pub mod Listing
pub mod Stored
use sgx_secfs.Base.{
  ℕ, zero, suc, ◌+◌, ◌-◌, ◌%◌, ◌^◌, Bool, true, false, Option, none, some, List, [], ◌∷◌, ◌++◌,
  Bytes, length, ltb, ◌==◌, nat_eq, bytes_eq, if◌then◌else◌, ℤ, pos, negsuc,
}
use sgx_secfs.Base.Dict
use sgx_secfs.Base.Dict.{Dict}
use sgx_secfs.Uuid.{Uuid, null_uuid}
use sgx_secfs.Metadata.Codec.{Codec}
use sgx_secfs.Metadata.Codecs.{superinfo_codec, dirnode_codec, filenode_codec}
use sgx_secfs.Metadata.Layout.{size_mod}
use sgx_secfs.Metadata.Superinfo.{Superinfo}
use sgx_secfs.Metadata.Dirnode
use sgx_secfs.Metadata.Dirnode.{Dirnode, Dirent, t_dt_dir, t_dt_reg}
use sgx_secfs.Metadata.Filenode.{Filenode, Chunk}
use sgx_secfs.Storage.Saved.{Loaded}
use sgx_secfs.Enclave.{Env, Enclave, load_metadata, save_metadata, remove_metadata, gen_rand}
use sgx_secfs.Enclave.Errno
use sgx_secfs.Enclave.Inode.{
  Inode, Object, Stat, dirnode, filenode, dump_stat, ino_of, add_ref, as_dirnode, new_dirnode,
  new_filenode, refcount_of, with_refcount,
}

-- The results of a handler that fills `ino` and `statbuf`.
pub record Reply : Type 0 where
  pub err : ℕ
  pub ino : ℕ
  pub stat : Option Stat

abbrev pub error : ℕ → Reply
error e = record { err = e; ino = 0; stat = none }

-- The first entry with a name.
unfoldable pub find_dirent : Bytes → List Dirent → Option Dirent
find_dirent name [] = none
find_dirent name (d ∷ ds) = if d.name == name then some d else find_dirent name ds

-- `dirent.erase` at that entry
unfoldable pub erase_dirent : Bytes → List Dirent → List Dirent
erase_dirent name [] = []
erase_dirent name (d ∷ ds) = if d.name == name then ds else d ∷ erase_dirent name ds

-- The parent's iterator as a directory.
pub data Found : Type 0 where
  missing : Found
  not_directory : Found
  directory : ℕ → Dirnode → Found

abbrev found : Option Object → Found
found none = missing
found (some o) = elim (as_dirnode o.inode) [ none ↦ not_directory | some d ↦ directory o.id d ]

module _ {env : Env} where
  unfoldable pub find_parent : ℕ → Enclave env → Found
  unfolding Dict.lookup
  find_parent parent s = found (Dict.lookup parent s.inode_map)

  -- Writing through the shared pointer to an object of the map.
  unfoldable pub put_object : ℕ → ℕ → Inode → Enclave env → Enclave env
  unfolding Dict.insert
  put_object ino id i s = record s {
    inode_map = Dict.insert ino (record { id = id; inode = i }) s.inode_map;
  }
