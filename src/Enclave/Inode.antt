-- ===== src/Enclave/Inode.antt =====
-- enclave/metadata.hpp: the class `Inode` and its two subclasses, as shared objects.
use sgx_secfs.Base.{ℕ, ◌+◌, ◌%◌, ◌^◌, Option, none, some, []}
use sgx_secfs.Uuid.{Uuid}
use sgx_secfs.Metadata.Dirnode
use sgx_secfs.Metadata.Dirnode.{Dirnode}
use sgx_secfs.Metadata.Filenode
use sgx_secfs.Metadata.Filenode.{Filenode}

pub data Inode : Type 0 where
  dirnode : Dirnode → Inode
  filenode : Filenode → Inode

-- An object of `inode_map`. Weak pointers know it by its number, which is never used again.
pub record Object : Type 0 where
  pub id : ℕ
  pub inode : Inode

-- `stat_mode_t` and `stat_buffer_t` of include/bridge.hpp
abbrev pub t_st_dir : ℕ
t_st_dir = 0o0040000

abbrev pub t_st_reg : ℕ
t_st_reg = 0o0100000

pub record Stat : Type 0 where
  pub ino : ℕ
  pub mode : ℕ
  pub nlink : ℕ
  pub size : ℕ

unfoldable pub dump_stat : Inode → Stat
unfolding Dirnode.nlink Dirnode.dump_size
dump_stat (dirnode d) = record {
  ino = d.ino;
  mode = t_st_dir;
  nlink = Dirnode.nlink d;
  size = Dirnode.dump_size d;
}
dump_stat (filenode f) = record {
  ino = f.ino;
  mode = t_st_reg;
  nlink = Filenode.nlink f;
  size = f.size;
}

abbrev pub ino_of : Inode → ℕ
ino_of (dirnode d) = d.ino
ino_of (filenode f) = f.ino

abbrev pub refcount_of : Inode → ℕ
refcount_of (dirnode d) = d.refcount
refcount_of (filenode f) = f.refcount

abbrev pub with_refcount : ℕ → Inode → Inode
with_refcount n (dirnode d) = dirnode (record d { refcount = n })
with_refcount n (filenode f) = filenode (record f { refcount = n })

-- `refcount++` on a `uint32_t`
unfoldable pub add_ref : Inode → Inode
add_ref i = with_refcount ((refcount_of i + 1) % 2 ^ 32) i

-- `std::dynamic_pointer_cast`
abbrev pub as_dirnode : Inode → Option Dirnode
as_dirnode (dirnode d) = some d
as_dirnode (filenode f) = none

abbrev pub as_filenode : Inode → Option Filenode
as_filenode (dirnode d) = none
as_filenode (filenode f) = some f

-- New objects. The members that a constructor leaves open are 0 and empty here; a load or the
-- caller sets them before they are read.
abbrev pub new_dirnode : Uuid → Dirnode
new_dirnode u = record { uuid = u; ino = 0; refcount = 0; name = []; dirent = [] }

abbrev pub new_filenode : Uuid → Filenode
new_filenode u = record { uuid = u; ino = 0; refcount = 0; size = 0; chunks = [] }
