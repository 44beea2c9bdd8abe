-- ===== src/File.antt =====
-- File contents: the second half of enclave/storage.cpp and the handlers of enclave/ecall_fs.cpp
-- that read and write. An offset is a number from 0 on; the locks of a file are left out.
pub mod Chunks
pub mod Read
pub mod Write
pub mod Handlers
pub mod Segments
pub mod Covered
pub mod Created
pub mod Holes
pub mod Cached
pub mod Surplus
pub mod Flushed
use sgx_secfs.Base.{
  ℕ, zero, suc, ◌+◌, ◌*◌, ◌/◌, ◌%◌, ◌-◌, Option, none, some, List, [], ◌∷◌, Bytes, ◌==◌, nat_eq,
  if◌then◌else◌,
}
use sgx_secfs.Base.Dict
use sgx_secfs.Base.Dict.{Dict}
use sgx_secfs.Metadata.Layout.{size_mod}
use sgx_secfs.Metadata.Filenode.{Chunk, Filenode, null_chunk, chunk_size}
use sgx_secfs.Enclave.{Env, Enclave}
use sgx_secfs.Enclave.Inode.{Object, filenode, as_filenode}
use sgx_secfs.Directory.{put_object}

-- `chunks[idx]`; `none` is out of range.
unfoldable pub chunk_at? : ℕ → List Chunk → Option Chunk
chunk_at? idx [] = none
chunk_at? zero (c ∷ cs) = some c
chunk_at? (suc idx) (c ∷ cs) = chunk_at? idx cs

unfoldable pub set_chunk : ℕ → Chunk → List Chunk → List Chunk
set_chunk idx c [] = []
set_chunk zero c (d ∷ cs) = c ∷ cs
set_chunk (suc idx) c (d ∷ cs) = d ∷ set_chunk idx c cs

-- `chunks.resize(n)`, which cuts or fills.
unfoldable pub resize : ℕ → List Chunk → List Chunk
resize zero cs = []
resize (suc n) [] = null_chunk ∷ resize n []
resize (suc n) (c ∷ cs) = c ∷ resize n cs

-- A file node with its number in the map and the number of its object.
pub record Open : Type 0 where
  pub key : ℕ
  pub id : ℕ
  pub node : Filenode

abbrev opened : ℕ → ℕ → Option Filenode → Option Open
opened ino id none = none
opened ino id (some f) = some (record { key = ino; id = id; node = f })

-- `inode_map.find(ino)` and the cast, by which all handlers of files begin.
abbrev as_file : ℕ → Option Object → Option Open
as_file ino none = none
as_file ino (some o) = opened ino o.id (as_filenode o.inode)

-- `filenode.lock()`: the object that a weak pointer refers to, if it is still in the map.
unfoldable pub lock : ℕ → Dict ℕ Object → Option Open
lock id [] = none
lock id ((ino, o) ∷ m) = if o.id == id then opened ino id (as_filenode o.inode) else lock id m

module _ {env : Env} where
  unfoldable pub find_file : ℕ → Enclave env → Option Open
  unfolding Dict.lookup
  find_file ino s = as_file ino (Dict.lookup ino s.inode_map)

  -- Writing to a file node through a shared pointer.
  unfoldable pub put_file : Open → Filenode → Enclave env → Enclave env
  unfolding put_object
  put_file o f s = put_object o.key o.id (filenode f) s

-- The chunks from `chunk_st` up to `chunk_en` that hold `size` bytes from an offset on.
abbrev pub chunk_st : ℕ → ℕ
chunk_st offset = offset / chunk_size

abbrev pub chunk_en : ℕ → ℕ → ℕ
chunk_en offset size = (offset + size + chunk_size - 1) % size_mod / chunk_size

-- The part of the chunk `idx` among them.
abbrev pub off_st : ℕ → ℕ → ℕ
off_st offset idx = if idx == chunk_st offset then offset % chunk_size else 0

abbrev pub off_en : ℕ → ℕ → ℕ → ℕ
off_en offset size idx =
    if suc idx == chunk_en offset size
    then (offset + size + size_mod - 1) % size_mod % chunk_size + 1
    else chunk_size
