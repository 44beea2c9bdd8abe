-- ===== src/Metadata/Filenode.antt =====
-- enclave/filenode.hpp and enclave/filenode.cpp. `sizeof(chunk_t)` is 44 and the header of
-- `filenode_buffer_t` has 24 bytes.
pub mod RoundTrip
use sgx_secfs.Base.{
  ℕ, zero, suc, ◌+◌, ◌-◌, ◌*◌, ◌/◌, ◌%◌, ◌^◌, Option, none, some, List, [], ◌∷◌, ◌++◌, Bytes,
  length, take, drop, replicate, le_bytes, ltb, ◌==◌, nat_eq, ◌&&◌, if◌then◌else◌,
}
use sgx_secfs.Uuid.{Uuid, null_uuid}
use sgx_secfs.Metadata.Layout.{size_mod, word}

-- `CHUNKSIZE`
abbrev pub chunk_size : ℕ
chunk_size = 4096

-- A chunk of a file: `uuid_t`, `iv_t` and `tag_t`.
pub record Chunk : Type 0 where
  pub uuid : Uuid
  pub iv : Bytes
  pub tag : Bytes

-- The value that `std::vector::resize` puts in: a null UUID marks a chunk that is not stored.
abbrev pub null_chunk : Chunk
null_chunk = record { uuid = null_uuid; iv = replicate 12 0; tag = replicate 16 0 }

pub record Filenode : Type 0 where
  pub uuid : Uuid
  pub ino : ℕ
  pub refcount : ℕ
  pub size : ℕ
  pub chunks : List Chunk

abbrev pub header_size : ℕ
header_size = 24

abbrev pub entry_size : ℕ
entry_size = 44

-- `Chunk::Chunk(const chunk_t*)`
unfoldable pub load_chunk_entry : Bytes → Chunk
load_chunk_entry buf =
    let b1 = drop 16 buf in
    let b2 = drop 12 b1 in record { uuid = take 16 buf; iv = take 12 b1; tag = take 16 b2 }

-- `Chunk::dump`
unfoldable pub chunk_entry : Chunk → Bytes
chunk_entry c = c.uuid ++ (c.iv ++ c.tag)

unfoldable pub load_entries : ℕ → Bytes → List Chunk
unfolding load_chunk_entry
load_entries zero buf = []
load_entries (suc n) buf = load_chunk_entry buf ∷ load_entries n (drop 44 buf)

unfoldable pub entries : List Chunk → Bytes
unfolding chunk_entry
entries [] = []
entries (c ∷ cs) = chunk_entry c ++ entries cs

-- The number of chunks that a file of this size has, with the wrap of `size_t`.
abbrev pub chunk_count : ℕ → ℕ
chunk_count size = (size + chunk_size - 1) % size_mod / chunk_size

unfoldable pub load : Filenode → Bytes → ℕ → Option Filenode
unfolding load_entries
load f buf bsize =
    let b1 = drop 8 buf in
    let b2 = drop 8 b1 in
    let b3 = drop 8 b2 in
    let entnum = word 8 b2 in
    if bsize == (header_size + entry_size * entnum) % size_mod && chunk_count (word 8 b1) == entnum
    then some (record f { size = word 8 b1; chunks = load_entries entnum b3; ino = word 8 buf })
    else none

unfoldable pub dump_size : Filenode → ℕ
dump_size f = (header_size + entry_size * length f.chunks) % size_mod

unfoldable pub fields : Filenode → Bytes
unfolding entries
fields f =
    le_bytes 8 f.ino ++ (le_bytes 8 f.size ++ (le_bytes 8 (length f.chunks) ++ entries f.chunks))

unfoldable pub dump : Filenode → Bytes → ℕ → Option Bytes
unfolding dump_size fields
dump f buf bsize =
    if ltb bsize (dump_size f) then none else some (fields f ++ drop (dump_size f) buf)

abbrev pub nlink : Filenode → ℕ
nlink f = 1
