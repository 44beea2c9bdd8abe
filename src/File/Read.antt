-- ===== src/File/Read.antt =====
-- `ecall_fs_read`.
use sgx_secfs.Base.{
  ℕ, zero, suc, ◌+◌, ◌-◌, ◌%◌, min, Bool, true, false, Option, none, some, [], ◌++◌, Bytes, length,
  take, drop, replicate, ltb, ◌>>=◌, ◌==◌, nat_eq, bytes_eq, if◌then◌else◌,
}
use sgx_secfs.Uuid.{null_uuid}
use sgx_secfs.ChunkStore.{ChunkCache}
use sgx_secfs.Metadata.Layout.{size_mod}
use sgx_secfs.Metadata.Filenode.{Chunk}
use sgx_secfs.Enclave.{Env, Enclave}
use sgx_secfs.Enclave.Errno
use sgx_secfs.File.{Open, find_file, chunk_st, chunk_en, off_st, off_en}
use sgx_secfs.File.Chunks.{new_cache, chunk_of, load_chunk, save_chunk}

-- The result, what is written to `size`, and the bytes that are written to the buffer.
pub record ReadReply : Type 0 where
  pub err : ℕ
  pub size : ℕ
  pub buf : Bytes

-- `std::min(*size, fn->size - offset)`, whose difference wraps.
abbrev pub read_size : ℕ → ℕ → ℕ → ℕ
read_size file_size offset size = min size ((file_size + size_mod - offset % size_mod) % size_mod)

module _ (env : Env) where
  -- The bytes of a chunk that are read, or `none` for a failure.
  abbrev pub load_and_save : ℕ → ℕ → ChunkCache → Enclave env → Option (Enclave env × Option Bytes)
  load_and_save st en cache s = do
    (ok, (cache', s1)) ← load_chunk env cache s
    (s2, saved) ← (if ok then save_chunk env cache' s1 else some (s1, false))
    some (s2, (if saved then some (take (en - st) (drop st cache'.bytes)) else none))

  unfoldable pub read_chunk :
      ℕ → ℕ → ℕ → ℕ → Chunk → Enclave env → Option (Enclave env × Option Bytes)
  unfolding load_chunk save_chunk
  read_chunk id idx st en chunk s =
      if chunk.uuid == null_uuid
      then some (s, some (replicate (en - st) 0))
      else load_and_save st en (new_cache id idx) s

  -- The loop, over as many chunks as `n` says, from `idx` on.
  unfoldable pub read_loop :
      ℕ → ℕ → ℕ → ℕ → ℕ → Bytes → Enclave env → Option (Enclave env × (Bool × Bytes))
  unfolding read_chunk chunk_of
  read_loop zero idx id offset size buf s = some (s, (true, buf))
  read_loop (suc n) idx id offset size buf s =
      let rest = read_loop n (suc idx) id offset size in
      do
        chunk ← chunk_of env (new_cache id idx) s
        (s', part) ← read_chunk id idx (off_st offset idx) (off_en offset size idx) chunk s
        elim part [ none ↦ some (s', (false, buf)) | some bytes ↦ rest (buf ++ bytes) s' ]

  abbrev pub read_reply : ℕ → Enclave env × (Bool × Bytes) → Enclave env × ReadReply
  read_reply size (s, (ok, buf)) = (
    s,
    (if ok
        then (if length buf == size
            then record { err = 0; size = size; buf = buf }
            else record { err = Errno.einval; size = size; buf = buf })
        else record { err = Errno.einval; size = size; buf = buf }),
  )

  abbrev pub read_file : Open → ℕ → ℕ → Enclave env → Option (Enclave env × ReadReply)
  read_file o offset size s =
      if ltb (length o.node.chunks) (chunk_en offset size)
      then some (s, record { err = Errno.einval; size = size; buf = [] })
      else do
        result ←
            read_loop (chunk_en offset size - chunk_st offset) (chunk_st offset) o.id offset size []
              s
        some (read_reply size result)

  unfoldable pub ecall_fs_read : ℕ → ℕ → ℕ → Enclave env → Option (Enclave env × ReadReply)
  unfolding find_file read_loop
  ecall_fs_read ino offset size s = elim (find_file ino s) [
    | none ↦ some (s, record { err = Errno.einval; size = size; buf = [] })
    | some o ↦ read_file o offset (read_size o.node.size offset size) s
  ]
