-- ===== src/File/Write.antt =====
-- `ecall_fs_write`.
use sgx_secfs.Base.{
  ℕ, zero, suc, ◌+◌, ◌-◌, ◌%◌, max, Bool, true, false, Option, none, some, ◌++◌, Bytes, length,
  take, drop, ltb, ◌>>=◌, ◌==◌, nat_eq, bytes_eq, if◌then◌else◌,
}
use sgx_secfs.Uuid.{null_uuid}
use sgx_secfs.ChunkStore.{ChunkCache}
use sgx_secfs.Metadata.Layout.{size_mod}
use sgx_secfs.Metadata.Filenode.{Chunk, Filenode, chunk_size}
use sgx_secfs.Enclave.{Env, Enclave, gen_rand}
use sgx_secfs.Enclave.Errno
use sgx_secfs.File.{Open, find_file, lock, resize, put_file, chunk_st, chunk_en, off_st, off_en}
use sgx_secfs.File.Chunks.{new_cache, chunk_of, assign_chunk, load_chunk, save_chunk}

-- The result and what is written to `size`.
pub record WriteReply : Type 0 where
  pub err : ℕ
  pub size : ℕ

-- `memcpy_verw_s(data + st, …, bytes)`
unfoldable pub overwrite : ℕ → Bytes → Bytes → Bytes
overwrite st bytes target = take st target ++ (bytes ++ drop (st + length bytes) target)

-- The end of the old contents in a chunk: `(size + CHUNKSIZE - 1) % CHUNKSIZE` in the last one.
abbrev pub off_chunk_en : ℕ → ℕ → ℕ → ℕ
off_chunk_en prev_size file_size idx =
    if suc idx == prev_size
    then (file_size + chunk_size - 1) % size_mod % chunk_size
    else chunk_size

-- `resize` if the write goes beyond the chunks.
abbrev pub extended : ℕ → Filenode → Filenode
extended en f = if ltb (length f.chunks) en then record f { chunks = resize en f.chunks } else f

module _ (env : Env) where
  -- The cache to write into. A new chunk gets its UUID; one that is not overwritten as a whole is
  -- loaded, and what a failed load leaves is written to all the same.
  abbrev pub fresh_cache : ChunkCache → Chunk → Enclave env → ChunkCache × Enclave env
  fresh_cache cache chunk s =
      let (u, s') = gen_rand env s in (cache, assign_chunk env cache (record chunk { uuid = u }) s')

  unfoldable pub cache_to_write :
      ℕ → ℕ → ℕ → ChunkCache → Chunk → Enclave env → Option (ChunkCache × Enclave env)
  unfolding load_chunk assign_chunk gen_rand
  cache_to_write st en chunk_end cache chunk s =
      if chunk.uuid == null_uuid
      then some (fresh_cache cache chunk s)
      else if st == 0
      then (if en == chunk_end
          then some (cache, s)
          else do (ok, loaded) ← load_chunk env cache s; some loaded)
      else do (ok, loaded) ← load_chunk env cache s; some loaded

  unfoldable pub write_chunk : ℕ → ℕ → ℕ → ℕ → ℕ → Bytes → Enclave env → Option (Enclave env × Bool)
  unfolding chunk_of cache_to_write overwrite save_chunk
  write_chunk id idx st en chunk_end bytes s = do
    chunk ← chunk_of env (new_cache id idx) s
    (cache, s') ← cache_to_write st en chunk_end (new_cache id idx) chunk s
    save_chunk env (record cache { bytes = overwrite st bytes cache.bytes; modified = true }) s'

  -- The loop, over as many chunks as `n` says, from `idx` on; `wsize` counts what is written.
  unfoldable pub write_loop :
      ℕ → ℕ → ℕ → ℕ → ℕ → ℕ → ℕ → Bytes → ℕ → Enclave env → Option (Enclave env × (Bool × ℕ))
  unfolding write_chunk
  write_loop zero idx id offset size prev_size file_size buf wsize s = some (s, (true, wsize))
  write_loop (suc n) idx id offset size prev_size file_size buf wsize s =
      let st = off_st offset idx in
      let en = off_en offset size idx in
      let rest =
        write_loop n (suc idx) id offset size prev_size file_size buf (wsize + (en - st)) in
      do
        (s', saved) ←
            write_chunk id idx st en (off_chunk_en prev_size file_size idx)
              (take (en - st) (drop wsize buf)) s
        if saved then rest s' else some (s', (false, wsize + (en - st)))

  -- The size of the file grows after a loop that got to its end.
  abbrev grow : Option Open → ℕ → Enclave env → Option (Enclave env)
  grow none end s = none
  grow (some o) end s = some (put_file o (record o.node { size = max o.node.size end }) s)

  abbrev pub written : ℕ → ℕ → ℕ → Enclave env × (Bool × ℕ) → Option (Enclave env × WriteReply)
  written id offset size (s, (ok, wsize)) =
      if ok
      then (do
        s' ← grow (lock id s.inode_map) ((offset + wsize) % size_mod) s
        some (s', record { err = 0; size = wsize }))
      else some (s, record { err = Errno.einval; size = size })

  abbrev pub write_file : Open → Bytes → ℕ → ℕ → Enclave env → Option (Enclave env × WriteReply)
  write_file o buf offset size s =
      let st = chunk_st offset in
      let en = chunk_en offset size in
      let s' = put_file o (extended en o.node) s in
      do
        result ←
            write_loop (en - st) st o.id offset size (length o.node.chunks) o.node.size buf 0 s'
        written o.id offset size result

  unfoldable pub ecall_fs_write :
      ℕ → Bytes → ℕ → ℕ → Enclave env → Option (Enclave env × WriteReply)
  unfolding find_file write_loop put_file resize lock
  ecall_fs_write ino buf offset size s = elim (find_file ino s) [
    | none ↦ some (s, record { err = Errno.einval; size = size })
    | some o ↦ write_file o buf offset size s
  ]
