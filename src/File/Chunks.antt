-- ===== src/File/Chunks.antt =====
-- The chunks of files between the cache and the storage: the second half of enclave/storage.cpp.
use sgx_secfs.Base.{
  ℕ, zero, suc, ◌+◌, Bool, true, false, Option, none, some, ◌++◌, Bytes, length, take, drop,
  replicate, ltb, ◌>>=◌, ◌>>◌, guard, nat_eq, if◌then◌else◌,
}
use sgx_secfs.Uuid.{unparse}
use sgx_secfs.ChunkStore
use sgx_secfs.ChunkStore.{ChunkStore, ChunkCache}
use sgx_secfs.Metadata.Filenode.{Chunk, chunk_size}
use sgx_secfs.Storage.Host.{ocall_load_file, ocall_save_file}
use sgx_secfs.Storage.Cipher.{Mode, Cipher, encrypt_buffer, decrypt_buffer}
use sgx_secfs.Storage.Saved.{zero_iv}
use sgx_secfs.Enclave.{Env, Enclave}
use sgx_secfs.File.{Open, chunk_at?, set_chunk, lock, put_file}

abbrev pub zero_chunk : Bytes
zero_chunk = replicate chunk_size 0

-- `ChunkCache::ChunkCache(CHUNKSIZE, fn, idx)`
abbrev pub new_cache : ℕ → ℕ → ChunkCache
new_cache id idx = record {
  uuid = replicate 16 0;
  bytes = zero_chunk;
  modified = false;
  filenode = id;
  chunk_idx = idx;
}

-- What `decrypt_buffer` leaves in its destination when it fails: the text, as far as it got.
abbrev written : Bytes → Option (Bytes × Option Bytes) → Bytes
written dst none = dst
written dst (some (out, none)) = out ++ drop (length out) dst
written dst (some (out, some last)) = out ++ (last ++ drop (length out + length last) dst)

abbrev last_of : {A : Type 0} → Option (Bytes × A) → Option Bytes
last_of none = none
last_of (some (last, a)) = some last

unfoldable pub left_by_decrypt : Cipher → Bytes → Bytes → Bytes → Bytes → Bytes → ℕ → Bytes
left_by_decrypt c volkey iv aad src dst dsize =
    if ltb dsize (length src)
    then dst
    else written dst (do
      guard c.has_info
      c1 ← c.setup c.init
      c2 ← c.setkey volkey 256 Mode.decrypt c1
      c3 ← c.set_iv iv c2
      c4 ← c.reset c3
      c5 ← c.update_ad aad c4
      (out, c6) ← c.update src c5
      some (out, last_of (c.finish c6)))

module _ (env : Env) where
  abbrev decrypted : Chunk → Bytes → Bytes → Bytes → Option Bytes → Bool × Bytes
  decrypted chunk volkey contents obuf none =
      (false, left_by_decrypt env.cipher volkey chunk.iv chunk.uuid obuf contents chunk_size)
  decrypted chunk volkey contents obuf (some plain) = (true, plain)

  abbrev decrypt_content : Chunk → Bytes → Bytes → Option Bytes → Bool × Bytes
  decrypt_content chunk volkey contents none = (false, contents)
  decrypt_content chunk volkey contents (some obuf) =
      if ltb chunk_size (length obuf)
      then (false, contents)
      else decrypted chunk volkey contents obuf
          (decrypt_buffer env.cipher volkey chunk.iv chunk.uuid obuf contents chunk_size chunk.tag)

  -- The result and the new contents of `data`, which has `CHUNKSIZE` bytes.
  unfoldable pub load_cache : Chunk → Bytes → Enclave env → Bool × Bytes
  unfolding left_by_decrypt
  load_cache chunk contents s =
      if env.host.sgx_success s.storage (unparse chunk.uuid)
      then decrypt_content chunk s.volkey contents
          (ocall_load_file env.host s.storage (unparse chunk.uuid))
      else (false, contents)

  abbrev pub save_cipher :
      Chunk → Option (Bytes × Bytes) → Enclave env → Chunk × (Enclave env × Bool)
  save_cipher chunk none s = (chunk, (s, false))
  save_cipher chunk (some (obuf, tag)) s =
      let filename = unparse chunk.uuid in
      (
        record chunk { tag = tag },
        (if env.host.sgx_success s.storage filename
            then (
              record s {
                storage = ocall_save_file env.host s.storage filename (take chunk_size obuf);
              },
              true,
            )
            else (s, false)),
      )

  -- The chunk gets a zero IV and the tag.
  unfoldable pub save_cache : Chunk → Bytes → Enclave env → Chunk × (Enclave env × Bool)
  save_cache chunk contents s =
      save_cipher (record chunk { iv = zero_iv })
        (encrypt_buffer env.cipher s.volkey zero_iv chunk.uuid contents zero_chunk chunk_size) s

  abbrev chunk_in : ℕ → Option Open → Option Chunk
  chunk_in idx none = none
  chunk_in idx (some o) = chunk_at? idx o.node.chunks

  -- `ChunkCache::chunk()`; `none` is an expired pointer or an index out of range.
  unfoldable pub chunk_of : ChunkCache → Enclave env → Option Chunk
  unfolding lock chunk_at?
  chunk_of cache s = chunk_in cache.chunk_idx (lock cache.filenode s.inode_map)

  -- Writing to `ChunkCache::chunk()`.
  abbrev pub assign_in : ℕ → Chunk → Option Open → Enclave env → Enclave env
  assign_in idx c none s = s
  assign_in idx c (some o) s =
      put_file o (record o.node { chunks = set_chunk idx c o.node.chunks }) s

  unfoldable pub assign_chunk : ChunkCache → Chunk → Enclave env → Enclave env
  unfolding lock set_chunk
  assign_chunk cache c s = assign_in cache.chunk_idx c (lock cache.filenode s.inode_map) s

  -- The result, the cache and the state.
  unfoldable pub load_chunk : ChunkCache → Enclave env → Option (Bool × (ChunkCache × Enclave env))
  unfolding chunk_of load_cache
  load_chunk cache s = do
    chunk ← chunk_of cache s
    (found, store) ← ChunkStore.get_erase_by_key chunk.uuid s.local_cache
    let (ok, contents) = load_cache chunk cache.bytes s
    some (elim found [
      | some c ↦ (true, (c, record s { local_cache = store }))
      | none ↦ (ok, (record cache { bytes = contents }, s))
    ])

  -- A modified cache that leaves the store is saved, and its chunk gets the new IV and tag.
  abbrev pub write_back : ChunkCache → Chunk → Enclave env → Enclave env × Bool
  write_back old chunk s =
      let (chunk', (s', saved)) = save_cache chunk old.bytes s in
      if old.modified
      then (if saved then (assign_chunk old chunk' s', true) else (s', false))
      else (s, true)

  -- The loop of `save_chunk`. Every round takes a node out, so that as many rounds as the store has
  -- nodes are enough.
  unfoldable pub evict : ℕ → Enclave env → Option (Enclave env × Bool)
  unfolding chunk_of save_cache assign_chunk
  evict zero s = some (s, true)
  evict (suc n) s =
      let rest = evict n in
      if ltb env.max_cache_num (length s.local_cache.nodes)
      then (do
        (old, store) ← ChunkStore.get_pop_front s.local_cache
        chunk ← chunk_of old s
        let (s', saved) = write_back old chunk (record s { local_cache = store })
        if saved then rest s' else some (s', false))
      else some (s, true)

  unfoldable pub save_chunk : ChunkCache → Enclave env → Option (Enclave env × Bool)
  unfolding chunk_of evict
  save_chunk cache s = do
    chunk ← chunk_of cache s
    let store = (ChunkStore.push_get_back chunk.uuid cache s.local_cache).0
    evict (length store.nodes) (record s { local_cache = store })

  abbrev pub flush_found :
      Chunk → ChunkStore → Option ℕ → Enclave env → Option (Chunk × (Enclave env × Bool))
  flush_found chunk store none s = some (chunk, (s, true))
  flush_found chunk store (some iter) s = do
    (cache, store') ← ChunkStore.get_erase iter store
    let s' = record s { local_cache = store' }
    some (if cache.modified then save_cache chunk cache.bytes s' else (chunk, (s', true)))

  -- The chunk, the state and the result.
  unfoldable pub flush_chunk : Chunk → Enclave env → Option (Chunk × (Enclave env × Bool))
  unfolding save_cache
  flush_chunk chunk s = do
    iter ← ChunkStore.findbykey chunk.uuid s.local_cache
    flush_found chunk s.local_cache iter s
