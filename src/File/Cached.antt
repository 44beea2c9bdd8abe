-- ===== src/File/Cached.antt =====
-- `save_chunk`, `save_cache` and `load_cache` together.
use mathlib.Core.List.{append-nil}
use sgx_secfs.Base.{
  ℕ, zero, suc, ◌≡◌, ◌≤◌, refl, subst, ◌∙◌, arith, true, [], ◌∷◌, ◌++◌, Bytes, length, take, drop,
  Option, none, some, Option-cases, inl, inr, nat_eq, bytes_eq, drop_all,
}
use sgx_secfs.Base.Dict
use sgx_secfs.Uuid.{unparse}
use sgx_secfs.ChunkStore
use sgx_secfs.ChunkStore.{ChunkStore, ChunkCache}
use sgx_secfs.Metadata.Filenode.{Chunk, chunk_size}
use sgx_secfs.Storage.Host.{ocall_load_file, ocall_save_file}
use sgx_secfs.Storage.Cipher.{IsGcm, decrypt_buffer}
use sgx_secfs.Storage.Cipher.RoundTrip.{decrypt_buffer-encrypt_buffer}
use sgx_secfs.Storage.Saved.{zero_iv}
use sgx_secfs.Storage.Saved.RoundTrip.{ocall_load_file-stored}
use sgx_secfs.Storage.Api.{IsStorage}
use sgx_secfs.Enclave.{Env, Enclave}
use sgx_secfs.Directory.{put_object}
use sgx_secfs.File.{Open, put_file}
use sgx_secfs.File.Chunks.{
  zero_chunk, chunk_of, save_cache, load_cache, assign_chunk, assign_in, save_cipher, write_back,
  evict, save_chunk,
}

get_pop_front-length :
    (n : ℕ) (ns : ChunkStore.Nodes) (ix : Dict.Dict Bytes ℕ) (s : ChunkStore) (c : ChunkCache)
    → ChunkStore.get_pop_front (record { next_node = n; nodes = ns; index = ix }) ≡ some (c, s)
    → length ns ≡ suc (length s.nodes)
unfolding ChunkStore.get_pop_front
get_pop_front-length n [] ix s c e = ground arith
get_pop_front-length n ((i, d) ∷ ns) ix s c e = ground arith

module _ {env : Env} where
  local_cache-save_cipher :
      (chunk : Chunk) (r : Option (Bytes × Bytes)) (s : Enclave env)
      → (save_cipher env chunk r s).1.0.local_cache ≡ s.local_cache
  local_cache-save_cipher chunk none s = refl
  local_cache-save_cipher chunk (some (obuf, tag)) s = ground arith

  pub local_cache-save_cache :
      (chunk : Chunk) (contents : Bytes) (s : Enclave env)
      → (save_cache env chunk contents s).1.0.local_cache ≡ s.local_cache
  unfolding save_cache
  local_cache-save_cache chunk contents s = local_cache-save_cipher _ _ s

  local_cache-assign_in :
      (idx : ℕ) (c : Chunk) (o : Option Open) (s : Enclave env)
      → (assign_in env idx c o s).local_cache ≡ s.local_cache
  unfolding put_file put_object
  local_cache-assign_in idx c none s = refl
  local_cache-assign_in idx c (some o) s = refl

  local_cache-assign_chunk :
      (cache : ChunkCache) (c : Chunk) (s : Enclave env)
      → (assign_chunk env cache c s).local_cache ≡ s.local_cache
  unfolding assign_chunk
  local_cache-assign_chunk cache c s = local_cache-assign_in cache.chunk_idx c _ s

  local_cache-write_back :
      (old : ChunkCache) (chunk : Chunk) (s : Enclave env)
      → (write_back env old chunk s).0.local_cache ≡ s.local_cache
  local_cache-write_back old chunk s =
      let (chunk', (s', saved)) = save_cache env chunk old.bytes s in
      ground
        (arith, local_cache-save_cache chunk old.bytes s, local_cache-assign_chunk old chunk' s')

  evict-small :
      (n : ℕ) (s s' : Enclave env)
      → length s.local_cache.nodes ≤ n
      → evict env n s ≡ some (s', true)
      → length s'.local_cache.nodes ≤ env.max_cache_num
  unfolding evict
  evict-small zero s s' h e = ground arith
  evict-small (suc n) s s' h e = elim (Option-cases (ChunkStore.get_pop_front s.local_cache)) [
    | inl f ↦ ground arith
    | inr ((old, store), f) ↦ elim (Option-cases (chunk_of env old s)) [
      | inl g ↦ ground arith
      | inr (chunk, g) ↦
          let t = record s { local_cache = store } in
          let (t', saved) = write_back env old chunk t in
          let shorter =
            get_pop_front-length s.local_cache.next_node s.local_cache.nodes s.local_cache.index
              store old f in
          let same = local_cache-write_back old chunk t in ground (arith, evict-small n t' s')
    ]
  ]

  -- Whatever the store held before, a `save_chunk` that succeeds leaves at most `MAX_CACHE_NUM`
  -- caches in it: its loop has got to its end.
  pub save_chunk-small :
      (cache : ChunkCache) (s s' : Enclave env)
      → save_chunk env cache s ≡ some (s', true)
      → length s'.local_cache.nodes ≤ env.max_cache_num
  unfolding save_chunk
  save_chunk-small cache s s' e = elim (Option-cases (chunk_of env cache s)) [
    | inl f ↦ ground arith
    | inr (chunk, f) ↦
        let store = (ChunkStore.push_get_back chunk.uuid cache s.local_cache).0 in
        evict-small (length store.nodes) (record s { local_cache = store }) s' (omega arith)
          (ground arith)
  ]

  save_cipher-inv :
      (chunk chunk' : Chunk) (r : Option (Bytes × Bytes)) (s s' : Enclave env)
      → save_cipher env chunk r s ≡ (chunk', (s', true))
      → (obuf : Bytes) × (tag : Bytes) × (r ≡ some (obuf, tag))
        × (chunk' ≡ record chunk { tag = tag })
        × (s'.volkey ≡ s.volkey)
        × (s'.storage
            ≡ ocall_save_file env.host s.storage (unparse chunk.uuid) (take chunk_size obuf))
  save_cipher-inv chunk chunk' none s s' e = absurd (ground arith)
  save_cipher-inv chunk chunk' (some (obuf, tag)) s s' e =
      (obuf, tag, refl, ground arith, ground arith, ground arith)

  load_cache_lem :
      (chunk : Chunk) (contents obuf plain : Bytes) (s : Enclave env)
      → env.host.sgx_success s.storage (unparse chunk.uuid) ≡ true
      → ocall_load_file env.host s.storage (unparse chunk.uuid) ≡ some obuf
      → length obuf ≤ chunk_size
      → decrypt_buffer env.cipher s.volkey chunk.iv chunk.uuid obuf contents chunk_size chunk.tag
        ≡ some plain
      → load_cache env chunk contents s ≡ (true, plain)
  unfolding load_cache
  load_cache_lem chunk contents obuf plain s up l le d = ground arith

  -- A whole chunk that is encrypted and saved with success, into a storage that takes the file, is
  -- loaded with the IV and the tag that the save gave it, for any cipher and storage that do what
  -- they document and while the SGX runtime carries out the OCALL.
  pub load_cache-save_cache :
      {takes : env.host.api.State → Bytes → Type 0} (chunk chunk' : Chunk) (contents target : Bytes)
      (s s' : Enclave env)
      → IsGcm env.cipher
      → IsStorage env.host.api takes
      → takes s.storage (unparse chunk.uuid)
      → length contents ≡ chunk_size
      → length target ≡ chunk_size
      → env.host.sgx_success s'.storage (unparse chunk.uuid) ≡ true
      → save_cache env chunk contents s ≡ (chunk', (s', true))
      → load_cache env chunk' target s' ≡ (true, contents)
  unfolding save_cache
  load_cache-save_cache chunk chunk' contents target s s' g st acc long tlong up e =
      let (obuf, tag, enc, c', key, stored) =
        save_cipher-inv (record chunk { iv = zero_iv }) chunk' _ s s' e in
      let (sixteen, whole, dec) =
        decrypt_buffer-encrypt_buffer env.cipher s.volkey zero_iv chunk.uuid contents zero_chunk
          obuf tag target chunk_size chunk_size g enc (omega (arith, long)) in
      let loaded =
        ocall_load_file-stored env.host s.storage s'.storage (unparse chunk.uuid)
          (take chunk_size obuf) st acc stored in
      let cut : length (take chunk_size obuf) ≡ chunk_size =
        subst (λ (k : ℕ). length (take k obuf) ≡ k) long whole in
      let dec' : decrypt_buffer env.cipher s.volkey zero_iv chunk.uuid (take chunk_size obuf) target
            chunk_size tag
          ≡ some contents =
        subst
          (λ (k : ℕ).
            decrypt_buffer env.cipher s.volkey zero_iv chunk.uuid (take k obuf) target chunk_size
              tag
            ≡ some (contents ++ drop k target))
          long dec
        ∙ rw (drop_all chunk_size target tlong, append-nil contents) in
      rw c' (
        load_cache_lem (record chunk { iv = zero_iv; tag = tag }) target (take chunk_size obuf)
          contents s' up loaded (omega (arith, cut)) (rw key dec'))
