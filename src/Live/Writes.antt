-- ===== src/Live/Writes.antt =====
-- `ecall_fs_write` comes to an end with a result.
use sgx_secfs.Base.{
  ℕ, zero, suc, ◌+◌, ◌-◌, ◌≡◌, ◌≤◌, refl, ◌∙◌, some, arith, nat_eq, length, Option-cases, inl, inr,
  bytes_eq, Bytes, Bool, true, false, take, drop, ◌==◌,
}
use sgx_secfs.Uuid.{null_uuid}
use sgx_secfs.ChunkStore.{ChunkCache}
use sgx_secfs.Metadata.Filenode.{Chunk}
use sgx_secfs.Enclave.{Env, Enclave, gen_rand}
use sgx_secfs.Enclave.Inode.{filenode}
use sgx_secfs.File.{Open, lock, find_file, put_file, chunk_st, chunk_en, off_st, off_en}
use sgx_secfs.File.Chunks.{new_cache, chunk_of, load_chunk}
use sgx_secfs.File.Read.{ecall_fs_read, ReadReply}
use sgx_secfs.File.Write.{
  cache_to_write, write_chunk, write_loop, fresh_cache, written, extended, off_chunk_en, overwrite,
  ecall_fs_write, WriteReply,
}
use sgx_secfs.Reachable.Covered.{length-extended, length-extended_old}
use sgx_secfs.Directory.{put_object}
use sgx_secfs.Directory.State.{lookup-put_object}
use sgx_secfs.Live.{
  HasChunks, IsLive, IsReady, Onward, Returns, Returns-bind, Returns-if, Returns-some,
}
use sgx_secfs.Live.Chunks.{fewer-HasChunks, lock-HasChunks, chunk_of-Returns, put_file-Onward}
use sgx_secfs.Live.Caches.{
  then-Onward, later-Returns, assign_chunk-Onward, save_chunk-Returns, LoadedFrom,
  load_chunk-Returns,
}
use sgx_secfs.Live.Reads.{find_file-HasChunks, ecall_fs_read-Returns}

module _ {env : Env} where
  gen_rand-Onward : (s : Enclave env) → IsReady s → Onward s (gen_rand env s).1
  unfolding gen_rand
  gen_rand-Onward s v =
      (record { objects = v.objects; caches = v.caches; live = v.live }, λ id n c. c)

  -- A chunk that gets its UUID.
  fresh_cache-IsLive :
      (cache : ChunkCache) (chunk : Chunk) (s : Enclave env)
      → IsReady s
      → IsLive s.inode_map cache
      → let r = fresh_cache env cache chunk s in Onward s r.1 × IsLive r.1.inode_map r.0
  fresh_cache-IsLive cache chunk s v h =
      let (w, g) = gen_rand-Onward s v in
      let (u, t) = gen_rand env s in
      let (x, k) = assign_chunk-Onward cache (record chunk { uuid = u }) t w in
      let h' = k cache.filenode (suc cache.chunk_idx) (g cache.filenode (suc cache.chunk_idx) h) in
      (then-Onward s t _ g (x, k), h')

  cache_to_write-Returns :
      (st en chunk_end : ℕ) (cache : ChunkCache) (chunk : Chunk) (s : Enclave env)
      → IsReady s
      → IsLive s.inode_map cache
      → Returns
          (λ x. Onward s x.1 × IsLive x.1.inode_map x.0)
          (cache_to_write env st en chunk_end cache chunk s)
  unfolding cache_to_write
  cache_to_write-Returns st en chunk_end cache chunk s v h =
      let loaded =
        Returns-bind (LoadedFrom s) (λ x. Onward s x.1 × IsLive x.1.inode_map x.0)
          (load_chunk env cache s) _ (load_chunk-Returns cache s v h) (λ r w. w) in
      Returns-if _ (chunk.uuid == null_uuid) _ _ (λ _. fresh_cache-IsLive cache chunk s v h)
        (Returns-if _ (st == 0) _ _
          (λ _. Returns-if _ (en == chunk_end) _ _ (λ _. ((v, λ j n c. c), h)) loaded) loaded)

  write_chunk-Returns :
      (id idx st en chunk_end : ℕ) (bytes : Bytes) (s : Enclave env)
      → IsReady s
      → HasChunks s.inode_map id (suc idx)
      → Returns (λ x. Onward s x.0) (write_chunk env id idx st en chunk_end bytes s)
  unfolding write_chunk
  write_chunk-Returns id idx st en chunk_end bytes s v h =
      Returns-bind (λ _. Unit) (λ x. Onward s x.0) (chunk_of env (new_cache id idx) s) _
        (chunk_of-Returns (new_cache id idx) s v h)
        (λ chunk _.
          Returns-bind (λ x. Onward s x.1 × IsLive x.1.inode_map x.0) (λ x. Onward s x.0)
            (cache_to_write env st en chunk_end (new_cache id idx) chunk s) _
            (cache_to_write-Returns st en chunk_end (new_cache id idx) chunk s v h)
            (λ (cache, t) ((w, g), h'). later-Returns s t _ g (
              save_chunk-Returns
                (record cache { bytes = overwrite st bytes cache.bytes; modified = true }) t w h')))

  write_loop-Returns :
      (n idx id count offset size prev file wsize : ℕ) (buf : Bytes) (s : Enclave env)
      → n ≤ count - idx
      → IsReady s
      → HasChunks s.inode_map id count
      → Returns (λ x. Onward s x.0) (write_loop env n idx id offset size prev file buf wsize s)
  unfolding write_loop
  write_loop-Returns zero idx id count offset size prev file wsize buf s b v h = (v, λ j n c. c)
  write_loop-Returns (suc n) idx id count offset size prev file wsize buf s b v h =
      let st = off_st offset idx in
      let en = off_en offset size idx in
      let part = take (en - st) (drop wsize buf) in
      let has = fewer-HasChunks s.inode_map id count (suc idx) (omega (arith, b)) h in
      Returns-bind (λ x. Onward s x.0) (λ x. Onward s x.0)
        (write_chunk env id idx st en (off_chunk_en prev file idx) part s) _
        (write_chunk-Returns id idx st en (off_chunk_en prev file idx) part s v has)
        (λ (t, saved) (w, g).
          Returns-if _ saved _ _
            (λ _. later-Returns s t _ g (
              write_loop-Returns n (suc idx) id count offset size prev file (wsize + (en - st)) buf
                t (omega (arith, b)) w (g id count h)))
            (w, g))

  written-Returns :
      (id count offset size wsize : ℕ) (ok : Bool) (s : Enclave env)
      → IsReady s
      → HasChunks s.inode_map id count
      → Returns (λ x. IsReady x.0) (written env id offset size (s, (ok, wsize)))
  written-Returns id count offset size wsize false s v h = v
  written-Returns id count offset size wsize true s v h =
      let (o, l, _) = lock-HasChunks id count s v h in
      rw l ((put_file-Onward id o _ s v l (omega arith)).0)

  extended-HasChunks :
      (n : ℕ) (o : Open) (s : Enclave env)
      → IsReady s
      → lock o.id s.inode_map ≡ some o
      → Onward s (put_file o (extended n o.node) s)
        × HasChunks (put_file o (extended n o.node) s).inode_map o.id n
  unfolding put_file put_object
  extended-HasChunks n o s v l =
      let f = extended n o.node in
      (
        put_file-Onward o.id o f s v l (length-extended_old n o.node),
        (
          o.key,
          record { id = o.id; inode = filenode f },
          f,
          lookup-put_object o.key o.key o.id (filenode f) s ∙ ground arith,
          refl,
          refl,
          length-extended n o.node,
        ),
      )

  ecall_fs_write-Returns :
      (ino : ℕ) (buf : Bytes) (offset size : ℕ) (s : Enclave env)
      → IsReady s
      → Returns (λ x. IsReady x.0) (ecall_fs_write env ino buf offset size s)
  unfolding ecall_fs_write
  ecall_fs_write-Returns ino buf offset size s v = elim (Option-cases (find_file ino s)) [
    | inl e ↦ rw (e, Returns) v
    | inr (o, e) ↦
        let st = chunk_st offset in
        let en = chunk_en offset size in
        let (l, _) = find_file-HasChunks ino o s v e in
        let ((w, g), has) = extended-HasChunks en o s v l in
        let t = put_file o (extended en o.node) s in
        let prev = length o.node.chunks in
        rw (e, Returns)
          (Returns-bind (λ x. Onward t x.0) (λ x. IsReady x.0)
            (write_loop env (en - st) st o.id offset size prev o.node.size buf 0 t) _
            (write_loop-Returns (en - st) st o.id en offset size prev o.node.size 0 buf t
              (omega arith) w has)
            (λ (u, (ok, wsize)) (x, k).
              written-Returns o.id en offset size wsize ok u x (k o.id en has)))
  ]

  -- In every state whose caches belong to files that are still in the map of inodes, with indices
  -- in range, a read and a write come to an end with a result, whatever the storage and the cipher
  -- do, and leave such a state: no expired pointer is followed, no index is out of range and no
  -- assertion of the chunk store fails.
  pub IsReady-Returns :
      (ino : ℕ) (buf : Bytes) (offset n size : ℕ) (s : Enclave env)
      → IsReady s
      → ((t : Enclave env) × (r : ReadReply) × (ecall_fs_read env ino offset n s ≡ some (t, r))
          × IsReady t)
        × ((t : Enclave env) × (r : WriteReply) × (ecall_fs_write env ino buf offset size s
              ≡ some (t, r))
            × IsReady t)
  IsReady-Returns ino buf offset n size s v =
      let ((t, r), a, b) = Returns-some _ _ (ecall_fs_read-Returns ino offset n s v) in
      let ((u, q), c, d) = Returns-some _ _ (ecall_fs_write-Returns ino buf offset size s v) in
      ((t, r, a, b), (u, q, c, d))
