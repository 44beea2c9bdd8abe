-- ===== src/Live/Reads.antt =====
-- `ecall_fs_read` comes to an end with a result.
use sgx_secfs.Base.{
  ℕ, zero, suc, ◌-◌, ◌≡◌, ◌≤◌, refl, some, [], ◌++◌, arith, nat_eq, length, Option-cases,
  Bool-cases, inl, inr, bytes_eq, Bytes, false, ltb, ◌==◌, if◌then◌else◌,
}
use sgx_secfs.Base.Dict
use sgx_secfs.Uuid.{null_uuid}
use sgx_secfs.ChunkStore.{ChunkCache}
use sgx_secfs.Metadata.Filenode.{Chunk}
use sgx_secfs.Enclave.{Env, Enclave}
use sgx_secfs.Enclave.Inode.{as_filenode}
use sgx_secfs.File.{Open, lock, find_file, chunk_st, chunk_en, off_st, off_en}
use sgx_secfs.File.Chunks.{new_cache, chunk_of, load_chunk, save_chunk}
use sgx_secfs.File.Read.{read_chunk, read_loop, read_size, ecall_fs_read, load_and_save}
use sgx_secfs.Reachable.Objects.{lock-lookup}
use sgx_secfs.Live.{
  HasChunks, IsLive, IsReady, Onward, Returns, Returns-bind, Returns-if, Returns-elim,
}
use sgx_secfs.Live.Chunks.{fewer-HasChunks, chunk_of-Returns}
use sgx_secfs.Live.Caches.{later-Returns, save_chunk-Returns, LoadedFrom, load_chunk-Returns}

module _ {env : Env} where
  load_and_save-Returns :
      (st en : ℕ) (cache : ChunkCache) (s : Enclave env)
      → IsReady s
      → IsLive s.inode_map cache
      → Returns (λ x. Onward s x.0) (load_and_save env st en cache s)
  load_and_save-Returns st en cache s v h =
      Returns-bind (LoadedFrom s) (λ x. Onward s x.0) (load_chunk env cache s) _
        (load_chunk-Returns cache s v h)
        (λ (ok, (cache', t)) ((w, g), h').
          Returns-bind (λ x. Onward s x.0) (λ x. Onward s x.0)
            (if ok then save_chunk env cache' t else some (t, false)) _
            (Returns-if _ ok (save_chunk env cache' t) (some (t, false))
              (λ _. later-Returns s t _ g (save_chunk-Returns cache' t w h')) (w, g))
            (λ (u, saved) x. x))

  read_chunk-Returns :
      (id idx st en : ℕ) (chunk : Chunk) (s : Enclave env)
      → IsReady s
      → HasChunks s.inode_map id (suc idx)
      → Returns (λ x. Onward s x.0) (read_chunk env id idx st en chunk s)
  unfolding read_chunk
  read_chunk-Returns id idx st en chunk s v h =
      Returns-if _ (chunk.uuid == null_uuid) _ _ (λ _. (v, λ j n c. c))
        (load_and_save-Returns st en (new_cache id idx) s v h)

  -- A loop over chunks that the file has.
  read_loop-Returns :
      (n idx id count offset size : ℕ) (buf : Bytes) (s : Enclave env)
      → n ≤ count - idx
      → IsReady s
      → HasChunks s.inode_map id count
      → Returns (λ x. Onward s x.0) (read_loop env n idx id offset size buf s)
  unfolding read_loop
  read_loop-Returns zero idx id count offset size buf s b v h = (v, λ j n c. c)
  read_loop-Returns (suc n) idx id count offset size buf s b v h =
      let st = off_st offset idx in
      let en = off_en offset size idx in
      let has = fewer-HasChunks s.inode_map id count (suc idx) (omega (arith, b)) h in
      Returns-bind (λ _. Unit) (λ x. Onward s x.0) (chunk_of env (new_cache id idx) s) _
        (chunk_of-Returns (new_cache id idx) s v has)
        (λ chunk _.
          Returns-bind (λ x. Onward s x.0) (λ x. Onward s x.0) (read_chunk env id idx st en chunk s)
            _ (read_chunk-Returns id idx st en chunk s v has)
            (λ (t, part) (w, g).
              Returns-elim (λ x. Onward s x.0) part (some (t, (false, buf)))
                (λ bytes. read_loop env n (suc idx) id offset size (buf ++ bytes) t) (w, g)
                (λ bytes. later-Returns s t _ g (
                  read_loop-Returns n (suc idx) id count offset size (buf ++ bytes) t
                    (omega (arith, b)) w (g id count h)))))

  -- The file that a handler finds by its number.
  pub find_file-HasChunks :
      (ino : ℕ) (o : Open) (s : Enclave env)
      → IsReady s
      → find_file ino s ≡ some o
      → (lock o.id s.inode_map ≡ some o) × HasChunks s.inode_map o.id (length o.node.chunks)
  unfolding find_file
  find_file-HasChunks ino o s v e = elim (Option-cases (Dict.lookup ino s.inode_map)) [
    | inl l ↦ absurd (ground arith)
    | inr (w, l) ↦ elim (Option-cases (as_filenode w.inode)) [
      | inl g ↦ absurd (ground arith)
      | inr (f, g) ↦
          let same : record { key = ino; id = w.id; node = f } ≡ o = ground arith in
          rw (← same) (
            lock-lookup s.next_object ino w f s.inode_map v.objects l g,
            (ino, w, f, l, refl, g, omega arith),
          )
    ]
  ]

  pub ecall_fs_read-Returns :
      (ino offset size : ℕ) (s : Enclave env)
      → IsReady s
      → Returns (λ x. IsReady x.0) (ecall_fs_read env ino offset size s)
  unfolding ecall_fs_read
  ecall_fs_read-Returns ino offset size s v = elim (Option-cases (find_file ino s)) [
    | inl e ↦ rw (e, Returns) v
    | inr (o, e) ↦
        let n = read_size o.node.size offset size in
        let st = chunk_st offset in
        let en = chunk_en offset n in
        let (_, has) = find_file-HasChunks ino o s v e in
        elim (Bool-cases (ltb (length o.node.chunks) en)) [
          | inl short ↦ rw (e, Returns, short) v
          | inr long ↦
              let has' = fewer-HasChunks s.inode_map o.id _ en (ground arith) has in
              rw (e, Returns, long)
                (Returns-bind (λ x. Onward s x.0) (λ x. IsReady x.0)
                  (read_loop env (en - st) st o.id offset n [] s) _
                  (read_loop-Returns (en - st) st o.id en offset n [] s (omega arith) v has')
                  (λ (t, r) w. w.0))
        ]
  ]
