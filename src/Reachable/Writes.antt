-- ===== src/Reachable/Writes.antt =====
-- The handlers that write to a file and allocate chunks keep the state sound.
use sgx_secfs.Base.{
  ℕ, zero, suc, ◌<◌, ◌+◌, ◌-◌, ◌≡◌, refl, ◌∙◌, some, arith, nat_eq, bytes_eq, length, Option-cases,
  inl, inr, Bytes, Bool, true, false, ◌==◌, take, drop,
}
use sgx_secfs.Uuid.{null_uuid}
use sgx_secfs.ChunkStore.{ChunkCache}
use sgx_secfs.Metadata.Filenode.{Chunk}
use sgx_secfs.Enclave.{Env, Enclave}
use sgx_secfs.Enclave.Inode.{filenode}
use sgx_secfs.File.{Open, lock, find_file, put_file, chunk_st, chunk_en, off_st, off_en}
use sgx_secfs.File.Chunks.{new_cache, chunk_of, load_chunk}
use sgx_secfs.File.Write.{
  cache_to_write, write_chunk, write_loop, written, extended, off_chunk_en, overwrite,
  ecall_fs_write,
}
use sgx_secfs.File.Handlers.{ecall_fs_fallocate}
use sgx_secfs.Reachable.Names.{
  IsSound, Holds, Holds-bind, Holds-if, Holds-any, Keeps, gen_rand-IsSound,
}
use sgx_secfs.Reachable.Caches.{
  put_file-IsSound, assign_chunk-IsSound, load_chunk-IsSound, save_chunk-Keeps,
}
use sgx_secfs.Enclave.Inode.{Object}
use sgx_secfs.Metadata.Filenode.{chunk_size}
use sgx_secfs.Metadata.Layout.{size_mod}
use sgx_secfs.Directory.State.{lookup-put_object}
use sgx_secfs.File.Segments.{write_loop-wsize, total-all}
use sgx_secfs.Reachable.Objects.{lookup-lock}
use sgx_secfs.Reachable.Room.{Room, Room-AllowsChunks, found-Room}
use sgx_secfs.Reachable.Reads.{put_found-IsSound, find_file-each}
use sgx_secfs.Reachable.Covered.{
  Fits, map-AllOf, grown-IsCovered, resized-IsCovered, length-extended,
}
use sgx_secfs.Reachable.Caches.{lock-each}
use sgx_secfs.Reachable.Caches.{AllowsChunks}

module _ {env : Env} {P : Object → Type 0} (allows : AllowsChunks P) where
  cache_to_write-IsSound :
      (st en chunk_end : ℕ) (cache : ChunkCache) (chunk : Chunk) (s : Enclave env)
      → IsSound P s
      → Holds (λ x. IsSound P x.1) (cache_to_write env st en chunk_end cache chunk s)
  unfolding cache_to_write
  cache_to_write-IsSound st en chunk_end cache chunk s v =
      let loaded =
        Holds-bind (λ r. IsSound P r.1.1) (λ x. IsSound P x.1) (load_chunk env cache s) _
          (load_chunk-IsSound cache s v) (λ r w. w) in
      Holds-if _ (chunk.uuid == null_uuid) _ _
        (assign_chunk-IsSound allows cache _ _ (gen_rand-IsSound s v))
        (Holds-if _ (st == 0) _ _ (Holds-if _ (en == chunk_end) _ _ v loaded) loaded)

  write_chunk-Keeps :
      (id idx st en chunk_end : ℕ) (bytes : Bytes) (s : Enclave env)
      → IsSound P s
      → Keeps P (write_chunk env id idx st en chunk_end bytes s)
  unfolding write_chunk
  write_chunk-Keeps id idx st en chunk_end bytes s v =
      Holds-bind (λ _. Unit) (λ x. IsSound P x.0) (chunk_of env (new_cache id idx) s) _
        (Holds-any _)
        (λ chunk _.
          Holds-bind (λ x. IsSound P x.1) (λ x. IsSound P x.0)
            (cache_to_write env st en chunk_end (new_cache id idx) chunk s) _
            (cache_to_write-IsSound st en chunk_end (new_cache id idx) chunk s v)
            (λ (cache, t) w.
              save_chunk-Keeps allows
                (record cache { bytes = overwrite st bytes cache.bytes; modified = true }) t w))

  write_loop-Keeps :
      (n idx id offset size prev file wsize : ℕ) (buf : Bytes) (s : Enclave env)
      → IsSound P s
      → Keeps P (write_loop env n idx id offset size prev file buf wsize s)
  unfolding write_loop
  write_loop-Keeps zero idx id offset size prev file wsize buf s v = v
  write_loop-Keeps (suc n) idx id offset size prev file wsize buf s v =
      let st = off_st offset idx in
      let en = off_en offset size idx in
      let part = take (en - st) (drop wsize buf) in
      Holds-bind (λ x. IsSound P x.0) (λ x. IsSound P x.0)
        (write_chunk env id idx st en (off_chunk_en prev file idx) part s) _
        (write_chunk-Keeps id idx st en (off_chunk_en prev file idx) part s v)
        (λ (t, saved) w.
          Holds-if _ saved _ _
            (write_loop-Keeps n (suc idx) id offset size prev file (wsize + (en - st)) buf t w) w)

module _ {env : Env} {Q : Type 0} where
  Room-IsSound : (id n : ℕ) (s : Enclave env) → IsSound (Room Q id n) s → IsSound (Fits Q) s
  Room-IsSound id n s v = record {
    objects = v.objects;
    caches = v.caches;
    each = map-AllOf (Room Q id n) (Fits Q) s.inode_map (λ o w. w.0) v.each;
  }

  written-Keeps :
      (id offset size wsize : ℕ) (ok : Bool) (s : Enclave env)
      → (ok ≡ true → Q → wsize ≡ size)
      → IsSound (Room Q id (chunk_en offset size)) s
      → Keeps (Fits Q) (written env id offset size (s, (ok, wsize)))
  written-Keeps id offset size wsize false s h v = Room-IsSound id (chunk_en offset size) s v
  written-Keeps id offset size wsize true s h v = elim (Option-cases (lock id s.inode_map)) [
    | inl l ↦ rw (l, Holds) tt
    | inr (o, l) ↦
        let (fits, room) = lock-each id o s v l in
        let (_, _, _, same, _) = lookup-lock s.next_object id o s.inode_map v.objects l in
        rw (l, Holds)
          (put_file-IsSound id o _ s (Room-IsSound id (chunk_en offset size) s v) l
            (λ q. rw (h refl q) (grown-IsCovered offset size o.node (room same) (fits q))))
  ]

  -- The file with the chunks that the write goes to.
  extended-IsSound :
      (ino n : ℕ) (o : Open) (s : Enclave env)
      → IsSound (Fits Q) s
      → find_file ino s ≡ some o
      → IsSound (Room Q o.id n) (put_file o (extended n o.node) s)
  unfolding put_file
  extended-IsSound ino n o s v e =
      let f = extended n o.node in
      let fits = find_file-each ino o s v e in
      let w = put_found-IsSound ino o f s s v refl e (λ q. resized-IsCovered n o.node (fits q)) in
      let found = lookup-put_object o.key o.key o.id (filenode f) s ∙ ground arith in
      record {
        objects = w.objects;
        caches = w.caches;
        each =
            found-Room Q n o.key s.next_object (record { id = o.id; inode = filenode f }) _
              w.objects found (length-extended n o.node) w.each;
      }

  pub ecall_fs_write-Keeps :
      (ino : ℕ) (buf : Bytes) (offset size : ℕ) (s : Enclave env)
      → (Q → offset + size + chunk_size < size_mod)
      → IsSound (Fits Q) s
      → Keeps (Fits Q) (ecall_fs_write env ino buf offset size s)
  unfolding ecall_fs_write
  ecall_fs_write-Keeps ino buf offset size s b v = elim (Option-cases (find_file ino s)) [
    | inl e ↦ rw (e, Holds) v
    | inr (o, e) ↦
        let st = chunk_st offset in
        let en = chunk_en offset size in
        let t = put_file o (extended en o.node) s in
        let prev = length o.node.chunks in
        let loop = write_loop env (en - st) st o.id offset size prev o.node.size buf 0 t in
        let kept =
          write_loop-Keeps (Room-AllowsChunks Q o.id en) (en - st) st o.id offset size prev
            o.node.size 0 buf t (extended-IsSound ino en o s v e) in
        elim (Option-cases loop) [
          | inl l ↦ rw (e, Holds, l) tt
          | inr ((u, (ok, wsize)), l) ↦
              let whole : ok ≡ true → Q → wsize ≡ size = λ (y : ok ≡ true) q. omega (
                arith,
                write_loop-wsize (en - st) st o.id offset size prev o.node.size 0 wsize buf t u
                    (l ∙ rw y),
                total-all offset size (b q),
              ) in
              rw (e, Holds, l) (written-Keeps o.id offset size wsize ok u whole (rw l at kept))
        ]
  ]

  pub ecall_fs_fallocate-IsSound :
      (ino offset n : ℕ) (s : Enclave env)
      → IsSound (Fits Q) s
      → IsSound (Fits Q) (ecall_fs_fallocate env ino offset n s).0
  unfolding ecall_fs_fallocate
  ecall_fs_fallocate-IsSound ino offset n s v = elim (Option-cases (find_file ino s)) [
    | inl e ↦ rw (e, ecall_fs_fallocate) v
    | inr (o, e) ↦
        let fits = find_file-each ino o s v e in
        rw (e, ecall_fs_fallocate)
          (put_found-IsSound ino o _ s s v refl e (λ q.
            grown-IsCovered offset n (extended (chunk_en offset n) o.node)
              (length-extended (chunk_en offset n) o.node)
              (resized-IsCovered (chunk_en offset n) o.node (fits q))))
  ]
