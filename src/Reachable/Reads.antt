-- ===== src/Reachable/Reads.antt =====
-- The handlers that open, read and flush a file keep the state sound.
use sgx_secfs.Base.{
  ℕ, zero, suc, ◌-◌, ◌≡◌, refl, subst, ◌∙◌, Option, none, some, List, [], ◌∷◌, ◌++◌, arith, nat_eq,
  bytes_eq, length, Option-cases, Bool-cases, inl, inr, Bytes, Bool, true, false, if◌then◌else◌,
  ◌==◌, ltb,
}
use sgx_secfs.Base.Dict
use sgx_secfs.Uuid.{null_uuid}
use sgx_secfs.ChunkStore.{ChunkCache}
use sgx_secfs.Metadata.Codecs.{filenode_codec}
use sgx_secfs.Metadata.Filenode.{Chunk, Filenode}
use sgx_secfs.Enclave.{Env, Enclave}
use sgx_secfs.Directory.Remove.{remove_chunks}
use sgx_secfs.Enclave.Inode.{filenode, as_filenode}
use sgx_secfs.File.{Open, find_file, put_file, chunk_st, chunk_en, off_st, off_en}
use sgx_secfs.File.Chunks.{new_cache, chunk_of, load_chunk, save_chunk, flush_chunk}
use sgx_secfs.File.Read.{read_chunk, read_loop, read_size, ecall_fs_read, load_and_save}
use sgx_secfs.File.Handlers.{
  truncates, ecall_fs_open, flush_chunks, flush_file, and_then, ecall_fs_flush,
}
use sgx_secfs.Reachable.Names.{
  IsSound, Holds, Holds-bind, Holds-if, Holds-any, Holds-elim, Keeps, put_object-IsSound,
  save_metadata-IsSound,
}
use sgx_secfs.Reachable.Lookups.{remove_chunks-IsSound, inode_map-remove_chunks}
use sgx_secfs.Reachable.Caches.{load_chunk-IsSound, save_chunk-Keeps, flush_chunk-IsSound}
use sgx_secfs.Enclave.Inode.{Object}
use sgx_secfs.Reachable.Covered.{Fits, lookup-AllOf, as_filenode_inverse}
use sgx_secfs.Reachable.Caches.{AllowsChunks, length-set_chunk}

pub Fits-AllowsChunks : (Q : Type 0) → AllowsChunks (Fits Q)
Fits-AllowsChunks Q id idx c f v q = rw (length-set_chunk idx c f.chunks) (v q)

module _ {env : Env} {P : Object → Type 0} where
  -- The file that a handler found, which it may write to later.
  pub put_found-IsSound :
      (ino : ℕ) (o : Open) (f : Filenode) (s t : Enclave env)
      → IsSound P t
      → t.inode_map ≡ s.inode_map
      → find_file ino s ≡ some o
      → P (record { id = o.id; inode = filenode f })
      → IsSound P (put_file o f t)
  unfolding find_file put_file
  put_found-IsSound ino o f s t v same e c = elim (Option-cases (Dict.lookup ino s.inode_map)) [
    | inl l ↦ absurd (ground arith)
    | inr (w, l) ↦ elim (Option-cases (as_filenode w.inode)) [
      | inl g ↦ absurd (ground arith)
      | inr (f', g) ↦
          let opened : record { key = ino; id = w.id; node = f' } ≡ o = ground arith in
          let c' : P (record { id = w.id; inode = filenode f }) =
            subst (λ i. P (record { id = i; inode = filenode f })) (ground arith) c in
          rw (← opened) (put_object-IsSound ino w.id (filenode f) w t v (rw same l) refl c')
    ]
  ]

  -- The object that a handler found.
  pub find_file-each :
      (ino : ℕ) (o : Open) (s : Enclave env)
      → IsSound P s
      → find_file ino s ≡ some o
      → P (record { id = o.id; inode = filenode o.node })
  unfolding find_file
  find_file-each ino o s v e = elim (Option-cases (Dict.lookup ino s.inode_map)) [
    | inl l ↦ absurd (ground arith)
    | inr (w, l) ↦ elim (Option-cases (as_filenode w.inode)) [
      | inl g ↦ absurd (ground arith)
      | inr (f, g) ↦
          let opened : record { key = ino; id = w.id; node = f } ≡ o = ground arith in
          rw (← opened, ← as_filenode_inverse w w.id f refl g)
            (lookup-AllOf P ino w s.inode_map v.each l)
    ]
  ]

module _ {env : Env} {P : Object → Type 0} (allows : AllowsChunks P) where
  load_and_save-Keeps :
      (st en : ℕ) (cache : ChunkCache) (s : Enclave env)
      → IsSound P s
      → Keeps P (load_and_save env st en cache s)
  load_and_save-Keeps st en cache s v =
      Holds-bind (λ r. IsSound P r.1.1) (λ x. IsSound P x.0) (load_chunk env cache s) _
        (load_chunk-IsSound cache s v)
        (λ (ok, (cache', s1)) v1.
          Holds-bind (λ x. IsSound P x.0) (λ x. IsSound P x.0)
            (if ok then save_chunk env cache' s1 else some (s1, false)) _
            (Holds-if _ ok (save_chunk env cache' s1) (some (s1, false))
              (save_chunk-Keeps allows cache' s1 v1) v1)
            (λ (s2, saved) v2. v2))

  read_chunk-Keeps :
      (id idx st en : ℕ) (chunk : Chunk) (s : Enclave env)
      → IsSound P s
      → Keeps P (read_chunk env id idx st en chunk s)
  unfolding read_chunk
  read_chunk-Keeps id idx st en chunk s v =
      Holds-if _ (chunk.uuid == null_uuid) _ _ v (load_and_save-Keeps st en (new_cache id idx) s v)

  read_loop-Keeps :
      (n idx id offset size : ℕ) (buf : Bytes) (s : Enclave env)
      → IsSound P s
      → Keeps P (read_loop env n idx id offset size buf s)
  unfolding read_loop
  read_loop-Keeps zero idx id offset size buf s v = v
  read_loop-Keeps (suc n) idx id offset size buf s v =
      let st = off_st offset idx in
      let en = off_en offset size idx in
      Holds-bind (λ _. Unit) (λ x. IsSound P x.0) (chunk_of env (new_cache id idx) s) _
        (Holds-any _)
        (λ chunk _.
          Holds-bind (λ x. IsSound P x.0) (λ x. IsSound P x.0) (read_chunk env id idx st en chunk s)
            _ (read_chunk-Keeps id idx st en chunk s v)
            (λ (t, part) w.
              Holds-elim (λ x. IsSound P x.0) part (some (t, (false, buf)))
                (λ bytes. read_loop env n (suc idx) id offset size (buf ++ bytes) t) w
                (λ bytes. read_loop-Keeps n (suc idx) id offset size (buf ++ bytes) t w)))

-- A loop over `n` chunks that leaves the state sound, the map of inodes as it is, and `n` chunks.
abbrev Flushed :
    {env : Env} → (Object → Type 0) → ℕ → Enclave env → List Chunk × (Enclave env × Bool) → Type 0
Flushed P n s r = IsSound P r.1.0 × (r.1.0.inode_map ≡ s.inode_map) × (length r.0 ≡ n)

-- The rest of the chunks after one that is flushed.
and_then-Holds :
    {env : Env} (P : Object → Type 0) (c : Chunk) (n : ℕ) (s t : Enclave env)
    (r : Option (List Chunk × (Enclave env × Bool)))
    → t.inode_map ≡ s.inode_map
    → Holds (Flushed P n t) r
    → Holds (Flushed P (suc n) s) (and_then env c r)
and_then-Holds P c n s t none same h = tt
and_then-Holds P c n s t (some (cs, r)) same h = (h.0, h.1 ∙ same, omega (arith, h.2))

module _ {env : Env} {Q : Type 0} where
  pub ecall_fs_read-Keeps :
      (ino offset size : ℕ) (s : Enclave env)
      → IsSound (Fits Q) s
      → Keeps (Fits Q) (ecall_fs_read env ino offset size s)
  unfolding ecall_fs_read
  ecall_fs_read-Keeps ino offset size s v = elim (Option-cases (find_file ino s)) [
    | inl e ↦ rw (e, Holds) v
    | inr (o, e) ↦
        let n = read_size o.node.size offset size in
        rw (e, Holds)
          (Holds-if _ (ltb (length o.node.chunks) (chunk_en offset n)) _ _ v (
            Holds-bind (λ x. IsSound (Fits Q) x.0) (λ x. IsSound (Fits Q) x.0)
              (read_loop env (chunk_en offset n - chunk_st offset) (chunk_st offset) o.id offset n
                [] s)
              _
              (read_loop-Keeps (Fits-AllowsChunks Q) (chunk_en offset n - chunk_st offset)
                (chunk_st offset) o.id offset n [] s v)
              (λ (t, r) w. w)))
  ]

  pub ecall_fs_open-IsSound :
      (ino flags : ℕ) (s : Enclave env)
      → IsSound (Fits Q) s
      → IsSound (Fits Q) (ecall_fs_open env ino flags s).0
  unfolding ecall_fs_open
  ecall_fs_open-IsSound ino flags s v = elim (Option-cases (find_file ino s)) [
    | inl e ↦ rw (e, ecall_fs_open) v
    | inr (o, e) ↦ elim (Bool-cases (truncates flags)) [
      | inr k ↦ rw (e, ecall_fs_open) (rw k v)
      | inl k ↦
          rw (e, ecall_fs_open)
            (rw k (
              put_found-IsSound ino o _ s (remove_chunks env o.node.chunks s)
                (remove_chunks-IsSound o.node.chunks s v) (inode_map-remove_chunks o.node.chunks s)
                e (λ q. omega arith)))
    ]
  ]

  flush_file-IsSound :
      (o : Open) (cs : List Chunk) (t : Enclave env) (ok : Bool)
      → IsSound (Fits Q) (put_file o (record o.node { chunks = cs }) t)
      → IsSound (Fits Q) (flush_file env o (cs, (t, ok))).0
  flush_file-IsSound o cs t true v = save_metadata-IsSound filenode_codec _ _ v
  flush_file-IsSound o cs t false v = v

  flush_chunks-Flushed :
      (cs : List Chunk) (s : Enclave env)
      → IsSound (Fits Q) s
      → Holds (Flushed (Fits Q) (length cs) s) (flush_chunks env cs s)
  unfolding flush_chunks
  flush_chunks-Flushed [] s v = (v, refl, refl)
  flush_chunks-Flushed (c ∷ cs) s v =
      Holds-bind (λ r. IsSound (Fits Q) r.1.0 × (r.1.0.inode_map ≡ s.inode_map))
        (Flushed (Fits Q) (suc (length cs)) s) (flush_chunk env c s) _ (flush_chunk-IsSound c s v)
        (λ (c', (t, ok)) (w, same).
          Holds-if _ ok _ _
            (and_then-Holds (Fits Q) c' (length cs) s t (flush_chunks env cs t) same
              (flush_chunks-Flushed cs t w))
            (w, same, refl))

  pub ecall_fs_flush-Keeps :
      (ino : ℕ) (s : Enclave env) → IsSound (Fits Q) s → Keeps (Fits Q) (ecall_fs_flush env ino s)
  unfolding ecall_fs_flush
  ecall_fs_flush-Keeps ino s v = elim (Option-cases (find_file ino s)) [
    | inl e ↦ rw (e, Holds) v
    | inr (o, e) ↦
        let fits = find_file-each ino o s v e in
        rw (e, Holds)
          (Holds-bind (Flushed (Fits Q) (length o.node.chunks) s) (λ x. IsSound (Fits Q) x.0)
            (flush_chunks env o.node.chunks s) _ (flush_chunks-Flushed o.node.chunks s v)
            (λ (cs, (t, ok)) (w, same, count). flush_file-IsSound o cs t ok (
              put_found-IsSound ino o (record o.node { chunks = cs }) s t w same e
                (λ q. rw count (fits q)))))
  ]
