-- ===== src/Reachable/Caches.antt =====
-- Moving chunks between the cache and the storage keeps the state sound.
use sgx_secfs.Base.{
  ℕ, zero, suc, ◌≡◌, refl, sym, Option, none, some, List, [], ◌∷◌, arith, nat_eq, bytes_eq, length,
  Option-cases, Bool-cases, inl, inr, Bytes, true, ltb,
}
use sgx_secfs.Uuid.{unparse}
use sgx_secfs.ChunkStore
use sgx_secfs.ChunkStore.{ChunkStore, ChunkCache}
use sgx_secfs.ChunkStore.Invariant.{IsValid}
use sgx_secfs.ChunkStore.Refinement.{push_get_back_lem}
use sgx_secfs.ChunkStore.Refinement.History.{pops_get, erases_get, takes, Step-IsValid}
use sgx_secfs.Metadata.Filenode.{Chunk, Filenode}
use sgx_secfs.Enclave.{Env, Enclave}
use sgx_secfs.Enclave.Inode.{Object, filenode}
use sgx_secfs.File.{Open, lock, put_file, set_chunk}
use sgx_secfs.File.Chunks.{
  chunk_of, save_cipher, save_cache, assign_chunk, load_chunk, write_back, evict, save_chunk,
  flush_found, flush_chunk,
}
use sgx_secfs.Reachable.Objects.{lookup-lock}
use sgx_secfs.Reachable.Covered.{lookup-AllOf, as_filenode_inverse}
use sgx_secfs.Reachable.Names.{IsSound, Holds, Keeps, put_object-IsSound}

pub length-set_chunk :
    (idx : ℕ) (c : Chunk) (cs : List Chunk) → length (set_chunk idx c cs) ≡ length cs
unfolding set_chunk
length-set_chunk idx c [] = refl
length-set_chunk zero c (d ∷ cs) = refl
length-set_chunk (suc idx) c (d ∷ cs) = omega (arith, length-set_chunk idx c cs)

-- What still holds of an object when a chunk of its file is written to.
abbrev pub AllowsChunks : (Object → Type 0) → Type 0
AllowsChunks P =
    (id idx : ℕ) (c : Chunk) (f : Filenode)
    → P (record { id = id; inode = filenode f })
    → P (record { id = id; inode = filenode (record f { chunks = set_chunk idx c f.chunks }) })

module _ {env : Env} where
  inode_map-save_cipher :
      (chunk : Chunk) (r : Option (Bytes × Bytes)) (s : Enclave env)
      → (save_cipher env chunk r s).1.0.inode_map ≡ s.inode_map
  inode_map-save_cipher chunk none s = refl
  inode_map-save_cipher chunk (some (obuf, tag)) s = ground arith

  pub inode_map-save_cache :
      (chunk : Chunk) (contents : Bytes) (s : Enclave env)
      → (save_cache env chunk contents s).1.0.inode_map ≡ s.inode_map
  unfolding save_cache
  inode_map-save_cache chunk contents s = inode_map-save_cipher _ _ s

  next_object-save_cipher :
      (chunk : Chunk) (r : Option (Bytes × Bytes)) (s : Enclave env)
      → (save_cipher env chunk r s).1.0.next_object ≡ s.next_object
  next_object-save_cipher chunk none s = refl
  next_object-save_cipher chunk (some (obuf, tag)) s = ground arith

  pub next_object-save_cache :
      (chunk : Chunk) (contents : Bytes) (s : Enclave env)
      → (save_cache env chunk contents s).1.0.next_object ≡ s.next_object
  unfolding save_cache
  next_object-save_cache chunk contents s = next_object-save_cipher _ _ s

module _ {env : Env} {P : Object → Type 0} where
  pub put_file-IsSound :
      (id : ℕ) (o : Open) (f : Filenode) (s : Enclave env)
      → IsSound P s
      → lock id s.inode_map ≡ some o
      → P (record { id = o.id; inode = filenode f })
      → IsSound P (put_file o f s)
  unfolding put_file
  put_file-IsSound id o f s v l c =
      let (w, found, same, _, _) = lookup-lock s.next_object id o s.inode_map v.objects l in
      put_object-IsSound o.key o.id (filenode f) w s v found (sym same) c

  -- The object that a weak pointer leads to.
  pub lock-each :
      (id : ℕ) (o : Open) (s : Enclave env)
      → IsSound P s
      → lock id s.inode_map ≡ some o
      → P (record { id = o.id; inode = filenode o.node })
  lock-each id o s v l =
      let (w, found, same, _, file) = lookup-lock s.next_object id o s.inode_map v.objects l in
      let whole : w ≡ record { id = o.id; inode = filenode o.node } =
        as_filenode_inverse w o.id o.node same file in
      rw (← whole) (lookup-AllOf _ o.key w s.inode_map v.each found)

  save_cipher-IsSound :
      (chunk : Chunk) (r : Option (Bytes × Bytes)) (s : Enclave env)
      → IsSound P s
      → IsSound P (save_cipher env chunk r s).1.0
  save_cipher-IsSound chunk none s v = v
  save_cipher-IsSound chunk (some (obuf, tag)) s v =
      elim (Bool-cases (env.host.sgx_success s.storage (unparse chunk.uuid))) [
        | inl e ↦ rw e (record { objects = v.objects; caches = v.caches; each = v.each })
        | inr e ↦ rw e v
      ]

  pub save_cache-IsSound :
      (chunk : Chunk) (contents : Bytes) (s : Enclave env)
      → IsSound P s
      → IsSound P (save_cache env chunk contents s).1.0
  unfolding save_cache
  save_cache-IsSound chunk contents s v = save_cipher-IsSound _ _ s v

  -- The store after an operation on it.
  with_store-IsSound :
      (store : ChunkStore) (s : Enclave env)
      → IsSound P s
      → IsValid store
      → IsSound P (record s { local_cache = store })
  with_store-IsSound store s v w = record { objects = v.objects; caches = w; each = v.each }

  pub load_chunk-IsSound :
      (cache : ChunkCache) (s : Enclave env)
      → IsSound P s
      → Holds (λ r. IsSound P r.1.1) (load_chunk env cache s)
  unfolding load_chunk
  load_chunk-IsSound cache s v = elim (Option-cases (chunk_of env cache s)) [
    | inl e ↦ rw (e, Holds) tt
    | inr (chunk, e) ↦ elim (Option-cases (ChunkStore.get_erase_by_key chunk.uuid s.local_cache)) [
      | inl f ↦ rw (e, Holds, f) tt
      | inr ((none, store), f) ↦ rw (e, Holds, f) v
      | inr ((some c, store), f) ↦
          rw (e, Holds, f)
            (with_store-IsSound store s v (Step-IsValid (takes chunk.uuid (some c) f) v.caches))
    ]
  ]

  -- A flush leaves the map of inodes as it is.
  flush_found-IsSound :
      (chunk : Chunk) (store : ChunkStore) (iter : Option ℕ) (s : Enclave env)
      → IsSound P s
      → IsValid store
      → Holds
          (λ r. IsSound P r.1.0 × (r.1.0.inode_map ≡ s.inode_map))
          (flush_found env chunk store iter s)
  flush_found-IsSound chunk store none s v w = (v, refl)
  flush_found-IsSound chunk store (some iter) s v w =
      elim (Option-cases (ChunkStore.get_erase iter store)) [
        | inl f ↦ rw (f, Holds) tt
        | inr ((cache, store'), f) ↦
            let v' = with_store-IsSound store' s v (Step-IsValid (erases_get iter cache f) w) in
            elim (Bool-cases cache.modified) [
              | inl e ↦
                  rw (f, Holds)
                    (rw (e, Holds)
                      (
                        save_cache-IsSound chunk cache.bytes _ v',
                        inode_map-save_cache chunk cache.bytes _,
                      ))
              | inr e ↦ rw (f, Holds) (rw (e, Holds) (v', refl))
            ]
      ]

  pub flush_chunk-IsSound :
      (chunk : Chunk) (s : Enclave env)
      → IsSound P s
      → Holds (λ r. IsSound P r.1.0 × (r.1.0.inode_map ≡ s.inode_map)) (flush_chunk env chunk s)
  unfolding flush_chunk
  flush_chunk-IsSound chunk s v =
      elim (Option-cases (ChunkStore.findbykey chunk.uuid s.local_cache)) [
        | inl f ↦ rw (f, Holds) tt
        | inr (iter, f) ↦ rw (f, Holds) (flush_found-IsSound chunk s.local_cache iter s v v.caches)
      ]

module _ {env : Env} {P : Object → Type 0} (allows : AllowsChunks P) where
  pub assign_chunk-IsSound :
      (cache : ChunkCache) (c : Chunk) (s : Enclave env)
      → IsSound P s
      → IsSound P (assign_chunk env cache c s)
  unfolding assign_chunk
  assign_chunk-IsSound cache c s v = elim (Option-cases (lock cache.filenode s.inode_map)) [
    | inl l ↦ rw l v
    | inr (o, l) ↦ rw l (
        put_file-IsSound cache.filenode o _ s v l
          (allows o.id cache.chunk_idx c o.node (lock-each cache.filenode o s v l)))
  ]

  write_back-IsSound :
      (old : ChunkCache) (chunk : Chunk) (s : Enclave env)
      → IsSound P s
      → IsSound P (write_back env old chunk s).0
  write_back-IsSound old chunk s v =
      let v' = save_cache-IsSound chunk old.bytes s v in
      elim (Bool-cases old.modified) [
        | inr e ↦ rw e v
        | inl e ↦ elim (Bool-cases (save_cache env chunk old.bytes s).1.1) [
          | inl x ↦ rw (e, x) (assign_chunk-IsSound (record old { modified = true }) _ _ v')
          | inr x ↦ rw (e, x) v'
        ]
      ]

  evict-IsSound : (n : ℕ) (s : Enclave env) → IsSound P s → Keeps P (evict env n s)
  unfolding evict
  evict-IsSound zero s v = v
  evict-IsSound (suc n) s v =
      elim (Bool-cases (ltb env.max_cache_num (length s.local_cache.nodes))) [
        | inr small ↦ rw (small, Holds) v
        | inl big ↦ elim (Option-cases (ChunkStore.get_pop_front s.local_cache)) [
          | inl f ↦ rw (big, Holds, f) tt
          | inr ((old, store), f) ↦ elim (Option-cases (chunk_of env old s)) [
            | inl g ↦ rw (big, Holds, f) (rw (g, Holds) tt)
            | inr (chunk, g) ↦
                let t = record s { local_cache = store } in
                let v' =
                  write_back-IsSound old chunk t
                    (with_store-IsSound store s v (Step-IsValid (pops_get old f) v.caches)) in
                elim (Bool-cases (write_back env old chunk t).1) [
                  | inl x ↦
                      rw (big, Holds, f) (rw (g, Holds) (rw (x, Holds) (evict-IsSound n _ v')))
                  | inr x ↦ rw (big, Holds, f) (rw (g, Holds) (rw (x, Holds) v'))
                ]
          ]
        ]
      ]

  pub save_chunk-Keeps :
      (cache : ChunkCache) (s : Enclave env) → IsSound P s → Keeps P (save_chunk env cache s)
  unfolding save_chunk
  save_chunk-Keeps cache s v = elim (Option-cases (chunk_of env cache s)) [
    | inl e ↦ rw (e, Holds) tt
    | inr (chunk, e) ↦
        let store = (ChunkStore.push_get_back chunk.uuid cache s.local_cache).0 in
        rw (e, Holds)
          (evict-IsSound (length store.nodes) (record s { local_cache = store })
            (with_store-IsSound store s v
              (push_get_back_lem chunk.uuid cache s.local_cache v.caches).0))
  ]
