-- ===== src/Live/Caches.antt =====
-- Moving chunks between the cache and the storage comes to an end with a result.
use sgx_secfs.Base.{
  ℕ, zero, suc, ◌≡◌, refl, Option, none, some, List, [], ◌∷◌, All, arith, nat_eq, length,
  Option-cases, Bool-cases, inl, inr, bytes_eq, Bytes, Bool, true, ltb,
}
use sgx_secfs.ChunkStore
use sgx_secfs.ChunkStore.{ChunkStore, ChunkCache}
use sgx_secfs.ChunkStore.Invariant.{IsValid}
use sgx_secfs.ChunkStore.Refinement.{
  view, view_nodes, find_key, push_get_back_lem, get_pop_front_lem, get_erase_by_key_lem,
}
use sgx_secfs.Metadata.Filenode.{Chunk}
use sgx_secfs.Enclave.{Env, Enclave}
use sgx_secfs.File.{lock}
use sgx_secfs.File.Cached.{local_cache-save_cache}
use sgx_secfs.File.Chunks.{save_cache, assign_chunk, load_chunk, write_back, evict, save_chunk}
use sgx_secfs.Reachable.Caches.{length-set_chunk, inode_map-save_cache, next_object-save_cache}
use sgx_secfs.Live.{IsLive, IsReady, Grows, Onward, Returns}
use sgx_secfs.Live.Chunks.{
  All-append_last, All-remove_key, All-find_key, chunk_of-IsLive, put_file-Onward,
}

view_nodes-cons :
    (n : ℕ) (ns : ChunkStore.Nodes)
    → ltb n (length ns) ≡ true
    → (c : ChunkCache) × (cs : List ChunkCache) × (view_nodes ns ≡ c ∷ cs)
view_nodes-cons n [] h = absurd (ground arith)
view_nodes-cons n ((i, c) ∷ ns) h = (c, view_nodes ns, refl)

module _ {env : Env} where
  pub then-Onward : (s t u : Enclave env) → Grows s t → Onward t u → Onward s u
  then-Onward s t u g (v, h) = (v, λ id n c. h id n (g id n c))

  pub later-Returns :
      {R : Type 0} (s t : Enclave env) (m : Option (Enclave env × R))
      → Grows s t
      → Returns (λ x. Onward t x.0) m
      → Returns (λ x. Onward s x.0) m
  later-Returns s t none g h = h
  later-Returns s t (some (u, r)) g h = then-Onward s t u g h

  -- The store after an operation that leaves live caches.
  with_store-IsReady :
      (store : ChunkStore) (s : Enclave env)
      → IsReady s
      → IsValid store
      → All (IsLive s.inode_map) (view store)
      → IsReady (record s { local_cache = store })
  with_store-IsReady store s v w h = record { objects = v.objects; caches = w; live = h }

  pub save_cache-Onward :
      (chunk : Chunk) (contents : Bytes) (s : Enclave env)
      → IsReady s
      → Onward s (save_cache env chunk contents s).1.0
  save_cache-Onward chunk contents s v =
      let a = inode_map-save_cache chunk contents s in
      let b = local_cache-save_cache chunk contents s in
      (
        record {
          objects = rw (a, next_object-save_cache chunk contents s) v.objects;
          caches = rw b v.caches;
          live = rw (a, b) v.live;
        },
        λ id n c. rw a c,
      )

  pub assign_chunk-Onward :
      (cache : ChunkCache) (c : Chunk) (s : Enclave env)
      → IsReady s
      → Onward s (assign_chunk env cache c s)
  unfolding assign_chunk
  assign_chunk-Onward cache c s v = elim (Option-cases (lock cache.filenode s.inode_map)) [
    | inl l ↦ rw l (v, λ id n h. h)
    | inr (o, l) ↦ rw l (
        put_file-Onward cache.filenode o _ s v l
          (omega (arith, length-set_chunk cache.chunk_idx c o.node.chunks)))
  ]

  write_back-Onward :
      (old : ChunkCache) (chunk : Chunk) (s : Enclave env)
      → IsReady s
      → Onward s (write_back env old chunk s).0
  write_back-Onward old chunk s v =
      let (chunk', (t, saved)) = save_cache env chunk old.bytes s in
      let (w, g) = save_cache-Onward chunk old.bytes s v in
      elim (Bool-cases old.modified) [
        | inr e ↦ rw e (v, λ id n h. h)
        | inl e ↦ elim (Bool-cases saved) [
          | inl x ↦
              rw (e, x)
                (then-Onward s t _ g
                  (assign_chunk-Onward (record old { modified = true }) chunk' t w))
          | inr x ↦ rw (e, x) (w, g)
        ]
      ]

  evict-Returns :
      (n : ℕ) (s : Enclave env) → IsReady s → Returns (λ x. Onward s x.0) (evict env n s)
  unfolding evict
  evict-Returns zero s v = (v, λ id n h. h)
  evict-Returns (suc n) s v =
      elim (Bool-cases (ltb env.max_cache_num (length s.local_cache.nodes))) [
        | inr small ↦ rw small (v, λ id n h. h)
        | inl big ↦
            let (old, cs, e) = view_nodes-cons env.max_cache_num s.local_cache.nodes big in
            let (store, got, _, w, shown) = get_pop_front_lem s.local_cache old cs v.caches e in
            let parts : IsLive s.inode_map old × All (IsLive s.inode_map) cs = rw e at v.live in
            let (chunk, g) = chunk_of-IsLive old s v (parts.0) in
            let t = record s { local_cache = store } in
            let ready = with_store-IsReady store s v w (rw shown (parts.1)) in
            let (ready', grows) = write_back-Onward old chunk t ready in
            let u = (write_back env old chunk t).0 in
            elim (Bool-cases (write_back env old chunk t).1) [
              | inl x ↦
                  rw (big, got) (rw g (rw x (later-Returns s u _ grows (evict-Returns n u ready'))))
              | inr x ↦ rw (big, got) (rw g (rw x (ready', grows)))
            ]
      ]

  pub save_chunk-Returns :
      (cache : ChunkCache) (s : Enclave env)
      → IsReady s
      → IsLive s.inode_map cache
      → Returns (λ x. Onward s x.0) (save_chunk env cache s)
  unfolding save_chunk
  save_chunk-Returns cache s v h =
      let (chunk, e) = chunk_of-IsLive cache s v h in
      let (w, shown, _) = push_get_back_lem chunk.uuid cache s.local_cache v.caches in
      let store = (ChunkStore.push_get_back chunk.uuid cache s.local_cache).0 in
      let live : All (IsLive s.inode_map) (view store) = rw shown (
        All-append_last _ _ (record cache { uuid = chunk.uuid })
          (All-remove_key _ chunk.uuid _ v.live) h) in
      rw e (
        evict-Returns (length store.nodes) (record s { local_cache = store })
          (with_store-IsReady store s v w live))

  -- What `load_chunk` gives: a live cache, and the state with the same files.
  abbrev pub LoadedFrom : Enclave env → Bool × (ChunkCache × Enclave env) → Type 0
  LoadedFrom s r = Onward s r.1.1 × IsLive r.1.1.inode_map r.1.0

  pub load_chunk-Returns :
      (cache : ChunkCache) (s : Enclave env)
      → IsReady s
      → IsLive s.inode_map cache
      → Returns (LoadedFrom s) (load_chunk env cache s)
  unfolding load_chunk
  load_chunk-Returns cache s v h =
      let (chunk, e) = chunk_of-IsLive cache s v h in
      let (store, got, w, shown) = get_erase_by_key_lem chunk.uuid s.local_cache v.caches in
      let live : All (IsLive s.inode_map) (view store) =
        rw shown (All-remove_key _ chunk.uuid _ v.live) in
      elim (Option-cases (find_key chunk.uuid (view s.local_cache))) [
        | inl f ↦ rw (e, got, f) ((v, λ id n c. c), h)
        | inr (c, f) ↦
            rw (e, got, f)
              (
                (with_store-IsReady store s v w live, λ id n c. c),
                All-find_key _ chunk.uuid c _ v.live f,
              )
      ]
