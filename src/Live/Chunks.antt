-- ===== src/Live/Chunks.antt =====
-- Files that keep their chunks, and the chunks that caches belong to.
use sgx_secfs.Base.{
  ℕ, zero, suc, ◌≡◌, ◌≤◌, refl, sym, subst, some, List, [], ◌∷◌, ◌++◌, All, arith, nat_eq, length,
  bytes_eq, if_pos, if_neg, Bytes,
}
use sgx_secfs.Base.Dict
use sgx_secfs.Base.Dict.{Dict}
use sgx_secfs.ChunkStore.{ChunkCache}
use sgx_secfs.ChunkStore.Refinement.{view, find_key, remove_key}
use sgx_secfs.Metadata.Filenode.{Chunk, Filenode}
use sgx_secfs.Enclave.{Env, Enclave}
use sgx_secfs.Enclave.Inode.{Object, filenode, as_filenode}
use sgx_secfs.Directory.{put_object}
use sgx_secfs.File.{Open, chunk_at?, lock, put_file}
use sgx_secfs.File.Chunks.{chunk_of}
use sgx_secfs.Reachable.Objects.{lock-lookup, lookup-lock, insert-same}
use sgx_secfs.Live.{HasChunks, IsLive, IsReady, Grows, Onward, Returns}

pub All-map :
    {A : Type 0} (P R : A → Type 0) (xs : List A) → ((x : A) → P x → R x) → All P xs → All R xs
All-map P R [] h v = tt
All-map P R (x ∷ xs) h v = (h x v.0, All-map P R xs h v.1)

pub All-append_last :
    {A : Type 0} (P : A → Type 0) (xs : List A) (x : A) → All P xs → P x → All P (xs ++ x ∷ [])
All-append_last P [] x v h = (h, tt)
All-append_last P (y ∷ xs) x v h = (v.0, All-append_last P xs x v.1 h)

pub All-remove_key :
    (P : ChunkCache → Type 0) (u : Bytes) (cs : List ChunkCache)
    → All P cs
    → All P (remove_key u cs)
All-remove_key P u [] v = tt
All-remove_key P u (c ∷ cs) v = elim (bytes_eq.dec u c.uuid) [
  | yes p ↦ rw (if_pos _ p) v.1
  | no p ↦ rw (if_neg _ p) (v.0, All-remove_key P u cs v.1)
]

pub All-find_key :
    (P : ChunkCache → Type 0) (u : Bytes) (c : ChunkCache) (cs : List ChunkCache)
    → All P cs
    → find_key u cs ≡ some c
    → P c
All-find_key P u c [] v e = cc
All-find_key P u c (d ∷ cs) v e = elim (bytes_eq.dec u d.uuid) [
  | yes p ↦ let same : d ≡ c = ground arith in rw (← same) v.0
  | no p ↦ All-find_key P u c cs v.1 (ground arith)
]

pub fewer-HasChunks : (m : Dict ℕ Object) (id n k : ℕ) → k ≤ n → HasChunks m id n → HasChunks m id k
fewer-HasChunks m id n k h (j, w, f, a, b, c, d) = (j, w, f, a, b, c, omega (arith, h, d))

chunk_at?-lt :
    (idx : ℕ) (cs : List Chunk) → suc idx ≤ length cs → (c : Chunk) × (chunk_at? idx cs ≡ some c)
unfolding chunk_at?
chunk_at?-lt idx [] h = absurd (omega (arith, h))
chunk_at?-lt zero (c ∷ cs) h = (c, refl)
chunk_at?-lt (suc idx) (c ∷ cs) h = chunk_at?-lt idx cs (omega (arith, h))

insert-HasChunks :
    (m : Dict ℕ Object) (k : ℕ) (w : Object) (f g : Filenode) (id n : ℕ)
    → Dict.lookup k m ≡ some w
    → as_filenode w.inode ≡ some f
    → length f.chunks ≤ length g.chunks
    → HasChunks m id n
    → HasChunks (Dict.insert k (record { id = w.id; inode = filenode g }) m) id n
insert-HasChunks m k w f g id n l e h (j, x, y, a, b, c, d) = elim (nat_eq.dec j k) [
  | yes p ↦ (
    k,
    record { id = w.id; inode = filenode g },
    g,
    Dict.lookup-insert_same k _ m,
    ground arith,
    refl,
    ground arith,
  )
  | no p ↦ (
    j,
    x,
    y,
    ground (arith, Dict.lookup-insert j k (record { id = w.id; inode = filenode g }) m),
    b,
    c,
    d,
  )
]

module _ {env : Env} where
  pub lock-HasChunks :
      (id n : ℕ) (s : Enclave env)
      → IsReady s
      → HasChunks s.inode_map id n
      → (o : Open) × (lock id s.inode_map ≡ some o) × (n ≤ length o.node.chunks)
  lock-HasChunks id n s v (k, w, f, a, b, c, d) = (
    record { key = k; id = w.id; node = f },
    rw (← b) (lock-lookup s.next_object k w f s.inode_map v.objects a c),
    d,
  )

  -- The chunk of a live cache.
  pub chunk_of-IsLive :
      (cache : ChunkCache) (s : Enclave env)
      → IsReady s
      → IsLive s.inode_map cache
      → (c : Chunk) × (chunk_of env cache s ≡ some c)
  unfolding chunk_of
  chunk_of-IsLive cache s v h =
      let (o, l, n) = lock-HasChunks cache.filenode (suc cache.chunk_idx) s v h in
      let (c, e) = chunk_at?-lt cache.chunk_idx o.node.chunks n in (c, rw l e)

  pub chunk_of-Returns :
      (cache : ChunkCache) (s : Enclave env)
      → IsReady s
      → IsLive s.inode_map cache
      → Returns (λ _. Unit) (chunk_of env cache s)
  chunk_of-Returns cache s v h = let (c, e) = chunk_of-IsLive cache s v h in rw e tt

  -- A file of the map is written back with no fewer chunks.
  pub put_file-Onward :
      (id : ℕ) (o : Open) (f : Filenode) (s : Enclave env)
      → IsReady s
      → lock id s.inode_map ≡ some o
      → length o.node.chunks ≤ length f.chunks
      → Onward s (put_file o f s)
  unfolding put_file put_object
  put_file-Onward id o f s v l h =
      let (w, found, same, _, file) = lookup-lock s.next_object id o s.inode_map v.objects l in
      let grows : Grows s (put_file o f s) = λ j n c.
        subst
          (λ i.
            HasChunks (Dict.insert o.key (record { id = i; inode = filenode f }) s.inode_map) j n)
          same (insert-HasChunks s.inode_map o.key w o.node f j n found file h c) in
      (
        record {
          objects =
              insert-same s.next_object o.key (record { id = o.id; inode = filenode f }) w
                s.inode_map v.objects found (sym same);
          caches = v.caches;
          live = All-map _ _ (view s.local_cache) (λ c. grows c.filenode (suc c.chunk_idx)) v.live;
        },
        grows,
      )
