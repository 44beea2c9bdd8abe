-- ===== src/ChunkStore/Refinement.antt =====
-- The operations of a `ChunkStore` against a plain list of caches, the least recently pushed first.
pub mod History
pub mod Insert
use sgx_secfs.Base.{
  ℕ, suc, ◌≡◌, refl, sym, ap, ◌≢◌, ◌⊎◌, inl, inr, if_pos, if_neg, Option, none, some, List, [], ◌∷◌,
  ◌++◌, map, arith, Bytes, ◌==◌, bytes_eq, if◌then◌else◌, Option-cases,
}
use sgx_secfs.Base.Dict
use sgx_secfs.Base.Dict.{Dict}
use sgx_secfs.ChunkStore.{
  ChunkCache, ChunkStore, Nodes, node_at?, erase_node, drop_old, push_get_back, push_back,
  pop_front, get_pop_front, get_erase, findbykey, erasebykey, get_erase_by_key,
}
use sgx_secfs.ChunkStore.Invariant.{
  iter_of, Distinct, node_at?-iter_of, iter_of-erase_node, erase_node-Distinct, append-Distinct,
  iter_of-append, IsValid,
}

abbrev pub view_nodes : Nodes → List ChunkCache
view_nodes [] = []
view_nodes ((i, c) ∷ ns) = c ∷ view_nodes ns

abbrev pub view : ChunkStore → List ChunkCache
view s = view_nodes s.nodes

-- The specification's operations.
abbrev pub find_key : Bytes → List ChunkCache → Option ChunkCache
find_key u [] = none
find_key u (c ∷ cs) = if u == c.uuid then some c else find_key u cs

abbrev pub remove_key : Bytes → List ChunkCache → List ChunkCache
remove_key u [] = []
remove_key u (c ∷ cs) = if u == c.uuid then cs else c ∷ remove_key u cs

view_nodes-append :
    (ns : Nodes) (i : ℕ) (c : ChunkCache) → view_nodes (ns ++ (i, c) ∷ []) ≡ view_nodes ns ++ c ∷ []
view_nodes-append [] i c = refl
view_nodes-append ((j, d) ∷ ns) i c = ap (◌∷◌ d) (view_nodes-append ns i c)

find_key-view_none :
    (u : Bytes) (ns : Nodes) → iter_of u ns ≡ none → find_key u (view_nodes ns) ≡ none
find_key-view_none u [] h = refl
find_key-view_none u ((j, c) ∷ ns) h = ground (arith, find_key-view_none u ns)

remove_key-view_none :
    (u : Bytes) (ns : Nodes) → iter_of u ns ≡ none → remove_key u (view_nodes ns) ≡ view_nodes ns
remove_key-view_none u [] h = refl
remove_key-view_none u ((j, c) ∷ ns) h = ground (arith, remove_key-view_none u ns)

find_key-view_some :
    (u : Bytes) (ns : Nodes) (i n : ℕ)
    → Distinct n ns
    → iter_of u ns ≡ some i
    → find_key u (view_nodes ns) ≡ node_at? i ns
unfolding node_at?
find_key-view_some u [] i n d h = cc
find_key-view_some u ((j, c) ∷ ns) i n d h =
    ground (arith, find_key-view_some u ns i n d.3, node_at?-iter_of u ns i n d.3)

remove_key-view_some :
    (u : Bytes) (ns : Nodes) (i n : ℕ)
    → Distinct n ns
    → iter_of u ns ≡ some i
    → remove_key u (view_nodes ns) ≡ view_nodes (erase_node i ns)
unfolding erase_node
remove_key-view_some u [] i n d h = cc
remove_key-view_some u ((j, c) ∷ ns) i n d h =
    ground (arith, remove_key-view_some u ns i n d.3, node_at?-iter_of u ns i n d.3)

-- What a push does to the nodes before it appends.
drop_old-lem :
    (u : Bytes) (ns : Nodes) (n : ℕ)
    → Distinct n ns
    → Distinct n (drop_old (iter_of u ns) ns)
      × ((v : Bytes)
          → iter_of v (drop_old (iter_of u ns) ns) ≡ (if v == u then none else iter_of v ns))
      × (view_nodes (drop_old (iter_of u ns) ns) ≡ remove_key u (view_nodes ns))
drop_old-lem u ns n d = elim (Option-cases (iter_of u ns)) [
  | inl e ↦ rw (e, drop_old) (d, λ v. ground arith, sym (remove_key-view_none u ns e))
  | inr (i, e) ↦
      rw (e, drop_old)
        (
          erase_node-Distinct i n ns d,
          λ v. iter_of-erase_node v u ns i n d e,
          sym (remove_key-view_some u ns i n d e),
        )
]

node_at?-append_last :
    (ns : Nodes) (n : ℕ) (c : ChunkCache) → Distinct n ns → node_at? n (ns ++ (n, c) ∷ []) ≡ some c
unfolding node_at?
node_at?-append_last [] n c d = ground arith
node_at?-append_last ((j, e) ∷ ns) n c d = ground (arith, node_at?-append_last ns n c d.3)

push_IsValid :
    (u : Bytes) (c : ChunkCache) (s : ChunkStore) (ns : Nodes)
    → Distinct s.next_node ns
    → ((v : Bytes) → iter_of v ns ≡ (if v == u then none else iter_of v s.nodes))
    → IsValid s
    → c.uuid ≡ u
    → IsValid (record {
      next_node = suc s.next_node;
      nodes = ns ++ (s.next_node, c) ∷ [];
      index = Dict.insert u s.next_node s.index;
    })
push_IsValid u c s ns d others v e = record {
  distinct = append-Distinct s.next_node c ns absent d;
  agrees = λ w. ground (
    arith,
    Dict.lookup-insert w u s.next_node s.index,
    v.agrees w,
    iter_of-append w ns s.next_node c absent,
    others w,
  );
}
  where
    absent : iter_of c.uuid ns ≡ none
    absent = ground (arith, others c.uuid)

-- A push of a cache under a key, on a store whose list and map are in step: they stay in step, the
-- old cache of the key is gone, the new one is the last of the list, all others keep their order,
-- and the returned iterator points to the new one.
pub push_get_back_lem :
    (u : Bytes) (c : ChunkCache) (s : ChunkStore)
    → IsValid s
    → let s' = (push_get_back u c s).0 in
      IsValid s'
      × (view s' ≡ remove_key u (view s) ++ record c { uuid = u } ∷ [])
      × (node_at? (push_get_back u c s).1 s'.nodes ≡ some (record c { uuid = u }))
unfolding push_get_back
push_get_back_lem u c s v = rw (v.agrees u) (
    let (d, others, shown) = drop_old-lem u s.nodes s.next_node v.distinct in
    (
      push_IsValid u (record c { uuid = u }) s _ d others v refl,
      rw (view_nodes-append _ s.next_node (record c { uuid = u }), shown),
      node_at?-append_last _ s.next_node _ d,
    ))

-- `push_back` leaves the store that `push_get_back` leaves.
pub push_back-push_get_back :
    (u : Bytes) (c : ChunkCache) (s : ChunkStore) → push_back u c s ≡ (push_get_back u c s).0
unfolding push_back push_get_back
push_back-push_get_back u c s = refl

-- The parts of a store whose first node is given.
abbrev store_of : ℕ → Nodes → Dict Bytes ℕ → ChunkStore
store_of n ns ix = record { next_node = n; nodes = ns; index = ix }

tail_IsValid :
    (n i : ℕ) (d : ChunkCache) (ns : Nodes) (ix : Dict Bytes ℕ)
    → IsValid (store_of n ((i, d) ∷ ns) ix)
    → IsValid (store_of n ns (Dict.erase d.uuid ix))
tail_IsValid n i d ns ix v = record {
  distinct = v.distinct.3;
  agrees = λ w. ground (arith, Dict.lookup-erase w d.uuid ix, v.agrees w, v.distinct.1);
}

pop_nodes :
    (n : ℕ) (ns : Nodes) (ix : Dict Bytes ℕ) (c : ChunkCache) (cs : List ChunkCache)
    → IsValid (store_of n ns ix)
    → view_nodes ns ≡ c ∷ cs
    → (s' : ChunkStore) × (get_pop_front (store_of n ns ix) ≡ some (c, s'))
      × (pop_front (store_of n ns ix) ≡ some s')
      × IsValid s'
      × (view s' ≡ cs)
unfolding get_pop_front pop_front
pop_nodes n [] ix c cs v e = cc
pop_nodes n ((i, d) ∷ ns) ix c cs v e = (
  store_of n ns (Dict.erase d.uuid ix),
  ground (arith, v.agrees d.uuid),
  refl,
  tail_IsValid n i d ns ix v,
  ground arith,
)

-- On a non-empty store whose list and map are in step the assertion of `get_pop_front` holds: it
-- gives the least recently pushed cache and leaves the others in order and in step. `pop_front`
-- leaves the same store.
pub get_pop_front_lem :
    (s : ChunkStore) (c : ChunkCache) (cs : List ChunkCache)
    → IsValid s
    → view s ≡ c ∷ cs
    → (s' : ChunkStore) × (get_pop_front s ≡ some (c, s'))
      × (pop_front s ≡ some s')
      × IsValid s'
      × (view s' ≡ cs)
get_pop_front_lem s c cs v e = pop_nodes s.next_node s.nodes s.index c cs v e

erased_IsValid :
    (u : Bytes) (i : ℕ) (s : ChunkStore)
    → IsValid s
    → iter_of u s.nodes ≡ some i
    → IsValid (store_of s.next_node (erase_node i s.nodes) (Dict.erase u s.index))
erased_IsValid u i s v e = record {
  distinct = erase_node-Distinct i s.next_node s.nodes v.distinct;
  agrees = λ w. ground (
    arith,
    Dict.lookup-erase w u s.index,
    v.agrees w,
    iter_of-erase_node w u s.nodes i s.next_node v.distinct e,
  );
}

-- `get_erase_by_key` on a store whose list and map are in step never follows a bad iterator. It
-- gives the cache with the key, if there is one, and leaves the store without it, the others in
-- order and in step; without one it leaves the store as it was.
pub get_erase_by_key_lem :
    (u : Bytes) (s : ChunkStore)
    → IsValid s
    → (s' : ChunkStore) × (get_erase_by_key u s ≡ some (find_key u (view s), s'))
      × IsValid s'
      × (view s' ≡ remove_key u (view s))
unfolding get_erase_by_key
get_erase_by_key_lem u s v = elim (Option-cases (iter_of u s.nodes)) [
  | inl e ↦ (
    s,
    ground (arith, v.agrees u, find_key-view_none u s.nodes),
    v,
    sym (remove_key-view_none u s.nodes e),
  )
  | inr (i, e) ↦
      let (c, found, _) = node_at?-iter_of u s.nodes i s.next_node v.distinct e in
      (
        store_of s.next_node (erase_node i s.nodes) (Dict.erase u s.index),
        ground (arith, v.agrees u, find_key-view_some u s.nodes i s.next_node v.distinct e),
        erased_IsValid u i s v e,
        sym (remove_key-view_some u s.nodes i s.next_node v.distinct e),
      )
]

-- `findbykey` followed by `get_erase` at its iterator, as `flush_chunk` calls them, finds and
-- removes what `get_erase_by_key` does; the assertion of `findbykey` holds.
pub get_erase-findbykey :
    (u : Bytes) (s : ChunkStore)
    → IsValid s
    → ((findbykey u s ≡ some none) × (get_erase_by_key u s ≡ some (none, s)))
      ⊎ ((i : ℕ) × (c : ChunkCache) × (s' : ChunkStore) × (findbykey u s ≡ some (some i))
          × (get_erase i s ≡ some (c, s'))
          × (get_erase_by_key u s ≡ some (some c, s')))
unfolding findbykey get_erase get_erase_by_key
get_erase-findbykey u s v = elim (Option-cases (iter_of u s.nodes)) [
  | inl e ↦ inl (ground (arith, v.agrees u), ground (arith, v.agrees u))
  | inr (i, e) ↦
      let (c, found, same) = node_at?-iter_of u s.nodes i s.next_node v.distinct e in
      inr (
        i,
        c,
        store_of s.next_node (erase_node i s.nodes) (Dict.erase u s.index),
        ground (arith, v.agrees u),
        ground (arith, v.agrees u),
        ground (arith, v.agrees u),
      )
]
