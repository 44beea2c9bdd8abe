-- ===== src/ChunkStore/Invariant.antt =====
-- What keeps the list and the map of a `ChunkStore` in step.
use sgx_secfs.Base.{
  ℕ, suc, ◌<◌, ◌≡◌, refl, sym, ◌≢◌, if_pos, if_neg, Option, none, some, [], ◌∷◌, ◌++◌, arith, Bytes,
  ◌==◌, bytes_eq, nat_eq, if◌then◌else◌,
}
use sgx_secfs.Base.Dict
use sgx_secfs.ChunkStore.{ChunkCache, ChunkStore, Nodes, node_at?, erase_node}

-- The iterator of the node with a key.
abbrev pub iter_of : Bytes → Nodes → Option ℕ
iter_of u [] = none
iter_of u ((i, c) ∷ ns) = if u == c.uuid then some i else iter_of u ns

-- No two nodes share a key or a number, and all numbers are below `n`.
abbrev pub Distinct : ℕ → Nodes → Type 0
Distinct n [] = Unit
Distinct n ((i, c) ∷ ns) =
    (i < n) × (iter_of c.uuid ns ≡ none) × (node_at? i ns ≡ none) × Distinct n ns

pub node_at?-iter_of :
    (u : Bytes) (ns : Nodes) (i n : ℕ)
    → Distinct n ns
    → iter_of u ns ≡ some i
    → (c : ChunkCache) × (node_at? i ns ≡ some c) × (c.uuid ≡ u)
unfolding node_at?
node_at?-iter_of u [] i n d h = cc
node_at?-iter_of u ((j, c) ∷ ns) i n d h = elim (bytes_eq.dec u c.uuid) [
  | yes p ↦ (c, ground arith, sym p)
  | no p ↦
      let (c', found, same) = node_at?-iter_of u ns i n d.3 (ground arith) in
      (c', ground arith, same)
]

pub iter_of-node_at? :
    (i n : ℕ) (ns : Nodes) (c : ChunkCache)
    → Distinct n ns
    → node_at? i ns ≡ some c
    → iter_of c.uuid ns ≡ some i
unfolding node_at?
iter_of-node_at? i n [] c d h = cc
iter_of-node_at? i n ((j, e) ∷ ns) c d h = ground (arith, iter_of-node_at? i n ns c d.3)

pub iter_of-lt : (u : Bytes) (ns : Nodes) (i n : ℕ) → Distinct n ns → iter_of u ns ≡ some i → i < n
iter_of-lt u [] i n d h = cc
iter_of-lt u ((j, c) ∷ ns) i n d h = ground (arith, iter_of-lt u ns i n d.3)

-- Erasing the node of a key forgets that key and no other.
pub iter_of-erase_node :
    (u v : Bytes) (ns : Nodes) (i n : ℕ)
    → Distinct n ns
    → iter_of v ns ≡ some i
    → iter_of u (erase_node i ns) ≡ (if u == v then none else iter_of u ns)
unfolding node_at? erase_node
iter_of-erase_node u v [] i n d h = cc
iter_of-erase_node u v ((j, c) ∷ ns) i n d h =
    ground (arith, iter_of-erase_node u v ns i n d.3, node_at?-iter_of v ns i n d.3)

iter_of-erase_node-none :
    (u : Bytes) (i : ℕ) (ns : Nodes) → iter_of u ns ≡ none → iter_of u (erase_node i ns) ≡ none
unfolding erase_node
iter_of-erase_node-none u i [] h = refl
iter_of-erase_node-none u i ((j, c) ∷ ns) h = ground (arith, iter_of-erase_node-none u i ns)

node_at?-erase_node-none :
    (k i : ℕ) (ns : Nodes) → node_at? k ns ≡ none → node_at? k (erase_node i ns) ≡ none
unfolding erase_node node_at?
node_at?-erase_node-none k i [] h = refl
node_at?-erase_node-none k i ((j, c) ∷ ns) h = ground (arith, node_at?-erase_node-none k i ns)

pub erase_node-Distinct : (i n : ℕ) (ns : Nodes) → Distinct n ns → Distinct n (erase_node i ns)
unfolding erase_node
erase_node-Distinct i n [] d = tt
erase_node-Distinct i n ((j, c) ∷ ns) d = elim (nat_eq.dec i j) [
  | yes p ↦ rw (if_pos _ p) d.3
  | no p ↦ rw (if_neg _ p) (
    d.0,
    iter_of-erase_node-none c.uuid i ns d.1,
    node_at?-erase_node-none j i ns d.2,
    erase_node-Distinct i n ns d.3,
  )
]

-- A node that is put at the end.
pub iter_of-append :
    (u : Bytes) (ns : Nodes) (i : ℕ) (c : ChunkCache)
    → iter_of c.uuid ns ≡ none
    → iter_of u (ns ++ (i, c) ∷ []) ≡ (if u == c.uuid then some i else iter_of u ns)
iter_of-append u [] i c h = refl
iter_of-append u ((j, d) ∷ ns) i c h = ground (arith, iter_of-append u ns i c)

node_at?-append :
    (k i : ℕ) (c : ChunkCache) (ns : Nodes)
    → k ≢ i
    → node_at? k ns ≡ none
    → node_at? k (ns ++ (i, c) ∷ []) ≡ none
unfolding node_at?
node_at?-append k i c [] ne h = ground arith
node_at?-append k i c ((j, d) ∷ ns) ne h = ground (arith, node_at?-append k i c ns)

pub append-Distinct :
    (n : ℕ) (c : ChunkCache) (ns : Nodes)
    → iter_of c.uuid ns ≡ none
    → Distinct n ns
    → Distinct (suc n) (ns ++ (n, c) ∷ [])
unfolding node_at?
append-Distinct n c [] h d = (omega arith, refl, refl, tt)
append-Distinct n c ((j, e) ∷ ns) h d = (
  omega arith,
  ground (arith, iter_of-append e.uuid ns n c),
  node_at?-append j n c ns (omega arith) d.2,
  append-Distinct n c ns (ground arith) d.3,
)

-- The map sends each key of the list to its node, and no other key to anything.
pub record IsValid (s : ChunkStore) : Type 0 where
  pub distinct : Distinct s.next_node s.nodes
  pub agrees : (u : Bytes) → Dict.lookup u s.index ≡ iter_of u s.nodes
