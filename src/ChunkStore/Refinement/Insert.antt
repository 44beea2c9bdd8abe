-- ===== src/ChunkStore/Refinement/Insert.antt =====
-- `ChunkStore::insert`, which puts a node before an iterator.
use sgx_secfs.Base.{
  ℕ, suc, ◌≡◌, refl, ◌≢◌, if_pos, if_neg, Option, none, some, [], ◌∷◌, ◌++◌, arith, Bytes, ◌==◌,
  bytes_eq, nat_eq, if◌then◌else◌, Option-cases, inl, inr,
}
use sgx_secfs.Base.Dict
use sgx_secfs.ChunkStore.{
  ChunkCache, ChunkStore, Nodes, node_at?, insert_before, insert_at, drop_old, insert,
}
use sgx_secfs.ChunkStore.Invariant.{iter_of, Distinct, IsValid}
use sgx_secfs.ChunkStore.Refinement.{drop_old-lem, push_IsValid, store_of}

node_at?-fresh : (n : ℕ) (ns : Nodes) → Distinct n ns → node_at? n ns ≡ none
unfolding node_at?
node_at?-fresh n [] d = refl
node_at?-fresh n ((j, c) ∷ ns) d = ground (arith, node_at?-fresh n ns d.3)

Distinct-suc : (n : ℕ) (ns : Nodes) → Distinct n ns → Distinct (suc n) ns
Distinct-suc n [] d = tt
Distinct-suc n ((j, c) ∷ ns) d = (omega (arith, d.0), d.1, d.2, Distinct-suc n ns d.3)

iter_of-insert_before :
    (u : Bytes) (i n : ℕ) (c : ChunkCache) (ns : Nodes)
    → iter_of c.uuid ns ≡ none
    → iter_of u (insert_before i (n, c) ns) ≡ (if u == c.uuid then some n else iter_of u ns)
unfolding insert_before
iter_of-insert_before u i n c [] h = refl
iter_of-insert_before u i n c ((j, d) ∷ ns) h = ground (arith, iter_of-insert_before u i n c ns)

node_at?-insert_before :
    (k i n : ℕ) (c : ChunkCache) (ns : Nodes)
    → k ≢ n
    → node_at? k ns ≡ none
    → node_at? k (insert_before i (n, c) ns) ≡ none
unfolding node_at? insert_before
node_at?-insert_before k i n c [] ne h = ground arith
node_at?-insert_before k i n c ((j, d) ∷ ns) ne h =
    ground (arith, node_at?-insert_before k i n c ns)

insert_before-Distinct :
    (i n : ℕ) (c : ChunkCache) (ns : Nodes)
    → iter_of c.uuid ns ≡ none
    → Distinct n ns
    → Distinct (suc n) (insert_before i (n, c) ns)
unfolding insert_before node_at?
insert_before-Distinct i n c [] h d = (omega arith, refl, refl, tt)
insert_before-Distinct i n c ((j, e) ∷ ns) h d = elim (nat_eq.dec i j) [
  | yes p ↦
      rw (if_pos _ p)
        (omega arith, h, node_at?-fresh n ((j, e) ∷ ns) d, Distinct-suc n ((j, e) ∷ ns) d)
  | no p ↦ rw (if_neg _ p) (
    omega (arith, d.0),
    ground (arith, iter_of-insert_before e.uuid i n c ns, d.1),
    node_at?-insert_before j i n c ns (omega (arith, d.0)) d.2,
    insert_before-Distinct i n c ns (ground arith) d.3,
  )
]

-- A position before which a node is put, on nodes without its key.
placed_IsValid :
    (iter : Option ℕ) (c : ChunkCache) (s : ChunkStore) (ns out : Nodes)
    → Distinct s.next_node ns
    → ((v : Bytes) → iter_of v ns ≡ (if v == c.uuid then none else iter_of v s.nodes))
    → IsValid s
    → insert_at iter (s.next_node, c) ns ≡ some out
    → IsValid (store_of (suc s.next_node) out (Dict.insert c.uuid s.next_node s.index))
placed_IsValid none c s ns out d others v e =
    let e2 : out ≡ ns ++ (s.next_node, c) ∷ [] = ground arith in
    rw e2 (push_IsValid c.uuid c s ns d others v refl)
placed_IsValid (some i) c s ns out d others v e = elim (Option-cases (node_at? i ns)) [
  | inl f ↦ absurd (ground arith)
  | inr (x, f) ↦
      let absent : iter_of c.uuid ns ≡ none = ground (arith, others c.uuid) in
      let e' : out ≡ insert_before i (s.next_node, c) ns = ground arith in
      rw e' (record {
        distinct = insert_before-Distinct i s.next_node c ns absent d;
        agrees = λ w. ground (
          arith,
          Dict.lookup-insert w c.uuid s.next_node s.index,
          v.agrees w,
          iter_of-insert_before w i s.next_node c ns absent,
          others w,
        );
      })
]

-- An insertion at an iterator that is still one keeps the list and the map in step.
pub insert-IsValid :
    (iter : Option ℕ) (u : Bytes) (c : ChunkCache) (s t : ChunkStore) (k : ℕ)
    → IsValid s
    → insert iter u c s ≡ some (t, k)
    → IsValid t
unfolding insert
insert-IsValid iter u c s t k v h =
    let (d, others, _) = drop_old-lem u s.nodes s.next_node v.distinct in
    let ns = drop_old (iter_of u s.nodes) s.nodes in
    let c' = record c { uuid = u } in
    elim (Option-cases (insert_at iter (s.next_node, c') ns)) [
      | inl e ↦ absurd (ground (arith, v.agrees u))
      | inr (out, e) ↦
          let e' : t ≡ store_of (suc s.next_node) out (Dict.insert u s.next_node s.index) =
            ground (arith, v.agrees u) in
          rw e' (placed_IsValid iter c' s ns out d others v e)
    ]
