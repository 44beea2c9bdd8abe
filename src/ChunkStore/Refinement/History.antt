-- ===== src/ChunkStore/Refinement/History.antt =====
-- Any history of calls on a `ChunkStore` that starts empty.
use sgx_secfs.Base.{
  ◌⊎◌, inl, inr, ℕ, ◌≡◌, refl, ap, subst, ◌≢◌, inl, inr, Option, none, some, [], ◌∷◌, arith, Bytes,
  bytes_eq, Option-cases,
}
use sgx_secfs.Base.Dict
use sgx_secfs.Base.Dict.{Dict}
use sgx_secfs.ChunkStore.{
  ChunkCache, ChunkStore, Nodes, node_at?, erase_node, empty, push_get_back, push_back, pop_front,
  get_pop_front, get_erase, insert, erase, findbykey, erasebykey, get_erase_by_key,
}
use sgx_secfs.ChunkStore.Invariant.{iter_of, node_at?-iter_of, iter_of-node_at?, IsValid}
use sgx_secfs.ChunkStore.Refinement.Insert.{insert-IsValid}
use sgx_secfs.ChunkStore.Refinement.{
  store_of, push_get_back_lem, push_back-push_get_back, get_pop_front_lem, pop_nodes,
  get_erase_by_key_lem, erased_IsValid, view_nodes,
}

-- One call, with the outcome that the code gives it. `erase` and `get_erase` are called at the
-- iterator of a node, `insert` at one that is still there once the old node of the key is gone, or at
-- the end.
pub data Step (s : ChunkStore) : ChunkStore → Type 0 where
  pushes : (u : Bytes) (c : ChunkCache) → Step s (push_back u c s)
  pushes_get : (u : Bytes) (c : ChunkCache) → Step s (push_get_back u c s).0
  inserts :
      {t : ChunkStore} (iter : Option ℕ) (u : Bytes) (c : ChunkCache) (k : ℕ)
      → insert iter u c s ≡ some (t, k)
      → Step s t
  pops : {t : ChunkStore} → pop_front s ≡ some t → Step s t
  pops_get : {t : ChunkStore} (c : ChunkCache) → get_pop_front s ≡ some (c, t) → Step s t
  erases : {t : ChunkStore} (i : ℕ) (j : Option ℕ) → erase i s ≡ some (j, t) → Step s t
  erases_get : {t : ChunkStore} (i : ℕ) (c : ChunkCache) → get_erase i s ≡ some (c, t) → Step s t
  erases_key : {t : ChunkStore} (u : Bytes) (j : Option ℕ) → erasebykey u s ≡ some (j, t) → Step s t
  takes :
      {t : ChunkStore} (u : Bytes) (c : Option ChunkCache)
      → get_erase_by_key u s ≡ some (c, t)
      → Step s t

pub data Reach : ChunkStore → Type 0 where
  start : Reach empty
  next : {s t : ChunkStore} → Reach s → Step s t → Reach t

-- The store after a call, known in two ways.
one_result {ℓ} :
    {A : Type ℓ} {o : Option (A × ChunkStore)} {a b : A} {s t : ChunkStore}
    → o ≡ some (a, s)
    → IsValid s
    → o ≡ some (b, t)
    → IsValid t
one_result {s} {t} p v q = let e : s ≡ t = cc in subst IsValid e v

pops-IsValid :
    (n : ℕ) (ns : Nodes) (ix : Dict Bytes ℕ) (t : ChunkStore)
    → IsValid (store_of n ns ix)
    → pop_front (store_of n ns ix) ≡ some t
    → IsValid t
unfolding pop_front
pops-IsValid n [] ix t v h = cc
pops-IsValid n ((i, c) ∷ ns) ix t v h =
    let (s', _, front, v', _) = pop_nodes n ((i, c) ∷ ns) ix c (view_nodes ns) v refl in
    let e : s' ≡ t = cc front in subst IsValid e v'

pops_get-IsValid :
    (n : ℕ) (ns : Nodes) (ix : Dict Bytes ℕ) (c : ChunkCache) (t : ChunkStore)
    → IsValid (store_of n ns ix)
    → get_pop_front (store_of n ns ix) ≡ some (c, t)
    → IsValid t
unfolding get_pop_front
pops_get-IsValid n [] ix c t v h = cc
pops_get-IsValid n ((i, d) ∷ ns) ix c t v h =
    let (s', front, _, v', _) = pop_nodes n ((i, d) ∷ ns) ix d (view_nodes ns) v refl in
    one_result front v' h

erases-IsValid :
    (s t : ChunkStore) (i : ℕ) (j : Option ℕ) → IsValid s → erase i s ≡ some (j, t) → IsValid t
unfolding erase
erases-IsValid s t i j v h = elim (Option-cases (node_at? i s.nodes)) [
  | inl e ↦ absurd (ground arith)
  | inr (c, e) ↦
      let at = iter_of-node_at? i s.next_node s.nodes c v.distinct e in
      let e' : t ≡ store_of s.next_node (erase_node i s.nodes) (Dict.erase c.uuid s.index) =
        ground (arith, v.agrees c.uuid) in
      rw e' (erased_IsValid c.uuid i s v at)
]

erases_get-IsValid :
    (s t : ChunkStore) (i : ℕ) (c : ChunkCache)
    → IsValid s
    → get_erase i s ≡ some (c, t)
    → IsValid t
unfolding get_erase
erases_get-IsValid s t i c v h = elim (Option-cases (node_at? i s.nodes)) [
  | inl e ↦ absurd (ground arith)
  | inr (d, e) ↦
      let at = iter_of-node_at? i s.next_node s.nodes d v.distinct e in
      let e' : t ≡ store_of s.next_node (erase_node i s.nodes) (Dict.erase d.uuid s.index) =
        ground arith in
      rw e' (erased_IsValid d.uuid i s v at)
]

erases_key-IsValid :
    (s t : ChunkStore) (u : Bytes) (j : Option ℕ)
    → IsValid s
    → erasebykey u s ≡ some (j, t)
    → IsValid t
unfolding erasebykey
erases_key-IsValid s t u j v h = elim (Option-cases (iter_of u s.nodes)) [
  | inl e ↦ let e' : t ≡ s = ground (arith, v.agrees u) in rw e' v
  | inr (i, e) ↦
      let (c, found, same) = node_at?-iter_of u s.nodes i s.next_node v.distinct e in
      let e' : t ≡ store_of s.next_node (erase_node i s.nodes) (Dict.erase u s.index) =
        ground (arith, v.agrees u) in
      rw e' (erased_IsValid u i s v e)
]

-- Every call keeps the list and the map of the store in step.
pub Step-IsValid : {s t : ChunkStore} → Step s t → IsValid s → IsValid t
Step-IsValid {s} (pushes u c) v = rw (push_back-push_get_back u c s) (push_get_back_lem u c s v).0
Step-IsValid {s} (pushes_get u c) v = (push_get_back_lem u c s v).0
Step-IsValid {s} {t} (inserts iter u c k h) v = insert-IsValid iter u c s t k v h
Step-IsValid {s} {t} (pops h) v = pops-IsValid s.next_node s.nodes s.index t v h
Step-IsValid {s} {t} (pops_get c h) v = pops_get-IsValid s.next_node s.nodes s.index c t v h
Step-IsValid {s} {t} (erases i j h) v = erases-IsValid s t i j v h
Step-IsValid {s} {t} (erases_get i c h) v = erases_get-IsValid s t i c v h
Step-IsValid {s} {t} (erases_key u j h) v = erases_key-IsValid s t u j v h
Step-IsValid {s} {t} (takes u c h) v =
    let (s', e, v', _) = get_erase_by_key_lem u s v in one_result e v' h

pub Reach-IsValid : {s : ChunkStore} → Reach s → IsValid s
unfolding Dict.lookup
Reach-IsValid start = record { distinct = tt; agrees = λ u. refl }
Reach-IsValid (next r st) = Step-IsValid st (Reach-IsValid r)

keyed-asserts :
    (u : Bytes) (s : ChunkStore)
    → IsValid s
    → (findbykey u s ≢ none) × (erasebykey u s ≢ none) × (get_erase_by_key u s ≢ none)
unfolding findbykey erasebykey get_erase_by_key
keyed-asserts u s v = elim (Option-cases (iter_of u s.nodes)) [
  | inl e ↦ (ground (arith, v.agrees u), ground (arith, v.agrees u), ground (arith, v.agrees u))
  | inr (i, e) ↦
      let (c, found, same) = node_at?-iter_of u s.nodes i s.next_node v.distinct e in
      (ground (arith, v.agrees u), ground (arith, v.agrees u), ground (arith, v.agrees u))
]

pop-asserts :
    (s : ChunkStore) (ns : Nodes)
    → s.nodes ≡ ns
    → IsValid s
    → (s.nodes ≡ []) ⊎ ((get_pop_front s ≢ none) × (pop_front s ≢ none))
pop-asserts s [] e v = inl e
pop-asserts s ((i, c) ∷ ns) e v =
    let (s', front, popped, _, _) = get_pop_front_lem s c (view_nodes ns) v (ap view_nodes e) in
    inr (λ h. cc, λ h. cc)

node-asserts :
    (i : ℕ) (s : ChunkStore)
    → IsValid s
    → (node_at? i s.nodes ≡ none) ⊎ ((erase i s ≢ none) × (get_erase i s ≢ none))
unfolding erase get_erase
node-asserts i s v = elim (Option-cases (node_at? i s.nodes)) [
  | inl e ↦ inl e
  | inr (c, e) ↦
      let at = iter_of-node_at? i s.next_node s.nodes c v.distinct e in
      inr (ground (arith, v.agrees c.uuid), ground arith)
]

-- After any history of pushes, insertions, pops and erasures from the empty store no assertion of
-- the code fails: a lookup, an erasure and a removal by key return; an iterator is that of no node,
-- or an erasure and a removal at it return; and the store is empty or both pops return.
pub Reach-asserts :
    {s : ChunkStore} (u : Bytes) (i : ℕ)
    → Reach s
    → (findbykey u s ≢ none)
      × (erasebykey u s ≢ none)
      × (get_erase_by_key u s ≢ none)
      × ((node_at? i s.nodes ≡ none) ⊎ ((erase i s ≢ none) × (get_erase i s ≢ none)))
      × ((s.nodes ≡ []) ⊎ ((get_pop_front s ≢ none) × (pop_front s ≢ none)))
Reach-asserts {s} u i r =
    let v = Reach-IsValid r in
    let (found, erased, taken) = keyed-asserts u s v in
    (found, erased, taken, node-asserts i s v, pop-asserts s s.nodes refl v)
