-- ===== src/ChunkStore.antt =====
-- enclave/volume.hpp and enclave/volume.cpp: the cache of file chunks, a `std::list` of caches in
-- the order of their use and an `std::unordered_map` from the UUID of a chunk to its list iterator.
-- An iterator is the number of its list node, numbers are never used again, and `none` is
-- `end()`. The outer `Option` of an operation is `none` where an `assert` fails or where a list
-- operation is called outside its contract. `cache.chunk().uuid`, which a push reads through the
-- weak pointer of the cache, is an argument. The mutex is held for a whole operation.
pub mod Invariant
pub mod Refinement
use sgx_secfs.Base.{
  ℕ, suc, ◌+◌, ◌≡◌, Bool, Option, none, some, List, [], ◌∷◌, ◌++◌, Bytes, ◌==◌, bytes_eq, nat_eq,
  if◌then◌else◌,
}
use sgx_secfs.Base.Dict
use sgx_secfs.Base.Dict.{Dict}

-- `filenode` is the identity of the object that the weak pointer refers to.
pub record ChunkCache : Type 0 where
  pub uuid : Bytes
  pub bytes : Bytes
  pub modified : Bool
  pub filenode : ℕ
  pub chunk_idx : ℕ

abbrev pub Nodes : Type 0
Nodes = List (ℕ × ChunkCache)

pub record ChunkStore : Type 0 where
  pub next_node : ℕ
  pub nodes : Nodes
  pub index : Dict Bytes ℕ

abbrev pub empty : ChunkStore
empty = record { next_node = 0; nodes = []; index = [] }

-- `*iter`
unfoldable pub node_at? : ℕ → Nodes → Option ChunkCache
node_at? i [] = none
node_at? i ((j, c) ∷ ns) = if i == j then some c else node_at? i ns

-- `std::list::erase`, and the iterator behind the erased node
unfoldable pub erase_node : ℕ → Nodes → Nodes
erase_node i [] = []
erase_node i ((j, c) ∷ ns) = if i == j then ns else (j, c) ∷ erase_node i ns

abbrev begin : Nodes → Option ℕ
begin [] = none
begin ((i, c) ∷ ns) = some i

unfoldable pub next_iter : ℕ → Nodes → Option ℕ
next_iter i [] = none
next_iter i ((j, c) ∷ ns) = if i == j then begin ns else next_iter i ns

-- `std::list::insert` before an iterator
unfoldable pub insert_before : ℕ → ℕ × ChunkCache → Nodes → Nodes
insert_before i n [] = n ∷ []
insert_before i n ((j, c) ∷ ns) = if i == j then n ∷ (j, c) ∷ ns else (j, c) ∷ insert_before i n ns

abbrev pub drop_old : Option ℕ → Nodes → Nodes
drop_old none ns = ns
drop_old (some i) ns = erase_node i ns

-- The new node goes to the end; one that the key already has is erased first.
unfoldable pub push_get_back : Bytes → ChunkCache → ChunkStore → ChunkStore × ℕ
unfolding Dict.lookup Dict.insert erase_node
push_get_back u cache s = (
  record {
    next_node = suc s.next_node;
    nodes =
        drop_old (Dict.lookup u s.index) s.nodes ++ (s.next_node, record cache { uuid = u }) ∷ [];
    index = Dict.insert u s.next_node s.index;
  },
  s.next_node,
)

unfoldable pub push_back : Bytes → ChunkCache → ChunkStore → ChunkStore
unfolding Dict.lookup Dict.insert erase_node
push_back u cache s = record {
  next_node = suc s.next_node;
  nodes = drop_old (Dict.lookup u s.index) s.nodes ++ (s.next_node, record cache { uuid = u }) ∷ [];
  index = Dict.insert u s.next_node s.index;
}

unfoldable pub pop_front : ChunkStore → Option ChunkStore
unfolding Dict.erase
pop_front s = elim s.nodes [
  | [] ↦ none
  | (i, c) ∷ ns ↦ some (record s { nodes = ns; index = Dict.erase c.uuid s.index })
]

-- An `assert` that the key is there and has this iterator.
abbrev pub assert_at : Option ℕ → ℕ → Bool
assert_at none i = Bool.false
assert_at (some j) i = j == i

unfoldable pub get_pop_front : ChunkStore → Option (ChunkCache × ChunkStore)
unfolding Dict.lookup Dict.erase
get_pop_front s = elim s.nodes [
  | [] ↦ none
  | (i, c) ∷ ns ↦
      if assert_at (Dict.lookup c.uuid s.index) i
      then some (c, record s { nodes = ns; index = Dict.erase c.uuid s.index })
      else none
]

unfoldable pub get_erase : ℕ → ChunkStore → Option (ChunkCache × ChunkStore)
unfolding node_at? erase_node Dict.erase
get_erase i s = elim (node_at? i s.nodes) [
  | none ↦ none
  | some c ↦ some (c, record s { nodes = erase_node i s.nodes; index = Dict.erase c.uuid s.index })
]

abbrev insert_at : Option ℕ → ℕ × ChunkCache → Nodes → Option Nodes
insert_at none n ns = some (ns ++ n ∷ [])
insert_at (some i) n ns = elim (node_at? i ns) [
  | none ↦ none
  | some _ ↦ some (insert_before i n ns)
]

-- The position must not be the old node of the key, which is erased first.
unfoldable pub insert : Option ℕ → Bytes → ChunkCache → ChunkStore → Option (ChunkStore × ℕ)
unfolding Dict.lookup Dict.insert erase_node node_at? insert_before
insert iter u cache s =
    elim (insert_at iter (s.next_node, record cache { uuid = u })
      (drop_old (Dict.lookup u s.index) s.nodes)) [
        | none ↦ none
        | some ns ↦ some (
          record {
            next_node = suc s.next_node;
            nodes = ns;
            index = Dict.insert u s.next_node s.index;
          },
          s.next_node,
        )
      ]

unfoldable pub erase : ℕ → ChunkStore → Option (Option ℕ × ChunkStore)
unfolding node_at? erase_node Dict.lookup Dict.erase next_iter
erase i s = elim (node_at? i s.nodes) [
  | none ↦ none
  | some c ↦ elim (Dict.lookup c.uuid s.index) [
    | none ↦ none
    | some _ ↦ some (
      next_iter i s.nodes,
      record s { nodes = erase_node i s.nodes; index = Dict.erase c.uuid s.index },
    )
  ]
]

-- An `assert` that the node of the iterator holds the key.
abbrev assert_key : Option ChunkCache → Bytes → Bool
assert_key none u = Bool.false
assert_key (some c) u = c.uuid == u

unfoldable pub findbykey : Bytes → ChunkStore → Option (Option ℕ)
unfolding node_at? Dict.lookup
findbykey u s = elim (Dict.lookup u s.index) [
  | none ↦ some none
  | some i ↦ if assert_key (node_at? i s.nodes) u then some (some i) else none
]

unfoldable pub erasebykey : Bytes → ChunkStore → Option (Option ℕ × ChunkStore)
unfolding node_at? erase_node Dict.lookup Dict.erase next_iter
erasebykey u s = elim (Dict.lookup u s.index) [
  | none ↦ some (none, s)
  | some i ↦
      if assert_key (node_at? i s.nodes) u
      then some (
        next_iter i s.nodes,
        record s { nodes = erase_node i s.nodes; index = Dict.erase u s.index },
      )
      else none
]

-- The found cache is moved out; `some (none, s)` is the result `false`.
unfoldable pub get_erase_by_key : Bytes → ChunkStore → Option (Option ChunkCache × ChunkStore)
unfolding node_at? erase_node Dict.lookup Dict.erase
get_erase_by_key u s = elim (Dict.lookup u s.index) [
  | none ↦ some (none, s)
  | some i ↦ elim (node_at? i s.nodes) [
    | none ↦ none
    | some c ↦
        some (some c, record s { nodes = erase_node i s.nodes; index = Dict.erase u s.index })
  ]
]
