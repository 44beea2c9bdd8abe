-- ===== src/Tests/Stores.antt =====
-- The chunk cache and the UUIDs at concrete inputs.
use sgx_secfs.Base.{
  ℕ, ◌≡◌, refl, ◌≢◌, ◌⊎◌, true, none, some, [], ◌∷◌, ◌++◌, Bytes, replicate, arith, bytes_eq,
  nat_eq, ℕ_discrete, bytes_discrete,
}
use sgx_secfs.Base.Dict
use sgx_secfs.Uuid.{IsUuid}
use sgx_secfs.Uuid.Unparse.{unparse-injective}
use sgx_secfs.ChunkStore.{
  ChunkCache, ChunkStore, empty, push_back, push_get_back, pop_front, get_pop_front, get_erase,
  erase, findbykey, erasebykey, get_erase_by_key, node_at?,
}
use sgx_secfs.ChunkStore.Invariant.{IsValid}
use sgx_secfs.ChunkStore.Refinement.{
  view, find_key, remove_key, push_get_back_lem, get_pop_front_lem, get_erase_by_key_lem,
  get_erase-findbykey,
}
use sgx_secfs.ChunkStore.Refinement.History.{
  Reach, start, next, pushes, pushes_get, Reach-IsValid, Reach-asserts,
}

abbrev cache_of : Bytes → ℕ → ChunkCache
cache_of u idx = record {
  uuid = u;
  bytes = 1 ∷ 2 ∷ [];
  modified = true;
  filenode = 5;
  chunk_idx = idx;
}

abbrev key_a : Bytes
key_a = replicate 16 1

abbrev key_b : Bytes
key_b = replicate 16 2

abbrev two : ChunkStore
two = (push_get_back key_b (cache_of key_b 1) (push_back key_a (cache_of key_a 0) empty)).0

two-Reach : Reach two
two-Reach =
    next (next start (pushes key_a (cache_of key_a 0))) (pushes_get key_b (cache_of key_b 1))

two-IsValid : IsValid two
two-IsValid = Reach-IsValid two-Reach

push_get_back_lem_example :
    let s' = (push_get_back key_a (cache_of key_a 7) two).0 in
    IsValid s'
    × (view s' ≡ remove_key key_a (view two) ++ cache_of key_a 7 ∷ [])
    × (node_at? (push_get_back key_a (cache_of key_a 7) two).1 s'.nodes ≡ some (cache_of key_a 7))
push_get_back_lem_example = push_get_back_lem key_a (cache_of key_a 7) two two-IsValid

view-two : view two ≡ cache_of key_a 0 ∷ cache_of key_b 1 ∷ []
unfolding push_get_back push_back Dict.lookup Dict.insert ℕ_discrete bytes_discrete
view-two = ground arith

get_pop_front_lem_example :
    (s' : ChunkStore) × (get_pop_front two ≡ some (cache_of key_a 0, s'))
    × (pop_front two ≡ some s')
    × IsValid s'
    × (view s' ≡ cache_of key_b 1 ∷ [])
get_pop_front_lem_example =
    get_pop_front_lem two (cache_of key_a 0) (cache_of key_b 1 ∷ []) two-IsValid view-two

get_erase_by_key_lem_example :
    (s' : ChunkStore) × (get_erase_by_key key_b two ≡ some (find_key key_b (view two), s'))
    × IsValid s'
    × (view s' ≡ remove_key key_b (view two))
get_erase_by_key_lem_example = get_erase_by_key_lem key_b two two-IsValid

get_erase-findbykey_example :
    ((findbykey key_b two ≡ some none) × (get_erase_by_key key_b two ≡ some (none, two)))
    ⊎ ((i : ℕ) × (c : ChunkCache) × (s' : ChunkStore) × (findbykey key_b two ≡ some (some i))
        × (get_erase i two ≡ some (c, s'))
        × (get_erase_by_key key_b two ≡ some (some c, s')))
get_erase-findbykey_example = get_erase-findbykey key_b two two-IsValid

Reach-asserts_example :
    (findbykey key_a two ≢ none)
    × (erasebykey key_a two ≢ none)
    × (get_erase_by_key key_a two ≢ none)
    × ((node_at? 0 two.nodes ≡ none) ⊎ ((erase 0 two ≢ none) × (get_erase 0 two ≢ none)))
    × ((two.nodes ≡ []) ⊎ ((get_pop_front two ≢ none) × (pop_front two ≢ none)))
Reach-asserts_example = Reach-asserts key_a 0 two-Reach

key_a-IsUuid : IsUuid key_a
key_a-IsUuid = record { long = refl; bytes = ground arith }

unparse-injective_example : key_a ≡ key_a
unparse-injective_example = unparse-injective key_a key_a key_a-IsUuid key_a-IsUuid refl
