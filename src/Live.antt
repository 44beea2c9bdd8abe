-- ===== src/Live.antt =====
-- Reads and writes come to an end with a result: the caches of the chunk store belong to files that
-- are still in the map of inodes.
pub mod Chunks
pub mod Caches
pub mod Reads
pub mod Writes
use sgx_secfs.Base.{
  ℕ, ◌≡◌, refl, ◌≤◌, ◌<◌, suc, Option, none, some, List, [], ◌∷◌, All, nat_eq, length, ◌>>=◌,
  if◌then◌else◌, Bool, true, false,
}
use sgx_secfs.Base.Dict
use sgx_secfs.Base.Dict.{Dict}
use sgx_secfs.ChunkStore.{ChunkCache}
use sgx_secfs.ChunkStore.Invariant.{IsValid}
use sgx_secfs.ChunkStore.Refinement.{view}
use sgx_secfs.Metadata.Filenode.{Filenode}
use sgx_secfs.Enclave.{Env, Enclave}
use sgx_secfs.Enclave.Inode.{Object, as_filenode}
use sgx_secfs.Reachable.Objects.{Distinct}

-- The object is a file of the map with at least `n` chunks.
abbrev pub HasChunks : Dict ℕ Object → ℕ → ℕ → Type 0
HasChunks m id n =
    (k : ℕ) × (w : Object) × (f : Filenode) × (Dict.lookup k m ≡ some w)
    × (w.id ≡ id)
    × (as_filenode w.inode ≡ some f)
    × (n ≤ length f.chunks)

-- The file and the index of a cache are there.
abbrev pub IsLive : Dict ℕ Object → ChunkCache → Type 0
IsLive m c = HasChunks m c.filenode (suc c.chunk_idx)

-- The state is coherent, and all its caches are live.
pub record IsReady {env : Env} (s : Enclave env) : Type 0 where
  pub objects : Distinct s.next_object s.inode_map
  pub caches : IsValid s.local_cache
  pub live : All (IsLive s.inode_map) (view s.local_cache)

-- No file loses a chunk.
abbrev pub Grows : {env : Env} → Enclave env → Enclave env → Type 0
Grows s t = (id n : ℕ) → HasChunks s.inode_map id n → HasChunks t.inode_map id n

abbrev pub Onward : {env : Env} → Enclave env → Enclave env → Type 0
Onward s t = IsReady t × Grows s t

-- There is a result, and `P` holds of it.
abbrev pub Returns : {A : Type 0} → (A → Type 0) → Option A → Type 0
Returns P none = ⊥
Returns P (some a) = P a

pub Returns-bind :
    {A B : Type 0} (P : A → Type 0) (Q : B → Type 0) (m : Option A) (f : A → Option B)
    → Returns P m
    → ((a : A) → P a → Returns Q (f a))
    → Returns Q (m >>= f)
Returns-bind P Q none f h k = absurd h
Returns-bind P Q (some a) f h k = k a h

pub Returns-if :
    {A : Type 0} (P : A → Type 0) (b : Bool) (x y : Option A)
    → (b ≡ true → Returns P x)
    → Returns P y
    → Returns P (if b then x else y)
Returns-if P true x y h k = h refl
Returns-if P false x y h k = k

pub Returns-elim :
    {A B : Type 0} (P : B → Type 0) (o : Option A) (x : Option B) (f : A → Option B)
    → Returns P x
    → ((a : A) → Returns P (f a))
    → Returns P (elim o [ none ↦ x | some a ↦ f a ])
Returns-elim P none x f h k = h
Returns-elim P (some a) x f h k = k a

pub Returns-some :
    {A : Type 0} (P : A → Type 0) (m : Option A) → Returns P m → (a : A) × (m ≡ some a) × P a
Returns-some P none h = absurd h
Returns-some P (some a) h = (a, refl, h)
