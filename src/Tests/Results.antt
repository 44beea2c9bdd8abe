-- ===== src/Tests/Results.antt =====
-- Reads and writes of a file with a cached chunk.
use sgx_secfs.Base.{
  ◌≡◌, refl, some, true, [], ◌∷◌, All, replicate, nat_eq, bytes_eq, arith, ℕ_discrete,
}
use sgx_secfs.Base.Dict
use sgx_secfs.ChunkStore
use sgx_secfs.ChunkStore.{ChunkCache, ChunkStore}
use sgx_secfs.ChunkStore.Refinement.{view, push_get_back_lem}
use sgx_secfs.ChunkStore.Refinement.History.{Reach-IsValid, start}
use sgx_secfs.Metadata.Filenode.{Chunk, Filenode}
use sgx_secfs.Enclave.{Enclave}
use sgx_secfs.Enclave.Inode.{Object, filenode}
use sgx_secfs.File.Chunks.{new_cache}
use sgx_secfs.File.Read.{ReadReply, ecall_fs_read}
use sgx_secfs.File.Write.{WriteReply, ecall_fs_write}
use sgx_secfs.Live.{IsLive, IsReady}
use sgx_secfs.Live.Writes.{IsReady-Returns}
use sgx_secfs.Tests.Surroundings.{sample_env, new_enclave}

abbrev stored : Chunk
stored = record { uuid = replicate 16 5; iv = replicate 12 0; tag = replicate 16 0 }

abbrev file : Filenode
file = record { uuid = replicate 16 9; ino = 3; refcount = 1; size = 100; chunks = stored ∷ [] }

abbrev object : Object
object = record { id = 4; inode = filenode file }

abbrev cache : ChunkCache
cache = record (new_cache 4 0) { modified = true }

abbrev store : ChunkStore
store = (ChunkStore.push_get_back stored.uuid cache ChunkStore.empty).0

abbrev busy : Enclave sample_env
busy = record new_enclave { inode_map = (3, object) ∷ []; next_object = 5; local_cache = store }

busy-IsLive : All (IsLive busy.inode_map) (view busy.local_cache)
unfolding ChunkStore.push_get_back Dict.lookup ℕ_discrete
busy-IsLive = ((3, object, file, refl, refl, refl, omega arith), tt)

busy-IsReady : IsReady busy
unfolding Dict.lookup
busy-IsReady = record {
  objects = (omega arith, refl, refl, tt);
  caches = (push_get_back_lem stored.uuid cache ChunkStore.empty (Reach-IsValid start)).0;
  live = busy-IsLive;
}

IsReady-Returns_example :
    ((t : Enclave sample_env) × (r : ReadReply) × (ecall_fs_read sample_env 3 10 50 busy
        ≡ some (t, r))
      × IsReady t)
    × ((t : Enclave sample_env) × (r : WriteReply) × (ecall_fs_write sample_env 3
            (replicate 5000 7)
            10
            5000
            busy
          ≡ some (t, r))
        × IsReady t)
IsReady-Returns_example = IsReady-Returns 3 (replicate 5000 7) 10 50 5000 busy busy-IsReady
