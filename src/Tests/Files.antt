-- ===== src/Tests/Files.antt =====
-- The handlers of files at a concrete enclave.
use sgx_secfs.Base.{
  ◌≡◌, refl, ◌-◌, ◌≤◌, ◌+◌, min, max, true, Option, none, some, [], ◌∷◌, Bytes, replicate, length,
  arith, bytes_eq, nat_eq, ℕ_discrete, bytes_discrete,
}
use sgx_secfs.Base.Dict
use sgx_secfs.Metadata.Filenode.{Chunk, Filenode, null_chunk, chunk_size}
use sgx_secfs.Metadata.Filenode.RoundTrip.{IsFilenode}
use sgx_secfs.ChunkStore
use sgx_secfs.Storage.Cipher.{encrypt_buffer}
use sgx_secfs.Enclave.{Enclave}
use sgx_secfs.Enclave.Errno
use sgx_secfs.Enclave.Inode.{filenode}
use sgx_secfs.File.{Open, find_file, lock, chunk_st, chunk_en}
use sgx_secfs.File.Chunks.{
  zero_chunk, new_cache, chunk_of, save_chunk, save_cache, load_cache, evict,
}
use sgx_secfs.File.Read.{ecall_fs_read}
use sgx_secfs.File.Write.{WriteReply, ecall_fs_write}
use sgx_secfs.File.Handlers.{ecall_fs_fallocate}
use sgx_secfs.File.Segments.{ecall_fs_write-size}
use sgx_secfs.File.Covered.{ecall_fs_fallocate-IsFilenode}
use sgx_secfs.File.Holes.{ecall_fs_read-hole}
use sgx_secfs.File.Cached.{save_chunk-small, load_cache-save_cache}
use sgx_secfs.Uuid.{null_uuid, unparse}
use sgx_secfs.Base.{◌≢◌, take, ◌>>=◌}
use sgx_secfs.Metadata.Filenode.{chunk_count}
use sgx_secfs.File.Write.{overwrite, write_loop}
use sgx_secfs.File.Surplus.{IsShort, counted, write_loop-IsShort}
use sgx_secfs.Base.{List}
use sgx_secfs.Base.ByteList.{le_bytes}
use sgx_secfs.Metadata.Filenode
use sgx_secfs.Metadata.Codecs.{filenode_codec}
use sgx_secfs.Storage.Saved
use sgx_secfs.Storage.Saved.{Loaded}
use sgx_secfs.Enclave.{load_metadata, save_metadata}
use sgx_secfs.Enclave.Inode.{new_filenode}
use sgx_secfs.File.Chunks.{flush_chunk}
use sgx_secfs.File.Handlers.{flush_chunks, ecall_fs_flush}
use sgx_secfs.File.Flushed.{load_metadata-ecall_fs_flush}
use sgx_secfs.Storage.Local.{local_api-IsStorage}
use sgx_secfs.Tests.Surroundings.{
  sample_env-IsEnv, sample_env, new_enclave, plain_cipher-IsGcm, disk_of-Writable,
}

-- A file of 5000 bytes that was never written.
abbrev hollow : Filenode
hollow = record {
  uuid = replicate 16 9;
  ino = 3;
  refcount = 1;
  size = 5000;
  chunks = null_chunk ∷ null_chunk ∷ [];
}

hollow-IsFilenode : IsFilenode hollow
hollow-IsFilenode = record {
  ino = omega arith;
  small = omega arith;
  covered = refl;
  whole = (
    record { uuid = refl; iv = refl; tag = refl },
    (record { uuid = refl; iv = refl; tag = refl }, tt),
  );
}

abbrev hollow_open : Open
hollow_open = record { key = 3; id = 4; node = hollow }

abbrev opened : Enclave sample_env
opened = record new_enclave {
  inode_map = (3, record { id = 4; inode = filenode hollow }) ∷ [];
  next_object = 5;
}

hollow_found : find_file 3 opened ≡ some hollow_open
unfolding find_file Dict.lookup ℕ_discrete
hollow_found = refl

hollow_locked : lock 4 opened.inode_map ≡ some hollow_open
unfolding lock ℕ_discrete
hollow_locked = refl

ecall_fs_fallocate-IsFilenode_example :
    (s' : Enclave sample_env) × (g : Filenode) × (ecall_fs_fallocate sample_env 3 9000 100 opened
      ≡ (s', 0))
    × (find_file 3 s' ≡ some (record { key = 3; id = 4; node = g }))
    × (g.size ≡ max 5000 (9000 + 100))
    × IsFilenode g
ecall_fs_fallocate-IsFilenode_example =
    ecall_fs_fallocate-IsFilenode 3 4 9000 100 hollow opened hollow_found (omega arith)
      hollow-IsFilenode

ecall_fs_read-hole_example :
    ecall_fs_read sample_env 3 4000 200 opened
    ≡ some (
      opened,
      record { err = 0; size = min 200 (5000 - 4000); buf = replicate (min 200 (5000 - 4000)) 0 },
    )
ecall_fs_read-hole_example =
    ecall_fs_read-hole hollow_open opened (refl, (refl, tt)) hollow_locked 3 4000 200 hollow_found
      refl (omega arith) (omega arith)

abbrev state_after : {A : Type 0} → Option (Enclave sample_env × A) → Enclave sample_env
state_after none = new_enclave
state_after (some (s, a)) = s

missing_write :
    ecall_fs_write sample_env 8 (1 ∷ 2 ∷ []) 0 2 opened
    ≡ some (opened, record { err = Errno.einval; size = 2 })
unfolding ecall_fs_write find_file Dict.lookup ℕ_discrete
missing_write = refl

-- A chunk that has its UUID.
abbrev stored_chunk : Chunk
stored_chunk = record { uuid = replicate 16 8; iv = replicate 12 0; tag = replicate 16 0 }

abbrev written : Enclave sample_env
written = state_after (ecall_fs_write sample_env 3 (1 ∷ 2 ∷ []) 0 2 opened)

abbrev two_written : WriteReply
two_written = record { err = 0; size = 2 }

write_run : ecall_fs_write sample_env 3 (1 ∷ 2 ∷ []) 0 2 opened ≡ some (written, two_written)
unfolding ecall_fs_write find_file Dict.lookup ℕ_discrete bytes_discrete ChunkStore.push_get_back
write_run = refl

ecall_fs_write-size_example : two_written.size ≡ 2
ecall_fs_write-size_example =
    ecall_fs_write-size 3 (1 ∷ 2 ∷ []) 0 2 opened written two_written (omega arith) write_run

abbrev cached : Enclave sample_env
cached = state_after (save_chunk sample_env (new_cache 4 0) opened)

save_chunk_run : save_chunk sample_env (new_cache 4 0) opened ≡ some (cached, true)
unfolding save_chunk chunk_of lock ℕ_discrete evict ChunkStore.push_get_back Dict.lookup
save_chunk_run = refl

save_chunk-small_example : length cached.local_cache.nodes ≤ 8
save_chunk-small_example = save_chunk-small (new_cache 4 0) opened cached save_chunk_run

abbrev ones : Bytes
ones = replicate chunk_size 1

abbrev saved_chunk : Chunk
saved_chunk = (save_cache sample_env stored_chunk ones opened).0

abbrev saved : Enclave sample_env
saved = (save_cache sample_env stored_chunk ones opened).1.0

save_cache_run : save_cache sample_env stored_chunk ones opened ≡ (saved_chunk, (saved, true))
unfolding save_cache encrypt_buffer
save_cache_run = refl

load_cache-save_cache_example :
    load_cache sample_env saved_chunk (replicate chunk_size 0) saved ≡ (true, ones)
load_cache-save_cache_example =
    load_cache-save_cache stored_chunk saved_chunk ones (replicate chunk_size 0) opened saved
      plain_cipher-IsGcm local_api-IsStorage (disk_of-Writable [] (unparse stored_chunk.uuid)) refl
      refl refl save_cache_run

-- A file of ten bytes in one chunk that has been stored.
abbrev short : Filenode
short = record hollow { size = 10; chunks = stored_chunk ∷ [] }

abbrev stored : Enclave sample_env
stored = record opened { inode_map = (3, record { id = 4; inode = filenode short }) ∷ [] }

stored_found : chunk_of sample_env (new_cache 4 (chunk_count 10 - 1)) stored ≡ some stored_chunk
unfolding chunk_of ℕ_discrete lock
stored_found = refl

stored_IsShort : IsShort 10 0 9
stored_IsShort = record {
  starts = refl;
  some_bytes = omega arith;
  stops = refl;
  small = omega arith;
}

stored_not_null : stored_chunk.uuid ≢ null_uuid
stored_not_null e = ground arith

write_loop-IsShort_example :
    write_loop sample_env
      (chunk_en 0 9 - chunk_st 0)
      (chunk_st 0)
      4
      0
      9
      (chunk_count 10)
      10
      (replicate 9 7)
      0
      stored
    ≡ (save_chunk sample_env
          (record (new_cache 4 (chunk_count 10 - 1)) {
            bytes = overwrite 0 (take 9 (replicate 9 7)) zero_chunk;
            modified = true;
          })
          stored
        >>= counted 9)
write_loop-IsShort_example =
    write_loop-IsShort 10 0 9 4 (replicate 9 7) stored_chunk stored stored_IsShort stored_found
      stored_not_null

abbrev flushed : Enclave sample_env
flushed = state_after (ecall_fs_flush sample_env 3 opened)

flush_run : ecall_fs_flush sample_env 3 opened ≡ some (flushed, 0)
unfolding ecall_fs_flush find_file flush_chunks flush_chunk ChunkStore.findbykey Dict.lookup
    ℕ_discrete bytes_discrete save_metadata Saved.save_metadata Filenode.dump Filenode.dump_size
    Filenode.fields Filenode.entries Filenode.chunk_entry encrypt_buffer le_bytes
flush_run = refl

load_metadata-ecall_fs_flush_example :
    (cs : List Chunk) × (find_file 3 flushed
      ≡ some (record { key = 3; id = 4; node = record hollow { chunks = cs } }))
    × IsFilenode (record hollow { chunks = cs })
    × (load_metadata sample_env filenode_codec (new_filenode hollow.uuid) flushed
        ≡ Loaded.loaded (record hollow { chunks = cs; refcount = 0 }))
load_metadata-ecall_fs_flush_example =
    load_metadata-ecall_fs_flush sample_env-IsEnv 3 4 hollow opened flushed hollow_found
      hollow-IsFilenode (disk_of-Writable [] []) flush_run
