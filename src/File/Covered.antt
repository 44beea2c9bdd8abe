-- ===== src/File/Covered.antt =====
-- The chunks of a file and its size.
use sgx_secfs.Base.{
  ℕ, zero, suc, ◌+◌, ◌%◌, ◌≡◌, ◌<◌, max, refl, arith, List, [], ◌∷◌, length, All, some, nat_eq,
}
use sgx_secfs.Metadata.Layout.{size_mod}
use sgx_secfs.Metadata.Filenode.{Chunk, Filenode, chunk_size}
use sgx_secfs.Metadata.Filenode.RoundTrip.{IsChunk, IsFilenode}
use sgx_secfs.Enclave.{Env, Enclave}
use sgx_secfs.Enclave.Inode.{filenode}
use sgx_secfs.Directory.State.{lookup-put_object}
use sgx_secfs.File.{find_file, resize, put_file, chunk_en}
use sgx_secfs.File.Write.{extended}
use sgx_secfs.File.Handlers.{ecall_fs_fallocate}

pub length-resize : (n : ℕ) (cs : List Chunk) → length (resize n cs) ≡ n
unfolding resize
length-resize zero cs = refl
length-resize (suc n) [] = omega (arith, length-resize n [])
length-resize (suc n) (c ∷ cs) = omega (arith, length-resize n cs)

resize-IsChunk : (n : ℕ) (cs : List Chunk) → All IsChunk cs → All IsChunk (resize n cs)
unfolding resize
resize-IsChunk zero cs v = tt
resize-IsChunk (suc n) [] v =
    (record { uuid = refl; iv = refl; tag = refl }, resize-IsChunk n [] tt)
resize-IsChunk (suc n) (c ∷ cs) v = (v.0, resize-IsChunk n cs v.1)

-- A file that is extended to hold `size` bytes from an offset on is one that can be stored.
extended-IsFilenode :
    (offset size : ℕ) (f : Filenode)
    → offset + size + chunk_size < size_mod
    → IsFilenode f
    → IsFilenode (record (extended (chunk_en offset size) f) {
      size = max f.size ((offset + size) % size_mod);
    })
extended-IsFilenode offset size f b v =
    let en = chunk_en offset size in
    record {
      ino = ground arith;
      small = ground arith;
      covered = ground (arith, length-resize en f.chunks);
      whole = ground (arith, resize-IsChunk en f.chunks v.whole);
    }

pub find_file-put_file :
    {env : Env} (ino id : ℕ) (f g : Filenode) (s : Enclave env)
    → find_file ino (put_file (record { key = ino; id = id; node = g }) f s)
      ≡ some (record { key = ino; id = id; node = f })
unfolding find_file put_file
find_file-put_file ino id f g s = rw (lookup-put_object ino ino id (filenode f) s) (ground arith)

-- `fallocate` succeeds on every file that can be stored, as long as the end of the range is 4096
-- bytes below the range of `size_t`, and leaves a file that can be stored: its size reaches the end
-- of the range, and it has as many chunks as its size takes.
pub ecall_fs_fallocate-IsFilenode :
    {env : Env} (ino id offset n : ℕ) (f : Filenode) (s : Enclave env)
    → find_file ino s ≡ some (record { key = ino; id = id; node = f })
    → offset + n + chunk_size < size_mod
    → IsFilenode f
    → (s' : Enclave env) × (g : Filenode) × (ecall_fs_fallocate env ino offset n s ≡ (s', 0))
      × (find_file ino s' ≡ some (record { key = ino; id = id; node = g }))
      × (g.size ≡ max f.size (offset + n))
      × IsFilenode g
unfolding ecall_fs_fallocate
ecall_fs_fallocate-IsFilenode ino id offset n f s e b v =
    let g = record (extended (chunk_en offset n) f) {
      size = max f.size ((offset + n) % size_mod);
    } in
    (
      put_file (record { key = ino; id = id; node = f }) g s,
      g,
      ground arith,
      find_file-put_file ino id g f s,
      omega arith,
      extended-IsFilenode offset n f b v,
    )
