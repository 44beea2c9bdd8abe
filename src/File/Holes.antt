-- ===== src/File/Holes.antt =====
-- Reading chunks that were never written.
use mathlib.Core.List.{append-nil, append_assoc}
use sgx_secfs.Base.{
  ℕ, zero, suc, ◌+◌, ◌-◌, ◌≡◌, ◌<◌, ◌≤◌, min, refl, ap, ◌∙◌, arith, Bool, true, List, [], ◌∷◌, ◌++◌,
  All, some, Bytes, length, replicate, length-replicate, ltb, nat_eq, bytes_eq,
}
use sgx_secfs.Uuid.{null_uuid}
use sgx_secfs.Metadata.Layout.{size_mod}
use sgx_secfs.Metadata.Filenode.{Chunk, chunk_size, chunk_count}
use sgx_secfs.Enclave.{Env, Enclave}
use sgx_secfs.File.{Open, chunk_at?, lock, find_file, chunk_st, chunk_en, off_st, off_en}
use sgx_secfs.File.Chunks.{new_cache, chunk_of}
use sgx_secfs.File.Read.{read_chunk, read_loop, read_size, ecall_fs_read}
use sgx_secfs.File.Segments.{total, total-all}

-- Every chunk is one that `resize` made and no write has reached.
abbrev pub IsHole : List Chunk → Type 0
IsHole cs = All (λ c. c.uuid ≡ null_uuid) cs

chunk_at?-IsHole :
    (i : ℕ) (cs : List Chunk)
    → i < length cs
    → IsHole cs
    → (c : Chunk) × (chunk_at? i cs ≡ some c) × (c.uuid ≡ null_uuid)
unfolding chunk_at?
chunk_at?-IsHole i [] h v = absurd (omega (arith, h))
chunk_at?-IsHole zero (c ∷ cs) h v = (c, refl, v.0)
chunk_at?-IsHole (suc i) (c ∷ cs) h v = chunk_at?-IsHole i cs (omega (arith, h)) v.1

zeros : ℕ → Bytes
zeros n = replicate n 0

zeros_add : (m n : ℕ) → zeros m ++ zeros n ≡ zeros (m + n)
unfolding zeros
zeros_add zero n = ap zeros (omega arith)
zeros_add (suc m) n =
    let e : suc (m + n) ≡ suc m + n = omega arith in
    ap (λ (bs : Bytes). 0 ∷ bs) (zeros_add m n) ∙ ap zeros e

module _ {env : Env} (o : Open) (s : Enclave env) (holes : IsHole o.node.chunks)
    (l : lock o.id s.inode_map ≡ some o) where
  chunk_of-hole :
      (idx : ℕ) (c : Chunk)
      → chunk_at? idx o.node.chunks ≡ some c
      → chunk_of env (new_cache o.id idx) s ≡ some c
  unfolding chunk_of
  chunk_of-hole idx c at = rw l at

  read_chunk-hole :
      (idx st en : ℕ) (c : Chunk)
      → c.uuid ≡ null_uuid
      → read_chunk env o.id idx st en c s ≡ some (s, some (replicate (en - st) 0))
  unfolding read_chunk
  read_chunk-hole idx st en c null = ground arith

  read_loop_step :
      (n idx offset size : ℕ) (buf : Bytes) (c : Chunk)
      → chunk_of env (new_cache o.id idx) s ≡ some c
      → c.uuid ≡ null_uuid
      → read_loop env (suc n) idx o.id offset size buf s
        ≡ read_loop env n
            (suc idx)
            o.id
            offset
            size
            (buf ++ replicate (off_en offset size idx - off_st offset idx) 0)
            s
  unfolding read_loop read_chunk
  read_loop_step n idx offset size buf c at null = ground (arith, at)

  read_loop-holes :
      (n idx offset size : ℕ) (buf : Bytes)
      → n + idx ≤ length o.node.chunks
      → read_loop env n idx o.id offset size buf s
        ≡ some (s, (true, buf ++ replicate (total n idx offset size) 0))
  unfolding read_loop total zeros
  read_loop-holes zero idx offset size buf h = rw (append-nil buf)
  read_loop-holes (suc n) idx offset size buf h =
      let (c, at, null) = chunk_at?-IsHole idx o.node.chunks (omega (arith, h)) holes in
      let part = off_en offset size idx - off_st offset idx in
      let rest = read_loop-holes n (suc idx) offset size (buf ++ zeros part) (omega (arith, h)) in
      read_loop_step n idx offset size buf c (chunk_of-hole idx c at) null
      ∙ rest
      ∙ ap (λ (bs : Bytes). some (s, (true, bs)))
          (append_assoc buf (zeros part) (zeros (total n (suc idx) offset size))
            ∙ ap (λ (bs : Bytes). buf ++ bs) (zeros_add part (total n (suc idx) offset size)))

  -- A read from a part of a file with no written chunks gives zeros, as many as were asked for and
  -- the file has left, and changes nothing.
  pub ecall_fs_read-hole :
      (ino offset n : ℕ)
      → find_file ino s ≡ some o
      → length o.node.chunks ≡ chunk_count o.node.size
      → o.node.size + chunk_size < size_mod
      → offset ≤ o.node.size
      → ecall_fs_read env ino offset n s
        ≡ some (
          s,
          record {
            err = 0;
            size = min n (o.node.size - offset);
            buf = replicate (min n (o.node.size - offset)) 0;
          },
        )
  unfolding ecall_fs_read
  ecall_fs_read-hole ino offset n f cover small le =
      let size = min n (o.node.size - offset) in
      let same : read_size o.node.size offset n ≡ size = omega arith in
      let inside : ltb (length o.node.chunks) (chunk_en offset size) ≡ Bool.false = ground arith in
      let steps = chunk_en offset size - chunk_st offset in
      let loop =
        read_loop-holes steps (chunk_st offset) offset size [] (omega (arith, cover, small)) in
      let sum = total-all offset size (omega (arith, small)) in
      let long = length-replicate {A = ℕ} (total steps (chunk_st offset) offset size) 0 in
      rw (f, ecall_fs_read) (rw (same, inside) (rw loop (rw (long, sum) (ground arith))))
