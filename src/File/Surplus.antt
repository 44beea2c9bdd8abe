-- ===== src/File/Surplus.antt =====
-- The end of the old contents in the last chunk, as `ecall_fs_write` computes it.
use sgx_secfs.Base.{
  ℕ, suc, ◌+◌, ◌-◌, ◌*◌, ◌<◌, ◌≡◌, ◌≢◌, refl, arith, Bool, Option, some, none, true, false, Bytes,
  take, drop, ◌>>=◌, subst, ◌∙◌, nat_eq, bytes_eq, if◌then◌else◌,
}
use sgx_secfs.Uuid.{null_uuid}
use sgx_secfs.Metadata.Layout.{size_mod}
use sgx_secfs.Metadata.Filenode.{Chunk, chunk_size, chunk_count}
use sgx_secfs.Enclave.{Env, Enclave}
use sgx_secfs.File.{chunk_st, chunk_en, off_st, off_en}
use sgx_secfs.File.Chunks.{zero_chunk, new_cache, chunk_of, save_chunk}
use sgx_secfs.File.Write.{overwrite, off_chunk_en, cache_to_write, write_chunk, write_loop}

-- A write of `n` bytes to a file of some size that starts where the last chunk does and stops one
-- byte before the end of the file.
pub record IsShort (size offset n : ℕ) : Type 0 where
  pub starts : offset ≡ (chunk_count size - 1) * chunk_size
  pub some_bytes : 0 < n
  pub stops : suc (offset + n) ≡ size
  pub small : size + chunk_size < size_mod

module _ (size offset n : ℕ) (w : IsShort size offset n) where
  chunk_st_lem : chunk_st offset ≡ chunk_count size - 1
  chunk_st_lem = ground (arith, w.starts, w.stops, w.small)

  chunk_en_lem : chunk_en offset n ≡ suc (chunk_count size - 1)
  chunk_en_lem = ground (arith, w.starts, w.stops, w.small, w.some_bytes)

  off_st_lem : off_st offset (chunk_count size - 1) ≡ 0
  off_st_lem = ground (arith, w.starts)

  off_en_lem : off_en offset n (chunk_count size - 1) ≡ n
  off_en_lem = ground (arith, w.starts, w.stops, w.small, w.some_bytes, chunk_en_lem)

  off_chunk_en_lem : off_chunk_en (chunk_count size) size (chunk_count size - 1) ≡ n
  off_chunk_en_lem = ground (arith, w.starts, w.stops, w.small, w.some_bytes)

module _ {env : Env} where
  -- The chunk is not loaded: the cache that is written to is the new one.
  cache_to_write-IsShort :
      (n id idx : ℕ) (chunk : Chunk) (s : Enclave env)
      → chunk.uuid ≢ null_uuid
      → cache_to_write env 0 n n (new_cache id idx) chunk s ≡ some (new_cache id idx, s)
  unfolding cache_to_write
  cache_to_write-IsShort n id idx chunk s ne = ground (arith, ne)

  -- What a round makes of what `save_chunk` gives.
  abbrev pub counted : ℕ → Enclave env × Bool → Option (Enclave env × (Bool × ℕ))
  counted n (s, saved) = some (s, (saved, n))

  write_chunk-IsShort :
      (n id idx : ℕ) (bytes : Bytes) (chunk : Chunk) (s : Enclave env)
      → chunk_of env (new_cache id idx) s ≡ some chunk
      → chunk.uuid ≢ null_uuid
      → write_chunk env id idx 0 n n bytes s
        ≡ save_chunk env
            (record (new_cache id idx) { bytes = overwrite 0 bytes zero_chunk; modified = true })
            s
  unfolding write_chunk
  write_chunk-IsShort n id idx bytes chunk s found ne = ground (arith, found, ne)

  -- What the loop does after a round that is the last one.
  abbrev last_round : ℕ → Enclave env × Bool → Option (Enclave env × (Bool × ℕ))
  last_round n (s, saved) = if saved then some (s, (true, n)) else some (s, (false, n))

  write_loop-last :
      (idx id offset size prev_size file_size st en ce : ℕ) (buf : Bytes) (s : Enclave env)
      → off_st offset idx ≡ st
      → off_en offset size idx ≡ en
      → off_chunk_en prev_size file_size idx ≡ ce
      → write_loop env 1 idx id offset size prev_size file_size buf 0 s ≡ (
          write_chunk env id idx st en ce (take (en - st) (drop 0 buf)) s
          >>= last_round (0 + (en - st)))
  unfolding write_loop write_chunk
  write_loop-last idx id offset size prev_size file_size st en ce buf s p q r =
      subst
        (λ st. write_loop env 1 idx id offset size prev_size file_size buf 0 s ≡ (
          write_chunk env id idx st en ce (take (en - st) (drop 0 buf)) s
          >>= last_round (0 + (en - st))))
        p
        (subst
          (λ en. write_loop env 1 idx id offset size prev_size file_size buf 0 s ≡ (
            write_chunk env id idx (off_st offset idx) en ce
              (take (en - off_st offset idx) (drop 0 buf)) s
            >>= last_round (0 + (en - off_st offset idx))))
          q
          (subst
            (λ ce. write_loop env 1 idx id offset size prev_size file_size buf 0 s ≡ (
              write_chunk env id idx (off_st offset idx) (off_en offset size idx) ce
                (take (off_en offset size idx - off_st offset idx) (drop 0 buf)) s
              >>= last_round (0 + (off_en offset size idx - off_st offset idx))))
            r refl))

  counted_lem : (n : ℕ) (m : Option (Enclave env × Bool)) → (m >>= last_round n) ≡ (m >>= counted n)
  counted_lem n none = refl
  counted_lem n (some (s', true)) = refl
  counted_lem n (some (s', false)) = refl

  -- The loop of a write that starts where the last chunk does and stops one byte before the end of
  -- the file, as `ecall_fs_write` calls it: the chunk, which has been stored, is not loaded, and
  -- what is saved in its place has the written bytes and then zeros, although its last byte was to
  -- stay. This holds of every file whose size is 4096 below the range of `size_t`.
  pub write_loop-IsShort :
      (size offset n id : ℕ) (buf : Bytes) (chunk : Chunk) (s : Enclave env)
      → IsShort size offset n
      → chunk_of env (new_cache id (chunk_count size - 1)) s ≡ some chunk
      → chunk.uuid ≢ null_uuid
      → write_loop env
          (chunk_en offset n - chunk_st offset)
          (chunk_st offset)
          id
          offset
          n
          (chunk_count size)
          size
          buf
          0
          s
        ≡ (save_chunk env
              (record (new_cache id (chunk_count size - 1)) {
                bytes = overwrite 0 (take n buf) zero_chunk;
                modified = true;
              })
              s
            >>= counted n)
  write_loop-IsShort size offset n id buf chunk s w found ne =
      let idx = chunk_count size - 1 in
      let one : chunk_en offset n - chunk_st offset ≡ 1 =
        omega (arith, chunk_st_lem size offset n w, chunk_en_lem size offset n w) in
      let all : n - 0 ≡ n = omega arith in
      let none_before : 0 + n ≡ n = omega arith in
      rw (one, chunk_st_lem size offset n w)
        (write_loop-last idx id offset n (chunk_count size) size 0 n n buf s
            (off_st_lem size offset n w) (off_en_lem size offset n w)
            (off_chunk_en_lem size offset n w)
          ∙ rw (all, none_before, write_chunk-IsShort n id idx (take n buf) chunk s found ne)
              (counted_lem n _))
