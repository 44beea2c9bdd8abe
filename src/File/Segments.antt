-- ===== src/File/Segments.antt =====
-- The parts of the chunks that a read or a write goes through.
use sgx_secfs.Base.{
  ℕ, zero, suc, ◌+◌, ◌-◌, ◌*◌, ◌≡◌, ◌<◌, ◌≤◌, min, max, refl, ◌∙◌, arith, Bool, true, some, Bytes,
  nat_eq, Option-cases, inl, inr, take, drop, length,
}
use sgx_secfs.Metadata.Layout.{size_mod}
use sgx_secfs.Metadata.Filenode.{chunk_size}
use sgx_secfs.Enclave.{Env, Enclave}
use sgx_secfs.File.{Open, find_file, chunk_st, chunk_en, off_st, off_en, put_file, lock}
use sgx_secfs.File.Write.{
  WriteReply, write_chunk, write_loop, off_chunk_en, ecall_fs_write, written, write_file, extended,
}

-- Within the range, a part begins where the chunk or the data begins, whichever is later.
part-start :
    (offset size idx : ℕ)
    → offset + size + chunk_size < size_mod
    → chunk_st offset ≤ idx
    → idx * chunk_size + off_st offset idx ≡ max offset (idx * chunk_size)
part-start offset size idx b h = ground arith

part-end :
    (offset size idx : ℕ)
    → offset + size + chunk_size < size_mod
    → chunk_st offset ≤ idx
    → idx < chunk_en offset size
    → idx * chunk_size + off_en offset size idx ≡ min (offset + size) (suc idx * chunk_size)
part-end offset size idx b h k = ground arith

-- The bytes in `n` parts from the chunk `idx` on.
unfoldable pub total : ℕ → ℕ → ℕ → ℕ → ℕ
total zero idx offset size = 0
total (suc n) idx offset size =
    off_en offset size idx - off_st offset idx + total n (suc idx) offset size

total-from :
    (n offset size idx : ℕ)
    → offset + size + chunk_size < size_mod
    → chunk_st offset ≤ idx
    → n + idx ≡ chunk_en offset size
    → total n idx offset size ≡ offset + size - max offset (idx * chunk_size)
unfolding total
total-from zero offset size idx b h e = ground arith
total-from (suc n) offset size idx b h e = omega (
  arith,
  part-start offset size idx b h,
  part-end offset size idx b h (omega (arith, e)),
  total-from n offset size (suc idx) b (omega (arith, h)) (omega (arith, e)),
)

-- The parts of a read or a write make up its size.
pub total-all :
    (offset size : ℕ)
    → offset + size + chunk_size < size_mod
    → total (chunk_en offset size - chunk_st offset) (chunk_st offset) offset size ≡ size
total-all offset size b =
    total-from (chunk_en offset size - chunk_st offset) offset size (chunk_st offset) b
      (omega arith) (omega arith)
    ∙ omega arith

module _ {env : Env} where
  pub write_loop-wsize :
      (n idx id offset size prev file wsize wsize' : ℕ) (buf : Bytes) (s s' : Enclave env)
      → write_loop env n idx id offset size prev file buf wsize s ≡ some (s', (true, wsize'))
      → wsize' ≡ wsize + total n idx offset size
  unfolding write_loop total
  write_loop-wsize zero idx id offset size prev file wsize wsize' buf s s' e = ground arith
  write_loop-wsize (suc n) idx id offset size prev file wsize wsize' buf s s' e =
      let st = off_st offset idx in
      let en = off_en offset size idx in
      elim (Option-cases (
        write_chunk env id idx st en (off_chunk_en prev file idx) (take (en - st) (drop wsize buf))
          s)) [
            | inl f ↦ absurd (ground arith)
            | inr ((t, saved), f) ↦
                let step : write_loop env n (suc idx) id offset size prev file buf
                      (wsize + (en - st)) t
                    ≡ some (s', (true, wsize')) =
                  ground arith in
                omega (
                  arith,
                  write_loop-wsize n (suc idx) id offset size prev file (wsize + (en - st)) wsize'
                      buf t s' step,
                )
          ]

  written-size :
      (id offset size wsize : ℕ) (ok : Bool) (s s' : Enclave env) (r : WriteReply)
      → (ok ≡ true → wsize ≡ size)
      → written env id offset size (s, (ok, wsize)) ≡ some (s', r)
      → r.size ≡ size
  written-size id offset size wsize Bool.false s s' r h e = ground arith
  written-size id offset size wsize true s s' r h e = elim (Option-cases (lock id s.inode_map)) [
    | inl f ↦ absurd (ground arith)
    | inr (o, f) ↦ ground (arith, h refl)
  ]

  write_file-size :
      (buf : Bytes) (offset size : ℕ) (o : Open) (s s' : Enclave env) (r : WriteReply)
      → offset + size + chunk_size < size_mod
      → write_file env o buf offset size s ≡ some (s', r)
      → r.size ≡ size
  write_file-size buf offset size o s s' r b e =
      let st = chunk_st offset in
      let en = chunk_en offset size in
      elim (Option-cases (
        write_loop env (en - st) st o.id offset size (length o.node.chunks) o.node.size buf 0
          (put_file o (extended en o.node) s))) [
            | inl f ↦ absurd (ground arith)
            | inr ((t, (ok, wsize)), f) ↦
                let whole : ok ≡ true → wsize ≡ size = λ (y : ok ≡ true). omega (
                  arith,
                  write_loop-wsize (en - st) st o.id offset size (length o.node.chunks) o.node.size
                      0 wsize buf (put_file o (extended en o.node) s) t (f ∙ rw y),
                  total-all offset size b,
                ) in
                written-size o.id offset size wsize ok t s' r whole (ground arith)
          ]

  -- As long as the end of the write is 4096 bytes below the range of `size_t`, `write` reports the
  -- size that it was asked to write on every file and with every chunk cache: the parts of the
  -- chunks make up that size, and a write that fails leaves the size as it was.
  pub ecall_fs_write-size :
      (ino : ℕ) (buf : Bytes) (offset size : ℕ) (s s' : Enclave env) (r : WriteReply)
      → offset + size + chunk_size < size_mod
      → ecall_fs_write env ino buf offset size s ≡ some (s', r)
      → r.size ≡ size
  unfolding ecall_fs_write
  ecall_fs_write-size ino buf offset size s s' r b e = elim (Option-cases (find_file ino s)) [
    | inl f ↦ ground arith
    | inr (o, f) ↦ write_file-size buf offset size o s s' r b (ground arith)
  ]
