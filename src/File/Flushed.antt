-- ===== src/File/Flushed.antt =====
-- The storage after `ecall_fs_flush`.
use sgx_secfs.Base.{
  ℕ, suc, ◌≡◌, refl, ap, ◌∙◌, arith, Bool, true, List, [], ◌∷◌, Bytes, length, All, Option, none,
  some, Option-cases, Bool-cases, subst, sym, inl, inr,
}
use sgx_secfs.Uuid.{unparse}
use sgx_secfs.ChunkStore
use sgx_secfs.ChunkStore.{ChunkStore}
use sgx_secfs.Metadata.Codecs.{filenode_codec, filenode-Reads}
use sgx_secfs.Metadata.Filenode.{Chunk, Filenode, chunk_size}
use sgx_secfs.Metadata.Filenode.RoundTrip.{IsChunk, IsFilenode}
use sgx_secfs.Storage.Cipher.{encrypt_buffer}
use sgx_secfs.Storage.Cipher.RoundTrip.{decrypt_buffer-encrypt_buffer}
use sgx_secfs.Storage.Host.{ocall_save_file}
use sgx_secfs.Reachable.Names.{Holds, Holds-bind, Holds-if}
use sgx_secfs.Storage.Saved
use sgx_secfs.Storage.Saved.{Loaded, zero_iv}
use sgx_secfs.Storage.Saved.RoundTrip.{load_metadata-save_metadata}
use sgx_secfs.Enclave.{Env, Enclave, load_metadata, save_metadata}
use sgx_secfs.Enclave.Inode.{new_filenode}
use sgx_secfs.Volume.Laws.{IsEnv}
use sgx_secfs.File.{Open, find_file, put_file}
use sgx_secfs.File.Chunks.{zero_chunk, save_cipher, save_cache, flush_found, flush_chunk}
use sgx_secfs.File.Covered.{find_file-put_file}
use sgx_secfs.File.Handlers.{and_then, flush_chunks, ecall_fs_flush}

module _ {env : Env} {Takes : env.host.api.State → Bytes → Type 0} (ok : IsEnv env Takes) where
  -- A flush leaves the files that the storage takes.
  save_cipher-Takes :
      (chunk : Chunk) (r : Option (Bytes × Bytes)) (n : Bytes) (s : Enclave env)
      → Takes s.storage n
      → Takes (save_cipher env chunk r s).1.0.storage n
  unfolding ocall_save_file
  save_cipher-Takes chunk none n s v = v
  save_cipher-Takes chunk (some (obuf, tag)) n s v =
      elim (Bool-cases (env.host.sgx_success s.storage (unparse chunk.uuid))) [
        | inl e ↦ rw e (ok.storage.takes-set s.storage n (unparse chunk.uuid) _ v)
        | inr e ↦ rw e v
      ]

  save_cache-Takes :
      (chunk : Chunk) (contents n : Bytes) (s : Enclave env)
      → Takes s.storage n
      → Takes (save_cache env chunk contents s).1.0.storage n
  unfolding save_cache
  save_cache-Takes chunk contents n s v = save_cipher-Takes _ _ n s v

  flush_found-Takes :
      (chunk : Chunk) (store : ChunkStore) (iter : Option ℕ) (n : Bytes) (s : Enclave env)
      → Takes s.storage n
      → Holds (λ r. Takes r.1.0.storage n) (flush_found env chunk store iter s)
  flush_found-Takes chunk store none n s v = v
  flush_found-Takes chunk store (some iter) n s v =
      elim (Option-cases (ChunkStore.get_erase iter store)) [
        | inl f ↦ rw (f, Holds) tt
        | inr ((cache, store'), f) ↦ elim (Bool-cases cache.modified) [
          | inl e ↦ rw (f, Holds) (rw (e, Holds) (save_cache-Takes chunk cache.bytes n _ v))
          | inr e ↦ rw (f, Holds) (rw (e, Holds) v)
        ]
      ]

  flush_chunk-Takes :
      (chunk : Chunk) (n : Bytes) (s : Enclave env)
      → Takes s.storage n
      → Holds (λ r. Takes r.1.0.storage n) (flush_chunk env chunk s)
  unfolding flush_chunk
  flush_chunk-Takes chunk n s v =
      elim (Option-cases (ChunkStore.findbykey chunk.uuid s.local_cache)) [
        | inl f ↦ rw (f, Holds) tt
        | inr (iter, f) ↦ rw (f, Holds) (flush_found-Takes chunk s.local_cache iter n s v)
      ]

  and_then-Takes :
      (c : Chunk) (n : Bytes) (r : Option (List Chunk × (Enclave env × Bool)))
      → Holds (λ r. Takes r.1.0.storage n) r
      → Holds (λ r. Takes r.1.0.storage n) (and_then env c r)
  and_then-Takes c n none v = tt
  and_then-Takes c n (some r) v = v

  flush_chunks-Takes :
      (cs : List Chunk) (n : Bytes) (s : Enclave env)
      → Takes s.storage n
      → Holds (λ r. Takes r.1.0.storage n) (flush_chunks env cs s)
  unfolding flush_chunks
  flush_chunks-Takes [] n s v = v
  flush_chunks-Takes (c ∷ cs) n s v =
      Holds-bind (λ r. Takes r.1.0.storage n) (λ r. Takes r.1.0.storage n) (flush_chunk env c s) _
        (flush_chunk-Takes c n s v)
        (λ (c', (t, done)) w.
          Holds-if _ done _ _
            (and_then-Takes c' n (flush_chunks env cs t) (flush_chunks-Takes cs n t w)) w)

  save_cache-IsChunk :
      (chunk : Chunk) (contents : Bytes) (s : Enclave env)
      → IsChunk chunk
      → IsChunk (save_cache env chunk contents s).0
  unfolding save_cache
  save_cache-IsChunk chunk contents s v =
      elim (Option-cases
        (encrypt_buffer env.cipher s.volkey zero_iv chunk.uuid contents zero_chunk chunk_size)) [
          | inl e ↦ rw e (record { uuid = v.uuid; iv = refl; tag = v.tag })
          | inr ((obuf, tag), e) ↦
              let (sixteen, _, _) =
                decrypt_buffer-encrypt_buffer env.cipher s.volkey zero_iv chunk.uuid contents
                  zero_chunk obuf tag [] chunk_size (length contents) ok.gcm e (omega arith) in
              rw e (record { uuid = v.uuid; iv = refl; tag = sixteen })
        ]

  flush_found-IsChunk :
      (chunk chunk' : Chunk) (store : ChunkStore) (iter : Option ℕ) (s s' : Enclave env)
      (saved : Bool)
      → IsChunk chunk
      → flush_found env chunk store iter s ≡ some (chunk', (s', saved))
      → IsChunk chunk'
  flush_found-IsChunk chunk chunk' store none s s' saved v e =
      let same : chunk ≡ chunk' = ground arith in subst IsChunk same v
  flush_found-IsChunk chunk chunk' store (some iter) s s' saved v e =
      elim (Option-cases (ChunkStore.get_erase iter store)) [
        | inl f ↦ absurd (ground arith)
        | inr ((cache, store'), f) ↦
            let t = record s { local_cache = store' } in
            elim (Bool-cases cache.modified) [
              | inl g ↦
                  let same : (save_cache env chunk cache.bytes t).0 ≡ chunk' = ground arith in
                  subst IsChunk same (save_cache-IsChunk chunk cache.bytes t v)
              | inr g ↦ let same : chunk ≡ chunk' = ground arith in subst IsChunk same v
            ]
      ]

  flush_chunk-IsChunk :
      (chunk chunk' : Chunk) (s s' : Enclave env) (saved : Bool)
      → IsChunk chunk
      → flush_chunk env chunk s ≡ some (chunk', (s', saved))
      → IsChunk chunk'
  unfolding flush_chunk
  flush_chunk-IsChunk chunk chunk' s s' saved v e =
      elim (Option-cases (ChunkStore.findbykey chunk.uuid s.local_cache)) [
        | inl f ↦ absurd (ground arith)
        | inr (iter, f) ↦
            flush_found-IsChunk chunk chunk' s.local_cache iter s s' saved v (ground arith)
      ]

  flush_chunks-IsChunk :
      (cs cs' : List Chunk) (s s' : Enclave env) (saved : Bool)
      → All IsChunk cs
      → flush_chunks env cs s ≡ some (cs', (s', saved))
      → All IsChunk cs' × (length cs' ≡ length cs)
  unfolding flush_chunks
  flush_chunks-IsChunk [] cs' s s' saved v e =
      let same : [] ≡ cs' = ground arith in rw (sym same) (tt, refl)
  flush_chunks-IsChunk (c ∷ cs) cs' s s' saved v e = elim (Option-cases (flush_chunk env c s)) [
    | inl f ↦ absurd (ground arith)
    | inr ((c', (t, flushed)), f) ↦
        let v' = flush_chunk-IsChunk c c' s t flushed v.0 f in
        elim (Bool-cases flushed) [
          | inr g ↦ let same : c' ∷ cs ≡ cs' = ground arith in rw (sym same) ((v', v.1), refl)
          | inl g ↦ elim (Option-cases (flush_chunks env cs t)) [
            | inl k ↦ absurd (ground arith)
            | inr ((ds, (t', saved')), k) ↦
                let (w, long) = flush_chunks-IsChunk cs ds t t' saved' v.1 k in
                let same : c' ∷ ds ≡ cs' = ground arith in rw (sym same) ((v', w), ap suc long)
          ]
        ]
  ]

  find_file-save_metadata :
      (ino : ℕ) (g : Filenode) (u : Enclave env)
      → find_file ino (save_metadata env filenode_codec g u).0 ≡ find_file ino u
  unfolding find_file save_metadata
  find_file-save_metadata ino g u = refl

  load_metadata-saved_node :
      (g : Filenode) (u : Enclave env)
      → IsFilenode g
      → Takes u.storage (unparse g.uuid)
      → (save_metadata env filenode_codec g u).1 ≡ true
      → load_metadata env filenode_codec
          (new_filenode g.uuid)
          (save_metadata env filenode_codec g u).0
        ≡ Loaded.loaded (record g { refcount = 0 })
  unfolding load_metadata save_metadata
  load_metadata-saved_node g u v takes saved =
      let st = (Saved.save_metadata env.host env.cipher u.volkey filenode_codec g u.storage).0 in
      load_metadata-save_metadata env.host env.cipher u.volkey filenode_codec g
        (new_filenode g.uuid) _ u.storage st ok.gcm ok.storage ok.host
        (filenode-Reads g (new_filenode g.uuid) v) refl takes (ok.up st (unparse g.uuid))
        (ap (λ (b : Bool). (st, b)) saved)

  -- When `flush` returns 0 for a file that can be stored, with surroundings that do what they
  -- document, every OCALL carried out and a storage that takes the file of its metadata, the file
  -- has its size and its number as before and can still be stored, and the storage has its metadata
  -- as the map has it.
  pub load_metadata-ecall_fs_flush :
      (ino id : ℕ) (f : Filenode) (s s' : Enclave env)
      → find_file ino s ≡ some (record { key = ino; id = id; node = f })
      → IsFilenode f
      → Takes s.storage (unparse f.uuid)
      → ecall_fs_flush env ino s ≡ some (s', 0)
      → (cs : List Chunk) × (find_file ino s'
          ≡ some (record { key = ino; id = id; node = record f { chunks = cs } }))
        × IsFilenode (record f { chunks = cs })
        × (load_metadata env filenode_codec (new_filenode f.uuid) s'
            ≡ Loaded.loaded (record f { chunks = cs; refcount = 0 }))
  unfolding ecall_fs_flush
  load_metadata-ecall_fs_flush ino id f s s' e v k q =
      elim (Option-cases (flush_chunks env f.chunks s)) [
        | inl c ↦ absurd (ground arith)
        | inr ((cs, (t, flushed)), c) ↦
            let takes : Takes t.storage (unparse f.uuid) =
              rw c at (flush_chunks-Takes f.chunks (unparse f.uuid) s k) in
            let (w, long) = flush_chunks-IsChunk f.chunks cs s t flushed v.whole c in
            let g = record f { chunks = cs } in
            let o : Open = record { key = ino; id = id; node = f } in
            let v' : IsFilenode g = record {
              ino = v.ino;
              small = v.small;
              covered = long ∙ v.covered;
              whole = w;
            } in
            let u = put_file o g t in
            let (u', saved) = save_metadata env filenode_codec g u in
            let state : s' ≡ u' = ground arith in
            let success : saved ≡ true = ground arith in
            (
              cs,
              rw state (find_file-save_metadata ino g u ∙ find_file-put_file ino id g f t),
              v',
              rw state (load_metadata-saved_node g u v' takes success),
            )
      ]
