-- ===== src/File/Handlers.antt =====
-- `ecall_fs_open`, `ecall_fs_flush` and `ecall_fs_fallocate`.
use sgx_secfs.Base.{
  ◌/◌, ◌==◌, nat_eq, ℕ, ◌+◌, ◌%◌, max, Bool, true, false, Option, none, some, List, [], ◌∷◌, length,
  ◌>>=◌, if◌then◌else◌,
}
use sgx_secfs.Metadata.Codecs.{filenode_codec}
use sgx_secfs.Metadata.Layout.{size_mod}
use sgx_secfs.Metadata.Filenode.{Chunk}
use sgx_secfs.Enclave.{Env, Enclave, save_metadata}
use sgx_secfs.Enclave.Errno
use sgx_secfs.Directory.Remove.{remove_chunks}
use sgx_secfs.File.{Open, find_file, resize, put_file, chunk_en}
use sgx_secfs.File.Chunks.{flush_chunk}
use sgx_secfs.File.Write.{extended}

-- `OF_TRUNC`, and `flags & OF_TRUNC`.
abbrev pub of_trunc : ℕ
of_trunc = 0o1000

abbrev pub truncates : ℕ → Bool
truncates flags = flags / of_trunc % 2 == 1

module _ (env : Env) where
  -- The caches of the chunks stay in the store.
  unfoldable pub ecall_fs_open : ℕ → ℕ → Enclave env → Enclave env × ℕ
  unfolding find_file put_file remove_chunks
  ecall_fs_open ino flags s = elim (find_file ino s) [
    | none ↦ (s, Errno.eacces)
    | some o ↦
        (if truncates flags
          then (
            put_file o (record o.node { chunks = []; size = 0 })
                (remove_chunks env o.node.chunks s),
            0,
          )
          else (s, 0))
  ]

  abbrev pub and_then :
      Chunk
      → Option (List Chunk × (Enclave env × Bool))
      → Option (List Chunk × (Enclave env × Bool))
  and_then c none = none
  and_then c (some (cs, r)) = some (c ∷ cs, r)

  -- The loop of `ecall_fs_flush`; the chunks behind one that fails stay as they are.
  unfoldable pub flush_chunks :
      List Chunk → Enclave env → Option (List Chunk × (Enclave env × Bool))
  unfolding flush_chunk
  flush_chunks [] s = some ([], (s, true))
  flush_chunks (c ∷ cs) s =
      let rest = flush_chunks cs in
      do
        (c', (s', ok)) ← flush_chunk env c s
        if ok then and_then c' (rest s') else some (c' ∷ cs, (s', false))

  abbrev pub flush_file : Open → List Chunk × (Enclave env × Bool) → Enclave env × ℕ
  flush_file o (cs, (s, ok)) =
      let f = record o.node { chunks = cs } in
      let s' = put_file o f s in
      let (s'', saved) = save_metadata env filenode_codec f s' in
      if ok then (s'', (if saved then 0 else Errno.eio)) else (s', Errno.eio)

  unfoldable pub ecall_fs_flush : ℕ → Enclave env → Option (Enclave env × ℕ)
  unfolding find_file put_file flush_chunks
  ecall_fs_flush ino s = elim (find_file ino s) [
    | none ↦ some (s, Errno.einval)
    | some o ↦ do flushed ← flush_chunks o.node.chunks s; some (flush_file o flushed)
  ]

  -- The mode is not looked at.
  unfoldable pub ecall_fs_fallocate : ℕ → ℕ → ℕ → Enclave env → Enclave env × ℕ
  unfolding find_file put_file resize
  ecall_fs_fallocate ino offset length s = elim (find_file ino s) [
    | none ↦ (s, Errno.eacces)
    | some o ↦
        let f = extended (chunk_en offset length) o.node in
        (put_file o (record f { size = max f.size ((offset + length) % size_mod) }) s, 0)
  ]
