-- ===== src/Directory/Failures.antt =====
-- The error branches of `ecall_fs_mkdir` and `ecall_fs_create`.
use sgx_secfs.Base.{ℕ, ◌≡◌, ◌≢◌, none, some, arith, Bytes, nat_eq, bytes_eq}
use sgx_secfs.Enclave.{Env, Enclave}
use sgx_secfs.Directory.{Reply}
use sgx_secfs.Directory.Create.{ecall_fs_mkdir, ecall_fs_create}

module _ {env : Env} where
  -- When `mkdir` returns an error number, the enclave and the storage are as they were, and the
  -- reply has no attributes.
  pub ecall_fs_mkdir-unchanged :
      (parent mode : ℕ) (name : Bytes) (s s' : Enclave env) (r : Reply)
      → ecall_fs_mkdir env parent name mode s ≡ some (s', r)
      → r.err ≢ 0
      → (s' ≡ s) × (r.stat ≡ none)
  unfolding ecall_fs_mkdir
  ecall_fs_mkdir-unchanged parent mode name s s' r p n = ground arith

  -- When `create` returns an error number, the enclave and the storage are as they were, and the
  -- reply has no attributes.
  pub ecall_fs_create-unchanged :
      (parent mode : ℕ) (name : Bytes) (s s' : Enclave env) (r : Reply)
      → ecall_fs_create env parent name mode s ≡ some (s', r)
      → r.err ≢ 0
      → (s' ≡ s) × (r.stat ≡ none)
  unfolding ecall_fs_create
  ecall_fs_create-unchanged parent mode name s s' r p n = ground arith
