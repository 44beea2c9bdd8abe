-- ===== src/Storage/Host.antt =====
-- app/ocall.cpp, and what the enclave has from its host and its allocator.
use sgx_secfs.Base.{ℕ, ◌≡◌, Bool, Option, none, some, Bytes, length}
use sgx_secfs.Storage.Api.{StorageApi}

-- The untrusted side: a backend, whether the SGX runtime carries out an OCALL about a file, what a
-- fresh allocation of a size holds, and the memory behind an allocation.
pub record Host : Type 1 where
  pub api : StorageApi
  pub sgx_success : api.State → Bytes → Bool
  pub heap : ℕ → Bytes
  pub behind : Bytes

pub record IsHost (h : Host) : Type 0 where
  pub length-heap : (n : ℕ) → length (h.heap n) ≡ n

module _ (h : Host) where
  -- `ocall_load_file`; `none` is a negative size.
  unfoldable pub ocall_load_file : h.api.State → Bytes → Option Bytes
  ocall_load_file s filename = elim (h.api.get_size s filename) [
    | none ↦ none
    | some size ↦ h.api.get_content s filename size
  ]

  -- `ocall_save_file` drops the result of `set_content`.
  unfoldable pub ocall_save_file : h.api.State → Bytes → Bytes → h.api.State
  ocall_save_file s filename content = (h.api.set_content s filename content).0

  -- `ocall_remove_file`: the error flag.
  unfoldable pub ocall_remove_file : h.api.State → Bytes → h.api.State × ℕ
  ocall_remove_file s filename =
      let (s', removed) = h.api.remove_file s filename in
      elim removed [ Bool.true ↦ (s', 0) | Bool.false ↦ (s', 1) ]
