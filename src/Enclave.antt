-- ===== src/Enclave.antt =====
-- The state of the enclave: the globals of enclave/volume.cpp, the untrusted storage that it talks
-- to, and what it takes from libraries. An ECALL gives the new state and its results; `none` is
-- undefined behaviour or an uncaught exception.
pub mod Inode
pub mod Errno
use sgx_secfs.Base.{ℕ, zero, suc, ◌≡◌, Bool, Option, some, Bytes, length}
use sgx_secfs.Base.Dict.{Dict}
use sgx_secfs.Uuid.{Uuid}
use sgx_secfs.Metadata.Codec.{Codec}
use sgx_secfs.Metadata.Ecp.{Ecp}
use sgx_secfs.Metadata.Superinfo.{Superinfo}
use sgx_secfs.Storage.Host.{Host}
use sgx_secfs.Storage.Cipher.{Cipher}
use sgx_secfs.Storage.Saved
use sgx_secfs.Storage.Saved.{Loaded}
use sgx_secfs.ChunkStore.{ChunkStore}
use Inode.{Object}

-- The calls of the SGX SDK: `sgx_read_rand`, whose draws are numbered, and sealing.
pub record Sgx : Type 0 where
  pub read_rand : ℕ → ℕ → Bytes
  pub calc_sealed_data_size : ℕ → ℕ → ℕ
  pub seal_data : Bytes → Bytes → ℕ → Option Bytes
  pub get_add_mac_txt_len : Bytes → ℕ
  pub get_encrypt_txt_len : Bytes → ℕ
  pub unseal_data : Bytes → Option (Bytes × Bytes)

pub record Env : Type 1 where
  pub host : Host
  pub cipher : Cipher
  pub ecp : Ecp
  pub sgx : Sgx
  pub max_cache_num : ℕ

-- `superinfo` is `none` before a mount; `drawn` counts the draws of random bytes.
pub record Enclave (env : Env) : Type 0 where
  pub inode_map : Dict ℕ Object
  pub next_object : ℕ
  pub superinfo : Option Superinfo
  pub volkey : Bytes
  pub local_cache : ChunkStore
  pub storage : env.host.api.State
  pub drawn : ℕ

module _ (env : Env) where
  -- `load_metadata` and `save_metadata` with the volume key and the storage of the enclave.
  unfoldable pub load_metadata : {A : Type 0} → Codec A → A → Enclave env → Loaded A
  load_metadata m a s = Saved.load_metadata env.host env.cipher s.volkey m a s.storage

  unfoldable pub save_metadata : {A : Type 0} → Codec A → A → Enclave env → Enclave env × Bool
  save_metadata m a s =
      let (storage, saved) = Saved.save_metadata env.host env.cipher s.volkey m a s.storage in
      (record s { storage = storage }, saved)

  unfoldable pub remove_metadata : Uuid → Enclave env → Enclave env × Bool
  remove_metadata u s =
      let (storage, removed) = Saved.remove_metadata env.host env.cipher s.volkey u s.storage in
      (record s { storage = storage }, removed)

  -- `UUID::gen_rand`
  unfoldable pub gen_rand : Enclave env → Uuid × Enclave env
  gen_rand s = (env.sgx.read_rand s.drawn 16, record s { drawn = suc s.drawn })
