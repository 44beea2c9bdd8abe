-- ===== src/Volume/Laws.antt =====
-- What a volume relies on outside the enclave.
use sgx_secfs.Base.{ℕ, ◌≡◌, ◌≤◌, ◌<◌, ◌+◌, true, some, Bytes, length, nat_eq, All}
use sgx_secfs.Metadata.Ecp.{IsEcp}
use sgx_secfs.Storage.Api.{IsStorage}
use sgx_secfs.Storage.Host.{IsHost}
use sgx_secfs.Storage.Cipher.{IsGcm}
use sgx_secfs.Enclave.{Env, Sgx}

-- What the SGX SDK documents of sealing and of random bytes.
pub record IsSgx (x : Sgx) : Type 0 where
  pub sealed-unseal :
      (aad text : Bytes) (size : ℕ) {sealed : Bytes}
      → x.seal_data aad text size ≡ some sealed
      → (x.unseal_data sealed ≡ some (aad, text))
        × (x.get_add_mac_txt_len sealed ≡ length aad)
        × (x.get_encrypt_txt_len sealed ≡ length text)
  pub size-le : (aad text : ℕ) → aad + text ≤ x.calc_sealed_data_size aad text
  pub random : (k n : ℕ) → (length (x.read_rand k n) ≡ n) × All (λ b. b < 256) (x.read_rand k n)

-- Everything outside the enclave does what it documents, the storage for the files that it takes, and
-- every OCALL is carried out.
pub record IsEnv (env : Env) (Takes : env.host.api.State → Bytes → Type 0) : Type 0 where
  pub gcm : IsGcm env.cipher
  pub ecp : IsEcp env.ecp
  pub sgx : IsSgx env.sgx
  pub storage : IsStorage env.host.api Takes
  pub host : IsHost env.host
  pub up : (s : env.host.api.State) → (n : Bytes) → env.host.sgx_success s n ≡ true
