-- ===== src/Storage/Api.antt =====
-- app/backend/storage.hpp: the interface of a storage backend. `none` stands for a negative size.
use sgx_secfs.Base.{ℕ, ◌≡◌, ◌≢◌, Bool, Option, some, Bytes, length}

pub record StorageApi : Type 1 where
  pub State : Type 0
  pub set_content : State → Bytes → Bytes → State × Option ℕ
  pub get_content : State → Bytes → ℕ → Option Bytes
  pub get_size : State → Bytes → Option ℕ
  pub remove_file : State → Bytes → State × Bool

-- What the enclave relies on, of the files of which `Takes` holds: a content that is set is read back
-- under its name. No other file changes when one is set or removed, and a file is still taken when
-- others were set or removed.
pub record IsStorage (api : StorageApi) (Takes : api.State → Bytes → Type 0) : Type 0 where
  pub size-set :
      (s : api.State) (n bs : Bytes)
      → Takes s n
      → api.get_size (api.set_content s n bs).0 n ≡ some (length bs)
  pub content-set :
      (s : api.State) (n bs : Bytes)
      → Takes s n
      → api.get_content (api.set_content s n bs).0 n (length bs) ≡ some bs
  pub takes-set : (s : api.State) (n m bs : Bytes) → Takes s n → Takes (api.set_content s m bs).0 n
  pub takes-remove : (s : api.State) (n m : Bytes) → Takes s n → Takes (api.remove_file s m).0 n
  pub size-set_ne :
      (s : api.State) (n m bs : Bytes)
      → m ≢ n
      → api.get_size (api.set_content s n bs).0 m ≡ api.get_size s m
  pub content-set_ne :
      (s : api.State) (n m bs : Bytes) (k : ℕ)
      → m ≢ n
      → api.get_content (api.set_content s n bs).0 m k ≡ api.get_content s m k
  pub size-remove_ne :
      (s : api.State) (n m : Bytes)
      → m ≢ n
      → api.get_size (api.remove_file s n).0 m ≡ api.get_size s m
  pub content-remove_ne :
      (s : api.State) (n m : Bytes) (k : ℕ)
      → m ≢ n
      → api.get_content (api.remove_file s n).0 m k ≡ api.get_content s m k
