-- ===== src/App.antt =====
-- app/volume.hpp, app/volume.cpp, app/cli.cpp and app/main.cpp: the host's side of a volume, and
-- what it takes from libraries.
pub mod Setup
pub mod Local
pub mod Laws
pub mod Command
pub mod Session
pub mod Cleanup
pub mod Created
use sgx_secfs.Base.{ℕ, ◌≡◌, Bool, Option, Bytes}
use sgx_secfs.Base.Dict.{Dict}
use sgx_secfs.Base.Int.{ℤ}
use sgx_secfs.Uuid.{Uuid}
use sgx_secfs.Metadata.Ecp.{Keypair}
use sgx_secfs.Storage.Api.{StorageApi}
use sgx_secfs.Enclave.{Env}

-- The members of a configuration that the code names: `type`, `config` and `base_dir` are those of
-- the storage.
pub data Field : Type 0 where
  superinfo uid volume_key key_path public_key_path enclave_path storage : Field
  type config base_dir : Field

-- The JSON values of nlohmann: a member by its key, the tests of the type together with the
-- conversions, setting a member, and the texts of values.
pub record JsonApi : Type 1 where
  pub Json : Type 0
  pub Text : Type 0
  pub member : Field → Json → Option Json
  pub is_object : Json → Bool
  pub as_string : Json → Option Bytes
  pub as_integer : Json → Option ℤ
  pub set : Field → Json → Json → Json
  pub of_string : Bytes → Json
  pub of_integer : ℤ → Json
  pub parse : Text → Option Json
  pub dump : Json → Text

-- A key in a PEM file: whether it is one on an elliptic curve, and the pair.
pub record Pk (env : Env) : Type 0 where
  pub is_eckey : Bool
  pub ec : Keypair env.ecp

-- A storage backend as the volume makes it: the disk behind it, the backend over a base directory,
-- its `init`, and what the disk is after the backend was used.
pub record Backend (api : StorageApi) : Type 1 where
  pub Disk : Type 0
  pub open_at : Disk → Bytes → api.State
  pub init : api.State → ℕ
  pub store : Disk → Bytes → api.State → Disk

-- What a backend left on the disk is what the next run finds there.
pub record IsBackend {api : StorageApi} (b : Backend api) : Type 0 where
  pub open_at-store :
      (d : b.Disk) (path : Bytes) (s : api.State) → b.open_at (b.store d path s) path ≡ s

-- The libraries of the host. An enclave that is created has an identifier that is not 0.
pub record Libs (env : Env) : Type 1 where
  pub json : JsonApi
  pub backend : Backend env.host.api
  pub base64_encode : Bytes → Bytes
  pub base64_decode : Bytes → Option Bytes
  pub uuid_parse : Bytes → Option Uuid
  pub uuid_unparse : Uuid → Bytes
  -- `◌/◌` and `parent_path` of `std::filesystem::path`.
  pub join : Bytes → Bytes → Bytes
  pub parent_path : Bytes → Bytes
  pub pk_parse_keyfile : Bytes → Option (Pk env)
  pub pk_parse_public_keyfile : Bytes → Option (Pk env)
  pub group_copy : ℕ → Option ℕ
  pub mpi_copies : Bool
  pub create_enclave : Bytes → Bool
  -- Whether the SGX runtime carries out an ECALL, by its number in a run.
  pub carried : ℕ → Bool
  pub may_write : Bytes → Bool

module _ {env : Env} (l : Libs env) where
  -- What is there outside a run of a program: text files, the disk of the storage, and the random
  -- draws so far.
  pub record Machine : Type 0 where
    pub files : Dict Bytes l.json.Text
    pub disk : l.backend.Disk
    pub drawn : ℕ

  -- The members of `Volume` that a configuration sets.
  pub record Volume : Type 0 where
    pub config : l.json.Json
    pub base_dir : Bytes
