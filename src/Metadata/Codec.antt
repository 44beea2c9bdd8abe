-- ===== src/Metadata/Codec.antt =====
-- enclave/metadata.hpp: the virtual functions of `Metadata`, which `load_metadata` and
-- `save_metadata` call, and what they rely on.
use sgx_secfs.Base.{ℕ, ◌≡◌, ◌<◌, ◌++◌, Option, some, Bytes, length}
use sgx_secfs.Uuid.{Uuid}

-- `load` is given the object that it fills.
pub record Codec (A : Type 0) : Type 0 where
  pub uuid : A → Uuid
  pub load : A → Bytes → ℕ → Option A
  pub dump_size : A → ℕ
  pub dump : A → Bytes → ℕ → Option Bytes

-- An object `a` that can be stored is written to exactly `dump_size` bytes, and reading them into
-- the object `t` gives `result`.
pub record Reads {A : Type 0} (m : Codec A) (a t result : A) : Type 0 where
  pub positive : 0 < m.dump_size a
  pub writes :
      (buf : Bytes)
      → length buf ≡ m.dump_size a
      → (bs : Bytes) × (m.dump a buf (m.dump_size a) ≡ some bs)
        × (length bs ≡ m.dump_size a)
        × ((behind : Bytes) → m.load t (bs ++ behind) (m.dump_size a) ≡ some result)
