-- ===== src/Storage/Saved.antt =====
-- `load_metadata`, `save_metadata` and `remove_metadata` of enclave/storage.cpp. The messages that
-- they print are left out, and so is the memory that an early return leaks.
pub mod RoundTrip
pub mod Failures
pub mod Frame
pub mod Success
pub mod Loads
use sgx_secfs.Base.{
  ℕ, zero, ◌+◌, ◌-◌, Bool, true, false, Option, none, some, [], ◌∷◌, ◌++◌, Bytes, length, take,
  drop, replicate, ltb, ◌==◌, nat_eq, if◌then◌else◌,
}
use sgx_secfs.Base.Int.{ℤ, pos, negsuc, difference}
use sgx_secfs.Uuid.{Uuid, unparse}
use sgx_secfs.Metadata.Codec.{Codec}
use sgx_secfs.Storage.Host.{Host, ocall_load_file, ocall_save_file, ocall_remove_file}
use sgx_secfs.Storage.Cipher.{Cipher, encrypt_buffer, decrypt_buffer}

-- `failed` is the result `false`; `fault` is undefined behaviour or an uncaught exception.
pub data Loaded (A : Type 0) : Type 0 where
  loaded : A → Loaded A
  failed : Loaded A
  fault : Loaded A

abbrev pub of_option : {A : Type 0} → Option A → Loaded A
of_option none = failed
of_option (some a) = loaded a

-- The IV that every call clears.
abbrev pub zero_iv : Bytes
zero_iv = replicate 12 0

module _ (h : Host) (c : Cipher) (volkey : Bytes) where
  module _ {A : Type 0} (m : Codec A) where
    abbrev load_plain : A → ℕ → Option Bytes → Loaded A
    load_plain obj bsize none = failed
    load_plain obj bsize (some ibuf) = of_option (m.load obj (ibuf ++ h.behind) bsize)

    -- With a negative `bsize` the tag is copied from in front of the content, and `new` throws.
    abbrev load_sized : A → Bytes → ℤ → Loaded A
    load_sized obj obuf (pos bsize) = load_plain obj bsize (
        decrypt_buffer c volkey zero_iv (m.uuid obj) (take bsize obuf) (h.heap bsize) bsize
          (drop bsize obuf))
    load_sized obj obuf (negsuc k) = fault

    abbrev load_content : A → Option Bytes → Loaded A
    load_content obj none = failed
    load_content obj (some obuf) = load_sized obj obuf (difference (length obuf) 16)

    unfoldable pub load_metadata : A → h.api.State → Loaded A
    unfolding ocall_load_file
    load_metadata obj s =
        if h.sgx_success s (unparse (m.uuid obj))
        then load_content obj (ocall_load_file h s (unparse (m.uuid obj)))
        else failed

    abbrev save_cipher : A → h.api.State → Option (Bytes × Bytes) → h.api.State × Bool
    save_cipher obj s none = (s, false)
    save_cipher obj s (some (obuf, tag)) =
        let filename = unparse (m.uuid obj) in
        if h.sgx_success s filename
        then (ocall_save_file h s filename (take (m.dump_size obj) obuf ++ tag), true)
        else (s, false)

    abbrev save_plain : A → h.api.State → Option Bytes → h.api.State × Bool
    save_plain obj s none = (s, false)
    save_plain obj s (some ibuf) =
        let isize = m.dump_size obj in
        save_cipher obj s (
          encrypt_buffer c volkey zero_iv (m.uuid obj) (take isize ibuf) (h.heap (isize + 16))
            isize)

    -- The new state of the storage, and the result.
    unfoldable pub save_metadata : A → h.api.State → h.api.State × Bool
    unfolding ocall_save_file
    save_metadata obj s =
        let isize = m.dump_size obj in
        let plain = m.dump obj (h.heap isize) isize in
        if isize == 0 then (s, false) else save_plain obj s plain

  abbrev removed : h.api.State × ℕ → h.api.State × Bool
  removed (s', err) = (s', err == 0)

  -- `remove_metadata`, and `remove_chunk`, which is the same code.
  unfoldable pub remove_metadata : Uuid → h.api.State → h.api.State × Bool
  unfolding ocall_remove_file
  remove_metadata u s =
      if h.sgx_success s (unparse u)
      then removed (ocall_remove_file h s (unparse u))
      else (s, false)
