-- ===== src/Storage/Saved/Failures.antt =====
-- Failures of `save_metadata` and `load_metadata`.
use sgx_secfs.Base.{◌+◌, ◌≡◌, ◌++◌, true, false, none, some, Bytes, take, ◌==◌, nat_eq}
use sgx_secfs.Uuid.{unparse}
use sgx_secfs.Metadata.Codec.{Codec}
use sgx_secfs.Storage.Host.{Host, ocall_save_file}
use sgx_secfs.Storage.Cipher.{Cipher, encrypt_buffer}
use sgx_secfs.Storage.Saved.{zero_iv, save_metadata}

module _ (h : Host) (c : Cipher) (volkey : Bytes) {A : Type 0} (m : Codec A) where
  -- If the backend refuses to write the file and stays as it is, `save_metadata` still returns true
  -- for any object that is dumped and encrypted: nothing is stored and nobody is told.
  pub save_metadata-refused :
      (a : A) (s : h.api.State) (plain obuf tag : Bytes)
      → (m.dump_size a == 0) ≡ false
      → m.dump a (h.heap (m.dump_size a)) (m.dump_size a) ≡ some plain
      → encrypt_buffer c volkey zero_iv
          (m.uuid a)
          (take (m.dump_size a) plain)
          (h.heap (m.dump_size a + 16))
          (m.dump_size a)
        ≡ some (obuf, tag)
      → h.sgx_success s (unparse (m.uuid a)) ≡ true
      → ((bs : Bytes) → h.api.set_content s (unparse (m.uuid a)) bs ≡ (s, none))
      → save_metadata h c volkey m a s ≡ (s, true)
  unfolding save_metadata ocall_save_file
  save_metadata-refused a s plain obuf tag z d e up refused =
      rw (z, d, e, up) (rw (refused (take (m.dump_size a) obuf ++ tag), ocall_save_file))
