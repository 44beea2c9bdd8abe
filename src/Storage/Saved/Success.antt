-- ===== src/Storage/Saved/Success.antt =====
-- Saves that succeed.
use sgx_secfs.Base.{◌≡◌, ap, Bool, true, Bytes, nat_eq}
use sgx_secfs.Uuid.{unparse}
use sgx_secfs.Metadata.Codec.{Codec, Reads}
use sgx_secfs.Storage.Host.{Host, IsHost}
use sgx_secfs.Storage.Api.{IsStorage}
use sgx_secfs.Storage.Cipher.{Cipher, IsGcm}
use sgx_secfs.Storage.Saved.{Loaded, load_metadata, save_metadata}
use sgx_secfs.Storage.Saved.RoundTrip.{load_metadata-save_metadata}

module _ (h : Host) (c : Cipher) (volkey : Bytes) {A : Type 0} (m : Codec A) where
  -- What is saved with success into a storage that takes the file is loaded.
  pub load_metadata-saved :
      {takes : h.api.State → Bytes → Type 0} (a t result : A) (s : h.api.State)
      → IsGcm c
      → IsStorage h.api takes
      → IsHost h
      → ((s : h.api.State) → (n : Bytes) → h.sgx_success s n ≡ true)
      → Reads m a t result
      → m.uuid t ≡ m.uuid a
      → takes s (unparse (m.uuid a))
      → (save_metadata h c volkey m a s).1 ≡ true
      → load_metadata h c volkey m t (save_metadata h c volkey m a s).0 ≡ Loaded.loaded result
  load_metadata-saved a t result s g st hl up r same acc saved =
      let s' = (save_metadata h c volkey m a s).0 in
      load_metadata-save_metadata h c volkey m a t result s s' g st hl r same acc
        (up s' (unparse (m.uuid a))) (ap (λ (b : Bool). (s', b)) saved)
