-- ===== src/Storage/Saved/Loads.antt =====
-- What `load` ensures holds of all that `load_metadata` gives.
use sgx_secfs.Base.{
  ℕ, ◌≡◌, refl, ◌++◌, Option, none, some, Bytes, length, nat_eq, Bool-cases, inl, inr,
}
use sgx_secfs.Base.Int.{ℤ, pos, negsuc, difference}
use sgx_secfs.Uuid.{unparse}
use sgx_secfs.Metadata.Codec.{Codec}
use sgx_secfs.Storage.Host.{Host, ocall_load_file}
use sgx_secfs.Storage.Cipher.{Cipher}
use sgx_secfs.Storage.Saved.{Loaded, of_option, load_plain, load_sized, load_content, load_metadata}

abbrev pub Loads : {A : Type 0} → (A → Type 0) → Loaded A → Type 0
Loads P (Loaded.loaded a) = P a
Loads P Loaded.failed = Unit
Loads P Loaded.fault = Unit

of_option-Loads :
    {A : Type 0} (P : A → Type 0) (r : Option A)
    → ((a : A) → r ≡ some a → P a)
    → Loads P (of_option r)
of_option-Loads P none h = tt
of_option-Loads P (some a) h = h a refl

module _ (h : Host) (c : Cipher) (volkey : Bytes) {A : Type 0} (m : Codec A) (P : A → Type 0)
    (obj : A) (ensures : (buf : Bytes) (n : ℕ) (a : A) → m.load obj buf n ≡ some a → P a) where
  load_plain-Loads : (bsize : ℕ) (r : Option Bytes) → Loads P (load_plain h c volkey m obj bsize r)
  load_plain-Loads bsize none = tt
  load_plain-Loads bsize (some ibuf) = of_option-Loads P _ (ensures (ibuf ++ h.behind) bsize)

  load_sized-Loads : (obuf : Bytes) (bsize : ℤ) → Loads P (load_sized h c volkey m obj obuf bsize)
  load_sized-Loads obuf (pos n) = load_plain-Loads n _
  load_sized-Loads obuf (negsuc k) = tt

  load_content-Loads : (r : Option Bytes) → Loads P (load_content h c volkey m obj r)
  load_content-Loads none = tt
  load_content-Loads (some obuf) = load_sized-Loads obuf (difference (length obuf) 16)

  pub load_metadata-Loads : (s : h.api.State) → Loads P (load_metadata h c volkey m obj s)
  unfolding load_metadata
  load_metadata-Loads s = elim (Bool-cases (h.sgx_success s (unparse (m.uuid obj)))) [
    | inl e ↦ rw e (load_content-Loads (ocall_load_file h s (unparse (m.uuid obj))))
    | inr e ↦ rw e tt
  ]
