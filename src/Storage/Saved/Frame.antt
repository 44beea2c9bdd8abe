-- ===== src/Storage/Saved/Frame.antt =====
-- `save_metadata` and the other objects of the storage.
use sgx_secfs.Base.{
  ◌≡◌, refl, ◌≢◌, true, Option, none, some, arith, Bytes, nat_eq, Option-cases, inl, inr, ◌++◌,
  take, Bool-cases, ◌==◌,
}
use sgx_secfs.Uuid.{unparse}
use sgx_secfs.Metadata.Codec.{Codec}
use sgx_secfs.Storage.Api.{IsStorage}
use sgx_secfs.Storage.Host.{Host, ocall_load_file, ocall_save_file}
use sgx_secfs.Storage.Cipher.{Cipher}
use sgx_secfs.Storage.Saved.{save_plain, save_cipher, load_metadata, save_metadata}

module _ (h : Host) {takes : h.api.State → Bytes → Type 0} (st : IsStorage h.api takes) where
  ocall_load_file-other :
      (s : h.api.State) (n m bs : Bytes)
      → m ≢ n
      → ocall_load_file h (ocall_save_file h s n bs) m ≡ ocall_load_file h s m
  unfolding ocall_load_file ocall_save_file
  ocall_load_file-other s n m bs ne = elim (Option-cases (h.api.get_size s m)) [
    | inl e ↦ ground (arith, st.size-set_ne s n m bs ne)
    | inr (k, e) ↦ ground (arith, st.size-set_ne s n m bs ne, st.content-set_ne s n m bs k ne)
  ]

  module _ (c : Cipher) (volkey : Bytes) {A B : Type 0} (m : Codec A) (o : Codec B) where
    ocall_load_file-save_cipher :
        (b : B) (s : h.api.State) (n : Bytes) (r : Option (Bytes × Bytes))
        → n ≢ unparse (o.uuid b)
        → ocall_load_file h (save_cipher h c volkey o b s r).0 n ≡ ocall_load_file h s n
    ocall_load_file-save_cipher b s n none ne = refl
    ocall_load_file-save_cipher b s n (some (obuf, tag)) ne = ground (
      arith,
      ocall_load_file-other s (unparse (o.uuid b)) n (take (o.dump_size b) obuf ++ tag) ne,
    )

    ocall_load_file-save_plain :
        (b : B) (s : h.api.State) (n : Bytes) (r : Option Bytes)
        → n ≢ unparse (o.uuid b)
        → ocall_load_file h (save_plain h c volkey o b s r).0 n ≡ ocall_load_file h s n
    ocall_load_file-save_plain b s n none ne = refl
    ocall_load_file-save_plain b s n (some ibuf) ne = ocall_load_file-save_cipher b s n _ ne

    ocall_load_file-save_metadata :
        (b : B) (s : h.api.State) (n : Bytes)
        → n ≢ unparse (o.uuid b)
        → ocall_load_file h (save_metadata h c volkey o b s).0 n ≡ ocall_load_file h s n
    unfolding save_metadata
    ocall_load_file-save_metadata b s n ne = ground (
      arith,
      ocall_load_file-save_plain b s n (o.dump b (h.heap (o.dump_size b)) (o.dump_size b)) ne,
    )

    -- What is loaded for one object is the same before and after the save of an object with another
    -- file name, while the SGX runtime carries out every OCALL.
    pub load_metadata-other :
        (t : A) (b : B) (s : h.api.State)
        → ((s : h.api.State) → (n : Bytes) → h.sgx_success s n ≡ true)
        → unparse (m.uuid t) ≢ unparse (o.uuid b)
        → load_metadata h c volkey m t (save_metadata h c volkey o b s).0
          ≡ load_metadata h c volkey m t s
    unfolding load_metadata
    load_metadata-other t b s up ne = rw (
      up (save_metadata h c volkey o b s).0 (unparse (m.uuid t)),
      up s (unparse (m.uuid t)),
      ocall_load_file-save_metadata b s (unparse (m.uuid t)) ne,
    )

    save_cipher-takes :
        (b : B) (s : h.api.State) (n : Bytes) (r : Option (Bytes × Bytes))
        → takes s n
        → takes (save_cipher h c volkey o b s r).0 n
    unfolding ocall_save_file
    save_cipher-takes b s n none v = v
    save_cipher-takes b s n (some (obuf, tag)) v =
        elim (Bool-cases (h.sgx_success s (unparse (o.uuid b)))) [
          | inl e ↦ rw e (st.takes-set s n (unparse (o.uuid b)) _ v)
          | inr e ↦ rw e v
        ]

    save_plain-takes :
        (b : B) (s : h.api.State) (n : Bytes) (r : Option Bytes)
        → takes s n
        → takes (save_plain h c volkey o b s r).0 n
    save_plain-takes b s n none v = v
    save_plain-takes b s n (some ibuf) v = save_cipher-takes b s n _ v

    -- A file that is taken before a save is taken after it.
    pub save_metadata-takes :
        (b : B) (s : h.api.State) (n : Bytes)
        → takes s n
        → takes (save_metadata h c volkey o b s).0 n
    unfolding save_metadata
    save_metadata-takes b s n v = elim (Bool-cases (o.dump_size b == 0)) [
      | inl e ↦ rw e v
      | inr e ↦ rw e (save_plain-takes b s n (o.dump b (h.heap (o.dump_size b)) (o.dump_size b)) v)
    ]
