-- ===== src/Storage/Saved/RoundTrip.antt =====
-- `load_metadata` after `save_metadata`.
use mathlib.Core.List.{append-nil}
use sgx_secfs.Base.{
  ℕ, ◌+◌, ◌≡◌, refl, subst, ◌∙◌, true, some, ◌++◌, arith, Bytes, length, take, drop, take-append,
  drop-append, take_whole, length-append, drop_all, inl, inr, Option-cases, nat_eq,
}
use sgx_secfs.Base.Int.{pos, difference}
use sgx_secfs.Uuid.{unparse}
use sgx_secfs.Metadata.Codec.{Codec, Reads}
use sgx_secfs.Storage.Api.{IsStorage}
use sgx_secfs.Storage.Host.{Host, IsHost, ocall_load_file, ocall_save_file}
use sgx_secfs.Storage.Cipher.{Cipher, IsGcm, encrypt_buffer, decrypt_buffer}
use sgx_secfs.Storage.Cipher.RoundTrip.{decrypt_buffer-encrypt_buffer}
use sgx_secfs.Storage.Saved.{
  loaded, load_content, load_plain, zero_iv, load_metadata, save_metadata,
}

-- A content that was saved is loaded.
module _ (h : Host) {takes : h.api.State → Bytes → Type 0} where
  pub ocall_load_file-stored :
      (s s' : h.api.State) (name content : Bytes)
      → IsStorage h.api takes
      → takes s name
      → s' ≡ ocall_save_file h s name content
      → ocall_load_file h s' name ≡ some content
  unfolding ocall_load_file ocall_save_file
  ocall_load_file-stored s s' name content st acc e =
      rw e (ground (arith, st.size-set s name content acc, st.content-set s name content acc))

module _ (h : Host) (c : Cipher) (volkey : Bytes) {A : Type 0} (m : Codec A) where
  -- What is in the storage after a successful save.
  abbrev Stored : A → h.api.State → h.api.State → Bytes → Type 0
  Stored a s s' plain =
      (obuf : Bytes) × (tag : Bytes) × (encrypt_buffer c volkey zero_iv (m.uuid a) plain
          (h.heap (m.dump_size a + 16)) (m.dump_size a)
        ≡ some (obuf, tag))
      × (s' ≡ ocall_save_file h s (unparse (m.uuid a)) (take (m.dump_size a) obuf ++ tag))

  save_metadata-inv :
      (a : A) (s s' : h.api.State) (bs : Bytes)
      → m.dump a (h.heap (m.dump_size a)) (m.dump_size a) ≡ some bs
      → take (m.dump_size a) bs ≡ bs
      → save_metadata h c volkey m a s ≡ (s', true)
      → Stored a s s' bs
  unfolding save_metadata
  save_metadata-inv a s s' bs d t e =
      elim (Option-cases (
        encrypt_buffer c volkey zero_iv (m.uuid a) bs (h.heap (m.dump_size a + 16))
          (m.dump_size a))) [
            | inl f ↦ absurd (ground arith)
            | inr ((obuf, tag), f) ↦ (obuf, tag, f, ground arith)
          ]

  load_content_lem :
      (t : A) (obuf : Bytes) (n : ℕ)
      → length obuf ≡ n + 16
      → load_content h c volkey m t (some obuf)
        ≡ load_plain h c volkey m t n
            (decrypt_buffer c volkey zero_iv (m.uuid t) (take n obuf) (h.heap n) n (drop n obuf))
  load_content_lem t obuf n e =
      let size : difference (length obuf) 16 ≡ pos n = ground (arith, e) in rw size refl

  load_content-stored :
      (a t result : A) (s : h.api.State) (bs obuf tag : Bytes)
      → IsGcm c
      → m.uuid t ≡ m.uuid a
      → length bs ≡ m.dump_size a
      → ((behind : Bytes) → m.load t (bs ++ behind) (m.dump_size a) ≡ some result)
      → IsHost h
      → encrypt_buffer c volkey zero_iv (m.uuid a) bs (h.heap (m.dump_size a + 16)) (m.dump_size a)
        ≡ some (obuf, tag)
      → load_content h c volkey m t (some (take (m.dump_size a) obuf ++ tag)) ≡ loaded result
  load_content-stored a t result s bs obuf tag g same long reads hl e =
      let n = m.dump_size a in
      let (sixteen, whole, dec) =
        decrypt_buffer-encrypt_buffer c volkey zero_iv (m.uuid a) bs (h.heap (n + 16)) obuf tag
          (h.heap n) n n g e (omega (arith, long)) in
      let cut : length (take n obuf) ≡ n = subst (λ (k : ℕ). length (take k obuf) ≡ k) long whole in
      let dec' : decrypt_buffer c volkey zero_iv (m.uuid a) (take n obuf) (h.heap n) n tag
          ≡ some bs =
        subst
          (λ (k : ℕ).
            decrypt_buffer c volkey zero_iv (m.uuid a) (take k obuf) (h.heap n) n tag
            ≡ some (bs ++ drop k (h.heap n)))
          long dec
        ∙ rw (drop_all n (h.heap n) (hl.length-heap n), append-nil bs) in
      load_content_lem t (take n obuf ++ tag) n
        (omega (arith, length-append (take n obuf) tag, sixteen, cut))
      ∙ rw (take-append n (take n obuf) tag cut, drop-append n (take n obuf) tag cut, same)
          (rw (dec', reads h.behind))

  -- A metadata object whose class reads back what it writes, saved with success into a storage that
  -- takes the file, is loaded from there into an object of the same UUID, for any codec, cipher and
  -- storage that do what they document and while the SGX runtime carries out the OCALL.
  pub load_metadata-save_metadata :
      {takes : h.api.State → Bytes → Type 0} (a t result : A) (s s' : h.api.State)
      → IsGcm c
      → IsStorage h.api takes
      → IsHost h
      → Reads m a t result
      → m.uuid t ≡ m.uuid a
      → takes s (unparse (m.uuid a))
      → h.sgx_success s' (unparse (m.uuid a)) ≡ true
      → save_metadata h c volkey m a s ≡ (s', true)
      → load_metadata h c volkey m t s' ≡ loaded result
  unfolding load_metadata
  load_metadata-save_metadata a t result s s' g st hl r same acc up e =
      let (bs, d, long, reads) =
        r.writes (h.heap (m.dump_size a)) (hl.length-heap (m.dump_size a)) in
      let (obuf, tag, f, stored) =
        save_metadata-inv a s s' bs d (take_whole (m.dump_size a) bs long) e in
      rw
        (
          same,
          up,
          ocall_load_file-stored h s s' (unparse (m.uuid a)) (take (m.dump_size a) obuf ++ tag) st
              acc stored,
        )
        (load_content-stored a t result s bs obuf tag g same long reads hl f)
