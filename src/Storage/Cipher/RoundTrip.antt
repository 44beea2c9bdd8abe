-- ===== src/Storage/Cipher/RoundTrip.antt =====
-- `encrypt_buffer` and `decrypt_buffer` together.
use sgx_secfs.Base.{
  ℕ, ◌≤◌, ◌≡◌, refl, ap, ◌∙◌, Bool, true, some, ◌++◌, arith, Bytes, length, take, drop, take-append,
  inl, inr, Option-cases, ltb,
}
use sgx_secfs.Storage.Cipher.{Cipher, Mode, IsGcm, encrypt_buffer, decrypt_buffer}

module _ (c : Cipher) (volkey iv aad src : Bytes) where
  -- The calls of an encryption that succeeds.
  record Encrypted (dst obuf tag : Bytes) : Type 0 where
    pub x1 : c.Ctx
    pub x2 : c.Ctx
    pub x3 : c.Ctx
    pub x4 : c.Ctx
    pub x5 : c.Ctx
    pub x6 : c.Ctx
    pub x7 : c.Ctx
    pub out : Bytes
    pub last : Bytes
    pub info : c.has_info ≡ true
    pub setup : c.setup c.init ≡ some x1
    pub setkey : c.setkey volkey 256 Mode.encrypt x1 ≡ some x2
    pub set_iv : c.set_iv iv x2 ≡ some x3
    pub reset : c.reset x3 ≡ some x4
    pub update_ad : c.update_ad aad x4 ≡ some x5
    pub update : c.update src x5 ≡ some (out, x6)
    pub finish : c.finish x6 ≡ some (last, x7)
    pub write_tag : c.write_tag 16 x7 ≡ some tag
    pub written : obuf ≡ (out ++ last) ++ drop (length (out ++ last)) dst

  encrypt_buffer-inv :
      (dst : Bytes) (dsize : ℕ) (obuf tag : Bytes)
      → encrypt_buffer c volkey iv aad src dst dsize ≡ some (obuf, tag)
      → Encrypted dst obuf tag
  unfolding encrypt_buffer
  encrypt_buffer-inv dst dsize obuf tag h = elim (Option-cases (c.setup c.init)) [
    | inl e1 ↦ absurd (ground arith)
    | inr (x1, e1) ↦ elim (Option-cases (c.setkey volkey 256 Mode.encrypt x1)) [
      | inl e2 ↦ absurd (ground arith)
      | inr (x2, e2) ↦ elim (Option-cases (c.set_iv iv x2)) [
        | inl e3 ↦ absurd (ground arith)
        | inr (x3, e3) ↦ elim (Option-cases (c.reset x3)) [
          | inl e4 ↦ absurd (ground arith)
          | inr (x4, e4) ↦ elim (Option-cases (c.update_ad aad x4)) [
            | inl e5 ↦ absurd (ground arith)
            | inr (x5, e5) ↦ elim (Option-cases (c.update src x5)) [
              | inl e6 ↦ absurd (ground arith)
              | inr ((out, x6), e6) ↦ elim (Option-cases (c.finish x6)) [
                | inl e7 ↦ absurd (ground arith)
                | inr ((last, x7), e7) ↦ elim (Option-cases (c.write_tag 16 x7)) [
                  | inl e8 ↦ absurd (ground arith)
                  | inr (t, e8) ↦ record {
                    x1 = x1;
                    x2 = x2;
                    x3 = x3;
                    x4 = x4;
                    x5 = x5;
                    x6 = x6;
                    x7 = x7;
                    out = out;
                    last = last;
                    info = ground arith;
                    setup = e1;
                    setkey = e2;
                    set_iv = e3;
                    reset = e4;
                    update_ad = e5;
                    update = e6;
                    finish = e7;
                    write_tag = ground arith;
                    written = ground arith;
                  }
                ]
              ]
            ]
          ]
        ]
      ]
    ]
  ]

  -- The calls of a decryption that succeeds.
  decrypt_buffer_lem :
      (tag target plain : Bytes) (tsize : ℕ) (x1 y2 y3 y4 y5 y6 y7 : c.Ctx)
      (cipher out last : Bytes)
      → ltb tsize (length cipher) ≡ Bool.false
      → c.has_info ≡ true
      → c.setup c.init ≡ some x1
      → c.setkey volkey 256 Mode.decrypt x1 ≡ some y2
      → c.set_iv iv y2 ≡ some y3
      → c.reset y3 ≡ some y4
      → c.update_ad aad y4 ≡ some y5
      → c.update cipher y5 ≡ some (out, y6)
      → c.finish y6 ≡ some (last, y7)
      → out ++ last ≡ plain
      → c.check_tag tag y7 ≡ true
      → decrypt_buffer c volkey iv aad cipher target tsize tag
        ≡ some (plain ++ drop (length plain) target)
  unfolding decrypt_buffer
  decrypt_buffer_lem tag target plain tsize x1 y2 y3 y4 y5 y6 y7 cipher out last fits i a1 a2 a3 a4
        a5 a6 a7 same ok =
      rw (fits, i, a1) (rw a2 (rw a3 (rw a4 (rw a5 (rw a6 (rw a7 (rw (ok, same) refl)))))))

  -- A context of the decryption, told the same with another mode, stands beside one of the encryption.
  abbrev Beside : IsGcm c → c.Ctx → c.Ctx → Type 0
  Beside g x y = g.told y ≡ record (g.told x) { mode = Mode.decrypt }

  -- The ciphertext and the tag have the lengths that the code reserves for them, and decrypting the
  -- ciphertext into any buffer that is large enough restores the text at its beginning and leaves
  -- what stands behind.
  pub decrypt_buffer-encrypt_buffer :
      (dst obuf tag target : Bytes) (dsize tsize : ℕ)
      → IsGcm c
      → encrypt_buffer c volkey iv aad src dst dsize ≡ some (obuf, tag)
      → length src ≤ tsize
      → (length tag ≡ 16)
        × (length (take (length src) obuf) ≡ length src)
        × (decrypt_buffer c volkey iv aad (take (length src) obuf) target tsize tag
            ≡ some (src ++ drop (length src) target))
  decrypt_buffer-encrypt_buffer dst obuf tag target dsize tsize g h le =
      let e = encrypt_buffer-inv dst dsize obuf tag h in
      let (y2, a2) = g.setkey-either volkey 256 e.setkey in
      let t2 : Beside g e.x2 y2 =
        g.setkey-told volkey 256 Mode.decrypt a2
        ∙ rw (g.setkey-told volkey 256 Mode.encrypt e.setkey) refl in
      let m2 : (g.told e.x2).mode ≡ Mode.encrypt =
        rw (g.setkey-told volkey 256 Mode.encrypt e.setkey) refl in
      let (y3, a3) = g.set_iv-either iv t2 e.set_iv in
      let t3 : Beside g e.x3 y3 = g.set_iv-told iv a3 ∙ rw (t2, g.set_iv-told iv e.set_iv) refl in
      let m3 : (g.told e.x3).mode ≡ Mode.encrypt = rw (g.set_iv-told iv e.set_iv) m2 in
      let (y4, a4) = g.reset-either t3 e.reset in
      let t4 : Beside g e.x4 y4 = g.reset-told a4 ∙ rw (t3, g.reset-told e.reset) refl in
      let m4 : (g.told e.x4).mode ≡ Mode.encrypt = rw (g.reset-told e.reset) m3 in
      let (y5, a5) = g.update_ad-either aad t4 e.update_ad in
      let t5 : Beside g e.x5 y5 =
        g.update_ad-told aad a5 ∙ rw (t4, g.update_ad-told aad e.update_ad) refl in
      let m5 : (g.told e.x5).mode ≡ Mode.encrypt = rw (g.update_ad-told aad e.update_ad) m4 in
      let (long, sixteen) = g.output src m5 e.update e.finish e.write_tag in
      let (out, last, y6, y7, a6, a7, same, ok) =
        g.inverse src m5 t5 e.update e.finish e.write_tag in
      let cut : take (length src) obuf ≡ e.out ++ e.last =
        ap (take (length src)) e.written ∙ take-append (length src) (e.out ++ e.last) _ long in
      let fits : ltb tsize (length (e.out ++ e.last)) ≡ Bool.false = ground arith in
      rw cut (
        sixteen,
        long,
        decrypt_buffer_lem tag target src tsize e.x1 y2 y3 y4 y5 y6 y7 (e.out ++ e.last) out last
            fits e.info e.setup a2 a3 a4 a5 a6 a7 same ok,
      )
