-- ===== src/Storage/Cipher.antt =====
-- `encrypt_buffer` and `decrypt_buffer` of enclave/storage.cpp over the calls of the mbedtls cipher
-- layer, which are a parameter.
pub mod RoundTrip
use sgx_secfs.Base.{
  ℕ, ◌≡◌, Bool, true, Option, none, some, [], ◌++◌, Bytes, length, drop, ltb, if◌then◌else◌, ◌>>=◌,
  ◌>>◌, guard,
}

pub data Mode : Type 0 where
  encrypt decrypt : Mode

-- AES-256-GCM. `none` is a result other than 0; `update` and `finish` give the bytes that they write.
pub record Cipher : Type 1 where
  pub Ctx : Type 0
  pub init : Ctx
  pub has_info : Bool
  pub setup : Ctx → Option Ctx
  pub setkey : Bytes → ℕ → Mode → Ctx → Option Ctx
  pub set_iv : Bytes → Ctx → Option Ctx
  pub reset : Ctx → Option Ctx
  pub update_ad : Bytes → Ctx → Option Ctx
  pub update : Bytes → Ctx → Option (Bytes × Ctx)
  pub finish : Ctx → Option (Bytes × Ctx)
  pub write_tag : ℕ → Ctx → Option Bytes
  pub check_tag : Bytes → Ctx → Bool

module _ (c : Cipher) (volkey : Bytes) where
  -- The destination and the tag. The bytes of the destination that are not written stay. The key is
  -- given as `sizeof(volkey)` bits, 256.
  unfoldable pub encrypt_buffer : Bytes → Bytes → Bytes → Bytes → ℕ → Option (Bytes × Bytes)
  encrypt_buffer iv aad src dst dsize = if ltb dsize (length src) then none else do
    guard c.has_info
    c1 ← c.setup c.init
    c2 ← c.setkey volkey 256 Mode.encrypt c1
    c3 ← c.set_iv iv c2
    c4 ← c.reset c3
    c5 ← c.update_ad aad c4
    (out, c6) ← c.update src c5
    (last, c7) ← c.finish c6
    tag ← c.write_tag 16 c7
    some ((out ++ last) ++ drop (length (out ++ last)) dst, tag)

  unfoldable pub decrypt_buffer : Bytes → Bytes → Bytes → Bytes → ℕ → Bytes → Option Bytes
  decrypt_buffer iv aad src dst dsize tag = if ltb dsize (length src) then none else do
    guard c.has_info
    c1 ← c.setup c.init
    c2 ← c.setkey volkey 256 Mode.decrypt c1
    c3 ← c.set_iv iv c2
    c4 ← c.reset c3
    c5 ← c.update_ad aad c4
    (out, c6) ← c.update src c5
    (last, c7) ← c.finish c6
    guard (c.check_tag tag c7)
    some ((out ++ last) ++ drop (length (out ++ last)) dst)

-- What a context has been told.
pub record Told : Type 0 where
  pub mode : Mode
  pub key : Bytes
  pub iv : Bytes
  pub ad : Bytes

-- What mbedtls documents of its calls for GCM. `told` is what a context has been told: each call
-- sets its part of it, and a reset forgets the additional data. A setting that is accepted for
-- encryption is accepted for decryption. A text that is encrypted whole gives as many bytes, and a
-- context told the same key, IV and additional data for decryption gives the text back from them
-- and accepts the tag.
pub record IsGcm (c : Cipher) : Type 0 where
  pub told : c.Ctx → Told
  pub setkey-told :
      (k : Bytes) (n : ℕ) (m : Mode) {x y : c.Ctx}
      → c.setkey k n m x ≡ some y
      → told y ≡ record (told x) { mode = m; key = k }
  pub set_iv-told :
      (iv : Bytes) {x y : c.Ctx} → c.set_iv iv x ≡ some y → told y ≡ record (told x) { iv = iv }
  pub reset-told : {x y : c.Ctx} → c.reset x ≡ some y → told y ≡ record (told x) { ad = [] }
  pub update_ad-told :
      (ad : Bytes) {x y : c.Ctx}
      → c.update_ad ad x ≡ some y
      → told y ≡ record (told x) { ad = (told x).ad ++ ad }
  pub setkey-either :
      (k : Bytes) (n : ℕ) {x y : c.Ctx}
      → c.setkey k n Mode.encrypt x ≡ some y
      → (z : c.Ctx) × (c.setkey k n Mode.decrypt x ≡ some z)
  pub set_iv-either :
      (iv : Bytes) {x y x' : c.Ctx}
      → told x' ≡ record (told x) { mode = Mode.decrypt }
      → c.set_iv iv x ≡ some y
      → (z : c.Ctx) × (c.set_iv iv x' ≡ some z)
  pub reset-either :
      {x y x' : c.Ctx}
      → told x' ≡ record (told x) { mode = Mode.decrypt }
      → c.reset x ≡ some y
      → (z : c.Ctx) × (c.reset x' ≡ some z)
  pub update_ad-either :
      (ad : Bytes) {x y x' : c.Ctx}
      → told x' ≡ record (told x) { mode = Mode.decrypt }
      → c.update_ad ad x ≡ some y
      → (z : c.Ctx) × (c.update_ad ad x' ≡ some z)
  pub output :
      (src : Bytes) {out last tag : Bytes} {x y z : c.Ctx}
      → (told x).mode ≡ Mode.encrypt
      → c.update src x ≡ some (out, y)
      → c.finish y ≡ some (last, z)
      → c.write_tag 16 z ≡ some tag
      → (length (out ++ last) ≡ length src) × (length tag ≡ 16)
  pub inverse :
      (src : Bytes) {out last tag : Bytes} {x y z x' : c.Ctx}
      → (told x).mode ≡ Mode.encrypt
      → told x' ≡ record (told x) { mode = Mode.decrypt }
      → c.update src x ≡ some (out, y)
      → c.finish y ≡ some (last, z)
      → c.write_tag 16 z ≡ some tag
      → (out' : Bytes) × (last' : Bytes) × (y' : c.Ctx) × (z' : c.Ctx) × (c.update (out ++ last) x'
          ≡ some (out', y'))
        × (c.finish y' ≡ some (last', z'))
        × (out' ++ last' ≡ src)
        × (c.check_tag tag z' ≡ true)
