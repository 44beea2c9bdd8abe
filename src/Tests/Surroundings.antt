-- ===== src/Tests/Surroundings.antt =====
-- A cipher, a curve, an SGX SDK and a host that do what they document.
use mathlib.Core.List.{append-nil}
use sgx_secfs.Base.{
  ℕ, suc, ◌+◌, ◌-◌, ◌%◌, ◌≡◌, refl, sym, ◌≤◌, ◌<◌, arith, Bool, true, false, Option, none, some, [],
  ◌∷◌, ◌++◌, Bytes, length, take, drop, replicate, length-replicate, length-append, All,
  take-append, drop-append, ◌==◌, nat_eq, zero, bytes_eq, ℕ_discrete,
}
use sgx_secfs.Metadata.Ecp.{Ecp, IsEcp}
use sgx_secfs.Base.Dict.{Dict}
use sgx_secfs.Storage.Local.{LocalStorage, FileType, Writable, local_api, local_api-IsStorage}
use sgx_secfs.Storage.Host.{Host, IsHost}
use sgx_secfs.Storage.Cipher.{Cipher, Mode, Told, IsGcm}
use sgx_secfs.ChunkStore
use sgx_secfs.Enclave.{Env, Enclave, Sgx}
use sgx_secfs.Volume.Laws.{IsSgx, IsEnv}

-- A cipher that leaves the text as it is and has a constant tag.
abbrev pub plain_cipher : Cipher
plain_cipher = record {
  Ctx = Told;
  init = record { mode = Mode.decrypt; key = []; iv = []; ad = [] };
  has_info = true;
  setup = λ c. some c;
  setkey = λ key bits mode c. some (record c { mode = mode; key = key });
  set_iv = λ iv c. some (record c { iv = iv });
  reset = λ c. some (record c { ad = [] });
  update_ad = λ ad c. some (record c { ad = c.ad ++ ad });
  update = λ src c. some (src, c);
  finish = λ c. some ([], c);
  write_tag = λ n c. some (replicate n 7);
  check_tag = λ tag c. tag == replicate 16 7;
}

some-injective : {A : Type 0} {x y : A} → some x ≡ some y → y ≡ x
some-injective e = ground arith

plain_text :
    (src out last tag : Bytes) (x y z : Told)
    → plain_cipher.update src x ≡ some (out, y)
    → plain_cipher.finish y ≡ some (last, z)
    → plain_cipher.write_tag 16 z ≡ some tag
    → (out ++ last ≡ src) × (tag ≡ replicate 16 7)
plain_text src out last tag x y z u f w =
    let o : src ≡ out = ground arith in
    let l : [] ≡ last = ground arith in (rw (← o, ← l) (append-nil src), some-injective w)

plain_output :
    (src out last tag : Bytes) (x y z : Told)
    → plain_cipher.update src x ≡ some (out, y)
    → plain_cipher.finish y ≡ some (last, z)
    → plain_cipher.write_tag 16 z ≡ some tag
    → (length (out ++ last) ≡ length src) × (length tag ≡ 16)
plain_output src out last tag x y z u f w =
    let (o, g) = plain_text src out last tag x y z u f w in rw (o, g) (refl, refl)

pub plain_cipher-IsGcm : IsGcm plain_cipher
plain_cipher-IsGcm = record {
  told = λ c. c;
  setkey-told = λ k n m e. some-injective e;
  set_iv-told = λ iv e. some-injective e;
  reset-told = λ e. some-injective e;
  update_ad-told = λ ad e. some-injective e;
  setkey-either = λ k n {x} e. (record x { mode = Mode.decrypt; key = k }, refl);
  set_iv-either = λ iv {x} {y} {x'} t e. (record x' { iv = iv }, refl);
  reset-either = λ {x} {y} {x'} t e. (record x' { ad = [] }, refl);
  update_ad-either = λ ad {x} {y} {x'} t e. (record x' { ad = x'.ad ++ ad }, refl);
  output = λ src {out} {last} {tag} m u f w. plain_output src out last tag _ _ _ u f w;
  inverse = λ src {out} {last} {tag} {x} {y} {z} {x'} m t u f w.
      let (o, g) = plain_text src out last tag x y z u f w in
      (src, [], x', x', rw o refl, refl, append-nil src, rw g (ground arith));
}

-- A curve of two points.
abbrev read_point : Bytes → Option Bool
read_point (x ∷ y ∷ []) = some (y == 1)
read_point bs = none

abbrev write_point : Bool → Option Bytes
write_point true = some (4 ∷ 1 ∷ [])
write_point false = some (4 ∷ 0 ∷ [])

abbrev pub two_points : Ecp
two_points = record {
  Point = Bool;
  no_point = false;
  group_loads = true;
  grp_id = 4;
  point_read_binary = read_point;
  point_write_binary = write_point;
  check_pubkey = λ p. p;
  copy = λ p. some p;
}

read-write_point : (p : Bool) {bs : Bytes} → write_point p ≡ some bs → read_point bs ≡ some p
unfolding ℕ_discrete
read-write_point true {bs} e = let h : 4 ∷ 1 ∷ [] ≡ bs = ground arith in rw (sym h)
read-write_point false {bs} e = let h : 4 ∷ 0 ∷ [] ≡ bs = ground arith in rw (sym h)

length-write_point : (p : Bool) {bs : Bytes} → write_point p ≡ some bs → length bs ≤ 256
length-write_point true {bs} e = let h : 4 ∷ 1 ∷ [] ≡ bs = ground arith in rw (sym h) (omega arith)
length-write_point false {bs} e = let h : 4 ∷ 0 ∷ [] ≡ bs = ground arith in rw (sym h) (omega arith)

pub two_points-IsEcp : IsEcp two_points
two_points-IsEcp = record {
  read-write = read-write_point;
  write-le = length-write_point;
  copy-same = λ p e. ground arith;
}

-- Sealing that puts the length of the additional text in front, and numbers for random bytes.
abbrev mac_len : Bytes → ℕ
mac_len [] = 0
mac_len (n ∷ bs) = n

abbrev text_len : Bytes → ℕ
text_len [] = 0
text_len (n ∷ bs) = length bs - n

abbrev unseal : Bytes → Option (Bytes × Bytes)
unseal [] = none
unseal (n ∷ bs) = some (take n bs, drop n bs)

abbrev pub plain_sgx : Sgx
plain_sgx = record {
  read_rand = λ k n. replicate n ((k + 1) % 256);
  calc_sealed_data_size = λ a b. a + b;
  seal_data = λ aad text size. some (length aad ∷ aad ++ text);
  get_add_mac_txt_len = mac_len;
  get_encrypt_txt_len = text_len;
  unseal_data = unseal;
}

All-replicate : (n k : ℕ) → k < 256 → All (λ b. b < 256) (replicate n k)
All-replicate zero k h = tt
All-replicate (suc n) k h = (h, All-replicate n k h)

plain_unseal :
    (aad text : Bytes) {sealed : Bytes}
    → some (length aad ∷ aad ++ text) ≡ some sealed
    → (unseal sealed ≡ some (aad, text))
      × (mac_len sealed ≡ length aad)
      × (text_len sealed ≡ length text)
plain_unseal aad text {sealed} e =
    let h : length aad ∷ aad ++ text ≡ sealed = ground arith in
    rw (sym h) (
      rw (take-append (length aad) aad text refl, drop-append (length aad) aad text refl),
      refl,
      omega (arith, length-append aad text),
    )

pub plain_sgx-IsSgx : IsSgx plain_sgx
plain_sgx-IsSgx = record {
  sealed-unseal = λ aad text size e. plain_unseal aad text e;
  size-le = λ a b. omega arith;
  random =
      λ k n. (length-replicate n ((k + 1) % 256), All-replicate n ((k + 1) % 256) (omega arith));
}

-- A directory in which the process may do everything.
abbrev pub disk_of : Dict Bytes Bytes → LocalStorage
disk_of files = record {
  base_type = some FileType.directory;
  files = files;
  may_read = λ n. true;
  may_write = λ n. true;
  written = λ n bs. length bs;
  may_remove = λ n. true;
}

pub disk_of-Writable : (files : Dict Bytes Bytes) (n : Bytes) → Writable (disk_of files) n
disk_of-Writable files n = (refl, refl, λ bs. refl)

abbrev pub local_host : Host
local_host = record {
  api = local_api;
  sgx_success = λ s n. true;
  heap = λ n. replicate n 0;
  behind = [];
}

abbrev pub sample_env : Env
sample_env = record {
  host = local_host;
  cipher = plain_cipher;
  ecp = two_points;
  sgx = plain_sgx;
  max_cache_num = 8;
}

pub local_host-IsHost : IsHost local_host
local_host-IsHost = record { length-heap = λ n. length-replicate {A = ℕ} n 0 }

pub sample_env-IsEnv : IsEnv sample_env Writable
sample_env-IsEnv = record {
  gcm = plain_cipher-IsGcm;
  ecp = two_points-IsEcp;
  sgx = plain_sgx-IsSgx;
  storage = local_api-IsStorage;
  host = local_host-IsHost;
  up = λ s n. refl;
}

-- An enclave before its first mount, over an empty storage.
abbrev pub new_enclave : Enclave sample_env
new_enclave = record {
  inode_map = [];
  next_object = 0;
  superinfo = none;
  volkey = [];
  local_cache = ChunkStore.empty;
  storage = disk_of [];
  drawn = 0;
}
