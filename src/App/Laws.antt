-- ===== src/App/Laws.antt =====
-- What the host relies on in its libraries.
use sgx_secfs.Base.{ℕ, ◌≡◌, ◌≢◌, ◌≤◌, true, some, Bytes, length, ℤ}
use sgx_secfs.Uuid.{Uuid, IsUuid}
use sgx_secfs.Enclave.{Env, Sgx}
use sgx_secfs.App.{Field, JsonApi, IsBackend, Libs}

pub record IsJson (j : JsonApi) : Type 0 where
  pub member-set :
      (f : Field) (x c : j.Json) → j.is_object c ≡ true → j.member f (j.set f x c) ≡ some x
  pub member-set_ne :
      (f g : Field) (x c : j.Json)
      → f ≢ g
      → j.is_object c ≡ true
      → j.member f (j.set g x c) ≡ j.member f c
  pub is_object-set :
      (f : Field) (x c : j.Json) → j.is_object c ≡ true → j.is_object (j.set f x c) ≡ true
  pub as_string-of_string : (bs : Bytes) → j.as_string (j.of_string bs) ≡ some bs
  pub as_integer-of_integer : (n : ℤ) → j.as_integer (j.of_integer n) ≡ some n
  pub parse-dump : (c : j.Json) → j.parse (j.dump c) ≡ some c

-- A sealed text is no shorter than the text.
pub record IsSealing (x : Sgx) : Type 0 where
  pub length-seal :
      (aad text : Bytes) (size : ℕ) {sealed : Bytes}
      → x.seal_data aad text size ≡ some sealed
      → length text ≤ length sealed

pub record IsLibs {env : Env} (l : Libs env) : Type 0 where
  pub json : IsJson l.json
  pub backend : IsBackend l.backend
  pub sealing : IsSealing env.sgx
  pub base64 : (bs : Bytes) → l.base64_decode (l.base64_encode bs) ≡ some bs
  pub uuid : (u : Uuid) → IsUuid u → l.uuid_parse (l.uuid_unparse u) ≡ some u
