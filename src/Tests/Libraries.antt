-- ===== src/Tests/Libraries.antt =====
-- Libraries of the host that do what they document.
use sgx_secfs.Base.{
  ℕ, zero, suc, ◌≡◌, ◌≢◌, refl, ap, ◌≤◌, arith, Bool, true, false, Option, none, some, [], ◌∷◌,
  Bytes, length, ◌++◌, length-append, ◌==◌, nat_eq, bytes_eq, if◌then◌else◌, ℤ, ◌∙◌, sym,
}
use sgx_secfs.App.{
  Field, JsonApi, Pk, Libs, superinfo, uid, volume_key, key_path, public_key_path, enclave_path,
  storage, type, config, base_dir,
}
use sgx_secfs.App.Laws.{IsJson, IsLibs}
use sgx_secfs.App.Local.{local_backend, local_backend-IsBackend}
use sgx_secfs.Tests.Surroundings.{sample_env}

abbrev code : Field → ℕ
code superinfo = 0
code uid = 1
code volume_key = 2
code key_path = 3
code public_key_path = 4
code enclave_path = 5
code storage = 6
code type = 7
code config = 8
code base_dir = 9

abbrev field_at : ℕ → Field
field_at zero = superinfo
field_at (suc zero) = uid
field_at (suc (suc zero)) = volume_key
field_at (suc (suc (suc zero))) = key_path
field_at (suc (suc (suc (suc zero)))) = public_key_path
field_at (suc (suc (suc (suc (suc zero))))) = enclave_path
field_at (suc (suc (suc (suc (suc (suc zero)))))) = storage
field_at (suc (suc (suc (suc (suc (suc (suc zero))))))) = type
field_at (suc (suc (suc (suc (suc (suc (suc (suc zero)))))))) = config
field_at n = base_dir

field_at-code : (f : Field) → field_at (code f) ≡ f
field_at-code superinfo = refl
field_at-code uid = refl
field_at-code volume_key = refl
field_at-code key_path = refl
field_at-code public_key_path = refl
field_at-code enclave_path = refl
field_at-code storage = refl
field_at-code type = refl
field_at-code config = refl
field_at-code base_dir = refl

code_injective : (f g : Field) → code f ≡ code g → f ≡ g
code_injective f g e = sym (field_at-code f) ∙ ap field_at e ∙ field_at-code g

mutual
  pub data Value : Type 0 where
    text : Bytes → Value
    number : ℤ → Value
    object : Members → Value

  pub data Members : Type 0 where
    end : Members
    entry : Field → Value → Members → Members

abbrev find : Field → Members → Option Value
find f end = none
find f (entry g v ms) = if code f == code g then some v else find f ms

abbrev member_of : Field → Value → Option Value
member_of f (object ms) = find f ms
member_of f _ = none

abbrev test_object : Value → Bool
test_object (object ms) = true
test_object _ = false

abbrev text_of : Value → Option Bytes
text_of (text bs) = some bs
text_of _ = none

abbrev number_of : Value → Option ℤ
number_of (number n) = some n
number_of _ = none

abbrev put : Field → Value → Value → Value
put f v (object ms) = object (entry f v ms)
put f v c = c

abbrev values : JsonApi
values = record {
  Json = Value;
  Text = Value;
  member = member_of;
  is_object = test_object;
  as_string = text_of;
  as_integer = number_of;
  set = put;
  of_string = text;
  of_integer = number;
  parse = λ v. some v;
  dump = λ v. v;
}

member-put : (f : Field) (x c : Value) → test_object c ≡ true → member_of f (put f x c) ≡ some x
member-put f x (object ms) o = ground arith
member-put f x (text bs) o = cc
member-put f x (number n) o = cc

member-put_ne :
    (f g : Field) (x c : Value)
    → f ≢ g
    → test_object c ≡ true
    → member_of f (put g x c) ≡ member_of f c
member-put_ne f g x (object ms) ne o = ground (arith, code_injective f g)
member-put_ne f g x (text bs) ne o = refl
member-put_ne f g x (number n) ne o = refl

object-put : (f : Field) (x c : Value) → test_object c ≡ true → test_object (put f x c) ≡ true
object-put f x (object ms) o = refl
object-put f x (text bs) o = o
object-put f x (number n) o = o

values-IsJson : IsJson values
values-IsJson = record {
  member-set = member-put;
  member-set_ne = member-put_ne;
  is_object-set = object-put;
  as_string-of_string = λ bs. refl;
  as_integer-of_integer = λ n. refl;
  parse-dump = λ c. refl;
}

abbrev pub sample_pk : Option (Pk sample_env)
sample_pk = some (record { is_eckey = true; ec = record { grp = 4; q = true } })

abbrev pub sample_libs : Libs sample_env
sample_libs = record {
  json = values;
  backend = local_backend;
  base64_encode = λ bs. bs;
  base64_decode = λ bs. some bs;
  uuid_parse = λ bs. some bs;
  uuid_unparse = λ u. u;
  join = λ a b. a ++ b;
  parent_path = λ p. [];
  pk_parse_keyfile = λ p. sample_pk;
  pk_parse_public_keyfile = λ p. sample_pk;
  group_copy = λ g. some g;
  mpi_copies = true;
  create_enclave = λ p. true;
  carried = λ n. true;
  may_write = λ p. true;
}

length-plain :
    (aad bs : Bytes) {sealed : Bytes}
    → some (length aad ∷ aad ++ bs) ≡ some sealed
    → length bs ≤ length sealed
length-plain aad bs {sealed} e =
    let h : length aad ∷ aad ++ bs ≡ sealed = ground arith in
    rw (sym h) (omega (arith, length-append aad bs))

pub sample_libs-IsLibs : IsLibs sample_libs
sample_libs-IsLibs = record {
  json = values-IsJson;
  backend = local_backend-IsBackend;
  sealing = record { length-seal = λ aad bs size e. length-plain aad bs e };
  base64 = λ bs. refl;
  uuid = λ u v. refl;
}
