-- ===== src/Storage/Local.antt =====
-- app/backend/local.cpp: the backend that keeps each file in a directory. The directory is a map
-- from file names to contents. What the system lets the process read, write and remove is part of
-- its state, and so is how much of a content it writes: a write that fails after the file is opened
-- goes unnoticed by the code.
use sgx_secfs.Base.{
  ℕ, ◌≡◌, refl, ap, [], ◌∷◌, Bool, true, false, Option, none, some, arith, Bytes, length, take,
  bytes_eq, if◌then◌else◌, Bool-cases, Option-cases, inl, inr,
}
use sgx_secfs.Base.Dict
use sgx_secfs.Base.Dict.{Dict}
use sgx_secfs.Storage.Api.{StorageApi, IsStorage}

pub data FileType : Type 0 where
  no_file directory other : FileType

pub record LocalStorage : Type 0 where
  pub base_type : Option FileType
  pub files : Dict Bytes Bytes
  pub may_read : Bytes → Bool
  pub may_write : Bytes → Bool
  pub written : Bytes → Bytes → ℕ
  pub may_remove : Bytes → Bool

-- `init`: 1 if the base directory is one. `none` is an error of `fs::status`.
unfoldable pub init : LocalStorage → ℕ
init l = elim l.base_type [ some FileType.directory ↦ 1 | _ ↦ 0 ]

unfoldable pub set_content : LocalStorage → Bytes → Bytes → LocalStorage × Option ℕ
unfolding Dict.insert
set_content l filename buf =
    if l.may_write filename
    then (
      record l { files = Dict.insert filename (take (l.written filename buf) buf) l.files },
      some (length buf),
    )
    else (l, none)

unfoldable pub get_content : LocalStorage → Bytes → ℕ → Option Bytes
unfolding Dict.lookup
get_content l filename size = elim (Dict.lookup filename l.files) [
  | none ↦ none
  | some bs ↦ if l.may_read filename then some (take size bs) else none
]

unfoldable pub get_size : LocalStorage → Bytes → Option ℕ
unfolding Dict.lookup
get_size l filename = elim (Dict.lookup filename l.files) [
  | none ↦ none
  | some bs ↦ some (length bs)
]

unfoldable pub remove_file : LocalStorage → Bytes → LocalStorage × Bool
unfolding Dict.lookup Dict.erase
remove_file l filename = elim (Dict.lookup filename l.files) [
  | none ↦ (l, false)
  | some bs ↦
      if l.may_remove filename
      then (record l { files = Dict.erase filename l.files }, true)
      else (l, false)
]

-- `LocalStorage` as a `StorageAPI`.
abbrev pub local_api : StorageApi
local_api = record {
  State = LocalStorage;
  set_content = set_content;
  get_content = get_content;
  get_size = get_size;
  remove_file = remove_file;
}

pub take_all : (bs : Bytes) → take (length bs) bs ≡ bs
take_all [] = refl
take_all (b ∷ bs) = ap (◌∷◌ b) (take_all bs)

-- The process may write and read the file, and the system writes every content as a whole.
abbrev pub Writable : LocalStorage → Bytes → Type 0
Writable l n =
    (l.may_write n ≡ true) × (l.may_read n ≡ true) × ((bs : Bytes) → l.written n bs ≡ length bs)

set_content-Writable :
    (l : LocalStorage) (n m bs : Bytes) → Writable l n → Writable (set_content l m bs).0 n
unfolding set_content
set_content-Writable l n m bs w = elim (Bool-cases (l.may_write m)) [
  | inl e ↦ rw e w
  | inr e ↦ rw e w
]

remove_file-Writable :
    (l : LocalStorage) (n m : Bytes) → Writable l n → Writable (remove_file l m).0 n
unfolding remove_file
remove_file-Writable l n m w = elim (Option-cases (Dict.lookup m l.files)) [
  | inl e ↦ rw (e, remove_file) w
  | inr (bs, e) ↦ elim (Bool-cases (l.may_remove m)) [
    | inl f ↦ rw (e, remove_file) (rw f w)
    | inr f ↦ rw (e, remove_file) (rw f w)
  ]
]

-- The local backend meets the contract of the storage interface for the files that the process may
-- write and read and whose contents the system writes as a whole; whatever the system does, a call on
-- one file leaves all the others.
pub local_api-IsStorage : IsStorage local_api Writable
unfolding set_content get_content get_size remove_file
local_api-IsStorage = record {
  size-set = λ s n bs (w, r, whole).
      rw (w, whole bs, take_all bs) (ground (arith, Dict.lookup-insert n n bs s.files));
  content-set = λ s n bs (w, r, whole).
      rw (w, whole bs, take_all bs)
        (ground (arith, r, Dict.lookup-insert n n bs s.files, take_all bs));
  takes-set = set_content-Writable;
  takes-remove = remove_file-Writable;
  size-set_ne =
      λ s n m bs h. ground (arith, Dict.lookup-insert m n (take (s.written n bs) bs) s.files);
  content-set_ne =
      λ s n m bs k h. ground (arith, Dict.lookup-insert m n (take (s.written n bs) bs) s.files);
  size-remove_ne = λ s n m h. ground (arith, Dict.lookup-erase m n s.files);
  content-remove_ne = λ s n m k h. ground (arith, Dict.lookup-erase m n s.files);
}
