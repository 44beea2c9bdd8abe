-- ===== src/Metadata/Superinfo.antt =====
-- enclave/superinfo.hpp and enclave/superinfo.cpp. `sizeof(superinfo_buffer_t)` is 104.
use sgx_secfs.Base.{
  ℕ, ◌<◌, ◌≡◌, Option, none, some, ◌++◌, arith, Bytes, length, take, drop, take-append, drop-append,
  le_bytes, length-le_bytes, length-append, ltb, ◌==◌, nat_eq, ℕ_discrete, if◌then◌else◌,
}
use mathlib.Core.List.{append_assoc}
use sgx_secfs.Uuid.{Uuid}
use sgx_secfs.Metadata.Layout.{size_mod, word, word-le_bytes}

pub record Superinfo : Type 0 where
  pub uuid : Uuid
  pub root_dirnode : Uuid
  pub user_table : Uuid
  pub hash_root_dirnode : Bytes
  pub hash_user_table : Bytes
  pub max_ino : ℕ

abbrev pub buffer_size : ℕ
buffer_size = 104

-- The structure, field by field.
unfoldable pub load : Superinfo → Bytes → ℕ → Option Superinfo
load s buf bsize =
    let b1 = drop 16 buf in
    let b2 = drop 16 b1 in
    let b3 = drop 32 b2 in
    let b4 = drop 32 b3 in
    if bsize == buffer_size
    then some (record s {
      root_dirnode = take 16 buf;
      user_table = take 16 b1;
      hash_root_dirnode = take 32 b2;
      hash_user_table = take 32 b3;
      max_ino = word 8 b4;
    })
    else none

-- `dump(nullptr, 0)`
unfoldable pub dump_size : Superinfo → ℕ
dump_size s = buffer_size

unfoldable pub fields : Superinfo → Bytes
fields s =
    s.root_dirnode
    ++ (s.user_table ++ (s.hash_root_dirnode ++ (s.hash_user_table ++ le_bytes 8 s.max_ino)))

-- `none` is the result 0. What lies behind the structure stays as it was.
unfoldable pub dump : Superinfo → Bytes → ℕ → Option Bytes
unfolding dump_size fields
dump s buf bsize =
    if ltb bsize (dump_size s) then none else some (fields s ++ drop (dump_size s) buf)

-- The sizes of the arrays and the range of `ino_t`.
pub record IsSuperinfo (s : Superinfo) : Type 0 where
  pub root : length s.root_dirnode ≡ 16
  pub users : length s.user_table ≡ 16
  pub hash_root : length s.hash_root_dirnode ≡ 32
  pub hash_users : length s.hash_user_table ≡ 32
  pub ino : s.max_ino < size_mod

pub length-fields : (s : Superinfo) → IsSuperinfo s → length (fields s) ≡ 104
unfolding fields
length-fields s v =
    simp (length-append, length-le_bytes)
      (omega (arith, v.root, v.users, v.hash_root, v.hash_users))

-- Reading the structure that `dump` writes gives the object back, whatever lies behind it.
pub load-fields :
    (s t : Superinfo) (rest : Bytes)
    → IsSuperinfo s
    → load t (fields s ++ rest) buffer_size ≡ some (record s { uuid = t.uuid })
unfolding load fields ℕ_discrete
load-fields s t rest v = simp append_assoc (
    rw (
      take-append 16 s.root_dirnode _ v.root,
      drop-append 16 s.root_dirnode _ v.root,
      take-append 16 s.user_table _ v.users,
      drop-append 16 s.user_table _ v.users,
      take-append 32 s.hash_root_dirnode _ v.hash_root,
      drop-append 32 s.hash_root_dirnode _ v.hash_root,
      take-append 32 s.hash_user_table _ v.hash_users,
      drop-append 32 s.hash_user_table _ v.hash_users,
      word-le_bytes 8 s.max_ino rest v.ino,
    ))
