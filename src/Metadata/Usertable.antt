-- ===== src/Metadata/Usertable.antt =====
-- enclave/usertable.hpp and enclave/usertable.cpp. `sizeof(userinfo_t)` is 272: the owner flag, the
-- user's number, the size of the key and 256 bytes for it; `usertable_buffer_t` begins with 8.
pub mod RoundTrip
pub mod Lost
use sgx_secfs.Base.{
  ℕ, zero, suc, ◌+◌, ◌*◌, ◌%◌, ◌^◌, Bool, true, false, not, ◌&&◌, Option, none, some, List, [], ◌∷◌,
  ◌++◌, Bytes, length, take, drop, le_bytes, ltb, ◌==◌, nat_eq, if◌then◌else◌,
}
use sgx_secfs.Base.Dict
use sgx_secfs.Base.Dict.{Dict}
use sgx_secfs.Uuid.{Uuid}
use sgx_secfs.Metadata.Ecp.{Ecp, Keypair}
use sgx_secfs.Metadata.Layout.{size_mod, word, zeros, text_field}

abbrev pub header_size : ℕ
header_size = 8

abbrev pub entry_size : ℕ
entry_size = 272

module _ (e : Ecp) where
  open e use {Point}

  pub record Userinfo : Type 0 where
    pub is_owner : Bool
    pub pubkey : Point

  pub record Usertable : Type 0 where
    pub uuid : Uuid
    pub usermap : Dict ℕ Userinfo

-- The bytes of the key: as many as `keysize` says.
unfoldable pub key_bytes : Bytes → Bytes
key_bytes slot =
    let b1 = drop 4 slot in let b2 = drop 4 b1 in let b3 = drop 8 b2 in take (word 8 b2) b3

module _ (e : Ecp) where
  -- `Userinfo::Userinfo()`; `none` is the exception.
  unfoldable pub new_userinfo : Option (Userinfo e)
  new_userinfo =
      if e.group_loads then some (record { is_owner = false; pubkey = e.no_point }) else none

  abbrev checked : Bool → Option e.Point → Option (Userinfo e)
  checked owner none = none
  checked owner (some p) =
      if e.check_pubkey p then some (record { is_owner = owner; pubkey = p }) else none

  unfoldable pub read_owner : Bytes → Bool
  read_owner slot = not (word 4 slot == 0)

  unfoldable pub read_key : Bytes → Option e.Point
  unfolding key_bytes
  read_key slot = e.point_read_binary (key_bytes slot)

  -- `Userinfo::Userinfo(const userinfo_t&)`; `none` is an exception.
  unfoldable pub load_userinfo : Bytes → Option (Userinfo e)
  unfolding new_userinfo read_owner read_key
  load_userinfo slot = elim new_userinfo [
    | none ↦ none
    | some _ ↦ checked (read_owner slot) (read_key slot)
  ]

  abbrev with_point : Userinfo e → Option e.Point → Option (Userinfo e)
  with_point u none = none
  with_point u (some p) = if e.check_pubkey p then some (record u { pubkey = p }) else none

  -- `none` is the result `false`.
  unfoldable pub set_pubkey : Userinfo e → Keypair e → Option (Userinfo e)
  set_pubkey u key = if e.grp_id == key.grp then with_point u (e.copy key.q) else none

  abbrev key_fields : Option Bytes → Bytes
  key_fields none = le_bytes 8 0 ++ zeros 256
  key_fields (some bs) = le_bytes 8 (length bs) ++ text_field 256 bs

  -- The number of the user and `Userinfo::dump`.
  unfoldable pub dump_userinfo : ℕ → Userinfo e → Bytes
  dump_userinfo uid u =
      le_bytes 4 (if u.is_owner then 1 else 0)
      ++ (le_bytes 4 uid ++ key_fields (e.point_write_binary u.pubkey))

  -- A number that comes twice and an exception both end the loop.
  unfoldable pub load_entries : ℕ → Bytes → Dict ℕ (Userinfo e) → Option (Dict ℕ (Userinfo e))
  unfolding load_userinfo Dict.lookup Dict.insert
  load_entries zero buf m = some m
  load_entries (suc n) buf m =
      let rest = load_entries n (drop 272 buf) in
      elim (Dict.lookup (word 4 (drop 4 buf)) m) [
        | some _ ↦ none
        | none ↦ elim (load_userinfo buf) [
          | none ↦ none
          | some u ↦ rest (Dict.insert (word 4 (drop 4 buf)) u m)
        ]
      ]

  abbrev loaded : Usertable e → Option (Dict ℕ (Userinfo e)) → Option (Usertable e)
  loaded t none = none
  loaded t (some m) = some (record t { usermap = m })

  unfoldable pub load_counted : Usertable e → ℕ → Bytes → ℕ → Option (Usertable e)
  unfolding load_entries
  load_counted t entnum entry bsize =
      if bsize == (header_size + entry_size * entnum) % size_mod
      then loaded t (load_entries entnum entry t.usermap)
      else none

  -- `none` is the result `false`.
  unfoldable pub load : Usertable e → Bytes → ℕ → Option (Usertable e)
  unfolding load_counted
  load t buf bsize = load_counted t (word 8 buf) (drop 8 buf) bsize

  unfoldable pub dump_size : Usertable e → ℕ
  dump_size t = (header_size + entry_size * length t.usermap) % size_mod

  -- The loop of `dump`. Its index stays 0, so that every user goes into the first slot.
  unfoldable pub dump_entries : Dict ℕ (Userinfo e) → Bytes → Bytes
  unfolding dump_userinfo
  dump_entries [] slot = slot
  dump_entries ((uid, u) ∷ m) slot = dump_entries m (dump_userinfo uid u)

  unfoldable pub fields : Usertable e → Bytes → Bytes
  unfolding dump_entries
  fields t buf =
      le_bytes 8 (length t.usermap)
      ++ (dump_entries t.usermap (take 272 (drop 8 buf)) ++ drop 280 buf)

  unfoldable pub dump : Usertable e → Bytes → ℕ → Option Bytes
  unfolding dump_size fields
  dump t buf bsize = if ltb bsize (dump_size t) then none else some (fields t buf)
