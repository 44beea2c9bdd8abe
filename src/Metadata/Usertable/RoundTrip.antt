-- ===== src/Metadata/Usertable/RoundTrip.antt =====
-- `load` and `dump` of a user table of one user together.
use mathlib.Core.List.{append_assoc}
use sgx_secfs.Base.{
  ℕ, ◌^◌, ◌<◌, ◌≡◌, ap, ◌∙◌, Bool, true, some, [], ◌∷◌, ◌++◌, arith, Bytes, length, drop,
  length-append, length-drop, le_bytes, length-le_bytes, if◌then◌else◌, ℕ_discrete,
}
use sgx_secfs.Base.Dict
use sgx_secfs.Base.Dict.{Dict}
use sgx_secfs.Uuid.{Uuid}
use sgx_secfs.Metadata.Ecp.{Ecp, IsEcp}
use sgx_secfs.Metadata.Layout.{
  word, word-le_bytes, drop-le_bytes, length-text_field, take-text_field,
}
use sgx_secfs.Metadata.Usertable.{
  Userinfo, Usertable, load_userinfo, read_owner, read_key, key_bytes, new_userinfo, dump_userinfo,
  load_entries, load, dump_size, dump_entries, fields,
}

-- A user whose key mbedtls writes and accepts.
pub record IsUser (e : Ecp) (uid : ℕ) (u : Userinfo e) : Type 0 where
  pub small : uid < 256 ^ 4
  pub loads : e.group_loads ≡ true
  pub checks : e.check_pubkey u.pubkey ≡ true
  pub key : Bytes
  pub writes : e.point_write_binary u.pubkey ≡ some key

load_userinfo_lem :
    (e : Ecp) (slot : Bytes) (owner : Bool) (p : e.Point)
    → e.group_loads ≡ true
    → e.check_pubkey p ≡ true
    → read_owner e slot ≡ owner
    → read_key e slot ≡ some p
    → load_userinfo e slot ≡ some (record { is_owner = owner; pubkey = p })
unfolding load_userinfo new_userinfo
load_userinfo_lem e slot owner p g c o k = ground arith

module _ (e : Ecp) (laws : IsEcp e) (uid : ℕ) (u : Userinfo e) (v : IsUser e uid u) where
  length-dump_userinfo : length (dump_userinfo e uid u) ≡ 272
  unfolding dump_userinfo
  length-dump_userinfo =
      rw v.writes (simp (length-append, length-le_bytes, length-text_field) (omega arith))

  read_owner-dump_userinfo :
      (rest : Bytes) → read_owner e (dump_userinfo e uid u ++ rest) ≡ u.is_owner
  unfolding read_owner dump_userinfo
  read_owner-dump_userinfo rest =
      simp append_assoc
        (rw (word-le_bytes 4 (if u.is_owner then 1 else 0) _ (ground arith)) (ground arith))

  key_bytes-dump_userinfo : (rest : Bytes) → key_bytes (dump_userinfo e uid u ++ rest) ≡ v.key
  unfolding key_bytes dump_userinfo
  key_bytes-dump_userinfo rest = rw v.writes (
      simp append_assoc (
        rw (
          drop-le_bytes 4 (if u.is_owner then 1 else 0) _,
          drop-le_bytes 4 uid _,
          word-le_bytes 8 (length v.key) _ (omega (arith, laws.write-le u.pubkey v.writes)),
          drop-le_bytes 8 (length v.key) _,
          take-text_field 256 v.key rest (laws.write-le u.pubkey v.writes),
        )))

  read_key-dump_userinfo :
      (rest : Bytes) → read_key e (dump_userinfo e uid u ++ rest) ≡ some u.pubkey
  unfolding read_key
  read_key-dump_userinfo rest =
      ap e.point_read_binary (key_bytes-dump_userinfo rest) ∙ laws.read-write u.pubkey v.writes

  load_userinfo-dump_userinfo :
      (rest : Bytes) → load_userinfo e (dump_userinfo e uid u ++ rest) ≡ some u
  load_userinfo-dump_userinfo rest =
      load_userinfo_lem e _ u.is_owner u.pubkey v.loads v.checks (read_owner-dump_userinfo rest)
        (read_key-dump_userinfo rest)

  uid-dump_userinfo : (rest : Bytes) → word 4 (drop 4 (dump_userinfo e uid u ++ rest)) ≡ uid
  unfolding dump_userinfo
  uid-dump_userinfo rest =
      simp append_assoc
        (rw (drop-le_bytes 4 (if u.is_owner then 1 else 0) _, word-le_bytes 4 uid _ v.small))

  load_entries_one :
      (rest : Bytes) → load_entries e 1 (dump_userinfo e uid u ++ rest) [] ≡ some ((uid, u) ∷ [])
  unfolding load_entries Dict.lookup Dict.insert
  load_entries_one rest = ground (arith, uid-dump_userinfo rest, load_userinfo-dump_userinfo rest)

  pub length-fields :
      (t : Usertable e) (buf : Bytes)
      → t.usermap ≡ (uid, u) ∷ []
      → length buf ≡ 280
      → length (fields e t buf) ≡ 280
  unfolding fields dump_entries
  length-fields t buf o h = rw o (
      omega (
        arith,
        length-append (le_bytes 8 1) (dump_userinfo e uid u ++ drop 280 buf),
        length-append (dump_userinfo e uid u) (drop 280 buf),
        length-le_bytes 8 1,
        length-drop 280 buf,
        length-dump_userinfo,
      ))

  pub load-fields :
      (t : Usertable e) (fresh : Uuid) (buf rest : Bytes)
      → t.usermap ≡ (uid, u) ∷ []
      → length buf ≡ 280
      → load e (record { uuid = fresh; usermap = [] }) (fields e t buf ++ rest) 280
        ≡ some (record t { uuid = fresh })
  unfolding load fields dump_entries ℕ_discrete
  load-fields t fresh buf rest o h =
      rw (o, append_assoc (le_bytes 8 1) (dump_userinfo e uid u ++ drop 280 buf) rest)
        (rw
          (
            word-le_bytes 8 1 _ (omega arith),
            drop-le_bytes 8 1 _,
            append_assoc (dump_userinfo e uid u) (drop 280 buf) rest,
          )
          (rw (load_entries_one (drop 280 buf ++ rest))))

  pub dump_size_one : (t : Usertable e) → t.usermap ≡ (uid, u) ∷ [] → dump_size e t ≡ 280
  unfolding dump_size
  dump_size_one t o = rw o
