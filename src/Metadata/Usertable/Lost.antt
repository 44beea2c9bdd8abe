-- ===== src/Metadata/Usertable/Lost.antt =====
-- `Usertable::dump` of several users.
use sgx_secfs.Base.{ℕ, ◌≡◌, refl, [], ◌∷◌, ◌++◌, Bytes, arith, length, take, drop}
use sgx_secfs.Base.Dict.{Dict}
use sgx_secfs.Metadata.Ecp.{Ecp}
use sgx_secfs.Metadata.Usertable.{Userinfo, Usertable, dump_entries, dump}

dump_entries-lost :
    (e : Ecp) (us : Dict ℕ (Userinfo e)) (uid uid' vid : ℕ) (u u' v : Userinfo e)
    (m : Dict ℕ (Userinfo e)) (slot : Bytes)
    → dump_entries e (us ++ (uid, u) ∷ (vid, v) ∷ m) slot
      ≡ dump_entries e (us ++ (uid', u') ∷ (vid, v) ∷ m) slot
unfolding dump_entries
dump_entries-lost e [] uid uid' vid u u' v m slot = refl
dump_entries-lost e ((k, w) ∷ us) uid uid' vid u u' v m slot =
    dump_entries-lost e us uid uid' vid u u' v m _

length-same :
    {A : Type 0} (us m : Dict ℕ A) (x y : ℕ × A) → length (us ++ x ∷ m) ≡ length (us ++ y ∷ m)
length-same [] m x y = refl
length-same (z ∷ us) m x y = ground (arith, length-same us m x y)

-- The buffer that a user table is written to holds nothing of a user that another one follows in
-- the map, wherever it stands: two tables that differ in that user alone, in its number, its key or
-- its owner flag, are written to the same bytes.
pub dump-lost :
    (e : Ecp) (t : Usertable e) (us : Dict ℕ (Userinfo e)) (uid uid' vid : ℕ) (u u' v : Userinfo e)
    (m : Dict ℕ (Userinfo e)) (buf : Bytes) (bsize : ℕ)
    → dump e (record t { usermap = us ++ (uid, u) ∷ (vid, v) ∷ m }) buf bsize
      ≡ dump e (record t { usermap = us ++ (uid', u') ∷ (vid, v) ∷ m }) buf bsize
unfolding dump
dump-lost e t us uid uid' vid u u' v m buf bsize = rw (
  dump_entries-lost e us uid uid' vid u u' v m (take 272 (drop 8 buf)),
  length-same us ((vid, v) ∷ m) (uid, u) (uid', u'),
)
