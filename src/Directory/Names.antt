-- ===== src/Directory/Names.antt =====
-- The entries of a directory by their names.
use sgx_secfs.Base.{
  ◌≡◌, refl, none, some, List, [], ◌∷◌, ◌++◌, arith, Bytes, ◌==◌, bytes_eq, if◌then◌else◌,
}
use sgx_secfs.Metadata.Dirnode.{Dirent}
use sgx_secfs.Directory.{find_dirent, erase_dirent}

-- No two entries have the same name.
abbrev pub DistinctNames : List Dirent → Type 0
DistinctNames [] = Unit
DistinctNames (d ∷ ds) = (find_dirent d.name ds ≡ none) × DistinctNames ds

pub find_dirent-append :
    (n : Bytes) (ds : List Dirent) (d : Dirent)
    → find_dirent d.name ds ≡ none
    → find_dirent n (ds ++ d ∷ []) ≡ (if d.name == n then some d else find_dirent n ds)
unfolding find_dirent
find_dirent-append n [] d h = refl
find_dirent-append n (e ∷ ds) d h = ground (arith, find_dirent-append n ds d)

pub append-DistinctNames :
    (ds : List Dirent) (d : Dirent)
    → find_dirent d.name ds ≡ none
    → DistinctNames ds
    → DistinctNames (ds ++ d ∷ [])
unfolding find_dirent
append-DistinctNames [] d h v = (refl, tt)
append-DistinctNames (e ∷ ds) d h v =
    (ground (arith, find_dirent-append e.name ds d), append-DistinctNames ds d (ground arith) v.1)

pub find_dirent-erase_dirent :
    (n m : Bytes) (ds : List Dirent)
    → DistinctNames ds
    → find_dirent m (erase_dirent n ds) ≡ (if n == m then none else find_dirent m ds)
unfolding find_dirent erase_dirent
find_dirent-erase_dirent n m [] v = ground arith
find_dirent-erase_dirent n m (d ∷ ds) v = ground (arith, find_dirent-erase_dirent n m ds v.1)

pub erase_dirent-DistinctNames :
    (n : Bytes) (ds : List Dirent) → DistinctNames ds → DistinctNames (erase_dirent n ds)
unfolding erase_dirent
erase_dirent-DistinctNames n [] v = tt
erase_dirent-DistinctNames n (d ∷ ds) v =
    ground (arith, erase_dirent-DistinctNames n ds v.1, find_dirent-erase_dirent n d.name ds v.1)
