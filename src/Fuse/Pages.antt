-- ===== src/Fuse/Pages.antt =====
-- Listing a directory by `secfs_opendir` and calls of `secfs_readdir`.
use mathlib.Core.List.{append-nil, append_assoc}
use sgx_secfs.Base.{
  ℕ, ℕ_discrete, zero, suc, ◌+◌, ◌-◌, ◌*◌, ◌≡◌, ◌≤◌, ◌<◌, ◌⊎◌, inl, inr, refl, sym, ap, subst, ◌∙◌,
  some, List, [], ◌∷◌, ◌++◌, length, Bytes, arith, nat_eq, ltb, take, drop, All, Bool-cases,
  replicate, length-replicate, true, length-append, length-take, length-drop, take-append-drop,
}
use sgx_secfs.Base.Dict
use sgx_secfs.Metadata.Dirnode.{Dirnode, Dirent, dump_entries}
use sgx_secfs.Metadata.Dirnode.RoundTrip.{IsDirent, load_entries-dump_entries}
use sgx_secfs.Enclave.{Env}
use sgx_secfs.Directory.{find_parent, directory}
use sgx_secfs.Directory.Listing.{ecall_fs_get_dirent_size_lem, ecall_fs_get_dirent_lem}
use sgx_secfs.Fuse.{FileInfo, Runtime, Session, reply_buf, reply_open, ecall}
use sgx_secfs.Fuse.Directories.{direntry, add_entries, secfs_readdir, secfs_opendir}

drop-drop :
    {A : Type 0} (k n : ℕ) (xs : List A) (m : ℕ) → k + n ≡ m → drop m xs ≡ drop k (drop n xs)
drop-drop k zero xs m e = let q : m ≡ k = omega (arith, e) in rw q
drop-drop k (suc n) xs zero e = absurd (omega (arith, e))
drop-drop zero (suc n) [] (suc m) e = refl
drop-drop (suc k) (suc n) [] (suc m) e = refl
drop-drop k (suc n) (x ∷ xs) (suc m) e = drop-drop k n xs m (omega (arith, e))

module _ (rt : Runtime) where
  -- The structures of entries from an index on.
  abbrev pub entries : ℕ → List Dirent → Bytes
  entries i [] = []
  entries i (d ∷ ds) = direntry rt i d ++ entries (suc i) ds

  -- Each entry takes some bytes, and fits into a buffer of a size.
  abbrev pub Fits : ℕ → ℕ → List Dirent → Type 0
  Fits size i [] = Unit
  Fits size i (d ∷ ds) =
      (0 < length (direntry rt i d)) × (length (direntry rt i d) ≤ size) × Fits size (suc i) ds

  -- A page holds the next entries, as many as fit.
  pub add_entries-take :
      (ds : List Dirent) (i rem : ℕ) (buf : Bytes)
      → (k : ℕ) × (k ≤ length ds)
        × (add_entries rt ds i rem buf ≡ buf ++ entries i (take k ds))
        × (length (entries i (take k ds)) ≤ rem)
        × ((k ≡ length ds) ⊎ (rem < length (entries i (take (suc k) ds))))
  unfolding add_entries
  add_entries-take [] i rem buf = (0, omega arith, sym (append-nil buf), omega arith, inl refl)
  add_entries-take (d ∷ ds) i rem buf =
      let ent = direntry rt i d in
      elim (Bool-cases (ltb rem (length ent))) [
        | inl full ↦ (
          0,
          omega arith,
          rw (full, append-nil buf),
          omega arith,
          inr (rw append-nil (ground arith)),
        )
        | inr room ↦
            let (k, le, same, small, rest) =
              add_entries-take ds (suc i) (rem - length ent) (buf ++ ent) in
            (
              suc k,
              omega (arith, le),
              rw room (same ∙ append_assoc buf ent (entries (suc i) (take k ds))),
              rw (length-append) (ground (arith, small)),
              elim rest [
                | inl e ↦ inl (ap suc e)
                | inr lt ↦ inr (rw length-append (ground (arith, lt)))
              ],
            )
      ]

  Fits-drop :
      (size k i j : ℕ) (ds : List Dirent) → k + i ≡ j → Fits size i ds → Fits size j (drop k ds)
  Fits-drop size zero i j ds e f = let q : i ≡ j = omega (arith, e) in rw (← q) f
  Fits-drop size (suc k) i j [] e f = tt
  Fits-drop size (suc k) i j (d ∷ ds) e f = Fits-drop size k (suc i) j ds (omega (arith, e)) f.2

  -- A page that is asked for before the end is not empty.
  page_pos :
      (size i k : ℕ) (ds : List Dirent)
      → Fits size i ds
      → 0 < length ds
      → (k ≡ length ds) ⊎ (size < length (entries i (take (suc k) ds)))
      → (0 < k) × (0 < length (entries i (take k ds)))
  page_pos size i k [] f h e = absurd (omega (arith, h))
  page_pos size i zero (d ∷ ds) f h (inl e) = absurd (omega (arith, e))
  page_pos size i zero (d ∷ ds) f h (inr e) =
      absurd (ground (arith, append-nil (direntry rt i d), f))
  page_pos size i (suc k) (d ∷ ds) f h e = (omega arith, rw length-append (omega (arith, f.0)))

  -- What a client gets that asks again behind the last entry it got, until a page is empty: each
  -- page has one entry or more and fits the size that was asked for.
  pub data Lists {env : Env} (size : ℕ) (fi : FileInfo) (s : Session env)
      : ℕ → List Dirent → Type 0 where
    finished :
        (off : ℕ)
        → secfs_readdir rt size off fi s ≡ some (s, reply_buf [] ∷ [])
        → Lists size fi s off []
    page :
        (off : ℕ) (ds es : List Dirent)
        → secfs_readdir rt size off fi s ≡ some (s, reply_buf (entries off ds) ∷ [])
        → 0 < length (entries off ds)
        → length (entries off ds) ≤ size
        → Lists size fi s (length ds + off) es
        → Lists size fi s off (ds ++ es)

  module _ {env : Env} (size : ℕ) (fi : FileInfo) (s : Session env) (all : List Dirent)
      (found : Dict.lookup fi.fh s.dirvecs ≡ some all) where
    pages :
        (fuel off : ℕ) (ds : List Dirent)
        → length ds < fuel
        → drop off all ≡ ds
        → Fits size off ds
        → Lists size fi s off ds
    unfolding secfs_readdir
    pages zero off ds h e f = absurd (omega (arith, h))
    pages (suc fuel) off [] h e f = finished off (rw (found, e) refl)
    pages (suc fuel) off (d ∷ ds) h e f =
        let (k, le, same, small, rest) = add_entries-take (d ∷ ds) off size [] in
        let (pos, some_bytes) = page_pos size off k (d ∷ ds) f (omega arith) rest in
        let whole = take-append-drop k (d ∷ ds) in
        let cut : length (take k (d ∷ ds)) ≡ k = omega (arith, length-take k (d ∷ ds), le) in
        let behind : drop (k + off) all ≡ drop k (d ∷ ds) =
          drop-drop k off all (k + off) refl ∙ ap (drop k) e in
        let fewer : length (drop k (d ∷ ds)) < fuel =
          omega (arith, h, pos, length-drop k (d ∷ ds)) in
        let more =
          pages fuel (k + off) (drop k (d ∷ ds)) fewer behind
            (Fits-drop size k off (k + off) (d ∷ ds) refl f) in
        subst (λ (es : List Dirent). Lists size fi s off es) whole
          (page off (take k (d ∷ ds)) (drop k (d ∷ ds)) (rw (found, e, same) refl) some_bytes small
            (rw cut more))

    -- Over a vector of entries, reading from the beginning comes to an end and gives every entry
    -- once and in order.
    readdir_all : Fits size 0 all → Lists size fi s 0 all
    readdir_all f = pages (suc (length all)) 0 all (omega arith) refl f

  module _ {env : Env} where
    -- When the ECALLs are carried out, opening a directory of the map whose entries fit their
    -- structures gives a handle, and reading from it with a size that has room for each entry comes
    -- to an end: the pages hold every entry of the directory once, in order, and none is larger
    -- than the size.
    pub secfs_readdir-opendir :
        (ino id size : ℕ) (fi : FileInfo) (d : Dirnode) (s : Session env)
        → find_parent ino s.enclave ≡ directory id d
        → All IsDirent d.dirent
        → Fits size 0 d.dirent
        → rt.carried s.called ≡ true
        → rt.carried (suc s.called) ≡ true
        → (fi' : FileInfo) × (s' : Session env) × (secfs_opendir rt ino fi s
            ≡ some (s', reply_open fi' ∷ []))
          × (s'.enclave ≡ s.enclave)
          × Lists size fi' s' 0 d.dirent
    unfolding secfs_opendir ecall ℕ_discrete
    secfs_readdir-opendir ino id size fi d s found v f up up' =
        let count = length d.dirent in
        let zeros = replicate (288 * count) 0 in
        let sized = ecall_fs_get_dirent_size_lem ino id d zeros s.enclave found in
        let got = ecall_fs_get_dirent_lem ino id d zeros s.enclave found in
        let bytes = dump_entries d.dirent zeros in
        let loaded =
          load_entries-dump_entries d.dirent zeros (drop (length bytes) zeros) v
            (omega (arith, length-replicate {A = ℕ} (288 * count) 0)) in
        let fi' = record fi { fh = s.next_dirvec } in
        let s' = record s {
          called = suc (suc s.called);
          dirvecs = Dict.insert s.next_dirvec d.dirent s.dirvecs;
          next_dirvec = suc s.next_dirvec;
        } in
        (
          fi',
          s',
          rw (up, sized) (rw up' (rw got (rw loaded refl))),
          refl,
          readdir_all size fi' s' d.dirent
              (Dict.lookup-insert_same s.next_dirvec d.dirent s.dirvecs) f,
        )
