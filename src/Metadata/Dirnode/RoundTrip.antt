-- ===== src/Metadata/Dirnode/RoundTrip.antt =====
-- `load` and `dump` of a directory node together.
use mathlib.Core.List.{append_assoc}
use sgx_secfs.Base.{
  ℕ, zero, suc, ◌+◌, ◌*◌, ◌^◌, ◌<◌, ◌≤◌, ◌≡◌, refl, some, List, [], ◌∷◌, ◌++◌, arith, Bytes, length,
  take, drop, All, ap, take-append, drop-append, length-append, length-take, length-drop,
  length-le_bytes,
}
use sgx_secfs.Metadata.Layout.{
  size_mod, word-le_bytes, drop-le_bytes, IsText, length-text_field, drop-text_field,
  c_string-text_field,
}
use sgx_secfs.Metadata.Dirnode.{
  Dirent, Dirnode, load_dirent, dump_dirent, load_entries, dump_entries, load, dump_size, fields,
}

pub record IsDirent (d : Dirent) : Type 0 where
  pub name : IsText 256 d.name
  pub uuid : length d.uuid ≡ 16
  pub ino : d.ino < size_mod
  pub kind : d.kind < 256 ^ 4

pub record IsDirnode (d : Dirnode) : Type 0 where
  pub name : IsText 256 d.name
  pub ino : d.ino < size_mod
  pub small : 272 + 288 * length d.dirent < size_mod
  pub whole : All IsDirent d.dirent

length-dump_dirent :
    (d : Dirent) (slot : Bytes)
    → length d.uuid ≡ 16
    → 288 ≤ length slot
    → length (dump_dirent d slot) ≡ 288
unfolding dump_dirent
length-dump_dirent d slot v h =
    simp (length-append, length-text_field, length-le_bytes, length-take, length-drop)
      (omega (arith, v))

load_dirent-dump_dirent :
    (d : Dirent) (slot rest : Bytes) → IsDirent d → load_dirent (dump_dirent d slot ++ rest) ≡ d
unfolding load_dirent dump_dirent
load_dirent-dump_dirent d slot rest v = simp append_assoc (
    rw (
      c_string-text_field 256 d.name _ v.name,
      drop-text_field 256 d.name _,
      take-append 16 d.uuid _ v.uuid,
      drop-append 16 d.uuid _ v.uuid,
      word-le_bytes 8 d.ino _ v.ino,
      drop-le_bytes 8 d.ino _,
      word-le_bytes 4 d.kind _ v.kind,
    ))

pub load_entries-dump_entries :
    (ds : List Dirent) (buf rest : Bytes)
    → All IsDirent ds
    → 288 * length ds ≤ length buf
    → load_entries (length ds) (dump_entries ds buf ++ rest) ≡ ds
unfolding load_entries dump_entries
load_entries-dump_entries [] buf rest v h = refl
load_entries-dump_entries (d ∷ ds) buf rest v h = rw (
  append_assoc (dump_dirent d buf) (dump_entries ds (drop 288 buf)) rest,
  load_dirent-dump_dirent d buf (dump_entries ds (drop 288 buf) ++ rest) v.0,
  drop-append 288 (dump_dirent d buf) (dump_entries ds (drop 288 buf) ++ rest)
      (length-dump_dirent d buf v.0.uuid (omega arith)),
  load_entries-dump_entries ds (drop 288 buf) rest v.1 (omega (arith, length-drop 288 buf)),
)

length-dump_entries :
    (ds : List Dirent) (buf : Bytes)
    → All IsDirent ds
    → 288 * length ds ≤ length buf
    → length (dump_entries ds buf) ≡ 288 * length ds
unfolding dump_entries
length-dump_entries [] buf v h = omega arith
length-dump_entries (d ∷ ds) buf v h = omega (
  arith,
  length-append (dump_dirent d buf) (dump_entries ds (drop 288 buf)),
  length-dump_dirent d buf v.0.uuid (omega arith),
  length-dump_entries ds (drop 288 buf) v.1 (omega (arith, length-drop 288 buf)),
)

pub length-fields :
    (d : Dirnode) (buf : Bytes)
    → IsDirnode d
    → dump_size d ≤ length buf
    → length (fields d buf) ≡ dump_size d
unfolding fields dump_size
length-fields d buf v h =
    simp (length-append, length-le_bytes, length-text_field)
      (omega (
        arith,
        v.small,
        length-dump_entries d.dirent (drop 272 buf) v.whole
            (omega (arith, v.small, length-drop 272 buf)),
      ))

take-short : (n : ℕ) (s : Bytes) → length s < suc n → take n s ≡ s
take-short zero [] h = refl
take-short zero (c ∷ s) h = absurd (omega arith)
take-short (suc n) [] h = refl
take-short (suc n) (c ∷ s) h = ap (◌∷◌ c) (take-short n s (omega arith))

pub load-fields :
    (d t : Dirnode) (buf rest : Bytes)
    → IsDirnode d
    → dump_size d ≤ length buf
    → load t (fields d buf ++ rest) (dump_size d)
      ≡ some (record d { uuid = t.uuid; refcount = t.refcount })
unfolding load fields dump_size
load-fields d t buf rest v h = rw (take-short 255 d.name v.name.short) (
    simp append_assoc (
      rw
        (
          word-le_bytes 8 d.ino _ v.ino,
          drop-le_bytes 8 d.ino _,
          c_string-text_field 256 d.name _ v.name,
          drop-text_field 256 d.name _,
          word-le_bytes 8 (length d.dirent) _ (omega (arith, v.small)),
          drop-le_bytes 8 (length d.dirent) _,
          load_entries-dump_entries d.dirent (drop 272 buf) rest v.whole
              (omega (arith, v.small, length-drop 272 buf)),
        )
        (ground arith)))

pub dump_size-pos : (d : Dirnode) → IsDirnode d → 0 < dump_size d
unfolding dump_size
dump_size-pos d v = omega (arith, v.small)
