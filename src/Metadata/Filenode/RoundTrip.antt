-- ===== src/Metadata/Filenode/RoundTrip.antt =====
-- `load` and `dump` of a file node together.
use mathlib.Core.List.{append_assoc}
use sgx_secfs.Base.{
  ◌+◌, ◌*◌, ◌<◌, ◌≡◌, refl, some, List, [], ◌∷◌, ◌++◌, arith, Bytes, length, All, take-append,
  drop-append, length-append, length-le_bytes,
}
use sgx_secfs.Metadata.Layout.{size_mod, word-le_bytes, drop-le_bytes}
use sgx_secfs.Metadata.Filenode.{
  Chunk, Filenode, chunk_size, load_chunk_entry, chunk_entry, load_entries, entries, chunk_count,
  load, dump_size, fields,
}

pub record IsChunk (c : Chunk) : Type 0 where
  pub uuid : length c.uuid ≡ 16
  pub iv : length c.iv ≡ 12
  pub tag : length c.tag ≡ 16

-- The size leaves room for the rounding, and there are as many chunks as the size takes.
pub record IsFilenode (f : Filenode) : Type 0 where
  pub ino : f.ino < size_mod
  pub small : f.size + chunk_size < size_mod
  pub covered : length f.chunks ≡ chunk_count f.size
  pub whole : All IsChunk f.chunks

length-chunk_entry : (c : Chunk) → IsChunk c → length (chunk_entry c) ≡ 44
unfolding chunk_entry
length-chunk_entry c v = simp length-append (omega (arith, v.uuid, v.iv, v.tag))

load_chunk_entry-chunk_entry :
    (c : Chunk) (rest : Bytes) → IsChunk c → load_chunk_entry (chunk_entry c ++ rest) ≡ c
unfolding load_chunk_entry chunk_entry
load_chunk_entry-chunk_entry c rest v = simp append_assoc (
    rw (
      take-append 16 c.uuid _ v.uuid,
      drop-append 16 c.uuid _ v.uuid,
      take-append 12 c.iv _ v.iv,
      drop-append 12 c.iv _ v.iv,
      take-append 16 c.tag rest v.tag,
    ))

load_entries-entries :
    (cs : List Chunk) (rest : Bytes)
    → All IsChunk cs
    → load_entries (length cs) (entries cs ++ rest) ≡ cs
unfolding load_entries entries
load_entries-entries [] rest v = refl
load_entries-entries (c ∷ cs) rest v = rw (
  append_assoc (chunk_entry c) (entries cs) rest,
  load_chunk_entry-chunk_entry c (entries cs ++ rest) v.0,
  drop-append 44 (chunk_entry c) (entries cs ++ rest) (length-chunk_entry c v.0),
  load_entries-entries cs rest v.1,
)

length-entries : (cs : List Chunk) → All IsChunk cs → length (entries cs) ≡ 44 * length cs
unfolding entries
length-entries [] v = omega arith
length-entries (c ∷ cs) v = omega (
  arith,
  length-append (chunk_entry c) (entries cs),
  length-chunk_entry c v.0,
  length-entries cs v.1,
)

pub length-fields : (f : Filenode) → IsFilenode f → length (fields f) ≡ dump_size f
unfolding fields dump_size
length-fields f v =
    simp (length-append, length-le_bytes)
      (omega (arith, v.small, v.covered, length-entries f.chunks v.whole))

pub load-fields :
    (f t : Filenode) (rest : Bytes)
    → IsFilenode f
    → load t (fields f ++ rest) (dump_size f)
      ≡ some (record f { uuid = t.uuid; refcount = t.refcount })
unfolding load fields dump_size
load-fields f t rest v = simp append_assoc (
    rw
      (
        word-le_bytes 8 f.ino _ v.ino,
        drop-le_bytes 8 f.ino _,
        word-le_bytes 8 f.size _ (omega (arith, v.small)),
        drop-le_bytes 8 f.size _,
        word-le_bytes 8 (length f.chunks) _ (omega (arith, v.small, v.covered)),
        drop-le_bytes 8 (length f.chunks) _,
        load_entries-entries f.chunks rest v.whole,
      )
      (ground (arith, v.covered)))

pub dump_size-pos : (f : Filenode) → IsFilenode f → 0 < dump_size f
unfolding dump_size
dump_size-pos f v = omega (arith, v.small, v.covered)
