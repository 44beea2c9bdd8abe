-- ===== src/Reachable/Covered.antt =====
-- The chunks of every file in the map of inodes are as many as its size takes.
use sgx_secfs.Base.{
  ℕ, ◌+◌, ◌%◌, ◌≡◌, ◌≤◌, max, refl, if_pos, if_neg, some, [], ◌∷◌, arith, ◌==◌, nat_eq, Bool-cases,
  inl, inr, length, Bytes, drop, ◌&&◌, ◌*◌, zero, suc,
}
use sgx_secfs.Base.Dict
use sgx_secfs.Base.Dict.{Dict}
use sgx_secfs.Metadata.Codecs.{filenode_codec}
use sgx_secfs.Metadata.Layout.{size_mod, word}
use sgx_secfs.Metadata.Filenode
use sgx_secfs.Metadata.Filenode.{
  Filenode, chunk_size, chunk_count, header_size, entry_size, load_entries,
}
use sgx_secfs.Storage.Saved.Loads.{Loads, load_metadata-Loads}
use sgx_secfs.Enclave.{Env, Enclave, load_metadata}
use sgx_secfs.Enclave.Inode.{Inode, Object, dirnode, filenode, with_refcount, add_ref, as_filenode}
use sgx_secfs.File.{chunk_en}
use sgx_secfs.File.Covered.{length-resize}
use sgx_secfs.File.Write.{extended}

-- With the wrap of `size_t`, as `load` counts them.
abbrev pub IsCovered : Inode → Type 0
IsCovered (dirnode d) = Unit
IsCovered (filenode f) = chunk_count f.size ≤ length f.chunks

-- Every object of the map.
abbrev pub AllOf : (Object → Type 0) → Dict ℕ Object → Type 0
AllOf P [] = Unit
AllOf P ((k, o) ∷ m) = P o × AllOf P m

module _ (P : Object → Type 0) where
  pub lookup-AllOf :
      (k : ℕ) (w : Object) (m : Dict ℕ Object) → AllOf P m → Dict.lookup k m ≡ some w → P w
  unfolding Dict.lookup
  lookup-AllOf k w [] v l = cc
  lookup-AllOf k w ((j, x) ∷ m) v l = elim (nat_eq.dec k j) [
    | yes p ↦ let same : x ≡ w = ground arith in rw (← same) v.0
    | no p ↦ lookup-AllOf k w m v.1 (ground arith)
  ]

  pub insert-AllOf :
      (k : ℕ) (o : Object) (m : Dict ℕ Object) → AllOf P m → P o → AllOf P (Dict.insert k o m)
  unfolding Dict.insert
  insert-AllOf k o [] v c = (c, tt)
  insert-AllOf k o ((j, x) ∷ m) v c = elim (nat_eq.dec k j) [
    | yes p ↦ rw (if_pos _ p) (c, v.1)
    | no p ↦ rw (if_neg _ p) (v.0, insert-AllOf k o m v.1 c)
  ]

  pub erase-AllOf : (k : ℕ) (m : Dict ℕ Object) → AllOf P m → AllOf P (Dict.erase k m)
  unfolding Dict.erase
  erase-AllOf k [] v = tt
  erase-AllOf k ((j, x) ∷ m) v = elim (nat_eq.dec k j) [
    | yes p ↦ rw (if_pos _ p) (erase-AllOf k m v.1)
    | no p ↦ rw (if_neg _ p) (v.0, erase-AllOf k m v.1)
  ]

pub map-AllOf :
    (P R : Object → Type 0) (m : Dict ℕ Object) → ((o : Object) → P o → R o) → AllOf P m → AllOf R m
map-AllOf P R [] h v = tt
map-AllOf P R ((j, x) ∷ m) h v = (h x v.0, map-AllOf P R m h v.1)

-- An object whose file has the chunks that its size takes, as far as `Q` holds: that no write went
-- beyond the range of `size_t`.
abbrev pub Fits : Type 0 → Object → Type 0
Fits Q o = Q → IsCovered o.inode

as_filenode-some : (i : Inode) (f : Filenode) → as_filenode i ≡ some f → i ≡ filenode f
as_filenode-some (dirnode d) f e = absurd (ground arith)
as_filenode-some (filenode g) f e = ground arith

-- The object whose file a cast gives.
pub as_filenode_inverse :
    (w : Object) (id : ℕ) (f : Filenode)
    → w.id ≡ id
    → as_filenode w.inode ≡ some f
    → w ≡ record { id = id; inode = filenode f }
as_filenode_inverse w id f same e = rw (← same, ← as_filenode-some w.inode f e) refl

pub with_refcount-IsCovered : (n : ℕ) (i : Inode) → IsCovered i → IsCovered (with_refcount n i)
with_refcount-IsCovered n (dirnode d) v = tt
with_refcount-IsCovered n (filenode f) v = v

pub add_ref-IsCovered : (i : Inode) → IsCovered i → IsCovered (add_ref i)
unfolding add_ref
add_ref-IsCovered i v = with_refcount-IsCovered _ i v

length-load_entries : (n : ℕ) (buf : Bytes) → length (load_entries n buf) ≡ n
unfolding load_entries
length-load_entries zero buf = refl
length-load_entries (suc n) buf = omega (arith, length-load_entries n (drop 44 buf))

-- `load` refuses a file whose chunks do not fit its size.
load-IsCovered :
    (f g : Filenode) (buf : Bytes) (n : ℕ)
    → Filenode.load f buf n ≡ some g
    → chunk_count g.size ≤ length g.chunks
unfolding Filenode.load
load-IsCovered f g buf n e =
    elim (Bool-cases (
      n == (header_size + entry_size * word 8 (drop 8 (drop 8 buf))) % size_mod
      && chunk_count (word 8 (drop 8 buf)) == word 8 (drop 8 (drop 8 buf)))) [
        | inl y ↦
            let made : record f {
              size = word 8 (drop 8 buf);
              chunks = load_entries (word 8 (drop 8 (drop 8 buf))) (drop 8 (drop 8 (drop 8 buf)));
              ino = word 8 buf;
            }
                ≡ g =
              ground arith in
            rw (← made) (
              ground (
                arith,
                length-load_entries (word 8 (drop 8 (drop 8 buf))) (drop 8 (drop 8 (drop 8 buf))),
              ))
        | inr y ↦ absurd (ground arith)
      ]

pub length-extended : (n : ℕ) (f : Filenode) → n ≤ length (extended n f).chunks
length-extended n f = ground (arith, length-resize n f.chunks)

pub length-extended_old : (n : ℕ) (f : Filenode) → length f.chunks ≤ length (extended n f).chunks
length-extended_old n f = ground (arith, length-resize n f.chunks)

pub resized-IsCovered :
    (n : ℕ) (f : Filenode)
    → chunk_count f.size ≤ length f.chunks
    → chunk_count (extended n f).size ≤ length (extended n f).chunks
resized-IsCovered n f v = ground (arith, length-resize n f.chunks)

-- A file that has the chunks of a write from an offset on, after its size has grown.
pub grown-IsCovered :
    (offset size : ℕ) (f : Filenode)
    → chunk_en offset size ≤ length f.chunks
    → chunk_count f.size ≤ length f.chunks
    → chunk_count (max f.size ((offset + size) % size_mod)) ≤ length f.chunks
grown-IsCovered offset size f h v = ground arith

module _ {env : Env} where
  -- The file that `lookup` loads, if it loads one.
  pub load_metadata-IsCovered :
      (f : Filenode) (s : Enclave env)
      → Loads (λ g. IsCovered (filenode g)) (load_metadata env filenode_codec f s)
  unfolding load_metadata
  load_metadata-IsCovered f s =
      load_metadata-Loads env.host env.cipher s.volkey filenode_codec _ f
        (λ buf n g e. load-IsCovered f g buf n e) s.storage
