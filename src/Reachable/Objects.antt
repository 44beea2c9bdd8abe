-- ===== src/Reachable/Objects.antt =====
-- The map of inodes: one entry for each number, one number for each object.
use sgx_secfs.Base.{
  ℕ, suc, ◌<◌, ◌≡◌, ◌≢◌, refl, if_pos, if_neg, Option, none, some, [], ◌∷◌, arith, ◌==◌, nat_eq,
  if◌then◌else◌, Option-cases, inl, inr,
}
use sgx_secfs.Base.Dict
use sgx_secfs.Base.Dict.{Dict}
use sgx_secfs.Metadata.Filenode.{Filenode}
use sgx_secfs.Enclave.Inode.{Inode, Object, as_filenode}
use sgx_secfs.File.{Open, lock}

-- The number under which the map has an object.
abbrev pub key_of : ℕ → Dict ℕ Object → Option ℕ
key_of id [] = none
key_of id ((k, o) ∷ m) = if o.id == id then some k else key_of id m

-- No two entries share a number or an object, and all objects are older than `n`.
abbrev pub Distinct : ℕ → Dict ℕ Object → Type 0
Distinct n [] = Unit
Distinct n ((k, o) ∷ m) =
    (o.id < n) × (Dict.lookup k m ≡ none) × (key_of o.id m ≡ none) × Distinct n m

key_of-fresh : (n : ℕ) (m : Dict ℕ Object) → Distinct n m → key_of n m ≡ none
key_of-fresh n [] d = refl
key_of-fresh n ((k, o) ∷ m) d = ground (arith, key_of-fresh n m d.3)

key_of-insert :
    (id k : ℕ) (o : Object) (m : Dict ℕ Object)
    → id ≢ o.id
    → key_of id m ≡ none
    → key_of id (Dict.insert k o m) ≡ none
unfolding Dict.insert
key_of-insert id k o [] ne h = ground arith
key_of-insert id k o ((j, w) ∷ m) ne h = ground (arith, key_of-insert id k o m)

key_of-insert_same :
    (id k : ℕ) (o w : Object) (m : Dict ℕ Object)
    → Dict.lookup k m ≡ some w
    → o.id ≡ w.id
    → key_of id m ≡ none
    → key_of id (Dict.insert k o m) ≡ none
unfolding Dict.insert Dict.lookup
key_of-insert_same id k o w [] l e h = cc
key_of-insert_same id k o w ((j, x) ∷ m) l e h = ground (arith, key_of-insert_same id k o w m)

key_of-erase :
    (id k : ℕ) (m : Dict ℕ Object) → key_of id m ≡ none → key_of id (Dict.erase k m) ≡ none
unfolding Dict.erase
key_of-erase id k [] h = refl
key_of-erase id k ((j, x) ∷ m) h = ground (arith, key_of-erase id k m)

older : (n : ℕ) (m : Dict ℕ Object) → Distinct n m → Distinct (suc n) m
older n [] d = tt
older n ((k, o) ∷ m) d = (omega (arith, d.0), d.1, d.2, older n m d.3)

-- A new object takes the place of what its number had.
pub insert-new :
    (n k : ℕ) (i : Inode) (m : Dict ℕ Object)
    → Distinct n m
    → Distinct (suc n) (Dict.insert k (record { id = n; inode = i }) m)
unfolding Dict.insert Dict.lookup
insert-new n k i [] d = (omega arith, refl, refl, tt)
insert-new n k i ((j, w) ∷ m) d = elim (nat_eq.dec k j) [
  | yes p ↦ rw (if_pos _ p) (omega arith, rw p d.1, key_of-fresh n m d.3, older n m d.3)
  | no p ↦ rw (if_neg _ p) (
    omega (arith, d.0),
    ground (arith, Dict.lookup-insert j k (record { id = n; inode = i }) m),
    key_of-insert w.id k (record { id = n; inode = i }) m (omega (arith, d.0)) d.2,
    insert-new n k i m d.3,
  )
]

-- An object that is written to keeps its place.
pub insert-same :
    (n k : ℕ) (o w : Object) (m : Dict ℕ Object)
    → Distinct n m
    → Dict.lookup k m ≡ some w
    → o.id ≡ w.id
    → Distinct n (Dict.insert k o m)
unfolding Dict.insert Dict.lookup
insert-same n k o w [] d l e = cc
insert-same n k o w ((j, x) ∷ m) d l e = elim (nat_eq.dec k j) [
  | yes p ↦
      let same : x ≡ w = ground arith in
      rw (if_pos _ p) (rw (e, ← same) d.0, rw p d.1, rw (e, ← same) d.2, d.3)
  | no p ↦ rw (if_neg _ p) (
    d.0,
    ground (arith, Dict.lookup-insert j k o m),
    key_of-insert_same x.id k o w m (ground arith) e d.2,
    insert-same n k o w m d.3 (ground arith) e,
  )
]

lookup-erase-none :
    (j k : ℕ) (m : Dict ℕ Object) → Dict.lookup j m ≡ none → Dict.lookup j (Dict.erase k m) ≡ none
lookup-erase-none j k m h = ground (arith, Dict.lookup-erase j k m)

pub erase-Distinct : (n k : ℕ) (m : Dict ℕ Object) → Distinct n m → Distinct n (Dict.erase k m)
unfolding Dict.erase
erase-Distinct n k [] d = tt
erase-Distinct n k ((j, x) ∷ m) d = elim (nat_eq.dec k j) [
  | yes p ↦ rw (if_pos _ p) (erase-Distinct n k m d.3)
  | no p ↦
      rw (if_neg _ p)
        (d.0, lookup-erase-none j k m d.1, key_of-erase x.id k m d.2, erase-Distinct n k m d.3)
]

pub key_of-lookup :
    (id k : ℕ) (o : Object) (m : Dict ℕ Object)
    → key_of id m ≡ none
    → Dict.lookup k m ≡ some o
    → o.id ≢ id
unfolding Dict.lookup
key_of-lookup id k o [] h l = cc
key_of-lookup id k o ((j, x) ∷ m) h l = ground (arith, key_of-lookup id k o m)

-- A weak pointer leads to the entry that the map has for its object.
pub lock-lookup :
    (n k : ℕ) (o : Object) (f : Filenode) (m : Dict ℕ Object)
    → Distinct n m
    → Dict.lookup k m ≡ some o
    → as_filenode o.inode ≡ some f
    → lock o.id m ≡ some (record { key = k; id = o.id; node = f })
unfolding lock Dict.lookup
lock-lookup n k o f [] d l e = cc
lock-lookup n k o f ((j, x) ∷ m) d l e = elim (nat_eq.dec k j) [
  | yes p ↦ let same : x ≡ o = ground arith in ground arith
  | no p ↦
      let apart = key_of-lookup x.id k o m d.2 (ground arith) in
      let rest = lock-lookup n k o f m d.3 (ground arith) e in ground (arith, apart)
]

pub lookup-lock :
    (n id : ℕ) (p : Open) (m : Dict ℕ Object)
    → Distinct n m
    → lock id m ≡ some p
    → (w : Object) × (Dict.lookup p.key m ≡ some w)
      × (w.id ≡ p.id)
      × (p.id ≡ id)
      × (as_filenode w.inode ≡ some p.node)
unfolding lock Dict.lookup
lookup-lock n id p [] d l = cc
lookup-lock n id p ((j, x) ∷ m) d l = elim (nat_eq.dec x.id id) [
  | yes e ↦ elim (Option-cases (as_filenode x.inode)) [
    | inl f ↦ absurd (ground arith)
    | inr (f, g) ↦
        let same : record { key = j; id = id; node = f } ≡ p = ground arith in
        (x, ground arith, ground arith, ground arith, ground arith)
  ]
  | no ne ↦
      let (w, found, a, b, c) = lookup-lock n id p m d.3 (ground arith) in
      (w, ground arith, a, b, c)
]
