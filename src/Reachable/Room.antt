-- ===== src/Reachable/Room.antt =====
-- A file that keeps the chunks that a write needs, until the write is done.
use sgx_secfs.Base.{ℕ, ◌≡◌, ◌≤◌, none, some, [], ◌∷◌, arith, nat_eq, length, sym}
use sgx_secfs.Base.Dict
use sgx_secfs.Base.Dict.{Dict}
use sgx_secfs.Enclave.Inode.{Inode, Object, dirnode, filenode}
use sgx_secfs.Reachable.Objects.{Distinct, key_of, key_of-lookup}
use sgx_secfs.Reachable.Covered.{AllOf, Fits}
use sgx_secfs.Reachable.Caches.{AllowsChunks, length-set_chunk}

abbrev HasRoom : ℕ → Inode → Type 0
HasRoom n (dirnode d) = Unit
HasRoom n (filenode f) = n ≤ length f.chunks

-- The object with a number has at least `n` chunks, and all objects fit.
abbrev pub Room : Type 0 → ℕ → ℕ → Object → Type 0
Room Q id n o = Fits Q o × (o.id ≡ id → HasRoom n o.inode)

pub Room-AllowsChunks : (Q : Type 0) (id n : ℕ) → AllowsChunks (Room Q id n)
Room-AllowsChunks Q id n j idx c f v = (
  λ q. rw (length-set_chunk idx c f.chunks) (v.0 q),
  λ e. rw (length-set_chunk idx c f.chunks) (v.1 e),
)

no_other-Room :
    (Q : Type 0) (id n : ℕ) (m : Dict ℕ Object)
    → key_of id m ≡ none
    → AllOf (Fits Q) m
    → AllOf (Room Q id n) m
no_other-Room Q id n [] h v = tt
no_other-Room Q id n ((k, o) ∷ m) h v =
    ((v.0, λ e. absurd (ground arith)), no_other-Room Q id n m (ground arith) v.1)

-- Only one object of the map has the number.
pub found-Room :
    (Q : Type 0) (n k b : ℕ) (w : Object) (m : Dict ℕ Object)
    → Distinct b m
    → Dict.lookup k m ≡ some w
    → HasRoom n w.inode
    → AllOf (Fits Q) m
    → AllOf (Room Q w.id n) m
unfolding Dict.lookup
found-Room Q n k b w [] d l h v = tt
found-Room Q n k b w ((j, x) ∷ m) d l h v = elim (nat_eq.dec k j) [
  | yes p ↦
      let same : x ≡ w = ground arith in
      ((v.0, λ e. rw same h), no_other-Room Q w.id n m (rw (← same) d.2) v.1)
  | no p ↦
      let apart = key_of-lookup x.id k w m d.2 (ground arith) in
      ((v.0, λ e. absurd (apart (sym e))), found-Room Q n k b w m d.3 (ground arith) h v.1)
]
