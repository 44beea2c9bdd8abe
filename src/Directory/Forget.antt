-- ===== src/Directory/Forget.antt =====
-- The map of inodes after `ecall_fs_forget`.
use sgx_secfs.Base.{
  ℕ, ◌≡◌, ◌-◌, ◌<◌, ◌≤◌, ◌^◌, arith, pos, negsuc, if◌then◌else◌, ◌==◌, nat_eq, none, some,
}
use sgx_secfs.Base.Dict
use sgx_secfs.Enclave.{Env, Enclave}
use sgx_secfs.Enclave.Inode.{Object, refcount_of, with_refcount}
use sgx_secfs.Directory.Attributes.{remaining, ecall_fs_forget}
use sgx_secfs.Directory.State.{lookup-put_object}

remaining_pos : (r n : ℕ) → r < 2 ^ 31 → n ≤ r → remaining r n ≡ pos (r - n)
unfolding remaining
remaining_pos r n a b = ground arith

remaining_neg : (r n : ℕ) → n < 2 ^ 31 → r < n → remaining r n ≡ negsuc (n - r - 1)
unfolding remaining
remaining_neg r n a b = ground arith

-- The kernel's count of lookups is taken back: when the object has been looked up at least as often
-- and the counts fit 31 bits, the object leaves the map if its count gets to 0 and keeps the rest of
-- its count otherwise; no other object is touched.
pub lookup-ecall_fs_forget :
    {env : Env} (ino n j : ℕ) (o : Object) (s : Enclave env)
    → Dict.lookup ino s.inode_map ≡ some o
    → refcount_of o.inode < 2 ^ 31
    → n ≤ refcount_of o.inode
    → Dict.lookup j (ecall_fs_forget env ino n s).0.inode_map ≡ (
        if j == ino
        then (if n == refcount_of o.inode
            then none
            else some (record o { inode = with_refcount (refcount_of o.inode - n) o.inode }))
        else Dict.lookup j s.inode_map)
unfolding ecall_fs_forget
lookup-ecall_fs_forget {env = env} ino n j o s l lt le = ground (
  arith,
  remaining_pos (refcount_of o.inode) n lt le,
  Dict.lookup-erase j ino s.inode_map,
  lookup-put_object j ino o.id (with_refcount (refcount_of o.inode - n) o.inode) s,
)

-- A kernel that takes back more than it looked up drops the object as well.
pub lookup-ecall_fs_forget_surplus :
    {env : Env} (ino n j : ℕ) (o : Object) (s : Enclave env)
    → Dict.lookup ino s.inode_map ≡ some o
    → n < 2 ^ 31
    → refcount_of o.inode < n
    → Dict.lookup j (ecall_fs_forget env ino n s).0.inode_map
      ≡ (if j == ino then none else Dict.lookup j s.inode_map)
unfolding ecall_fs_forget
lookup-ecall_fs_forget_surplus {env = env} ino n j o s l lt le =
    ground (arith, remaining_neg (refcount_of o.inode) n lt le, Dict.lookup-erase j ino s.inode_map)
