-- ===== src/Directory/Attributes.antt =====
-- `ecall_fs_forget`, `ecall_fs_getattr` and `ecall_fs_access`.
use sgx_secfs.Base.{
  ℕ, zero, suc, ◌+◌, ◌-◌, ◌%◌, ◌^◌, none, some, ltb, nat_eq, bytes_eq, if◌then◌else◌, ℤ, pos,
  negsuc,
}
use sgx_secfs.Base.Dict
use sgx_secfs.Base.Dict.{Dict}
use sgx_secfs.Metadata.Layout.{size_mod}
use sgx_secfs.Enclave.{Env, Enclave}
use sgx_secfs.Enclave.Errno
use sgx_secfs.Enclave.Inode.{Object, dump_stat, refcount_of, with_refcount}
use sgx_secfs.Directory.{Reply, error, put_object}

-- `refcount - nlookup` as an `int`: the difference on 64 bits, cut to 32 bits with a sign.
unfoldable pub remaining : ℕ → ℕ → ℤ
remaining refcount nlookup =
    let low = (refcount + size_mod - nlookup % size_mod) % size_mod % 2 ^ 32 in
    if ltb low (2 ^ 31) then pos low else negsuc (2 ^ 32 - 1 - low)

module _ (env : Env) where
  abbrev pub drop_refs : ℕ → Object → ℤ → Enclave env → Enclave env
  drop_refs ino o (pos zero) s = record s { inode_map = Dict.erase ino s.inode_map }
  drop_refs ino o (pos (suc n)) s = put_object ino o.id (with_refcount (suc n) o.inode) s
  drop_refs ino o (negsuc n) s = record s { inode_map = Dict.erase ino s.inode_map }

  -- `ENOENT` and the references that remain are the same kind of result.
  unfoldable pub ecall_fs_forget : ℕ → ℕ → Enclave env → Enclave env × ℤ
  unfolding Dict.lookup Dict.erase put_object remaining
  ecall_fs_forget ino nlookup s = elim (Dict.lookup ino s.inode_map) [
    | none ↦ (s, pos Errno.enoent)
    | some o ↦
        let remain = remaining (refcount_of o.inode) nlookup in (drop_refs ino o remain s, remain)
  ]

  unfoldable pub ecall_fs_getattr : ℕ → Enclave env → Reply
  unfolding Dict.lookup dump_stat
  ecall_fs_getattr ino s = elim (Dict.lookup ino s.inode_map) [
    | none ↦ error Errno.enoent
    | some o ↦ record { err = 0; ino = ino; stat = some (dump_stat o.inode) }
  ]

  -- The mask is not looked at.
  unfoldable pub ecall_fs_access : ℕ → ℕ → Enclave env → ℕ
  unfolding Dict.lookup
  ecall_fs_access ino mask s = elim (Dict.lookup ino s.inode_map) [
    | none ↦ Errno.enoent
    | some _ ↦ 0
  ]
