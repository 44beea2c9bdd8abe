-- ===== src/Fuse/Attributes.antt =====
-- `secfs_getattr` and `secfs_setattr`.
use sgx_secfs.Base.{ℕ, ◌≡◌, refl, suc, some, true, [], ◌∷◌, arith, nat_eq, ℕ_discrete}
use sgx_secfs.Base.Dict
use sgx_secfs.Enclave.{Env, Enclave}
use sgx_secfs.Enclave.Inode.{Object, dump_stat}
use sgx_secfs.Directory.Attributes.{ecall_fs_getattr}
use sgx_secfs.Fuse.{HostStat, Runtime, Session, ecall, copy_statbuf, reply_attr}
use sgx_secfs.Fuse.Operations.{secfs_getattr, secfs_setattr, set_times}

set_times-st_size :
    (to_set : ℕ) (attr st : HostStat) → (set_times to_set attr st).st_size ≡ st.st_size
unfolding set_times
set_times-st_size to_set attr st = ground arith

set_times-st_mode :
    (to_set : ℕ) (attr st : HostStat) → (set_times to_set attr st).st_mode ≡ st.st_mode
unfolding set_times
set_times-st_mode to_set attr st = ground arith

ecall_fs_getattr_lem :
    {env : Env} (ino : ℕ) (o : Object) (e : Enclave env)
    → Dict.lookup ino e.inode_map ≡ some o
    → ecall_fs_getattr env ino e ≡ record { err = 0; ino = ino; stat = some (dump_stat o.inode) }
unfolding ecall_fs_getattr
ecall_fs_getattr_lem ino o e l = rw (l, ecall_fs_getattr) refl

module _ {env : Env} (rt : Runtime) where
  -- When its ECALL is carried out, a `setattr` of an inode of the map is answered with success
  -- whatever it asks for, sets nothing, and the size and the mode in its reply are those that a
  -- `getattr` replies, so that a truncation or a change of the mode is lost.
  pub secfs_setattr-secfs_getattr :
      (ino to_set : ℕ) (attr : HostStat) (o : Object) (s : Session env)
      → Dict.lookup ino s.enclave.inode_map ≡ some o
      → rt.carried s.called ≡ true
      → (s' : Session env) × (st st' : HostStat) × (secfs_getattr rt ino s
          ≡ some (s', reply_attr st 1 ∷ []))
        × (secfs_setattr rt ino attr to_set s ≡ some (s', reply_attr st' 1 ∷ []))
        × (s'.enclave ≡ s.enclave)
        × (st'.st_size ≡ st.st_size)
        × (st'.st_mode ≡ st.st_mode)
        × (st.st_size ≡ (dump_stat o.inode).size)
  unfolding secfs_getattr secfs_setattr ecall ecall_fs_getattr copy_statbuf ℕ_discrete
  secfs_setattr-secfs_getattr ino to_set attr o s l up =
      let answer = ecall_fs_getattr_lem ino o s.enclave l in
      let st = copy_statbuf (dump_stat o.inode) in
      (
        record s { called = suc s.called },
        st,
        set_times to_set attr st,
        rw (up, answer) refl,
        rw (up, answer) refl,
        refl,
        set_times-st_size to_set attr st,
        set_times-st_mode to_set attr st,
        refl,
      )
