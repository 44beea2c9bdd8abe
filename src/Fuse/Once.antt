-- ===== src/Fuse/Once.antt =====
-- How many replies a request gets.
use sgx_secfs.Base.{
  ℕ, ◌≡◌, refl, sym, ◌+◌, if◌then◌else◌, ◌==◌, Option, none, some, List, ◌++◌, length, Bytes, arith,
  nat_eq, Option-cases, Bool-cases, length-append, suc, inl, inr, ◌>>=◌,
}
use sgx_secfs.Enclave.{Env}
use sgx_secfs.Directory.Entries.{ecall_fs_get_dirent_size}
use sgx_secfs.Directory.Lookup.{ecall_fs_lookup}
use sgx_secfs.Directory.Create.{ecall_fs_mkdir, ecall_fs_create}
use sgx_secfs.Directory.Remove.{ecall_fs_unlink, ecall_fs_rmdir}
use sgx_secfs.Directory.Attributes.{ecall_fs_forget, ecall_fs_getattr, ecall_fs_access}
use sgx_secfs.File.Read.{ecall_fs_read}
use sgx_secfs.File.Write.{ecall_fs_write}
use sgx_secfs.File.Handlers.{ecall_fs_open, ecall_fs_flush, ecall_fs_fallocate}
use sgx_secfs.Fuse.{FuseReply, FileInfo, Runtime, Session, ecall, reply_or, reply_err_or}
use sgx_secfs.Fuse.Operations.{
  secfs_lookup, secfs_forget, secfs_getattr, secfs_setattr, secfs_mkdir, secfs_unlink, secfs_rmdir,
  secfs_open, secfs_read, secfs_write, secfs_flush, secfs_access, secfs_create, secfs_fallocate,
}
use sgx_secfs.Fuse.Directories.{
  secfs_opendir, secfs_readdir, secfs_releasedir, size_replies, got_entries, opened, get_entries,
  count_of,
}
use sgx_secfs.Fuse.Serve.{
  Request, secfs_oper, lookup, forget, getattr, setattr, mkdir, unlink, rmdir, open_file, read,
  write, flush, opendir, readdir, releasedir, access, create, fallocate,
}

pub length-reply_or :
    {R : Type 0} (err : R → ℕ) (ok : R → FuseReply) (r : Option R) → length (reply_or err ok r) ≡ 1
length-reply_or err ok none = refl
length-reply_or err ok (some r) = ground arith

pub length-reply_err_or : (r : Option ℕ) → length (reply_err_or r) ≡ 1
length-reply_err_or none = refl
length-reply_err_or (some err) = refl

-- What a handler does behind its ECALL: one reply, whatever the ECALL gave.
abbrev pub then_reply :
    {env : Env} {R : Type 0}
    → (R → List FuseReply)
    → Option (Session env × R)
    → Option (Session env × List FuseReply)
then_reply f m = do (t, r) ← m; some (t, f r)

once :
    {env : Env} {R : Type 0} (f : R → List FuseReply) (m : Option (Session env × R))
    (s' : Session env) (rs : List FuseReply)
    → ((r : R) → length (f r) ≡ 1)
    → then_reply f m ≡ some (s', rs)
    → length rs ≡ 1
once f none s' rs h e = cc
once f (some (t, r)) s' rs h e = let q : f r ≡ rs = ground arith in rw (sym q) (h r)

module _ {env : Env} (rt : Runtime) where
  -- One more reply for an open directory whose number of entries cannot be had.
  abbrev pub surplus : Request → Session env → ℕ
  surplus (opendir ino fi) s =
      if rt.carried s.called
      then (if (ecall_fs_get_dirent_size env ino s.enclave).0 == 0 then 0 else 1)
      else 1
  surplus _ s = 0

  length-got_entries :
      (count : ℕ) (fi : FileInfo) (r : Session env × Option (ℕ × Bytes))
      → length (got_entries rt count fi r).1 ≡ 1
  length-got_entries count fi (t, none) = refl
  length-got_entries count fi (t, some (err, bytes)) = ground arith

  length-opened :
      (ino : ℕ) (fi : FileInfo) (t : Session env) (n : Option (ℕ × Option ℕ)) (s' : Session env)
      (rs : List FuseReply)
      → opened rt ino fi (t, n) ≡ some (s', rs)
      → length rs ≡ length (size_replies n) + 1
  length-opened ino fi t n s' rs e =
      let count = count_of rt.uninit n in
      elim (Option-cases (ecall rt (get_entries rt ino count) t)) [
        | inl f ↦ absurd (ground arith)
        | inr (got, f) ↦
            let q : size_replies n ++ (got_entries rt count fi got).1 ≡ rs = ground arith in
            rw (sym q, length-append, length-got_entries count fi got) refl
      ]

  secfs_opendir-replies :
      (ino : ℕ) (fi : FileInfo) (s s' : Session env) (rs : List FuseReply)
      → secfs_opendir rt ino fi s ≡ some (s', rs)
      → length rs ≡ 1 + surplus (opendir ino fi) s
  unfolding secfs_opendir ecall
  secfs_opendir-replies ino fi s s' rs e = elim (Bool-cases (rt.carried s.called)) [
    | inl up ↦
        let (err, n) = ecall_fs_get_dirent_size env ino s.enclave in
        ground
          (arith, length-opened ino fi (record s { called = suc s.called }) (some (err, n)) s' rs)
    | inr down ↦
        ground (arith, length-opened ino fi (record s { called = suc s.called }) none s' rs)
  ]

  -- Every request gets exactly one reply from the handler that the table names for it, with one
  -- exception: an `opendir` whose first ECALL is not carried out or returns an error goes on after
  -- its error reply and sends a second one.
  pub secfs_oper-once :
      (r : Request) (s s' : Session env) (rs : List FuseReply)
      → secfs_oper rt r s ≡ some (s', rs)
      → length rs ≡ 1 + surplus r s
  unfolding secfs_oper secfs_lookup secfs_forget secfs_getattr secfs_setattr secfs_mkdir
      secfs_unlink secfs_rmdir secfs_open secfs_read secfs_write secfs_flush secfs_access
      secfs_create secfs_fallocate secfs_releasedir secfs_readdir
  secfs_oper-once (lookup parent name) s s' rs e =
      once _ (ecall rt (ecall_fs_lookup env parent name) s) s' rs (λ r. length-reply_or _ _ r) e
  secfs_oper-once (forget ino n) s s' rs e =
      once _ (ecall rt (λ en. some (ecall_fs_forget env ino n en)) s) s' rs (λ r. refl) e
  secfs_oper-once (getattr ino) s s' rs e =
      once _ (ecall rt (λ en. some (en, ecall_fs_getattr env ino en)) s) s' rs
        (λ r. length-reply_or _ _ r) e
  secfs_oper-once (setattr ino attr to_set) s s' rs e =
      once _ (ecall rt (λ en. some (en, ecall_fs_getattr env ino en)) s) s' rs
        (λ r. length-reply_or _ _ r) e
  secfs_oper-once (mkdir parent name mode) s s' rs e =
      once _ (ecall rt (ecall_fs_mkdir env parent name mode) s) s' rs (λ r. length-reply_or _ _ r) e
  secfs_oper-once (unlink parent name) s s' rs e =
      once _ (ecall rt (ecall_fs_unlink env parent name) s) s' rs length-reply_err_or e
  secfs_oper-once (rmdir parent name) s s' rs e =
      once _ (ecall rt (ecall_fs_rmdir env parent name) s) s' rs length-reply_err_or e
  secfs_oper-once (open_file ino fi) s s' rs e =
      once _ (ecall rt (λ en. some (ecall_fs_open env ino fi.flags en)) s) s' rs
        (λ r. length-reply_or _ _ r) e
  secfs_oper-once (read ino size off) s s' rs e =
      once _ (ecall rt (ecall_fs_read env ino off size) s) s' rs (λ r. length-reply_or _ _ r) e
  secfs_oper-once (write ino buf off) s s' rs e =
      once _ (ecall rt (ecall_fs_write env ino buf off (length buf)) s) s' rs
        (λ r. length-reply_or _ _ r) e
  secfs_oper-once (flush ino) s s' rs e =
      once _ (ecall rt (ecall_fs_flush env ino) s) s' rs length-reply_err_or e
  secfs_oper-once (access ino mask) s s' rs e =
      once _ (ecall rt (λ en. some (en, ecall_fs_access env ino mask en)) s) s' rs
        length-reply_err_or e
  secfs_oper-once (create parent name mode fi) s s' rs e =
      once _ (ecall rt (ecall_fs_create env parent name mode) s) s' rs (λ r. length-reply_or _ _ r)
        e
  secfs_oper-once (fallocate ino offset n) s s' rs e =
      once _ (ecall rt (λ en. some (ecall_fs_fallocate env ino offset n en)) s) s' rs
        length-reply_err_or e
  secfs_oper-once (opendir ino fi) s s' rs e = secfs_opendir-replies ino fi s s' rs e
  secfs_oper-once (readdir size offset fi) s s' rs e = ground arith
  secfs_oper-once (releasedir fi) s s' rs e = ground arith
