-- ===== src/Reachable/Sessions.antt =====
-- Every state that requests lead to from a mount.
use sgx_secfs.Base.{
  ℕ, ◌+◌, ◌<◌, ◌≤◌, ◌≡◌, Option, none, some, List, [], arith, nat_eq, length, Option-cases,
  Bool-cases, inl, inr, Bytes, ◌==◌,
}
use sgx_secfs.Base.Dict
use sgx_secfs.Uuid.{Uuid}
use sgx_secfs.ChunkStore
use sgx_secfs.Metadata.Ecp.{Keypair}
use sgx_secfs.Enclave.{Env, Enclave}
use sgx_secfs.Enclave.Inode.{as_filenode}
use sgx_secfs.Volume.{ecall_mount_volume}
use sgx_secfs.Directory.Lookup.{ecall_fs_lookup}
use sgx_secfs.Directory.Create.{ecall_fs_mkdir, ecall_fs_create}
use sgx_secfs.Directory.Remove.{ecall_fs_unlink, ecall_fs_rmdir}
use sgx_secfs.Directory.Attributes.{ecall_fs_forget, ecall_fs_getattr, ecall_fs_access}
use sgx_secfs.Directory.Entries.{ecall_fs_get_dirent_size, ecall_fs_get_dirent}
use sgx_secfs.File.{Open, lock, find_file}
use sgx_secfs.File.Read.{ecall_fs_read}
use sgx_secfs.File.Write.{ecall_fs_write}
use sgx_secfs.File.Handlers.{ecall_fs_open, ecall_fs_flush, ecall_fs_fallocate}
use sgx_secfs.Fuse.{FuseReply, FileInfo, Runtime, Session, ecall, returned}
use sgx_secfs.Fuse.Once.{then_reply}
use sgx_secfs.Fuse.Operations.{
  secfs_lookup, secfs_forget, secfs_getattr, secfs_setattr, secfs_mkdir, secfs_unlink, secfs_rmdir,
  secfs_open, secfs_read, secfs_write, secfs_flush, secfs_access, secfs_create, secfs_fallocate,
}
use sgx_secfs.Fuse.Directories.{
  secfs_opendir, secfs_readdir, secfs_releasedir, got_entries, opened, get_entries, count_of,
}
use sgx_secfs.Fuse.Serve.{
  Request, secfs_oper, lookup, forget, getattr, setattr, mkdir, unlink, rmdir, open_file, read,
  write, flush, opendir, readdir, releasedir, access, create, fallocate,
}
use sgx_secfs.Metadata.Layout.{size_mod}
use sgx_secfs.Metadata.Filenode.{chunk_size, chunk_count}
use sgx_secfs.File.{chunk_en}
use sgx_secfs.File.Read.{read_size}
use sgx_secfs.Reachable.Objects.{lock-lookup}
use sgx_secfs.Reachable.Names.{
  IsCoherent, IsSound, Holds, Holds-bind, Holds-if, Holds-any, Keeps, ecall_fs_mkdir-Keeps,
  ecall_fs_create-Keeps,
}
use sgx_secfs.Reachable.Lookups.{
  ecall_fs_lookup-Keeps, ecall_fs_forget-IsSound, ecall_fs_unlink-Keeps, ecall_fs_rmdir-Keeps,
}
use sgx_secfs.Reachable.Covered.{Fits}
use sgx_secfs.Reachable.Reads.{
  ecall_fs_read-Keeps, ecall_fs_open-IsSound, ecall_fs_flush-Keeps, find_file-each,
}
use sgx_secfs.Reachable.Writes.{ecall_fs_write-Keeps, ecall_fs_fallocate-IsSound}
use sgx_secfs.Reachable.Mounts.{ecall_mount_volume-Keeps, fresh-IsSound}

-- The states after any requests in any order.
pub data Reach {env : Env} (rt : Runtime) (s : Session env) : Session env → Type 0 where
  here : Reach rt s s
  next :
      {t u : Session env}
      → Reach rt s t
      → (r : Request) (rs : List FuseReply) → secfs_oper rt r t ≡ some (u, rs)
      → Reach rt s u

-- A session over an enclave.
abbrev pub session_of : {env : Env} → Enclave env → Session env
session_of e = record { enclave = e; called = 0; dirvecs = []; next_dirvec = 0 }

-- A write that ends 4096 bytes below the range of `size_t`.
abbrev pub InRange : Request → Type 0
InRange (write ino buf off) = off + length buf + chunk_size < size_mod
InRange r = Unit

-- All writes among the requests.
abbrev pub AllInRange : {env : Env} {rt : Runtime} {s t : Session env} → Reach rt s t → Type 0
AllInRange here = Unit
AllInRange (next r req rs e) = AllInRange r × InRange req

module _ {env : Env} (Q : Type 0) (rt : Runtime) where
  returned-Holds :
      {R : Type 0} (r : Option (Enclave env × R)) (s : Session env)
      → Keeps (Fits Q) r
      → Holds (λ x. IsSound (Fits Q) x.0.enclave) (returned rt s r)
  returned-Holds none s h = tt
  returned-Holds (some (e, r)) s h = h

  ecall-Holds :
      {R : Type 0} (f : Enclave env → Option (Enclave env × R)) (s : Session env)
      → IsSound (Fits Q) s.enclave
      → Keeps (Fits Q) (f s.enclave)
      → Holds (λ x. IsSound (Fits Q) x.0.enclave) (ecall rt f s)
  unfolding ecall
  ecall-Holds f s v h = Holds-if _ (rt.carried s.called) _ _ (returned-Holds (f s.enclave) s h) v

  -- A handler of one ECALL.
  reply-Holds :
      {R : Type 0} (f : Enclave env → Option (Enclave env × R)) (g : Option R → List FuseReply)
      (s : Session env)
      → IsSound (Fits Q) s.enclave
      → Keeps (Fits Q) (f s.enclave)
      → Holds (λ x. IsSound (Fits Q) x.0.enclave) (then_reply g (ecall rt f s))
  reply-Holds f g s v h =
      Holds-bind (λ x. IsSound (Fits Q) x.0.enclave) (λ x. IsSound (Fits Q) x.0.enclave)
        (ecall rt f s) _ (ecall-Holds f s v h) (λ x w. w)

  got_entries-IsSound :
      (count : ℕ) (fi : FileInfo) (t : Session env) (r : Option (ℕ × Bytes))
      → IsSound (Fits Q) t.enclave
      → IsSound (Fits Q) (got_entries rt count fi (t, r)).0.enclave
  got_entries-IsSound count fi t none v = v
  got_entries-IsSound count fi t (some (err, bytes)) v = elim (Bool-cases (err == 0)) [
    | inl e ↦ rw e v
    | inr e ↦ rw e v
  ]

  opened-Holds :
      (ino : ℕ) (fi : FileInfo) (t : Session env) (n : Option (ℕ × Option ℕ))
      → IsSound (Fits Q) t.enclave
      → Holds (λ x. IsSound (Fits Q) x.0.enclave) (opened rt ino fi (t, n))
  opened-Holds ino fi t n v =
      let count = count_of rt.uninit n in
      let got =
        Holds-bind (λ _. Unit) (λ x. IsSound (Fits Q) x.0)
          (ecall_fs_get_dirent env ino _ count t.enclave) _ (Holds-any _) (λ r _. v) in
      Holds-bind (λ x. IsSound (Fits Q) x.0.enclave) (λ x. IsSound (Fits Q) x.0.enclave)
        (ecall rt (get_entries rt ino count) t) _ (ecall-Holds (get_entries rt ino count) t v got)
        (λ (u, r) w. got_entries-IsSound count fi u r w)

  secfs_oper-Holds :
      (r : Request) (s : Session env)
      → (Q → InRange r)
      → IsSound (Fits Q) s.enclave
      → Holds (λ x. IsSound (Fits Q) x.0.enclave) (secfs_oper rt r s)
  unfolding secfs_oper secfs_lookup secfs_forget secfs_getattr secfs_setattr secfs_mkdir
      secfs_unlink secfs_rmdir secfs_open secfs_read secfs_write secfs_flush secfs_access
      secfs_create secfs_fallocate secfs_releasedir secfs_readdir secfs_opendir
  secfs_oper-Holds (lookup parent name) s b v =
      reply-Holds (ecall_fs_lookup env parent name) _ s v
        (ecall_fs_lookup-Keeps parent name s.enclave v)
  secfs_oper-Holds (forget ino n) s b v =
      reply-Holds (λ en. some (ecall_fs_forget env ino n en)) _ s v
        (ecall_fs_forget-IsSound ino n s.enclave v)
  secfs_oper-Holds (getattr ino) s b v =
      reply-Holds (λ en. some (en, ecall_fs_getattr env ino en)) _ s v (v)
  secfs_oper-Holds (setattr ino attr to_set) s b v =
      reply-Holds (λ en. some (en, ecall_fs_getattr env ino en)) _ s v (v)
  secfs_oper-Holds (mkdir parent name mode) s b v =
      reply-Holds (ecall_fs_mkdir env parent name mode) _ s v
        (ecall_fs_mkdir-Keeps parent mode name s.enclave v)
  secfs_oper-Holds (unlink parent name) s b v =
      reply-Holds (ecall_fs_unlink env parent name) _ s v
        (ecall_fs_unlink-Keeps parent name s.enclave v)
  secfs_oper-Holds (rmdir parent name) s b v =
      reply-Holds (ecall_fs_rmdir env parent name) _ s v
        (ecall_fs_rmdir-Keeps parent name s.enclave v)
  secfs_oper-Holds (open_file ino fi) s b v =
      reply-Holds (λ en. some (ecall_fs_open env ino fi.flags en)) _ s v
        (ecall_fs_open-IsSound ino fi.flags s.enclave v)
  secfs_oper-Holds (read ino size off) s b v =
      reply-Holds (ecall_fs_read env ino off size) _ s v
        (ecall_fs_read-Keeps ino off size s.enclave v)
  secfs_oper-Holds (write ino buf off) s b v =
      reply-Holds (ecall_fs_write env ino buf off (length buf)) _ s v
        (ecall_fs_write-Keeps ino buf off (length buf) s.enclave b v)
  secfs_oper-Holds (flush ino) s b v =
      reply-Holds (ecall_fs_flush env ino) _ s v (ecall_fs_flush-Keeps ino s.enclave v)
  secfs_oper-Holds (access ino mask) s b v =
      reply-Holds (λ en. some (en, ecall_fs_access env ino mask en)) _ s v (v)
  secfs_oper-Holds (create parent name mode fi) s b v =
      reply-Holds (ecall_fs_create env parent name mode) _ s v
        (ecall_fs_create-Keeps parent mode name s.enclave v)
  secfs_oper-Holds (fallocate ino offset n) s b v =
      reply-Holds (λ en. some (ecall_fs_fallocate env ino offset n en)) _ s v
        (ecall_fs_fallocate-IsSound ino offset n s.enclave v)
  secfs_oper-Holds (opendir ino fi) s b v =
      Holds-bind (λ x. IsSound (Fits Q) x.0.enclave) (λ x. IsSound (Fits Q) x.0.enclave)
        (ecall rt (λ en. some (en, ecall_fs_get_dirent_size env ino en)) s) _
        (ecall-Holds (λ en. some (en, ecall_fs_get_dirent_size env ino en)) s v v)
        (λ (t, n) w. opened-Holds ino fi t n w)
  secfs_oper-Holds (readdir size offset fi) s b v =
      Holds-bind (λ _. Unit) (λ x. IsSound (Fits Q) x.0.enclave) (Dict.lookup fi.fh s.dirvecs) _
        (Holds-any _) (λ d _. v)
  secfs_oper-Holds (releasedir fi) s b v =
      Holds-bind (λ _. Unit) (λ x. IsSound (Fits Q) x.0.enclave) (Dict.lookup fi.fh s.dirvecs) _
        (Holds-any _) (λ d _. v)

  Reach-IsSound :
      {s t : Session env} (r : Reach rt s t)
      → (Q → AllInRange r)
      → IsSound (Fits Q) s.enclave
      → IsSound (Fits Q) t.enclave
  Reach-IsSound here b v = v
  Reach-IsSound (next {t} r req rs e) b v =
      let before = Reach-IsSound r (λ q. (b q).0) v in
      rw e at (secfs_oper-Holds req t (λ q. (b q).1) before)

  mounted-IsSound :
      (uid : ℕ) (key : Keypair env.ecp) (u : Uuid) (sealed : Bytes) (size err : ℕ)
      (e mounted : Enclave env) (s : Session env)
      → e.inode_map ≡ []
      → e.local_cache ≡ ChunkStore.empty
      → ecall_mount_volume env uid key u sealed size e ≡ some (mounted, err)
      → (r : Reach rt (session_of mounted) s) → (Q → AllInRange r)
      → IsSound (Fits Q) s.enclave
  mounted-IsSound uid key u sealed size err e mounted s a b m r within =
      let first : IsSound (Fits Q) e = fresh-IsSound e a b in
      Reach-IsSound r within (rw m at (ecall_mount_volume-Keeps uid key u sealed size e first))

module _ {env : Env} (rt : Runtime) where
  -- The file that a handler finds by its number is the one that the weak pointers of its chunks lead
  -- to.
  lock-find_file :
      (ino : ℕ) (o : Open) (e : Enclave env)
      → IsCoherent e
      → find_file ino e ≡ some o
      → lock o.id e.inode_map ≡ some o
  unfolding find_file
  lock-find_file ino o e v f = elim (Option-cases (Dict.lookup ino e.inode_map)) [
    | inl l ↦ absurd (ground arith)
    | inr (w, l) ↦ elim (Option-cases (as_filenode w.inode)) [
      | inl g ↦ absurd (ground arith)
      | inr (n, g) ↦
          let same : record { key = ino; id = w.id; node = n } ≡ o = ground arith in
          rw (← same) (lock-lookup e.next_object ino w n e.inode_map v.objects l g)
    ]
  ]

  -- After a mount in a new enclave and any requests in any order, each of which returned, the map of
  -- inodes has one entry for each number and for each object, all objects are older than the next
  -- one, and the list and the map of the chunk store are in step. The file that a handler finds by
  -- its number is then the one that the weak pointers of its caches lead to.
  pub Reach-mounted :
      (uid : ℕ) (key : Keypair env.ecp) (u : Uuid) (sealed : Bytes) (size err : ℕ)
      (e mounted : Enclave env) (s : Session env)
      → e.inode_map ≡ []
      → e.local_cache ≡ ChunkStore.empty
      → ecall_mount_volume env uid key u sealed size e ≡ some (mounted, err)
      → Reach rt (session_of mounted) s
      → IsCoherent s.enclave
        × ((ino : ℕ) (o : Open)
            → find_file ino s.enclave ≡ some o
            → lock o.id s.enclave.inode_map ≡ some o)
  Reach-mounted uid key u sealed size err e mounted s a b m r =
      let v = mounted-IsSound ⊥ rt uid key u sealed size err e mounted s a b m r (λ q. absurd q) in
      let w : IsCoherent s.enclave = record { objects = v.objects; caches = v.caches } in
      (w, λ ino o f. lock-find_file ino o s.enclave w f)

  -- After a mount in a new enclave and any requests in any order, each of which returned and whose
  -- writes end 4096 bytes below the range of `size_t`, every file in the map of inodes whose size is
  -- itself 4096 bytes below that range has the chunks that its size takes, counted as `load` counts
  -- them, and a read from an offset within its size is never refused because chunks are missing.
  pub Reach-covered :
      (uid : ℕ) (key : Keypair env.ecp) (u : Uuid) (sealed : Bytes) (size err : ℕ)
      (e mounted : Enclave env) (s : Session env)
      → e.inode_map ≡ []
      → e.local_cache ≡ ChunkStore.empty
      → ecall_mount_volume env uid key u sealed size e ≡ some (mounted, err)
      → (r : Reach rt (session_of mounted) s) → AllInRange r
      → (ino offset n : ℕ) (o : Open) → find_file ino s.enclave ≡ some o
      → offset ≤ o.node.size
      → o.node.size + chunk_size < size_mod
      → (chunk_count o.node.size ≤ length o.node.chunks)
        × (chunk_en offset (read_size o.node.size offset n) ≤ length o.node.chunks)
  Reach-covered uid key u sealed size err e mounted s a b m r within ino offset n o f h small =
      let v = mounted-IsSound Unit rt uid key u sealed size err e mounted s a b m r (λ q. within) in
      let covered = find_file-each ino o s.enclave v f tt in (covered, ground arith)
