-- ===== src/Tests/Histories.antt =====
-- Requests after a mount.
use sgx_secfs.Base.{
  ℕ, ◌+◌, ◌≤◌, max, length, ◌≡◌, ◌≢◌, refl, none, some, true, arith, nat_eq, bytes_eq, replicate,
  List,
}
use sgx_secfs.Enclave.{Enclave}
use sgx_secfs.Metadata.Dirnode.{Dirnode}
use sgx_secfs.Metadata.Superinfo.{Superinfo}
use sgx_secfs.Directory.{Reply, find_dirent}
use sgx_secfs.Directory.State.{find_parent_lem}
use sgx_secfs.Directory.Create.{ecall_fs_mkdir, ecall_fs_create}
use sgx_secfs.Directory.Lookup.{ecall_fs_lookup}
use sgx_secfs.Directory.Visible.{ecall_fs_lookup-mkdir}
use sgx_secfs.Fuse.{
  Runtime, Session, FuseReply, FileInfo, ecall, reply_or, reply_err_or, reply_entry, reply_create,
}
use sgx_secfs.Fuse.Operations.{secfs_mkdir, secfs_create, secfs_fallocate, entry_param}
use sgx_secfs.Fuse.Serve.{secfs_oper, mkdir, create, fallocate}
use sgx_secfs.Reachable.Names.{IsCoherent}
use sgx_secfs.Reachable.Sessions.{Reach, here, next, session_of, Reach-mounted, Reach-covered}
use sgx_secfs.File.{Open, lock, find_file, chunk_en}
use sgx_secfs.File.Read.{read_size}
use sgx_secfs.File.Created.{find_file-ecall_fs_create}
use sgx_secfs.File.Covered.{ecall_fs_fallocate-IsFilenode}
use sgx_secfs.File.Handlers.{ecall_fs_fallocate}
use sgx_secfs.Metadata.Filenode.{Filenode, chunk_count}
use sgx_secfs.Metadata.Filenode.RoundTrip.{IsFilenode}
use sgx_secfs.Tests.Surroundings.{sample_env}
use sgx_secfs.Tests.Mounted.{name}
use sgx_secfs.Tests.Volumes.{remounted, remounting, owner_key, sealed}

abbrev runtime : Runtime
runtime = record { carried = λ n. true; add_direntry = λ name ino mode off. name; uninit = 0 }

-- The enclave after the mount, and its root.
abbrev enclave : Enclave sample_env
enclave = remounted.0

abbrev root : Dirnode
root = remounted.1

abbrev sp : Superinfo
sp = remounted.2

no_name : find_dirent name root.dirent ≡ none
unfolding find_dirent
no_name = rw (remounted.6) refl

one_next : 1 ≢ sp.max_ino
one_next e = omega (arith, e, remounted.8)

made :
    (s' : Enclave sample_env) × (r : Reply) × (t : Enclave sample_env) × (ecall_fs_mkdir sample_env
        1 name 0o755 enclave
      ≡ some (s', r))
    × (r.err ≡ 0)
    × (r.ino ≡ sp.max_ino)
    × (ecall_fs_lookup sample_env 1 name s' ≡ some (t, r))
made =
    ecall_fs_lookup-mkdir 1 0 0o755 name root sp enclave
      (find_parent_lem 1 0 root enclave (remounted.5)) no_name (remounted.7) one_next

abbrev after : Session sample_env
after = record (session_of enclave) { enclave = made.0; called = 1 }

abbrev replies : List FuseReply
replies = reply_or (λ (r : Reply). r.err) (λ r. reply_entry (entry_param 1 r)) (some made.1)

made_by_request :
    secfs_oper runtime (mkdir 1 name 0o755) (session_of enclave) ≡ some (after, replies)
unfolding secfs_oper secfs_mkdir ecall
made_by_request = rw (made.3) refl

Reach-mounted_example :
    IsCoherent after.enclave
    × ((ino : ℕ) (o : Open)
        → find_file ino after.enclave ≡ some o
        → lock o.id after.enclave.inode_map ≡ some o)
Reach-mounted_example =
    Reach-mounted runtime 7 owner_key (replicate 16 1) sealed 300 0 remounting enclave after refl
      refl (remounted.3) (next here (mkdir 1 name 0o755) replies made_by_request)

made_file :
    (s' : Enclave sample_env) × (r : Reply) × (i : ℕ) × (f : Filenode) × (ecall_fs_create sample_env
        1 name 0o644 enclave
      ≡ some (s', r))
    × (find_file sp.max_ino s' ≡ some (record { key = sp.max_ino; id = i; node = f }))
    × (f.size ≡ 0)
    × IsFilenode f
made_file =
    find_file-ecall_fs_create 1 0 0o644 name root sp enclave
      (find_parent_lem 1 0 root enclave (remounted.5)) no_name (remounted.7)
      (omega (arith, remounted.8))

abbrev file_id : ℕ
file_id = made_file.2

abbrev empty_file : Filenode
empty_file = made_file.3

allocated :
    (s' : Enclave sample_env) × (g : Filenode) × (ecall_fs_fallocate sample_env sp.max_ino 9000 100
        made_file.0
      ≡ (s', 0))
    × (find_file sp.max_ino s' ≡ some (record { key = sp.max_ino; id = file_id; node = g }))
    × (g.size ≡ max empty_file.size (9000 + 100))
    × IsFilenode g
allocated =
    ecall_fs_fallocate-IsFilenode sp.max_ino file_id 9000 100 empty_file made_file.0 (made_file.5)
      (omega arith) (made_file.7)

abbrev with_file : Session sample_env
with_file = record (session_of enclave) { enclave = made_file.0; called = 1 }

abbrev with_chunks : Session sample_env
with_chunks = record (session_of enclave) { enclave = allocated.0; called = 2 }

abbrev info : FileInfo
info = record { flags = 0; fh = 0 }

abbrev create_replies : List FuseReply
create_replies =
    reply_or (λ (r : Reply). r.err) (λ r. reply_create (entry_param 1 r) info) (some made_file.1)

created_by_request :
    secfs_oper runtime (create 1 name 0o644 info) (session_of enclave)
    ≡ some (with_file, create_replies)
unfolding secfs_oper secfs_create ecall
created_by_request = rw (made_file.4) refl

allocated_by_request :
    secfs_oper runtime (fallocate sp.max_ino 9000 100) with_file
    ≡ some (with_chunks, reply_err_or (some 0))
unfolding secfs_oper secfs_fallocate ecall
allocated_by_request = rw (allocated.2) refl

abbrev history : Reach runtime (session_of enclave) with_chunks
history =
    next (next here (create 1 name 0o644 info) create_replies created_by_request)
      (fallocate sp.max_ino 9000 100) (reply_err_or (some 0)) allocated_by_request

Reach-covered_example :
    (chunk_count allocated.1.size ≤ length allocated.1.chunks)
    × (chunk_en 4000 (read_size allocated.1.size 4000 200) ≤ length allocated.1.chunks)
Reach-covered_example =
    Reach-covered runtime 7 owner_key (replicate 16 1) sealed 300 0 remounting enclave with_chunks
      refl refl (remounted.3) history ((tt, tt), tt) sp.max_ino 4000 200
      (record { key = sp.max_ino; id = file_id; node = allocated.1 }) (allocated.3)
      (omega (arith, allocated.4, made_file.6)) (omega (arith, allocated.4, made_file.6))
