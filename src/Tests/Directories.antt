-- ===== src/Tests/Directories.antt =====
-- Lookup, creation and forgetting at a mounted volume.
use sgx_secfs.Base.{
  ℕ, ◌≡◌, refl, ◌≢◌, ◌-◌, none, some, [], ◌∷◌, replicate, arith, bytes_eq, nat_eq, ◌==◌,
  if◌then◌else◌, ℕ_discrete,
}
use sgx_secfs.Base.Dict
use sgx_secfs.Enclave.{Enclave}
use sgx_secfs.Enclave.Errno
use sgx_secfs.Enclave.Inode.{Object, filenode, with_refcount, refcount_of}
use sgx_secfs.Directory.{Reply, error, find_parent}
use sgx_secfs.Directory.Lookup.{ecall_fs_lookup}
use sgx_secfs.Directory.Create.{ecall_fs_mkdir, ecall_fs_create}
use sgx_secfs.Directory.Attributes.{ecall_fs_forget}
use sgx_secfs.Directory.Visible.{ecall_fs_lookup-mkdir, ecall_fs_lookup-create}
use sgx_secfs.Directory.Failures.{ecall_fs_mkdir-unchanged}
use sgx_secfs.Directory.Forget.{lookup-ecall_fs_forget}
use sgx_secfs.Base.{ℕ}
use sgx_secfs.Tests.Surroundings.{sample_env}
use sgx_secfs.Tests.Mounted.{name, sp, root, mounted, root_found, no_name, one_two}

ecall_fs_lookup-mkdir_example :
    (s' : Enclave sample_env) × (r : Reply) × (t : Enclave sample_env) × (ecall_fs_mkdir sample_env
        1 name 0o755 mounted
      ≡ some (s', r))
    × (r.err ≡ 0)
    × (r.ino ≡ 2)
    × (ecall_fs_lookup sample_env 1 name s' ≡ some (t, r))
ecall_fs_lookup-mkdir_example =
    ecall_fs_lookup-mkdir 1 0 0o755 name root sp mounted root_found no_name refl one_two

ecall_fs_lookup-create_example :
    (s' : Enclave sample_env) × (r : Reply) × (t : Enclave sample_env) × (ecall_fs_create sample_env
        1 name 0o644 mounted
      ≡ some (s', r))
    × (r.err ≡ 0)
    × (r.ino ≡ 2)
    × (ecall_fs_lookup sample_env 1 name s' ≡ some (t, r))
ecall_fs_lookup-create_example =
    ecall_fs_lookup-create 1 0 0o644 name root sp mounted root_found no_name refl one_two

missing_mkdir : ecall_fs_mkdir sample_env 9 name 0o755 mounted ≡ some (mounted, error Errno.enoent)
unfolding ecall_fs_mkdir find_parent Dict.lookup ℕ_discrete
missing_mkdir = refl

missing_create :
    ecall_fs_create sample_env 9 name 0o644 mounted ≡ some (mounted, error Errno.enoent)
unfolding ecall_fs_create find_parent Dict.lookup ℕ_discrete
missing_create = refl

two_zero : Errno.enoent ≢ 0
two_zero e = omega (arith, e)

ecall_fs_mkdir-unchanged_example : (mounted ≡ mounted) × ((error Errno.enoent).stat ≡ none)
ecall_fs_mkdir-unchanged_example =
    ecall_fs_mkdir-unchanged 9 0o755 name mounted mounted (error Errno.enoent) missing_mkdir
      two_zero

abbrev file_ino : ℕ
file_ino = 3

abbrev looked_up : Object
looked_up = record {
  id = 7;
  inode = filenode (record { uuid = replicate 16 5; ino = 3; refcount = 4; size = 0; chunks = [] });
}

abbrev holding : Enclave sample_env
holding = record mounted { inode_map = (3, looked_up) ∷ mounted.inode_map }

in_map : Dict.lookup 3 holding.inode_map ≡ some looked_up
unfolding Dict.lookup ℕ_discrete
in_map = refl

lookup-ecall_fs_forget_example :
    Dict.lookup 3 (ecall_fs_forget sample_env 3 1 holding).0.inode_map ≡ (
      if file_ino == file_ino
      then (if 1 == refcount_of looked_up.inode
          then none
          else some (record looked_up { inode = with_refcount (4 - 1) looked_up.inode }))
      else Dict.lookup 3 holding.inode_map)
lookup-ecall_fs_forget_example =
    lookup-ecall_fs_forget 3 1 3 looked_up holding in_map (omega arith) (omega arith)
