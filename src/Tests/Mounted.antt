-- ===== src/Tests/Mounted.antt =====
-- A mounted volume, with an empty and with a filled root.
use sgx_secfs.Base.{
  ◌≡◌, refl, All, ◌≢◌, none, some, [], ◌∷◌, ◌++◌, Bytes, replicate, arith, bytes_eq, nat_eq,
  ℕ_discrete, bytes_discrete,
}
use sgx_secfs.Base.Dict
use sgx_secfs.Metadata.Superinfo.{Superinfo}
use sgx_secfs.Metadata.Dirnode.{Dirnode, t_dt_dir, t_dt_reg}
use sgx_secfs.Metadata.Layout.{IsText}
use sgx_secfs.Metadata.Dirnode.RoundTrip.{IsDirent}
use sgx_secfs.Uuid.{unparse}
use sgx_secfs.Enclave.{Enclave}
use sgx_secfs.Enclave.Inode.{dirnode}
use sgx_secfs.Directory.{find_dirent, find_parent, directory}
use sgx_secfs.Directory.Names.{DistinctNames}
use sgx_secfs.Tests.Surroundings.{sample_env, new_enclave, disk_of}

abbrev pub name : Bytes
name = b'a' ∷ []

abbrev pub other_name : Bytes
other_name = b'b' ∷ []

abbrev pub sp : Superinfo
sp = record {
  uuid = replicate 16 1;
  root_dirnode = replicate 16 3;
  user_table = replicate 16 2;
  hash_root_dirnode = replicate 32 0;
  hash_user_table = replicate 32 0;
  max_ino = 2;
}

abbrev pub root : Dirnode
root = record { uuid = replicate 16 3; ino = 1; refcount = 0; name = []; dirent = [] }

-- A mounted volume with an empty root.
abbrev pub mounted : Enclave sample_env
mounted = record new_enclave {
  inode_map = (1, record { id = 0; inode = dirnode root }) ∷ [];
  next_object = 1;
  superinfo = some sp;
  volkey = replicate 256 4;
  drawn = 4;
}

pub root_found : find_parent 1 mounted ≡ directory 0 root
unfolding find_parent Dict.lookup ℕ_discrete
root_found = refl

pub no_name : find_dirent name root.dirent ≡ none
unfolding find_dirent
no_name = refl

pub one_two : 1 ≢ sp.max_ino
one_two e = omega (arith, e)

abbrev pub filled_root : Dirnode
filled_root = record root {
  dirent =
      record { ino = 2; name = name; kind = t_dt_reg; uuid = replicate 16 5 }
      ∷ record { ino = 3; name = other_name; kind = t_dt_dir; uuid = replicate 16 6 }
      ∷ [];
}

-- The root with an empty file and an empty directory, of which the storage has the metadata.
abbrev pub file_text : Bytes
file_text = 2 ∷ replicate 23 0 ++ replicate 16 7

abbrev pub directory_text : Bytes
directory_text = 3 ∷ replicate 271 0 ++ replicate 16 7

abbrev pub filled : Enclave sample_env
filled = record mounted {
  inode_map = (1, record { id = 0; inode = dirnode filled_root }) ∷ [];
  storage =
      disk_of
        ((unparse (replicate 16 5), file_text) ∷ (unparse (replicate 16 6), directory_text) ∷ []);
}

pub filled_found : find_parent 1 filled ≡ directory 0 filled_root
unfolding find_parent Dict.lookup ℕ_discrete
filled_found = refl

pub filled_names : DistinctNames filled_root.dirent
unfolding find_dirent bytes_discrete
filled_names = (refl, (refl, tt))

name_fits : IsText 256 name
name_fits = record { short = omega arith; chars = (omega arith, tt) }

pub filled_fits : All IsDirent filled_root.dirent
filled_fits = (
  record { name = name_fits; uuid = refl; ino = omega arith; kind = omega arith },
  (
    record {
      name = record { short = omega arith; chars = (omega arith, tt) };
      uuid = refl;
      ino = omega arith;
      kind = omega arith;
    },
    tt,
  ),
)
