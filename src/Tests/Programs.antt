-- ===== src/Tests/Programs.antt =====
-- The programs of the host at concrete libraries.
use sgx_secfs.Base.{
  ◌^◌, ℕ, ◌≡◌, ◌≢◌, refl, Option, none, some, [], ◌∷◌, Bytes, replicate, arith, true, false, nat_eq,
  ℕ_discrete, bytes_eq, bytes_discrete,
}
use sgx_secfs.Base.Dict
use sgx_secfs.Base.ByteList.{le_bytes}
use sgx_secfs.Metadata.Layout.{text_field, zeros}
use sgx_secfs.Metadata.Superinfo
use sgx_secfs.Metadata.Dirnode
use sgx_secfs.Metadata.Usertable
use sgx_secfs.Metadata.Usertable.{new_userinfo, set_pubkey}
use sgx_secfs.Metadata.Dirnode.{Dirnode}
use sgx_secfs.Metadata.Ecp.{Keypair}
use sgx_secfs.Storage.Saved
use sgx_secfs.Storage.Cipher.{encrypt_buffer}
use sgx_secfs.Enclave.{Enclave, save_metadata, gen_rand}
use sgx_secfs.Enclave.Inode.{dirnode}
use sgx_secfs.Volume.{Created, ecall_create_volume, new_volkey, ecall_calc_volkey_size}
use sgx_secfs.App.{
  Machine, Volume, key_path, public_key_path, enclave_path, storage, type, config, base_dir,
}
use sgx_secfs.App.Setup.{
  load_config, init_enclave, load_key, load_pubkey, load_api_instance, load_config_local,
  mount_volume, started, left_by, local_type,
}
use sgx_secfs.App.Command.{cmd_create_volume}
use sgx_secfs.Fuse.{Runtime}
use sgx_secfs.App.Session
use sgx_secfs.App.Session.{
  FuseLib, Exit, Event, main, signaled, mounted, daemonized, looped, unmounted, unsignaled,
  destroyed, destroy_session, serve,
}
use sgx_secfs.Fuse.Operations.{secfs_init}
use sgx_secfs.App.Cleanup.{Clean, main-Clean}
use sgx_secfs.App.Created.{IsConfigured, mount_volume-cmd_create_volume}
use sgx_secfs.Storage.Local.{init, set_content}
use sgx_secfs.Storage.Host.{ocall_save_file}
use sgx_secfs.Tests.Surroundings.{
  sample_env, sample_env-IsEnv, two_points, disk_of, disk_of-Writable,
}
use sgx_secfs.Tests.Libraries.{Value, text, object, end, entry, sample_libs, sample_libs-IsLibs}

abbrev word : Bytes
word = b'd' ∷ []

abbrev storage_value : Value
storage_value =
    object
      (entry type (text local_type) (entry config (object (entry base_dir (text word) end)) end))

abbrev configuration : Value
configuration = object (
    entry key_path (text word) (
      entry public_key_path (text word)
        (entry enclave_path (text word) (entry storage storage_value end))))

abbrev first_file : Bytes
first_file = b'a' ∷ []

abbrev second_file : Bytes
second_file = b'b' ∷ []

abbrev machine : Machine sample_libs
machine = record { files = (first_file, configuration) ∷ []; disk = λ path. disk_of []; drawn = 0 }

abbrev volume : Volume sample_libs
volume = record { config = configuration; base_dir = [] }

abbrev owner_key : Keypair two_points
owner_key = record { grp = 4; q = true }

volume_loads : load_config sample_libs first_file machine ≡ some volume
unfolding load_config Dict.lookup ℕ_discrete bytes_discrete
volume_loads = refl

volume-IsConfigured : IsConfigured sample_libs volume owner_key owner_key word
unfolding load_pubkey load_key init_enclave load_api_instance load_config_local ℕ_discrete
    bytes_discrete
volume-IsConfigured = record {
  object = refl;
  public_key = refl;
  private_key = refl;
  enclave = word;
  opens = refl;
  storage_config = storage_value;
  has_storage = refl;
  base_dir = refl;
}

abbrev result_of : Option (Enclave sample_env × Created) → Enclave sample_env
result_of none = started sample_libs machine word
result_of (some (s, r)) = s

-- The enclave in which the command creates the volume, afterwards.
abbrev created : Enclave sample_env
created =
    result_of (ecall_create_volume sample_env owner_key 267 (started sample_libs machine word))

abbrev sealed : Bytes
sealed = 10 ∷ b'v' ∷ b'o' ∷ b'l' ∷ b'u' ∷ b'm' ∷ b'e' ∷ b' ' ∷ b'k' ∷ b'e' ∷ b'y' ∷ replicate 256 4

created_run :
    ecall_create_volume sample_env owner_key
      (ecall_calc_volkey_size sample_env)
      (started sample_libs machine word)
    ≡ some
        (created, record { err = 0; sp_uuid = some (replicate 16 1); sealed_volkey = some sealed })
unfolding ecall_create_volume new_userinfo set_pubkey ℕ_discrete ecall_calc_volkey_size new_volkey
    gen_rand save_metadata Saved.save_metadata Usertable.dump Usertable.dump_size Usertable.fields
    Usertable.dump_entries Usertable.dump_userinfo Dirnode.dump Dirnode.dump_size Dirnode.fields
    Dirnode.dump_entries Superinfo.dump Superinfo.dump_size Superinfo.fields encrypt_buffer le_bytes
    text_field zeros
created_run = refl

differ_01 : replicate {A = ℕ} 16 1 ≢ replicate 16 2
differ_01 e = ground arith

differ_02 : replicate {A = ℕ} 16 1 ≢ replicate 16 3
differ_02 e = ground arith

differ_12 : replicate {A = ℕ} 16 2 ≢ replicate 16 3
differ_12 e = ground arith

machine_init : init (disk_of []) ≢ 0
unfolding init
machine_init e = omega (arith, e)

-- The saves leave the base directory a directory.
created_init : init created.storage ≢ 0
unfolding ecall_create_volume new_userinfo set_pubkey ℕ_discrete ecall_calc_volkey_size new_volkey
    gen_rand save_metadata Saved.save_metadata Usertable.dump Usertable.dump_size Usertable.fields
    Usertable.dump_entries Usertable.dump_userinfo Dirnode.dump Dirnode.dump_size Dirnode.fields
    Dirnode.dump_entries Superinfo.dump Superinfo.dump_size Superinfo.fields encrypt_buffer le_bytes
    text_field zeros init set_content ocall_save_file
created_init e = omega (arith, e)

mount_volume-cmd_create_volume_example :
    (m1 m2 : Machine sample_libs) × (v' : Volume sample_libs) × (t : Enclave sample_env)
    × (root : Dirnode) × (cmd_create_volume sample_libs
          ((b'c', first_file) ∷ (b'n', second_file) ∷ [])
          machine
        ≡ some (m1, 0))
    × (load_config sample_libs second_file m1 ≡ some v')
    × (mount_volume sample_libs v' m1 ≡ some (m2, some (word, t)))
    × (t.volkey ≡ created.volkey)
    × (Dict.lookup 1 t.inode_map ≡ some (record { id = 0; inode = dirnode root }))
    × (root.dirent ≡ [])
mount_volume-cmd_create_volume_example =
    mount_volume-cmd_create_volume sample_libs sample_env-IsEnv sample_libs-IsLibs first_file
      second_file volume owner_key owner_key word machine true (4 ∷ 1 ∷ []) created (replicate 16 1)
      sealed volume_loads volume-IsConfigured refl refl refl refl machine_init created_init refl
      refl differ_01 differ_02 differ_12 created_run (disk_of-Writable [] [])
      (disk_of-Writable [] []) (disk_of-Writable [] [])

-- The new volume, as the program finds it.
found :
    (m1 m2 : Machine sample_libs) × (v' : Volume sample_libs) × (t : Enclave sample_env)
    × (root : Dirnode) × (cmd_create_volume sample_libs
          ((b'c', first_file) ∷ (b'n', second_file) ∷ [])
          machine
        ≡ some (m1, 0))
    × (load_config sample_libs second_file m1 ≡ some v')
    × (mount_volume sample_libs v' m1 ≡ some (m2, some (word, t)))
    × (t.volkey ≡ created.volkey)
    × (Dict.lookup 1 t.inode_map ≡ some (record { id = 0; inode = dirnode root }))
    × (root.dirent ≡ [])
found =
    mount_volume-cmd_create_volume sample_libs sample_env-IsEnv sample_libs-IsLibs first_file
      second_file volume owner_key owner_key word machine true (4 ∷ 1 ∷ []) created (replicate 16 1)
      sealed volume_loads volume-IsConfigured refl refl refl refl machine_init created_init refl
      refl differ_01 differ_02 differ_12 created_run (disk_of-Writable [] [])
      (disk_of-Writable [] []) (disk_of-Writable [] [])

-- A command line for the second file.
abbrev fuse : FuseLib
fuse = record {
  parse_cmdline = true;
  show_help = false;
  show_version = false;
  mountpoint = some word;
  opt_parse = some (record { volume_config = some second_file; writeback = 1 });
  session_new = true;
  set_signal_handlers = true;
  session_mount = true;
  daemonize = true;
  session_loop = true;
  capable = 2 ^ 16;
  want = 0;
  requests = [];
}

abbrev runtime : Runtime
runtime = record { carried = λ n. true; add_direntry = λ name ino mode off. name; uninit = 0 }

abbrev served : Exit sample_libs
served = record {
  code = 0;
  events =
      Session.created
      ∷ signaled
      ∷ mounted
      ∷ daemonized
      ∷ looped (2 ^ 16) []
      ∷ unmounted
      ∷ unsignaled
      ∷ destroyed
      ∷ [];
  machine = left_by sample_libs found.1 word found.3;
}

served_run : main sample_libs fuse runtime found.0 ≡ some served
unfolding main destroy_session serve secfs_init ℕ_discrete
served_run = rw (found.6) (rw (found.7) refl)

main-Clean_example : Clean sample_libs fuse runtime served
main-Clean_example = main-Clean sample_libs fuse runtime found.0 served served_run
