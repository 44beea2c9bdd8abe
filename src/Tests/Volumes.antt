-- ===== src/Tests/Volumes.antt =====
-- A volume at concrete surroundings.
use sgx_secfs.Base.{
  ℕ, ◌≡◌, refl, ◌≢◌, Option, none, some, [], ◌∷◌, Bytes, true, arith, ℕ_discrete, replicate, nat_eq,
}
use sgx_secfs.Base.Dict
use sgx_secfs.Base.ByteList.{le_bytes}
use sgx_secfs.Metadata.Layout.{text_field, zeros}
use sgx_secfs.Metadata.Superinfo
use sgx_secfs.Metadata.Dirnode
use sgx_secfs.Metadata.Usertable
use sgx_secfs.Metadata.Usertable.{new_userinfo, set_pubkey}
use sgx_secfs.Storage.Saved
use sgx_secfs.Storage.Cipher.{encrypt_buffer}
use sgx_secfs.Metadata.Superinfo.{Superinfo}
use sgx_secfs.Metadata.Dirnode.{Dirnode}
use sgx_secfs.Metadata.Ecp.{Keypair}
use sgx_secfs.Enclave.{Enclave, save_metadata, gen_rand}
use sgx_secfs.Enclave.Inode.{dirnode}
use sgx_secfs.Volume.{
  Created, ecall_create_volume, ecall_mount_volume, new_volkey, ecall_calc_volkey_size,
}
use sgx_secfs.Volume.Mounted.{ecall_mount_volume-ecall_create_volume}
use sgx_secfs.Tests.Surroundings.{
  sample_env, sample_env-IsEnv, new_enclave, two_points, disk_of-Writable,
}

abbrev pub owner_key : Keypair two_points
owner_key = record { grp = 4; q = true }

abbrev result_of : Option (Enclave sample_env × Created) → Enclave sample_env
result_of none = new_enclave
result_of (some (s, r)) = s

-- The enclave after the volume was created.
abbrev pub created : Enclave sample_env
created = result_of (ecall_create_volume sample_env owner_key 300 new_enclave)

abbrev pub sealed : Bytes
sealed = 10 ∷ b'v' ∷ b'o' ∷ b'l' ∷ b'u' ∷ b'm' ∷ b'e' ∷ b' ' ∷ b'k' ∷ b'e' ∷ b'y' ∷ replicate 256 4

created_run :
    ecall_create_volume sample_env owner_key 300 new_enclave
    ≡ some
        (created, record { err = 0; sp_uuid = some (replicate 16 1); sealed_volkey = some sealed })
unfolding ecall_create_volume new_userinfo set_pubkey ℕ_discrete ecall_calc_volkey_size new_volkey
    gen_rand save_metadata Saved.save_metadata Usertable.dump Usertable.dump_size Usertable.fields
    Usertable.dump_entries Usertable.dump_userinfo Dirnode.dump Dirnode.dump_size Dirnode.fields
    Dirnode.dump_entries Superinfo.dump Superinfo.dump_size Superinfo.fields encrypt_buffer le_bytes
    text_field zeros
created_run = refl

differ_01 : replicate {A = ℕ} 16 1 ≢ replicate 16 2
differ_01 e = ground arith

differ_02 : replicate {A = ℕ} 16 1 ≢ replicate 16 3
differ_02 e = ground arith

differ_12 : replicate {A = ℕ} 16 2 ≢ replicate 16 3
differ_12 e = ground arith

-- Another enclave over the storage of the first.
abbrev pub remounting : Enclave sample_env
remounting = record new_enclave { storage = created.storage }

-- The volume that was created, mounted again.
pub remounted :
    (t' : Enclave sample_env) × (root : Dirnode) × (sp : Superinfo) × (ecall_mount_volume sample_env
        7 owner_key
        (replicate 16 1)
        sealed
        300
        remounting
      ≡ some (t', 0))
    × (t'.volkey ≡ created.volkey)
    × (Dict.lookup 1 t'.inode_map ≡ some (record { id = 0; inode = dirnode root }))
    × (root.dirent ≡ [])
    × (t'.superinfo ≡ some sp)
    × (sp.max_ino ≡ 2)
remounted =
    ecall_mount_volume-ecall_create_volume sample_env-IsEnv owner_key 300 new_enclave created
      (replicate 16 1) sealed 7 remounting true (4 ∷ 1 ∷ []) refl refl differ_01 differ_02 differ_12
      created_run (disk_of-Writable [] []) (disk_of-Writable [] []) (disk_of-Writable [] []) refl

ecall_mount_volume-ecall_create_volume_example :
    (t' : Enclave sample_env) × (root : Dirnode) × (sp : Superinfo) × (ecall_mount_volume sample_env
        7 owner_key
        (replicate 16 1)
        sealed
        300
        remounting
      ≡ some (t', 0))
    × (t'.volkey ≡ created.volkey)
    × (Dict.lookup 1 t'.inode_map ≡ some (record { id = 0; inode = dirnode root }))
    × (root.dirent ≡ [])
    × (t'.superinfo ≡ some sp)
    × (sp.max_ino ≡ 2)
ecall_mount_volume-ecall_create_volume_example =
    ecall_mount_volume-ecall_create_volume sample_env-IsEnv owner_key 300 new_enclave created
      (replicate 16 1) sealed 7 remounting true (4 ∷ 1 ∷ []) refl refl differ_01 differ_02 differ_12
      created_run (disk_of-Writable [] []) (disk_of-Writable [] []) (disk_of-Writable [] []) refl
