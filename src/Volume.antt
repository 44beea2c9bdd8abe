-- ===== src/Volume.antt =====
-- enclave/ecall_volume.cpp: a volume is created and mounted.
pub mod Laws
pub mod Stored
pub mod Creation
pub mod Mounted
use sgx_secfs.Base.{
  ℕ, suc, ◌+◌, Bool, Option, none, some, [], ◌∷◌, Bytes, length, replicate, ltb, true, ◌==◌, nat_eq,
  if◌then◌else◌, not, ◌&&◌,
}
use sgx_secfs.Base.Dict
use sgx_secfs.Uuid.{Uuid, null_uuid}
use sgx_secfs.Metadata.Codecs.{superinfo_codec, dirnode_codec, usertable_codec}
use sgx_secfs.Metadata.Ecp.{Keypair}
use sgx_secfs.Metadata.Superinfo.{Superinfo}
use sgx_secfs.Metadata.Dirnode.{Dirnode}
use sgx_secfs.Metadata.Usertable.{Userinfo, Usertable, new_userinfo, set_pubkey}
use sgx_secfs.Storage.Saved.{Loaded}
use sgx_secfs.Enclave.{Env, Enclave, load_metadata, save_metadata, gen_rand}
use sgx_secfs.Enclave.Inode.{Inode, Object, dirnode, new_dirnode}

abbrev pub volkey_aad : Bytes
volkey_aad = b'v' ∷ b'o' ∷ b'l' ∷ b'u' ∷ b'm' ∷ b'e' ∷ b' ' ∷ b'k' ∷ b'e' ∷ b'y' ∷ []

abbrev pub volkeysize : ℕ
volkeysize = 256

-- The result and the two buffers that the ECALL writes; `none` is a buffer that stays as it was.
pub record Created : Type 0 where
  pub err : ℕ
  pub sp_uuid : Option Uuid
  pub sealed_volkey : Option Bytes

-- The hashes and the inode number of a new superinfo are not set, and no one reads them before a
-- load or an assignment, but for the hashes of a new volume, which are saved as they are.
abbrev pub new_superinfo : Bytes → Uuid → Superinfo
new_superinfo garbage u = record {
  uuid = u;
  root_dirnode = null_uuid;
  user_table = null_uuid;
  hash_root_dirnode = garbage;
  hash_user_table = garbage;
  max_ino = 0;
}

-- The three objects of a new volume.
abbrev pub volume_superinfo : Bytes → Uuid → Uuid → Uuid → Superinfo
volume_superinfo garbage sp ut rt = record (new_superinfo garbage sp) {
  user_table = ut;
  root_dirnode = rt;
  max_ino = 2;
}

abbrev pub volume_root : Uuid → Dirnode
volume_root rt = record (new_dirnode rt) { ino = 1; name = [] }

module _ (env : Env) where
  unfoldable pub ecall_calc_volkey_size : ℕ
  ecall_calc_volkey_size = env.sgx.calc_sealed_data_size (length volkey_aad) volkeysize

  abbrev pub volume_users : Uuid → Userinfo env.ecp → Usertable env.ecp
  volume_users ut owner = record { uuid = ut; usermap = (1, owner) ∷ [] }

  abbrev pub save_volume :
      Uuid → Uuid → Uuid → Userinfo env.ecp → Bytes → Enclave env → Enclave env × Created
  save_volume sp ut rt owner sealed s =
      let failed : Created = record { err = 1; sp_uuid = none; sealed_volkey = some sealed } in
      let (s1, users_saved) =
        save_metadata env (usertable_codec env.ecp) (volume_users ut owner) s in
      let (s2, root_saved) = save_metadata env dirnode_codec (volume_root rt) s1 in
      let (s3, sp_saved) =
        save_metadata env superinfo_codec (volume_superinfo (env.host.heap 32) sp ut rt) s2 in
      if users_saved
      then (if root_saved
          then (if sp_saved
              then (s3, record { err = 0; sp_uuid = some sp; sealed_volkey = some sealed })
              else (s3, failed))
          else (s2, failed))
      else (s1, failed)

  abbrev pub sealed_volume :
      Uuid → Uuid → Uuid → Userinfo env.ecp → ℕ → Option Bytes → Enclave env → Enclave env × Created
  sealed_volume sp ut rt owner volkey_size none s =
      (s, record { err = 1; sp_uuid = none; sealed_volkey = some (replicate volkey_size 0) })
  sealed_volume sp ut rt owner volkey_size (some sealed) s = save_volume sp ut rt owner sealed s

  -- `sgx_read_rand` of the volume key.
  unfoldable pub new_volkey : Enclave env → Enclave env
  new_volkey s = record s { volkey = env.sgx.read_rand s.drawn volkeysize; drawn = suc s.drawn }

  abbrev pub owned_volume :
      Uuid → Uuid → Uuid → ℕ → Option (Userinfo env.ecp) → Enclave env → Enclave env × Created
  owned_volume sp ut rt volkey_size none s =
      (s, record { err = 1; sp_uuid = none; sealed_volkey = none })
  owned_volume sp ut rt volkey_size (some owner) s =
      let s1 = new_volkey s in
      if ltb volkey_size ecall_calc_volkey_size
      then (s1, record { err = 1; sp_uuid = none; sealed_volkey = none })
      else sealed_volume sp ut rt owner volkey_size
          (env.sgx.seal_data volkey_aad s1.volkey volkey_size) s1

  unfoldable pub ecall_create_volume :
      Keypair env.ecp → ℕ → Enclave env → Option (Enclave env × Created)
  unfolding ecall_calc_volkey_size
  ecall_create_volume pubkey volkey_size s =
      let (sp, s1) = gen_rand env s in
      let (ut, s2) = gen_rand env s1 in
      let (rt, s3) = gen_rand env s2 in
      elim (new_userinfo env.ecp) [
        | none ↦ none
        | some u ↦ some (
            owned_volume sp ut rt volkey_size
              (set_pubkey env.ecp (record u { is_owner = true }) pubkey) s3)
      ]

  abbrev pub mount_root : Loaded Dirnode → Enclave env → Option (Enclave env × ℕ)
  mount_root (Loaded.loaded root) s =
      let root_object : Object = record { id = s.next_object; inode = dirnode root } in
      some (
        if root.ino == 1
        then (
          record s {
            inode_map = Dict.insert 1 root_object s.inode_map;
            next_object = suc s.next_object;
          },
          0,
        )
        else (s, 1))
  mount_root Loaded.failed s = some (s, 1)
  mount_root Loaded.fault s = none

  abbrev pub mount_users :
      Superinfo → Loaded (Usertable env.ecp) → Enclave env → Option (Enclave env × ℕ)
  mount_users sp (Loaded.loaded _) s =
      mount_root (load_metadata env dirnode_codec (new_dirnode sp.root_dirnode) s) s
  mount_users sp Loaded.failed s = some (s, 1)
  mount_users sp Loaded.fault s = none

  -- The superinfo stands in its global before it is loaded.
  abbrev pub mount_superinfo : Uuid → Loaded Superinfo → Enclave env → Option (Enclave env × ℕ)
  mount_superinfo u (Loaded.loaded sp) s =
      let s' = record s { superinfo = some sp } in
      mount_users sp
        (load_metadata env (usertable_codec env.ecp) (record { uuid = sp.user_table; usermap = [] })
          s')
        s'
  mount_superinfo u Loaded.failed s =
      some (record s { superinfo = some (new_superinfo (env.host.heap 32) u) }, 1)
  mount_superinfo u Loaded.fault s = none

  abbrev pub unsealed : Uuid → Option (Bytes × Bytes) → Enclave env → Option (Enclave env × ℕ)
  unsealed u none s = some (s, 1)
  unsealed u (some (aad, key)) s =
      let s' = record s { volkey = key } in
      mount_superinfo u (load_metadata env superinfo_codec (new_superinfo (env.host.heap 32) u) s')
        s'

  -- The user's number and key are not looked at.
  unfoldable pub ecall_mount_volume :
      ℕ → Keypair env.ecp → Uuid → Bytes → ℕ → Enclave env → Option (Enclave env × ℕ)
  unfolding Dict.insert
  ecall_mount_volume uid key sp_uuid sealed volkey_size s =
      let mac_text_len = env.sgx.get_add_mac_txt_len sealed in
      let decrypt_data_len = env.sgx.get_encrypt_txt_len sealed in
      if (mac_text_len == length volkey_aad) && (decrypt_data_len == volkeysize)
      then (if ltb volkey_size mac_text_len
          then some (s, 1)
          else if ltb volkey_size decrypt_data_len
          then some (s, 1)
          else unsealed sp_uuid (env.sgx.unseal_data sealed) s)
      else some (s, 1)
