-- ===== src/Tests/Objects.antt =====
-- The metadata and the storage at concrete inputs.
use sgx_secfs.Base.{
  ℕ, ◌≡◌, refl, ◌≢◌, true, false, none, some, [], ◌∷◌, ◌++◌, Bytes, replicate, length, take, drop,
  arith, bytes_eq, nat_eq, ◌==◌, ℕ_discrete,
}
use sgx_secfs.Uuid.{unparse}
use sgx_secfs.Uuid.Unparse.{unparse-injective}
use sgx_secfs.Metadata.Codec.{Reads}
use sgx_secfs.Metadata.Codecs.{
  superinfo_codec, filenode_codec, dirnode_codec, superinfo-Reads, filenode-Reads, dirnode-Reads,
}
use sgx_secfs.Base.ByteList.{le_bytes}
use sgx_secfs.Metadata.Superinfo
use sgx_secfs.Metadata.Superinfo.{Superinfo, IsSuperinfo}
use sgx_secfs.Metadata.Filenode.{Filenode, null_chunk}
use sgx_secfs.Metadata.Filenode.RoundTrip.{IsFilenode}
use sgx_secfs.Metadata.Dirnode.{Dirnode, t_dt_reg}
use sgx_secfs.Metadata.Dirnode.RoundTrip.{IsDirnode}
use sgx_secfs.Metadata.Usertable
use sgx_secfs.Metadata.Usertable.{Userinfo, Usertable}
use sgx_secfs.Metadata.Usertable.RoundTrip.{IsUser}
use sgx_secfs.Metadata.Usertable.Lost.{dump-lost}
use sgx_secfs.Storage.Local.{LocalStorage, FileType, local_api, local_api-IsStorage, set_content}
use sgx_secfs.Storage.Cipher.{encrypt_buffer, decrypt_buffer}
use sgx_secfs.Storage.Cipher.RoundTrip.{decrypt_buffer-encrypt_buffer}
use sgx_secfs.Storage.Saved.{Loaded, load_metadata, save_metadata, zero_iv}
use sgx_secfs.Storage.Saved.RoundTrip.{load_metadata-save_metadata}
use sgx_secfs.Storage.Saved.Frame.{load_metadata-other}
use sgx_secfs.Storage.Saved.Failures.{save_metadata-refused}
use sgx_secfs.Tests.Surroundings.{
  plain_cipher, plain_cipher-IsGcm, two_points, local_host, disk_of, disk_of-Writable,
  local_host-IsHost,
}

abbrev sp : Superinfo
sp = record {
  uuid = replicate 16 1;
  root_dirnode = replicate 16 3;
  user_table = replicate 16 2;
  hash_root_dirnode = replicate 32 5;
  hash_user_table = replicate 32 6;
  max_ino = 300;
}

abbrev empty_sp : Superinfo
empty_sp = record {
  uuid = replicate 16 1;
  root_dirnode = [];
  user_table = [];
  hash_root_dirnode = [];
  hash_user_table = [];
  max_ino = 0;
}

sp-IsSuperinfo : IsSuperinfo sp
sp-IsSuperinfo = record {
  root = refl;
  users = refl;
  hash_root = refl;
  hash_users = refl;
  ino = omega arith;
}

sp-Reads : Reads superinfo_codec sp empty_sp sp
sp-Reads = superinfo-Reads sp empty_sp sp-IsSuperinfo

abbrev file : Filenode
file = record { uuid = replicate 16 9; ino = 3; refcount = 1; size = 10; chunks = null_chunk ∷ [] }

abbrev empty_file : Filenode
empty_file = record { uuid = replicate 16 9; ino = 0; refcount = 0; size = 0; chunks = [] }

file-IsFilenode : IsFilenode file
file-IsFilenode = record {
  ino = omega arith;
  small = omega arith;
  covered = refl;
  whole = (record { uuid = refl; iv = refl; tag = refl }, tt);
}

filenode-Reads_example : Reads filenode_codec file empty_file (record file { refcount = 0 })
filenode-Reads_example = filenode-Reads file empty_file file-IsFilenode

abbrev dir : Dirnode
dir = record {
  uuid = replicate 16 4;
  ino = 1;
  refcount = 2;
  name = [];
  dirent = record { ino = 3; name = b'a' ∷ []; kind = t_dt_reg; uuid = replicate 16 9 } ∷ [];
}

abbrev empty_dirnode : Dirnode
empty_dirnode = record { uuid = replicate 16 4; ino = 0; refcount = 0; name = []; dirent = [] }

dir-IsDirnode : IsDirnode dir
dir-IsDirnode = record {
  name = record { short = omega arith; chars = tt };
  ino = omega arith;
  small = omega arith;
  whole = (
    record {
      name = record { short = omega arith; chars = (omega arith, tt) };
      uuid = refl;
      ino = omega arith;
      kind = omega arith;
    },
    tt,
  );
}

dirnode-Reads_example : Reads dirnode_codec dir empty_dirnode (record dir { refcount = 0 })
dirnode-Reads_example = dirnode-Reads dir empty_dirnode dir-IsDirnode

abbrev owner : Userinfo two_points
owner = record { is_owner = true; pubkey = true }

abbrev users : Usertable two_points
users = record { uuid = replicate 16 2; usermap = (1, owner) ∷ [] }

owner-IsUser : IsUser two_points 1 owner
owner-IsUser = record {
  small = omega arith;
  loads = refl;
  checks = refl;
  key = 4 ∷ 1 ∷ [];
  writes = refl;
}

dump-lost_example :
    Usertable.dump two_points
      (record users { usermap = (3, owner) ∷ (1, owner) ∷ (2, owner) ∷ [] })
      (replicate 900 0)
      900
    ≡ Usertable.dump two_points
        (record users { usermap = (3, owner) ∷ (9, owner) ∷ (2, owner) ∷ [] })
        (replicate 900 0)
        900
dump-lost_example =
    dump-lost two_points users ((3, owner) ∷ []) 1 9 2 owner owner owner [] (replicate 900 0) 900

encrypt_run :
    encrypt_buffer plain_cipher
      (5 ∷ [])
      zero_iv
      (replicate 16 1)
      (1 ∷ 2 ∷ 3 ∷ [])
      (0 ∷ 0 ∷ 0 ∷ 0 ∷ [])
      4
    ≡ some (1 ∷ 2 ∷ 3 ∷ 0 ∷ [], replicate 16 7)
unfolding encrypt_buffer
encrypt_run = refl

decrypt_buffer-encrypt_buffer_example :
    (length (replicate {A = ℕ} 16 7) ≡ 16)
    × (length (take {A = ℕ} 3 (1 ∷ 2 ∷ 3 ∷ 0 ∷ [])) ≡ 3)
    × (decrypt_buffer plain_cipher
          (5 ∷ [])
          zero_iv
          (replicate 16 1)
          (take 3 (1 ∷ 2 ∷ 3 ∷ 0 ∷ []))
          (8 ∷ 8 ∷ 8 ∷ 8 ∷ [])
          4
          (replicate 16 7)
        ≡ some (1 ∷ 2 ∷ 3 ∷ drop 3 (8 ∷ 8 ∷ 8 ∷ 8 ∷ [])))
decrypt_buffer-encrypt_buffer_example =
    decrypt_buffer-encrypt_buffer plain_cipher (5 ∷ []) zero_iv (replicate 16 1) (1 ∷ 2 ∷ 3 ∷ [])
      (0 ∷ 0 ∷ 0 ∷ 0 ∷ []) (1 ∷ 2 ∷ 3 ∷ 0 ∷ []) (replicate 16 7) (8 ∷ 8 ∷ 8 ∷ 8 ∷ []) 4 4
      plain_cipher-IsGcm encrypt_run (omega arith)

abbrev stored : local_api.State
stored = (save_metadata local_host plain_cipher (5 ∷ []) superinfo_codec sp (disk_of [])).0

save_run :
    save_metadata local_host plain_cipher (5 ∷ []) superinfo_codec sp (disk_of []) ≡ (stored, true)
unfolding save_metadata Superinfo.dump Superinfo.dump_size Superinfo.fields encrypt_buffer
    ℕ_discrete le_bytes
save_run = refl

load_metadata-save_metadata_example :
    load_metadata local_host plain_cipher (5 ∷ []) superinfo_codec empty_sp stored
    ≡ Loaded.loaded sp
load_metadata-save_metadata_example =
    load_metadata-save_metadata local_host plain_cipher (5 ∷ []) superinfo_codec sp empty_sp sp
      (disk_of []) stored plain_cipher-IsGcm local_api-IsStorage local_host-IsHost sp-Reads refl
      (disk_of-Writable [] (unparse (replicate 16 1))) refl save_run

other_name : unparse (replicate 16 9) ≢ unparse (replicate 16 1)
other_name e =
    let same =
      unparse-injective (replicate 16 9) (replicate 16 1)
        (record { long = refl; bytes = ground arith })
        (record { long = refl; bytes = ground arith }) e in
    ground (arith, same)

load_metadata-other_example :
    load_metadata local_host plain_cipher
      (5 ∷ [])
      filenode_codec
      empty_file
      (save_metadata local_host plain_cipher (5 ∷ []) superinfo_codec sp (disk_of [])).0
    ≡ load_metadata local_host plain_cipher (5 ∷ []) filenode_codec empty_file (disk_of [])
load_metadata-other_example =
    load_metadata-other local_host local_api-IsStorage plain_cipher (5 ∷ []) filenode_codec
      superinfo_codec empty_file sp (disk_of []) (λ s n. refl) other_name

-- A directory in which no file may be opened.
abbrev refusing : LocalStorage
refusing = record {
  base_type = some FileType.directory;
  files = [];
  may_read = λ n. false;
  may_write = λ n. false;
  written = λ n bs. 0;
  may_remove = λ n. false;
}

refused_cipher :
    encrypt_buffer plain_cipher
      (5 ∷ [])
      zero_iv
      sp.uuid
      (take 104 (Superinfo.fields sp))
      (replicate 120 0)
      104
    ≡ some (Superinfo.fields sp ++ replicate 16 0, replicate 16 7)
unfolding encrypt_buffer Superinfo.fields le_bytes
refused_cipher = refl

refused_dump : Superinfo.dump sp (replicate 104 0) 104 ≡ some (Superinfo.fields sp)
unfolding Superinfo.dump Superinfo.dump_size Superinfo.fields le_bytes
refused_dump = refl

size_104 : (Superinfo.dump_size sp == 0) ≡ false
unfolding Superinfo.dump_size ℕ_discrete
size_104 = refl

refusing_set : (bs : Bytes) → local_api.set_content refusing (unparse sp.uuid) bs ≡ (refusing, none)
unfolding set_content
refusing_set bs = refl

save_metadata-refused_example :
    save_metadata local_host plain_cipher (5 ∷ []) superinfo_codec sp refusing ≡ (refusing, true)
unfolding Superinfo.dump_size
save_metadata-refused_example =
    save_metadata-refused local_host plain_cipher (5 ∷ []) superinfo_codec sp refusing
      (Superinfo.fields sp) (Superinfo.fields sp ++ replicate 16 0) (replicate 16 7) size_104
      refused_dump refused_cipher refl refusing_set
