-- ===== src/Volume/Stored.antt =====
-- The objects of a new volume in the storage.
use sgx_secfs.Base.{◌≡◌, refl, ◌∙◌, ◌≢◌, Bool, true, some, [], Bytes, arith, nat_eq, subst}
use sgx_secfs.Uuid.{Uuid, IsUuid, unparse}
use sgx_secfs.Uuid.Unparse.{unparse-injective}
use sgx_secfs.Metadata.Codec.{Codec}
use sgx_secfs.Metadata.Codecs.{
  superinfo_codec, dirnode_codec, usertable_codec, superinfo-Reads, dirnode-Reads, usertable-Reads,
}
use sgx_secfs.Metadata.Ecp.{Ecp, Keypair}
use sgx_secfs.Metadata.Dirnode.RoundTrip.{IsDirnode}
use sgx_secfs.Metadata.Usertable.{Userinfo, new_userinfo, set_pubkey}
use sgx_secfs.Metadata.Usertable.RoundTrip.{IsUser}
use sgx_secfs.Storage.Saved
use sgx_secfs.Storage.Saved.{Loaded}
use sgx_secfs.Storage.Saved.RoundTrip.{load_metadata-save_metadata}
use sgx_secfs.Storage.Saved.Frame.{load_metadata-other, save_metadata-takes}
use sgx_secfs.Enclave.{Env}
use sgx_secfs.Enclave.Inode.{new_dirnode}
use sgx_secfs.Volume.{new_superinfo, volume_superinfo, volume_root, volume_users}
use sgx_secfs.Volume.Laws.{IsEnv}

volume_root-IsDirnode : (rt : Uuid) → IsDirnode (volume_root rt)
volume_root-IsDirnode rt = record {
  name = record { short = omega arith; chars = tt };
  ino = omega arith;
  small = omega arith;
  whole = tt;
}

-- What is loaded for an object after the save of one with another UUID.
load_metadata-kept :
    {env : Env} {Takes : env.host.api.State → Bytes → Type 0} {A B : Type 0} (m : Codec A)
    (o : Codec B) (volkey : Bytes) (t : A) (b : B) (s s' : env.host.api.State)
    → IsEnv env Takes
    → IsUuid (m.uuid t)
    → IsUuid (o.uuid b)
    → m.uuid t ≢ o.uuid b
    → Saved.save_metadata env.host env.cipher volkey o b s ≡ (s', true)
    → Saved.load_metadata env.host env.cipher volkey m t s'
      ≡ Saved.load_metadata env.host env.cipher volkey m t s
load_metadata-kept {env = env} m o volkey t b s s' ok tu bu ne e =
    subst
      (λ (r : env.host.api.State × Bool).
        Saved.load_metadata env.host env.cipher volkey m t r.0
        ≡ Saved.load_metadata env.host env.cipher volkey m t s)
      e
      (load_metadata-other env.host ok.storage env.cipher volkey m o t b s ok.up
        (λ same. ne (unparse-injective (m.uuid t) (o.uuid b) tu bu same)))

-- A save leaves the files that the storage takes.
Takes-saved :
    {env : Env} {Takes : env.host.api.State → Bytes → Type 0} {B : Type 0} (o : Codec B)
    (volkey : Bytes) (b : B) (s s' : env.host.api.State) (n : Bytes) (ok : IsEnv env Takes)
    → Saved.save_metadata env.host env.cipher volkey o b s ≡ (s', true)
    → Takes s n
    → Takes s' n
Takes-saved {env = env} {Takes = Takes} o volkey b s s' n ok e v =
    subst (λ (r : env.host.api.State × Bool). Takes r.0 n) e
      (save_metadata-takes env.host ok.storage env.cipher volkey o o b s n v)

module _ {env : Env} {Takes : env.host.api.State → Bytes → Type 0} (ok : IsEnv env Takes)
    (sp ut rt volkey : Bytes) where
  -- The storage after the three saves of a new volume, of which every one succeeded.
  pub record Saves (owner : Userinfo env.ecp) (s0 s1 s2 s3 : env.host.api.State) : Type 0 where
    pub users :
        Saved.save_metadata env.host env.cipher volkey
          (usertable_codec env.ecp)
          (volume_users env ut owner)
          s0
        ≡ (s1, true)
    pub root :
        Saved.save_metadata env.host env.cipher volkey dirnode_codec (volume_root rt) s1
        ≡ (s2, true)
    pub superinfo :
        Saved.save_metadata env.host env.cipher volkey superinfo_codec
          (volume_superinfo (env.host.heap 32) sp ut rt)
          s2
        ≡ (s3, true)

  module _ (sp_ok : IsUuid sp) (ut_ok : IsUuid ut) (rt_ok : IsUuid rt) (ut_rt : ut ≢ rt)
      (ut_sp : ut ≢ sp) (rt_sp : rt ≢ sp) (owner : Userinfo env.ecp)
      (s0 s1 s2 s3 : env.host.api.State) (saves : Saves owner s0 s1 s2 s3) where
    pub loads_superinfo :
        Takes s0 (unparse sp)
        → Saved.load_metadata env.host env.cipher volkey superinfo_codec
            (new_superinfo (env.host.heap 32) sp)
            s3
          ≡ Loaded.loaded (volume_superinfo (env.host.heap 32) sp ut rt)
    loads_superinfo k =
        load_metadata-save_metadata env.host env.cipher volkey superinfo_codec
          (volume_superinfo (env.host.heap 32) sp ut rt) (new_superinfo (env.host.heap 32) sp) _ s2
          s3 ok.gcm ok.storage ok.host
          (superinfo-Reads (volume_superinfo (env.host.heap 32) sp ut rt)
            (new_superinfo (env.host.heap 32) sp)
            (record {
              root = rt_ok.long;
              users = ut_ok.long;
              hash_root = ok.host.length-heap 32;
              hash_users = ok.host.length-heap 32;
              ino = omega arith;
            }))
          refl
          (Takes-saved dirnode_codec volkey (volume_root rt) s1 s2 (unparse sp) ok saves.root (
            Takes-saved (usertable_codec env.ecp) volkey (volume_users env ut owner) s0 s1
              (unparse sp) ok saves.users k))
          (ok.up s3 (unparse sp)) saves.superinfo

    pub loads_root :
        Takes s0 (unparse rt)
        → Saved.load_metadata env.host env.cipher volkey dirnode_codec (new_dirnode rt) s3
          ≡ Loaded.loaded (volume_root rt)
    loads_root k =
        load_metadata-kept dirnode_codec superinfo_codec volkey (new_dirnode rt)
          (volume_superinfo (env.host.heap 32) sp ut rt) s2 s3 ok rt_ok sp_ok rt_sp saves.superinfo
        ∙ load_metadata-save_metadata env.host env.cipher volkey dirnode_codec (volume_root rt)
            (new_dirnode rt) _ s1 s2 ok.gcm ok.storage ok.host
            (dirnode-Reads (volume_root rt) (new_dirnode rt) (volume_root-IsDirnode rt)) refl
            (Takes-saved (usertable_codec env.ecp) volkey (volume_users env ut owner) s0 s1
              (unparse rt) ok saves.users k)
            (ok.up s2 (unparse rt)) saves.root

    pub loads_users :
        IsUser env.ecp 1 owner
        → Takes s0 (unparse ut)
        → Saved.load_metadata env.host env.cipher volkey
            (usertable_codec env.ecp)
            (record { uuid = ut; usermap = [] })
            s3
          ≡ Loaded.loaded (volume_users env ut owner)
    loads_users v k =
        load_metadata-kept (usertable_codec env.ecp) superinfo_codec volkey
          (record { uuid = ut; usermap = [] }) (volume_superinfo (env.host.heap 32) sp ut rt) s2 s3
          ok ut_ok sp_ok ut_sp saves.superinfo
        ∙ load_metadata-kept (usertable_codec env.ecp) dirnode_codec volkey
            (record { uuid = ut; usermap = [] }) (volume_root rt) s1 s2 ok ut_ok rt_ok ut_rt
            saves.root
        ∙ load_metadata-save_metadata env.host env.cipher volkey (usertable_codec env.ecp)
            (volume_users env ut owner) (record { uuid = ut; usermap = [] }) _ s0 s1 ok.gcm
            ok.storage ok.host
            (usertable-Reads env.ecp 1 owner (volume_users env ut owner) ut ok.ecp v refl) refl k
            (ok.up s1 (unparse ut)) saves.users

-- The owner that `ecall_create_volume` sets is a user whose key is written and accepted.
pub set_pubkey-IsUser :
    (e : Ecp) (u owner : Userinfo e) (key : Keypair e) (q : e.Point) (bs : Bytes)
    → new_userinfo e ≡ some u
    → set_pubkey e (record u { is_owner = true }) key ≡ some owner
    → e.copy key.q ≡ some q
    → e.point_write_binary q ≡ some bs
    → IsUser e 1 owner
unfolding new_userinfo set_pubkey
set_pubkey-IsUser e u owner key q bs n o c w = record {
  small = omega arith;
  loads = ground arith;
  checks = ground arith;
  key = bs;
  writes = ground arith;
}
