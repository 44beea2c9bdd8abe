-- ===== src/Volume/Creation.antt =====
-- A run of `ecall_create_volume` that succeeds.
use sgx_secfs.Base.{ℕ, ◌≡◌, ◌≤◌, ◌+◌, true, some, Bytes, arith, nat_eq, Option-cases, inl, inr}
use sgx_secfs.Uuid.{Uuid, IsUuid}
use sgx_secfs.Metadata.Codecs.{dirnode_codec, usertable_codec}
use sgx_secfs.Metadata.Ecp.{Keypair}
use sgx_secfs.Metadata.Usertable.{Userinfo, new_userinfo, set_pubkey}
use sgx_secfs.Enclave.{Env, Enclave, save_metadata, gen_rand}
use sgx_secfs.Volume.{
  volkey_aad, volkeysize, volume_root, volume_users, new_volkey, ecall_calc_volkey_size,
  save_volume, ecall_create_volume,
}
use sgx_secfs.Volume.Laws.{IsEnv}
use sgx_secfs.Volume.Stored.{Saves}

-- The UUIDs that `ecall_create_volume` draws.
abbrev pub drawn_uuid : (env : Env) → Enclave env → ℕ → Uuid
drawn_uuid env s k = env.sgx.read_rand (s.drawn + k) 16

abbrev pub drawn_key : (env : Env) → Enclave env → Bytes
drawn_key env s = env.sgx.read_rand (s.drawn + 3) volkeysize

pub drawn_uuid-IsUuid :
    {env : Env} {Takes : env.host.api.State → Bytes → Type 0} (s : Enclave env) (k : ℕ)
    → IsEnv env Takes
    → IsUuid (drawn_uuid env s k)
drawn_uuid-IsUuid s k ok = record {
  long = (ok.sgx.random (s.drawn + k) 16).0;
  bytes = (ok.sgx.random (s.drawn + k) 16).1;
}

-- What a successful `ecall_create_volume` did.
pub record Creates {env : Env} {Takes : env.host.api.State → Bytes → Type 0} (ok : IsEnv env Takes)
    (pubkey : Keypair env.ecp) (volkey_size : ℕ) (s s' : Enclave env) (u : Uuid) (sealed : Bytes)
    : Type 0 where
  pub superuser : Userinfo env.ecp
  pub owner : Userinfo env.ecp
  pub made : new_userinfo env.ecp ≡ some superuser
  pub set : set_pubkey env.ecp (record superuser { is_owner = true }) pubkey ≡ some owner
  pub room : ecall_calc_volkey_size env ≤ volkey_size
  pub seals : env.sgx.seal_data volkey_aad (drawn_key env s) volkey_size ≡ some sealed
  pub key : s'.volkey ≡ drawn_key env s
  pub same : u ≡ drawn_uuid env s 0
  pub s1 : env.host.api.State
  pub s2 : env.host.api.State
  pub saves :
      Saves ok
        (drawn_uuid env s 0)
        (drawn_uuid env s 1)
        (drawn_uuid env s 2)
        (drawn_key env s)
        owner
        s.storage
        s1
        s2
        s'.storage

module _ {env : Env} {Takes : env.host.api.State → Bytes → Type 0} (ok : IsEnv env Takes)
    (pubkey : Keypair env.ecp) (volkey_size : ℕ) (s s' : Enclave env) (u : Uuid)
    (sealed : Bytes) where
  saved_volume :
      (sp ut rt : Uuid) (owner : Userinfo env.ecp) (t : Enclave env) (b : Bytes)
      → save_volume env sp ut rt owner b t
        ≡ (s', record { err = 0; sp_uuid = some u; sealed_volkey = some sealed })
      → (u ≡ sp)
        × (b ≡ sealed)
        × (s'.volkey ≡ t.volkey)
        × (s1 : env.host.api.State) × (s2 : env.host.api.State) × Saves ok sp ut rt t.volkey owner
            t.storage s1 s2 s'.storage
  unfolding save_metadata
  saved_volume sp ut rt owner t b e =
      let s1 = (save_metadata env (usertable_codec env.ecp) (volume_users env ut owner) t).0 in
      let s2 = (save_metadata env dirnode_codec (volume_root rt) s1).0 in
      (
        ground arith,
        ground arith,
        ground arith,
        s1.storage,
        s2.storage,
        record { users = ground arith; root = ground arith; superinfo = ground arith },
      )

  pub ecall_create_volume-Creates :
      ecall_create_volume env pubkey volkey_size s
        ≡ some (s', record { err = 0; sp_uuid = some u; sealed_volkey = some sealed })
      → Creates ok pubkey volkey_size s s' u sealed
  unfolding ecall_create_volume new_volkey gen_rand
  ecall_create_volume-Creates e = elim (Option-cases (new_userinfo env.ecp)) [
    | inl n ↦ absurd (ground arith)
    | inr (v, n) ↦ elim (Option-cases (set_pubkey env.ecp (record v { is_owner = true }) pubkey)) [
      | inl o ↦ absurd (ground arith)
      | inr (owner, o) ↦
          elim (Option-cases (env.sgx.seal_data volkey_aad (drawn_key env s) volkey_size)) [
            | inl f ↦ absurd (ground arith)
            | inr (b, f) ↦
                let t = record s { volkey = drawn_key env s; drawn = s.drawn + 4 } in
                let (same, bs, key, s1, s2, saves) =
                  saved_volume (drawn_uuid env s 0) (drawn_uuid env s 1) (drawn_uuid env s 2) owner
                    t b (ground arith) in
                record {
                  superuser = v;
                  owner = owner;
                  made = n;
                  set = o;
                  room = ground arith;
                  seals = ground arith;
                  key = key;
                  same = same;
                  s1 = s1;
                  s2 = s2;
                  saves = saves;
                }
          ]
    ]
  ]
  -- The mount unseals the key of a volume that was created, and goes on to its superinfo.
