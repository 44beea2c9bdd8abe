-- ===== src/Reachable/Names.antt =====
-- The handlers about names and attributes keep the state sound.
use sgx_secfs.Base.{
  ℕ, suc, ◌≡◌, refl, Option, none, some, arith, nat_eq, bytes_eq, Option-cases, ◌>>=◌, Bool, true,
  false, if◌then◌else◌, ◌⊎◌, inl, inr, Bytes, Bool, true, false, if◌then◌else◌,
}
use sgx_secfs.Base.Dict
use sgx_secfs.Uuid.{Uuid}
use sgx_secfs.ChunkStore.Invariant.{IsValid}
use sgx_secfs.Metadata.Codec.{Codec}
use sgx_secfs.Metadata.Codecs.{superinfo_codec, dirnode_codec, filenode_codec}
use sgx_secfs.Metadata.Superinfo.{Superinfo}
use sgx_secfs.Metadata.Dirnode.{Dirnode, Dirent}
use sgx_secfs.Enclave.{Env, Enclave, save_metadata, remove_metadata, gen_rand}
use sgx_secfs.Enclave.Inode.{Inode, Object, dirnode, filenode, as_dirnode, add_ref}
use sgx_secfs.Directory.{
  find_dirent, find_parent, put_object, Found, directory, missing, not_directory,
}
use sgx_secfs.Directory.Create.{
  add_node, make_directory, make_file, ecall_fs_mkdir, ecall_fs_create,
}
use sgx_secfs.Reachable.Objects.{Distinct, insert-new, insert-same}
use sgx_secfs.Reachable.Covered.{Fits, IsCovered, AllOf, insert-AllOf, add_ref-IsCovered}

-- Numbers and objects of the map belong together one to one, new objects are newer, and the list and
-- the map of the chunk store are in step.
pub record IsCoherent {env : Env} (s : Enclave env) : Type 0 where
  pub objects : Distinct s.next_object s.inode_map
  pub caches : IsValid s.local_cache

-- The same, and that `P` holds of every object.
pub record IsSound {env : Env} (P : Object → Type 0) (s : Enclave env) : Type 0 where
  pub objects : Distinct s.next_object s.inode_map
  pub caches : IsValid s.local_cache
  pub each : AllOf P s.inode_map

-- What holds of a result, if there is one.
abbrev pub Holds : {A : Type 0} → (A → Type 0) → Option A → Type 0
Holds P none = Unit
Holds P (some a) = P a

-- A handler keeps the state sound, if it returns.
abbrev pub Keeps : {env : Env} {R : Type 0} → (Object → Type 0) → Option (Enclave env × R) → Type 0
Keeps P m = Holds (λ x. IsSound P x.0) m

pub Holds-bind :
    {A B : Type 0} (P : A → Type 0) (Q : B → Type 0) (m : Option A) (f : A → Option B)
    → Holds P m
    → ((a : A) → P a → Holds Q (f a))
    → Holds Q (m >>= f)
Holds-bind P Q none f h k = tt
Holds-bind P Q (some a) f h k = k a h

pub Holds-if :
    {A : Type 0} (P : A → Type 0) (b : Bool) (x y : Option A)
    → Holds P x
    → Holds P y
    → Holds P (if b then x else y)
Holds-if P true x y h k = h
Holds-if P false x y h k = k

pub Holds-any : {A : Type 0} (m : Option A) → Holds (λ _. Unit) m
Holds-any none = tt
Holds-any (some a) = tt

pub Holds-elim :
    {A B : Type 0} (P : B → Type 0) (o : Option A) (x : Option B) (f : A → Option B)
    → Holds P x
    → ((a : A) → Holds P (f a))
    → Holds P (elim o [ none ↦ x | some a ↦ f a ])
Holds-elim P none x f h k = h
Holds-elim P (some a) x f h k = k a

pub Found-cases :
    (f : Found)
    → (f ≡ missing) ⊎ ((f ≡ not_directory) ⊎ ((id : ℕ) × (d : Dirnode) × (f ≡ directory id d)))
Found-cases missing = inl refl
Found-cases not_directory = inr (inl refl)
Found-cases (directory id d) = inr (inr (id, d, refl))

module _ {env : Env} where
  -- The parent that a handler found.
  pub find_parent-lookup :
      (parent id : ℕ) (d : Dirnode) (s : Enclave env)
      → find_parent parent s ≡ directory id d
      → (w : Object) × (Dict.lookup parent s.inode_map ≡ some w) × (id ≡ w.id)
  unfolding find_parent
  find_parent-lookup parent id d s f = elim (Option-cases (Dict.lookup parent s.inode_map)) [
    | inl e ↦ absurd (ground arith)
    | inr (w, e) ↦ elim (Option-cases (as_dirnode w.inode)) [
      | inl g ↦ absurd (ground arith)
      | inr (d', g) ↦ (w, e, ground arith)
    ]
  ]

module _ {env : Env} {P : Object → Type 0} where
  pub save_metadata-IsSound :
      {A : Type 0} (m : Codec A) (a : A) (s : Enclave env)
      → IsSound P s
      → IsSound P (save_metadata env m a s).0
  unfolding save_metadata
  save_metadata-IsSound m a s v = record { objects = v.objects; caches = v.caches; each = v.each }

  pub remove_metadata-IsSound :
      (u : Uuid) (s : Enclave env) → IsSound P s → IsSound P (remove_metadata env u s).0
  unfolding remove_metadata
  remove_metadata-IsSound u s v = record { objects = v.objects; caches = v.caches; each = v.each }

  pub gen_rand-IsSound : (s : Enclave env) → IsSound P s → IsSound P (gen_rand env s).1
  unfolding gen_rand
  gen_rand-IsSound s v = record { objects = v.objects; caches = v.caches; each = v.each }

  pub put_object-IsSound :
      (k id : ℕ) (i : Inode) (w : Object) (s : Enclave env)
      → IsSound P s
      → Dict.lookup k s.inode_map ≡ some w
      → id ≡ w.id
      → P (record { id = id; inode = i })
      → IsSound P (put_object k id i s)
  unfolding put_object
  put_object-IsSound k id i w s v l e c = record {
    objects =
        insert-same s.next_object k (record { id = id; inode = i }) w s.inode_map v.objects l e;
    caches = v.caches;
    each = insert-AllOf _ k (record { id = id; inode = i }) s.inode_map v.each c;
  }

module _ {env : Env} {Q : Type 0} where
  pub new_object-IsSound :
      (k : ℕ) (i : Inode) (sp : Option Superinfo) (s : Enclave env)
      → IsSound (Fits Q) s
      → (Q → IsCovered i)
      → IsSound (Fits Q) (
          put_object k s.next_object i
            (record s { next_object = suc s.next_object; superinfo = sp }))
  unfolding put_object
  new_object-IsSound k i sp s v c = record {
    objects = insert-new s.next_object k i s.inode_map v.objects;
    caches = v.caches;
    each = insert-AllOf _ k (record { id = s.next_object; inode = i }) s.inode_map v.each c;
  }

  add_node-IsSound :
      {A : Type 0} (m : Codec A) (wrap : A → Inode) (node : A) (entry : Dirent) (parent id : ℕ)
      (d : Dirnode) (sp : Superinfo) (w : Object) (s : Enclave env)
      → IsSound (Fits Q) s
      → Dict.lookup parent s.inode_map ≡ some w
      → id ≡ w.id
      → IsCovered (wrap node)
      → IsSound (Fits Q) (add_node env m wrap node entry parent id d sp s).0
  add_node-IsSound m wrap node entry parent id d sp w s v l e c = save_metadata-IsSound m node _ (
      save_metadata-IsSound superinfo_codec _ _ (
        new_object-IsSound sp.max_ino (add_ref (wrap node)) _ _
          (save_metadata-IsSound dirnode_codec _ _
            (put_object-IsSound parent id _ w s v l e (λ q. tt)))
          (λ q. add_ref-IsCovered (wrap node) c)))

  make_directory-Keeps :
      (name : Bytes) (parent id : ℕ) (d : Dirnode) (sp : Option Superinfo) (w : Object)
      (s : Enclave env)
      → IsSound (Fits Q) s
      → Dict.lookup parent s.inode_map ≡ some w
      → id ≡ w.id
      → Keeps (Fits Q) (make_directory env name parent id d sp (gen_rand env s))
  unfolding gen_rand
  make_directory-Keeps name parent id d none w s v l e = tt
  make_directory-Keeps name parent id d (some sp) w s v l e =
      add_node-IsSound dirnode_codec dirnode _ _ parent id d sp w _ (gen_rand-IsSound s v) l e tt

  make_file-Keeps :
      (name : Bytes) (parent id : ℕ) (d : Dirnode) (sp : Option Superinfo) (w : Object)
      (s : Enclave env)
      → IsSound (Fits Q) s
      → Dict.lookup parent s.inode_map ≡ some w
      → id ≡ w.id
      → Keeps (Fits Q) (make_file env name parent id d sp (gen_rand env s))
  unfolding gen_rand
  make_file-Keeps name parent id d none w s v l e = tt
  make_file-Keeps name parent id d (some sp) w s v l e =
      add_node-IsSound filenode_codec filenode _ _ parent id d sp w _ (gen_rand-IsSound s v) l e
        (omega arith)

  pub ecall_fs_mkdir-Keeps :
      (parent mode : ℕ) (name : Bytes) (s : Enclave env)
      → IsSound (Fits Q) s
      → Keeps (Fits Q) (ecall_fs_mkdir env parent name mode s)
  unfolding ecall_fs_mkdir
  ecall_fs_mkdir-Keeps parent mode name s v = elim (Found-cases (find_parent parent s)) [
    | inl e ↦ rw (e, Holds) v
    | inr (inl e) ↦ rw (e, Holds) v
    | inr (inr (id, d, e)) ↦
        let (w, l, same) = find_parent-lookup parent id d s e in
        elim (Option-cases (find_dirent name d.dirent)) [
          | inl n ↦
              rw (e, Holds, n) (make_directory-Keeps name parent id d s.superinfo w s v l same)
          | inr (x, n) ↦ rw (e, Holds, n) v
        ]
  ]

  pub ecall_fs_create-Keeps :
      (parent mode : ℕ) (name : Bytes) (s : Enclave env)
      → IsSound (Fits Q) s
      → Keeps (Fits Q) (ecall_fs_create env parent name mode s)
  unfolding ecall_fs_create
  ecall_fs_create-Keeps parent mode name s v = elim (Found-cases (find_parent parent s)) [
    | inl e ↦ rw (e, Holds) v
    | inr (inl e) ↦ rw (e, Holds) v
    | inr (inr (id, d, e)) ↦
        let (w, l, same) = find_parent-lookup parent id d s e in
        elim (Option-cases (find_dirent name d.dirent)) [
          | inl n ↦ rw (e, Holds, n) (make_file-Keeps name parent id d s.superinfo w s v l same)
          | inr (x, n) ↦ rw (e, Holds, n) v
        ]
  ]
