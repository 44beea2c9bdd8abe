-- ===== src/Metadata/Codecs.antt =====
-- The four classes as instances of `Metadata`.
use mathlib.Core.List.{append-nil}
use sgx_secfs.Base.{ℕ, ◌≡◌, sym, ◌∙◌, [], ◌∷◌, arith, ltb_self, drop_all}
use sgx_secfs.Uuid.{Uuid}
use sgx_secfs.Metadata.Codec.{Codec, Reads}
use sgx_secfs.Metadata.Ecp.{Ecp, IsEcp}
use sgx_secfs.Metadata.Superinfo
use sgx_secfs.Metadata.Superinfo.{Superinfo, IsSuperinfo}
use sgx_secfs.Metadata.Filenode
use sgx_secfs.Metadata.Filenode.{Filenode}
use sgx_secfs.Metadata.Filenode.RoundTrip as FileTrip
use sgx_secfs.Metadata.Filenode.RoundTrip.{IsFilenode}
use sgx_secfs.Metadata.Dirnode
use sgx_secfs.Metadata.Dirnode.{Dirnode}
use sgx_secfs.Metadata.Dirnode.RoundTrip as DirTrip
use sgx_secfs.Metadata.Dirnode.RoundTrip.{IsDirnode}
use sgx_secfs.Metadata.Usertable
use sgx_secfs.Metadata.Usertable.{Usertable, Userinfo}
use sgx_secfs.Metadata.Usertable.RoundTrip as UserTrip
use sgx_secfs.Metadata.Usertable.RoundTrip.{IsUser}

abbrev pub superinfo_codec : Codec Superinfo
superinfo_codec = record {
  uuid = λ s. s.uuid;
  load = Superinfo.load;
  dump_size = Superinfo.dump_size;
  dump = Superinfo.dump;
}

abbrev pub filenode_codec : Codec Filenode
filenode_codec = record {
  uuid = λ f. f.uuid;
  load = Filenode.load;
  dump_size = Filenode.dump_size;
  dump = Filenode.dump;
}

abbrev pub dirnode_codec : Codec Dirnode
dirnode_codec = record {
  uuid = λ d. d.uuid;
  load = Dirnode.load;
  dump_size = Dirnode.dump_size;
  dump = Dirnode.dump;
}

abbrev pub usertable_codec : (e : Ecp) → Codec (Usertable e)
usertable_codec e = record {
  uuid = λ t. t.uuid;
  load = Usertable.load e;
  dump_size = Usertable.dump_size e;
  dump = Usertable.dump e;
}

-- A superinfo whose parts have their sizes is written to as many bytes as its size says, and is read
-- back from them into any object.
pub superinfo-Reads :
    (s t : Superinfo) → IsSuperinfo s → Reads superinfo_codec s t (record s { uuid = t.uuid })
unfolding Superinfo.dump Superinfo.dump_size
superinfo-Reads s t v = record {
  positive = omega arith;
  writes = λ buf h. (
    Superinfo.fields s,
    rw (drop_all 104 buf h, append-nil (Superinfo.fields s)),
    Superinfo.length-fields s v,
    λ behind. Superinfo.load-fields s t behind v,
  );
}

-- A file node whose chunks cover its size and whose numbers fit their fields is written to as many
-- bytes as its size says, and is read back from them, with the identity and the reference count of
-- the object that it is read into.
pub filenode-Reads :
    (f t : Filenode)
    → IsFilenode f
    → Reads filenode_codec f t (record f { uuid = t.uuid; refcount = t.refcount })
unfolding Filenode.dump
filenode-Reads f t v = record {
  positive = FileTrip.dump_size-pos f v;
  writes = λ buf h. (
    Filenode.fields f,
    rw (drop_all (Filenode.dump_size f) buf h, append-nil (Filenode.fields f), ltb_self),
    FileTrip.length-fields f v,
    λ behind. FileTrip.load-fields f t behind v,
  );
}

-- A directory node whose names leave room for their terminator and whose numbers fit their fields is
-- written to as many bytes as its size says, and is read back from them, with the identity and the
-- reference count of the object that it is read into.
pub dirnode-Reads :
    (d t : Dirnode)
    → IsDirnode d
    → Reads dirnode_codec d t (record d { uuid = t.uuid; refcount = t.refcount })
unfolding Dirnode.dump
dirnode-Reads d t v = record {
  positive = DirTrip.dump_size-pos d v;
  writes = λ buf h. (
    Dirnode.fields d buf,
    rw (drop_all (Dirnode.dump_size d) buf h, append-nil (Dirnode.fields d buf), ltb_self),
    DirTrip.length-fields d buf v (omega (arith, h)),
    λ behind. DirTrip.load-fields d t buf behind v (omega (arith, h)),
  );
}

-- With a curve that does what mbedtls documents, a user table of one user, whose key is written and
-- accepted, is written to as many bytes as its size says, and is read back from them into a new
-- object.
pub usertable-Reads :
    (e : Ecp) (uid : ℕ) (u : Userinfo e) (t : Usertable e) (fresh : Uuid)
    → IsEcp e
    → IsUser e uid u
    → t.usermap ≡ (uid, u) ∷ []
    → Reads
        (usertable_codec e)
        t
        (record { uuid = fresh; usermap = [] })
        (record t { uuid = fresh })
unfolding Usertable.dump
usertable-Reads e uid u t fresh laws v o =
    let size = UserTrip.dump_size_one e laws uid u v t o in
    record {
      positive = omega (arith, size);
      writes = λ buf h. (
        Usertable.fields e t buf,
        rw (ltb_self (Usertable.dump_size e t)),
        UserTrip.length-fields e laws uid u v t buf o (omega (arith, size, h)) ∙ sym size,
        λ behind.
            rw size
              (UserTrip.load-fields e laws uid u v t fresh buf behind o (omega (arith, size, h))),
      );
    }
