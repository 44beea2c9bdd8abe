-- ===== src/Metadata/Dirnode.antt =====
-- enclave/dirnode.hpp and enclave/dirnode.cpp. `sizeof(dirent_t)` is 288: 256 bytes of name, the
-- UUID, the inode number, the type and four bytes of padding; `dirnode_buffer_t` begins with 272
-- bytes.
pub mod RoundTrip
use sgx_secfs.Base.{
  ℕ, zero, suc, ◌+◌, ◌*◌, ◌%◌, ◌^◌, Option, none, some, List, [], ◌∷◌, ◌++◌, Bytes, length, take,
  drop, le_bytes, ltb, ◌==◌, nat_eq, if◌then◌else◌,
}
use sgx_secfs.Uuid.{Uuid}
use sgx_secfs.Metadata.Layout.{size_mod, word, text_field, c_string}

-- `dirent_type_t` of include/bridge.hpp
abbrev pub t_dt_dir : ℕ
t_dt_dir = 0o4

abbrev pub t_dt_reg : ℕ
t_dt_reg = 0o10

abbrev pub t_dt_lnk : ℕ
t_dt_lnk = 0o12

-- `MAX_PATH_LEN`
abbrev pub max_path_len : ℕ
max_path_len = 256

pub record Dirent : Type 0 where
  pub ino : ℕ
  pub name : Bytes
  pub kind : ℕ
  pub uuid : Uuid

pub record Dirnode : Type 0 where
  pub uuid : Uuid
  pub ino : ℕ
  pub refcount : ℕ
  pub name : Bytes
  pub dirent : List Dirent

abbrev pub header_size : ℕ
header_size = 272

abbrev pub entry_size : ℕ
entry_size = 288

-- `Dirent::Dirent(const dirent_t*)`: the name is read as a C string, up to the first zero.
unfoldable pub load_dirent : Bytes → Dirent
load_dirent buf =
    let b1 = drop max_path_len buf in
    let b2 = drop 16 b1 in
    let b3 = drop 8 b2 in
    record { ino = word 8 b2; name = c_string buf; kind = word 4 b3; uuid = take 16 b1 }

-- `Dirent::dump` into a slot of 288 bytes, whose padding stays. The copy may fill the whole field.
unfoldable pub dump_dirent : Dirent → Bytes → Bytes
dump_dirent d slot =
    text_field max_path_len d.name
    ++ (d.uuid ++ (le_bytes 8 d.ino ++ (le_bytes 4 d.kind ++ take 4 (drop 284 slot))))

unfoldable pub load_entries : ℕ → Bytes → List Dirent
unfolding load_dirent
load_entries zero buf = []
load_entries (suc n) buf = load_dirent buf ∷ load_entries n (drop 288 buf)

unfoldable pub dump_entries : List Dirent → Bytes → Bytes
unfolding dump_dirent
dump_entries [] buf = []
dump_entries (d ∷ ds) buf = dump_dirent d buf ++ dump_entries ds (drop 288 buf)

unfoldable pub load : Dirnode → Bytes → ℕ → Option Dirnode
unfolding load_entries
load d buf bsize =
    let b1 = drop 8 buf in
    let b2 = drop max_path_len b1 in
    let b3 = drop 8 b2 in
    let entnum = word 8 b2 in
    if bsize == (header_size + entry_size * entnum) % size_mod
    then some (record d { name = c_string b1; dirent = load_entries entnum b3; ino = word 8 buf })
    else none

unfoldable pub dump_size : Dirnode → ℕ
dump_size d = (header_size + entry_size * length d.dirent) % size_mod

-- `name.copy(obuf->name, sizeof(obuf->name) - 1)` into a cleared field
unfoldable pub fields : Dirnode → Bytes → Bytes
unfolding dump_entries
fields d buf =
    le_bytes 8 d.ino
    ++ (text_field max_path_len (take 255 d.name)
        ++ (le_bytes 8 (length d.dirent) ++ dump_entries d.dirent (drop 272 buf)))

unfoldable pub dump : Dirnode → Bytes → ℕ → Option Bytes
unfolding dump_size fields
dump d buf bsize =
    if ltb bsize (dump_size d) then none else some (fields d buf ++ drop (dump_size d) buf)

-- Two links, and one more for each directory in it.
unfoldable pub count_links : List Dirent → ℕ → ℕ
count_links [] cnt = cnt
count_links (d ∷ ds) cnt = count_links ds (if d.kind == t_dt_dir then cnt + 1 else cnt)

unfoldable pub nlink : Dirnode → ℕ
unfolding count_links
nlink d = count_links d.dirent 2
