-- ===== src/Lib.antt =====
-- sgx-secfs: an encrypted file system in an SGX enclave. The enclave keeps a map of inodes, the
-- superinfo of the mounted volume, the volume key and a cache of file chunks; ECALLs change them,
-- and OCALLs store encrypted files, one for each metadata object and each chunk, in a storage that
-- is not trusted. The names of the files are the texts of UUIDs.
--
-- The parts and their modules:
--   Base: names of the libraries passed on, Boolean tests, byte lists, association lists.
--   Uuid: enclave/uuid.cpp. `unparse` is UUID::unparse, `hash` the std::hash instance.
--   Metadata: enclave/superinfo.cpp, dirnode.cpp, filenode.cpp and usertable.cpp. Each class has a
--     record and the functions `load`, `dump_size` and `dump` (`fields` is the structure that is
--     written); Metadata.Codec is the abstract class, Metadata.Codecs its four instances. The layout
--     of the structures is that of enclave/internal.hpp and include/bridge.hpp on x86-64 Linux.
--   ChunkStore: the class of that name in enclave/volume.cpp, with its list and its map of
--     iterators. ChunkStore.Invariant is about both, ChunkStore.Refinement about the plain list of
--     keyed caches that they stand for, Refinement.Insert about `insert`, and Refinement.History
--     about histories of calls.
--   Storage: Storage.Api and Storage.Local are app/backend, Storage.Host is app/ocall.cpp,
--     Storage.Cipher and Storage.Saved are the first half of enclave/storage.cpp.
--   Enclave: the globals of enclave/volume.cpp as one record, with the storage and the number of
--     random draws; Enclave.Inode are the shared objects of the map of inodes.
--   Directory: the handlers of enclave/ecall_fs.cpp about names and attributes, one function for
--     each ECALL under its own name.
--   File: the second half of enclave/storage.cpp (File.Chunks) and the handlers of
--     enclave/ecall_fs.cpp about contents (File.Read, File.Write, File.Handlers).
--   Volume: enclave/ecall_volume.cpp.
--   Fuse: app/fuse_operations.cpp, one function for each handler under its own name, and the table of
--     them in app/main.cpp (Fuse.Serve). A handler gives the replies that it sends as a list.
--   App: app/volume.cpp (App.Setup), app/cli.cpp (App.Command), app/main.cpp with app/fuse_utils.cpp
--     (App.Session): the configuration, the keys, the enclave and the backend, and the two programs.
--   Reachable: the states that a mount and any requests lead to (Reachable.Sessions), with what each
--     handler keeps: Names, Lookups, Reads, Writes, Mounts over the map in Objects, what holds of each
--     object (Covered, Room) and the chunks in Caches.
--   Live: reads and writes return in every state whose caches belong to files of the map, with a
--     chain of lemmas from the chunks and the caches up to the two handlers.
--   Tests: a concrete cipher, curve, SDK and host, and the theorems at concrete inputs.
--
-- A handler takes the state and gives the new state and its results; `none` is undefined behaviour,
-- a failed assertion or an exception that nothing catches. Numbers of `size_t` are natural numbers
-- with their wrap written out; an offset is taken to be from 0 on. A weak pointer is the number of
-- the object, which is found in the map of inodes while it lives. The loops over chunks run as often
-- as the range is long; the loop that evicts caches runs at most as often as the store has nodes,
-- since each round takes one out.
--
-- Parameters, with what their documentation says as hypotheses: the mbedtls cipher and curve, the
-- SGX SDK, the storage backend where no special one is meant, whether the SGX runtime carries out an
-- ECALL or an OCALL, the content of fresh memory, JSON, base64, the text of a UUID, paths and key
-- files on the host, and libfuse with its kernel. JSON texts are values of an abstract type, and the
-- members of a configuration are those that the code names.
-- No storage is assumed to take every file: a theorem about what is stored says which files the
-- storage takes, and Storage.Local says which ones a directory of the host takes. The number of
-- caches that the store may hold (MAX_CACHE_NUM, which the build may set) is a member of Enclave.Env
-- beside the libraries.
--
-- Not modelled: printing and messages, the locks (each handler runs alone, and requests are served one
-- after another), the destructor of the host's volume, the parsing of the command line, the texts of
-- SGX errors (app/enclave.cpp), and the unused cache of the host (app/cache.cpp).
pub mod App
pub mod Base
pub mod ChunkStore
pub mod Directory
pub mod Enclave
pub mod File
pub mod Fuse
pub mod Metadata
pub mod Live
pub mod Reachable
pub mod Storage
pub mod Tests
pub mod Uuid
pub mod Volume
