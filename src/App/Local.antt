-- ===== src/App/Local.antt =====
-- The local backend (app/backend/local.cpp) behind a volume of the host.
use sgx_secfs.Base.{Bytes, ◌==◌, bytes_eq, if◌then◌else◌, arith}
use sgx_secfs.Storage.Local.{LocalStorage, local_api, init}
use sgx_secfs.App.{Backend, IsBackend}

-- The disk has a directory at each path.
abbrev pub local_backend : Backend local_api
local_backend = record {
  Disk = Bytes → LocalStorage;
  open_at = λ disk path. disk path;
  init = init;
  store = λ disk path s. λ other. if other == path then s else disk other;
}

pub local_backend-IsBackend : IsBackend local_backend
local_backend-IsBackend = record { open_at-store = λ disk path s. ground arith }
