-- ===== src/Enclave/Errno.antt =====
-- The error numbers of `<cerrno>` on Linux, which the handlers of enclave/ecall_fs.cpp return.
use sgx_secfs.Base.{ℕ}

abbrev pub enoent : ℕ
enoent = 2

abbrev pub eio : ℕ
eio = 5

abbrev pub eacces : ℕ
eacces = 13

abbrev pub eexist : ℕ
eexist = 17

abbrev pub enotdir : ℕ
enotdir = 20

abbrev pub eisdir : ℕ
eisdir = 21

abbrev pub einval : ℕ
einval = 22

abbrev pub enotempty : ℕ
enotempty = 39

abbrev pub enonet : ℕ
enonet = 64
