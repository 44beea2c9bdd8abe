-- ===== src/Metadata/Ecp.antt =====
-- The elliptic-curve calls of mbedtls that enclave/usertable.cpp makes, which the repository does
-- not contain: a parameter.
use sgx_secfs.Base.{ℕ, ◌≤◌, ◌≡◌, Bool, Option, some, Bytes, length}

pub record Ecp : Type 1 where
  pub Point : Type 0
  -- The point of a new key pair.
  pub no_point : Point
  -- `mbedtls_ecp_group_load` of the curve succeeds.
  pub group_loads : Bool
  -- The group of the user table's keys, `MBEDTLS_ECP_DP_SECP384R1`.
  pub grp_id : ℕ
  pub point_read_binary : Bytes → Option Point
  pub point_write_binary : Point → Option Bytes
  pub check_pubkey : Point → Bool
  -- `mbedtls_ecp_copy`
  pub copy : Point → Option Point

-- An `mbedtls_ecp_keypair` as `set_pubkey` reads it.
pub record Keypair (e : Ecp) : Type 0 where
  pub grp : ℕ
  pub q : e.Point

-- What mbedtls documents: a point is read back from the bytes that it is written to, of which there
-- are 97 for an uncompressed point of this curve, and a copy is the same point.
pub record IsEcp (e : Ecp) : Type 0 where
  pub read-write :
      (p : e.Point) {bs : Bytes}
      → e.point_write_binary p ≡ some bs
      → e.point_read_binary bs ≡ some p
  pub write-le : (p : e.Point) {bs : Bytes} → e.point_write_binary p ≡ some bs → length bs ≤ 256
  pub copy-same : (p : e.Point) {q : e.Point} → e.copy p ≡ some q → q ≡ p
