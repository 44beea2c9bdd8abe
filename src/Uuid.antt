-- ===== src/Uuid.antt =====
-- enclave/uuid.hpp and enclave/uuid.cpp: a UUID is its 16 bytes, its text the codes of the
-- characters that `snprintf` writes. `operator==` is `==` on the bytes, by `memcmp`. The random
-- bytes of `gen_rand` come from the SGX SDK and are drawn where an ECALL needs them.
pub mod Unparse
use sgx_secfs.Base.{
  ℕ, ◌+◌, ◌/◌, ◌%◌, ◌^◌, ◌<◌, ◌≡◌, List, [], ◌∷◌, ◌++◌, Bytes, length, take, drop, replicate, All,
  ltb, le_value, if◌then◌else◌,
}

abbrev pub Uuid : Type 0
Uuid = Bytes

pub record IsUuid (u : Uuid) : Type 0 where
  pub long : length u ≡ 16
  pub bytes : All (λ b. b < 256) u

-- `UUID::UUID()`
abbrev pub null_uuid : Uuid
null_uuid = replicate 16 0

-- One digit of `%02x`.
unfoldable pub hex_digit : ℕ → ℕ
hex_digit d = if ltb d 10 then d + 48 else d + 87

unfoldable pub hex : Bytes → Bytes
unfolding hex_digit
hex [] = []
hex (b ∷ bs) = hex_digit (b / 16) ∷ hex_digit (b % 16) ∷ hex bs

unfoldable pub unparse : Uuid → Bytes
unfolding hex
unparse u =
    hex (take 4 u)
    ++ (b'-' ∷ hex (take 2 (drop 4 u))
        ++ (b'-' ∷ hex (take 2 (drop 6 u))
            ++ (b'-' ∷ hex (take 2 (drop 8 u)) ++ (b'-' ∷ hex (take 6 (drop 10 u))))))

-- `std::hash<UUID>`: the two halves as `size_t`, added.
unfoldable pub hash : Uuid → ℕ
unfolding le_value
hash u = (le_value (take 8 u) + le_value (take 8 (drop 8 u))) % 2 ^ 64
