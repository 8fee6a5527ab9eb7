-- ===== src/Idns/Address.antt =====
-- The addresses of `std::net`, as numbers of 32 and of 128 bits.
use npm.Common.{ℕ}

pub data IpAddr : Type 0 where
  v4 : ℕ → IpAddr
  v6 : ℕ → IpAddr
