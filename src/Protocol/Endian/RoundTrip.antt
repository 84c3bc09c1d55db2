-- ===== src/Protocol/Endian/RoundTrip.antt =====
-- A stored integer loads as itself, in front of any bytes that follow.
use network_engine_portfolio.Prelude.{ℕ, ◌^◌, ◌<◌, ◌≡◌, List, ◌++◌, arith, ◌∙◌}
use network_engine_portfolio.Protocol.Endian.{
  octet, store_u16_be, store_u32_be, store_u64_be, load_u16_be, load_u32_be, load_u64_be,
  load_u16-sum, load_u32-sum, load_u64-sum,
}

pub load-store_u16 : (v : ℕ) (rest : List ℕ) → v < 2 ^ 16 → load_u16_be (store_u16_be v ++ rest) ≡ v
unfolding store_u16_be
load-store_u16 v rest h =
    load_u16-sum (octet v 8) (octet v 0) rest (omega arith) (omega arith) ∙ omega arith

pub load-store_u32 : (v : ℕ) (rest : List ℕ) → v < 2 ^ 32 → load_u32_be (store_u32_be v ++ rest) ≡ v
unfolding store_u32_be
load-store_u32 v rest h =
    load_u32-sum (octet v 24) (octet v 16) (octet v 8) (octet v 0) rest (omega arith) (omega arith)
      (omega arith) (omega arith)
    ∙ omega arith

-- A number of 64 bits stored in network byte order is loaded again, whatever bytes stand behind
-- it.
pub load-store_u64 : (v : ℕ) (rest : List ℕ) → v < 2 ^ 64 → load_u64_be (store_u64_be v ++ rest) ≡ v
unfolding store_u64_be
load-store_u64 v rest h =
    load_u64-sum (octet v 56) (octet v 48) (octet v 40) (octet v 32) (octet v 24) (octet v 16)
      (octet v 8) (octet v 0) rest (omega arith) (omega arith) (omega arith) (omega arith)
      (omega arith) (omega arith) (omega arith) (omega arith)
    ∙ omega arith
