-- ===== src/App/Packet.antt =====
-- runtime/extensions/app/include/hyperapp/protocol: PacketReader.hpp and PacketWriter.hpp. A writer
-- is the bytes of `buf_`; a reader that answers false changes nothing, which is `none` here.
pub mod RoundTrip
pub mod Agree
use network_engine_portfolio.Prelude.{
  ℕ, ◌+◌, ◌-◌, Bool, Option, none, some, List, [], ◌∷◌, ◌++◌, length, take, drop, get_or, ltb, leb,
  ◌==◌, if◌then◌else◌,
}
use network_engine_portfolio.Protocol.Endian.{
  store_u16_be, store_u32_be, store_u64_be, load_u16_be, load_u32_be, load_u64_be,
}

pub record PacketReader : Type 0 where
  pub bytes : List ℕ
  pub pos : ℕ

-- A reader of a view: `none` stands for one without data.
unfoldable pub reset : Option (List ℕ) → PacketReader
reset none = record { bytes = []; pos = 0 }
reset (some view) = record { bytes = view; pos = 0 }

unfoldable pub remaining : PacketReader → ℕ
remaining r = if leb r.pos (length r.bytes) then length r.bytes - r.pos else 0

unfoldable pub eof : PacketReader → Bool
eof r = r.pos == length r.bytes

unfoldable pub skip : ℕ → PacketReader → Option PacketReader
skip n r = if ltb (remaining r) n then none else some (record r { pos = r.pos + n })

-- The next `n` bytes, read by `load`, and the reader behind them.
unfoldable pub fetch : {A : Type 0} → ℕ → (List ℕ → A) → PacketReader → Option (A × PacketReader)
fetch n load r =
    if ltb (remaining r) n
    then none
    else some (load (take n (drop r.pos r.bytes)), record r { pos = r.pos + n })

unfoldable pub read_u8 : PacketReader → Option (ℕ × PacketReader)
read_u8 = fetch 1 (λ bytes. get_or bytes 0 0)

unfoldable pub read_u16_be : PacketReader → Option (ℕ × PacketReader)
read_u16_be = fetch 2 load_u16_be

unfoldable pub read_u32_be : PacketReader → Option (ℕ × PacketReader)
read_u32_be = fetch 4 load_u32_be

unfoldable pub read_u64_be : PacketReader → Option (ℕ × PacketReader)
read_u64_be = fetch 8 load_u64_be

unfoldable pub read_bytes : ℕ → PacketReader → Option (List ℕ × PacketReader)
read_bytes n = fetch n (λ bytes. bytes)

-- A failed read of the bytes leaves the reader behind the length, which is `some (none, r)`.
unfoldable pub read_string_u16 : PacketReader → Option (Option (List ℕ) × PacketReader)
read_string_u16 r = elim (read_u16_be r) [
  | none ↦ none
  | some (len, r') ↦ elim (read_bytes len r') [
    | none ↦ some (none, r')
    | some (bytes, r'') ↦ some (some bytes, r'')
  ]
]

unfoldable pub write_u8 : ℕ → List ℕ → List ℕ
write_u8 v buf = buf ++ v ∷ []

unfoldable pub write_u16_be : ℕ → List ℕ → List ℕ
write_u16_be v buf = buf ++ store_u16_be v

unfoldable pub write_u32_be : ℕ → List ℕ → List ℕ
write_u32_be v buf = buf ++ store_u32_be v

unfoldable pub write_u64_be : ℕ → List ℕ → List ℕ
write_u64_be v buf = buf ++ store_u64_be v

unfoldable pub write_bytes : List ℕ → List ℕ → List ℕ
write_bytes bytes buf = if length bytes == 0 then buf else buf ++ bytes

unfoldable pub truncate : List ℕ → List ℕ
truncate s = if ltb 65535 (length s) then take 65535 s else s

unfoldable pub write_string_u16 : List ℕ → List ℕ → List ℕ
write_string_u16 s buf = write_bytes (truncate s) (write_u16_be (length (truncate s)) buf)

unfoldable pub write_string_u16_checked : List ℕ → ℕ → List ℕ → Option (List ℕ)
write_string_u16_checked s max_len buf =
    if ltb max_len (length s)
    then none
    else if ltb 65535 (length s)
    then none
    else some (write_bytes s (write_u16_be (length s) buf))
