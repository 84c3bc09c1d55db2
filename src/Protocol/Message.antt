-- ===== src/Protocol/Message.antt =====
-- The packet layout: MessageHeader of engine/include/hypernet/protocol/Dispatcher.hpp, and the split
-- of a payload in OpcodeU16.hpp.
pub mod RoundTrip
use network_engine_portfolio.Prelude.{
  ℕ, ◌+◌, ◌%◌, ◌^◌, Option, none, some, List, [], ◌++◌, length, drop, ltb, if◌then◌else◌, add64,
}
use network_engine_portfolio.Protocol.Endian.{store_u32_be, store_u16_be, load_u16_be}

pub record MessageHeader : Type 0 where
  pub payload_len : ℕ
  pub opcode : ℕ

unfoldable pub encode_len : MessageHeader → List ℕ
encode_len h = store_u32_be h.payload_len

unfoldable pub encode_opcode : MessageHeader → List ℕ
encode_opcode h = store_u16_be h.opcode

abbrev pub opcode_field_bytes : ℕ
opcode_field_bytes = 2

abbrev pub max_payload_len_u64 : ℕ
max_payload_len_u64 = 0xffff_ffff

unfoldable pub payload_len_for_body : ℕ → ℕ
payload_len_for_body body_len = add64 opcode_field_bytes body_len

-- The two headers and the body, in the order in which they go out.
unfoldable pub packet_bytes : ℕ → List ℕ → List ℕ
packet_bytes opcode body =
    let h : MessageHeader = record {
      payload_len = payload_len_for_body (length body) % 2 ^ 32;
      opcode = opcode;
    } in
    encode_len h ++ (encode_opcode h ++ body)

-- The opcode and the body of a payload, `none` where the function returns false. The list is what
-- the view shows; an empty view is the only one with a null pointer.
unfoldable pub split_opcode_u16_be : List ℕ → Option (ℕ × List ℕ)
split_opcode_u16_be msg = if ltb (length msg) 2 then none else some (load_u16_be msg, drop 2 msg)
