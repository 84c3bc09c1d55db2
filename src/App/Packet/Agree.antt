-- ===== src/App/Packet/Agree.antt =====
-- The two readers of the repository agree where a sum does not wrap.
use network_engine_portfolio.Prelude.{
  ℕ, ◌+◌, ◌-◌, ◌^◌, ◌≤◌, ◌<◌, ◌≡◌, refl, inl, inr, true, false, ltb, leb, Option, none, some, List,
  length, add64, arith, Bool-cases,
}
use network_engine_portfolio.Protocol.Codec.{ByteReader, ensure, load_next}
use network_engine_portfolio.App.Packet.{PacketReader, remaining, fetch}

abbrev pub as_packet : {A : Type 0} → Option (A × ByteReader) → Option (A × PacketReader)
as_packet none = none
as_packet (some (a, r)) = some (a, record { bytes = r.bytes; pos = r.off })

-- A ByteReader inside its bytes, asked for so many bytes that the sum with its offset does not
-- wrap, reads or refuses exactly as a PacketReader at that place does.
pub load_next-fetch :
    {A : Type 0} (n : ℕ) (load : List ℕ → A) (r : ByteReader)
    → r.off ≤ length r.bytes
    → r.off + n < 2 ^ 64
    → as_packet (load_next n load r) ≡ fetch n load (record { bytes = r.bytes; pos = r.off })
unfolding load_next ensure fetch remaining
load_next-fetch n load r inside small =
    let e : add64 r.off n ≡ r.off + n = omega arith in
    let f : leb r.off (length r.bytes) ≡ true = ground arith in
    elim (Bool-cases (ltb (length r.bytes - r.off) n)) [
      | inl t ↦
          let g : leb (r.off + n) (length r.bytes) ≡ false = ground arith in rw (e, g, f, t) refl
      | inr h ↦
          let g : leb (r.off + n) (length r.bytes) ≡ true = ground arith in rw (e, g, f, h) refl
    ]
