-- ===== src/Protocol/Codec.antt =====
-- engine/include/hypernet/protocol/MessageCodec.hpp: `ByteWriter` and `ByteReader`. A writer is the
-- bytes of `buf_`; a reader that answers false changes nothing, which is `none` here.
use network_engine_portfolio.Prelude.{
  ℕ, Bool, not, Option, none, some, List, [], ◌∷◌, ◌++◌, length, take, drop, get_or, leb, ◌==◌,
  if◌then◌else◌, add64,
}
use network_engine_portfolio.Protocol.Endian.{octet, load_u16_be, load_u32_be, load_u64_be}

pub record ByteReader : Type 0 where
  pub bytes : List ℕ
  pub off : ℕ

-- The sum is one of `size_t`, and wraps.
unfoldable pub ensure : ByteReader → ℕ → Bool
ensure r n = leb (add64 r.off n) (length r.bytes)

-- The next `n` bytes, read by `load`, and the reader behind them.
unfoldable pub load_next : {A : Type 0} → ℕ → (List ℕ → A) → ByteReader → Option (A × ByteReader)
load_next n load r =
    if not (ensure r n)
    then none
    else some (load (take n (drop r.off r.bytes)), record r { off = add64 r.off n })

abbrev pub next_u8 : ByteReader → Option (ℕ × ByteReader)
next_u8 = load_next 1 (λ bytes. get_or bytes 0 0)

abbrev pub next_u16_be : ByteReader → Option (ℕ × ByteReader)
next_u16_be = load_next 2 load_u16_be

abbrev pub next_u32_be : ByteReader → Option (ℕ × ByteReader)
next_u32_be = load_next 4 load_u32_be

abbrev pub next_u64_be : ByteReader → Option (ℕ × ByteReader)
next_u64_be = load_next 8 load_u64_be

-- `out` says whether the destination is given.
unfoldable pub next_bytes : Bool → ℕ → ByteReader → Option (List ℕ × ByteReader)
next_bytes out len r =
    if len == 0 then some ([], r) else if not out then none else load_next len (λ bytes. bytes) r

abbrev pub next_bytes_view : ℕ → ByteReader → Option (List ℕ × ByteReader)
next_bytes_view len = load_next len (λ bytes. bytes)

unfoldable pub skip_bytes : ℕ → ByteReader → Option ByteReader
skip_bytes len r = if not (ensure r len) then none else some (record r { off = add64 r.off len })

abbrev pub put_u8 : ℕ → List ℕ → List ℕ
put_u8 v buf = buf ++ v ∷ []

abbrev pub put_u16_be : ℕ → List ℕ → List ℕ
put_u16_be v buf = (buf ++ octet v 8 ∷ []) ++ octet v 0 ∷ []

abbrev pub put_u32_be : ℕ → List ℕ → List ℕ
put_u32_be v buf =
    (((buf ++ octet v 24 ∷ []) ++ octet v 16 ∷ []) ++ octet v 8 ∷ []) ++ octet v 0 ∷ []

abbrev pub put_u64_be : ℕ → List ℕ → List ℕ
put_u64_be v buf =
    (((((((buf ++ octet v 56 ∷ []) ++ octet v 48 ∷ []) ++ octet v 40 ∷ []) ++ octet v 32 ∷ [])
          ++ octet v 24 ∷ [])
        ++ octet v 16 ∷ [])
      ++ octet v 8 ∷ [])
    ++ octet v 0 ∷ []

-- `none` is a null pointer.
unfoldable pub put_bytes : Option (List ℕ) → ℕ → List ℕ → List ℕ
put_bytes given len buf =
    if len == 0 then buf else elim given [ none ↦ buf | some p ↦ buf ++ take len p ]
