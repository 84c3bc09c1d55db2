-- ===== src/App/Packet/RoundTrip.antt =====
-- What a packet writer writes, a packet reader reads back.
use network_engine_portfolio.Prelude.{
  ℕ, suc, ◌+◌, ◌-◌, ◌^◌, ◌≤◌, ◌<◌, ◌≡◌, refl, ap, sym, ◌∙◌, true, false, Option, none, some, List,
  [], ◌∷◌, ◌++◌, length, take, drop, get_or, ◌==◌, ==_iff, arith, length-append, length-drop,
  take-append, drop-append, append_assoc, append-nil, drop-add, le→ltb,
}
use network_engine_portfolio.Protocol.Endian.{
  store_u16_be, store_u32_be, store_u64_be, load_u16_be, load_u32_be, load_u64_be,
}
use network_engine_portfolio.Protocol.Endian.RoundTrip.{
  load-store_u16, load-store_u32, load-store_u64,
}
use network_engine_portfolio.App.Packet.{
  PacketReader, remaining, fetch, reset, eof, read_u8, write_u8, read_u16_be, read_u32_be,
  read_u64_be, read_bytes, read_string_u16, write_u16_be, write_u32_be, write_u64_be, write_bytes,
  truncate, write_string_u16,
}

-- The reader stands before `bytes`.
pub record At (r : PacketReader) (bytes : List ℕ) : Type 0 where
  pub inside : r.pos ≤ length r.bytes
  pub left : drop r.pos r.bytes ≡ bytes

abbrev pub advance : PacketReader → ℕ → PacketReader
advance r n = record r { pos = r.pos + n }

remaining_lem : (r : PacketReader) → r.pos ≤ length r.bytes → remaining r ≡ length r.bytes - r.pos
unfolding remaining
remaining_lem r h = ground arith

module _ {r : PacketReader} (xs ys : List ℕ) (a : At r (xs ++ ys)) where
  there : length xs + length ys ≡ length r.bytes - r.pos
  there = omega (arith, ap length a.left, length-append xs ys, length-drop r.pos r.bytes)

  advance-At : At (advance r (length xs)) ys
  advance-At = record {
    inside = omega (arith, there, a.inside);
    left =
        drop-add r.pos (length xs) r.bytes
        ∙ ap (drop (length xs)) a.left
        ∙ drop-append (length xs) xs ys refl;
  }

  -- A read of as many bytes as stand first in the rest loads them.
  fetch_lem :
      {A : Type 0} (load : List ℕ → A)
      → fetch (length xs) load r ≡ some (load xs, advance r (length xs))
  unfolding fetch
  fetch_lem load =
      rw
        (
          remaining_lem r a.inside,
          le→ltb (length r.bytes - r.pos) (length xs) (omega (arith, there)),
        )
        (ap (λ (b : List ℕ). some (load b, advance r (length xs)))
          (ap (take (length xs)) a.left ∙ take-append (length xs) xs ys refl))

-- What a packet is made of.
pub data Field : Type 0 where
  u8 u16 u32 u64 : ℕ → Field
  text : List ℕ → Field

abbrev pub Fits : Field → Type 0
Fits (u8 v) = v < 2 ^ 8
Fits (u16 v) = v < 2 ^ 16
Fits (u32 v) = v < 2 ^ 32
Fits (u64 v) = v < 2 ^ 64
Fits (text s) = length s < 2 ^ 16

abbrev pub write_field : Field → List ℕ → List ℕ
write_field (u8 v) = write_u8 v
write_field (u16 v) = write_u16_be v
write_field (u32 v) = write_u32_be v
write_field (u64 v) = write_u64_be v
write_field (text s) = write_string_u16 s

-- The bytes of a field.
abbrev pub image : Field → List ℕ
image (u8 v) = v ∷ []
image (u16 v) = store_u16_be v
image (u32 v) = store_u32_be v
image (u64 v) = store_u64_be v
image (text s) = store_u16_be (length s) ++ s

abbrev pub number : (ℕ → Field) → Option (ℕ × PacketReader) → Option (Field × PacketReader)
number kind none = none
number kind (some (v, r)) = some (kind v, r)

abbrev pub string : Option (Option (List ℕ) × PacketReader) → Option (Field × PacketReader)
string none = none
string (some (none, r)) = none
string (some (some s, r)) = some (text s, r)

-- A field of the same kind is read.
abbrev pub read_like : Field → PacketReader → Option (Field × PacketReader)
read_like (u8 _) r = number u8 (read_u8 r)
read_like (u16 _) r = number u16 (read_u16_be r)
read_like (u32 _) r = number u32 (read_u32_be r)
read_like (u64 _) r = number u64 (read_u64_be r)
read_like (text _) r = string (read_string_u16 r)

write_bytes_lem : (bytes buf : List ℕ) → write_bytes bytes buf ≡ buf ++ bytes
unfolding write_bytes
write_bytes_lem [] buf = sym (append-nil buf)
write_bytes_lem (x ∷ xs) buf = let e : (suc (length xs) == 0) ≡ false = ground arith in rw e refl

write_field_lem : (x : Field) (buf : List ℕ) → Fits x → write_field x buf ≡ buf ++ image x
unfolding write_u8 write_u16_be write_u32_be write_u64_be write_string_u16 truncate
write_field_lem (u8 v) buf h = refl
write_field_lem (u16 v) buf h = refl
write_field_lem (u32 v) buf h = refl
write_field_lem (u64 v) buf h = refl
write_field_lem (text s) buf h = rw (le→ltb 65535 (length s) (omega arith)) (
    write_bytes_lem s (buf ++ store_u16_be (length s))
    ∙ append_assoc buf (store_u16_be (length s)) s)

read_field_lem :
    (x : Field) {r : PacketReader} (rest : List ℕ)
    → Fits x
    → At r (image x ++ rest)
    → read_like x r ≡ some (x, advance r (length (image x)))
unfolding read_u8 read_u16_be read_u32_be read_u64_be read_string_u16 read_bytes store_u16_be
    store_u32_be store_u64_be
read_field_lem (u8 v) rest h a =
    ap (number u8) (fetch_lem (v ∷ []) rest a (λ bytes. get_or bytes 0 0))
read_field_lem (u16 v) {r} rest h a = ap (number u16) (
    fetch_lem (store_u16_be v) rest a load_u16_be
    ∙ ap (λ k. some (k, advance r 2)) (load-store_u16 v [] h))
read_field_lem (u32 v) {r} rest h a = ap (number u32) (
    fetch_lem (store_u32_be v) rest a load_u32_be
    ∙ ap (λ k. some (k, advance r 4)) (load-store_u32 v [] h))
read_field_lem (u64 v) {r} rest h a = ap (number u64) (
    fetch_lem (store_u64_be v) rest a load_u64_be
    ∙ ap (λ k. some (k, advance r 8)) (load-store_u64 v [] h))
read_field_lem (text s) {r} rest h a =
    rw (read_string_u16, read_u16_be, size)
      (rw (read_bytes, fetch_lem s rest behind (λ bytes. bytes))
        (ap (λ k. some (text s, record r { pos = k })) (omega arith)))
  where
    len : List ℕ
    len = store_u16_be (length s)

    size : fetch 2 load_u16_be r ≡ some (length s, advance r 2)
    size =
        fetch_lem len (s ++ rest) (rw (append_assoc len s rest) at a) load_u16_be
        ∙ ap (λ k. some (k, advance r 2)) (load-store_u16 (length s) [] h)

    behind : At (advance r 2) (s ++ rest)
    behind = advance-At len (s ++ rest) (rw (append_assoc len s rest) at a)

abbrev pub AllFit : List Field → Type 0
AllFit [] = Unit
AllFit (x ∷ xs) = Fits x × AllFit xs

abbrev pub write_all : List Field → List ℕ → List ℕ
write_all [] buf = buf
write_all (x ∷ xs) buf = write_all xs (write_field x buf)

abbrev pub images : List Field → List ℕ
images [] = []
images (x ∷ xs) = image x ++ images xs

-- Fields of the given kinds are read one after the other, and the reader behind them is returned.
abbrev pub read_all : List Field → PacketReader → Option (List Field × PacketReader)
read_all [] r = some ([], r)
read_all (x ∷ xs) r = elim (read_like x r) [
  | none ↦ none
  | some (y, r') ↦ elim (read_all xs r') [ none ↦ none | some (ys, r'') ↦ some (y ∷ ys, r'') ]
]

write_all_lem : (xs : List Field) (buf : List ℕ) → AllFit xs → write_all xs buf ≡ buf ++ images xs
write_all_lem [] buf fit = sym (append-nil buf)
write_all_lem (x ∷ xs) buf (h, fit) =
    ap (write_all xs) (write_field_lem x buf h)
    ∙ write_all_lem xs (buf ++ image x) fit
    ∙ append_assoc buf (image x) (images xs)

read_all_lem :
    (xs : List Field) (r : PacketReader)
    → AllFit xs
    → At r (images xs)
    → read_all xs r ≡ some (xs, advance r (length (images xs)))
read_all_lem [] r fit a = ap (λ k. some ([], record r { pos = k })) (omega arith)
read_all_lem (x ∷ xs) r (h, fit) a =
    rw (read_all, read_field_lem x (images xs) h a)
      (rw (read_all_lem xs (advance r (length (image x))) fit (advance-At (image x) (images xs) a))
        (ap (λ k. some (x ∷ xs, record r { pos = k }))
          (omega (arith, length-append (image x) (images xs)))))

-- A packet of numbers within their widths and texts of less than 2^16 bytes, written field by
-- field and read back field by field, gives the same fields, and the reader then stands at its
-- end.
pub read-write :
    (xs : List Field)
    → AllFit xs
    → (read_all xs (reset (some (write_all xs [])))
        ≡ some (xs, advance (reset (some (write_all xs []))) (length (write_all xs []))))
      × (eof (advance (reset (some (write_all xs []))) (length (write_all xs []))) ≡ true)
unfolding reset eof
read-write xs fit = rw (write_all_lem xs [] fit) (
  read_all_lem xs (record { bytes = images xs; pos = 0 }) fit
      (record { inside = omega arith; left = refl }),
  (==_iff (0 + length (images xs)) (length (images xs))).1 (omega arith),
)
