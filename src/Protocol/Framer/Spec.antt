-- ===== src/Protocol/Framer/Spec.antt =====
-- One frame off the front of a byte stream, and that `tryFrame` does this to the bytes of the ring.
use network_engine_portfolio.Prelude.{
  ℕ, ◌+◌, ◌-◌, ◌^◌, ◌≤◌, ◌≡◌, refl, ap, ap₂, subst, ◌∙◌, inl, inr, Option, none, some, List, [],
  ◌++◌, length, take, drop, replicate, ltb, ◌==◌, if◌then◌else◌, add64, append-nil, ◌⊎◌, arith, min,
  Bool-cases, true, length-take, length-append, length-replicate, ==_self, ==_iff, take-append,
}
use network_engine_portfolio.Buffer.Ring.{RingBuffer, slice, BufferView, read, peek_view, read_view}
use network_engine_portfolio.Buffer.Ring.Valid.{IsValid, contents, length-contents}
use network_engine_portfolio.Buffer.Ring.Read.{
  Dropped, Dropped-size, Dropped-add, nothing, read_exact, peek_exact,
}
use network_engine_portfolio.Buffer.Ring.Views.{
  read_view_lem, peek_view_lem, contiguous, view_bytes, bytes_at,
}
use network_engine_portfolio.Protocol.Endian.{load_u32_be}
use network_engine_portfolio.Protocol.Framer.{
  FrameResult, need_more, framed, invalid, Pointer, null, in_ring, in_scratch, Framer, FramerError,
  Attempt, refuse, wait, resize, copy_payload, take_payload, take_header, check_length, peek_header,
  try_frame, pointer_of, view_payload,
}

-- What can be told of the front of a stream.
pub data Front : Type 0 where
  more reject : Front
  frame : (payload : List ℕ) (rest : List ℕ) → Front

-- The first frame of `bytes`, for a limit on the payload and a buffer of `capacity` bytes.
unfoldable pub front : ℕ → ℕ → List ℕ → Front
front max capacity bytes =
    if ltb (length bytes) 4
    then more
    else let n = load_u32_be (take 4 bytes) in
      if ltb max n
      then reject
      else if ltb capacity (4 + n)
      then reject
      else if ltb (length bytes) (4 + n)
      then more
      else frame (take n (drop 4 bytes)) (drop (4 + n) bytes)

-- The bytes that a message view shows.
abbrev pub message_bytes : Pointer → ℕ → RingBuffer → List ℕ → List ℕ
message_bytes null n r scratch = []
message_bytes (in_ring off) n r scratch = slice r.buffer off n
message_bytes in_scratch n r scratch = take n scratch

abbrev pub payload_of : Attempt → List ℕ
payload_of a = message_bytes a.out.start a.out.size a.ring a.framer.scratch

abbrev pub observe_as : FrameResult → Attempt → Front
observe_as need_more a = more
observe_as invalid a = reject
observe_as framed a = frame (payload_of a) (contents a.ring)

abbrev pub observe : Attempt → Front
observe a = observe_as a.result a

length-resize : (n : ℕ) (xs : List ℕ) → length (resize n xs) ≡ n
unfolding resize
length-resize n xs = omega (
  arith,
  length-append (take n xs) (replicate (n - length xs) 0),
  length-take n xs,
  length-replicate {A = ℕ} (n - length xs) 0,
)

-- A payload of `n` bytes was taken off `r`.
record Took (n : ℕ) (r : RingBuffer) (a : Attempt) : Type 0 where
  done : a.result ≡ framed
  payload : payload_of a ≡ take n (contents r)
  left : Dropped r n a.ring

module _ (f : Framer) {r : RingBuffer} (n : ℕ) (v : IsValid r) (stored : n ≤ r.size) where
  copy_payload-Took : Took n r (copy_payload f r n)
  unfolding copy_payload
  copy_payload-Took =
      rw (done.0, done.1, ==_self n)
        (record {
          done = refl;
          payload = take-append n (take n (contents r)) (drop n dest) long;
          left = done.2;
        })
    where
      dest : List ℕ
      dest = resize n f.scratch

      done :
          ((read r (some dest) n).0 ≡ n)
          × ((read r (some dest) n).1 ≡ some (take n (contents r) ++ drop n dest))
          × Dropped r n (read r (some dest) n).2
      done = read_exact v dest n (omega (arith, length-resize n f.scratch)) stored

      long : length (take n (contents r)) ≡ n
      long = omega (arith, length-take n (contents r), length-contents r)

  message_bytes-pointer_of :
      (start : Option ℕ) (k : ℕ) (r' : RingBuffer) (scratch : List ℕ)
      → message_bytes (pointer_of start) k r' scratch ≡ bytes_at r'.buffer start k
  unfolding pointer_of
  message_bytes-pointer_of none k r' scratch = refl
  message_bytes-pointer_of (some off) k r' scratch = refl

  view_payload-Took : (peek_view r n).size ≡ n → Took n r (view_payload f (read_view r n))
  unfolding view_payload
  view_payload-Took whole = record {
    done = refl;
    payload =
        message_bytes-pointer_of view.start view.size r' f.scratch
        ∙ ap (λ (b : List ℕ). view_bytes b view) seen.1
        ∙ ap (view_bytes r.buffer) seen.0
        ∙ (peek_view_lem v n).1
        ∙ ap (λ k. take k (contents r)) all;
    left = subst (λ k. Dropped r k r') all seen.2;
  }
    where
      view : BufferView
      view = (read_view r n).0

      r' : RingBuffer
      r' = (read_view r n).1

      all : min n (contiguous r) ≡ n
      all = omega (arith, (peek_view_lem v n).0)

      seen : (view ≡ peek_view r n) × (r'.buffer ≡ r.buffer) × Dropped r (min n (contiguous r)) r'
      seen = read_view_lem v n

  take_payload-Took : Took n r (take_payload f r n)
  unfolding take_payload
  take_payload-Took = elim (Bool-cases (n == 0)) [
    | inl t ↦
        let e : n ≡ 0 = (==_iff n 0).0 t in
        rw (t, e) (record { done = refl; payload = refl; left = nothing v })
    | inr g ↦ elim (Bool-cases ((peek_view r n).size == n)) [
      | inl t ↦ rw (g, t) (view_payload-Took ((==_iff _ n).0 t))
      | inr h ↦ rw (g, h) copy_payload-Took
    ]
  ]

-- Behind the checks a whole frame is there, and it is taken off.
take_header-observe :
    (f : Framer) {r : RingBuffer} (n : ℕ)
    → IsValid r
    → 4 + n ≤ r.size
    → (observe (take_header f r n)
        ≡ frame (take n (drop 4 (contents r))) (drop (4 + n) (contents r)))
      × Dropped r (4 + n) (take_header f r n).ring
unfolding take_header
take_header-observe f {r} n v h = rw (done.0) (seen, left)
  where
    done :
        ((read r (some (replicate 4 0)) 4).0 ≡ 4)
        × ((read r (some (replicate 4 0)) 4).1 ≡ some (take 4 (contents r) ++ []))
        × Dropped r 4 (read r (some (replicate 4 0)) 4).2
    done = read_exact v (replicate 4 0) 4 (omega arith) (omega arith)

    r' : RingBuffer
    r' = (read r (some (replicate 4 0)) 4).2

    a : Took n r' (take_payload f r' n)
    a = take_payload-Took f n done.2.valid (omega (arith, Dropped-size 4 done.2))

    left : Dropped r (4 + n) (take_payload f r' n).ring
    left = Dropped-add 4 n done.2 a.left

    seen :
        observe (take_payload f r' n)
        ≡ frame (take n (drop 4 (contents r))) (drop (4 + n) (contents r))
    seen =
        ap (λ s. observe_as s (take_payload f r' n)) a.done
        ∙ ap₂ frame (a.payload ∙ ap (take n) done.2.bytes) left.bytes

framed_of : (a : Attempt) (s : FrameResult) {p q : List ℕ} → observe_as s a ≡ frame p q → s ≡ framed
framed_of a need_more e = cc
framed_of a framed e = refl
framed_of a invalid e = cc

-- The result of a call on `r`: it reads the front of the stream as `expected`, and takes nothing
-- unless that is a frame.
pub record Reads (expected : Front) (r : RingBuffer) (a : Attempt) : Type 0 where
  pub seen : observe a ≡ expected
  pub valid : IsValid a.ring
  pub same_capacity : a.ring.capacity ≡ r.capacity
  pub kept : (a.result ≡ framed) ⊎ (a.ring ≡ r)

module _ (f : Framer) {r : RingBuffer} (v : IsValid r) where
  refused : (e : FramerError) → Reads reject r (refuse f r e)
  unfolding refuse
  refused e = record { seen = refl; valid = v; same_capacity = refl; kept = inr refl }

  waits : Reads more r (wait f r)
  unfolding wait
  waits = record { seen = refl; valid = v; same_capacity = refl; kept = inr refl }

  taken :
      (n : ℕ)
      → 4 + n ≤ r.size
      → Reads
          (frame (take n (drop 4 (contents r))) (drop (4 + n) (contents r)))
          r
          (take_header f r n)
  taken n h = record {
    seen = a.0;
    valid = a.1.valid;
    same_capacity = a.1.same_capacity;
    kept = inl (framed_of (take_header f r n) (take_header f r n).result a.0);
  }
    where
      a :
          (observe (take_header f r n)
            ≡ frame (take n (drop 4 (contents r))) (drop (4 + n) (contents r)))
          × Dropped r (4 + n) (take_header f r n).ring
      a = take_header-observe f n v h

-- What remains to be decided once the length `n` is known.
abbrev front_of : ℕ → ℕ → List ℕ → ℕ → Front
front_of max capacity bytes n =
    if ltb max n
    then reject
    else if ltb capacity (4 + n)
    then reject
    else if ltb (length bytes) (4 + n)
    then more
    else frame (take n (drop 4 bytes)) (drop (4 + n) bytes)

check_length-Reads :
    (f : Framer) {r : RingBuffer} (n : ℕ)
    → IsValid r
    → Reads (front_of f.max_payload_len r.capacity (contents r) n) r (check_length f r n)
unfolding check_length
check_length-Reads f {r} n v = elim (Bool-cases (ltb f.max_payload_len n)) [
  | inl t ↦ rw t (refused f v _)
  | inr a ↦ elim (Bool-cases (ltb (2 ^ 64 - 1 - 4) n)) [
    | inl t ↦ let e : ltb r.capacity (4 + n) ≡ true = ground arith in rw (a, t, e) (refused f v _)
    | inr b ↦
        let e : add64 4 n ≡ 4 + n = ground arith in
        elim (Bool-cases (ltb r.capacity (4 + n))) [
          | inl t ↦ rw (a, b, e, t) (refused f v _)
          | inr c ↦ elim (Bool-cases (ltb r.size (4 + n))) [
            | inl t ↦ rw (a, b, e, c, length-contents r, t) (waits f v)
            | inr d ↦ rw (a, b, e, c, length-contents r, d) (taken f v n (ground arith))
          ]
        ]
  ]
]

-- On a valid ring, one call of tryFrame waits, refuses or hands out a payload exactly as the
-- description `front` says of the bytes stored; the bytes behind the frame are what the ring holds
-- afterwards, the ring stays valid with its capacity, and unless the call reports a frame the ring
-- is unchanged.
pub try_frame_lem :
    (f : Framer) {r : RingBuffer}
    → IsValid r
    → Reads (front f.max_payload_len r.capacity (contents r)) r (try_frame f r)
unfolding try_frame front peek_header
try_frame_lem f {r} v = elim (Bool-cases (ltb r.size 4)) [
  | inl t ↦ rw (length-contents r, t) (waits (record f { last_error = none }) v)
  | inr g ↦
      rw
        (
          length-contents r,
          g,
          peek_exact v (replicate 4 0) 4 (omega arith) (ground arith),
          append-nil (take 4 (contents r)),
        )
        (rw (length-contents r) at (
          check_length-Reads (record f { last_error = none }) (load_u32_be (take 4 (contents r)))
            v))
]
