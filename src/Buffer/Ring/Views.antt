-- ===== src/Buffer/Ring/Views.antt =====
-- `peekView`, `readView` and `peekIov` hand out the oldest bytes in place.
use network_engine_portfolio.Prelude.{
  ℕ, ◌+◌, ◌-◌, ◌≤◌, ◌<◌, ◌≡◌, refl, ap, sym, ◌∙◌, inl, inr, List, [], ◌++◌, take, arith, Option,
  some, none, false, min, take-add, ltb, ltb→lt, ◌==◌, ==_iff, Bool-cases, sub64, zero, suc, ap₂,
}
use network_engine_portfolio.Buffer.Ring.{
  RingBuffer, slice, drop_part, BufferView, view_at, peek_view, read_view, Iovecs, iov_parts,
  iov_some, peek_iov,
}
use network_engine_portfolio.Buffer.Ring.Valid.{IsValid, contents}
use network_engine_portfolio.Buffer.Ring.Parts.{slice-head}
use network_engine_portfolio.Buffer.Ring.Read.{Dropped, drop_part-Dropped, slice_rest, nothing}

-- The bytes behind a pointer into `buffer_` and a length.
abbrev pub bytes_at : List ℕ → Option ℕ → ℕ → List ℕ
bytes_at buffer none n = []
bytes_at buffer (some off) n = slice buffer off n

abbrev pub view_bytes : List ℕ → BufferView → List ℕ
view_bytes buffer w = bytes_at buffer w.start w.size

-- The bytes that run on from the head without going round.
abbrev pub contiguous : RingBuffer → ℕ
contiguous r = min r.size (r.capacity - r.head)

module _ {r : RingBuffer} (v : IsValid r) where
  view_at-eq :
      (n : ℕ)
      → n ≤ r.size
      → n ≤ r.capacity - r.head
      → ((view_at r.head n).size ≡ n)
        × (view_bytes r.buffer (view_at r.head n) ≡ take n (contents r))
  unfolding view_at
  view_at-eq n h fits = elim (Bool-cases (n == 0)) [
    | inl t ↦ let e : n ≡ 0 = (==_iff n 0).0 t in rw e (refl, refl)
    | inr f ↦ rw f (refl, slice-head n v h fits)
  ]

  -- `peekView` shows the oldest bytes up to the end of the storage, `maxLen` of them at most.
  pub peek_view_lem :
      (max_len : ℕ)
      → let n = min max_len (contiguous r) in
        ((peek_view r max_len).size ≡ n)
        × (view_bytes r.buffer (peek_view r max_len) ≡ take n (contents r))
  unfolding peek_view
  peek_view_lem max_len = elim (Bool-cases (max_len == 0)) [
    | inl t ↦ let e : min max_len (contiguous r) ≡ 0 = ground arith in rw (t, e) (refl, refl)
    | inr f ↦ elim (Bool-cases (r.size == 0)) [
      | inl t ↦ let e : min max_len (contiguous r) ≡ 0 = ground arith in rw (f, t, e) (refl, refl)
      | inr g ↦
          let e : sub64 r.capacity r.head ≡ r.capacity - r.head = omega (arith, v) in
          rw (f, g, e) (view_at-eq (min max_len (contiguous r)) (omega arith) (omega arith))
    ]
  ]

  -- On a valid ring, readView returns the view that peekView shows and consumes exactly its bytes,
  -- which are those that run on from the head up to the limit; they stay in place.
  pub read_view_lem :
      (max_len : ℕ)
      → ((read_view r max_len).0 ≡ peek_view r max_len)
        × ((read_view r max_len).1.buffer ≡ r.buffer)
        × Dropped r (min max_len (contiguous r)) (read_view r max_len).1
  unfolding read_view drop_part
  read_view_lem max_len = elim (Bool-cases ((peek_view r max_len).size == 0)) [
    | inl t ↦
        let e : min max_len (contiguous r) ≡ 0 = ground (arith, peek_view_lem max_len) in
        rw (t, e) (refl, refl, nothing v)
    | inr f ↦
        rw (f, (peek_view_lem max_len).0)
          (refl, refl, drop_part-Dropped v (min max_len (contiguous r)) (omega arith))
  ]

-- The bytes of the first `count` entries, one after the other: what `writev` sends.
abbrev pub gather : List ℕ → ℕ × Option Iovecs → List ℕ
gather buffer (n, none) = []
gather buffer (zero, some out) = []
gather buffer (suc zero, some (a, b)) = bytes_at buffer a.base a.len
gather buffer (suc (suc n), some (a, b)) =
    bytes_at buffer a.base a.len ++ bytes_at buffer b.base b.len

module _ {r : RingBuffer} (v : IsValid r) where
  iov_parts-eq :
      (first more : ℕ)
      → first ≤ r.capacity - r.head
      → (0 < more → first ≡ r.capacity - r.head)
      → first + more ≤ r.size
      → gather r.buffer (iov_parts r.head first more) ≡ take (first + more) (contents r)
  unfolding iov_parts
  iov_parts-eq first more fits full h = elim (Bool-cases (ltb 0 more)) [
    | inl t ↦ rw t (
        ap₂ ◌++◌ (slice-head first v (omega arith) fits)
          (slice_rest v first more (full (ltb→lt 0 more t)) h)
        ∙ sym (take-add first more (contents r)))
    | inr f ↦
        let e : first + more ≡ first = ground arith in
        rw (f, e) (slice-head first v (omega arith) fits)
  ]

  -- On a valid ring, peekIov describes the oldest bytes, at most so many as are asked for and all
  -- that are stored if there are fewer, in one piece or two.
  pub peek_iov_lem :
      (out : Iovecs) (max_len : ℕ)
      → gather r.buffer (peek_iov r (some out) max_len) ≡ take (min max_len r.size) (contents r)
  unfolding peek_iov iov_some
  peek_iov_lem out max_len = elim (Bool-cases (max_len == 0)) [
    | inl t ↦ let e : min max_len r.size ≡ 0 = ground arith in rw (t, e)
    | inr f ↦ elim (Bool-cases (r.size == 0)) [
      | inl t ↦ let e : min max_len r.size ≡ 0 = ground arith in rw (f, t, e)
      | inr g ↦
          let z : (min max_len r.size == 0) ≡ false = ground arith in
          rw (f, g, z, fits, rest)
            (iov_parts-eq first (min max_len r.size - first) (omega arith) (λ p. omega arith)
                (omega arith)
              ∙ ap (λ k. take k (contents r)) all)
    ]
  ]
    where
      first : ℕ
      first = min (min max_len r.size) (r.capacity - r.head)

      fits : sub64 r.capacity r.head ≡ r.capacity - r.head
      fits = omega arith

      rest : sub64 (min max_len r.size) first ≡ min max_len r.size - first
      rest = omega arith

      all : first + (min max_len r.size - first) ≡ min max_len r.size
      all = omega arith
