-- ===== src/Buffer/Ring/Write.antt =====
-- `write` appends to the stored bytes, in one copy or two.
use network_engine_portfolio.Prelude.{
  ℕ, subst, ◌==◌, ==_iff, [], ◌+◌, ◌-◌, ◌≤◌, ◌<◌, ◌≡◌, refl, ap, sym, ◌∙◌, inl, inr, List, ◌++◌,
  length, drop, take, arith, some, min, append_assoc, take-add, length-drop, ltb, Bool-cases,
  mod-wrap, ltb→lt, append-nil, sub64,
}
use network_engine_portfolio.Buffer.Ring.{RingBuffer, put_part, write, write_parts, write_some}
use network_engine_portfolio.Buffer.Ring.Valid.{
  IsValid, contents, put_part-IsValid, free_space-eq, tail_in,
}
use network_engine_portfolio.Buffer.Ring.Parts.{contents-put_part}

-- The ring holds what it held, and then `added`.
pub record Appended (r : RingBuffer) (added : List ℕ) (r' : RingBuffer) : Type 0 where
  pub valid : IsValid r'
  pub bytes : contents r' ≡ contents r ++ added
  pub same_capacity : r'.capacity ≡ r.capacity

pub capacity-put_part :
    (r : RingBuffer) (bytes : List ℕ) (n : ℕ) → (put_part r bytes n).capacity ≡ r.capacity
unfolding put_part
capacity-put_part r bytes n = refl

-- A copy up to the end of the storage leaves the tail at its beginning.
pub tail-put_part :
    {r : RingBuffer} (bytes : List ℕ)
    → IsValid r
    → (put_part r bytes (r.capacity - r.tail)).tail ≡ 0
unfolding put_part
tail-put_part {r} bytes v =
    ground (arith, mod-wrap r.capacity (r.tail + (r.capacity - r.tail)), tail_in v)

module _ {r : RingBuffer} (bytes : List ℕ) (v : IsValid r) where
  pub nothing : Appended r [] r
  nothing = record { valid = v; bytes = sym (append-nil (contents r)); same_capacity = refl }

  pub put_part-Appended :
      (n : ℕ)
      → n ≤ r.capacity - r.size
      → n ≤ r.capacity - r.tail
      → n ≤ length bytes
      → Appended r (take n bytes) (put_part r bytes n)
  put_part-Appended n free fits given = record {
    valid = (put_part-IsValid bytes n v free).0;
    bytes = contents-put_part bytes n v free fits given;
    same_capacity = capacity-put_part r bytes n;
  }

  -- The second copy starts at index 0, where the first one left the tail.
  pub two_parts-Appended :
      (first more : ℕ)
      → first ≡ r.capacity - r.tail
      → first + more ≤ r.capacity - r.size
      → first + more ≤ length bytes
      → Appended r
          (take (first + more) bytes)
          (put_part (put_part r bytes first) (drop first bytes) more)
  two_parts-Appended first more e free given = record {
    valid = (put_part-IsValid (drop first bytes) more a.valid free').0;
    bytes =
        contents-put_part (drop first bytes) more a.valid free' fits'
          (omega (arith, length-drop first bytes))
        ∙ ap (λ (c : List ℕ). c ++ take more (drop first bytes)) a.bytes
        ∙ append_assoc (contents r) (take first bytes) (take more (drop first bytes))
        ∙ ap (◌++◌ (contents r)) (sym (take-add first more bytes));
    same_capacity = capacity-put_part r' (drop first bytes) more ∙ a.same_capacity;
  }
    where
      r' : RingBuffer
      r' = put_part r bytes first

      a : Appended r (take first bytes) r'
      a = put_part-Appended first (omega arith) (omega arith) (omega arith)

      restart : r'.tail ≡ 0
      restart = rw e (tail-put_part bytes v)

      free' : more ≤ r'.capacity - r'.size
      free' = omega (arith, a.same_capacity, (put_part-IsValid bytes first v (omega arith)).1)

      fits' : more ≤ r'.capacity - r'.tail
      fits' = omega (arith, a.same_capacity, restart, free)

  pub write_parts-Appended :
      (first more : ℕ)
      → first ≤ r.capacity - r.tail
      → (0 < more → first ≡ r.capacity - r.tail)
      → first + more ≤ r.capacity - r.size
      → first + more ≤ length bytes
      → Appended r (take (first + more) bytes) (write_parts r bytes first more)
  unfolding write_parts
  write_parts-Appended first more fits full free given = elim (Bool-cases (ltb 0 more)) [
    | inl t ↦ rw t (two_parts-Appended first more (full (ltb→lt 0 more t)) free given)
    | inr f ↦
        let e : first + more ≡ first = ground arith in
        rw (f, e) (put_part-Appended first (omega arith) fits (omega arith))
  ]

  write_some-Appended :
      (n : ℕ)
      → n ≤ r.capacity - r.size
      → n ≤ length bytes
      → ((write_some r bytes n).0 ≡ n) × Appended r (take n bytes) (write_some r bytes n).1
  unfolding write_some
  write_some-Appended n free given = elim (Bool-cases (n == 0)) [
    | inl t ↦ let e : n ≡ 0 = (==_iff n 0).0 t in rw e (refl, nothing)
    | inr f ↦
        rw (f, fits, rest)
          (
            refl,
            subst (λ k. Appended r (take k bytes) (write_parts r bytes first (n - first))) all
                (write_parts-Appended first (n - first) (omega arith) (λ p. omega arith)
                  (omega arith) (omega arith)),
          )
  ]
    where
      first : ℕ
      first = min n (r.capacity - r.tail)

      fits : sub64 r.capacity r.tail ≡ r.capacity - r.tail
      fits = omega (arith, tail_in v)

      rest : sub64 n first ≡ n - first
      rest = omega arith

      all : first + (n - first) ≡ n
      all = omega arith

  -- On a valid ring, a write of at most the bytes given takes as many as fit, appends exactly
  -- those, in order, and returns their number.
  pub write_lem :
      (len : ℕ)
      → len ≤ length bytes
      → let n = min len (r.capacity - r.size) in
        ((write r (some bytes) len).0 ≡ n) × Appended r (take n bytes) (write r (some bytes) len).1
  unfolding write
  write_lem len given = elim (Bool-cases (len == 0)) [
    | inl t ↦ let e : min len (r.capacity - r.size) ≡ 0 = ground arith in rw (t, e) (refl, nothing)
    | inr f ↦
        rw (f, free_space-eq v)
          (write_some-Appended (min len (r.capacity - r.size)) (omega arith) (omega arith))
  ]
