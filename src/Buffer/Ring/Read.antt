-- ===== src/Buffer/Ring/Read.antt =====
-- `read`, `peek` and the views hand out the oldest bytes, in one copy or two.
use network_engine_portfolio.Prelude.{
  ℕ, ◌+◌, ◌-◌, ◌≤◌, ◌<◌, ◌≡◌, refl, ap, sym, subst, ◌∙◌, inl, inr, List, ◌++◌, length, drop, take,
  arith, Option, some, min, blit, blit-append, blit_whole, take-add, drop-add, length-take,
  length-drop, ltb, ltb→lt, ◌==◌, ==_iff, Bool-cases, mod-wrap, sub64,
}
use network_engine_portfolio.Buffer.Ring.{
  RingBuffer, slice, drop_part, read, read_some, read_parts, peek, peek_some, peek_parts,
}
use network_engine_portfolio.Buffer.Ring.Valid.{
  IsValid, contents, length-contents, drop_part-IsValid,
}
use network_engine_portfolio.Buffer.Ring.Parts.{contents-drop_part, slice-head}

-- The oldest `n` bytes are gone.
pub record Dropped (r : RingBuffer) (n : ℕ) (r' : RingBuffer) : Type 0 where
  pub valid : IsValid r'
  pub bytes : contents r' ≡ drop n (contents r)
  pub same_capacity : r'.capacity ≡ r.capacity

pub Dropped-size : {r r' : RingBuffer} (n : ℕ) → Dropped r n r' → r'.size ≡ r.size - n
Dropped-size {r} {r'} n d =
    omega
      (arith, ap length d.bytes, length-contents r, length-contents r', length-drop n (contents r))

pub Dropped-add :
    {r r' r'' : RingBuffer} (m n : ℕ) → Dropped r m r' → Dropped r' n r'' → Dropped r (m + n) r''
Dropped-add {r} m n d e = record {
  valid = e.valid;
  bytes = e.bytes ∙ ap (drop n) d.bytes ∙ sym (drop-add m n (contents r));
  same_capacity = e.same_capacity ∙ d.same_capacity;
}

pub capacity-drop_part : (r : RingBuffer) (n : ℕ) → (drop_part r n).capacity ≡ r.capacity
unfolding drop_part
capacity-drop_part r n = refl

buffer-drop_part : (r : RingBuffer) (n : ℕ) → (drop_part r n).buffer ≡ r.buffer
unfolding drop_part
buffer-drop_part r n = refl

sub64-head : {r : RingBuffer} → IsValid r → sub64 r.capacity r.head ≡ r.capacity - r.head
sub64-head v = omega arith

-- A step over the last byte of the storage leads to its beginning.
head-drop_part :
    {r : RingBuffer} (first : ℕ)
    → IsValid r
    → first ≡ r.capacity - r.head
    → (drop_part r first).head ≡ 0
unfolding drop_part
head-drop_part {r} first v e = ground (arith, mod-wrap r.capacity (r.head + first))

pub drop_part-Dropped :
    {r : RingBuffer} → IsValid r → (n : ℕ) → n ≤ r.size → Dropped r n (drop_part r n)
drop_part-Dropped {r} v n h = record {
  valid = (drop_part-IsValid n v h).0;
  bytes = contents-drop_part n v h;
  same_capacity = capacity-drop_part r n;
}

module _ {r : RingBuffer} (v : IsValid r) where
  pub nothing : Dropped r 0 r
  nothing = record { valid = v; bytes = refl; same_capacity = refl }

  -- The second slice, which starts at index 0.
  pub slice_rest :
      (first more : ℕ)
      → first ≡ r.capacity - r.head
      → first + more ≤ r.size
      → slice r.buffer 0 more ≡ take more (drop first (contents r))
  slice_rest first more e h =
      sym (ap (λ (b : List ℕ). slice b 0 more) (buffer-drop_part r first))
      ∙ ap (λ k. slice r'.buffer k more) (sym restart)
      ∙ slice-head more a.valid (omega (arith, size'))
          (omega (arith, restart, size', a.same_capacity, v))
      ∙ ap (take more) a.bytes
    where
      r' : RingBuffer
      r' = drop_part r first

      a : Dropped r first r'
      a = drop_part-Dropped v first (omega arith)

      size' : r'.size ≡ r.size - first
      size' = (drop_part-IsValid first v (omega arith)).1

      restart : r'.head ≡ 0
      restart = head-drop_part first v e

  two_slices :
      (dest : List ℕ) (first more : ℕ)
      → first ≡ r.capacity - r.head
      → first + more ≤ r.size
      → blit (blit dest 0 (slice r.buffer r.head first)) first (slice r.buffer 0 more)
        ≡ blit dest 0 (take (first + more) (contents r))
  two_slices dest first more e h =
      ap (λ (b : List ℕ). blit (blit dest 0 b) first (slice r.buffer 0 more)) whole
      ∙ ap (blit (blit dest 0 (take first (contents r))) first) (slice_rest first more e h)
      ∙ ap
          (λ k.
            blit (blit dest 0 (take first (contents r))) k (take more (drop first (contents r))))
          (sym long)
      ∙ sym (blit-append dest (take first (contents r)) (take more (drop first (contents r))))
      ∙ ap (blit dest 0) (sym (take-add first more (contents r)))
    where
      whole : slice r.buffer r.head first ≡ take first (contents r)
      whole = slice-head first v (omega arith) (omega arith)

      long : length (take first (contents r)) ≡ first
      long = omega (arith, length-take first (contents r), length-contents r)

  peek_parts-eq :
      (dest : List ℕ) (first more : ℕ)
      → first ≤ r.capacity - r.head
      → (0 < more → first ≡ r.capacity - r.head)
      → first + more ≤ r.size
      → peek_parts r dest first more ≡ blit dest 0 (take (first + more) (contents r))
  unfolding peek_parts
  peek_parts-eq dest first more fits full h = elim (Bool-cases (ltb 0 more)) [
    | inl t ↦ rw t (two_slices dest first more (full (ltb→lt 0 more t)) h)
    | inr f ↦
        let e : first + more ≡ first = ground arith in
        rw (f, e) (ap (blit dest 0) (slice-head first v (omega arith) fits))
  ]

  moved :
      (dest : List ℕ) (first more : ℕ)
      → first ≡ r.capacity - r.head
      → first + more ≤ r.size
      → blit
          (blit dest 0 (slice r.buffer r.head first))
          first
          (slice (drop_part r first).buffer (drop_part r first).head more)
        ≡ blit dest 0 (take (first + more) (contents r))
  moved dest first more e h =
      ap
        (λ (b : List ℕ).
          blit (blit dest 0 (slice r.buffer r.head first)) first
            (slice b (drop_part r first).head more))
        (buffer-drop_part r first)
      ∙ ap (λ k. blit (blit dest 0 (slice r.buffer r.head first)) first (slice r.buffer k more))
          (head-drop_part first v e)
      ∙ two_slices dest first more e h

  two_drops :
      (first more : ℕ)
      → first + more ≤ r.size
      → Dropped r (first + more) (drop_part (drop_part r first) more)
  two_drops first more h = Dropped-add first more a b
    where
      a : Dropped r first (drop_part r first)
      a = drop_part-Dropped v first (omega arith)

      b : Dropped (drop_part r first) more (drop_part (drop_part r first) more)
      b =
          drop_part-Dropped a.valid more
            (omega (arith, (drop_part-IsValid first v (omega arith)).1))

  read_parts-eq :
      (dest : List ℕ) (first more : ℕ)
      → first ≤ r.capacity - r.head
      → (0 < more → first ≡ r.capacity - r.head)
      → first + more ≤ r.size
      → ((read_parts r dest first more).0 ≡ blit dest 0 (take (first + more) (contents r)))
        × Dropped r (first + more) (read_parts r dest first more).1
  unfolding read_parts
  read_parts-eq dest first more fits full h = elim (Bool-cases (ltb 0 more)) [
    | inl t ↦ rw t (moved dest first more (full (ltb→lt 0 more t)) h, two_drops first more h)
    | inr f ↦
        let e : first + more ≡ first = ground arith in
        rw (f, e)
          (
            ap (blit dest 0) (slice-head first v (omega arith) fits),
            drop_part-Dropped v first (omega arith),
          )
  ]

  -- The part up to the end of the storage, and what is left for the second one.
  abbrev part : ℕ → ℕ
  part n = min n (r.capacity - r.head)

  part-all : (n : ℕ) → part n + (n - part n) ≡ n
  part-all n = omega arith

  copied :
      (dest : List ℕ) (n : ℕ)
      → n ≤ r.size
      → n ≤ length dest
      → blit dest 0 (take n (contents r)) ≡ take n (contents r) ++ drop n dest
  copied dest n h room =
      blit_whole dest (take n (contents r)) (omega (arith, long))
      ∙ ap (λ k. take n (contents r) ++ drop k dest) long
    where
      long : length (take n (contents r)) ≡ n
      long = omega (arith, length-take n (contents r), length-contents r)

  peek_some-eq :
      (dest : List ℕ) (n : ℕ)
      → n ≤ r.size
      → n ≤ length dest
      → peek_some r dest n ≡ (n, some (take n (contents r) ++ drop n dest))
  unfolding peek_some
  peek_some-eq dest n h room = elim (Bool-cases (n == 0)) [
    | inl t ↦ let e : n ≡ 0 = (==_iff n 0).0 t in rw e
    | inr f ↦
        rw (f, sub64-head v, sub64-part)
          (ap (λ (d : List ℕ). let p : ℕ × Option (List ℕ) = (n, some d) in p)
            (peek_parts-eq dest (part n) (n - part n) (omega arith) (λ p. omega arith) (omega arith)
              ∙ ap (λ k. blit dest 0 (take k (contents r))) (part-all n)
              ∙ copied dest n h room))
  ]
    where
      sub64-part : sub64 n (part n) ≡ n - part n
      sub64-part = omega arith

  -- On a valid ring, a peek copies the oldest bytes, as many as there are and as are asked for,
  -- over the start of a destination that is long enough, and returns their number.
  pub peek_lem :
      (dest : List ℕ) (len : ℕ)
      → len ≤ length dest
      → let n = min len r.size in
        peek r (some dest) len ≡ (n, some (take n (contents r) ++ drop n dest))
  unfolding peek
  peek_lem dest len room = elim (Bool-cases (len == 0)) [
    | inl t ↦ let e : min len r.size ≡ 0 = ground arith in rw (t, e)
    | inr f ↦ rw f (peek_some-eq dest (min len r.size) (omega arith) (omega arith))
  ]

  read_some-eq :
      (dest : List ℕ) (n : ℕ)
      → n ≤ r.size
      → n ≤ length dest
      → ((read_some r dest n).0 ≡ n)
        × ((read_some r dest n).1 ≡ some (take n (contents r) ++ drop n dest))
        × Dropped r n (read_some r dest n).2
  unfolding read_some
  read_some-eq dest n h room = elim (Bool-cases (n == 0)) [
    | inl t ↦ let e : n ≡ 0 = (==_iff n 0).0 t in rw e (refl, refl, nothing)
    | inr f ↦
        rw (f, sub64-head v, sub64-part)
          (
            refl,
            ap some (
                parts.0
                ∙ ap (λ k. blit dest 0 (take k (contents r))) (part-all n)
                ∙ copied dest n h room),
            subst (λ k. Dropped r k (read_parts r dest (part n) (n - part n)).1) (part-all n)
                parts.1,
          )
  ]
    where
      sub64-part : sub64 n (part n) ≡ n - part n
      sub64-part = omega arith

      parts :
          ((read_parts r dest (part n) (n - part n)).0
            ≡ blit dest 0 (take (part n + (n - part n)) (contents r)))
          × Dropped r (part n + (n - part n)) (read_parts r dest (part n) (n - part n)).1
      parts =
          read_parts-eq dest (part n) (n - part n) (omega arith) (λ p. omega arith) (omega arith)

  -- On a valid ring, a read copies what peek would, and drops exactly those bytes.
  pub read_lem :
      (dest : List ℕ) (len : ℕ)
      → len ≤ length dest
      → let n = min len r.size in
        ((read r (some dest) len).0 ≡ n)
        × ((read r (some dest) len).1 ≡ some (take n (contents r) ++ drop n dest))
        × Dropped r n (read r (some dest) len).2
  unfolding read
  read_lem dest len room = elim (Bool-cases (len == 0)) [
    | inl t ↦ let e : min len r.size ≡ 0 = ground arith in rw (t, e) (refl, refl, nothing)
    | inr f ↦ rw f (read_some-eq dest (min len r.size) (omega arith) (omega arith))
  ]

  -- The same for a length that is there.
  pub peek_exact :
      (dest : List ℕ) (len : ℕ)
      → len ≤ length dest
      → len ≤ r.size
      → peek r (some dest) len ≡ (len, some (take len (contents r) ++ drop len dest))
  peek_exact dest len room h =
      let e : min len r.size ≡ len = omega arith in rw e at (peek_lem dest len room)

  pub read_exact :
      (dest : List ℕ) (len : ℕ)
      → len ≤ length dest
      → len ≤ r.size
      → ((read r (some dest) len).0 ≡ len)
        × ((read r (some dest) len).1 ≡ some (take len (contents r) ++ drop len dest))
        × Dropped r len (read r (some dest) len).2
  read_exact dest len room h =
      let e : min len r.size ≡ len = omega arith in rw e at (read_lem dest len room)
