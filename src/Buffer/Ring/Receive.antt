-- ===== src/Buffer/Ring/Receive.antt =====
-- `writeIov`, a receive into the places that it describes, and `commitWrite` do what `write` does.
use network_engine_portfolio.Prelude.{
  ℕ, ◌+◌, ◌-◌, ◌≤◌, ◌<◌, ◌≡◌, refl, ap, subst, ◌∙◌, inl, inr, List, [], ◌∷◌, length, drop, take,
  arith, Option, some, none, false, true, min, ltb, ltb→lt, ◌==◌, Bool-cases, sub64, zero, suc,
  take_all, length-drop, mod-wrap, blit, wrap,
}
use network_engine_portfolio.Buffer.Ring.{
  RingBuffer, put_part, free_space, Iovecs, iov_parts, iov_some, write_iov, commit_write,
}
use network_engine_portfolio.Buffer.Ring.Valid.{IsValid, free_space-eq, tail_in, put_part-IsValid}
use network_engine_portfolio.Buffer.Ring.Write.{
  Appended, tail-put_part, two_parts-Appended, put_part-Appended, capacity-put_part,
}

-- What a receive leaves in `buffer_`: the bytes fill the entries in order (recvmsg, readv).
abbrev pub place : List ℕ → Option ℕ → List ℕ → List ℕ
place buffer none bytes = buffer
place buffer (some off) bytes = blit buffer off bytes

abbrev pub scatter : List ℕ → ℕ × Option Iovecs → List ℕ → List ℕ
scatter buffer (n, none) bytes = buffer
scatter buffer (zero, some out) bytes = buffer
scatter buffer (suc zero, some (a, b)) bytes = place buffer a.base bytes
scatter buffer (suc (suc n), some (a, b)) bytes =
    place (place buffer a.base (take a.len bytes)) b.base (drop a.len bytes)

-- The free places are described, all of them if `maxLen` is the free space, and the receive of
-- `bytes` into them is committed.
unfoldable pub receive : RingBuffer → Iovecs → List ℕ → RingBuffer
receive r out bytes =
    commit_write
      (record r { buffer = scatter r.buffer (write_iov r (some out) (free_space r)) bytes })
      (length bytes)

-- What `commitWrite` does to the indices; it does not look at the bytes.
commit_write-eq :
    {r : RingBuffer} (b : List ℕ) (n : ℕ)
    → IsValid r
    → n ≤ r.capacity - r.size
    → commit_write (record r { buffer = b }) n
      ≡ record r { buffer = b; tail = wrap r.capacity (r.tail + n); size = r.size + n }
unfolding commit_write free_space
commit_write-eq {r} b n v h = ground (arith, tail_in v, mod-wrap r.capacity (r.tail + n))

put_part-eq :
    {r : RingBuffer} (bytes : List ℕ) (n : ℕ)
    → IsValid r
    → n ≤ r.capacity - r.size
    → put_part r bytes n ≡ record r {
      buffer = blit r.buffer r.tail (take n bytes);
      tail = wrap r.capacity (r.tail + n);
      size = r.size + n;
    }
unfolding put_part
put_part-eq {r} bytes n v h = ground (arith, tail_in v, mod-wrap r.capacity (r.tail + n))

buffer-put_part :
    (r : RingBuffer) (bytes : List ℕ) (n : ℕ)
    → (put_part r bytes n).buffer ≡ blit r.buffer r.tail (take n bytes)
unfolding put_part
buffer-put_part r bytes n = refl

head-put_part : (r : RingBuffer) (bytes : List ℕ) (n : ℕ) → (put_part r bytes n).head ≡ r.head
unfolding put_part
head-put_part r bytes n = refl

module _ {r : RingBuffer} (v : IsValid r) (bytes : List ℕ) (given : 0 < length bytes)
    (room : length bytes ≤ r.capacity - r.size) where
  abbrev n : ℕ
  n = length bytes

  abbrev first : ℕ
  first = min (r.capacity - r.size) (r.capacity - r.tail)

  abbrev more : ℕ
  more = r.capacity - r.size - first

  fits : sub64 r.capacity r.tail ≡ r.capacity - r.tail
  fits = omega (arith, tail_in v)

  write_iov-eq :
      (out : Iovecs) → write_iov r (some out) (free_space r) ≡ iov_parts r.tail first more
  unfolding write_iov iov_some
  write_iov-eq out =
      let z : (r.capacity - r.size == 0) ≡ false = ground arith in
      let m : min (r.capacity - r.size) (r.capacity - r.size) ≡ r.capacity - r.size = omega arith in
      let rest : sub64 (r.capacity - r.size) first ≡ more = omega arith in
      rw (free_space-eq v, z, m, z, fits, rest)

  blit_nothing : (xs : List ℕ) → blit xs 0 [] ≡ xs
  blit_nothing [] = refl
  blit_nothing (x ∷ xs) = refl

  drop_all : (xs : List ℕ) (k : ℕ) → length xs ≤ k → drop k xs ≡ []
  drop_all [] zero h = refl
  drop_all [] (suc k) h = refl
  drop_all (x ∷ xs) zero h = absurd (omega arith)
  drop_all (x ∷ xs) (suc k) h = drop_all xs k (omega arith)

  -- Where the bytes are placed: all before the end of the storage, or round it.
  placed_whole :
      n ≤ r.capacity - r.tail
      → scatter r.buffer (iov_parts r.tail first more) bytes ≡ blit r.buffer r.tail bytes
  unfolding iov_parts
  placed_whole h = elim (Bool-cases (ltb 0 more)) [
    | inl t ↦
        rw (t, take_all first bytes (ground arith), drop_all bytes first (ground arith))
          (blit_nothing (blit r.buffer r.tail bytes))
    | inr f ↦ rw f
  ]

  placed_round :
      r.capacity - r.tail < n
      → scatter r.buffer (iov_parts r.tail first more) bytes
        ≡ blit (blit r.buffer r.tail (take first bytes)) 0 (drop first bytes)
  unfolding iov_parts
  placed_round h = let t : ltb 0 more ≡ true = ground arith in rw t

  -- With it the receive is one copy of a write, or two.
  receive_whole :
      (out : Iovecs) → n ≤ r.capacity - r.tail → receive r out bytes ≡ put_part r bytes n
  unfolding receive
  receive_whole out h = rw (
    write_iov-eq out,
    placed_whole h,
    commit_write-eq (blit r.buffer r.tail bytes) n v room,
    put_part-eq bytes n v room,
    take_all n bytes (omega arith),
  )

  receive_round :
      (out : Iovecs)
      → r.capacity - r.tail < n
      → receive r out bytes ≡ put_part (put_part r bytes first) (drop first bytes) (n - first)
  unfolding receive
  receive_round out h =
      rw
        (
          write_iov-eq out,
          placed_round h,
          commit_write-eq (blit (blit r.buffer r.tail (take first bytes)) 0 (drop first bytes)) n v
              room,
          put_part-eq (drop first bytes) (n - first) r'.0
              (omega (arith, r'.1, capacity-put_part r bytes first)),
        )
        (ground (
          arith,
          r'.1,
          e,
          restart,
          buffer-put_part r bytes first,
          head-put_part r bytes first,
          capacity-put_part r bytes first,
          take_all (n - first) (drop first bytes),
          length-drop first bytes,
          tail_in v,
        ))
    where
      r' : IsValid (put_part r bytes first) × ((put_part r bytes first).size ≡ r.size + first)
      r' = put_part-IsValid bytes first v (omega arith)

      e : first ≡ r.capacity - r.tail
      e = omega arith

      restart : (put_part r bytes first).tail ≡ 0
      restart = rw e (tail-put_part bytes v)

  -- On a valid ring, a receive of one byte or more, at most as many as there is room for, into the
  -- places that writeIov describes over the whole free space, and commitWrite of their number,
  -- append the received bytes.
  pub receive-Appended : (out : Iovecs) → Appended r bytes (receive r out bytes)
  receive-Appended out = elim (Bool-cases (ltb (r.capacity - r.tail) n)) [
    | inl t ↦
        let l : r.capacity - r.tail < n = ltb→lt (r.capacity - r.tail) n t in
        let e : first + (n - first) ≡ n = omega arith in
        rw (receive_round out l) (
          subst
            (λ (b : List ℕ).
              Appended r b (put_part (put_part r bytes first) (drop first bytes) (n - first)))
            (ap (λ k. take k bytes) e ∙ take_all n bytes (omega arith))
            (two_parts-Appended bytes v first (n - first) (omega arith) (omega arith)
              (omega arith)))
    | inr f ↦
        let l : n ≤ r.capacity - r.tail = ground arith in
        rw (receive_whole out l) (
          subst (λ (b : List ℕ). Appended r b (put_part r bytes n)) (take_all n bytes (omega arith))
            (put_part-Appended bytes v n room l (omega arith)))
  ]
