-- ===== src/Buffer/Ring/Parts.antt =====
-- What one contiguous copy into the ring, or out of it, does to the bytes that the ring holds.
use network_engine_portfolio.Prelude.{
  ℕ, ◌+◌, ◌-◌, ◌≤◌, ◌<◌, ◌≡◌, ap, ap₂, sym, ◌∙◌, List, ◌++◌, length, get_or, drop, take, arith,
  tabulate-ext, tabulate-append, tabulate-get_or, take-of-tabulate, drop-of-tabulate,
  take-drop-tabulate, get_or-blit, length-take, wrap, mod-wrap,
}
use network_engine_portfolio.Buffer.Ring.{RingBuffer, slice, put_part, drop_part}
use network_engine_portfolio.Buffer.Ring.Valid.{
  IsValid, byte_at, contents, put_part-IsValid, drop_part-IsValid,
}

module _ {r : RingBuffer} (bytes : List ℕ) (n : ℕ) (v : IsValid r)
    (free : n ≤ r.capacity - r.size) where
  byte_at-put_old :
      (i : ℕ) → n ≤ r.capacity - r.tail → i < r.size → byte_at (put_part r bytes n) i ≡ byte_at r i
  unfolding put_part
  byte_at-put_old i fits h = ground (
    arith,
    length-take n bytes,
    get_or-blit r.buffer r.tail (take n bytes) (wrap r.capacity (r.head + i)) 0,
  )

  byte_at-put_new :
      (i : ℕ)
      → n ≤ r.capacity - r.tail
      → n ≤ length bytes
      → i < n
      → byte_at (put_part r bytes n) (r.size + i) ≡ get_or (take n bytes) i 0
  unfolding put_part
  byte_at-put_new i fits given h = rw place (
      ground (
        arith,
        length-take n bytes,
        ap (λ k. get_or (take n bytes) k 0) back,
        get_or-blit r.buffer r.tail (take n bytes) (r.tail + i) 0,
      ))
    where
      place : wrap r.capacity (r.head + (r.size + i)) ≡ r.tail + i
      place = ground arith

      back : r.tail + i - r.tail ≡ i
      back = omega arith

  -- The bytes that a write copies up to the end of the storage come behind those stored.
  pub contents-put_part :
      n ≤ r.capacity - r.tail
      → n ≤ length bytes
      → contents (put_part r bytes n) ≡ contents r ++ take n bytes
  unfolding contents
  contents-put_part fits given =
      tabulate-append r.size n (put_part r bytes n).size (byte_at (put_part r bytes n))
        (λ i. get_or (take n bytes) i 0) (sym (put_part-IsValid bytes n v free).1)
        (λ i l. byte_at-put_new i fits given l)
      ∙ ap₂ ◌++◌
          (tabulate-ext r.size (byte_at (put_part r bytes n)) (byte_at r)
            (λ i l. byte_at-put_old i fits l))
          (tabulate-get_or (take n bytes) 0 n (omega (arith, length-take n bytes)))

module _ {r : RingBuffer} (n : ℕ) (v : IsValid r) (stored : n ≤ r.size) where
  byte_at-drop_part : (i : ℕ) → i < r.size - n → byte_at r (n + i) ≡ byte_at (drop_part r n) i
  unfolding drop_part
  byte_at-drop_part i h =
      ap (λ k. get_or r.buffer k 0) (ground (arith, mod-wrap r.capacity (r.head + n)))

  -- Moving the head over the oldest bytes drops them.
  pub contents-drop_part : contents (drop_part r n) ≡ drop n (contents r)
  unfolding contents
  contents-drop_part = sym (
      drop-of-tabulate n (drop_part r n).size r.size (byte_at r) (byte_at (drop_part r n))
        (omega (arith, drop_part-IsValid n v stored))
        (λ i l. byte_at-drop_part i (omega (arith, drop_part-IsValid n v stored))))

  -- What a contiguous read copies is the oldest bytes.
  pub slice-head : n ≤ r.capacity - r.head → slice r.buffer r.head n ≡ take n (contents r)
  unfolding contents
  slice-head fits =
      take-drop-tabulate r.buffer 0 r.head n (omega arith)
      ∙ tabulate-ext n (λ i. get_or r.buffer (r.head + i) 0) (byte_at r)
          (λ i l. ap (λ k. get_or r.buffer k 0) (ground arith))
      ∙ sym (take-of-tabulate n r.size (byte_at r) stored)
