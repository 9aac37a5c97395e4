-- ===== src/Ring/Fill.antt =====
-- ringbuffer/ringbuffer.go: where the copy of `Write` puts its bytes. They extend the window of the
-- readable bytes and touch none of those.
use native.Mathlib.Nat.{mod-lt}
use connaxis.Prelude.{
  ℕ, ◌+◌, ◌-◌, ◌%◌, ◌≤◌, ◌<◌, ◌≡◌, refl, ap, ap₂, ◌∙◌, inl, inr, ◌⊎◌, Bool-cases, ltb, ◌++◌, Bytes,
  copy_at, ltb→lt, ltb→le, arith,
}
use connaxis.Prelude.Lists.{
  length, get_or, take, drop, length-take, length-drop, drop-drop, drop-append_ge, take-append-drop,
}
use connaxis.Prelude.Slices.{
  length-copy_at, copy-eq-append, slice-copy_at, get_or-copy_at_before, get_or-copy_at_after,
}
use connaxis.Ring.{RingBuffer, put_bytes}
use connaxis.Ring.Window.{window, window-take, window-round, window-ext}
use connaxis.Prelude.Modulo.{mod-step, mod-step_round}
use connaxis.Ring.Valid.{contents}

-- The index of a readable byte, `d` steps before the end, is outside of the free region.
readable_outside :
    (j d len size : ℕ)
    → 0 < size
    → 0 < d
    → d + len ≤ size
    → (j % size < (j + d) % size) × ((j + d) % size + len < size + j % size + 1)
      ⊎ ((j + d) % size + len ≤ j % size)
readable_outside j d len size p q h = elim (Bool-cases (ltb (j % size + d) size)) [
  | inl straight ↦
      let step = mod-step j d size (omega arith) p (ltb→lt _ _ straight) in
      inl (omega arith, omega arith)
  | inr round ↦
      let over = ltb→le _ _ round in
      let step = mod-step_round j d size (omega arith) p over in inr (omega (arith, mod-lt j p))
]

-- A write at the front does not reach the end of the buffer.
drop-copy_front :
    (buf p : Bytes) (s : ℕ) → length p ≤ s → s ≤ length buf → drop s (copy_at buf 0 p) ≡ drop s buf
unfolding copy_at
drop-copy_front buf p s h k = rw (copy-eq-append buf p (omega arith)) (
    drop-append_ge s p (drop (length p) buf) h
    ∙ drop-drop (s - length p) (length p) buf
    ∙ ap (λ j. drop j buf) (omega arith))

module _ (rb : RingBuffer) (p : Bytes) where
  -- The new bytes, without going round.
  fill_straight :
      rb.size ≤ length rb.buf
      → 0 < rb.size
      → rb.w % rb.size + length p < rb.size
      → window (copy_at rb.buf (rb.w % rb.size) p) rb.size rb.w (length p) ≡ p
  fill_straight l q h =
      window-take _ rb.size (length p) rb.w (rb.w % rb.size) refl (omega arith)
        (omega (arith, length-copy_at rb.buf (rb.w % rb.size) p))
      ∙ ap (λ k. take k (drop (rb.w % rb.size) (copy_at rb.buf (rb.w % rb.size) p))) (omega arith)
      ∙ slice-copy_at rb.buf (rb.w % rb.size) p (omega arith)

-- The new bytes, going round: the end of the buffer first, and then its front.
module _ (buf p : Bytes) (size w c : ℕ) where
  fill_round :
      size ≤ length buf
      → 0 < size
      → c ≡ size - w % size
      → c ≤ length p
      → length p ≤ size
      → window (copy_at (copy_at buf (w % size) (take c p)) 0 (drop c p)) size w (length p) ≡ p
  fill_round l q e h f =
      window-round _ size (length p) w (w % size) refl q (omega arith) f (
        omega (
          arith,
          length-copy_at (copy_at buf (w % size) (take c p)) 0 (drop c p),
          length-copy_at buf (w % size) (take c p),
        ))
      ∙ ap₂ ◌++◌ tail_part front_part
      ∙ take-append-drop c p
    where
      inside : w % size < size
      inside = mod-lt w q

      tail_part :
          take
            (size - w % size)
            (drop (w % size) (copy_at (copy_at buf (w % size) (take c p)) 0 (drop c p)))
          ≡ take c p
      tail_part =
          rw
            (drop-copy_front (copy_at buf (w % size) (take c p)) (drop c p) (w % size)
              (omega (arith, inside, length-drop c p))
              (omega (arith, inside, length-copy_at buf (w % size) (take c p))))
            (ap (λ k. take k (drop (w % size) (copy_at buf (w % size) (take c p))))
                (omega (arith, length-take c p))
              ∙ slice-copy_at buf (w % size) (take c p) (omega (arith, inside, length-take c p)))

      front_part :
          take
            (length p - (size - w % size))
            (copy_at (copy_at buf (w % size) (take c p)) 0 (drop c p))
          ≡ drop c p
      front_part =
          ap (λ k. take k (copy_at (copy_at buf (w % size) (take c p)) 0 (drop c p)))
            (omega (arith, length-drop c p))
          ∙ slice-copy_at (copy_at buf (w % size) (take c p)) 0 (drop c p)
              (omega (arith, length-drop c p, length-copy_at buf (w % size) (take c p)))

-- `put_bytes` of all of `p` into a ring with room for it.
pub put_bytes-new :
    (rb : RingBuffer) (p : Bytes)
    → rb.size ≤ length rb.buf
    → 0 < rb.size
    → length p ≤ rb.size
    → window (put_bytes rb p (length p)) rb.size rb.w (length p) ≡ p
unfolding put_bytes
put_bytes-new rb p l q f = elim (Bool-cases (ltb (rb.w % rb.size + length p) rb.size)) [
  | inl straight ↦ rw (straight, put_bytes) (fill_straight rb p l q (ltb→lt _ _ straight))
  | inr round ↦
      let over = ltb→le _ _ round in
      rw (round, put_bytes)
        (fill_round rb.buf p rb.size rb.w (rb.size - rb.w % rb.size) l q refl (omega arith) f)
]

-- The readable bytes are the same afterwards.
put_bytes_at :
    (rb : RingBuffer) (p : Bytes) (j d : ℕ)
    → rb.size ≤ length rb.buf
    → 0 < rb.size
    → 0 < d
    → d + length p ≤ rb.size
    → j + d ≡ rb.w
    → get_or (put_bytes rb p (length p)) (j % rb.size) 0 ≡ get_or rb.buf (j % rb.size) 0
unfolding put_bytes
put_bytes_at rb p j d l q pos h e = elim (Bool-cases (ltb (rb.w % rb.size + length p) rb.size)) [
  | inl straight ↦
      rw (straight, put_bytes)
        (elim outside [
          | inl (before, _) ↦
              get_or-copy_at_before rb.buf ws p (j % rb.size) 0 before (omega (arith, inside))
          | inr after ↦
              get_or-copy_at_after rb.buf ws p (j % rb.size) 0 after
                (omega (arith, ltb→lt _ _ straight))
        ])
  | inr round ↦
      let over = ltb→le _ _ round in
      rw (round, put_bytes)
        (get_or-copy_at_after once 0 (drop c p) (j % rb.size) 0 (clear over)
            (omega (arith, length-drop c p, length-copy_at rb.buf ws (take c p)))
          ∙ get_or-copy_at_before rb.buf ws (take c p) (j % rb.size) 0 (ahead over)
              (omega (arith, inside)))
]
  where
    ws : ℕ
    ws = rb.w % rb.size

    c : ℕ
    c = rb.size - ws

    once : Bytes
    once = copy_at rb.buf ws (take c p)

    inside : ws < rb.size
    inside = mod-lt rb.w q

    outside :
        (j % rb.size < ws) × (ws + length p < rb.size + j % rb.size + 1)
        ⊎ (ws + length p ≤ j % rb.size)
    outside = rw e at (readable_outside j d (length p) rb.size q pos h)

    clear : rb.size ≤ ws + length p → 0 + length (drop c p) ≤ j % rb.size
    clear over = omega (arith, outside, length-drop c p, mod-lt j q, inside)

    ahead : rb.size ≤ ws + length p → j % rb.size < ws
    ahead over = omega (arith, outside, mod-lt j q, inside)

pub put_bytes-old :
    (rb : RingBuffer) (p : Bytes)
    → rb.size ≤ length rb.buf
    → 0 < rb.size
    → rb.r ≤ rb.w
    → rb.w - rb.r + length p ≤ rb.size
    → window (put_bytes rb p (length p)) rb.size rb.r (rb.w - rb.r) ≡ contents rb
put_bytes-old rb p l q o h = window-ext _ rb.buf rb.size (rb.w - rb.r) rb.r (λ i lt.
    put_bytes_at rb p (rb.r + i) (rb.w - (rb.r + i)) l q (omega arith) (omega arith) (omega arith))

pub length-put_bytes :
    (rb : RingBuffer) (p : Bytes) (len : ℕ) → length (put_bytes rb p len) ≡ length rb.buf
unfolding put_bytes
length-put_bytes rb p len = ground (
  arith,
  length-copy_at rb.buf (rb.w % rb.size) p,
  length-copy_at rb.buf (rb.w % rb.size) (take (rb.size - rb.w % rb.size) p),
  length-copy_at (copy_at rb.buf (rb.w % rb.size) (take (rb.size - rb.w % rb.size) p)) 0
      (drop (rb.size - rb.w % rb.size) p),
)
