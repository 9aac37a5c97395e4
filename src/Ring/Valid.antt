-- ===== src/Ring/Valid.antt =====
-- ringbuffer/ringbuffer.go: when a ring is well formed, and the bytes that it holds.
use native.Mathlib.Nat.{mod-lt}
use connaxis.Prelude.{
  ℕ, ◌+◌, ◌-◌, ◌%◌, ◌≤◌, ◌<◌, ◌≡◌, refl, sym, ap, ap₂, ◌∙◌, inl, inr, Bool-cases, ltb, ◌++◌,
  append_assoc, Bytes, slice, copy, copy_at, ltb→lt, ltb→le, arith,
}
use connaxis.Prelude.Lists.{length, take, drop, length-drop, drop-drop, drop-append_ge}
use connaxis.Prelude.Slices.{length-slice, slice-zero, take-copy, copy-eq-append}
use connaxis.Ring.{RingBuffer, copy_out}
use connaxis.Ring.Window.{window, length-window, window-take, window-round}

-- The indices are in order and at most a buffer apart.
pub record IsValid (rb : RingBuffer) : Type 0 where
  pub in_buf : rb.size ≤ length rb.buf
  pub ordered : rb.r ≤ rb.w
  pub bounded : rb.w ≤ rb.r + rb.size

-- The readable bytes, oldest first.
abbrev pub contents : RingBuffer → Bytes
contents rb = window rb.buf rb.size rb.r (rb.w - rb.r)

-- Writing two pieces side by side into a slice.
copy_at-copy :
    (dst a b : Bytes)
    → length a + length b ≤ length dst
    → copy_at (copy dst a) (length a) b ≡ (a ++ b) ++ drop (length a + length b) dst
unfolding copy_at
copy_at-copy dst a b h = ap₂ ◌++◌ (take-copy dst a (omega arith)) second ∙ sym (append_assoc a b _)
  where
    rest : drop (length a) (copy dst a) ≡ drop (length a) dst
    rest = rw (copy-eq-append dst a (omega arith)) (
        drop-append_ge (length a) a (drop (length a) dst) (omega arith)
        ∙ ap (λ k. drop k (drop (length a) dst)) {y = 0} (omega arith))

    second : copy (drop (length a) (copy dst a)) b ≡ b ++ drop (length a + length b) dst
    second = rw rest (
        copy-eq-append (drop (length a) dst) b (omega (arith, length-drop (length a) dst))
        ∙ ap (◌++◌ b) (drop-drop (length b) (length a) dst))

-- The same with the lengths named.
copy_two :
    (dst a b : Bytes) (c n : ℕ)
    → length a ≡ c
    → length a + length b ≡ n
    → n ≤ length dst
    → copy_at (copy dst a) c b ≡ (a ++ b) ++ drop n dst
copy_two dst a b c n e f h = rw (← e, ← f) (copy_at-copy dst a b (omega arith))

copy_one : (dst a : Bytes) (n : ℕ) → length a ≡ n → n ≤ length dst → copy dst a ≡ a ++ drop n dst
copy_one dst a n e h = rw (← e) (copy-eq-append dst a (omega arith))

-- `copy_out` puts the oldest `n` bytes at the front of the destination, and leaves the rest of it.
pub copy_out_lem :
    (rb : RingBuffer) (n : ℕ) (dst : Bytes)
    → rb.size ≤ length rb.buf
    → 0 < rb.size
    → n ≤ rb.size
    → n ≤ length dst
    → copy_out rb n dst ≡ window rb.buf rb.size rb.r n ++ drop n dst
unfolding copy_out
copy_out_lem rb n dst l p f g = elim (Bool-cases (ltb (rb.r % rb.size + n) rb.size)) [
  | inl straight ↦
      let below = ltb→lt _ _ straight in
      let same : slice rb.buf start (start + n) ≡ window rb.buf rb.size rb.r n =
        ap (λ k. take k (drop start rb.buf)) (omega arith)
        ∙ sym (window-take rb.buf rb.size n rb.r start refl (omega arith) l) in
      rw (straight, copy_out, same) (copy_one dst _ n (length-window rb.buf rb.size rb.r n) g)
  | inr round ↦
      let over = ltb→le _ _ round in
      let whole =
        window-round rb.buf rb.size n rb.r start refl p (omega arith) f l
        ∙ ap (◌++◌ (slice rb.buf start rb.size)) (sym (slice-zero rb.buf _)) in
      rw (round, copy_out, whole)
        (copy_two dst (slice rb.buf start rb.size) (slice rb.buf 0 (n - (rb.size - start)))
          (rb.size - start) n first_length (omega (arith, first_length, second_length over)) g)
]
  where
    start : ℕ
    start = rb.r % rb.size

    inside : start < rb.size
    inside = mod-lt rb.r p

    first_length : length (slice rb.buf start rb.size) ≡ rb.size - start
    first_length = length-slice rb.buf start rb.size (omega (arith, inside)) l

    second_length :
        rb.size ≤ start + n
        → length (slice rb.buf 0 (n - (rb.size - start))) ≡ n - (rb.size - start)
    second_length over =
        omega (
          arith,
          length-slice rb.buf 0 (n - (rb.size - start)) (omega arith) (omega (arith, inside)),
        )
