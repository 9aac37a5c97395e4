-- ===== src/Ring/Access.antt =====
-- ringbuffer/ringbuffer.go: what `Read`, `Forward` and `Peek2` return and leave, against the bytes
-- that the ring holds.
use native.Mathlib.Nat.{mod-lt}
use connaxis.Prelude.{
  ℕ, ◌+◌, ◌-◌, ◌%◌, ◌≤◌, ◌<◌, ◌≡◌, refl, sym, ap, ◌∙◌, inl, inr, ◌⊎◌, Bool-cases, ltb, leb, ◌==◌,
  ◌++◌, min, Bool, true, false, ◌||◌, append-nil, Bytes, slice, ltb→lt, ltb→le, leb→le, leb→lt,
  ==→eq, arith, some, pos, negsuc, if◌then◌else◌,
}
use connaxis.Prelude.Lists.{length, take, drop, drop-all}
use connaxis.Prelude.Slices.{slice-zero}
use connaxis.Ring.{RingBuffer, copy_out, read, forward, op_read, peek2}
use connaxis.Ring.Window.{
  window, length-window, window-take, window-round, take-window, drop-window,
}
use connaxis.Ring.Valid.{IsValid, contents, copy_out_lem}

-- The ring after `n` bytes have been consumed.
abbrev advanced : RingBuffer → ℕ → RingBuffer
advanced rb n = record rb { r = rb.r + n }

advanced-IsValid :
    (rb : RingBuffer) (n : ℕ) → IsValid rb → n ≤ rb.w - rb.r → IsValid (advanced rb n)
advanced-IsValid rb n v h = omega arith

contents-advanced :
    (rb : RingBuffer) (n : ℕ) → n ≤ rb.w - rb.r → contents (advanced rb n) ≡ drop n (contents rb)
contents-advanced rb n h =
    ap (window rb.buf rb.size (rb.r + n)) (omega arith)
    ∙ sym (drop-window rb.buf rb.size n (rb.w - rb.r) rb.r h)

-- The bytes that a read of `len` takes.
abbrev count_of : RingBuffer → ℕ → ℕ
count_of rb len = min len (rb.w - rb.r)

read_nonempty :
    (rb : RingBuffer) (p : Bytes) (len : ℕ) (update : Bool)
    → IsValid rb
    → 0 < length p
    → len ≤ length p
    → rb.r < rb.w
    → read rb p len update
      ≡ some (
        pos (count_of rb len),
        take (count_of rb len) (contents rb) ++ drop (count_of rb len) p,
        if update then advanced rb (count_of rb len) else rb,
      )
unfolding read
read_nonempty rb p len update v h k more = rw (accepted, nonempty, allocated, counted, moved) refl
  where
    accepted : (length p == 0 || ltb (length p) len) ≡ false
    accepted = ground arith

    nonempty : (rb.w == rb.r) ≡ false
    nonempty = ground arith

    allocated : (rb.size == 0) ≡ false
    allocated = ground arith

    counted : (if ltb len (rb.w - rb.r) then len else rb.w - rb.r) ≡ count_of rb len
    counted = ground arith

    moved :
        copy_out rb (count_of rb len) p
        ≡ take (count_of rb len) (contents rb) ++ drop (count_of rb len) p
    moved =
        copy_out_lem rb (count_of rb len) p v.in_buf (omega arith) (omega arith) (omega arith)
        ∙ ap (λ front. front ++ drop (count_of rb len) p)
            (sym (take-window rb.buf rb.size (count_of rb len) (rb.w - rb.r) rb.r (omega arith)))

read_empty :
    (rb : RingBuffer) (p : Bytes) (len : ℕ) (update : Bool)
    → 0 < length p
    → len ≤ length p
    → rb.w ≡ rb.r
    → read rb p len update ≡ some (pos 0, p, rb)
unfolding read
read_empty rb p len update h k e = ground arith

-- The outcome of `Read`, with the number of readable bytes named.
read_outcome :
    (rb : RingBuffer) (p : Bytes) (len : ℕ) (update : Bool) (n : ℕ)
    → IsValid rb
    → 0 < length p
    → len ≤ length p
    → n ≡ min len (rb.w - rb.r)
    → (rb' : RingBuffer) × (read rb p len update
        ≡ some (pos n, take n (contents rb) ++ drop n p, rb'))
      × IsValid rb'
      × (contents rb' ≡ (if update then drop n (contents rb) else contents rb))
read_outcome rb p len update n v h k e = elim (Bool-cases (rb.w == rb.r)) [
  | inl empty ↦
      let same = ==→eq _ _ empty in
      let zero_read : n ≡ 0 = omega arith in
      (rb, rw zero_read (read_empty rb p len update h k same), v, rw zero_read (ground arith))
  | inr more ↦
      let least : n ≤ rb.w - rb.r = omega arith in
      (
        if update then advanced rb n else rb,
        rw e (read_nonempty rb p len update v h k (ground arith)),
        after_valid update least,
        after_contents update least,
      )
]
  where
    after_valid : (u : Bool) → n ≤ rb.w - rb.r → IsValid (if u then advanced rb n else rb)
    after_valid true l = advanced-IsValid rb n v l
    after_valid false l = v

    after_contents :
        (u : Bool)
        → n ≤ rb.w - rb.r
        → contents (if u then advanced rb n else rb)
          ≡ (if u then drop n (contents rb) else contents rb)
    after_contents true l = contents-advanced rb n l
    after_contents false l = refl

-- `Read` with room in `p`: it returns the number of bytes that were there, up to `length`, puts the
-- oldest ones at the front of `p`, and consumes them exactly when `update` is set.
pub read_lem :
    (rb : RingBuffer) (p : Bytes) (len : ℕ) (update : Bool)
    → IsValid rb
    → 0 < length p
    → len ≤ length p
    → let n = min len (length (contents rb)) in
      (rb' : RingBuffer) × (read rb p len update
        ≡ some (pos n, take n (contents rb) ++ drop n p, rb'))
      × IsValid rb'
      × (contents rb' ≡ (if update then drop n (contents rb) else contents rb))
read_lem rb p len update v h k =
    read_outcome rb p len update _ v h k
      (ap (min len) (length-window rb.buf rb.size rb.r (rb.w - rb.r)))

length-contents : (rb : RingBuffer) → length (contents rb) ≡ rb.w - rb.r
length-contents rb = length-window rb.buf rb.size rb.r (rb.w - rb.r)

-- `Forward(step, OpRead)` consumes `step` bytes, or refuses if there are fewer.
pub forward_read :
    (rb : RingBuffer) (step : ℕ)
    → IsValid rb
    → let (code, rb') = forward rb step op_read in
      ((step ≤ length (contents rb))
        × (code ≡ pos 0)
        × (contents rb' ≡ drop step (contents rb))
        × IsValid rb')
      ⊎ ((length (contents rb) < step) × (code ≡ negsuc 0) × (rb' ≡ rb))
unfolding forward
forward_read rb step v = elim (Bool-cases (ltb rb.w (rb.r + step))) [
  | inl short ↦ inr (
    omega (arith, ltb→lt _ _ short, length-contents rb),
    rw (short, forward),
    rw (short, forward),
  )
  | inr enough ↦
      let there = ltb→le _ _ enough in
      elim (Bool-cases (rb.r + step == rb.w)) [
        | inl drained ↦
            let all = ==→eq _ _ drained in
            inl (
              omega (arith, length-contents rb),
              rw (enough, forward),
              rw (enough, forward, drained)
                  (sym (drop-all step (contents rb) (omega (arith, length-contents rb)))),
              rw (enough, forward, drained)
                  (record { in_buf = v.in_buf; ordered = omega arith; bounded = omega arith }),
            )
        | inr left ↦ inl (
          omega (arith, length-contents rb),
          rw (enough, forward),
          rw (enough, forward, left) (contents-advanced rb step (omega arith)),
          rw (enough, forward, left) (advanced-IsValid rb step v (omega arith)),
        )
      ]
]

-- `Peek2` returns the readable bytes, in one piece or in two.
pub peek2_lem : (rb : RingBuffer) → IsValid rb → (peek2 rb).0 ++ (peek2 rb).1 ≡ contents rb
unfolding peek2
peek2_lem rb v = elim (Bool-cases (rb.size == 0 || rb.w == rb.r)) [
  | inl empty ↦ let none_left : rb.w - rb.r ≡ 0 = ground arith in rw (empty, peek2, none_left) refl
  | inr more ↦
      let room : 0 < rb.size = ground arith in
      elim (Bool-cases (leb (rb.r % rb.size + (rb.w - rb.r)) rb.size)) [
        | inl straight ↦
            rw (more, peek2, straight)
              (append-nil _
                ∙ ap (λ k. take k (drop (rb.r % rb.size) rb.buf)) (omega arith)
                ∙ sym (window-take rb.buf rb.size _ rb.r _ refl (leb→le _ _ straight) v.in_buf))
        | inr round ↦
            let over = leb→lt _ _ round in
            rw (more, peek2, round)
              (ap (◌++◌ (slice rb.buf (rb.r % rb.size) rb.size))
                  (slice-zero rb.buf _ ∙ ap (λ k. take k rb.buf) (omega (arith, mod-lt rb.r room)))
                ∙ sym (
                    window-round rb.buf rb.size _ rb.r _ refl room (omega arith) (omega arith)
                      v.in_buf))
      ]
]
